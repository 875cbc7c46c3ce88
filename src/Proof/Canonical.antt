-- ===== src/Proof/Canonical.antt =====
-- apps/web/lib/proof/canonicalize.ts: the canonical text of a JSON value, and its digest. Numbers are
-- the naturals; keys are compared by their characters, which is the order of `sort` on texts without
-- surrogates. The keys of an object differ.
pub mod Order
use Prim.Native.Char.{Char, code}
use Prim.Native.String.{◌++◌}
use nagarik_signals.Base.{
  ℕ, suc, zero, ◌+◌, ◌/◌, ◌%◌, ◌&&◌, ◌||◌, Bool, true, false, String, List, [], ◌∷◌, ltb, ◌==◌,
  nat_eq, if◌then◌else◌,
}
use nagarik_signals.Base.Text.{codes}
use nagarik_signals.Base.Hex.{hex_digit, to_hex}
use nagarik_signals.Base.Utf8.{utf8}
use nagarik_signals.Chain.Protocol.{Hashing}

mutual
  pub data Json : Type 0 where
    null : Json
    boolean : Bool → Json
    number : ℕ → Json
    text : String → Json
    array : Values → Json
    object : Members → Json

  pub data Values : Type 0 where
    no_values : Values
    value : Json → Values → Values

  pub data Members : Type 0 where
    no_members : Members
    member : String → Json → Members → Members

-- The decimal digits; as many steps as the number are enough.
unfoldable pub digits : (fuel n : ℕ) → String → String
digits zero n rest = rest
digits (suc fuel) n rest =
    let shown = String.◌∷◌ (hex_digit (n % 10)) rest in
    let more = digits fuel (n / 10) shown in if ltb n 10 then shown else more

abbrev pub decimal : ℕ → String
decimal n = digits (suc n) n ""

-- `JSON.stringify` of one character of a text.
unfoldable pub escape : Char → String → String
escape c rest =
    if code c == 34
    then "\\\"" ++ rest
    else if code c == 92
    then "\\\\" ++ rest
    else if code c == 8
    then "\\b" ++ rest
    else if code c == 9
    then "\\t" ++ rest
    else if code c == 10
    then "\\n" ++ rest
    else if code c == 12
    then "\\f" ++ rest
    else if code c == 13
    then "\\r" ++ rest
    else if ltb (code c) 32
    then "\\u00" ++ String.◌∷◌ (hex_digit (code c / 16)) (String.◌∷◌ (hex_digit (code c % 16)) rest)
    else String.◌∷◌ c rest

escape_all : String → String
escape_all String.[] = "\""
escape_all (String.◌∷◌ c s) = escape c (escape_all s)

unfoldable pub stringify : String → String
unfolding escape_all escape
stringify s = "\"" ++ escape_all s

-- `a` is not after `b` in the order of their characters.
unfoldable pub in_order : List ℕ → List ℕ → Bool
in_order [] bs = true
in_order (a ∷ more) [] = false
in_order (a ∷ more) (b ∷ bs) = ltb a b || a == b && in_order more bs

-- A member: its key, and the canonical text of its value.
abbrev pub Entry : Type 0
Entry = String × String

-- `sort`, by insertion.
unfoldable pub insert : Entry → List Entry → List Entry
insert e [] = e ∷ []
insert e (f ∷ fs) =
    let rest = insert e fs in if in_order (codes e.0) (codes f.0) then e ∷ f ∷ fs else f ∷ rest

unfoldable pub sort : List Entry → List Entry
sort [] = []
sort (e ∷ es) = insert e (sort es)

-- `join(',')`, after a first part.
unfoldable pub commas : List String → String
commas [] = ""
commas (a ∷ []) = a
commas (a ∷ b ∷ rest) = a ++ "," ++ commas (b ∷ rest)

unfoldable pub render : List Entry → List String
render [] = []
render (e ∷ es) = (stringify e.0 ++ ":" ++ e.1) ∷ render es

unfoldable mutual
  pub canonicalize : Json → String
  canonicalize null = "null"
  canonicalize (boolean true) = "true"
  canonicalize (boolean false) = "false"
  canonicalize (number n) = decimal n
  canonicalize (text s) = stringify s
  canonicalize (array vs) = "[" ++ commas (canonical_values vs) ++ "]"
  canonicalize (object ms) = "{" ++ commas (render (sort (canonical_members ms))) ++ "}"

  pub canonical_values : Values → List String
  canonical_values no_values = []
  canonical_values (value v vs) = canonicalize v ∷ canonical_values vs

  pub canonical_members : Members → List Entry
  canonical_members no_members = []
  canonical_members (member k v ms) = (k, canonicalize v) ∷ canonical_members ms

-- `createHash('sha256').update(canonicalize(value)).digest('hex')`
unfoldable pub json_hash : Hashing → Json → String
json_hash h v = to_hex (h.sha256 (utf8 (canonicalize v) ∷ []))
