-- ===== src/Security/Tokens.antt =====
-- apps/web/lib/security/capabilityTokens.ts: the texts that carry capabilities. The HMAC is a
-- parameter, and keys are bytes.
use Prim.Native.Char.{Char, code}
use Prim.Native.String.{char_at}
use nagarik_signals.Base.{
  ℕ, ◌+◌, ◌-◌, ◌*◌, ◌/◌, ◌%◌, ◌&&◌, ◌||◌, Bool, true, false, not, Option, none, some, String, List,
  [], ◌∷◌, ◌++◌, leb, ◌==◌, nat_eq, string_eq, list_eq, length, every, includes, replicate,
  if◌then◌else◌, Eq, nat_beq, ◌↔◌, ◌≡◌, arith,
}
use nagarik_signals.Base.Text.{Bytes, codes, is_hex, matches_places}

-- `CapabilityPurpose`
pub data Purpose : Type 0 where
  pilot_invitation pilot_intake pilot_signal submission_tracking privacy_tracking : Purpose
  submission_media operator_media privacy_export : Purpose

-- `capabilityPurposes`
abbrev pub purpose_id : Purpose → ℕ
purpose_id pilot_invitation = 1
purpose_id pilot_intake = 2
purpose_id pilot_signal = 3
purpose_id submission_tracking = 4
purpose_id privacy_tracking = 5
purpose_id submission_media = 6
purpose_id operator_media = 7
purpose_id privacy_export = 8

abbrev pub purpose_prefix : Purpose → String
purpose_prefix pilot_invitation = "npi"
purpose_prefix pilot_intake = "npc"
purpose_prefix pilot_signal = "nsg"
purpose_prefix submission_tracking = "nsc"
purpose_prefix privacy_tracking = "npr"
purpose_prefix submission_media = "nmr"
purpose_prefix operator_media = "nomr"
purpose_prefix privacy_export = "npe"

pub purpose_id_iff : (a b : Purpose) → (nat_beq (purpose_id a) (purpose_id b) ≡ true) ↔ (a ≡ b)
purpose_id_iff a b = ground arith

instance abbrev pub purpose_eq : Eq Purpose
purpose_eq = record {
  equals = λ a b. nat_beq (purpose_id a) (purpose_id b);
  equals_iff = purpose_id_iff;
}

abbrev all_purposes : List Purpose
all_purposes =
    pilot_invitation ∷ pilot_intake ∷ pilot_signal ∷ submission_tracking ∷ privacy_tracking
    ∷ submission_media ∷ operator_media ∷ privacy_export ∷ []

unfoldable pub with_prefix : String → List Purpose → Option Purpose
with_prefix prefix [] = none
with_prefix prefix (p ∷ ps) = if purpose_prefix p == prefix then some p else with_prefix prefix ps

-- `purposeByPrefix.get(prefix)`
unfoldable pub purpose_by_prefix : String → Option Purpose
purpose_by_prefix prefix = with_prefix prefix all_purposes

abbrev is_char : ℕ → List (ℕ → Bool)
is_char n = (λ c. c == n) ∷ []

-- `canonicalUuid`
unfoldable pub canonical_uuid : String → Bool
unfolding is_hex matches_places
canonical_uuid s =
    matches_places
      (replicate 8 is_hex
        ++ (is_char b'-'
            ++ (replicate 4 is_hex
                ++ (is_char b'-'
                    ++ ((λ c. leb b'1' c && leb c b'8') ∷ replicate 3 is_hex
                        ++ (is_char b'-'
                            ++ ((λ c. c == b'8' || c == b'9' || c == b'a' || c == b'b')
                                  ∷ replicate 3 is_hex
                                ++ (is_char b'-' ++ replicate 12 is_hex))))))))
      (codes s)

-- `value.split(separator)`
unfoldable pub push_char : Char → List String → List String
push_char c [] = String.◌∷◌ c "" ∷ []
push_char c (s ∷ ss) = String.◌∷◌ c s ∷ ss

unfoldable pub split : ℕ → String → List String
unfolding push_char
split separator String.[] = "" ∷ []
split separator (String.◌∷◌ c s) =
    let rest = split separator s in if code c == separator then "" ∷ rest else push_char c rest

-- The characters that `trim` removes.
abbrev spaces : List ℕ
spaces =
    9 ∷ 10 ∷ 11 ∷ 12 ∷ 13 ∷ 32 ∷ 160 ∷ 5760 ∷ 8192 ∷ 8193 ∷ 8194 ∷ 8195 ∷ 8196 ∷ 8197 ∷ 8198 ∷ 8199
    ∷ 8200 ∷ 8201 ∷ 8202 ∷ 8232 ∷ 8233 ∷ 8239 ∷ 8287 ∷ 12288 ∷ 65279 ∷ []

unfoldable pub ends_in_space : List ℕ → Bool
ends_in_space [] = false
ends_in_space (c ∷ []) = includes spaces c
ends_in_space (c ∷ d ∷ cs) = ends_in_space (d ∷ cs)

-- `value === value.trim()`
unfoldable pub is_trimmed : String → Bool
unfolding ends_in_space
is_trimmed String.[] = true
is_trimmed (String.◌∷◌ c s) =
    not (includes spaces (code c)) && not (ends_in_space (codes (String.◌∷◌ c s)))

abbrev is_digit : ℕ → Bool
is_digit c = leb b'0' c && leb c b'9'

-- `/^[1-9][0-9]{0,4}$/`
unfoldable pub is_key_version : List ℕ → Bool
is_key_version [] = false
is_key_version (c ∷ cs) = leb b'1' c && leb c b'9' && leb (length cs) 4 && every is_digit cs

-- `Number(text)` of digits
unfoldable pub number_of : (value : ℕ) → List ℕ → ℕ
number_of value [] = value
number_of value (c ∷ cs) = number_of (value * 10 + (c - b'0')) cs

abbrev alphabet : String
alphabet = "ABCDEFGHIJKLMNOPQRSTUVWXYZabcdefghijklmnopqrstuvwxyz0123456789-_"

-- A character of `[A-Za-z0-9_-]`, and its value.
unfoldable pub base64_value : ℕ → Option ℕ
base64_value c =
    if leb b'A' c && leb c b'Z'
    then some (c - b'A')
    else if leb b'a' c && leb c b'z'
    then some (c - b'a' + 26)
    else if is_digit c
    then some (c - b'0' + 52)
    else if c == b'-'
    then some 62
    else if c == b'_'
    then some 63
    else none

abbrev push_value : Option ℕ → List ℕ → List ℕ
push_value none vs = vs
push_value (some v) vs = v ∷ vs

unfoldable pub base64_values : List ℕ → List ℕ
unfolding base64_value
base64_values [] = []
base64_values (c ∷ cs) = push_value (base64_value c) (base64_values cs)

-- The bytes of groups of four values; bits that are left over are dropped.
unfoldable pub base64_bytes : List ℕ → Bytes
base64_bytes (a ∷ b ∷ c ∷ d ∷ vs) =
    (a * 4 + b / 16) ∷ (b % 16 * 16 + c / 4) ∷ (c % 4 * 64 + d) ∷ base64_bytes vs
base64_bytes (a ∷ b ∷ c ∷ []) = (a * 4 + b / 16) ∷ (b % 16 * 16 + c / 4) ∷ []
base64_bytes (a ∷ b ∷ []) = (a * 4 + b / 16) ∷ []
base64_bytes _ = []

-- `Buffer.from(text, 'base64url')`
unfoldable pub from_base64url : String → Bytes
unfolding base64_values base64_bytes
from_base64url s = base64_bytes (base64_values (codes s))

abbrev base64_char : ℕ → String → String
base64_char v rest = String.◌∷◌ (char_at alphabet v) rest

-- `Buffer.toString('base64url')`
unfoldable pub to_base64url : Bytes → String
to_base64url (x ∷ y ∷ z ∷ bs) = base64_char (x / 4) (
    base64_char (x % 4 * 16 + y / 16)
      (base64_char (y % 16 * 4 + z / 64) (base64_char (z % 64) (to_base64url bs))))
to_base64url (x ∷ y ∷ []) =
    base64_char (x / 4) (base64_char (x % 4 * 16 + y / 16) (base64_char (y % 16 * 4) ""))
to_base64url (x ∷ []) = base64_char (x / 4) (base64_char (x % 4 * 16) "")
to_base64url [] = ""
