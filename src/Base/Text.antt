-- ===== src/Base/Text.antt =====
-- Text of fixed shape (digests, uuids, signatures), and bytes.
use Prim.Native.Char.{code}
use Prim.Native.Nat.{ℕ, ◌<◌}
use Prim.Native.String.{String}
use mathlib.Core.Bool.{Bool, true, false, ◌&&◌, ◌||◌}
use mathlib.Core.List.{List, [], ◌∷◌, ◌++◌}
use nagarik_signals.Base.Tests.{leb, ◌==◌, nat_eq, if◌then◌else◌}
use nagarik_signals.Base.Lists.{length, every, replicate}

-- A `Buffer` or `Uint8Array`.
abbrev pub Bytes : Type 0
Bytes = List ℕ

abbrev pub IsByte : ℕ → Type 0
IsByte b = b < 256

abbrev pub codes : String → List ℕ
codes String.[] = []
codes (String.◌∷◌ c s) = code c ∷ codes s

-- `[0-9a-f]`
unfoldable pub is_hex : ℕ → Bool
is_hex c = leb b'0' c && leb c b'9' || leb b'a' c && leb c b'f'

-- `[1-9A-HJ-NP-Za-km-z]`
unfoldable pub is_base58 : ℕ → Bool
is_base58 c =
    leb b'1' c && leb c b'9'
    || leb b'A' c && leb c b'H'
    || leb b'J' c && leb c b'N'
    || leb b'P' c && leb c b'Z'
    || leb b'a' c && leb c b'k'
    || leb b'm' c && leb c b'z'

-- `/^[0-9a-f]{64}$/`
unfoldable pub is_hash_hex : String → Bool
unfolding is_hex
is_hash_hex s = length (codes s) == 64 && every is_hex (codes s)

-- `/^[1-9A-HJ-NP-Za-km-z]{64,96}$/`
unfoldable pub is_signature : String → Bool
unfolding is_base58
is_signature s = leb 64 (length (codes s)) && leb (length (codes s)) 96 && every is_base58 (codes s)

-- A pattern that gives one class of characters for each place.
unfoldable pub matches_places : List (ℕ → Bool) → List ℕ → Bool
matches_places [] [] = true
matches_places (p ∷ ps) (c ∷ cs) = p c && matches_places ps cs
matches_places _ _ = false

abbrev one_of : (ℕ → Bool) → List (ℕ → Bool)
one_of p = p ∷ []

abbrev dash : List (ℕ → Bool)
dash = one_of (λ c. c == b'-')

-- `/^[0-9a-f]{8}-[0-9a-f]{4}-4[0-9a-f]{3}-[89ab][0-9a-f]{3}-[0-9a-f]{12}$/`
unfoldable pub uuid_v4_places : List (ℕ → Bool)
uuid_v4_places =
    replicate 8 is_hex
    ++ (dash
        ++ (replicate 4 is_hex
            ++ (dash
                ++ (one_of (λ c. c == b'4')
                    ++ (replicate 3 is_hex
                        ++ (dash
                            ++ (one_of (λ c. c == b'8' || c == b'9' || c == b'a' || c == b'b')
                                ++ (replicate 3 is_hex ++ (dash ++ replicate 12 is_hex)))))))))

unfoldable pub is_uuid_v4 : String → Bool
unfolding is_hex matches_places uuid_v4_places
is_uuid_v4 s = matches_places uuid_v4_places (codes s)

-- `value.replaceAll('-', '')`
unfoldable pub without_dashes : String → String
without_dashes String.[] = ""
without_dashes (String.◌∷◌ c s) =
    if code c == b'-' then without_dashes s else String.◌∷◌ c (without_dashes s)
