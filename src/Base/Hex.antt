-- ===== src/Base/Hex.antt =====
-- `Buffer.toString('hex')` and `Buffer.from(text, 'hex')`.
use Prim.Native.Char.{Char, code}
use Prim.Native.Nat.{ℕ, ◌+◌, ◌-◌, ◌*◌, ◌/◌, ◌%◌, ◌<◌}
use Prim.Native.String.{String}
use mathlib.Core.Path.{◌≡◌, refl, ◌∙◌}
use mathlib.Core.Logic.{inl, inr}
use mathlib.Core.Bool.{true, false, ◌&&◌}
use mathlib.Core.Option.{Option, none, some}
use mathlib.Core.List.{[], ◌∷◌}
use native.Mathlib.Omega.{arith}
use nagarik_signals.Base.Tests.{leb, ◌==◌, Bool-cases, ==_iff, nat_eq, option_eq, if◌then◌else◌}
use nagarik_signals.Base.Lists.{length, every, All, every_below, every_below_sound}
use nagarik_signals.Base.Text.{Bytes, IsByte, codes, is_hex, is_hash_hex}

unfoldable pub hex_digit : ℕ → Char
hex_digit n =
    if n == 0
    then "0"
    else if n == 1
    then "1"
    else if n == 2
    then "2"
    else if n == 3
    then "3"
    else if n == 4
    then "4"
    else if n == 5
    then "5"
    else if n == 6
    then "6"
    else if n == 7
    then "7"
    else if n == 8
    then "8"
    else if n == 9
    then "9"
    else if n == 10
    then "a"
    else if n == 11
    then "b"
    else if n == 12
    then "c"
    else if n == 13
    then "d"
    else if n == 14
    then "e"
    else "f"

unfoldable pub to_hex : Bytes → String
unfolding hex_digit
to_hex [] = ""
to_hex (b ∷ bs) = String.◌∷◌ (hex_digit (b / 16)) (String.◌∷◌ (hex_digit (b % 16)) (to_hex bs))

-- A digit in either case.
hex_value : ℕ → Option ℕ
hex_value c =
    if leb b'0' c && leb c b'9'
    then some (c - b'0')
    else if leb b'a' c && leb c b'f'
    then some (c - 87)
    else if leb b'A' c && leb c b'F'
    then some (c - 55)
    else none

push_pair : Option ℕ → Option ℕ → Bytes → Bytes
push_pair (some h) (some l) bs = (h * 16 + l) ∷ bs
push_pair _ _ bs = []

-- Decoding stops at the first pair that is not two digits.
unfoldable pub from_hex : String → Bytes
unfolding hex_value push_pair
from_hex String.[] = []
from_hex (String.◌∷◌ c String.[]) = []
from_hex (String.◌∷◌ c (String.◌∷◌ d s)) =
    push_pair (hex_value (code c)) (hex_value (code d)) (from_hex s)

hex_value-hex_digit : (n : ℕ) → n < 16 → hex_value (code (hex_digit n)) ≡ some n
unfolding hex_value hex_digit every_below
hex_value-hex_digit n h =
    (==_iff (hex_value (code (hex_digit n))) (some n)).0
      (every_below_sound 16 (λ k. hex_value (code (hex_digit k)) == some k) n table h)
  where
    table : every_below 16 (λ k. hex_value (code (hex_digit k)) == some k) ≡ true
    table = refl

pub is_hex-hex_digit : (n : ℕ) → n < 16 → is_hex (code (hex_digit n)) ≡ true
unfolding is_hex hex_digit every_below
is_hex-hex_digit n h = every_below_sound 16 (λ k. is_hex (code (hex_digit k))) n refl h

push_pair-some :
    {hi lo : Option ℕ} {h l : ℕ} (bs : Bytes)
    → hi ≡ some h
    → lo ≡ some l
    → push_pair hi lo bs ≡ (h * 16 + l) ∷ bs
unfolding push_pair
push_pair-some bs p q = rw (p, q, push_pair)

from_hex_pair :
    (c d : Char) (s : String) {h l : ℕ}
    → hex_value (code c) ≡ some h
    → hex_value (code d) ≡ some l
    → from_hex (String.◌∷◌ c (String.◌∷◌ d s)) ≡ (h * 16 + l) ∷ from_hex s
unfolding from_hex
from_hex_pair c d s p q = push_pair-some (from_hex s) p q

-- Decoding what was encoded gives the bytes back.
pub from_hex-to_hex : (bs : Bytes) → All IsByte bs → from_hex (to_hex bs) ≡ bs
unfolding to_hex
from_hex-to_hex [] h = unfold from_hex in refl
from_hex-to_hex (b ∷ bs) h =
    from_hex_pair _ _ _ (hex_value-hex_digit (b / 16) (omega arith))
      (hex_value-hex_digit (b % 16) (omega arith))
    ∙ cc (div_mod, from_hex-to_hex bs h.1)
  where
    div_mod : b / 16 * 16 + b % 16 ≡ b
    div_mod = omega arith

pub length-codes-to_hex : (bs : Bytes) → length (codes (to_hex bs)) ≡ 2 * length bs
unfolding to_hex
length-codes-to_hex [] = refl
length-codes-to_hex (b ∷ bs) = omega (arith, length-codes-to_hex bs)

every-is_hex-to_hex : (bs : Bytes) → All IsByte bs → every is_hex (codes (to_hex bs)) ≡ true
unfolding to_hex
every-is_hex-to_hex [] h = refl
every-is_hex-to_hex (b ∷ bs) h =
    rw (is_hex-hex_digit (b / 16) (omega arith), is_hex-hex_digit (b % 16) (omega arith))
      (every-is_hex-to_hex bs h.1)

-- The form of a 32-byte digest is accepted by the digest pattern.
pub is_hash_hex-to_hex :
    (bs : Bytes) → length bs ≡ 32 → All IsByte bs → is_hash_hex (to_hex bs) ≡ true
unfolding is_hash_hex
is_hash_hex-to_hex bs n h = rw (every-is_hex-to_hex bs h) (ground (arith, length-codes-to_hex bs))

is_hex-hex_value : (c : ℕ) → is_hex c ≡ true → (v : ℕ) × (hex_value c ≡ some v)
unfolding is_hex hex_value
is_hex-hex_value c h = elim (Bool-cases (leb b'0' c && leb c b'9')) [
  | inl e ↦ (c - b'0', rw e)
  | inr e ↦ (c - 87, rw (e, lower e))
]
  where
    lower : (leb b'0' c && leb c b'9') ≡ false → (leb b'a' c && leb c b'f') ≡ true
    lower e = ground arith

-- A text of hexadecimal digits decodes to half as many bytes.
pub length-from_hex :
    (s : String) (n : ℕ)
    → length (codes s) ≡ 2 * n
    → every is_hex (codes s) ≡ true
    → length (from_hex s) ≡ n
length-from_hex String.[] n h e = unfold from_hex in omega arith
length-from_hex (String.◌∷◌ c String.[]) n h e = absurd (omega arith)
length-from_hex (String.◌∷◌ c (String.◌∷◌ d s)) n h e =
    let (hi, p) = is_hex-hex_value (code c) (ground arith) in
    let (lo, q) = is_hex-hex_value (code d) (ground arith) in
    rw (from_hex_pair c d s p q)
      (omega (arith, length-from_hex s (n - 1) (omega arith) (ground arith)))

pub is_hash_hex-from_hex : (s : String) → is_hash_hex s ≡ true → length (from_hex s) ≡ 32
unfolding is_hash_hex
is_hash_hex-from_hex s h = length-from_hex s 32 (ground arith) (ground arith)
