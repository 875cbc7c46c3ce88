-- ===== src/Security/Ids/Uuid.antt =====
-- The identifiers of apps/web/lib/security/ids.ts have the form that the chain jobs ask for.
use Prim.Native.Char.{code}
use nagarik_signals.Base.{
  ℕ, suc, zero, ◌≡◌, ◌<◌, ◌≤◌, ◌+◌, ◌%◌, ◌/◌, true, String, [], ◌∷◌, arith, refl, length, All,
  All-take, Bool, ◌||◌, ◌==◌, nat_eq, take,
}
use nagarik_signals.Base.Lists.{every_below, every_below_sound}
use nagarik_signals.Base.Text.{Bytes, IsByte, is_uuid_v4, is_hex, matches_places, uuid_v4_places}
use nagarik_signals.Base.Hex.{hex_digit, to_hex, is_hex-hex_digit}
use nagarik_signals.Chain.Protocol.{Hashing}
use nagarik_signals.Security.Ids.{
  deterministic_uuid_v4, format_uuid, mark_uuid, first_chars, from_char, change_byte, joined,
}

-- A property of every list of so many bytes, one byte after the other.
abbrev Curried : ℕ → (Bytes → Type 0) → Type 0
Curried zero P = P []
Curried (suc n) P = (b : ℕ) → b < 256 → Curried n (λ bs. P (b ∷ bs))

sized :
    (n : ℕ) (P : Bytes → Type 0) → Curried n P → (bs : Bytes) → length bs ≡ n → All IsByte bs → P bs
sized zero P p [] e h = p
sized zero P p (b ∷ bs) e h = absurd (omega arith)
sized (suc n) P p [] e h = absurd (omega arith)
sized (suc n) P p (b ∷ bs) e h = sized n (λ rest. P (b ∷ rest)) (p b h.0) bs (omega arith) h.1

length-take : (n : ℕ) (bs : Bytes) → n ≤ length bs → length (take n bs) ≡ n
length-take zero bs h = refl
length-take (suc n) [] h = absurd (omega arith)
length-take (suc n) (b ∷ bs) h = omega (arith, length-take n bs (omega arith))

upper : (b : ℕ) → b < 256 → is_hex (code (hex_digit (b / 16))) ≡ true
upper b h = is_hex-hex_digit (b / 16) (omega arith)

lower : (b : ℕ) → is_hex (code (hex_digit (b % 16))) ≡ true
lower b = is_hex-hex_digit (b % 16) (omega arith)

four : (b : ℕ) → (b % 16 + 64) / 16 ≡ 4
four b = omega arith

abbrev is_variant : ℕ → Bool
is_variant c = c == b'8' || c == b'9' || c == b'a' || c == b'b'

variant : (b : ℕ) → is_variant (code (hex_digit ((b % 64 + 128) / 16))) ≡ true
unfolding hex_digit every_below
variant b =
    every_below_sound 64 (λ k. is_variant (code (hex_digit ((k + 128) / 16)))) (b % 64) refl
      (omega arith)

IsMarked : Bytes → Type 0
IsMarked bs = is_uuid_v4 (format_uuid (mark_uuid 64 bs)) ≡ true

sixteen : Curried 16 IsMarked
unfolding IsMarked is_uuid_v4 matches_places uuid_v4_places format_uuid mark_uuid change_byte
    first_chars from_char joined to_hex
sixteen b0 h0 b1 h1 b2 h2 b3 h3 b4 h4 b5 h5 b6 h6 b7 h7 b8 h8 b9 h9 b10 h10 b11 h11 b12 h12 b13 h13
      b14 h14 b15 h15 =
    rw
      (
        upper b0 h0,
        lower b0,
        upper b1 h1,
        lower b1,
        upper b2 h2,
        lower b2,
        upper b3 h3,
        lower b3,
        upper b4 h4,
        lower b4,
        upper b5 h5,
        lower b5,
        four b6,
        lower (b6 % 16 + 64),
        upper b7 h7,
        lower b7,
        lower (b8 % 64 + 128),
        upper b9 h9,
        lower b9,
        upper b10 h10,
        lower b10,
        upper b11 h11,
        lower b11,
        upper b12 h12,
        lower b12,
        upper b13 h13,
        lower b13,
        upper b14 h14,
        lower b14,
        upper b15 h15,
        lower b15,
        variant b8,
      )
      refl

-- `deterministicUuidV4` always gives a text of the form that `uuidV4Bytes` and the schema of chain
-- jobs demand: 36 characters, with version 4 and an RFC variant.
pub deterministic_uuid_v4-is_uuid_v4 :
    (h : Hashing) (namespace value : String)
    → is_uuid_v4 (deterministic_uuid_v4 h namespace value) ≡ true
unfolding deterministic_uuid_v4 IsMarked
deterministic_uuid_v4-is_uuid_v4 h namespace value =
    let digest = h.sha256 _ in
    sized 16 IsMarked sixteen (take 16 digest)
      (length-take 16 digest (omega (arith, h.sha256_length _)))
      (All-take IsByte 16 digest (h.sha256_bytes _))
