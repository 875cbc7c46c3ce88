-- ===== src/Security/Ids.antt =====
-- apps/web/lib/security/ids.ts: identifiers that are derived of texts. HMAC is a parameter.
pub mod Uuid
use Prim.Native.String.{◌++◌}
use nagarik_signals.Base.{
  ℕ, suc, zero, ◌≡◌, ◌<◌, ◌+◌, ◌%◌, ◌/◌, true, String, [], ◌∷◌, arith, length, take, All, All-take,
  Result, ok, error, guard, ◌>>◌, ltb, not,
}
use nagarik_signals.Base.Text.{Bytes, IsByte, codes, is_uuid_v4}
use nagarik_signals.Base.Hex.{to_hex}
use nagarik_signals.Base.Utf8.{utf8}
use nagarik_signals.Chain.Protocol.{Hashing}

-- `text.slice(0, n)` and `text.slice(n)`
unfoldable pub first_chars : ℕ → String → String
first_chars zero s = ""
first_chars (suc n) String.[] = ""
first_chars (suc n) (String.◌∷◌ c s) = String.◌∷◌ c (first_chars n s)

unfoldable pub from_char : ℕ → String → String
from_char zero s = s
from_char (suc n) String.[] = ""
from_char (suc n) (String.◌∷◌ c s) = from_char n s

-- `a` and `b`, joined by a dash.
unfoldable pub joined : String → String → String
joined String.[] b = String.◌∷◌ "-" b
joined (String.◌∷◌ c a) b = String.◌∷◌ c (joined a b)

unfoldable pub change_byte : ℕ → (ℕ → ℕ) → Bytes → Bytes
change_byte n f [] = []
change_byte zero f (b ∷ bs) = f b ∷ bs
change_byte (suc n) f (b ∷ bs) = b ∷ change_byte n f bs

unfoldable pub format_uuid : Bytes → String
unfolding first_chars from_char joined
format_uuid bytes =
    let hex = to_hex bytes in
    joined (first_chars 8 hex) (
      joined (first_chars 4 (from_char 8 hex)) (
        joined (first_chars 4 (from_char 12 hex))
          (joined (first_chars 4 (from_char 16 hex)) (from_char 20 hex))))

-- `(bytes[6] & 0x0f) | version`, `(bytes[8] & 0x3f) | 0x80`
unfoldable pub mark_uuid : ℕ → Bytes → Bytes
unfolding change_byte
mark_uuid version bytes =
    change_byte 8 (λ b. b % 64 + 128) (change_byte 6 (λ b. b % 16 + version) bytes)

module _ (hashing : Hashing) where
  open hashing use {sha256}

  unfoldable pub deterministic_uuid : String → String → String
  deterministic_uuid namespace value =
      format_uuid (mark_uuid 128 (take 16 (sha256 (utf8 (namespace ++ "\0" ++ value) ∷ []))))

  unfoldable pub deterministic_uuid_v4 : String → String → String
  deterministic_uuid_v4 namespace value =
      format_uuid (mark_uuid 64 (take 16 (sha256 (utf8 (namespace ++ "\0" ++ value) ∷ []))))

-- `createHmac('sha256', key).update(actor).digest('hex')` is the parameter.
unfoldable pub keyed_actor_hash :
    (hmac : String → String → String) (key actor : String) → Result String
keyed_actor_hash hmac key actor = do
  guard (not (ltb (length (utf8 key)) 32)) (error "correlation_key_too_short")
  ok (hmac key actor)
