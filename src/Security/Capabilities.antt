-- ===== src/Security/Capabilities.antt =====
-- apps/web/lib/security/capabilityTokens.ts: capabilities, the tokens that carry them, and their
-- verification. HMAC-SHA256 is a parameter; a key is its bytes.
use Prim.Native.String.{◌++◌ as ◌<>◌}
use nagarik_signals.Base.{
  ℕ, ◌/◌, ◌%◌, ◌&&◌, ◌||◌, Bool, false, not, Option, none, some, String, List, [], ◌∷◌, ◌++◌, ltb,
  ◌==◌, nat_eq, string_eq, list_eq, length, if◌then◌else◌, Result, ok, error, guard, ◌>>=◌, ◌>>◌,
}
use nagarik_signals.Base.Text.{Bytes, codes, without_dashes}
use nagarik_signals.Base.Hex.{from_hex}
use nagarik_signals.Base.Utf8.{utf8}
use nagarik_signals.Proof.Canonical.{decimal}
use nagarik_signals.Security.Tokens.{
  Purpose, purpose_eq, purpose_id, purpose_prefix, purpose_by_prefix, canonical_uuid, split,
  is_trimmed, is_key_version, number_of, base64_values, from_base64url, to_base64url,
}

-- `CapabilityCoordinates`
pub record Coordinates : Type 0 where
  pub key_version : ℕ
  pub purpose : Purpose
  pub organization_id : String
  pub capability_id : String
  pub subject_id : String
  pub issuance_idempotency_id : String

-- `CapabilityKeys`, and `createHmac('sha256', key).update(bytes).digest()`.
pub record CapabilityKeys : Type 0 where
  pub derivation_key : Bytes
  pub verifier_key : Bytes
  pub hmac_sha256 : Bytes → Bytes → Bytes

-- `ParsedCapabilityToken`
pub record ParsedToken : Type 0 where
  pub token : String
  pub prefix : String
  pub key_version : ℕ
  pub capability_id : String
  pub secret : Bytes
  pub purpose : Purpose

pub record Material : Type 0 where
  pub token : String
  pub secret : Bytes
  pub verifier : Bytes

unfoldable pub key_bytes : Bytes → String → Result Bytes
key_bytes key label = do
  guard (not (ltb (length key) 32)) (error (label <> "_must_be_at_least_32_bytes"))
  ok key

unfoldable pub uuid_bytes : String → Result Bytes
uuid_bytes uuid = do
  guard (canonical_uuid uuid) (error "capability_uuid_not_canonical")
  ok (from_hex (without_dashes uuid))

unfoldable pub key_version_bytes : ℕ → Result Bytes
key_version_bytes v = do
  guard (not (ltb v 1 || ltb 65_535 v)) (error "capability_key_version_invalid")
  ok (v % 256 ∷ v / 256 ∷ [])

unfoldable pub derivation_input : Coordinates → Result Bytes
unfolding key_version_bytes uuid_bytes
derivation_input c = do
  version ← key_version_bytes c.key_version
  organization ← uuid_bytes c.organization_id
  capability ← uuid_bytes c.capability_id
  subject ← uuid_bytes c.subject_id
  issuance ← uuid_bytes c.issuance_idempotency_id
  ok (
      utf8 "nagarik:capability-secret:v1\0"
      ++ (version
          ++ (purpose_id c.purpose ∷ (organization ++ (capability ++ (subject ++ issuance))))))

unfoldable pub verifier_input : Coordinates → Bytes → Result Bytes
unfolding key_version_bytes uuid_bytes
verifier_input c secret = do
  version ← key_version_bytes c.key_version
  organization ← uuid_bytes c.organization_id
  capability ← uuid_bytes c.capability_id
  subject ← uuid_bytes c.subject_id
  ok (
      utf8 "nagarik:capability-verifier:v1\0"
      ++ (version
          ++ (purpose_id c.purpose ∷ (organization ++ (capability ++ (subject ++ secret))))))

unfoldable pub derive_capability_material : Coordinates → CapabilityKeys → Result Material
unfolding key_bytes derivation_input verifier_input
derive_capability_material c keys = do
  derivation_key ← key_bytes keys.derivation_key "capability_derivation_key"
  derived ← derivation_input c
  let secret = keys.hmac_sha256 derivation_key derived in
      do
        verifier_key ← key_bytes keys.verifier_key "capability_verifier_key"
        checked ← verifier_input c secret
        ok (record {
          token =
              purpose_prefix c.purpose
              <> "."
              <> decimal c.key_version
              <> "."
              <> c.capability_id
              <> "."
              <> to_base64url secret;
          secret = secret;
          verifier = keys.hmac_sha256 verifier_key checked;
        })

-- The four parts of a token whose prefix is known.
unfoldable pub parse_parts :
    (token prefix version_text capability_id encoded : String) → Purpose → Option ParsedToken
parse_parts token prefix version_text capability_id encoded purpose =
    let version = number_of 0 (codes version_text) in
    let secret = from_base64url encoded in
    if is_key_version (codes version_text)
      && not (ltb 65_535 version || not (canonical_uuid capability_id))
      && (length (codes encoded) == 43 && length (base64_values (codes encoded)) == 43)
      && (length secret == 32 && to_base64url secret == encoded)
    then some (record {
      token = token;
      prefix = prefix;
      key_version = version;
      capability_id = capability_id;
      secret = secret;
      purpose = purpose;
    })
    else none

unfoldable pub parse_prefixed :
    (token prefix version_text capability_id encoded : String) → Option Purpose → Option ParsedToken
parse_prefixed token prefix version_text capability_id encoded none = none
parse_prefixed token prefix version_text capability_id encoded (some purpose) =
    parse_parts token prefix version_text capability_id encoded purpose

unfoldable pub parse_segments : String → List String → Option ParsedToken
parse_segments token (prefix ∷ version_text ∷ capability_id ∷ encoded ∷ []) =
    parse_prefixed token prefix version_text capability_id encoded (purpose_by_prefix prefix)
parse_segments token _ = none

unfoldable pub parse_capability_token : String → Option ParsedToken
parse_capability_token token =
    if is_trimmed token then parse_segments token (split b'.' token) else none

-- `timingSafeEqual`
unfoldable pub timing_safe_equal : Bytes → Bytes → Result Bool
timing_safe_equal a b = do
  guard (length a == length b) (error "ERR_CRYPTO_TIMING_SAFE_EQUAL_LENGTH")
  ok (a == b)

unfoldable pub material_matches : ParsedToken → (verifier : Bytes) → Material → Result Bool
unfolding timing_safe_equal
material_matches parsed verifier expected =
    if length verifier == length expected.verifier
    then (do
      same_secret ← timing_safe_equal parsed.secret expected.secret
      if same_secret then timing_safe_equal verifier expected.verifier else ok false)
    else ok false

abbrev names_row : ParsedToken → Coordinates → Bool
names_row parsed row =
    parsed.capability_id == row.capability_id
    && parsed.key_version == row.key_version
    && parsed.purpose == row.purpose

unfoldable pub verify_parsed :
    Option ParsedToken → Coordinates → (verifier : Bytes) → CapabilityKeys → Result Bool
verify_parsed none row verifier keys = ok false
verify_parsed (some parsed) row verifier keys =
    if names_row parsed row
    then (derive_capability_material row keys >>= material_matches parsed verifier)
    else ok false

unfoldable pub verify_capability_token :
    String → Coordinates → (verifier : Bytes) → CapabilityKeys → Result Bool
verify_capability_token token row verifier keys =
    verify_parsed (parse_capability_token token) row verifier keys
