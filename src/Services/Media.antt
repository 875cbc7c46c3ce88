-- ===== src/Services/Media.antt =====
-- `nagarik.media_objects`, as supabase/migrations/20260731000200_core.sql declares it.
use nagarik_signals.Base.{
  ℕ, Bool, Option, none, some, String, List, [], ◌∷◌, string_eq, if◌then◌else◌, Eq, nat_beq, ◌↔◌,
  ◌≡◌, true, arith,
}

pub data MediaState : Type 0 where
  staged promotion_pending promotion_failed quarantined approved_private redacted_derivative :
      MediaState
  approved_public rejected expired removed deleted : MediaState

abbrev media_index : MediaState → ℕ
media_index staged = 0
media_index promotion_pending = 1
media_index promotion_failed = 2
media_index quarantined = 3
media_index approved_private = 4
media_index redacted_derivative = 5
media_index approved_public = 6
media_index rejected = 7
media_index expired = 8
media_index removed = 9
media_index deleted = 10

pub media_index_iff :
    (a b : MediaState) → (nat_beq (media_index a) (media_index b) ≡ true) ↔ (a ≡ b)
media_index_iff a b = ground arith

instance abbrev pub media_eq : Eq MediaState
media_eq = record {
  equals = λ a b. nat_beq (media_index a) (media_index b);
  equals_iff = media_index_iff;
}

pub record MediaObject : Type 0 where
  pub id : String
  pub organization_id : String
  pub source_media_id : Option String
  pub state : MediaState
  pub storage_key : String
  pub sha256 : String
  pub version : ℕ
  pub expires_at : Option ℕ
  pub denied_at : Option ℕ
  pub deleted_at : Option ℕ
  pub updated_at : ℕ

-- The first row that passes a test.
unfoldable pub find_media : (MediaObject → Bool) → List MediaObject → Option MediaObject
find_media p [] = none
find_media p (m ∷ ms) = if p m then some m else find_media p ms

-- An update of the rows that pass a test.
unfoldable pub update_media :
    (MediaObject → Bool) → (MediaObject → MediaObject) → List MediaObject → List MediaObject
update_media p f [] = []
update_media p f (m ∷ ms) = if p m then f m ∷ update_media p f ms else m ∷ update_media p f ms
