-- ===== src/Security/Receipts/Checked.antt =====
-- What a receipt that is authorized has passed.
use nagarik_signals.Base.{
  ◌≡◌, ◌<◌, sym, ap, refl, Bool, true, false, Option, none, some, String, ℕ, Result, ok, err,
  ok-injective, arith, ==_iff, string_eq, ltb→lt, ◌&&◌, if◌then◌else◌, ◌>>=◌,
}
use nagarik_signals.Base.Lookup.{some_injective}
use nagarik_signals.Proof.Canonical.{Members}
use nagarik_signals.Security.Tokens.{operator_media, purpose_eq}
use nagarik_signals.Security.Capabilities.{CapabilityKeys, verify_capability_token}
use nagarik_signals.Security.Receipts.{
  CapabilityRow, Binding, Receipt, is_usable, scope_fields, read_scope, scope_receipt, field,
  as_text, as_number, authorize_operator_media_receipt,
}

pub record IsAuthorized (token : String) (row : CapabilityRow) (expected : Binding)
    (keys : CapabilityKeys) (now : ℕ) (receipt : Receipt) : Type 0 where
  pub for_media : row.purpose ≡ operator_media
  pub same_organization : row.organization_id ≡ expected.organization_id
  pub active : row.state ≡ "active"
  pub unexpired : now < row.expires_at
  pub genuine : verify_capability_token token row.coordinates row.verifier keys ≡ ok true
  pub scoped : read_scope row expected (scope_fields row.scope) ≡ some receipt

authorized_if :
    (b : Bool) (verified : Result Bool) (scoped : Option Receipt) (receipt : Receipt)
    → (if b then (verified >>= λ genuine. if genuine then ok scoped else ok none) else ok none)
      ≡ ok (some receipt)
    → (b ≡ true) × (verified ≡ ok true) × (scoped ≡ some receipt)
authorized_if true (ok true) scoped receipt h = (refl, refl, ok-injective h)
authorized_if true (ok false) scoped receipt h = cc
authorized_if true (err e) scoped receipt h = cc
authorized_if false verified scoped receipt h = cc

is_usable_sound :
    (row : CapabilityRow) (expected : Binding) (now : ℕ)
    → is_usable row expected now ≡ true
    → (row.purpose ≡ operator_media)
      × (row.organization_id ≡ expected.organization_id)
      × (row.state ≡ "active")
      × (now < row.expires_at)
unfolding is_usable
is_usable_sound row expected now h = (
  (==_iff _ _).0 (ground arith),
  (==_iff _ _).0 (ground arith),
  (==_iff _ _).0 (ground arith),
  ltb→lt now row.expires_at (ground arith),
)

both : (a b : Bool) → (a && b) ≡ true → a ≡ true
both a b h = ground arith

scope_receipt-row :
    (row : CapabilityRow) (expected : Binding) (scope : Members) (version : Option ℕ)
    (evidence source : Option String) (receipt : Receipt)
    → scope_receipt row expected scope version evidence source ≡ some receipt
    → (receipt.capability_id ≡ row.capability_id) × (receipt.media_id ≡ row.subject_id)
unfolding scope_receipt
scope_receipt-row row expected scope (some version) (some evidence) (some source) receipt h =
    given _ h
  where
    given :
        (b : Bool)
        → (if b
            then some (record {
              capability_id = row.capability_id;
              media_id = row.subject_id;
              media_version = version;
              evidence_hash = evidence;
              source_media_id = source;
              purpose = expected.purpose;
              target_type = expected.target_type;
              target_id = expected.target_id;
              issued_by = expected.issued_by;
            })
            else none)
          ≡ some receipt
        → (receipt.capability_id ≡ row.capability_id) × (receipt.media_id ≡ row.subject_id)
    given true k =
        let e = sym (some_injective k) in (ap Receipt.capability_id e, ap Receipt.media_id e)
    given false k = cc
scope_receipt-row row expected scope none evidence source receipt h = cc
scope_receipt-row row expected scope (some version) none source receipt h = cc
scope_receipt-row row expected scope (some version) (some evidence) none receipt h = cc

-- A receipt is for the row's capability and for its subject.
pub read_scope-row :
    (row : CapabilityRow) (expected : Binding) (scope : Option Members) (receipt : Receipt)
    → read_scope row expected scope ≡ some receipt
    → (receipt.capability_id ≡ row.capability_id) × (receipt.media_id ≡ row.subject_id)
unfolding read_scope
read_scope-row row expected none receipt h = cc
read_scope-row row expected (some scope) receipt h =
    scope_receipt-row row expected scope (as_number (field "mediaVersion" scope))
      (as_text (field "evidenceHash" scope)) (as_text (field "sourceMediaId" scope)) receipt h

pub authorize_operator_media_receipt-IsAuthorized :
    (token : String) (row : CapabilityRow) (expected : Binding) (keys : CapabilityKeys) (now : ℕ)
    (receipt : Receipt)
    → authorize_operator_media_receipt token row expected keys now ≡ ok (some receipt)
    → IsAuthorized token row expected keys now receipt
unfolding authorize_operator_media_receipt
authorize_operator_media_receipt-IsAuthorized token row expected keys now receipt h =
    let (usable, genuine, scoped) = authorized_if _ _ _ receipt h in
    let (media, organization, active, unexpired) =
      is_usable_sound row expected now (both _ _ usable) in
    record {
      for_media = media;
      same_organization = organization;
      active = active;
      unexpired = unexpired;
      genuine = genuine;
      scoped = scoped;
    }
