-- ===== src/Security/Receipts.antt =====
-- apps/web/lib/security/operatorMediaCapabilityCore.ts: the receipts that bind a redacted photograph to
-- a publication.
pub mod Checked
use nagarik_signals.Base.{
  ℕ, ◌&&◌, Bool, true, false, Option, none, some, String, leb, ltb, ◌==◌, nat_eq, string_eq,
  if◌then◌else◌, Result, ok, ◌>>=◌,
}
use nagarik_signals.Base.Text.{Bytes, is_hash_hex}
use nagarik_signals.Proof.Canonical.{Json, Members, number, array, text, object, no_members, member}
use nagarik_signals.Security.Tokens.{purpose_eq, operator_media}
use nagarik_signals.Security.Capabilities.{Coordinates, CapabilityKeys, verify_capability_token}

-- `OperatorMediaCapabilityRow`
pub record CapabilityRow : Type 0 where
  pub coordinates : Coordinates
  pub open coordinates use *
  pub verifier : Bytes
  pub state : String
  pub expires_at : ℕ
  pub scope : Json

-- What the receipt has to be bound to.
pub record Binding : Type 0 where
  pub organization_id : String
  pub purpose : String
  pub target_type : String
  pub target_id : String
  pub issued_by : String

-- `AuthorizedOperatorMediaReceipt`
pub record Receipt : Type 0 where
  pub capability_id : String
  pub media_id : String
  pub media_version : ℕ
  pub evidence_hash : String
  pub source_media_id : String
  pub purpose : String
  pub target_type : String
  pub target_id : String
  pub issued_by : String

-- `object[key]`
unfoldable pub field : String → Members → Option Json
field key no_members = none
field key (member k v ms) = if k == key then some v else field key ms

abbrev pub as_text : Option Json → Option String
as_text (some (text s)) = some s
as_text _ = none

abbrev pub as_number : Option Json → Option ℕ
as_number (some (number n)) = some n
as_number _ = none

abbrev says : String → Option String → Bool
says s none = false
says s (some t) = t == s

unfoldable pub scope_receipt :
    CapabilityRow → Binding → Members → Option ℕ → Option String → Option String → Option Receipt
scope_receipt row expected scope (some version) (some evidence) (some source) =
    if says "operator-media-binding-v1" (as_text (field "schemaVersion" scope))
      && says expected.purpose (as_text (field "purpose" scope))
      && says expected.target_type (as_text (field "targetType" scope))
      && says expected.target_id (as_text (field "targetId" scope))
      && says expected.issued_by (as_text (field "issuedBy" scope))
      && says row.subject_id (as_text (field "mediaId" scope))
      && leb version 9_007_199_254_740_991
      && is_hash_hex evidence
    then some (record {
      capability_id = row.capability_id;
      media_id = row.subject_id;
      media_version = version;
      evidence_hash = evidence;
      source_media_id = source;
      purpose = expected.purpose;
      target_type = expected.target_type;
      target_id = expected.target_id;
      issued_by = expected.issued_by;
    })
    else none
scope_receipt row expected scope _ _ _ = none

-- The fields of `row.scope`; a list has none of them.
unfoldable pub scope_fields : Json → Option Members
scope_fields (object ms) = some ms
scope_fields (array vs) = some no_members
scope_fields _ = none

unfoldable pub read_scope : CapabilityRow → Binding → Option Members → Option Receipt
unfolding scope_receipt
read_scope row expected none = none
read_scope row expected (some scope) =
    scope_receipt row expected scope (as_number (field "mediaVersion" scope))
      (as_text (field "evidenceHash" scope)) (as_text (field "sourceMediaId" scope))

unfoldable pub is_usable : CapabilityRow → Binding → (now : ℕ) → Bool
is_usable row expected now =
    row.purpose == operator_media
    && row.organization_id == expected.organization_id
    && row.state == "active"
    && ltb now row.expires_at

unfoldable pub authorize_operator_media_receipt :
    (token : String)
    → CapabilityRow
    → Binding
    → CapabilityKeys
    → (now : ℕ) → Result (Option Receipt)
unfolding is_usable scope_fields
authorize_operator_media_receipt token row expected keys now =
    if is_usable row expected now
      && (elim (scope_fields row.scope) [ none ↦ false | some s ↦ true ])
    then (do
      genuine ← verify_capability_token token row.coordinates row.verifier keys
      if genuine then ok (read_scope row expected (scope_fields row.scope)) else ok none)
    else ok none
