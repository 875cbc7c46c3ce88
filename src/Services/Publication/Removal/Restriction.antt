-- ===== src/Services/Publication/Removal/Restriction.antt =====
-- apps/web/lib/services/publication.ts: `createPrivacyRestriction`.
use Prim.Native.String.{◌++◌}
use nagarik_signals.Base.{
  ℕ, ◌+◌, ◌&&◌, ◌||◌, max, Bool, none, some, String, List, [], ◌∷◌, ◌==◌, nat_eq, string_eq, leb,
  if◌then◌else◌, Result, ok, error, guard, ◌>>=◌, ◌>>◌,
}
use nagarik_signals.Chain.Protocol.{Hashing, v2_max_sequence}
use nagarik_signals.Security.Ids.{deterministic_uuid_v4, first_chars}
use nagarik_signals.Services.Operations.{OperatorDependencies}
use nagarik_signals.Services.Issues.{insert_row}
use nagarik_signals.Services.Publication.Removal.{
  RemovalRequest, RemovalTables, PrivacyRequest, in_review, fulfilled, AccessOverlay,
}

-- `coalesce(max(overlay_version), 0)` of an issue.
unfoldable pub max_overlay : (issue_id : String) → List AccessOverlay → ℕ
max_overlay issue_id [] = 0
max_overlay issue_id (o ∷ os) =
    let rest = max_overlay issue_id os in
    if o.issue_id == issue_id then max o.overlay_version rest else rest

abbrev pub same_request_id : PrivacyRequest → PrivacyRequest → Bool
same_request_id a b = a.id == b.id

abbrev pub same_overlay : AccessOverlay → AccessOverlay → Bool
same_overlay a b =
    a.id == b.id || a.issue_id == b.issue_id && a.overlay_version == b.overlay_version

abbrev pub removal_identity : RemovalRequest → String
removal_identity q = q.public_id ++ ":" ++ q.idempotency_key

abbrev pub privacy_request_id : Hashing → RemovalRequest → String
privacy_request_id h q = deterministic_uuid_v4 h "nagarik:v2:privacy-request" (removal_identity q)

abbrev pub access_overlay_id : Hashing → RemovalRequest → String
access_overlay_id h q = deterministic_uuid_v4 h "nagarik:v2:access-overlay" (removal_identity q)

module _ (d : OperatorDependencies) (q : RemovalRequest) (issue_id event_id : String) where
  -- The request; a fulfilled one is closed, with the public message as its outcome.
  abbrev pub privacy_row : (is_fulfilled : Bool) → PrivacyRequest
  privacy_row is_fulfilled = record {
    id = privacy_request_id d.hashing q;
    organization_id = q.actor.organization_id;
    target_id = issue_id;
    description = first_chars 1_000 (
        "Publication removal requested under " ++ q.removal.reason_code ++ ". "
        ++ q.removal.private_note);
    state = if is_fulfilled then fulfilled else in_review;
    outcome_public = if is_fulfilled then some q.removal.public_message else none;
    created_at = d.now;
    closed_at = if is_fulfilled then some d.now else none;
  }

  abbrev pub overlay_row : ℕ → AccessOverlay
  overlay_row version = record {
    id = access_overlay_id d.hashing q;
    privacy_request_id = privacy_request_id d.hashing q;
    issue_id = issue_id;
    overlay_version = version;
    reason_category = q.removal.reason_code;
    decision_event_id = event_id;
    created_by = q.actor.subject_id;
    created_at = d.now;
  }

  unfoldable pub create_privacy_restriction :
      (is_fulfilled : Bool) → RemovalTables → Result RemovalTables
  create_privacy_restriction is_fulfilled t = do
    let version = max_overlay issue_id t.overlays + 1 in
        do
          guard (leb version v2_max_sequence && leb 1 version)
              (error "access_overlay_version_invalid")
          requests ← insert_row same_request_id (privacy_row is_fulfilled) t.privacy_requests
          overlays ← insert_row same_overlay (overlay_row version) t.overlays
          ok (record t { privacy_requests = requests; overlays = overlays })
