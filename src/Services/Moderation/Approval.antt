-- ===== src/Services/Moderation/Approval.antt =====
-- apps/web/lib/services/moderation.ts: what `moderateSubmission` checks and writes for an approval.
use nagarik_signals.Base.{
  ℕ, ◌+◌, ◌==◌, ◌||◌, ◌&&◌, Bool, false, not, Option, none, some, String, List, [], ◌∷◌, string_eq,
  nat_eq, option_eq, if◌then◌else◌, Result, Thrown, ok, err, error, coded, guard, ◌>>=◌, ◌>>◌,
}
use nagarik_signals.Chain.Job.Schema.{Envelope}
use nagarik_signals.Chain.Job.Codec.{build_chain_job}
use nagarik_signals.Proof.Canonical.{Json, Members, text}
use nagarik_signals.Security.Tokens.{purpose_eq, operator_media}
use nagarik_signals.Security.Capabilities.{ParsedToken, parse_capability_token}
use nagarik_signals.Security.Receipts.{Binding, Receipt, field, authorize_operator_media_receipt}
use nagarik_signals.Services.Switches.{publication}
use nagarik_signals.Services.Issues.{Issue, is_capability_enabled, insert_row, same_job, outbox_row}
use nagarik_signals.Services.Media.{
  MediaObject, approved_private, redacted_derivative, approved_public, media_eq, find_media,
  update_media,
}
use nagarik_signals.Services.Publication.{PublicCopy, same_publication_event, same_version}
use nagarik_signals.Services.Moderation.{
  ModerationRequest, ModerationDependencies, ModerationTables, SubmissionRow, Capability,
  PublishedIssue, object_value,
}
use nagarik_signals.Services.Moderation.Rows.{
  approval_job, new_issue, new_issue_id, new_version, new_version_id, approval_event,
  approval_outbox_id, published_issue,
}

abbrev pub same_issue : Issue → Issue → Bool
same_issue a b =
    a.id == b.id
    || a.public_id == b.public_id
    || not (a.source_submission_id == none) && a.source_submission_id == b.source_submission_id

-- `set state = 'consumed', consumed_at = $2 where id = $1 and state = 'active'`
unfoldable pub consume_capability : String → (now : ℕ) → List Capability → List Capability
consume_capability id now [] = []
consume_capability id now (c ∷ cs) =
    if c.capability_id == id && c.state == "active"
    then record { row = record c.row { state = "consumed" }; consumed_at = some now }
      ∷ consume_capability id now cs
    else c ∷ consume_capability id now cs

-- `where id = $1 and state = 'redacted_derivative'`
abbrev pub is_derivative : String → MediaObject → Bool
is_derivative id m = m.id == id && m.state == redacted_derivative

abbrev pub published_media : ℕ → MediaObject → MediaObject
published_media now m = record m {
  state = approved_public;
  version = m.version + 1;
  updated_at = now;
}

unfoldable pub find_capability : (Capability → Bool) → List Capability → Option Capability
find_capability p [] = none
find_capability p (c ∷ cs) = if p c then some c else find_capability p cs

-- A receipt's row: the capability with the derivative that is its subject.
abbrev pub capability_media : Capability → Option MediaObject → Option (Capability × MediaObject)
capability_media c none = none
capability_media c (some m) = some (c, m)

unfoldable pub with_derivative :
    List MediaObject → Option Capability → Option (Capability × MediaObject)
with_derivative ms none = none
with_derivative ms (some c) = capability_media c (find_media (λ m. m.id == c.subject_id) ms)

abbrev invalid_receipt : Thrown
invalid_receipt = coded "moderation_media_receipt_invalid" 409

abbrev has_text : String → Option Json → Bool
has_text s (some (text t)) = t == s
has_text s _ = false

module _ (d : ModerationDependencies) (q : ModerationRequest) where
  unfoldable pub find_receipt :
      List MediaObject → List Capability → ParsedToken → Option (Capability × MediaObject)
  find_receipt ms cs parsed = with_derivative ms (
      find_capability
        (λ c.
          c.capability_id == parsed.capability_id
          && c.purpose == operator_media
          && c.organization_id == q.actor.organization_id)
        cs)

  unfoldable pub binding : Binding
  binding = record {
    organization_id = q.actor.organization_id;
    purpose = "initial_publication";
    target_type = "submission";
    target_id = q.submission_id;
    issued_by = q.actor.subject_id;
  }

  abbrev pub receipt_fits : SubmissionRow → MediaObject → Receipt → Bool
  receipt_fits r m receipt =
      m.state == redacted_derivative
      && m.version == receipt.media_version
      && m.sha256 == receipt.evidence_hash
      && m.source_media_id == some r.media.id
      && receipt.source_media_id == r.media.id

  unfoldable pub accept_receipt : SubmissionRow → MediaObject → Option Receipt → Result Receipt
  accept_receipt r m none = err invalid_receipt
  accept_receipt r m (some receipt) = do
    guard (receipt_fits r m receipt) invalid_receipt
    ok receipt

  unfoldable pub check_receipt :
      SubmissionRow → (token : String) → Option (Capability × MediaObject) → Result Receipt
  unfolding accept_receipt binding
  check_receipt r token none = err invalid_receipt
  check_receipt r token (some (c, m)) = do
    receipt ← authorize_operator_media_receipt token c.row binding d.keys d.now
    accept_receipt r m receipt

  unfoldable pub check_token :
      ModerationTables → SubmissionRow → (token : String) → Option ParsedToken → Result Receipt
  check_token t r token none = err invalid_receipt
  check_token t r token (some parsed) = do
    guard (parsed.purpose == operator_media) invalid_receipt
    check_receipt r token (find_receipt t.publications.media t.capabilities parsed)

  -- A token that the schema did not demand would be dereferenced.
  unfoldable pub receipt_of : ModerationTables → SubmissionRow → Option String → Result Receipt
  receipt_of t r none = err (error "TypeError")
  receipt_of t r (some token) = check_token t r token (parse_capability_token token)

  unfoldable pub candidate_location : SubmissionRow → Result Members
  candidate_location r = do
    location ←
        object_value d.parse_json (field "candidatePublicLocation" r.revision.provenance_private)
    guard
        (has_text "grid-0.01deg-v1" (field "policyVersion" location)
          && has_text r.revision.ward_id (field "wardId" location))
        (coded "moderation_location_unavailable" 409)
    ok location

  unfoldable pub copy_of : Option PublicCopy → Result PublicCopy
  copy_of none = err (error "TypeError")
  copy_of (some copy) = ok copy

  unfoldable pub write_approval :
      ModerationTables
      → SubmissionRow
      → Receipt
      → PublicCopy
      → Members
      → Envelope
      → Result (Option PublishedIssue × ModerationTables)
  write_approval t r receipt copy location job = do
    issues ← insert_row same_issue (new_issue d q r job) t.publications.base.issues
    versions ←
        insert_row same_version (new_version d q r receipt copy location)
          t.publications.base.versions
    events ←
        insert_row same_publication_event (approval_event d q r copy)
          t.publications.publication_events
    jobs ←
        insert_row same_job
          (outbox_row (approval_outbox_id d q r) (new_issue_id d q) (new_version_id d q r) job
            d.now)
          t.publications.base.jobs
    ok (
      some (published_issue d q r job),
      record t {
        publications = record {
          base = record t.publications.base { issues = issues; versions = versions; jobs = jobs };
          media =
              update_media (is_derivative receipt.media_id) (published_media d.now)
                t.publications.media;
          publication_events = events;
        };
        capabilities = consume_capability receipt.capability_id d.now t.capabilities;
      },
    )

  unfoldable pub approve_submission :
      ModerationTables → SubmissionRow → Result (Option PublishedIssue × ModerationTables)
  approve_submission t r = do
    guard (is_capability_enabled publication t.publications.base.switches)
        (coded "publication_disabled" 503)
    guard (r.media.state == approved_private) (coded "moderation_media_unavailable" 409)
    receipt ← receipt_of t r q.moderation.media_binding_receipt
    location ← candidate_location r
    copy ← copy_of q.moderation.public_copy
    job ← build_chain_job d.hashing (approval_job d q r receipt copy location)
    write_approval t r receipt copy location job
