-- ===== src/Services/Moderation/Received.antt =====
-- What the receipt of an approval has passed.
use nagarik_signals.Base.{
  List, ◌≡◌, refl, ap, ◌∙◌, String, Option, none, some, nat_eq, ◌==◌, string_eq, option_eq, ==_iff,
  arith, ok, >>=-eq-ok, guard-then-eq-ok, ok-injective,
}
use nagarik_signals.Domain.Workflow.{submission_eq}
use nagarik_signals.Security.Tokens.{operator_media, purpose_eq}
use nagarik_signals.Security.Capabilities.{ParsedToken, parse_capability_token}
use nagarik_signals.Security.Receipts.{Receipt, authorize_operator_media_receipt}
use nagarik_signals.Security.Receipts.Checked.{
  IsAuthorized, authorize_operator_media_receipt-IsAuthorized,
}
use nagarik_signals.Chain.Outbox.Store.{JobRow}
use nagarik_signals.Services.Issues.{Issue, Version}
use nagarik_signals.Services.Media.{MediaObject, redacted_derivative, media_eq}
use nagarik_signals.Services.Moderation.{
  ModerationRequest, ModerationDependencies, ModerationTables, SubmissionRow, Capability,
}
use nagarik_signals.Services.Moderation.Approval.{
  find_receipt, binding, receipt_fits, accept_receipt, check_receipt, check_token, receipt_of,
}

-- The tables that an approval changes, apart from the history of the submission.
pub record PublicTables : Type 0 where
  pub issues : List Issue
  pub versions : List Version
  pub jobs : List JobRow
  pub media : List MediaObject
  pub capabilities : List Capability

abbrev pub public_tables : ModerationTables → PublicTables
public_tables t = record {
  issues = t.publications.base.issues;
  versions = t.publications.base.versions;
  jobs = t.publications.base.jobs;
  media = t.publications.media;
  capabilities = t.capabilities;
}

-- The receipt that an approval has accepted: its capability is active and bound to the submission, and
-- its derivative was made of the submission's photograph.
pub record IsReceived (d : ModerationDependencies) (q : ModerationRequest) (t : PublicTables)
    (r : SubmissionRow) (receipt : Receipt) : Type 0 where
  pub token : String
  pub parsed : ParsedToken
  pub capability : Capability
  pub derivative : MediaObject
  pub given : q.moderation.media_binding_receipt ≡ some token
  pub found : find_receipt d q t.media t.capabilities parsed ≡ some (capability, derivative)
  pub authorized : IsAuthorized token capability.row (binding d q) d.keys d.now receipt
  pub redacted : derivative.state ≡ redacted_derivative
  pub same_version : derivative.version ≡ receipt.media_version
  pub same_content : derivative.sha256 ≡ receipt.evidence_hash
  pub made_of : derivative.source_media_id ≡ some r.media.id

module _ (d : ModerationDependencies) (q : ModerationRequest) where
  accept_receipt_sound :
      (r : SubmissionRow) (m : MediaObject) (o : Option Receipt) (receipt : Receipt)
      → accept_receipt d q r m o ≡ ok receipt
      → (o ≡ some receipt)
        × (m.state ≡ redacted_derivative)
        × (m.version ≡ receipt.media_version)
        × (m.sha256 ≡ receipt.evidence_hash)
        × (m.source_media_id ≡ some r.media.id)
  unfolding accept_receipt
  accept_receipt_sound r m none receipt h = cc
  accept_receipt_sound r m (some s) receipt h =
      let (tests, h1) = guard-then-eq-ok (receipt_fits d q r m s) _ _ h in
      let e : s ≡ receipt = ok-injective h1 in
      (
        ap some e,
        (==_iff _ _).0 (ground arith),
        (==_iff _ _).0 (ground arith) ∙ ap (λ k. k.media_version) e,
        (==_iff _ _).0 (ground arith) ∙ ap (λ k. k.evidence_hash) e,
        (==_iff _ _).0 (ground arith),
      )

  check_receipt-IsReceived :
      (t : ModerationTables) (r : SubmissionRow) (token : String) (parsed : ParsedToken)
      (o : Option (Capability × MediaObject)) (receipt : Receipt)
      → q.moderation.media_binding_receipt ≡ some token
      → find_receipt d q t.publications.media t.capabilities parsed ≡ o
      → check_receipt d q r token o ≡ ok receipt
      → IsReceived d q (public_tables t) r receipt
  unfolding check_receipt
  check_receipt-IsReceived t r token parsed none receipt g f h = cc
  check_receipt-IsReceived t r token parsed (some (c, m)) receipt g f h =
      let (o, authorized, h1) =
        >>=-eq-ok (authorize_operator_media_receipt token c.row (binding d q) d.keys d.now) _ h in
      let (e, redacted, version, content, source) = accept_receipt_sound r m o receipt h1 in
      record {
        token = token;
        parsed = parsed;
        capability = c;
        derivative = m;
        given = g;
        found = f;
        authorized =
            authorize_operator_media_receipt-IsAuthorized token c.row (binding d q) d.keys d.now
              receipt (authorized ∙ ap ok e);
        redacted = redacted;
        same_version = version;
        same_content = content;
        made_of = source;
      }

  check_token-IsReceived :
      (t : ModerationTables) (r : SubmissionRow) (token : String) (o : Option ParsedToken)
      (receipt : Receipt)
      → q.moderation.media_binding_receipt ≡ some token
      → check_token d q t r token o ≡ ok receipt
      → IsReceived d q (public_tables t) r receipt
  unfolding check_token
  check_token-IsReceived t r token none receipt g h = cc
  check_token-IsReceived t r token (some parsed) receipt g h =
      let (_, h1) = guard-then-eq-ok (parsed.purpose == operator_media) _ _ h in
      check_receipt-IsReceived t r token parsed
        (find_receipt d q t.publications.media t.capabilities parsed) receipt g refl h1

  pub receipt_of-IsReceived :
      (t : ModerationTables) (r : SubmissionRow) (o : Option String) (receipt : Receipt)
      → q.moderation.media_binding_receipt ≡ o
      → receipt_of d q t r o ≡ ok receipt
      → IsReceived d q (public_tables t) r receipt
  unfolding receipt_of
  receipt_of-IsReceived t r none receipt g h = cc
  receipt_of-IsReceived t r (some token) receipt g h =
      check_token-IsReceived t r token (parse_capability_token token) receipt g h
