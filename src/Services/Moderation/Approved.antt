-- ===== src/Services/Moderation/Approved.antt =====
-- What an approval has checked and written.
use nagarik_signals.Base.{
  subst, ◌≡◌, refl, sym, ap, ◌∙◌, false, Option, none, some, [], ◌∷◌, ◌++◌, nat_eq, ◌==◌, string_eq,
  option_eq, ==_iff, ok, >>=-eq-ok, guard-then-eq-ok, ok-injective,
}
use nagarik_signals.Domain.Workflow.{submission_eq, open_state}
use nagarik_signals.Chain.Protocol.{v2_lifecycles}
use nagarik_signals.Chain.Job.Schema.{Envelope, Snapshot, zero_hash}
use nagarik_signals.Chain.Job.Codec.{build_chain_job, next_snapshot}
use nagarik_signals.Chain.Job.Built.{build_chain_job-IsBuilt}
use nagarik_signals.Proof.Canonical.{Members}
use nagarik_signals.Security.Tokens.{purpose_eq}
use nagarik_signals.Security.Receipts.{Receipt}
use nagarik_signals.Services.Switches.{publication}
use nagarik_signals.Services.Issues.{
  Issue, Version, commit_pending, is_capability_enabled, v2_categories, insert_row, same_job,
  outbox_row, issue_snapshot,
}
use nagarik_signals.Services.Issues.Inversion.{insert_row-eq-ok}
use nagarik_signals.Services.Media.{approved_private, media_eq, update_media}
use nagarik_signals.Services.Publication.{PublicCopy, same_publication_event, same_version}
use nagarik_signals.Services.Moderation.{
  ModerationRequest, ModerationDependencies, ModerationTables, SubmissionRow, PublishedIssue,
}
use nagarik_signals.Services.Moderation.Rows.{
  approval_job, new_issue, new_issue_id, new_version, new_version_id, approval_event,
  approval_outbox_id, published_issue, approved_metadata_hash, approved_location_hash,
  empty_snapshot,
}
use nagarik_signals.Services.Moderation.Received.{
  PublicTables, public_tables, IsReceived, receipt_of-IsReceived,
}
use nagarik_signals.Services.Moderation.Spent.{IsSpent, receipt-IsSpent}
use nagarik_signals.Services.Moderation.Approval.{
  same_issue, consume_capability, is_derivative, published_media, receipt_of, candidate_location,
  copy_of, write_approval, approve_submission,
}

-- The first change of an issue: the job starts from an empty chain, and the rows wait for its commit.
pub record IsFirst (job : Envelope) (issue : Issue) (version : Version) (receipt : Receipt)
    (copy : PublicCopy) (answer : PublishedIssue) : Type 0 where
  pub nothing_before : job.expected.update_count ≡ 0
  pub no_heads : (job.expected.timeline_head ≡ zero_hash) × (job.expected.handoff_head ≡ zero_hash)
  pub no_metadata : job.expected.metadata_hash ≡ zero_hash
  pub no_evidence : job.expected.evidence_hash ≡ zero_hash
  pub no_location : job.expected.location_hash ≡ zero_hash
  pub first_sequence : job.next.update_count ≡ 1
  pub not_removed : job.next.removed ≡ false
  pub opened : issue.lifecycle ≡ open_state
  pub waits : (issue.publication_state ≡ commit_pending) × (version.state ≡ commit_pending)
  pub current : issue.current_version_id ≡ version.id
  pub of_issue : version.issue_id ≡ issue.id
  pub copied : (version.title ≡ copy.title) × (version.narrative ≡ copy.narrative)
  pub shows : version.public_media_id ≡ receipt.media_id
  pub answer_ids : (answer.issue_id ≡ issue.id) × (answer.version_id ≡ version.id)
  pub answer_sequence : answer.chain_sequence ≡ issue.checkpoint_update_count
  pub answer_head : answer.timeline_head ≡ issue.projected_timeline_head

-- What an approval has checked, and the rows that it adds.
pub record IsApproved (d : ModerationDependencies) (q : ModerationRequest) (t : PublicTables)
    (r : SubmissionRow) (answer : Option PublishedIssue) (t' : PublicTables) : Type 0 where
  pub receipt : Receipt
  pub location : Members
  pub copy : PublicCopy
  pub job : Envelope
  pub photograph : r.media.state ≡ approved_private
  pub received : IsReceived d q t r receipt
  pub located : candidate_location d q r ≡ ok location
  pub described : q.moderation.public_copy ≡ some copy
  pub starts : job.expected ≡ empty_snapshot d q r
  pub next :
      job.next ≡ issue_snapshot (new_issue d q r job) (new_version d q r receipt copy location)
  pub issues : t'.issues ≡ t.issues ++ (new_issue d q r job ∷ [])
  pub versions : t'.versions ≡ t.versions ++ (new_version d q r receipt copy location ∷ [])
  pub queued :
      t'.jobs
      ≡ t.jobs
        ++ (outbox_row
              (approval_outbox_id d q r)
              (new_issue_id d q)
              (new_version_id d q r)
              job
              d.now
            ∷ [])
  pub shown :
      t'.media ≡ update_media (is_derivative receipt.media_id) (published_media d.now) t.media
  pub consumed : t'.capabilities ≡ consume_capability receipt.capability_id d.now t.capabilities
  pub answered : answer ≡ some (published_issue d q r job)
  pub first :
      IsFirst job
        (new_issue d q r job)
        (new_version d q r receipt copy location)
        receipt
        copy
        (published_issue d q r job)
  pub spent : IsSpent d q received.parsed received.derivative receipt t'.media t'.capabilities

module _ (d : ModerationDependencies) (q : ModerationRequest) where
  approval_job-Starts :
      (r : SubmissionRow) (receipt : Receipt) (copy : PublicCopy) (location : Members)
      (job : Envelope)
      → build_chain_job d.hashing (approval_job d q r receipt copy location) ≡ ok job
      → (job.expected ≡ empty_snapshot d q r)
        × (job.next
            ≡ issue_snapshot (new_issue d q r job) (new_version d q r receipt copy location))
  unfolding approval_job issue_snapshot new_issue new_version next_snapshot
  approval_job-Starts r receipt copy location job b =
      let built = build_chain_job-IsBuilt d.hashing (approval_job d q r receipt copy location) b in
      let refreshed : Snapshot → Snapshot = λ n. record n {
        category = v2_categories r.revision.category;
        lifecycle = v2_lifecycles open_state;
        removed = false;
        metadata_hash = approved_metadata_hash d q r receipt copy location;
        evidence_hash = receipt.evidence_hash;
        location_hash = approved_location_hash d q location;
      } in
      (built.expected, built.next ∙ ap refreshed (sym built.next))

  approval_job-IsFirst :
      (r : SubmissionRow) (receipt : Receipt) (copy : PublicCopy) (location : Members)
      (job : Envelope)
      → build_chain_job d.hashing (approval_job d q r receipt copy location) ≡ ok job
      → IsFirst job
          (new_issue d q r job)
          (new_version d q r receipt copy location)
          receipt
          copy
          (published_issue d q r job)
  unfolding approval_job empty_snapshot new_issue new_version next_snapshot published_issue
  approval_job-IsFirst r receipt copy location job b =
      let built = build_chain_job-IsBuilt d.hashing (approval_job d q r receipt copy location) b in
      let e = built.expected in
      record {
        nothing_before = ap Snapshot.update_count e;
        no_heads = (ap Snapshot.timeline_head e, ap Snapshot.handoff_head e);
        no_metadata = ap Snapshot.metadata_hash e;
        no_evidence = ap Snapshot.evidence_hash e;
        no_location = ap Snapshot.location_hash e;
        first_sequence = ap Snapshot.update_count built.next;
        not_removed = ap Snapshot.removed built.next;
        opened = refl;
        waits = (refl, refl);
        current = refl;
        of_issue = refl;
        copied = (refl, refl);
        shows = refl;
        answer_ids = (refl, refl);
        answer_sequence = refl;
        answer_head = refl;
      }

  copy_of-eq-ok : (o : Option PublicCopy) (c : PublicCopy) → copy_of d q o ≡ ok c → o ≡ some c
  unfolding copy_of
  copy_of-eq-ok none c h = cc
  copy_of-eq-ok (some k) c h = ap some (ok-injective h)

  write_approval-IsApproved :
      (t : ModerationTables) (r : SubmissionRow) (receipt : Receipt) (copy : PublicCopy)
      (location : Members) (job : Envelope) (out : Option PublishedIssue × ModerationTables)
      → r.media.state ≡ approved_private
      → IsReceived d q (public_tables t) r receipt
      → candidate_location d q r ≡ ok location
      → q.moderation.public_copy ≡ some copy
      → build_chain_job d.hashing (approval_job d q r receipt copy location) ≡ ok job
      → write_approval d q t r receipt copy location job ≡ ok out
      → IsApproved d q (public_tables t) r out.0 (public_tables out.1)
  unfolding write_approval
  write_approval-IsApproved t r receipt copy location job out photograph received located described
        b h =
      let new_job =
        outbox_row (approval_outbox_id d q r) (new_issue_id d q) (new_version_id d q r) job d.now in
      let version = new_version d q r receipt copy location in
      let (issues, i, h1) =
        >>=-eq-ok (insert_row same_issue (new_issue d q r job) t.publications.base.issues) _ h in
      let (versions, v, h2) =
        >>=-eq-ok (insert_row same_version version t.publications.base.versions) _ h1 in
      let (events, _, h3) =
        >>=-eq-ok
          (insert_row same_publication_event (approval_event d q r copy)
            t.publications.publication_events)
          _ h2 in
      let (jobs, j, h4) = >>=-eq-ok (insert_row same_job new_job t.publications.base.jobs) _ h3 in
      let o' = ok-injective h4 in
      let o = sym o' in
      let (starts, next) = approval_job-Starts r receipt copy location job b in
      record {
        receipt = receipt;
        location = location;
        copy = copy;
        job = job;
        photograph = photograph;
        received = received;
        located = located;
        described = described;
        starts = starts;
        next = next;
        issues =
            ap (λ p. p.1.publications.base.issues) o
            ∙ (insert_row-eq-ok same_issue _ t.publications.base.issues issues i).1;
        versions =
            ap (λ p. p.1.publications.base.versions) o
            ∙ (insert_row-eq-ok same_version _ t.publications.base.versions versions v).1;
        queued =
            ap (λ p. p.1.publications.base.jobs) o
            ∙ (insert_row-eq-ok same_job new_job t.publications.base.jobs jobs j).1;
        shown = ap (λ p. p.1.publications.media) o;
        consumed = ap (λ p. p.1.capabilities) o;
        answered = ap (λ p. p.0) o;
        first = approval_job-IsFirst r receipt copy location job b;
        spent =
            subst
              (λ p.
                IsSpent d q received.parsed received.derivative receipt p.1.publications.media
                  p.1.capabilities)
              o' (receipt-IsSpent d q (public_tables t) r receipt received);
      }

  pub approve_submission-IsApproved :
      (t : ModerationTables) (r : SubmissionRow) (out : Option PublishedIssue × ModerationTables)
      → approve_submission d q t r ≡ ok out
      → IsApproved d q (public_tables t) r out.0 (public_tables out.1)
  unfolding approve_submission
  approve_submission-IsApproved t r out h =
      let (_, h1) =
        guard-then-eq-ok (is_capability_enabled publication t.publications.base.switches) _ _ h in
      let (photograph, h2) = guard-then-eq-ok (r.media.state == approved_private) _ _ h1 in
      let (receipt, received, h3) =
        >>=-eq-ok (receipt_of d q t r q.moderation.media_binding_receipt) _ h2 in
      let (location, located, h4) = >>=-eq-ok (candidate_location d q r) _ h3 in
      let (copy, described, h5) = >>=-eq-ok (copy_of d q q.moderation.public_copy) _ h4 in
      let (job, b, h6) =
        >>=-eq-ok (build_chain_job d.hashing (approval_job d q r receipt copy location)) _ h5 in
      write_approval-IsApproved t r receipt copy location job out ((==_iff _ _).0 photograph)
        (receipt_of-IsReceived d q t r q.moderation.media_binding_receipt receipt refl received)
        located (copy_of-eq-ok q.moderation.public_copy copy described) b h6

  pub approve_submission-submissions :
      (t : ModerationTables) (r : SubmissionRow) (out : Option PublishedIssue × ModerationTables)
      → approve_submission d q t r ≡ ok out
      → out.1.submissions ≡ t.submissions
  unfolding approve_submission write_approval
  approve_submission-submissions t r out h =
      let (_, h1) =
        guard-then-eq-ok (is_capability_enabled publication t.publications.base.switches) _ _ h in
      let (_, h2) = guard-then-eq-ok (r.media.state == approved_private) _ _ h1 in
      let (receipt, _, h3) =
        >>=-eq-ok (receipt_of d q t r q.moderation.media_binding_receipt) _ h2 in
      let (location, _, h4) = >>=-eq-ok (candidate_location d q r) _ h3 in
      let (copy, _, h5) = >>=-eq-ok (copy_of d q q.moderation.public_copy) _ h4 in
      let (job, _, h6) =
        >>=-eq-ok (build_chain_job d.hashing (approval_job d q r receipt copy location)) _ h5 in
      let (_, _, h7) = >>=-eq-ok (insert_row same_issue (new_issue d q r job) _) _ h6 in
      let (_, _, h8) =
        >>=-eq-ok (insert_row same_version (new_version d q r receipt copy location) _) _ h7 in
      let (_, _, h9) =
        >>=-eq-ok (insert_row same_publication_event (approval_event d q r copy) _) _ h8 in
      let (_, _, h10) = >>=-eq-ok (insert_row same_job _ _) _ h9 in
      ap (λ p. p.1.submissions) (sym (ok-injective h10))
