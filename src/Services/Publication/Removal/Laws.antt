-- ===== src/Services/Publication/Removal/Laws.antt =====
-- What a removal that is carried out has checked and written.
use nagarik_signals.Base.{
  ℕ, ◌<◌, ◌≡◌, refl, arith, max, All, List, if◌then◌else◌, ◌==◌, ==_iff, sym, ap, ◌∙◌, ◌+◌, ◌&&◌,
  String, Bool, true, false, some, [], ◌∷◌, ◌++◌, string_eq, ok, >>=-eq-ok, guard-then-eq-ok,
  ok-injective, error, leb,
}
use nagarik_signals.Chain.Protocol.{v2_max_sequence, publication_removed}
use nagarik_signals.Chain.Job.Schema.{Envelope, Snapshot}
use nagarik_signals.Chain.Job.Codec.{build_chain_job, next_snapshot}
use nagarik_signals.Chain.Job.Built.{build_chain_job-IsBuilt}
use nagarik_signals.Services.Operations.{OperatorDependencies, complete_operator_mutation}
use nagarik_signals.Services.Issues.{
  Issue, Version, insert_row, same_job, same_audit, with_version, change_issue, outbox_row,
  issue_snapshot,
}
use nagarik_signals.Services.Issues.Inversion.{insert_row-eq-ok}
use nagarik_signals.Services.Signals.Store.{find_public_issue}
use nagarik_signals.Services.Publication.{same_publication_event}
use nagarik_signals.Services.Publication.Checks.{IsCorrectable}
use nagarik_signals.Services.Publication.Removal.{
  RemovalRequest, RemovalResult, RemovalTables, PrivacyRequest, PrivacyState, AccessOverlay,
}
use nagarik_signals.Services.Publication.Removal.Restriction.{
  create_privacy_restriction, max_overlay, privacy_row, overlay_row, same_request_id, same_overlay,
}
use nagarik_signals.Services.Publication.Removal.Rows.{
  removal_event_id, removal_job, removal_event, removal_requested_issue, removal_outbox_id,
  removal_audit, removal_result,
}
use nagarik_signals.Services.Publication.Removal.Remove.{remove_v2}

-- A restriction that was written: one request, and one overlay above all others of the issue.
pub record IsRestricted (d : OperatorDependencies) (q : RemovalRequest) (issue_id : String)
    (closed : Bool) (t t' : RemovalTables) : Type 0 where
  pub requests :
      t'.privacy_requests
      ≡ t.privacy_requests ++ (privacy_row d q issue_id (removal_event_id d q) closed ∷ [])
  pub overlays :
      t'.overlays
      ≡ t.overlays
        ++ (overlay_row d q issue_id (removal_event_id d q) (max_overlay issue_id t.overlays + 1)
            ∷ [])
  pub rows : t'.rows ≡ t.rows

pub create_privacy_restriction-IsRestricted :
    (d : OperatorDependencies) (q : RemovalRequest) (issue_id : String) (closed : Bool)
    (t t' : RemovalTables)
    → create_privacy_restriction d q issue_id (removal_event_id d q) closed t ≡ ok t'
    → IsRestricted d q issue_id closed t t'
unfolding create_privacy_restriction
create_privacy_restriction-IsRestricted d q issue_id closed t t' h =
    let version = max_overlay issue_id t.overlays + 1 in
    let event = removal_event_id d q in
    let (_, h1) =
      guard-then-eq-ok (leb version v2_max_sequence && leb 1 version)
        (error "access_overlay_version_invalid") _ h in
    let (requests, r, h2) =
      >>=-eq-ok
        (insert_row same_request_id (privacy_row d q issue_id event closed) t.privacy_requests) _
        h1 in
    let (overlays, o, h3) =
      >>=-eq-ok (insert_row same_overlay (overlay_row d q issue_id event version) t.overlays) _
        h2 in
    let e = sym (ok-injective h3) in
    record {
      requests =
          ap RemovalTables.privacy_requests e
          ∙ (insert_row-eq-ok same_request_id _ t.privacy_requests requests r).1;
      overlays =
          ap RemovalTables.overlays e ∙ (insert_row-eq-ok same_overlay _ t.overlays overlays o).1;
      rows = ap RemovalTables.rows e;
    }

max_overlay-above :
    (issue_id : String) (os : List AccessOverlay) (n : ℕ)
    → max_overlay issue_id os < n
    → All (λ o. o.issue_id ≡ issue_id → o.overlay_version < n) os
unfolding max_overlay
max_overlay-above issue_id [] n h = tt
max_overlay-above issue_id (o ∷ os) n h =
    let counted = cases (o.issue_id == issue_id) refl h in
    (counted.0, max_overlay-above issue_id os n counted.1)
  where
    cases :
        (b : Bool)
        → (o.issue_id == issue_id) ≡ b
        → (if b then max o.overlay_version (max_overlay issue_id os) else max_overlay issue_id os)
          < n
        → (o.issue_id ≡ issue_id → o.overlay_version < n) × (max_overlay issue_id os < n)
    cases true e k = ((λ _. omega arith), omega arith)
    cases false e k = ((λ same. absurd (kept e ((==_iff o.issue_id issue_id).1 same))), k)
      where
        kept : (o.issue_id == issue_id) ≡ false → ¬ ((o.issue_id == issue_id) ≡ true)
        kept x y = ground arith

-- The rows that restrict an issue: a request in review, and an overlay above all earlier ones.
pub record IsCovered (issue_id : String) (before : List AccessOverlay) (request : PrivacyRequest)
    (overlay : AccessOverlay) : Type 0 where
  pub target : request.target_id ≡ issue_id
  pub in_review : request.state ≡ PrivacyState.in_review
  pub of_issue : overlay.issue_id ≡ issue_id
  pub for_request : overlay.privacy_request_id ≡ request.id
  pub above : All (λ o. o.issue_id ≡ issue_id → o.overlay_version < overlay.overlay_version) before

-- The job of a removal: the next snapshot is removed, and nothing else of the issue moves.
pub record IsRemoving (job : Envelope) : Type 0 where
  pub operation : job.operation ≡ publication_removed
  pub removed : job.next.removed ≡ true
  pub next_sequence : job.next.update_count ≡ job.expected.update_count + 1
  pub same_category : job.next.category ≡ job.expected.category
  pub same_lifecycle : job.next.lifecycle ≡ job.expected.lifecycle
  pub same_handoffs : job.next.handoff_head ≡ job.expected.handoff_head
  pub same_evidence : job.next.evidence_hash ≡ job.expected.evidence_hash

-- A removal of a v2 issue that was carried out.
pub record IsRequested (d : OperatorDependencies) (q : RemovalRequest) (t : RemovalTables)
    (r : RemovalResult) (t' : RemovalTables) : Type 0 where
  pub issue : Issue
  pub version : Version
  pub job : Envelope
  pub found :
      with_version
        (find_public_issue q.public_id q.actor.organization_id t.rows.base.issues)
        t.rows.base.versions
      ≡ some (issue, version)
  pub is_v2 : issue.is_v2 ≡ true
  pub correctable :
      IsCorrectable q.removal.expected_domain_version q.removal.expected_timeline_head issue
  pub expected : job.expected ≡ issue_snapshot issue version
  pub head : String
  pub next : job.next ≡ next_snapshot (removal_job d q issue version) head
  pub issues :
      t'.rows.base.issues
      ≡ change_issue issue.id (removal_requested_issue d q job) t.rows.base.issues
  pub versions : t'.rows.base.versions ≡ t.rows.base.versions
  pub queued :
      t'.rows.base.jobs
      ≡ t.rows.base.jobs ++ (outbox_row (removal_outbox_id d q) issue.id version.id job d.now ∷ [])
  pub requests :
      t'.privacy_requests
      ≡ t.privacy_requests ++ (privacy_row d q issue.id (removal_event_id d q) false ∷ [])
  pub overlays :
      t'.overlays
      ≡ t.overlays
        ++ (overlay_row d q issue.id (removal_event_id d q) (max_overlay issue.id t.overlays + 1)
            ∷ [])
  pub answer : r ≡ removal_result d q issue job
  pub removing : IsRemoving job
  pub request : PrivacyRequest
  pub requested : t'.privacy_requests ≡ t.privacy_requests ++ (request ∷ [])
  pub overlay : AccessOverlay
  pub overlaid : t'.overlays ≡ t.overlays ++ (overlay ∷ [])
  pub covered : IsCovered issue.id t.overlays request overlay
  pub answer_version : r.domain_version ≡ issue.domain_version + 1
  pub answer_sequence : r.chain_sequence ≡ some job.next.update_count

module _ (d : OperatorDependencies) (q : RemovalRequest) where
  removal_job-IsRemoving :
      (i : Issue) (v : Version) (job : Envelope)
      → build_chain_job d.hashing (removal_job d q i v) ≡ ok job
      → IsRemoving job
  unfolding removal_job issue_snapshot next_snapshot
  removal_job-IsRemoving i v job b =
      let built = build_chain_job-IsBuilt d.hashing (removal_job d q i v) b in
      let e = built.expected in
      record {
        operation = built.operation;
        removed = ap Snapshot.removed built.next;
        next_sequence = ap Snapshot.update_count built.next ∙ ap (λ s. s.update_count + 1) (sym e);
        same_category = ap Snapshot.category built.next ∙ ap Snapshot.category (sym e);
        same_lifecycle = ap Snapshot.lifecycle built.next ∙ ap Snapshot.lifecycle (sym e);
        same_handoffs = ap Snapshot.handoff_head built.next ∙ ap Snapshot.handoff_head (sym e);
        same_evidence = ap Snapshot.evidence_hash built.next ∙ ap Snapshot.evidence_hash (sym e);
      }

  pub remove_v2-IsRequested :
      (record_id request_hash actor_key : String) (t : RemovalTables) (i : Issue) (v : Version)
      (job : Envelope) (out : RemovalResult × RemovalTables)
      → with_version
          (find_public_issue q.public_id q.actor.organization_id t.rows.base.issues)
          t.rows.base.versions
        ≡ some (i, v)
      → i.is_v2 ≡ true
      → IsCorrectable q.removal.expected_domain_version q.removal.expected_timeline_head i
      → build_chain_job d.hashing (removal_job d q i v) ≡ ok job
      → remove_v2 d q record_id request_hash actor_key t i v job ≡ ok out
      → IsRequested d q t out.0 out.1
  unfolding remove_v2
  remove_v2-IsRequested record_id request_hash actor_key t i v job out f two c b h =
      let new_job = outbox_row (removal_outbox_id d q) i.id v.id job d.now in
      let built = build_chain_job-IsBuilt d.hashing (removal_job d q i v) b in
      let (events, _, h1) =
        >>=-eq-ok
          (insert_row same_publication_event (removal_event d q i) t.rows.publication_events) _ h in
      let (between, s, h2) =
        >>=-eq-ok (create_privacy_restriction d q i.id (removal_event_id d q) false t) _ h1 in
      let (jobs, j, h3) = >>=-eq-ok (insert_row same_job new_job t.rows.base.jobs) _ h2 in
      let (audit, _, h4) =
        >>=-eq-ok (insert_row same_audit (removal_audit d q actor_key i job) t.rows.base.audit) _
          h3 in
      let (records, _, h5) =
        >>=-eq-ok
          (complete_operator_mutation record_id request_hash (removal_result d q i job)
            t.rows.base.records)
          _ h4 in
      let o = sym (ok-injective h5) in
      let written = create_privacy_restriction-IsRestricted d q i.id false t between s in
      record {
        issue = i;
        version = v;
        job = job;
        found = f;
        is_v2 = two;
        correctable = c;
        expected = unfold removal_job in built.expected;
        head = built.head;
        next = built.next;
        issues = ap (λ p. p.1.rows.base.issues) o;
        versions = ap (λ p. p.1.rows.base.versions) o;
        queued =
            ap (λ p. p.1.rows.base.jobs) o
            ∙ (insert_row-eq-ok same_job new_job t.rows.base.jobs jobs j).1;
        requests = ap (λ p. p.1.privacy_requests) o ∙ written.requests;
        overlays = ap (λ p. p.1.overlays) o ∙ written.overlays;
        answer = ap (λ p. p.0) o;
        removing = removal_job-IsRemoving i v job b;
        request = privacy_row d q i.id (removal_event_id d q) false;
        requested = ap (λ p. p.1.privacy_requests) o ∙ written.requests;
        overlay = overlay_row d q i.id (removal_event_id d q) (max_overlay i.id t.overlays + 1);
        overlaid = ap (λ p. p.1.overlays) o ∙ written.overlays;
        covered = record {
          target = refl;
          in_review = refl;
          of_issue = refl;
          for_request = refl;
          above = max_overlay-above i.id t.overlays _ (omega arith);
        };
        answer_version = ap (λ p. p.0.domain_version) o ∙ (unfold removal_result in refl);
        answer_sequence = ap (λ p. p.0.chain_sequence) o ∙ (unfold removal_result in refl);
      }
