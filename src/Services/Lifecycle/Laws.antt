-- ===== src/Services/Lifecycle/Laws.antt =====
-- What a lifecycle change that is carried out has checked and written.
use nagarik_signals.Base.{
  ◌≡◌, subst, refl, sym, ap, ◌∙◌, ◌&&◌, String, Bool, arith, error, if◌then◌else◌, true, false,
  Option, none, some, [], ◌∷◌, ◌++◌, ◌==◌, ==_iff, option_eq, nat_eq, string_eq, includes, ok, err,
  >>=-eq-ok, guard-then-eq-ok, then-eq-ok, ok-injective, marked-ne,
}
use nagarik_signals.Domain.Workflow.{
  LifecycleState, lifecycle_eq, lifecycle_transitions, assert_lifecycle_transition,
}
use nagarik_signals.Chain.Protocol.{v2_lifecycles}
use nagarik_signals.Chain.Job.Schema.{Envelope, Snapshot}
use nagarik_signals.Chain.Job.Codec.{build_chain_job, next_snapshot}
use nagarik_signals.Chain.Job.Built.{build_chain_job-IsBuilt}
use nagarik_signals.Services.Switches.{operator_mutations}
use nagarik_signals.Services.Operations.{
  OperatorDependencies, MutationReservation, fresh, replayed, complete_operator_mutation,
  reserve_operator_mutation,
}
use nagarik_signals.Services.Issues.{
  published, v2_categories, publication_eq, Issue, Version, insert_row, same_lifecycle_event,
  same_job, same_audit, find_v2_issue, with_version, change_issue, outbox_row, issue_snapshot,
  is_capability_enabled,
}
use nagarik_signals.Services.Issues.Inversion.{insert_row-eq-ok, with_version-eq-some}
use nagarik_signals.Services.Lifecycle.Step.{IsOneStep, lifecycle_step, moved_again}
use nagarik_signals.Services.Lifecycle.{
  LifecycleInput, LifecycleRequest, LifecycleResult, transition_checked, check_lifecycle,
  lifecycle_job, lifecycle_event, moved_issue, lifecycle_audit, lifecycle_result, mutation_request,
}
use nagarik_signals.Services.Lifecycle.Change.{
  LifecycleTables, lifecycle_outbox_id, write_lifecycle, lifecycle_found, change_reserved,
  change_issue_lifecycle,
}

-- An issue whose lifecycle may be changed so.
pub record IsChangeable (c : LifecycleInput) (i : Issue) : Type 0 where
  pub is_published : i.publication_state ≡ published
  pub unblocked : i.blocked_from_sequence ≡ none
  pub version : i.domain_version ≡ c.expected_domain_version
  pub head : i.projected_timeline_head ≡ c.expected_timeline_head
  pub allowed : includes (lifecycle_transitions i.lifecycle) c.to_state ≡ true

transition_checked-allowed :
    (current next : LifecycleState)
    → transition_checked (assert_lifecycle_transition current next) ≡ ok tt
    → includes (lifecycle_transitions current) next ≡ true
unfolding assert_lifecycle_transition
transition_checked-allowed current next h =
    decided (includes (lifecycle_transitions current) next) (current == LifecycleState.closed) h
  where
    decided :
        (a b : Bool)
        → transition_checked (
            if a
            then ok tt
            else if b
            then err (error "lifecycle_terminal")
            else err (error "lifecycle_transition_invalid"))
          ≡ ok tt
        → a ≡ true
    decided true b k = refl
    decided false true k = cc
    decided false false k = cc

pub check_lifecycle-IsChangeable :
    (c : LifecycleInput) (i : Issue) → check_lifecycle c i ≡ ok tt → IsChangeable c i
unfolding check_lifecycle
check_lifecycle-IsChangeable c i h =
    let (a, h1) =
      guard-then-eq-ok (i.publication_state == published && i.blocked_from_sequence == none) _ _
        h in
    let (b, h2) =
      guard-then-eq-ok
        (i.domain_version == c.expected_domain_version
          && i.projected_timeline_head == c.expected_timeline_head)
        _ _ h1 in
    record {
      is_published = (==_iff _ _).0 (ground arith);
      unblocked = (==_iff _ _).0 (ground arith);
      version = (==_iff _ _).0 (ground arith);
      head = (==_iff _ _).0 (ground arith);
      allowed = transition_checked-allowed i.lifecycle c.to_state h2;
    }

-- A change that was carried out: what its issue was, what was checked of it, and what was written.
pub record IsCarriedOut (d : OperatorDependencies) (q : LifecycleRequest) (t : LifecycleTables)
    (r : LifecycleResult) (t' : LifecycleTables) : Type 0 where
  pub issue : Issue
  pub version : Version
  pub job : Envelope
  pub found :
      with_version (find_v2_issue q.public_id q.actor.organization_id t.issues) t.versions
      ≡ some (issue, version)
  pub changeable : IsChangeable q.change issue
  pub expected : job.expected ≡ issue_snapshot issue version
  pub next : job.next ≡ issue_snapshot (moved_issue d.now q.change.to_state job issue) version
  pub issues : t'.issues ≡ change_issue issue.id (moved_issue d.now q.change.to_state job) t.issues
  pub queued :
      t'.jobs ≡ t.jobs ++ (outbox_row (lifecycle_outbox_id d q) issue.id version.id job d.now ∷ [])
  pub recorded :
      t'.lifecycle_events ≡ t.lifecycle_events ++ (lifecycle_event d q issue version job ∷ [])
  pub answer : r ≡ lifecycle_result q issue job
  pub enabled : is_capability_enabled operator_mutations t.switches ≡ true
  pub after : Issue
  pub found_after : find_v2_issue q.public_id q.actor.organization_id t'.issues ≡ some after
  pub step : IsOneStep q.change.to_state issue after (lifecycle_event d q issue version job) job r

module _ (d : OperatorDependencies) (q : LifecycleRequest) where
  pub write_lifecycle-IsWritten :
      (record_id request_hash actor_key : String) (t : LifecycleTables) (i : Issue) (v : Version)
      (job : Envelope) (out : LifecycleResult × LifecycleTables)
      → write_lifecycle d q record_id request_hash actor_key t i v job ≡ ok out
      → (out.0 ≡ lifecycle_result q i job)
        × (out.1.issues ≡ change_issue i.id (moved_issue d.now q.change.to_state job) t.issues)
        × (out.1.jobs ≡ t.jobs ++ (outbox_row (lifecycle_outbox_id d q) i.id v.id job d.now ∷ []))
        × (out.1.lifecycle_events ≡ t.lifecycle_events ++ (lifecycle_event d q i v job ∷ []))
        × (complete_operator_mutation record_id request_hash (lifecycle_result q i job) t.records
            ≡ ok out.1.records)
  unfolding write_lifecycle
  write_lifecycle-IsWritten record_id request_hash actor_key t i v job out h =
      let (events, e, h1) =
        >>=-eq-ok (insert_row same_lifecycle_event (lifecycle_event d q i v job) t.lifecycle_events)
          _ h in
      let (jobs, j, h2) =
        >>=-eq-ok
          (insert_row same_job (outbox_row (lifecycle_outbox_id d q) i.id v.id job d.now) t.jobs) _
          h1 in
      let (audit, a, h3) =
        >>=-eq-ok (insert_row same_audit (lifecycle_audit d q actor_key i job) t.audit) _ h2 in
      let (records, c, h4) =
        >>=-eq-ok
          (complete_operator_mutation record_id request_hash (lifecycle_result q i job) t.records) _
          h3 in
      let o = sym (ok-injective h4) in
      (
        ap (λ p. p.0) o,
        ap (λ p. p.1.issues) o,
        ap (λ p. p.1.jobs) o ∙ (insert_row-eq-ok same_job _ t.jobs jobs j).1,
        ap (λ p. p.1.lifecycle_events) o
            ∙ (insert_row-eq-ok same_lifecycle_event _ t.lifecycle_events events e).1,
        c ∙ ap (λ p. ok p.1.records) (sym o),
      )

  -- The new snapshot is that of the issue as it is written.
  lifecycle_job-Continues :
      (i : Issue) (v : Version) (job : Envelope)
      → build_chain_job d.hashing (lifecycle_job d q i v) ≡ ok job
      → (job.expected ≡ issue_snapshot i v)
        × (job.next ≡ issue_snapshot (moved_issue d.now q.change.to_state job i) v)
  unfolding lifecycle_job issue_snapshot moved_issue next_snapshot
  lifecycle_job-Continues i v job b =
      let built = build_chain_job-IsBuilt d.hashing (lifecycle_job d q i v) b in
      let refreshed : Snapshot → Snapshot = λ n. record n {
        category = v2_categories v.category;
        lifecycle = v2_lifecycles q.change.to_state;
        removed = false;
        metadata_hash = v.metadata_hash;
        evidence_hash = v.evidence_hash;
        location_hash = v.location_hash;
      } in
      (built.expected, built.next ∙ ap refreshed (sym built.next))

  lifecycle_found-IsCarriedOut :
      (record_id request_hash actor_key : String) (t : LifecycleTables)
      (o : Option (Issue × Version)) (out : LifecycleResult × LifecycleTables)
      → with_version (find_v2_issue q.public_id q.actor.organization_id t.issues) t.versions ≡ o
      → is_capability_enabled operator_mutations t.switches ≡ true
      → lifecycle_found d q record_id request_hash actor_key t o ≡ ok out
      → IsCarriedOut d q t out.0 out.1
  unfolding lifecycle_found
  lifecycle_found-IsCarriedOut record_id request_hash actor_key t none out f on h = cc
  lifecycle_found-IsCarriedOut record_id request_hash actor_key t (some (i, v)) out f on h =
      let (checked, h1) = then-eq-ok (check_lifecycle q.change i) _ h in
      let (job, built, h2) = >>=-eq-ok (build_chain_job d.hashing (lifecycle_job d q i v)) _ h1 in
      let (answer, issues, jobs, events, _) =
        write_lifecycle-IsWritten record_id request_hash actor_key t i v job out h2 in
      let (expected, next) = lifecycle_job-Continues i v job built in
      let changeable = check_lifecycle-IsChangeable q.change i checked in
      record {
        after = moved_issue d.now q.change.to_state job i;
        found_after =
            ap (find_v2_issue q.public_id q.actor.organization_id) issues
            ∙ moved_again d q job t.issues i (with_version-eq-some _ t.versions i v f).0;
        step =
            subst
              (λ a.
                IsOneStep q.change.to_state i (moved_issue d.now q.change.to_state job i)
                  (lifecycle_event d q i v job) job a)
              (sym answer) (lifecycle_step d q i v job changeable.is_published built);
        issue = i;
        version = v;
        job = job;
        found = f;
        changeable = changeable;
        expected = expected;
        next = next;
        issues = issues;
        queued = jobs;
        recorded = events;
        answer = answer;
        enabled = on;
      }

  change_fresh-IsCarriedOut :
      (record_id request_hash actor_key : String) (t : LifecycleTables) (r : LifecycleResult)
      (t' : LifecycleTables)
      → change_reserved d q (fresh record_id request_hash actor_key) t ≡ ok ((false, r), t')
      → IsCarriedOut d q t r t'
  unfolding change_reserved
  change_fresh-IsCarriedOut record_id request_hash actor_key t r t' h =
      let found =
        with_version (find_v2_issue q.public_id q.actor.organization_id t.issues) t.versions in
      let (on, h1) = guard-then-eq-ok (is_capability_enabled operator_mutations t.switches) _ _ h in
      let (out, f, h2) =
        >>=-eq-ok (lifecycle_found d q record_id request_hash actor_key t found) _ h1 in
      let g = f ∙ ap (λ p. ok (p.0.1, p.1)) (ok-injective h2) in
      lifecycle_found-IsCarriedOut record_id request_hash actor_key t found (r, t') refl on g

  change_reserved-IsCarriedOut :
      (m : MutationReservation LifecycleResult) (t : LifecycleTables) (r : LifecycleResult)
      (t' : LifecycleTables)
      → change_reserved d q m t ≡ ok ((false, r), t')
      → IsCarriedOut d q t r t'
  change_reserved-IsCarriedOut (replayed response) t r t' h =
      absurd (marked-ne response r t t' (unfold change_reserved in h))
  change_reserved-IsCarriedOut (fresh record_id request_hash actor_key) t r t' h =
      change_fresh-IsCarriedOut record_id request_hash actor_key t r t' h

-- A lifecycle change that is carried out, and not replayed, belongs to a published issue of the
-- operator's organization that is not blocked, at the version and head that the operator has seen, and
-- is a transition of the table. It puts exactly one job into the outbox: the job starts from the
-- snapshot of the rows as they were, and its next snapshot is that of the rows as they are written. The
-- issue is then found again, still published, in the new state, its version and its sequence one higher,
-- its handoff head as it was, and the answer and the event carry its version, sequence and head.
pub change_issue_lifecycle-IsCarriedOut :
    (d : OperatorDependencies) (q : LifecycleRequest) (t : LifecycleTables) (r : LifecycleResult)
    (t' : LifecycleTables)
    → change_issue_lifecycle d q t ≡ ok ((false, r), t')
    → IsCarriedOut d q t r t'
unfolding change_issue_lifecycle
change_issue_lifecycle-IsCarriedOut d q t r t' h =
    let (m, _, h1) = >>=-eq-ok (reserve_operator_mutation d (mutation_request q) t.records) _ h in
    let c = change_reserved-IsCarriedOut d q m.0 (record t { records = m.1 }) r t' h1 in
    record {
      issue = c.issue;
      version = c.version;
      job = c.job;
      found = c.found;
      changeable = c.changeable;
      expected = c.expected;
      next = c.next;
      issues = c.issues;
      queued = c.queued;
      recorded = c.recorded;
      answer = c.answer;
      enabled = c.enabled;
      after = c.after;
      found_after = c.found_after;
      step = c.step;
    }
