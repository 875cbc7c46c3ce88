-- ===== src/Services/Publication/Removal/Pending.antt =====
-- While a removal waits for its confirmation, the issue stays open to other changes.
use nagarik_signals.Base.{
  ◌≡◌, refl, sym, ap, ◌∙◌, ◌&&◌, Bool, true, false, none, some, String, List, [], ◌∷◌, ◌++◌, ◌==◌,
  ==_iff, ==_refl, string_eq, nat_eq, option_eq, ok, Bool-cases, inl, inr, if◌then◌else◌, subst,
}
use nagarik_signals.Domain.Workflow.{assert_lifecycle_transition}
use nagarik_signals.Chain.Job.Schema.{Envelope, Snapshot}
use nagarik_signals.Chain.Job.Codec.{next_snapshot}
use nagarik_signals.Services.Operations.{OperatorDependencies}
use nagarik_signals.Services.Issues.{
  published, publication_eq, Issue, Version, find_version, with_version, change_issue,
  issue_snapshot, outbox_row,
}
use nagarik_signals.Services.Issues.Inversion.{
  some-injective, with_version-eq-some, with_version-some,
}
use nagarik_signals.Services.Signals.Store.{find_public_issue}
use nagarik_signals.Services.Lifecycle.{
  LifecycleInput, LifecycleRequest, check_lifecycle, lifecycle_job, transition_checked,
}
use nagarik_signals.Services.Publication.Removal.{RemovalRequest, RemovalResult, RemovalTables}
use nagarik_signals.Services.Publication.Removal.Rows.{
  removal_job, removal_requested_issue, removal_outbox_id, removal_result,
}
use nagarik_signals.Services.Publication.Removal.Remove.{remove_published_issue}
use nagarik_signals.Services.Publication.Removal.Laws.{IsRequested}
use nagarik_signals.Services.Publication.Removal.Outcome.{remove_published_issue-Outcome}

-- A change of the found row that keeps what the search reads is found.
find_public_issue-change_issue :
    (public_id organization_id : String) (f : Issue → Issue) (is : List Issue) (i : Issue)
    → ((a : Issue) → (f a).public_id ≡ a.public_id)
    → ((a : Issue) → (f a).organization_id ≡ a.organization_id)
    → find_public_issue public_id organization_id is ≡ some i
    → find_public_issue public_id organization_id (change_issue i.id f is) ≡ some (f i)
unfolding find_public_issue change_issue
find_public_issue-change_issue public_id organization_id f [] i p o h = cc
find_public_issue-change_issue public_id organization_id f (a ∷ is) i p o h =
    decided (a.public_id == public_id && a.organization_id == organization_id) refl h
      (find_public_issue-change_issue public_id organization_id f is i p o)
  where
    decided :
        (b : Bool)
        → (a.public_id == public_id && a.organization_id == organization_id) ≡ b
        → (if b then some a else find_public_issue public_id organization_id is) ≡ some i
        → (find_public_issue public_id organization_id is ≡ some i
            → find_public_issue public_id organization_id (change_issue i.id f is) ≡ some (f i))
        → find_public_issue public_id organization_id
            (if a.id == i.id then f a ∷ change_issue i.id f is else a ∷ change_issue i.id f is)
          ≡ some (f i)
    decided true e here ih =
        subst
          (λ j.
            find_public_issue public_id organization_id
              (if a.id == j.id then f a ∷ change_issue j.id f is else a ∷ change_issue j.id f is)
            ≡ some (f j))
          (some-injective here) (rw (==_refl a.id, p a, o a, e) refl)
    decided false e there ih = elim (Bool-cases (a.id == i.id)) [
      | inl same ↦ rw (same, p a, o a, e) (ih there)
      | inr other ↦ rw (other, e) (ih there)
    ]

-- The rows after a removal of a v2 issue was requested.
requested-found :
    (d : OperatorDependencies) (q : RemovalRequest) (t : RemovalTables) (r : RemovalResult)
    (t' : RemovalTables)
    → (c : IsRequested d q t r t')
    → with_version
        (find_public_issue q.public_id q.actor.organization_id t'.rows.base.issues)
        t'.rows.base.versions
      ≡ some (removal_requested_issue d q c.job c.issue, c.version)
unfolding removal_requested_issue
requested-found d q t r t' c =
    let (issue, version) = with_version-eq-some _ _ c.issue c.version c.found in
    with_version-some _ t'.rows.base.versions (removal_requested_issue d q c.job c.issue) c.version
      (ap (find_public_issue q.public_id q.actor.organization_id) c.issues
        ∙ find_public_issue-change_issue q.public_id q.actor.organization_id
            (removal_requested_issue d q c.job) t.rows.base.issues c.issue (λ a. refl) (λ a. refl)
            issue)
      (ap (find_version c.issue.current_version_id) c.versions ∙ version)

-- What a requested removal leaves behind, for a lifecycle change that has seen its answer.
pub record IsLeftOpen (d : OperatorDependencies) (q : RemovalRequest) (q' : LifecycleRequest)
    (t : RemovalTables) (t' : RemovalTables) : Type 0 where
  pub issue : Issue
  pub version : Version
  pub job : Envelope
  pub found :
      with_version
        (find_public_issue q.public_id q.actor.organization_id t'.rows.base.issues)
        t'.rows.base.versions
      ≡ some (issue, version)
  pub queued :
      t'.rows.base.jobs
      ≡ t.rows.base.jobs ++ (outbox_row (removal_outbox_id d q) issue.id version.id job d.now ∷ [])
  pub removed : job.next.removed ≡ true
  pub checked :
      check_lifecycle q'.change issue
      ≡ transition_checked (assert_lifecycle_transition issue.lifecycle q'.change.to_state)
  pub successor : (lifecycle_job d q' issue version).expected.update_count ≡ job.next.update_count
  pub forgotten : (lifecycle_job d q' issue version).expected.removed ≡ false

check_lifecycle-open :
    (c : LifecycleInput) (i : Issue)
    → i.publication_state ≡ published
    → i.blocked_from_sequence ≡ none
    → i.domain_version ≡ c.expected_domain_version
    → i.projected_timeline_head ≡ c.expected_timeline_head
    → check_lifecycle c i ≡ transition_checked (assert_lifecycle_transition i.lifecycle c.to_state)
unfolding check_lifecycle
check_lifecycle-open c i p b v h =
    rw
      (
        (==_iff i.publication_state published).1 p,
        (==_iff i.blocked_from_sequence none).1 b,
        (==_iff i.domain_version c.expected_domain_version).1 v,
        (==_iff i.projected_timeline_head c.expected_timeline_head).1 h,
      )
      refl

-- A removal that waits for its confirmation does not close the issue to other changes. A lifecycle
-- change that has seen the removal's answer passes every check but the table of transitions, and its job
-- follows the removal's job in the count, but expects an issue that is not removed, where the removal's
-- job leaves a removed one.
pub remove_published_issue-IsLeftOpen :
    (d : OperatorDependencies) (q : RemovalRequest) (q' : LifecycleRequest) (t : RemovalTables)
    (r : RemovalResult) (t' : RemovalTables)
    → remove_published_issue d q t ≡ ok ((false, r), t')
    → r.pending ≡ true
    → q'.change.expected_domain_version ≡ r.domain_version
    → q'.change.expected_timeline_head ≡ r.timeline_head
    → IsLeftOpen d q q' t t'
unfolding removal_result removal_requested_issue lifecycle_job issue_snapshot removal_job
    next_snapshot
remove_published_issue-IsLeftOpen d q q' t r t' h pending version head =
    elim (remove_published_issue-Outcome d q t r t' h) [
      | inr (gone, _) ↦ absurd (distinct (sym pending ∙ gone))
      | inl (_, c) ↦ record {
        issue = removal_requested_issue d q c.job c.issue;
        version = c.version;
        job = c.job;
        found = requested-found d q t r t' c;
        queued = c.queued;
        removed = ap Snapshot.removed c.next;
        checked =
            check_lifecycle-open q'.change (removal_requested_issue d q c.job c.issue)
              c.correctable.is_published c.correctable.unblocked
              (sym (version ∙ ap RemovalResult.domain_version c.answer))
              (sym (head ∙ ap RemovalResult.timeline_head c.answer));
        successor = refl;
        forgotten = refl;
      }
    ]
  where
    distinct : ¬ (true ≡ false)
    distinct e = cc
