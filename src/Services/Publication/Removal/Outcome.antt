-- ===== src/Services/Publication/Removal/Outcome.antt =====
-- The two outcomes of a removal.
use nagarik_signals.Base.{
  ◌≡◌, refl, ap, ◌∙◌, Bool, true, false, Option, none, some, String, List, ok, err, Result, Thrown,
  if◌then◌else◌, ◌>>=◌, >>=-eq-ok, then-eq-ok, ok-injective, marked-ne, ◌⊎◌, inl, inr,
}
use nagarik_signals.Chain.Job.Codec.{build_chain_job}
use nagarik_signals.Services.Idempotency.{IdempotencyRecord}
use nagarik_signals.Services.Operations.{
  OperatorDependencies, MutationReservation, fresh, replayed, reserve_operator_mutation,
}
use nagarik_signals.Services.Issues.{Issue, Version, with_version}
use nagarik_signals.Services.Signals.Store.{find_public_issue}
use nagarik_signals.Services.Publication.{assert_operator_switches, check_publication}
use nagarik_signals.Services.Publication.Checks.{IsCorrectable, check_publication-IsCorrectable}
use nagarik_signals.Services.Publication.Removal.{
  RemovalRequest, RemovalResult, RemovalTables, removal_request,
}
use nagarik_signals.Services.Publication.Removal.Rows.{removal_job, removal_result}
use nagarik_signals.Services.Publication.Removal.Remove.{
  remove_v2, remove_legacy, remove_found, remove_reserved, remove_published_issue,
}
use nagarik_signals.Services.Publication.Removal.Laws.{IsRequested, remove_v2-IsRequested}
use nagarik_signals.Services.Publication.Removal.Legacy.{IsTakenDown, remove_legacy-IsTakenDown}

abbrev pub Outcome :
    OperatorDependencies → RemovalRequest → RemovalTables → RemovalResult → RemovalTables → Type 0
Outcome d q t r t' =
    ((r.pending ≡ true) × IsRequested d q t r t') ⊎ ((r.pending ≡ false) × IsTakenDown d q t r t')

module _ (d : OperatorDependencies) (q : RemovalRequest) where
  by_workflow :
      (record_id request_hash actor_key : String) (t : RemovalTables) (i : Issue) (v : Version)
      (b : Bool) (out : RemovalResult × RemovalTables)
      → i.is_v2 ≡ b
      → with_version
          (find_public_issue q.public_id q.actor.organization_id t.rows.base.issues)
          t.rows.base.versions
        ≡ some (i, v)
      → IsCorrectable q.removal.expected_domain_version q.removal.expected_timeline_head i
      → (if b
          then build_chain_job d.hashing (removal_job d q i v)
            >>= remove_v2 d q record_id request_hash actor_key t i v
          else remove_legacy d q record_id request_hash actor_key t i v)
        ≡ ok out
      → Outcome d q t out.0 out.1
  by_workflow record_id request_hash actor_key t i v true out two f c h =
      let (job, b, h1) = >>=-eq-ok (build_chain_job d.hashing (removal_job d q i v)) _ h in
      let done =
        remove_v2-IsRequested d q record_id request_hash actor_key t i v job out f two c b h1 in
      inl (ap RemovalResult.pending done.answer ∙ (unfold removal_result in refl), done)
  by_workflow record_id request_hash actor_key t i v false out old f c h =
      let done = remove_legacy-IsTakenDown d q record_id request_hash actor_key t i v out old h in
      inr (ap RemovalResult.pending done.answer, done)

  remove_found-Outcome :
      (record_id request_hash actor_key : String) (t : RemovalTables) (o : Option (Issue × Version))
      (out : RemovalResult × RemovalTables)
      → with_version
          (find_public_issue q.public_id q.actor.organization_id t.rows.base.issues)
          t.rows.base.versions
        ≡ o
      → remove_found d q record_id request_hash actor_key t o ≡ ok out
      → Outcome d q t out.0 out.1
  unfolding remove_found
  remove_found-Outcome record_id request_hash actor_key t none out f h = absurd (failed h)
    where
      failed : {e : Thrown} → ¬ (◌≡◌ {A = Result (RemovalResult × RemovalTables)} (err e) (ok out))
      failed e = cc
  remove_found-Outcome record_id request_hash actor_key t (some (i, v)) out f h =
      let (checked, h1) =
        then-eq-ok
          (check_publication q.removal.expected_domain_version q.removal.expected_timeline_head i) _
          h in
      by_workflow record_id request_hash actor_key t i v i.is_v2 out refl f
        (check_publication-IsCorrectable _ _ i checked) h1

  remove_fresh-Outcome :
      (record_id request_hash actor_key : String) (t : RemovalTables) (r : RemovalResult)
      (t' : RemovalTables)
      → remove_reserved d q (fresh record_id request_hash actor_key) t ≡ ok ((false, r), t')
      → Outcome d q t r t'
  unfolding remove_reserved
  remove_fresh-Outcome record_id request_hash actor_key t r t' h =
      let found =
        with_version (find_public_issue q.public_id q.actor.organization_id t.rows.base.issues)
          t.rows.base.versions in
      let (_, h1) = then-eq-ok (assert_operator_switches t.rows.base.switches false) _ h in
      let (out, f, h2) =
        >>=-eq-ok (remove_found d q record_id request_hash actor_key t found) _ h1 in
      remove_found-Outcome record_id request_hash actor_key t found (r, t') refl
        (f ∙ ap (λ p. ok (p.0.1, p.1)) (ok-injective h2))

  remove_reserved-Outcome :
      (m : MutationReservation RemovalResult) (t : RemovalTables) (r : RemovalResult)
      (t' : RemovalTables)
      → remove_reserved d q m t ≡ ok ((false, r), t')
      → Outcome d q t r t'
  remove_reserved-Outcome (replayed response) t r t' h =
      absurd (marked-ne response r t t' (unfold remove_reserved in h))
  remove_reserved-Outcome (fresh record_id request_hash actor_key) t r t' h =
      remove_fresh-Outcome record_id request_hash actor_key t r t' h

  -- The reservation changes nothing that an outcome speaks of.
  reserved-Outcome :
      (t : RemovalTables) (rs : List (IdempotencyRecord RemovalResult)) (r : RemovalResult)
      (t' : RemovalTables)
      → Outcome d q
          (record t { rows = record t.rows { base = record t.rows.base { records = rs } } })
          r
          t'
      → Outcome d q t r t'
  reserved-Outcome t rs r t' (inl (pending, c)) = inl (
    pending,
    record {
      issue = c.issue;
      version = c.version;
      job = c.job;
      found = c.found;
      is_v2 = c.is_v2;
      correctable = c.correctable;
      expected = c.expected;
      head = c.head;
      next = c.next;
      issues = c.issues;
      versions = c.versions;
      queued = c.queued;
      requests = c.requests;
      overlays = c.overlays;
      answer = c.answer;
      removing = c.removing;
      request = c.request;
      requested = c.requested;
      overlay = c.overlay;
      overlaid = c.overlaid;
      covered = c.covered;
      answer_version = c.answer_version;
      answer_sequence = c.answer_sequence;
    },
  )
  reserved-Outcome t rs r t' (inr (done, c)) = inr (
    done,
    record {
      issue = c.issue;
      legacy = c.legacy;
      cleared = c.cleared;
      jobs = c.jobs;
      issues = c.issues;
      answer = c.answer;
    },
  )

pub remove_published_issue-Outcome :
    (d : OperatorDependencies) (q : RemovalRequest) (t : RemovalTables) (r : RemovalResult)
    (t' : RemovalTables)
    → remove_published_issue d q t ≡ ok ((false, r), t')
    → Outcome d q t r t'
unfolding remove_published_issue
remove_published_issue-Outcome d q t r t' h =
    let (m, _, h1) =
      >>=-eq-ok (reserve_operator_mutation d (removal_request q) t.rows.base.records) _ h in
    reserved-Outcome d q t m.1 r t' (remove_reserved-Outcome d q m.0 _ r t' h1)
