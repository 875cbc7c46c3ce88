-- ===== src/Services/Lifecycle/Replay.antt =====
-- A lifecycle change is carried out once.
use nagarik_signals.Base.{
  ℕ, ◌≡◌, sym, ap, ◌∙◌, subst, true, false, none, some, Option, String, ok, >>=-eq-ok, then-eq-ok,
  guard-then-eq-ok, ok-injective,
}
use nagarik_signals.Chain.Job.Codec.{build_chain_job}
use nagarik_signals.Services.Idempotency.{find_record}
use nagarik_signals.Services.Switches.{operator_mutations}
use nagarik_signals.Services.Operations.{
  OperatorDependencies, fresh, replayed, reserve_operator_mutation, complete_operator_mutation,
}
use nagarik_signals.Services.Operations.Once.{
  reservation_of, at_time, opened, reserve_operator_mutation-fresh, reserve_operator_mutation-once,
}
use nagarik_signals.Services.Issues.{
  Issue, Version, is_capability_enabled, find_v2_issue, with_version,
}
use nagarik_signals.Services.Lifecycle.{
  LifecycleRequest, LifecycleResult, check_lifecycle, lifecycle_job, mutation_request,
}
use nagarik_signals.Services.Lifecycle.Change.{
  LifecycleTables, lifecycle_found, change_reserved, change_issue_lifecycle,
}
use nagarik_signals.Services.Lifecycle.Laws.{write_lifecycle-IsWritten}

module _ (d : OperatorDependencies) (q : LifecycleRequest) where
  lifecycle_found-completed :
      (id hash key : String) (t : LifecycleTables) (o : Option (Issue × Version))
      (r : LifecycleResult) (t' : LifecycleTables)
      → lifecycle_found d q id hash key t o ≡ ok (r, t')
      → complete_operator_mutation id hash r t.records ≡ ok t'.records
  unfolding lifecycle_found
  lifecycle_found-completed id hash key t none r t' h = cc
  lifecycle_found-completed id hash key t (some (i, v)) r t' h =
      let (_, h1) = then-eq-ok (check_lifecycle q.change i) _ h in
      let (job, _, h2) = >>=-eq-ok (build_chain_job d.hashing (lifecycle_job d q i v)) _ h1 in
      let (answer, _, _, _, done) =
        write_lifecycle-IsWritten d q id hash key t i v job (r, t') h2 in
      subst (λ a. complete_operator_mutation id hash a t.records ≡ ok t'.records) (sym answer) done

  change_fresh-completed :
      (id hash key : String) (t : LifecycleTables) (r : LifecycleResult) (t' : LifecycleTables)
      → change_reserved d q (fresh id hash key) t ≡ ok ((false, r), t')
      → complete_operator_mutation id hash r t.records ≡ ok t'.records
  unfolding change_reserved
  change_fresh-completed id hash key t r t' h =
      let found =
        with_version (find_v2_issue q.public_id q.actor.organization_id t.issues) t.versions in
      let (on, h1) = guard-then-eq-ok (is_capability_enabled operator_mutations t.switches) _ _ h in
      let (out, f, h2) = >>=-eq-ok (lifecycle_found d q id hash key t found) _ h1 in
      lifecycle_found-completed id hash key t found r t'
        (f ∙ ap (λ p. ok (p.0.1, p.1)) (ok-injective h2))

  replay_known :
      (t' : LifecycleTables) (r : LifecycleResult) (now : ℕ)
      → reserve_operator_mutation (at_time now d) (mutation_request q) t'.records
        ≡ ok (replayed r, t'.records)
      → change_issue_lifecycle (at_time now d) q t' ≡ ok ((true, r), t')
  unfolding change_issue_lifecycle change_reserved
  replay_known t' r now e = rw e

-- A lifecycle change is carried out once: if its key was not known and the change was carried out, the
-- same request at any other time gives the same answer, marked as a replay, and changes no table.
pub change_issue_lifecycle-replay :
    (d : OperatorDependencies) (q : LifecycleRequest) (t : LifecycleTables) (r : LifecycleResult)
    (t' : LifecycleTables) (now : ℕ)
    → find_record (reservation_of d (mutation_request q)) t.records ≡ none
    → change_issue_lifecycle d q t ≡ ok ((false, r), t')
    → change_issue_lifecycle (at_time now d) q t' ≡ ok ((true, r), t')
unfolding change_issue_lifecycle
change_issue_lifecycle-replay d q t r t' now unknown h =
    let (out, reserved, h1) =
      >>=-eq-ok (reserve_operator_mutation d (mutation_request q) t.records) _ h in
    let e = reserve_operator_mutation-fresh d (mutation_request q) t.records out unknown reserved in
    let h2 =
      subst (λ m. change_reserved d q m.0 (record t { records = m.1 }) ≡ ok ((false, r), t')) e
        h1 in
    let done =
      change_fresh-completed d q _ _ _
        (record t { records = opened d (mutation_request q) t.records }) r t' h2 in
    replay_known d q t' r now (
      reserve_operator_mutation-once d (mutation_request q) t.records t'.records out r now reserved
        done)
