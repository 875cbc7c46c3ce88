-- ===== src/Chain/Outbox/Finalize/Effects.antt =====
-- What a finalization that is committed has checked, and what it has written.
use nagarik_signals.Base.{
  ◌≡◌, refl, ap, ◌∙◌, subst, ℕ, Bool, true, false, ◌||◌, ◌∷◌, string_eq, option_eq, nat_eq, ok, any,
}
use nagarik_signals.Chain.Signer.{ChainProfile, ObservedCommitmentEvent}
use nagarik_signals.Chain.Outbox.Store.{
  Database, find_job, min_blocked, find_issue, find_binding, update_job, same_attempt,
}
use nagarik_signals.Chain.Outbox.Store.Inversion.{
  find_issue-update_issue, bind-eq-ok, require-eq-ok,
}
use nagarik_signals.Chain.Outbox.Transactions.{
  WorkerJob, Projector, owns_lease, awaits, confirmed_row,
}
use nagarik_signals.Chain.Outbox.Finalize.{
  confirmed_attempt, advance_heads, bind_event, project_event, close_job, finalize_confirmed,
}
use nagarik_signals.Chain.Outbox.Finalize.Stages.{
  with_block, IsAdvanced, IsBound, advance_heads-eq-ok, bind_event-eq-ok, project_event-eq-ok,
  close_job-eq-ok,
}

-- The stages of a finalization that is committed.
pub record IsStaged {P : Type 0} (profile : ChainProfile) (project : Projector P) (job : WorkerJob)
    (o : ObservedCommitmentEvent) (reconciled : Bool) (now : ℕ) (start end : Database P)
    : Type 0 where
  pub held :
      (owns_lease job.row (find_job job.row.id start.jobs)
        || awaits o.signature (find_job job.row.id start.jobs))
      ≡ true
  pub db1 : Database P
  pub db2 : Database P
  pub db3 : Database P
  pub heads : advance_heads job now (find_issue job.row.issue_id start.issues) start ≡ ok (tt, db1)
  pub binding : bind_event profile job.row o now db1 ≡ ok (tt, db2)
  pub projection : project_event profile project job o now db2 ≡ ok (tt, db3)
  pub closing : close_job job.row o reconciled now db3 ≡ ok (tt, end)

pub finalize_confirmed-IsStaged :
    {P : Type 0} (profile : ChainProfile) (project : Projector P) (job : WorkerJob)
    (o : ObservedCommitmentEvent) (reconciled : Bool) (now : ℕ) (db end : Database P)
    → finalize_confirmed profile project job o reconciled now db ≡ ok (tt, end)
    → IsStaged profile project job o reconciled now db end
unfolding finalize_confirmed
finalize_confirmed-IsStaged profile project job o reconciled now db end h =
    let (held, r1) = require-eq-ok _ _ _ db h in
    let (_, db1, e1, r2) =
      bind-eq-ok (advance_heads job now (find_issue job.row.issue_id db.issues) db) _ r1 in
    let (_, db2, e2, r3) = bind-eq-ok (bind_event profile job.row o now db1) _ r2 in
    let (_, db3, e3, r4) = bind-eq-ok (project_event profile project job o now db2) _ r3 in
    record {
      held = held;
      db1 = db1;
      db2 = db2;
      db3 = db3;
      heads = e1;
      binding = e2;
      projection = e3;
      closing = r4;
    }

-- What a finalization that is committed has checked and written.
pub record IsCommitted {P : Type 0} (profile : ChainProfile) (job : WorkerJob)
    (o : ObservedCommitmentEvent) (reconciled : Bool) (now : ℕ) (start end : Database P)
    : Type 0 where
  pub held :
      (owns_lease job.row (find_job job.row.id start.jobs)
        || awaits o.signature (find_job job.row.id start.jobs))
      ≡ true
  pub advanced : IsAdvanced job start end
  pub unblocked : advanced.after.blocked_from_sequence ≡ min_blocked job.row.issue_id end.jobs
  pub bound : IsBound profile o end
  pub fresh : any (same_attempt (confirmed_attempt job.row o reconciled now)) start.attempts ≡ false
  pub attempts : end.attempts ≡ confirmed_attempt job.row o reconciled now ∷ start.attempts
  pub jobs : end.jobs ≡ update_job job.row.id (confirmed_row o.signature now) start.jobs

module _ {P : Type 0} where
  pub finalize_confirmed-IsCommitted :
      (profile : ChainProfile) (project : Projector P) (job : WorkerJob)
      (o : ObservedCommitmentEvent) (reconciled : Bool) (now : ℕ) (db end : Database P)
      → finalize_confirmed profile project job o reconciled now db ≡ ok (tt, end)
      → IsCommitted profile job o reconciled now db end
  finalize_confirmed-IsCommitted profile project job o reconciled now db end h =
      let st = finalize_confirmed-IsStaged profile project job o reconciled now db end h in
      let (adv, jobs1, _, attempts1, _) = advance_heads-eq-ok job now db st.db1 st.heads in
      let (bound, jobs2, issues2, attempts2, _) =
        bind_event-eq-ok profile job.row o now st.db1 st.db2 st.binding in
      let frame = project_event-eq-ok profile project job o now st.db2 st.db3 st.projection in
      let (fresh, attempts4, jobs4, issues4, bindings4) =
        close_job-eq-ok job.row o reconciled now st.db3 end st.closing in
      let attempts3 = ap (λ d. d.attempts) frame ∙ attempts2 ∙ attempts1 in
      let jobs3 = ap (λ d. d.jobs) frame ∙ jobs2 ∙ jobs1 in
      let issues3 = ap (λ d. d.issues) frame ∙ issues2 in
      record {
        held = st.held;
        advanced = record {
          before = adv.before;
          found = adv.found;
          stood = adv.stood;
          after = with_block end.jobs job.row now adv.after;
          at_end =
              ap (find_issue job.row.issue_id) issues4
              ∙ find_issue-update_issue job.row.issue_id (with_block end.jobs job.row now)
                  st.db3.issues (λ j. refl) (ap (find_issue job.row.issue_id) issues3 ∙ adv.at_end);
          stands = adv.stands;
        };
        unblocked = refl;
        bound = record {
          binding = bound.binding;
          bound =
              ap (find_binding o.event_id) (bindings4 ∙ ap (λ d. d.bindings) frame) ∙ bound.bound;
          same = bound.same;
        };
        fresh =
            subst (λ xs. any (same_attempt (confirmed_attempt job.row o reconciled now)) xs ≡ false)
              attempts3 fresh;
        attempts = attempts4 ∙ ap (λ xs. confirmed_attempt job.row o reconciled now ∷ xs) attempts3;
        jobs = jobs4 ∙ ap (update_job job.row.id (confirmed_row o.signature now)) jobs3;
      }
