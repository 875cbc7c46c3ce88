-- ===== src/Chain/Outbox/Steps/Growth.antt =====
-- What was confirmed stays: bindings are never changed, and an issue's count never goes back.
use nagarik_signals.Base.{
  ◌≡◌, ◌+◌, refl, sym, ap, ◌∙◌, subst, ℕ, Bool, inl, inr, String, List, string_eq, nat_eq, ok,
  >>=-eq-ok, guard-then-eq-ok, ok-injective, arith,
}
use nagarik_signals.Chain.Protocol.{Hashing}
use nagarik_signals.Chain.Signer.{ChainProfile, ObservedCommitmentEvent}
use nagarik_signals.Chain.Outbox.Store.{JobRow, IssueRow, Database, block_from}
use nagarik_signals.Chain.Outbox.Transactions.{WorkerJob, Projector}
use nagarik_signals.Chain.Outbox.Finalize.{finalize_confirmed}
use nagarik_signals.Chain.Outbox.Finalize.Stages.{
  with_block, advance_heads-eq-ok, bind_event-eq-ok, project_event-eq-ok, close_job-eq-ok,
}
use nagarik_signals.Chain.Outbox.Finalize.Effects.{finalize_confirmed-IsStaged}
use nagarik_signals.Chain.Outbox.Matching.{prepare_chain_outbox_record, row_matches}
use nagarik_signals.Chain.Job.Codec.{prepare_chain_job}
use nagarik_signals.Chain.Job.Laws.{prepare_chain_job_sound}
use nagarik_signals.Chain.Outbox.Claim.Laws.{claim-eq-ok, claim_exact_job-eq-ok}
use nagarik_signals.Chain.Outbox.Steps.{Step, Reach, start, later, IsPrepared}
use nagarik_signals.Chain.Outbox.Transactions.Frames.{
  IsRecorded, Blocks, untouched, blocks, mark_submitted-IsRecorded, record_invalid_claim-IsRecorded,
  record_submitted_unknown-IsRecorded, record_post_submit_conflict-IsRecorded,
  record_projection_deferred-IsRecorded, record_failure-IsRecorded,
}
use nagarik_signals.Chain.Outbox.Store.Growth.{
  Grows, Persist, Grows-refl, Grows-trans, Grows-update, Persist-refl, Persist-trans,
}
use nagarik_signals.Chain.Outbox.Finalize.Growth.{bind_event-Persist, advance_heads-Grows}

-- What a step keeps.
pub record Extends {P : Type 0} (start end : Database P) : Type 0 where
  pub issues : Grows start.issues end.issues
  pub bindings : Persist start.bindings end.bindings

Blocks-Grows : (xs ys : List IssueRow) → Blocks xs ys → Grows xs ys
Blocks-Grows xs ys (untouched e) = subst (Grows xs) (sym e) (Grows-refl xs)
Blocks-Grows xs ys (blocks id n now e) =
    subst (Grows xs) (sym e)
      (Grows-update id (block_from n now) xs (λ j. refl) (λ j _. omega arith))

IsRecorded-Extends :
    {P : Type 0} (held : Bool) (id : String) (f : JobRow → JobRow) (db end : Database P)
    → IsRecorded held id f db end
    → Extends db end
IsRecorded-Extends held id f db end r = record {
  issues = Blocks-Grows db.issues end.issues r.issues;
  bindings = subst (Persist db.bindings) (sym r.bindings) (Persist-refl db.bindings);
}

same-Extends :
    {P : Type 0} (db end : Database P)
    → end.issues ≡ db.issues
    → end.bindings ≡ db.bindings
    → Extends db end
same-Extends db end i b = record {
  issues = subst (Grows db.issues) (sym i) (Grows-refl db.issues);
  bindings = subst (Persist db.bindings) (sym b) (Persist-refl db.bindings);
}

module _ {P : Type 0} (h : Hashing) (profile : ChainProfile) (project : Projector P) where
  prepared-step :
      (job : WorkerJob)
      → IsPrepared h job
      → job.protocol.next.update_count ≡ job.protocol.expected.update_count + 1
  unfolding IsPrepared prepare_chain_outbox_record
  prepared-step job p =
      let (q, prepared, rest) = >>=-eq-ok (prepare_chain_job h job.row.canonical_payload) _ p in
      let same : q ≡ job.protocol =
        ok-injective (guard-then-eq-ok (row_matches job.row q) _ _ rest).1 in
      subst (λ q. q.next.update_count ≡ q.expected.update_count + 1) same
        ((prepare_chain_job_sound h job.row.canonical_payload q prepared).3.sequence)

  finalized-Extends :
      (job : WorkerJob) (o : ObservedCommitmentEvent) (r : Bool) (now : ℕ) (db end : Database P)
      → IsPrepared h job
      → finalize_confirmed profile project job o r now db ≡ ok (tt, end)
      → Extends db end
  finalized-Extends job o r now db end p e =
      let st = finalize_confirmed-IsStaged profile project job o r now db end e in
      let (_, _, bindings1, _, _) = advance_heads-eq-ok job now db st.db1 st.heads in
      let (_, _, issues2, _, _) = bind_event-eq-ok profile job.row o now st.db1 st.db2 st.binding in
      let frame = project_event-eq-ok profile project job o now st.db2 st.db3 st.projection in
      let (_, _, _, issues4, bindings4) = close_job-eq-ok job.row o r now st.db3 end st.closing in
      let issues3 = ap (λ d. d.issues) frame ∙ issues2 in
      record {
        issues =
            Grows-trans db.issues st.db3.issues end.issues
              (subst (Grows db.issues) (sym issues3)
                (advance_heads-Grows job now db st.db1 (prepared-step job p) st.heads))
              (subst (Grows st.db3.issues) (sym issues4) (
                Grows-update job.row.issue_id (with_block end.jobs job.row now) st.db3.issues
                  (λ j. refl) (λ j _. omega arith)));
        bindings = subst (Persist db.bindings) (sym (bindings4 ∙ ap (λ d. d.bindings) frame)) (
            subst (λ bs. Persist bs st.db2.bindings) bindings1
              (bind_event-Persist profile job.row o now st.db1 st.db2 st.binding));
      }

  step-Extends : {db end : Database P} → Step h profile project db end → Extends db end
  step-Extends {db} {end} (Step.claimed owner limit seconds now rows e) =
      let at = (claim-eq-ok owner limit seconds now db e).1 in
      same-Extends db end (ap (λ d. d.issues) at) (ap (λ d. d.bindings) at)
  step-Extends {db} {end} (Step.claimed_exactly owner id now row e) =
      elim (claim_exact_job-eq-ok owner id now db e) [
        | inl at ↦ same-Extends db end (ap (λ d. d.issues) at) (ap (λ d. d.bindings) at)
        | inr (_, _, _, _, at) ↦
            same-Extends db end (ap (λ d. d.issues) at) (ap (λ d. d.bindings) at)
      ]
  step-Extends {db} {end} (Step.invalid row now e) =
      IsRecorded-Extends _ row.id _ db end (record_invalid_claim-IsRecorded row now db end e)
  step-Extends {db} {end} (Step.failed job category r now dead p e) =
      IsRecorded-Extends _ job.row.id _ db end
        (record_failure-IsRecorded job category r now dead db end e).1
  step-Extends {db} {end} (Step.submitted job g now p e) =
      IsRecorded-Extends _ job.row.id _ db end (mark_submitted-IsRecorded job g now db end e)
  step-Extends {db} {end} (Step.lost_sight job g now p e) =
      IsRecorded-Extends _ job.row.id _ db end
        (record_submitted_unknown-IsRecorded job g now db end e)
  step-Extends {db} {end} (Step.conflicted job g category now p e) =
      IsRecorded-Extends _ job.row.id _ db end
        (record_post_submit_conflict-IsRecorded job g category now db end e)
  step-Extends {db} {end} (Step.deferred job g now p e) =
      IsRecorded-Extends _ job.row.id _ db end
        (record_projection_deferred-IsRecorded job g now db end e)
  step-Extends {db} {end} (Step.finalized job o r now p e) =
      finalized-Extends job o r now db end p e

  -- After any sequence of steps every issue is still there with at least the count of confirmed
  -- updates that it had, and every event that had a binding has the same one.
  pub Reach-Extends : (db end : Database P) → Reach h profile project db end → Extends db end
  Reach-Extends db end start = same-Extends db end refl refl
  Reach-Extends db end (later {db' = mid} r s) =
      let a = Reach-Extends db mid r in
      let b = step-Extends s in
      record {
        issues = Grows-trans db.issues mid.issues end.issues a.issues b.issues;
        bindings = Persist-trans db.bindings mid.bindings end.bindings a.bindings b.bindings;
      }
