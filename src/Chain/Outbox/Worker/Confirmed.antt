-- ===== src/Chain/Outbox/Worker/Confirmed.antt =====
-- Which jobs a worker reports as confirmed.
use nagarik_signals.Base.{
  ◌≡◌, ◌≢◌, ◌⊎◌, inl, inr, refl, sym, ap, ◌∙◌, Bool, true, false, Option, none, some, String,
  if◌then◌else◌, Result, ok, err, error, coded, execution, projection_deferred,
}
use nagarik_signals.Chain.Job.Codec.{PreparedChainJob}
use nagarik_signals.Chain.Signer.{ObservedCommitmentEvent}
use nagarik_signals.Chain.Outbox.Store.{Database, JobRow}
use nagarik_signals.Chain.Outbox.Transactions.{
  WorkerJob, record_failure, record_post_submit_conflict, record_projection_deferred,
  record_submitted_unknown, record_invalid_claim,
}
use nagarik_signals.Chain.Outbox.Finalize.{finalize_confirmed}
use nagarik_signals.Chain.Outbox.Matching.{chain_observation_matches, prepare_chain_outbox_record}
use nagarik_signals.Chain.Outbox.Actions.{
  ChainWorker, Schedule, Action, Outcome, confirmed, submitted_unknown, retry, dead_letter,
  and_then, pure, transact, transact-eq-ok, finalizing, recording,
}
use nagarik_signals.Chain.Outbox.Worker.{
  fail, conflict, settle, finalize, accept, handle_confirmation, handle_marking, handle_submission,
  handle_inspection, process_job, process_parsed, process_row,
}

and_then-never :
    {P A : Type 0} (x : Outcome) (r : Result A) (db : Database P)
    → x ≢ confirmed
    → (and_then (λ _. pure x) r db).0 ≢ ok confirmed
and_then-never x (ok a) db n h = n cc
and_then-never x (err e) db n h = cc

-- The action never reports that a job is confirmed.
Never : {P : Type 0} → Action P Outcome → Type 0
Never {P = P} m = (db : Database P) → (m db).0 ≢ ok confirmed

module _ {P : Type 0} (w : ChainWorker P) (s : Schedule P) where
  open w use {hashing, addresses, signer, project_confirmed}

  fail-Never : (job : WorkerJob) (c : String) (r : Bool) → Never (fail w s job c r)
  unfolding fail Never
  fail-Never job c r db = helper (transact s recording (record_failure job c r) db).0 _
    where
      helper :
          (q : Result Bool) (db : Database P)
          → (and_then (λ dead. pure (if dead then dead_letter else retry)) q db).0 ≢ ok confirmed
      helper (ok true) db h = cc
      helper (ok false) db h = cc
      helper (err e) db h = cc

  conflict-Never : (job : WorkerJob) (g c : String) → Never (conflict w s job g c)
  unfolding conflict Never
  conflict-Never job g c db =
      and_then-never dead_letter (transact s recording (record_post_submit_conflict job g c) db).0 _
        (λ h. cc)

  settle-confirmed :
      (job : WorkerJob) (g : String) (f : Action P Outcome) (r : Result (Unit {0}))
      (db : Database P)
      → Never f
      → (settle w s job g f r db).0 ≡ ok confirmed
      → (r ≡ ok tt) × ((settle w s job g f r db).1 ≡ db)
  unfolding settle Never
  settle-confirmed job g f (ok tt) db n h = (refl, refl)
  settle-confirmed job g f (err projection_deferred) db n h = absurd (
      and_then-never retry (transact s recording (record_projection_deferred job g) db).0 _
        (λ h. cc) h)
  settle-confirmed job g f (err (error m)) db n h = absurd (n db h)
  settle-confirmed job g f (err (coded m k)) db n h = absurd (n db h)
  settle-confirmed job g f (err (execution m k)) db n h = absurd (n db h)

  -- What stands behind a job that is reported as confirmed.
  pub record IsFinalized (job : WorkerJob) (o : ObservedCommitmentEvent) (end : Database P)
      : Type 0 where
    pub same : chain_observation_matches addresses job.protocol o ≡ ok true
    pub reconciled : Bool
    pub start : Database P
    pub finalized :
        finalize_confirmed signer.profile project_confirmed job o reconciled
          (s.now finalizing)
          start
        ≡ ok (tt, end)

  finalize-confirmed :
      (job : WorkerJob) (o : ObservedCommitmentEvent) (r : Bool) (f : Action P Outcome)
      (db : Database P)
      → Never f
      → (chain_observation_matches addresses job.protocol o ≡ ok true)
      → (finalize w s job o r f db).0 ≡ ok confirmed
      → IsFinalized job o (finalize w s job o r f db).1
  unfolding finalize
  finalize-confirmed job o r f db n same h =
      let body = finalize_confirmed signer.profile project_confirmed job o r in
      let (done, at_end) =
        settle-confirmed job o.signature f (transact s finalizing body db).0
          (transact s finalizing body db).1 n h in
      record {
        same = same;
        reconciled = r;
        start = s.others finalizing db;
        finalized = transact-eq-ok s finalizing body db done ∙ ap (λ e. ok (tt, e)) (sym at_end);
      }

  accept-confirmed :
      (job : WorkerJob) (o : ObservedCommitmentEvent) (r : Bool) (f m : Action P Outcome)
      (db : Database P)
      → Never f
      → Never m
      → (accept w s job o r f m db).0 ≡ ok confirmed
      → IsFinalized job o (accept w s job o r f m db).1
  unfolding accept Never
  accept-confirmed job o r f m db nf nm h =
      helper (chain_observation_matches addresses job.protocol o) refl h
    where
      helper :
          (q : Result Bool)
          → chain_observation_matches addresses job.protocol o ≡ q
          → (and_then (λ same. if same then finalize w s job o r f else m) q db).0 ≡ ok confirmed
          → IsFinalized job o (and_then (λ same. if same then finalize w s job o r f else m) q db).1
      helper (ok true) e h = finalize-confirmed job o r f db nf e h
      helper (ok false) e h = absurd (nm db h)
      helper (err e) _ h = absurd (cc)

  -- Where the worker saw the event.
  pub IsSeen : PreparedChainJob → ObservedCommitmentEvent → Type 0
  IsSeen job o =
      (signer.inspect job ≡ ok (some o))
      ⊎ ((g : String) × (signer.submit job ≡ ok g) × (signer.confirm job g ≡ ok (some o)))

  pub record IsConfirmed (row : JobRow) (end : Database P) : Type 0 where
    pub protocol : PreparedChainJob
    pub prepared : prepare_chain_outbox_record hashing row ≡ ok protocol
    pub event : ObservedCommitmentEvent
    pub seen : IsSeen protocol event
    pub finalized : IsFinalized (record { row = row; protocol = protocol }) event end

  Holds : WorkerJob → Result Outcome × Database P → Type 0
  Holds job q =
      q.0 ≡ ok confirmed
      → (o : ObservedCommitmentEvent) × IsSeen job.protocol o × IsFinalized job o q.1

  confirmation-Holds :
      (job : WorkerJob) (g : String) (r : Result (Option ObservedCommitmentEvent)) (db : Database P)
      → (signer.submit job.protocol ≡ ok g)
      → (signer.confirm job.protocol g ≡ r)
      → Holds job (handle_confirmation w s job g r db)
  unfolding handle_confirmation Holds IsSeen
  confirmation-Holds job g (ok (some o)) db e1 e2 h = (
    o,
    inr (g, e1, e2),
    accept-confirmed job o false _ _ db (conflict-Never job g _) (conflict-Never job g _) h,
  )
  confirmation-Holds job g (ok none) db e1 e2 h = absurd (
      and_then-never submitted_unknown (transact s recording (record_submitted_unknown job g) db).0
        _ (λ h. cc) h)
  confirmation-Holds job g (err e) db e1 e2 h = absurd (
      and_then-never submitted_unknown (transact s recording (record_submitted_unknown job g) db).0
        _ (λ h. cc) h)

  marking-Holds :
      (job : WorkerJob) (g : String) (r : Result (Unit {0})) (db : Database P)
      → (signer.submit job.protocol ≡ ok g)
      → Holds job (handle_marking w s job g r db)
  unfolding handle_marking Holds
  marking-Holds job g (ok tt) db e h =
      unfold Holds in confirmation-Holds job g (signer.confirm job.protocol g) db e refl h
  marking-Holds job g (err _) db e h = absurd (unfold Never in fail-Never job _ _ db h)

  submission-Holds :
      (job : WorkerJob) (r : Result String) (db : Database P)
      → (signer.submit job.protocol ≡ r)
      → Holds job (handle_submission w s job r db)
  unfolding handle_submission
  submission-Holds job (ok g) db e = marking-Holds job g _ _ e
  submission-Holds job (err _) db e =
      unfold Holds in λ h. absurd (unfold Never in fail-Never job _ _ db h)

  inspection-Holds :
      (job : WorkerJob) (r : Result (Option ObservedCommitmentEvent)) (db : Database P)
      → (signer.inspect job.protocol ≡ r)
      → Holds job (handle_inspection w s job r db)
  unfolding handle_inspection Holds IsSeen
  inspection-Holds job (ok (some o)) db e h =
      (o, inl e, accept-confirmed job o true _ _ db (fail-Never job _ _) (fail-Never job _ _) h)
  inspection-Holds job (ok none) db e h = unfold Holds in submission-Holds job _ db refl h
  inspection-Holds job (err _) db e h = absurd (unfold Never in fail-Never job _ _ db h)

  -- A job that one round of the worker reports as confirmed has a valid record, and the signer showed
  -- an event that is the job's event, either before submission or at the confirmation of the
  -- signature it submitted; the tables that the round leaves are those that the finalization of
  -- that event committed.
  pub process_row-confirmed :
      (row : JobRow) (db : Database P)
      → (process_row w s row db).0 ≡ ok confirmed
      → IsConfirmed row (process_row w s row db).1
  unfolding process_row process_parsed process_job Holds
  process_row-confirmed row db = helper (prepare_chain_outbox_record hashing row) refl
    where
      helper :
          (r : Result PreparedChainJob)
          → prepare_chain_outbox_record hashing row ≡ r
          → (process_parsed w s row r db).0 ≡ ok confirmed
          → IsConfirmed row (process_parsed w s row r db).1
      helper (ok p) e h =
          let (o, seen, finalized) =
            inspection-Holds (record { row = row; protocol = p }) (signer.inspect p) db refl h in
          record { protocol = p; prepared = e; event = o; seen = seen; finalized = finalized }
      helper (err _) e h = absurd (
          and_then-never dead_letter (transact s recording (record_invalid_claim row) db).0 _
            (λ h. cc) h)
