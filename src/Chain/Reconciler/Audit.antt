-- ===== src/Chain/Reconciler/Audit.antt =====
-- What an audit reports, and that a dry run changes nothing.
use nagarik_signals.Base.{
  ◌≡◌, ◌≤◌, refl, ap, ◌∙◌, subst, ℕ, ◌+◌, true, false, Bool, Option, none, some, String, ◌&&◌, ◌==◌,
  List, [], ◌∷◌, take, length, length-append, length-take-le, arith, if◌then◌else◌, Result, ok, err,
  ok-injective,
}
use nagarik_signals.Chain.Job.Codec.{PreparedChainJob}
use nagarik_signals.Chain.Signer.{ObservedCommitmentEvent}
use nagarik_signals.Chain.Outbox.Store.{JobRow, JobState, state_eq, Database}
use nagarik_signals.Chain.Outbox.Matching.{prepare_chain_outbox_record, chain_observation_matches}
use nagarik_signals.Chain.Outbox.Actions.{ChainWorker, Schedule, pure, and_then, and_then-eq-ok}
use nagarik_signals.Chain.Reconciler.{
  ReconciliationRow, Status, consistent, recoverable, repaired, missing, conflict, invalid,
  rpc_error, busy, ReconciliationResult, create_result, tallied, append, reconciliation_limit,
  joined, examine_matching, examine_observed, examine_prepared, examine, examine_rows,
  reconcile_chain_outbox, database_matches,
}

-- The sum of the tallies.
abbrev pub tally : ReconciliationResult → ℕ
tally r =
    r.consistent + r.recoverable + r.repaired + r.missing + r.conflict + r.invalid + r.rpc_errors
    + r.busy

append-tally :
    (r : ReconciliationResult) (row : ReconciliationRow) (s : Status) (detail : String)
    → (tally (append r row s detail) ≡ tally r + 1)
      × (length (append r row s detail).findings ≡ length r.findings + 1)
      × ((append r row s detail).inspected ≡ r.inspected)
      × ((append r row s detail).dry_run ≡ r.dry_run)
unfolding append tallied
append-tally r row consistent detail = (omega arith, length-append r.findings _, refl, refl)
append-tally r row recoverable detail = (omega arith, length-append r.findings _, refl, refl)
append-tally r row repaired detail = (omega arith, length-append r.findings _, refl, refl)
append-tally r row missing detail = (omega arith, length-append r.findings _, refl, refl)
append-tally r row conflict detail = (omega arith, length-append r.findings _, refl, refl)
append-tally r row invalid detail = (omega arith, length-append r.findings _, refl, refl)
append-tally r row rpc_error detail = (omega arith, length-append r.findings _, refl, refl)
append-tally r row busy detail = (omega arith, length-append r.findings _, refl, refl)

reconciliation_limit-le : (limit : Option ℕ) → reconciliation_limit limit ≤ 100
reconciliation_limit-le none = omega arith
reconciliation_limit-le (some n) = omega arith

module _ {P : Type 0} (w : ChainWorker P) where
  open w use {hashing, addresses, signer}

  rows-tally :
      (dry_run : Bool) (at : JobRow → Schedule P) (rows : List ReconciliationRow)
      (r : ReconciliationResult) (db end : Database P) (out : ReconciliationResult)
      → examine_rows w dry_run at rows r db ≡ (ok out, end)
      → (tally out ≡ tally r + length rows)
        × (length out.findings ≡ length r.findings + length rows)
        × (out.inspected ≡ r.inspected)
        × (out.dry_run ≡ r.dry_run)
  unfolding examine_rows
  rows-tally dry_run at [] r db end out h =
      let same : ok r ≡ ok out = ap (λ p. p.0) h in
      subst
        (λ q.
          (tally q ≡ tally r + 0)
          × (length q.findings ≡ length r.findings + 0)
          × (q.inspected ≡ r.inspected)
          × (q.dry_run ≡ r.dry_run))
        (ok-injective same) (omega arith, omega arith, refl, refl)
  rows-tally dry_run at (row ∷ rows) r db end out h =
      let (found, _, rest) = and_then-eq-ok (examine w dry_run (at row.job) row db).0 _ _ h in
      let one = append-tally r row found.0 found.1 in
      let more = rows-tally dry_run at rows (append r row found.0 found.1) _ end out rest in
      (omega (arith, one.0, more.0), omega (arith, one.1, more.1), more.2 ∙ one.2, more.3 ∙ one.3)

  -- An audit that returns has one finding for each row that it inspected, at most as many as its
  -- limit and never more than a hundred, and its tallies add up to that number.
  pub reconcile_chain_outbox-tally :
      (dry_run : Bool) (at : JobRow → Schedule P) (limit : Option ℕ) (db end : Database P)
      (out : ReconciliationResult)
      → reconcile_chain_outbox w dry_run at limit db ≡ (ok out, end)
      → (tally out ≡ out.inspected)
        × (length out.findings ≡ out.inspected)
        × (out.inspected ≤ reconciliation_limit limit)
        × (out.inspected ≤ 100)
  unfolding reconcile_chain_outbox create_result
  reconcile_chain_outbox-tally dry_run at limit db end out h =
      let rows = take (reconciliation_limit limit) (joined db.issues db.bindings db.jobs) in
      let (sum, found, inspected, _) = rows-tally dry_run at rows _ db end out h in
      let le : length rows ≤ reconciliation_limit limit =
        length-take-le (reconciliation_limit limit) _ in
      let cap = reconciliation_limit-le limit in
      (omega arith, omega arith, omega arith, omega arith)

  module _ (s : Schedule P) (row : ReconciliationRow) (db : Database P) where
    matching-dry :
        (job : PreparedChainJob) (o : ObservedCommitmentEvent)
        → (examine_matching w true s row job o db).1 ≡ db
    unfolding examine_matching
    matching-dry job o =
        helper (row.job.state == JobState.confirmed && database_matches row job signer.profile o)
      where
        helper :
            (b : Bool)
            → ((if b
                  then pure {A = Status × String} (consistent, "database_and_chain_match")
                  else pure {A = Status × String} (recoverable, "exact_event_can_be_reconciled"))
                db).1
              ≡ db
        helper true = refl
        helper false = refl

    observed-dry :
        (job : PreparedChainJob) (r : Result (Option ObservedCommitmentEvent))
        → (examine_observed w true s row job r db).1 ≡ db
    unfolding examine_observed
    observed-dry job (err _) = refl
    observed-dry job (ok none) = refl
    observed-dry job (ok (some o)) = helper (chain_observation_matches addresses job o)
      where
        helper :
            (r : Result Bool)
            → (and_then
                (λ same.
                  if same
                  then examine_matching w true s row job o
                  else pure (conflict, "deterministic_event_mismatch"))
                r
                db).1
              ≡ db
        helper (ok true) = matching-dry job o
        helper (ok false) = refl
        helper (err _) = refl

    prepared-dry : (r : Result PreparedChainJob) → (examine_prepared w true s row r db).1 ≡ db
    unfolding examine_prepared
    prepared-dry (err _) = refl
    prepared-dry (ok job) = observed-dry job (signer.inspect job)

  rows-dry :
      (at : JobRow → Schedule P) (rows : List ReconciliationRow) (r : ReconciliationResult)
      (db : Database P)
      → (examine_rows w true at rows r db).1 ≡ db
  unfolding examine_rows examine
  rows-dry at [] r db = refl
  rows-dry at (row ∷ rows) r db =
      helper (examine w true (at row.job) row db).0 (examine w true (at row.job) row db).1
        (prepared-dry (at row.job) row db (prepare_chain_outbox_record hashing row.job))
        (λ s t q. rows-dry at rows (append r row s t) q)
    where
      helper :
          (q : Result (Status × String)) (db' : Database P)
          → db' ≡ db
          → ((s : Status) (t : String) (q : Database P)
              → (examine_rows w true at rows (append r row s t) q).1 ≡ q)
          → (and_then (λ found. examine_rows w true at rows (append r row found.0 found.1)) q db').1
            ≡ db
      helper (ok (s, t)) db' e k = k s t db' ∙ e
      helper (err _) db' e k = e

  -- A dry run leaves every table as it was, whether it returns or throws.
  pub reconcile_chain_outbox-dry :
      (at : JobRow → Schedule P) (limit : Option ℕ) (db : Database P)
      → (reconcile_chain_outbox w true at limit db).1 ≡ db
  unfolding reconcile_chain_outbox
  reconcile_chain_outbox-dry at limit db = rows-dry at _ _ db
