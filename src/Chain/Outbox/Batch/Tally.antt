-- ===== src/Chain/Outbox/Batch/Tally.antt =====
-- The counters of a batch.
use nagarik_signals.Base.{
  ℕ, ◌+◌, ◌≤◌, ◌≡◌, Option, none, some, List, [], ◌∷◌, length, ok, arith, refl, ap, ◌∙◌,
  ok-injective,
}
use nagarik_signals.Chain.Outbox.Store.{JobRow, Database}
use nagarik_signals.Chain.Outbox.Claim.{claim_chain_outbox_jobs}
use nagarik_signals.Chain.Outbox.Claim.Laws.{claim-length-le}
use nagarik_signals.Chain.Outbox.Actions.{
  ChainWorker, Schedule, Outcome, confirmed, claiming, transact, and_then-eq-ok, transact-eq-ok,
}
use nagarik_signals.Chain.Outbox.Worker.{process_row}
use nagarik_signals.Chain.Outbox.Batch.{
  OutboxBatchResult, count, batch_limit, process_rows, process_chain_outbox_batch,
}

abbrev outcomes : OutboxBatchResult → ℕ
outcomes r = r.confirmed + r.submitted_unknown + r.retry + r.dead_letter

outcomes-count :
    (o : Outcome) (r : OutboxBatchResult)
    → (outcomes (count o r) ≡ outcomes r + 1) × ((count o r).claimed ≡ r.claimed)
unfolding count
outcomes-count confirmed r = (omega arith, refl)
outcomes-count _ r = (omega arith, refl)

module _ {P : Type 0} (w : ChainWorker P) (at : JobRow → Schedule P) where
  process_rows-outcomes :
      (rows : List JobRow) (r r' : OutboxBatchResult) (db db' : Database P)
      → process_rows w at rows r db ≡ (ok r', db')
      → (outcomes r' ≡ outcomes r + length rows) × (r'.claimed ≡ r.claimed)
  unfolding process_rows
  process_rows-outcomes [] r r' db db' h =
      let e : r ≡ r' = ok-injective (ap (λ q. q.0) h) in rw (← e) (omega arith, refl)
  process_rows-outcomes (row ∷ rows) r r' db db' h =
      let (o, ran, rest) = and_then-eq-ok (process_row w (at row) row db).0 _ _ h in
      let (more, same) =
        process_rows-outcomes rows (count o r) r' (process_row w (at row) row db).1 db' rest in
      let (one, kept) = outcomes-count o r in (omega arith, same ∙ kept)

batch_limit-le : (limit : Option ℕ) → (1 ≤ batch_limit limit) × (batch_limit limit ≤ 25)
batch_limit-le none = (omega arith, omega arith)
batch_limit-le (some n) = (omega arith, omega arith)

-- A batch that ran to its end leased at most 25 jobs, and each of them has exactly one outcome.
pub batch_outcomes :
    {P : Type 0} (w : ChainWorker P) (at : JobRow → Schedule P) (s : Schedule P) (limit : Option ℕ)
    (db db' : Database P) (r : OutboxBatchResult)
    → process_chain_outbox_batch w at s limit db ≡ (ok r, db')
    → (r.claimed ≡ r.confirmed + r.submitted_unknown + r.retry + r.dead_letter) × (r.claimed ≤ 25)
unfolding process_chain_outbox_batch
batch_outcomes w at s limit db db' r h =
    let claim = claim_chain_outbox_jobs w.worker_id (batch_limit limit) 60 in
    let (rows, claimed, ran) = and_then-eq-ok (transact s claiming claim db).0 _ _ h in
    let (total, kept) = process_rows-outcomes w at rows _ r _ db' ran in
    let few : length rows ≤ batch_limit limit =
      claim-length-le w.worker_id (batch_limit limit) 60 _ _ _ rows
        (transact-eq-ok s claiming claim db claimed) in
    (omega arith, omega (arith, batch_limit-le limit))
