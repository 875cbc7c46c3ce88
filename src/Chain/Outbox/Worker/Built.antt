-- ===== src/Chain/Outbox/Worker/Built.antt =====
-- A job that the program builds, from its row in the outbox to its confirmation.
use nagarik_signals.Base.{
  ◌+◌, ◌≡◌, sym, ap, ◌∙◌, subst, true, some, String, ==_refl, ==_iff, string_eq, nat_eq, ok,
  ok-injective, arith,
}
use nagarik_signals.Chain.Protocol.{operation_name}
use nagarik_signals.Chain.Job.Schema.{Snapshot, Envelope}
use nagarik_signals.Chain.Job.Codec.{
  JobInput, PreparedChainJob, build_chain_job, prepare_chain_job, next_snapshot,
}
use nagarik_signals.Chain.Job.Build.{IsBuildable, prepare_chain_job-build_chain_job}
use nagarik_signals.Chain.Job.Built.{build_chain_job-IsBuilt}
use nagarik_signals.Chain.Signer.{ObservedCommitmentEvent}
use nagarik_signals.Chain.Outbox.Store.{Database, JobRow, IssueRow, find_issue}
use nagarik_signals.Chain.Outbox.Finalize.{stands_at}
use nagarik_signals.Chain.Outbox.Finalize.Effects.{finalize_confirmed-IsCommitted}
use nagarik_signals.Chain.Outbox.Finalize.Completes.{IsReady}
use nagarik_signals.Chain.Outbox.Matching.{
  Observation, row_matches, prepare_chain_outbox_record, chain_observation_matches,
  create_observed_event,
}
use nagarik_signals.Chain.Outbox.Matching.Observed.{
  IsReported, chain_observation_matches-create_observed_event,
}
use nagarik_signals.Chain.Outbox.Actions.{ChainWorker, Schedule, confirmed, finalizing}
use nagarik_signals.Chain.Outbox.Worker.{process_row}
use nagarik_signals.Chain.Outbox.Worker.Confirmed.{process_row-confirmed}
use nagarik_signals.Chain.Outbox.Worker.Progress.{process_row-confirms}

-- The row carries the job, and its columns say what the job says.
pub record IsCarried (row : JobRow) (j : Envelope) : Type 0 where
  pub payload : row.canonical_payload ≡ some j
  pub operation : row.operation_type ≡ operation_name j.operation
  pub operation_id : row.operation_id ≡ j.operation_id
  pub event_id : row.event_id ≡ j.event_id
  pub sequence : row.chain_sequence ≡ j.next.update_count
  pub hash : row.payload_hash ≡ j.payload_hash

-- The issue once the job is confirmed: it has taken the job's step.
pub record IsStepped {P : Type 0} (i : JobInput) (j : Envelope) (issue_id : String)
    (end : Database P) : Type 0 where
  pub after : IssueRow
  pub found : find_issue issue_id end.issues ≡ some after
  pub next_sequence : after.confirmed_update_count ≡ i.expected.update_count + 1
  pub timeline : after.confirmed_timeline_head ≡ j.next.timeline_head
  pub handoff : after.confirmed_handoff_head ≡ j.next.handoff_head

stands_at_sound :
    (k : IssueRow) (n : Snapshot)
    → stands_at k n ≡ true
    → (k.confirmed_update_count ≡ n.update_count)
      × (k.confirmed_timeline_head ≡ n.timeline_head)
      × (k.confirmed_handoff_head ≡ n.handoff_head)
stands_at_sound k n h = ground (
  arith,
  ==_iff k.confirmed_timeline_head n.timeline_head,
  ==_iff k.confirmed_handoff_head n.handoff_head,
)

carried-row_matches :
    (row : JobRow) (p : PreparedChainJob) → IsCarried row p.envelope → row_matches row p ≡ true
unfolding row_matches
carried-row_matches row p c = rw (
  c.operation,
  c.operation_id,
  c.event_id,
  c.sequence,
  c.hash,
  ==_refl (operation_name p.operation),
  ==_refl p.operation_id,
  ==_refl p.event_id,
  ==_refl p.next.update_count,
  ==_refl p.payload_hash,
)

carried-prepared :
    (row : JobRow) (j : Envelope) (p : PreparedChainJob) {P : Type 0} (w : ChainWorker P)
    → IsCarried row j
    → p.envelope ≡ j
    → prepare_chain_job w.hashing (some j) ≡ ok p
    → prepare_chain_outbox_record w.hashing row ≡ ok p
unfolding prepare_chain_outbox_record row_matches
carried-prepared row j p w c same e =
    rw (c.payload, e, carried-row_matches row p (subst (IsCarried row) (sym same) c))

module _ {P : Type 0} (w : ChainWorker P) (s : Schedule P) where
  confirmed-IsStepped :
      (i : JobInput) (j : Envelope) (row : JobRow) (p : PreparedChainJob) (db : Database P)
      → build_chain_job w.hashing i ≡ ok j
      → p.envelope ≡ j
      → prepare_chain_outbox_record w.hashing row ≡ ok p
      → (process_row w s row db).0 ≡ ok confirmed
      → IsStepped i j row.issue_id (process_row w s row db).1
  unfolding next_snapshot
  confirmed-IsStepped i j row p db built same prepared done =
      let c = process_row-confirmed w s row db done in
      let q : c.protocol ≡ p = ok-injective (sym c.prepared ∙ prepared) in
      let carried : c.protocol.envelope ≡ j = ap (λ k. k.envelope) q ∙ same in
      let f = c.finalized in
      let committed =
        finalize_confirmed-IsCommitted w.signer.profile w.project_confirmed
          (record { row = row; protocol = c.protocol }) c.event f.reconciled (s.now finalizing)
          f.start (process_row w s row db).1 f.finalized in
      let (count, timeline, handoff) =
        stands_at_sound committed.advanced.after c.protocol.next committed.advanced.stands in
      let b = build_chain_job-IsBuilt w.hashing i built in
      record {
        after = committed.advanced.after;
        found = committed.advanced.at_end;
        next_sequence =
            count ∙ ap (λ e. e.next.update_count) carried ∙ ap Snapshot.update_count b.next;
        timeline = timeline ∙ ap (λ e. e.next.timeline_head) carried;
        handoff = handoff ∙ ap (λ e. e.next.handoff_head) carried;
      }

  -- A job that the program builds of valid parts and puts into the outbox, in a row whose columns say
  -- what the job says, is confirmed by one round of the worker, if the chain shows a well-formed report
  -- of the event that is created for the job, and the tables at the finalization hold the lease, the
  -- issue at the job's expected or next snapshot, no other binding of the event and no attempt of this
  -- number, and the projection accepts it. The issue's confirmed sequence is then one above the expected
  -- one, and its confirmed heads are those of the job.
  pub build_chain_job-confirmed :
      (i : JobInput) (j : Envelope) (row : JobRow) (report : Observation)
      (o : ObservedCommitmentEvent) (db : Database P)
      → IsBuildable i
      → build_chain_job w.hashing i ≡ ok j
      → IsCarried row j
      → IsReported report
      → create_observed_event w.addresses w.hashing j report ≡ ok o
      → ((p : PreparedChainJob) → p.envelope ≡ j → w.signer.inspect p ≡ ok (some o))
      → ((p : PreparedChainJob)
          → p.envelope ≡ j
          → IsReady w.signer.profile w.project_confirmed
              (record { row = row; protocol = p })
              o
              true
              (s.now finalizing)
              (s.others finalizing db))
      → ((process_row w s row db).0 ≡ ok confirmed)
        × IsStepped i j row.issue_id (process_row w s row db).1
  build_chain_job-confirmed i j row report o db valid built carried reported created shown ready =
      let (j', p, built', accepted, same) = prepare_chain_job-build_chain_job w.hashing i valid in
      let e : j' ≡ j = ok-injective (sym built' ∙ built) in
      let accepted' : prepare_chain_job w.hashing (some j) ≡ ok p =
        ap (λ k. prepare_chain_job w.hashing (some k)) (sym e) ∙ accepted in
      let (p', seen, matches) =
        chain_observation_matches-create_observed_event w.addresses w.hashing j report o reported
          created in
      let f : p' ≡ p = ok-injective (sym seen ∙ accepted') in
      let prepared = carried-prepared row j p w carried (same ∙ e) accepted' in
      let done =
        process_row-confirms w s row p o db prepared (shown p (same ∙ e))
          (subst (λ k. chain_observation_matches w.addresses k o ≡ ok true) f matches)
          (ready p (same ∙ e)) in
      (done, confirmed-IsStepped i j row p db built (same ∙ e) prepared done)
