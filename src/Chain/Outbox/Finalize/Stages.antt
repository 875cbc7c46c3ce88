-- ===== src/Chain/Outbox/Finalize/Stages.antt =====
-- The stages of a finalization.
use nagarik_signals.Base.{
  ◌≡◌, refl, sym, ap, ◌∙◌, subst, ℕ, Bool, true, false, ◌||◌, Option, none, some, List, ◌∷◌,
  ==_refl, string_eq, option_eq, nat_eq, ok, ok-injective, Thrown, arith, if◌then◌else◌, any,
}
use nagarik_signals.Chain.Job.Schema.{Snapshot}
use nagarik_signals.Chain.Signer.{ChainProfile, ObservedCommitmentEvent}
use nagarik_signals.Chain.Outbox.Store.{
  JobRow, IssueRow, BindingRow, Database, min_blocked, find_issue, find_binding, update_job,
  update_issue, same_attempt, require, pure, write_issue, insert_binding, insert_attempt,
}
use nagarik_signals.Chain.Outbox.Store.Inversion.{
  find_issue-update_issue, bind-eq-ok, require-eq-ok, insert_binding-eq-ok, insert_attempt-eq-ok,
}
use nagarik_signals.Chain.Outbox.Transactions.{WorkerJob, Projector, confirmed_row}
use nagarik_signals.Chain.Outbox.Finalize.{
  stands_at, binding_row, advance, same_binding, binding_matches, confirmed_attempt, advance_heads,
  bind_event, project_event, close_job,
}

-- The issue row after its block is computed from these jobs.
abbrev pub with_block : List JobRow → JobRow → ℕ → IssueRow → IssueRow
with_block jobs row now i = record i {
  blocked_from_sequence = min_blocked row.issue_id jobs;
  updated_at = now;
}

-- The issue stands at the next snapshot, and stood there or at the expected one.
pub record IsAdvanced {P : Type 0} (job : WorkerJob) (start end : Database P) : Type 0 where
  pub before : IssueRow
  pub found : find_issue job.row.issue_id start.issues ≡ some before
  pub stood : (stands_at before job.protocol.expected || stands_at before job.protocol.next) ≡ true
  pub after : IssueRow
  pub at_end : find_issue job.row.issue_id end.issues ≡ some after
  pub stands : stands_at after job.protocol.next ≡ true

-- The event has a binding that says what was observed.
pub record IsBound {P : Type 0} (profile : ChainProfile) (o : ObservedCommitmentEvent)
    (end : Database P) : Type 0 where
  pub binding : BindingRow
  pub bound : find_binding o.event_id end.bindings ≡ some binding
  pub same : same_binding binding profile o ≡ true

stands_at-advance :
    (next : Snapshot) (now : ℕ) (i : IssueRow) → stands_at (advance next now i) next ≡ true
stands_at-advance next now i =
    rw (==_refl next.update_count, ==_refl next.timeline_head, ==_refl next.handoff_head)

module _ {P : Type 0} where
  pub advance_heads-eq-ok :
      (job : WorkerJob) (now : ℕ) (db : Database P) (db' : Database P)
      → advance_heads job now (find_issue job.row.issue_id db.issues) db ≡ ok (tt, db')
      → IsAdvanced job db db'
        × (db'.jobs ≡ db.jobs)
        × (db'.bindings ≡ db.bindings)
        × (db'.attempts ≡ db.attempts)
        × (db'.projection ≡ db.projection)
  unfolding advance_heads
  advance_heads-eq-ok job now db db' h = helper (find_issue job.row.issue_id db.issues) refl h
    where
      Goal : Type 0
      Goal =
          IsAdvanced job db db'
          × (db'.jobs ≡ db.jobs)
          × (db'.bindings ≡ db.bindings)
          × (db'.attempts ≡ db.attempts)
          × (db'.projection ≡ db.projection)

      moved :
          (i : IssueRow)
          → find_issue job.row.issue_id db.issues ≡ some i
          → (stands_at i job.protocol.expected || stands_at i job.protocol.next) ≡ true
          → (b : Bool) → stands_at i job.protocol.expected ≡ b
          → (if b then write_issue job.row.issue_id (advance job.protocol.next now) else pure tt) db
            ≡ ok (tt, db')
          → Goal
      moved i found stood true e h =
          let at : record db {
            issues = update_issue job.row.issue_id (advance job.protocol.next now) db.issues;
          }
              ≡ db' =
            cc in
          (
            record {
              before = i;
              found = found;
              stood = stood;
              after = advance job.protocol.next now i;
              at_end =
                  ap (λ d. find_issue job.row.issue_id d.issues) (sym at)
                  ∙ find_issue-update_issue job.row.issue_id _ db.issues (λ j. refl) found;
              stands = stands_at-advance job.protocol.next now i;
            },
            ap (λ d. d.jobs) (sym at),
            ap (λ d. d.bindings) (sym at),
            ap (λ d. d.attempts) (sym at),
            ap (λ d. d.projection) (sym at),
          )
      moved i found stood false e h =
          let at : db ≡ db' = cc in
          (
            record {
              before = i;
              found = found;
              stood = stood;
              after = i;
              at_end = ap (λ d. find_issue job.row.issue_id d.issues) (sym at) ∙ found;
              stands = rw e at stood;
            },
            ap (λ d. d.jobs) (sym at),
            ap (λ d. d.bindings) (sym at),
            ap (λ d. d.attempts) (sym at),
            ap (λ d. d.projection) (sym at),
          )

      helper :
          (m : Option IssueRow)
          → find_issue job.row.issue_id db.issues ≡ m
          → advance_heads job now m db ≡ ok (tt, db')
          → Goal
      helper none found h = absurd (cc)
      helper (some i) found h =
          let (stood, rest) = require-eq-ok _ _ _ db h in
          moved i found stood (stands_at i job.protocol.expected) refl rest

  binding-IsBound :
      (profile : ChainProfile) (o : ObservedCommitmentEvent) (e : Thrown) (m : Option BindingRow)
      (db db' : Database P)
      → find_binding o.event_id db.bindings ≡ m
      → require (binding_matches m profile o) e db ≡ ok (tt, db')
      → IsBound profile o db × (db ≡ db')
  binding-IsBound profile o e none db db' found h = absurd (cc)
  binding-IsBound profile o e (some b) db db' found h = helper (same_binding b profile o) refl h
    where
      helper :
          (t : Bool)
          → same_binding b profile o ≡ t
          → require t e db ≡ ok (tt, db')
          → IsBound profile o db × (db ≡ db')
      helper true agrees h = (record { binding = b; bound = found; same = agrees }, cc)
      helper false _ h = absurd (cc)

  pub bind_event-eq-ok :
      (profile : ChainProfile) (row : JobRow) (o : ObservedCommitmentEvent) (now : ℕ)
      (db db' : Database P)
      → bind_event profile row o now db ≡ ok (tt, db')
      → IsBound profile o db'
        × (db'.jobs ≡ db.jobs)
        × (db'.issues ≡ db.issues)
        × (db'.attempts ≡ db.attempts)
        × (db'.projection ≡ db.projection)
  unfolding bind_event
  bind_event-eq-ok profile row o now db db' h =
      let (_, db1, e, rest) = bind-eq-ok (insert_binding (binding_row row profile o now) db) _ h in
      let frame = insert_binding-eq-ok _ db db1 e in
      let (bound, at) =
        binding-IsBound profile o _ (find_binding o.event_id db1.bindings) db1 db' refl rest in
      (
        subst (IsBound profile o) at bound,
        ap (λ d. d.jobs) (sym at) ∙ frame.0,
        ap (λ d. d.issues) (sym at) ∙ frame.1,
        ap (λ d. d.attempts) (sym at) ∙ frame.2,
        ap (λ d. d.projection) (sym at) ∙ frame.3,
      )

  pub project_event-eq-ok :
      (profile : ChainProfile) (project : Projector P) (job : WorkerJob)
      (o : ObservedCommitmentEvent) (now : ℕ) (db db' : Database P)
      → project_event profile project job o now db ≡ ok (tt, db')
      → db' ≡ record db { projection = db'.projection }
  unfolding project_event
  project_event-eq-ok profile project job o now db db' h = ground arith

  pub close_job-eq-ok :
      (row : JobRow) (o : ObservedCommitmentEvent) (r : Bool) (now : ℕ) (db db' : Database P)
      → close_job row o r now db ≡ ok (tt, db')
      → (any (same_attempt (confirmed_attempt row o r now)) db.attempts ≡ false)
        × (db'.attempts ≡ confirmed_attempt row o r now ∷ db.attempts)
        × (db'.jobs ≡ update_job row.id (confirmed_row o.signature now) db.jobs)
        × (db'.issues ≡ update_issue row.issue_id (with_block db'.jobs row now) db.issues)
        × (db'.bindings ≡ db.bindings)
  unfolding close_job
  close_job-eq-ok row o r now db db' h =
      let (_, db1, e, rest) = bind-eq-ok (insert_attempt (confirmed_attempt row o r now) db) _ h in
      let (fresh, at) = insert_attempt-eq-ok _ db db1 e in
      let end = ok-injective rest in
      let jobs = ap (λ p. p.1.jobs) (sym end) in
      (
        fresh,
        ap (λ p. p.1.attempts) (sym end) ∙ ap (λ d. d.attempts) (sym at),
        jobs ∙ ap (λ d. update_job row.id (confirmed_row o.signature now) d.jobs) (sym at),
        ap (λ p. p.1.issues) (sym end)
            ∙ ap (λ js. update_issue row.issue_id (with_block js row now) db1.issues) (sym jobs)
            ∙ ap (λ d. update_issue row.issue_id (with_block db'.jobs row now) d.issues) (sym at),
        ap (λ p. p.1.bindings) (sym end) ∙ ap (λ d. d.bindings) (sym at),
      )
