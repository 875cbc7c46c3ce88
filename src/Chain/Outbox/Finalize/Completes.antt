-- ===== src/Chain/Outbox/Finalize/Completes.antt =====
-- When a finalization is committed, and when a worker reports the job as confirmed.
use nagarik_signals.Base.{
  ◌≡◌, refl, sym, ap, ◌∙◌, subst, ℕ, Bool, true, false, ◌||◌, ◌⊎◌, inl, inr, some, List, ◌∷◌, ◌==◌,
  ==_refl, string_eq, nat_eq, Result, ok, err, error, if◌then◌else◌, any,
}
use nagarik_signals.Chain.Signer.{ChainProfile, ObservedCommitmentEvent}
use nagarik_signals.Chain.Outbox.Store.{
  JobRow, IssueRow, BindingRow, Database, find_job, find_issue, find_binding, same_attempt,
  insert_binding, insert_attempt, write_issue, pure,
}
use nagarik_signals.Chain.Outbox.Store.Inversion.{bind-ok, require-ok}
use nagarik_signals.Chain.Outbox.Transactions.{WorkerJob, Projector, owns_lease, awaits}
use nagarik_signals.Chain.Outbox.Finalize.{
  stands_at, advance, binding_row, same_binding, binding_matches, confirmed_attempt, run_projection,
  advance_heads, bind_event, project_event, close_job, finalize_confirmed,
}
use nagarik_signals.Chain.Outbox.Finalize.Stages.{advance_heads-eq-ok, bind_event-eq-ok}

-- The event has no binding, or one that says what was observed.
abbrev pub IsBindable : ChainProfile → ObservedCommitmentEvent → List BindingRow → Type 0
IsBindable profile o bs =
    (any (λ c. c.event_id == o.event_id) bs ≡ false)
    ⊎ ((any (λ c. c.event_id == o.event_id) bs ≡ true)
        × (binding_matches (find_binding o.event_id bs) profile o ≡ true))

-- What the tables and the projection must allow.
pub record IsReady {P : Type 0} (profile : ChainProfile) (project : Projector P) (job : WorkerJob)
    (o : ObservedCommitmentEvent) (reconciled : Bool) (now : ℕ) (db : Database P) : Type 0 where
  pub held :
      (owns_lease job.row (find_job job.row.id db.jobs)
        || awaits o.signature (find_job job.row.id db.jobs))
      ≡ true
  pub issue : IssueRow
  pub found : find_issue job.row.issue_id db.issues ≡ some issue
  pub stands : (stands_at issue job.protocol.expected || stands_at issue job.protocol.next) ≡ true
  pub bindable : IsBindable profile o db.bindings
  pub after : P
  pub projected :
      project
        (record {
          issue_id = job.row.issue_id;
          issue_version_id = job.row.issue_version_id;
          job = job.protocol;
          observation = o;
          profile = profile;
          now = now;
        })
        db.projection
      ≡ ok (true, after)
  pub fresh : any (same_attempt (confirmed_attempt job.row o reconciled now)) db.attempts ≡ false

same_binding-binding_row :
    (row : JobRow) (profile : ChainProfile) (o : ObservedCommitmentEvent) (now : ℕ)
    → same_binding (binding_row row profile o now) profile o ≡ true
unfolding same_binding
same_binding-binding_row row profile o now = rw (
  ==_refl profile.cluster,
  ==_refl profile.genesis_hash,
  ==_refl profile.program_id,
  ==_refl o.issue_account,
  ==_refl o.event_account,
  ==_refl o.event_id,
  ==_refl o.sequence,
  ==_refl o.signature,
  ==_refl o.finalized_slot,
  ==_refl o.account_sha256,
)

module _ {P : Type 0} where
  inserted : (t : Bool) (b : BindingRow) (db : Database P) → Result (Unit {0} × Database P)
  inserted t b db = if t then ok (tt, db) else ok (tt, record db { bindings = b ∷ db.bindings })

  advance_heads-completes :
      (job : WorkerJob) (now : ℕ) (db : Database P) (i : IssueRow)
      → (stands_at i job.protocol.expected || stands_at i job.protocol.next) ≡ true
      → (db' : Database P) × (advance_heads job now (some i) db ≡ ok (tt, db'))
  unfolding advance_heads
  advance_heads-completes job now db i stands =
      rw stands (helper (stands_at i job.protocol.expected))
    where
      helper :
          (b : Bool)
          → (db' : Database P) × ((if b
                  then write_issue job.row.issue_id (advance job.protocol.next now)
                  else pure tt)
                db
              ≡ ok (tt, db'))
      helper true = (_, refl)
      helper false = (_, refl)

  bind_event-completes :
      (profile : ChainProfile) (row : JobRow) (o : ObservedCommitmentEvent) (now : ℕ)
      (db : Database P)
      → (any (λ c. c.event_id == o.event_id) db.bindings ≡ false)
        ⊎ ((any (λ c. c.event_id == o.event_id) db.bindings ≡ true)
            × (binding_matches (find_binding o.event_id db.bindings) profile o ≡ true))
      → (db' : Database P) × (bind_event profile row o now db ≡ ok (tt, db'))
  unfolding bind_event find_binding inserted
  bind_event-completes profile row o now db (inl e) =
      let b = binding_row row profile o now in
      (
        record db { bindings = b ∷ db.bindings },
        bind-ok (insert_binding b db) _ tt (record db { bindings = b ∷ db.bindings })
            (ap (λ t. inserted t b db) e)
            (require-ok _ _ _
              (rw (==_refl o.event_id) (same_binding-binding_row row profile o now))),
      )
  bind_event-completes profile row o now db (inr (e, m)) =
      let b = binding_row row profile o now in
      (db, bind-ok (insert_binding b db) _ tt db (ap (λ t. inserted t b db) e) (require-ok _ _ _ m))

  project_event-completes :
      (profile : ChainProfile) (project : Projector P) (job : WorkerJob)
      (o : ObservedCommitmentEvent) (now : ℕ) (db : Database P) (p : P)
      → project
          (record {
            issue_id = job.row.issue_id;
            issue_version_id = job.row.issue_version_id;
            job = job.protocol;
            observation = o;
            profile = profile;
            now = now;
          })
          db.projection
        ≡ ok (true, p)
      → (db' : Database P) × (project_event profile project job o now db ≡ ok (tt, db'))
        × (db'.attempts ≡ db.attempts)
  unfolding project_event
  project_event-completes profile project job o now db p e = (
    record db { projection = p },
    bind-ok (run_projection project _ db) _ true (record db { projection = p })
        (ap
          (λ r. elim r [
            | ok (projected, q) ↦ ok (projected, record db { projection = q })
            | err e ↦ err e
          ])
          e)
        refl,
    refl,
  )

  close_job-completes :
      (row : JobRow) (o : ObservedCommitmentEvent) (r : Bool) (now : ℕ) (db : Database P)
      → any (same_attempt (confirmed_attempt row o r now)) db.attempts ≡ false
      → (db' : Database P) × (close_job row o r now db ≡ ok (tt, db'))
  unfolding close_job
  close_job-completes row o r now db e =
      let a = confirmed_attempt row o r now in
      let db1 : Database P = record db { attempts = a ∷ db.attempts } in
      (
        _,
        bind-ok (insert_attempt a db) _ tt db1
            (ap
              (λ t.
                if◌then◌else◌ {A = Result (Unit {0} × Database P)} t
                  (err (error "unique_violation")) (ok (tt, db1)))
              e)
            refl,
      )

  -- A finalization is committed whenever the job is leased to the claim or waits for this
  -- signature, the issue stands at the expected or the next snapshot, the event has no binding or
  -- one that says what was observed, the projection succeeds, and the attempt is new.
  pub finalize_confirmed-completes :
      (profile : ChainProfile) (project : Projector P) (job : WorkerJob)
      (o : ObservedCommitmentEvent) (reconciled : Bool) (now : ℕ) (db : Database P)
      → IsReady profile project job o reconciled now db
      → (end : Database P) × (finalize_confirmed profile project job o reconciled now db
          ≡ ok (tt, end))
  unfolding finalize_confirmed
  finalize_confirmed-completes profile project job o reconciled now db r =
      let (db1, e1) = advance_heads-completes job now db r.issue r.stands in
      let heads = ap (λ m. advance_heads job now m db) r.found ∙ e1 in
      let (_, _, bindings1, attempts1, projection1) = advance_heads-eq-ok job now db db1 heads in
      let (db2, e2) =
        bind_event-completes profile job.row o now db1
          (subst (λ bs. IsBindable profile o bs) (sym bindings1) r.bindable) in
      let (_, _, _, attempts2, projection2) = bind_event-eq-ok profile job.row o now db1 db2 e2 in
      let (db3, e3, attempts3) =
        project_event-completes profile project job o now db2 r.after
          (ap (project _) (projection2 ∙ projection1) ∙ r.projected) in
      let (db4, e4) = close_job-completes job.row o reconciled now db3 (
        ap (any (same_attempt (confirmed_attempt job.row o reconciled now)))
          (attempts3 ∙ attempts2 ∙ attempts1)
        ∙ r.fresh) in
      (
        db4,
        bind-ok _ _ tt db (require-ok _ _ db r.held)
            (bind-ok _ _ tt db1 heads (bind-ok _ _ tt db2 e2 (bind-ok _ _ tt db3 e3 e4))),
      )
