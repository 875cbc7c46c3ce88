-- ===== src/Chain/Outbox/Finalize/Growth.antt =====
-- A finalization keeps every binding, and never takes a count of an issue back.
use nagarik_signals.Base.{
  ◌≡◌, ◌≤◌, ◌+◌, refl, sym, ap, ◌∙◌, subst, ℕ, Bool, true, false, ◌||◌, Option, none, some, ◌∷◌,
  ◌==◌, ==_iff, string_eq, nat_eq, Result, ok, ok-injective, Thrown, error, arith, if◌then◌else◌,
  any,
}
use nagarik_signals.Chain.Signer.{ChainProfile, ObservedCommitmentEvent}
use nagarik_signals.Chain.Outbox.Store.{
  JobRow, IssueRow, BindingRow, Database, find_issue, find_binding, insert_binding, require, pure,
  write_issue,
}
use nagarik_signals.Chain.Outbox.Store.Inversion.{bind-eq-ok, require-eq-ok}
use nagarik_signals.Chain.Outbox.Transactions.{WorkerJob}
use nagarik_signals.Chain.Outbox.Finalize.{
  binding_row, binding_matches, bind_event, advance_heads, stands_at, advance,
}
use nagarik_signals.Chain.Outbox.Store.Growth.{
  Grows, Persist, Grows-refl, Grows-update, any-find_binding,
}

module _ {P : Type 0} where
  insert_binding-Persist :
      (b : BindingRow) (db db' : Database P) {u : Unit {0}}
      → insert_binding b db ≡ ok (u, db')
      → Persist db.bindings db'.bindings
  unfolding Persist find_binding
  insert_binding-Persist b db db' {u} h event c found =
      helper (any (λ c. c.event_id == b.event_id) db.bindings) refl h
    where
      fresh :
          any (λ c. c.event_id == b.event_id) db.bindings ≡ false
          → (t : Bool) → (b.event_id == event) ≡ t
          → (if t then some b else find_binding event db.bindings) ≡ some c
      fresh none_there true e =
          let same : b.event_id ≡ event = (==_iff b.event_id event).0 e in
          let there : any (λ c. c.event_id == b.event_id) db.bindings ≡ true =
            subst (λ x. any (λ c. c.event_id == x) db.bindings ≡ true) (sym same)
              (any-find_binding event db.bindings found) in
          absurd (cc)
      fresh none_there false e = found

      helper :
          (t : Bool)
          → any (λ c. c.event_id == b.event_id) db.bindings ≡ t
          → if◌then◌else◌ {A = Result (Unit {0} × Database P)} t
              (ok (tt, db))
              (ok (tt, record db { bindings = b ∷ db.bindings }))
            ≡ ok (u, db')
          → find_binding event db'.bindings ≡ some c
      helper true e h =
          ap (λ d. find_binding event d.bindings) (ap (λ p. p.1) (sym (ok-injective h))) ∙ found
      helper false e h =
          ap (λ d. find_binding event d.bindings) (ap (λ p. p.1) (sym (ok-injective h)))
          ∙ fresh e (b.event_id == event) refl

  require-last :
      (b : Bool) (e : Thrown) (db db' : Database P) {u : Unit {0}}
      → require b e db ≡ ok (u, db')
      → db ≡ db'
  require-last true e db db' h = cc
  require-last false e db db' h = cc

  pub bind_event-Persist :
      (profile : ChainProfile) (row : JobRow) (o : ObservedCommitmentEvent) (now : ℕ)
      (db db' : Database P)
      → bind_event profile row o now db ≡ ok (tt, db')
      → Persist db.bindings db'.bindings
  unfolding bind_event
  bind_event-Persist profile row o now db db' h =
      let (_, db1, e, rest) = bind-eq-ok (insert_binding (binding_row row profile o now) db) _ h in
      subst (λ d. Persist db.bindings d.bindings)
        (require-last (binding_matches (find_binding o.event_id db1.bindings) profile o) _ db1 db'
          rest)
        (insert_binding-Persist _ db db1 e)

  pub advance_heads-Grows :
      (job : WorkerJob) (now : ℕ) (db db' : Database P)
      → job.protocol.next.update_count ≡ job.protocol.expected.update_count + 1
      → advance_heads job now (find_issue job.row.issue_id db.issues) db ≡ ok (tt, db')
      → Grows db.issues db'.issues
  unfolding advance_heads
  advance_heads-Grows job now db db' step h = helper (find_issue job.row.issue_id db.issues) refl h
    where
      moved :
          (i : IssueRow)
          → find_issue job.row.issue_id db.issues ≡ some i
          → (b : Bool) → stands_at i job.protocol.expected ≡ b
          → (if b then write_issue job.row.issue_id (advance job.protocol.next now) else pure tt) db
            ≡ ok (tt, db')
          → Grows db.issues db'.issues
      moved i found true e h =
          let count : i.confirmed_update_count ≡ job.protocol.expected.update_count =
            ground (arith, ==_iff i.confirmed_update_count job.protocol.expected.update_count) in
          subst (λ d. Grows db.issues d.issues) (ap (λ p. p.1) (ok-injective h))
            (Grows-update job.row.issue_id (advance job.protocol.next now) db.issues (λ j. refl)
              (λ j f.
                let same : some i ≡ some j = sym found ∙ f in
                let same' : i ≡ j = cc in
                subst (λ k. k.confirmed_update_count ≤ job.protocol.next.update_count) same'
                  (omega arith)))
      moved i found false e h =
          subst (λ d. Grows db.issues d.issues) (ap (λ p. p.1) (ok-injective h))
            (Grows-refl db.issues)

      helper :
          (m : Option IssueRow)
          → find_issue job.row.issue_id db.issues ≡ m
          → advance_heads job now m db ≡ ok (tt, db')
          → Grows db.issues db'.issues
      helper none found h = absurd (cc)
      helper (some i) found h =
          let (stood, rest) =
            require-eq-ok (stands_at i job.protocol.expected || stands_at i job.protocol.next)
              (error "chain_confirmation_db_head_conflict")
              (if stands_at i job.protocol.expected
                then write_issue job.row.issue_id (advance job.protocol.next now)
                else pure tt)
              db h in
          moved i found (stands_at i job.protocol.expected) refl rest
