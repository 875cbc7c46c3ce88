-- ===== src/Services/Signals/Published.antt =====
-- Each operation on signals moves the public count by one or not at all.
use nagarik_signals.Base.{
  ℕ, ◌≡◌, sym, ap, ◌∙◌, true, false, not, Bool, List, [], ◌∷◌, ◌++◌, nat_eq, string_eq,
  if◌then◌else◌, ok, >>=-eq-ok, ok-injective,
}
use nagarik_signals.Services.Operations.{OperatorDependencies}
use nagarik_signals.Services.Issues.{Issue, AuditRow, insert_row, same_audit}
use nagarik_signals.Services.Issues.Inversion.{insert_row-eq-ok}
use nagarik_signals.Services.Signals.{SignalRequest, SignalResult, publish_count}
use nagarik_signals.Services.Signals.Store.{
  signal_state_eq, Signal, SignalTables, count_active, write_count,
}

-- The audit log after an operation.
abbrev pub logged : Bool → AuditRow → List AuditRow → List AuditRow
logged true row rows = rows ++ (row ∷ [])
logged false row rows = rows

pub record IsPublished (d : OperatorDependencies) (q : SignalRequest) (changed : Bool) (i : Issue)
    (audit : ℕ → AuditRow) (ss : List Signal) (t : SignalTables) (r : SignalResult)
    (t' : SignalTables) : Type 0 where
  pub answer : r ≡ record {
    replayed = not changed;
    public_id = q.public_id;
    signal_count = count_active i.id ss;
  }
  pub signals : t'.signals ≡ ss
  pub projections :
      t'.projections ≡ write_count q.public_id (count_active i.id ss) d.now t.projections
  pub audit_log : t'.audit ≡ logged changed (audit (count_active i.id ss)) t.audit
  pub issues : t'.issues ≡ t.issues
  pub switches : t'.switches ≡ t.switches

audited :
    (changed : Bool) (row : AuditRow) (rows rows' : List AuditRow)
    → (if changed then insert_row same_audit row rows else ok rows) ≡ ok rows'
    → rows' ≡ logged changed row rows
audited true row rows rows' h = (insert_row-eq-ok same_audit row rows rows' h).1
audited false row rows rows' h = sym (ok-injective h)

pub publish_count-IsPublished :
    (d : OperatorDependencies) (q : SignalRequest) (changed : Bool) (i : Issue)
    (audit : ℕ → AuditRow) (ss : List Signal) (t : SignalTables) (r : SignalResult)
    (t' : SignalTables)
    → publish_count d q changed i audit ss t ≡ ok (r, t')
    → IsPublished d q changed i audit ss t r t'
unfolding publish_count
publish_count-IsPublished d q changed i audit ss t r t' h =
    let (rows, a, h1) =
      >>=-eq-ok
        (if changed
          then insert_row same_audit (audit (count_active i.id ss)) t.audit
          else ok t.audit)
        _ h in
    let e = sym (ok-injective h1) in
    record {
      answer = ap (λ p. p.0) e;
      signals = ap (λ p. p.1.signals) e;
      projections = ap (λ p. p.1.projections) e;
      audit_log =
          ap (λ p. p.1.audit) e ∙ audited changed (audit (count_active i.id ss)) t.audit rows a;
      issues = ap (λ p. p.1.issues) e;
      switches = ap (λ p. p.1.switches) e;
    }
