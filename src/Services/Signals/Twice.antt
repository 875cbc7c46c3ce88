-- ===== src/Services/Signals/Twice.antt =====
-- The audit row of a retraction has an identifier that depends on the signal alone.
use nagarik_signals.Base.{
  ℕ, ◌≡◌, refl, sym, ap, ◌∙◌, ◌&&◌, true, false, Bool, none, some, Option, String, List, [], ◌∷◌,
  ◌++◌, ◌==◌, string_eq, ==_iff, ==_refl, any, arith, subst, ok, err, error, >>=-eq-ok,
  if◌then◌else◌, Bool-cases, inl, inr,
}
use nagarik_signals.Chain.Protocol.{Hashing}
use nagarik_signals.Security.Ids.{deterministic_uuid}
use nagarik_signals.Services.Operations.{OperatorDependencies}
use nagarik_signals.Services.Operations.Once.{at_time}
use nagarik_signals.Services.Issues.{Issue, AuditRow, insert_row, is_capability_enabled}
use nagarik_signals.Services.Switches.{invite_signals}
use nagarik_signals.Services.Signals.{
  SignalRequest, SignalResult, found_or_refused, signalable, signal_key_of, stored_key,
  retracted_signal, reactivated, signal_audit, activate, record_audit, retraction_audit,
  publish_count, record_public_signal, retract_existing, retract_public_signal,
}
use nagarik_signals.Services.Signals.Store.{
  active, retracted, signal_state_eq, Signal, SignalTables, find_signal, update_signal,
  select_signalable, has_key, is_projected, find_public_issue, write_count, IssueProjection,
}
use nagarik_signals.Services.Signals.Laws.{find_signal-update_signal, map_found, updated}
use nagarik_signals.Services.Signals.Published.{IsPublished, publish_count-IsPublished}

-- The audit log has the retraction of this signal.
HasRetraction : Hashing → String → List AuditRow → Type 0
HasRetraction h id rows =
    any (λ a. deterministic_uuid h "nagarik:v2:signal-retraction-audit" id == a.id) rows ≡ true

-- An active signal whose retraction is already in the log cannot be retracted.
retract_existing-refused :
    (d : OperatorDependencies) (q : SignalRequest) (i : Issue) (key : String) (s : Signal)
    (t : SignalTables)
    → s.state ≡ active
    → HasRetraction d.hashing s.id t.audit
    → retract_existing d q i key (some s) t ≡ err (error "unique_violation")
unfolding retract_existing publish_count insert_row HasRetraction
retract_existing-refused d q i key s t a h = rw ((==_iff s.state active).1 a, h) refl

is_projected-write_count :
    (id id' : String) (count now : ℕ) (ps : List IssueProjection)
    → is_projected id (write_count id' count now ps) ≡ is_projected id ps
unfolding is_projected write_count
is_projected-write_count id id' count now [] = refl
is_projected-write_count id id' count now (p ∷ ps) =
    let ih = is_projected-write_count id id' count now ps in
    elim (Bool-cases (p.public_id == id')) [ inl e ↦ rw (e, ih) refl | inr e ↦ rw (e, ih) refl ]

triple :
    {A B C : Type 0} {a a' : A} {b b' : B} {c c' : C}
    → a ≡ a'
    → b ≡ b'
    → c ≡ c'
    → ◌≡◌ {A = A × B × C} (a, b, c) (a', b', c')
triple p q r = cc

pair : {A B : Type 0} {a a' : A} {b b' : B} → a ≡ a' → b ≡ b' → ◌≡◌ {A = A × B} (a, b) (a', b')
pair p q = cc

select-agree :
    (q : SignalRequest) (t t' : SignalTables)
    → is_projected q.public_id t'.projections ≡ is_projected q.public_id t.projections
    → t'.switches ≡ t.switches
    → t'.issues ≡ t.issues
    → select_signalable q.public_id q.capability.organization_id t'
      ≡ select_signalable q.public_id q.capability.organization_id t
unfolding select_signalable
select-agree q t t' p s e =
    ap
      (λ x.
        if x.0 && is_capability_enabled invite_signals x.1
        then find_public_issue q.public_id q.capability.organization_id x.2
        else none)
      (triple p s e)

signalable-agree :
    (q : SignalRequest) (t t' : SignalTables)
    → is_projected q.public_id t'.projections ≡ is_projected q.public_id t.projections
    → t'.switches ≡ t.switches
    → t'.issues ≡ t.issues
    → signalable q t' ≡ signalable q t
unfolding signalable
signalable-agree q t t' p s e =
    ap (λ x. found_or_refused (is_capability_enabled invite_signals x.0) x.1)
      (pair s (select-agree q t t' p s e))

-- What is written for one request leaves its issue signalable.
signalable-IsPublished :
    (d : OperatorDependencies) (q : SignalRequest) (changed : Bool) (i : Issue)
    (audit : ℕ → AuditRow) (ss : List Signal) (t : SignalTables) (r : SignalResult)
    (t' : SignalTables)
    → IsPublished d q changed i audit ss t r t'
    → signalable q t' ≡ signalable q t
signalable-IsPublished d q changed i audit ss t r t' p =
    signalable-agree q t t'
      (ap (is_projected q.public_id) p.projections
        ∙ is_projected-write_count q.public_id q.public_id _ d.now t.projections)
      p.switches p.issues

module _ (d : OperatorDependencies) (q : SignalRequest) (i : Issue) (key : String) where
  -- A retraction that is not a replay found an active signal.
  retract_existing-active :
      (o : Option Signal) (t : SignalTables) (r : SignalResult) (t' : SignalTables)
      → r.replayed ≡ false
      → retract_existing d q i key o t ≡ ok (r, t')
      → (s : Signal) × (o ≡ some s)
        × (s.state ≡ active)
        × IsPublished d q true i
            (retraction_audit d q i key s)
            (update_signal s.id active (retracted_signal d q) t.signals)
            t
            r
            t'
  unfolding retract_existing
  retract_existing-active none t r t' changed h =
      let p =
        publish_count-IsPublished d q false i (signal_audit d q "" "" "" key i) t.signals t r t'
          h in
      absurd (distinct (sym (ap SignalResult.replayed p.answer) ∙ changed))
    where
      distinct : ¬ (true ≡ false)
      distinct e = cc
  retract_existing-active (some s) t r t' changed h = decided (s.state == active) refl h
    where
      distinct : ¬ (true ≡ false)
      distinct e = cc

      decided :
          (b : Bool)
          → (s.state == active) ≡ b
          → (if b
              then publish_count d q true i
                  (retraction_audit d q i key s)
                  (update_signal s.id active (retracted_signal d q) t.signals)
                  t
              else publish_count d q false i (retraction_audit d q i key s) t.signals t)
            ≡ ok (r, t')
          → (s' : Signal) × (some s ≡ some s')
            × (s'.state ≡ active)
            × IsPublished d q true i
                (retraction_audit d q i key s')
                (update_signal s'.id active (retracted_signal d q) t.signals)
                t
                r
                t'
      decided true e done = (
        s,
        refl,
        (==_iff s.state active).0 e,
        publish_count-IsPublished d q true i (retraction_audit d q i key s) _ t r t' done,
      )
      decided false e done =
          let p =
            publish_count-IsPublished d q false i (retraction_audit d q i key s) t.signals t r t'
              done in
          absurd (distinct (sym (ap SignalResult.replayed p.answer) ∙ changed))

  -- Recording a retracted signal makes it active again.
  activate-retracted :
      (ss : List Signal) (s : Signal)
      → s.state ≡ retracted
      → activate d q i key (some s) ss
        ≡ ok (true, update_signal s.id retracted (reactivated d q) ss)
  unfolding activate
  activate-retracted ss s h = rw ((==_iff s.state retracted).1 h) refl

  updated_self : (s : Signal) (f : Signal → Signal) → updated s.id s.state f s ≡ f s
  updated_self s f = rw (==_refl s.id, ==_refl s.state) refl

  find-retracted :
      (ss : List Signal) (s : Signal)
      → find_signal (stored_key q i key) ss ≡ some s
      → s.state ≡ active
      → find_signal (stored_key q i key) (update_signal s.id active (retracted_signal d q) ss)
        ≡ some (retracted_signal d q s)
  unfolding has_key
  find-retracted ss s f h =
      find_signal-update_signal (stored_key q i key) s.id active (retracted_signal d q) ss
        (λ a. refl)
      ∙ ap (map_found (updated s.id active (retracted_signal d q))) f
      ∙ ap some (
          subst (λ a. updated s.id a (retracted_signal d q) s ≡ retracted_signal d q s) h
            (updated_self s (retracted_signal d q)))

  find-reactivated :
      (ss : List Signal) (s : Signal)
      → find_signal (stored_key q i key) ss ≡ some s
      → s.state ≡ retracted
      → find_signal (stored_key q i key) (update_signal s.id retracted (reactivated d q) ss)
        ≡ some (reactivated d q s)
  unfolding has_key
  find-reactivated ss s f h =
      find_signal-update_signal (stored_key q i key) s.id retracted (reactivated d q) ss (λ a. refl)
      ∙ ap (map_found (updated s.id retracted (reactivated d q))) f
      ∙ ap some (
          subst (λ a. updated s.id a (reactivated d q) s ≡ reactivated d q s) h
            (updated_self s (reactivated d q)))

  HasRetraction-append :
      (s : Signal) (count : ℕ) (rows : List AuditRow)
      → HasRetraction d.hashing s.id (rows ++ (retraction_audit d q i key s count ∷ []))
  unfolding HasRetraction
  HasRetraction-append s count [] =
      rw (==_refl (deterministic_uuid d.hashing "nagarik:v2:signal-retraction-audit" s.id)) refl
  HasRetraction-append s count (a ∷ rows) = ground (arith, HasRetraction-append s count rows)

  HasRetraction-more :
      (s : Signal) (row : AuditRow) (rows : List AuditRow)
      → HasRetraction d.hashing s.id rows
      → HasRetraction d.hashing s.id (rows ++ (row ∷ []))
  unfolding HasRetraction
  HasRetraction-more s row [] h = ground arith
  HasRetraction-more s row (a ∷ rows) h = ground (arith, HasRetraction-more s row rows)

key_at_time :
    (d : OperatorDependencies) (q : SignalRequest) (i : Issue) (now : ℕ)
    → signal_key_of (at_time now d) q i ≡ signal_key_of d q i
unfolding signal_key_of
key_at_time d q i now = refl

-- Recording the signal again at another time: it is active, and its retraction is still in the log.
recorded-again :
    (d : OperatorDependencies) (q : SignalRequest) (i : Issue) (key : String) (now : ℕ) (s : Signal)
    (t : SignalTables) (r : SignalResult) (t' : SignalTables)
    → signalable q t ≡ ok i
    → signal_key_of d q i ≡ ok key
    → find_signal (stored_key q i key) t.signals ≡ some s
    → s.state ≡ retracted
    → HasRetraction d.hashing s.id t.audit
    → record_public_signal (at_time now d) q t ≡ ok (r, t')
    → (signalable q t' ≡ ok i)
      × (find_signal (stored_key q i key) t'.signals ≡ some (reactivated d q s))
      × HasRetraction d.hashing s.id t'.audit
unfolding record_public_signal
recorded-again d q i key now s t r t' f k found state logged_before h =
    let d' = at_time now d in
    let h1 =
      rw (f, key_at_time d q i now, k, found, activate-retracted d' q i key t.signals s state) at
        h in
    let p =
      publish_count-IsPublished d' q true i (record_audit d' q i key (some s))
        (update_signal s.id retracted (reactivated d' q) t.signals) t r t' h1 in
    (
      signalable-IsPublished d' q true i _ _ t r t' p ∙ f,
      ap (find_signal (stored_key q i key)) p.signals
          ∙ find-reactivated d' q i key t.signals s found state,
      subst (HasRetraction d.hashing s.id) (sym p.audit_log)
          (HasRetraction-more d q i key s _ t.audit logged_before),
    )

-- A signal can be retracted only once. After a retraction that changed something, and a record of the
-- same signal that succeeded, the next retraction fails on the identifier of its audit row, whatever
-- the times of the three requests.
pub retract_public_signal-once :
    (d : OperatorDependencies) (q : SignalRequest) (now later : ℕ) (t t1 t2 : SignalTables)
    (r1 r2 : SignalResult)
    → retract_public_signal d q t ≡ ok (r1, t1)
    → r1.replayed ≡ false
    → record_public_signal (at_time now d) q t1 ≡ ok (r2, t2)
    → retract_public_signal (at_time later d) q t2 ≡ err (error "unique_violation")
unfolding retract_public_signal
retract_public_signal-once d q now later t t1 t2 r1 r2 h changed again =
    let (i, f, h1) = >>=-eq-ok (signalable q t) _ h in
    let (key, k, h2) = >>=-eq-ok (signal_key_of d q i) _ h1 in
    let (s, found, state, p) =
      retract_existing-active d q i key (find_signal (stored_key q i key) t.signals) t r1 t1 changed
        h2 in
    let (f2, found2, logged2) =
      recorded-again d q i key now (retracted_signal d q s) t1 r2 t2
        (signalable-IsPublished d q true i _ _ t r1 t1 p ∙ f) k
        (ap (find_signal (stored_key q i key)) p.signals
          ∙ find-retracted d q i key t.signals s found state)
        refl
        (subst (HasRetraction d.hashing s.id) (sym p.audit_log)
          (HasRetraction-append d q i key s _ t.audit))
        again in
    rw
      (
        f2,
        key_at_time d q i later,
        k,
        found2,
        retract_existing-refused (at_time later d) q i key
            (reactivated d q (retracted_signal d q s)) t2 refl logged2,
      )
      refl
