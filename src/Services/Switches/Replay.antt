-- ===== src/Services/Switches/Replay.antt =====
-- A request to change a kill switch is carried out once.
use nagarik_signals.Base.{
  ℕ, ◌≡◌, refl, sym, subst, true, false, none, ◌∷◌, nat_eq, string_eq, bool_eq, ok,
  guard-then-eq-ok,
}
use nagarik_signals.Services.Idempotency.{reserved, reserve_idempotency, find_record}
use nagarik_signals.Services.Idempotency.Once.{reserve_idempotency-fresh, reserve_idempotency-once}
use nagarik_signals.Services.Switches.{
  capability_eq, SwitchResult, SwitchTables, SwitchRequest, SwitchDependencies, answer_disposition,
  reservation, below_ceiling, change_capability_switch,
}
use nagarik_signals.Services.Switches.Laws.{answer_disposition-IsCarriedOut}

-- The same request at another time.
abbrev pub later : SwitchDependencies → ℕ → SwitchDependencies
later d now = record d { now = now }

-- A request is carried out once: if its key was not known and the change was carried out, the same
-- request at any other time answers with the same result, marked as a replay, and changes nothing.
pub change_capability_switch-replay :
    (d : SwitchDependencies) (q : SwitchRequest) (t : SwitchTables) (r : SwitchResult)
    (t' : SwitchTables) (now : ℕ)
    → find_record (reservation d q) t.records ≡ none
    → change_capability_switch d q t ≡ ok ((false, r), t')
    → change_capability_switch (later d now) q t' ≡ ok ((true, r), t')
unfolding change_capability_switch reserve_idempotency
change_capability_switch-replay d q t r t' now fresh h =
    let (below, h1) = guard-then-eq-ok (below_ceiling d q) _ _ h in
    let opened = record { reservation = reservation d q; response = none } ∷ t.records in
    let c =
      answer_disposition-IsCarriedOut d q reserved (record t { records = opened }) r t'
        (subst (λ p. answer_disposition d q p.0 (record t { records = p.1 }) ≡ ok ((false, r), t'))
          (reserve_idempotency-fresh (reservation d q) d.now t.records fresh) h1) in
    rw below (
      subst
        (λ p.
          answer_disposition (later d now) q p.0 (record t' { records = p.1 }) ≡ ok ((true, r), t'))
        (sym (
          reserve_idempotency-once (reservation d q) (reservation (later d now) q) r now t.records
            t'.records refl refl refl refl c.completed))
        (unfold answer_disposition in refl))
