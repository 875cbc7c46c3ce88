-- ===== src/Services/Switches/Laws.antt =====
-- What a change of a kill switch has checked.
use nagarik_signals.Base.{
  ℕ, ◌+◌, ◌≡◌, ◌≢◌, ◌⊎◌, inl, inr, refl, sym, ap, ◌∙◌, subst, true, false, Bool, Option, none, some,
  List, ◌∷◌, ◌==◌, ==_iff, nat_eq, string_eq, bool_eq, Result, ok, >>=-eq-ok, guard-then-eq-ok,
  ok-injective, arith, not, ◌&&◌, if◌then◌else◌,
}
use nagarik_signals.Services.Switches.Changed.{IsSwitched, apply_change-IsSwitched}
use nagarik_signals.Services.Idempotency.{
  IdempotencyRecord, Disposition, reserved, conflict, in_progress, replay, reserve_idempotency,
  complete_idempotency,
}
use nagarik_signals.Services.Switches.{
  switched, result_of, audit_event, capability_eq, SwitchRow, SwitchResult, SwitchTables,
  SwitchRequest, SwitchDependencies, find_switch, update_switch, is_public, lacks_evidence,
  apply_change, change_found, answer_disposition, reservation, below_ceiling,
  change_capability_switch,
}

-- What a change that was carried out has checked, on the row that it found.
pub record IsApplied (d : SwitchDependencies) (q : SwitchRequest) (ss : List SwitchRow)
    (r : SwitchResult) : Type 0 where
  pub before : SwitchRow
  pub found : find_switch q.capability ss ≡ some before
  pub expected : before.version ≡ q.change.expected_version
  pub disabled : r.disabled ≡ q.change.disabled
  pub ceiling : q.change.disabled ≡ false → d.ceilings q.capability ≡ true
  pub evidence :
      before.disabled ≢ q.change.disabled
      → is_public q.capability ≡ true
      → lacks_evidence q.change.cache_purge_reference ≡ false
  pub version :
      ((before.disabled ≡ q.change.disabled) × (r.changed ≡ false) × (r.version ≡ before.version))
      ⊎ ((before.disabled ≢ q.change.disabled)
          × (r.changed ≡ true)
          × (r.version ≡ before.version + 1))

apply_change-eq-ok :
    (q : SwitchRequest) (now : ℕ) (s : SwitchRow) (ss : List SwitchRow) (r : SwitchResult)
    (ss' : List SwitchRow)
    → apply_change q now s ss ≡ ok (r, ss')
    → (s.version ≡ q.change.expected_version)
      × (r.disabled ≡ q.change.disabled)
      × (s.disabled ≢ q.change.disabled
          → is_public q.capability ≡ true
          → lacks_evidence q.change.cache_purge_reference ≡ false)
      × (((s.disabled ≡ q.change.disabled) × (r.changed ≡ false) × (r.version ≡ s.version))
          ⊎ ((s.disabled ≢ q.change.disabled) × (r.changed ≡ true) × (r.version ≡ s.version + 1)))
unfolding apply_change
apply_change-eq-ok q now s ss r ss' h =
    let (expected, h1) = guard-then-eq-ok (s.version == q.change.expected_version) _ _ h in
    let (evidence, h2) =
      guard-then-eq-ok
        (not (
          not (s.disabled == q.change.disabled)
          && is_public q.capability
          && lacks_evidence q.change.cache_purge_reference))
        _ _ h1 in
    let (disabled, version) = helper (s.disabled == q.change.disabled) refl h2 in
    (
      (==_iff s.version q.change.expected_version).0 expected,
      disabled,
      λ n p.
          proof (s.disabled == q.change.disabled) (is_public q.capability)
            (lacks_evidence q.change.cache_purge_reference) evidence (differs n) p,
      version,
    )
  where
    differs : s.disabled ≢ q.change.disabled → (s.disabled == q.change.disabled) ≡ false
    differs n = ground (arith, ==_iff s.disabled q.change.disabled)

    proof : (a b c : Bool) → not (not a && b && c) ≡ true → a ≡ false → b ≡ true → c ≡ false
    proof true b c h e f = absurd (cc)
    proof false false c h e f = absurd (cc)
    proof false true true h e f = absurd (cc)
    proof false true false h e f = refl

    clash : s.disabled ≡ q.change.disabled → (s.disabled == q.change.disabled) ≡ false → ⊥
    clash same e = let y = (==_iff s.disabled q.change.disabled).1 same in absurd (cc)

    helper :
        (b : Bool)
        → (s.disabled == q.change.disabled) ≡ b
        → if◌then◌else◌ {A = Result (SwitchResult × List SwitchRow)} b
            (ok (result_of s false, ss))
            (ok (
              result_of (switched q now s) true,
              update_switch q.capability s.version (switched q now) ss,
            ))
          ≡ ok (r, ss')
        → (r.disabled ≡ q.change.disabled)
          × (((s.disabled ≡ q.change.disabled) × (r.changed ≡ false) × (r.version ≡ s.version))
              ⊎ ((s.disabled ≢ q.change.disabled)
                  × (r.changed ≡ true)
                  × (r.version ≡ s.version + 1)))
    helper true e h =
        let same = (==_iff s.disabled q.change.disabled).0 e in
        let out = sym (ok-injective h) in
        (
          ap (λ p. p.0.disabled) out ∙ same,
          inl (same, ap (λ p. p.0.changed) out, ap (λ p. p.0.version) out),
        )
    helper false e h =
        let out = sym (ok-injective h) in
        (
          ap (λ p. p.0.disabled) out,
          inr (λ same. absurd (clash same e), ap (λ p. p.0.changed) out, ap (λ p. p.0.version) out),
        )

-- The steps of a change that was carried out.
pub record IsCarriedOut (d : SwitchDependencies) (q : SwitchRequest)
    (rs : List (IdempotencyRecord SwitchResult)) (t : SwitchTables) (r : SwitchResult)
    (t' : SwitchTables) : Type 0 where
  pub before : SwitchRow
  pub found : find_switch q.capability t.switches ≡ some before
  pub switches : List SwitchRow
  pub applied : apply_change q d.now before t.switches ≡ ok (r, switches)
  pub completed : complete_idempotency (d.record_id q) (d.request_hash q) r rs ≡ ok t'.records
  pub audited : t'.audit ≡ audit_event d q before r ∷ t.audit
  pub switched_to : t'.switches ≡ switches

change_found-IsCarriedOut :
    (d : SwitchDependencies) (q : SwitchRequest) (t : SwitchTables) (m : Option SwitchRow)
    (r : SwitchResult) (t' : SwitchTables)
    → find_switch q.capability t.switches ≡ m
    → change_found d q m t ≡ ok (r, t')
    → IsCarriedOut d q t.records t r t'
unfolding change_found
change_found-IsCarriedOut d q t none r t' found h = absurd (cc)
change_found-IsCarriedOut d q t (some s) r t' found h =
    let (applied, e1, h1) = >>=-eq-ok (apply_change q d.now s t.switches) _ h in
    let (records, e2, same) =
      >>=-eq-ok (complete_idempotency (d.record_id q) (d.request_hash q) applied.0 t.records) _
        h1 in
    let out = ok-injective same in
    subst (λ p. IsCarriedOut d q t.records t p.0 p.1) out
      (record {
        before = s;
        found = found;
        switches = applied.1;
        applied = e1;
        completed = e2;
        audited = refl;
        switched_to = refl;
      })

pub answer_disposition-IsCarriedOut :
    (d : SwitchDependencies) (q : SwitchRequest) (a : Disposition SwitchResult) (t : SwitchTables)
    (r : SwitchResult) (t' : SwitchTables)
    → answer_disposition d q a t ≡ ok ((false, r), t')
    → IsCarriedOut d q t.records t r t'
unfolding answer_disposition
answer_disposition-IsCarriedOut d q conflict t r t' h = absurd (cc)
answer_disposition-IsCarriedOut d q in_progress t r t' h = absurd (cc)
answer_disposition-IsCarriedOut d q (replay answer) t r t' h =
    let e = ap (λ p. p.0.0) (ok-injective h) in absurd (cc)
answer_disposition-IsCarriedOut d q reserved t r t' h =
    let (changed, e, same) =
      >>=-eq-ok (change_found d q (find_switch q.capability t.switches) t) _ h in
    let out = ok-injective same in
    subst (λ p. IsCarriedOut d q t.records t p.0.1 p.1) out
      (change_found-IsCarriedOut d q t (find_switch q.capability t.switches) changed.0 changed.1
        refl e)

ceiling_allows :
    (d : SwitchDependencies) (q : SwitchRequest)
    → below_ceiling d q ≡ true
    → q.change.disabled ≡ false
    → d.ceilings q.capability ≡ true
ceiling_allows d q h e = helper q.change.disabled (d.ceilings q.capability) h e
  where
    helper : (a b : Bool) → not (not a && not b) ≡ true → a ≡ false → b ≡ true
    helper true b h e = absurd (cc)
    helper false true h e = refl
    helper false false h e = absurd (cc)

-- A change that is carried out, not replayed, found the switch at the version that the request
-- expects, enables a capability only below its ceiling, has evidence of a purged cache where it turns a
-- public capability, and writes one audit event. The table then has the switch as the request says, at
-- the version that the answer gives, which is one higher exactly if the switch was turned; every other
-- switch is as it was, and all of them are if the switch was not turned.
pub change_capability_switch-IsApplied :
    (d : SwitchDependencies) (q : SwitchRequest) (t : SwitchTables) (r : SwitchResult)
    (t' : SwitchTables)
    → change_capability_switch d q t ≡ ok ((false, r), t')
    → (a : IsApplied d q t.switches r) × (t'.audit ≡ audit_event d q a.before r ∷ t.audit)
      × IsSwitched q r a.before t.switches t'.switches
unfolding change_capability_switch
change_capability_switch-IsApplied d q t r t' h =
    let (below, h1) = guard-then-eq-ok (below_ceiling d q) _ _ h in
    let reserving = reserve_idempotency (reservation d q) d.now t.records in
    let c =
      answer_disposition-IsCarriedOut d q reserving.0 (record t { records = reserving.1 }) r t'
        h1 in
    let (expected, disabled, evidence, version) =
      apply_change-eq-ok q d.now c.before t.switches r c.switches c.applied in
    (
      record {
        before = c.before;
        found = c.found;
        expected = expected;
        disabled = disabled;
        ceiling = ceiling_allows d q below;
        evidence = evidence;
        version = version;
      },
      c.audited,
      subst (IsSwitched q r c.before t.switches) (sym c.switched_to)
          (apply_change-IsSwitched q d.now c.before t.switches r c.switches c.found c.applied),
    )
