-- ===== src/Services/Switches/Changed.antt =====
-- The table of switches after a change.
use nagarik_signals.Base.{
  ==_refl, [], ℕ, ◌≡◌, ◌≢◌, refl, sym, ap, ◌∙◌, subst, true, false, Bool, some, List, ◌∷◌, ◌==◌,
  ==_iff, nat_eq, string_eq, bool_eq, Result, ok, guard-then-eq-ok, ok-injective, arith, not, ◌&&◌,
  if◌then◌else◌,
}
use nagarik_signals.Base.Lookup.{first, change, first-change_some, first_holds}
use nagarik_signals.Services.Switches.{
  CapabilityName, switched, result_of, capability_eq, SwitchRow, SwitchResult, SwitchRequest,
  find_switch, update_switch, is_public, lacks_evidence, apply_change,
}

find_switch-first :
    (c : CapabilityName) (ss : List SwitchRow)
    → find_switch c ss ≡ first (λ s. s.capability == c) ss
unfolding find_switch
find_switch-first c [] = refl
find_switch-first c (s ∷ ss) = rw (find_switch-first c ss)

update_switch-change :
    (c : CapabilityName) (v : ℕ) (f : SwitchRow → SwitchRow) (ss : List SwitchRow)
    → update_switch c v f ss ≡ change (λ s. s.capability == c && s.version == v) f ss
unfolding update_switch
update_switch-change c v f [] = refl
update_switch-change c v f (s ∷ ss) = rw (update_switch-change c v f ss)

-- What the switches say after a change: the capability's row, and those of all others.
pub record IsSwitched (q : SwitchRequest) (r : SwitchResult) (before : SwitchRow)
    (ss ss' : List SwitchRow) : Type 0 where
  pub after : SwitchRow
  pub found_after : find_switch q.capability ss' ≡ some after
  pub says : after.disabled ≡ q.change.disabled
  pub same_capability : r.capability ≡ after.capability
  pub same_version : r.version ≡ after.version
  pub same_reason : r.reason ≡ after.reason
  pub others : (c : CapabilityName) → c ≢ q.capability → find_switch c ss' ≡ find_switch c ss
  pub kept : before.disabled ≡ q.change.disabled → ss' ≡ ss

find_switch-update_switch :
    (q : SwitchRequest) (now : ℕ) (ss : List SwitchRow) (s : SwitchRow)
    → find_switch q.capability ss ≡ some s
    → find_switch q.capability (update_switch q.capability s.version (switched q now) ss)
      ≡ some (switched q now s)
find_switch-update_switch q now ss s h =
    let p : SwitchRow → Bool = λ k. k.capability == q.capability in
    let e : first p ss ≡ some s = sym (find_switch-first q.capability ss) ∙ h in
    find_switch-first q.capability (update_switch q.capability s.version (switched q now) ss)
    ∙ ap (first p) (update_switch-change q.capability s.version (switched q now) ss)
    ∙ first-change_some p (λ k. k.capability == q.capability && k.version == s.version)
        (switched q now) ss s (λ k. refl) e (rw (first_holds p ss s e, ==_refl s.version))

find_switch-update_switch_ne :
    (q : SwitchRequest) (now v : ℕ) (c : CapabilityName) (ss : List SwitchRow)
    → c ≢ q.capability
    → find_switch c (update_switch q.capability v (switched q now) ss) ≡ find_switch c ss
unfolding find_switch update_switch
find_switch-update_switch_ne q now v c [] n = refl
find_switch-update_switch_ne q now v c (s ∷ ss) n =
    cases (s.capability == q.capability) (s.version == v) (s.capability == c) refl refl
      (find_switch-update_switch_ne q now v c ss n)
  where
    cases :
        (a b e : Bool)
        → (s.capability == q.capability) ≡ a
        → (s.capability == c) ≡ e
        → find_switch c (update_switch q.capability v (switched q now) ss) ≡ find_switch c ss
        → find_switch c (
            if a && b
            then switched q now s ∷ update_switch q.capability v (switched q now) ss
            else s ∷ update_switch q.capability v (switched q now) ss)
          ≡ (if e then some s else find_switch c ss)
    cases true b true x y ih =
        absurd (n (sym ((==_iff s.capability c).0 y) ∙ (==_iff s.capability q.capability).0 x))
    cases true true false x y ih = rw (y) ih
    cases true false false x y ih = rw (y) ih
    cases false b true x y ih = rw (y)
    cases false b false x y ih = rw (y) ih

pub apply_change-IsSwitched :
    (q : SwitchRequest) (now : ℕ) (s : SwitchRow) (ss : List SwitchRow) (r : SwitchResult)
    (ss' : List SwitchRow)
    → find_switch q.capability ss ≡ some s
    → apply_change q now s ss ≡ ok (r, ss')
    → IsSwitched q r s ss ss'
unfolding apply_change
apply_change-IsSwitched q now s ss r ss' found h =
    let (_, h1) = guard-then-eq-ok (s.version == q.change.expected_version) _ _ h in
    let (_, h2) =
      guard-then-eq-ok
        (not (
          not (s.disabled == q.change.disabled)
          && is_public q.capability
          && lacks_evidence q.change.cache_purge_reference))
        _ _ h1 in
    cases (s.disabled == q.change.disabled) refl h2
  where
    out : SwitchResult × List SwitchRow → Type 0
    out o = IsSwitched q o.0 s ss o.1

    differs : (s.disabled == q.change.disabled) ≡ false → s.disabled ≢ q.change.disabled
    differs e same = ground (arith, ==_iff s.disabled q.change.disabled)

    cases :
        (b : Bool)
        → (s.disabled == q.change.disabled) ≡ b
        → if◌then◌else◌ {A = Result (SwitchResult × List SwitchRow)} b
            (ok (result_of s false, ss))
            (ok (
              result_of (switched q now s) true,
              update_switch q.capability s.version (switched q now) ss,
            ))
          ≡ ok (r, ss')
        → IsSwitched q r s ss ss'
    cases true e k = subst out (ok-injective k) (record {
      after = s;
      found_after = found;
      says = (==_iff s.disabled q.change.disabled).0 e;
      same_capability = refl;
      same_version = refl;
      same_reason = refl;
      others = λ c n. refl;
      kept = λ _. refl;
    })
    cases false e k = subst out (ok-injective k) (record {
      after = switched q now s;
      found_after = find_switch-update_switch q now ss s found;
      says = refl;
      same_capability = refl;
      same_version = refl;
      same_reason = refl;
      others = λ c n. find_switch-update_switch_ne q now s.version c ss n;
      kept = λ same. absurd (differs e same);
    })
