-- ===== src/Services/Signals/Moves.antt =====
-- What recording and retracting do to the signals and to the count.
use nagarik_signals.Base.{
  ℕ, ◌≡◌, refl, sym, ap, ◌∙◌, ◌+◌, true, false, Bool, none, some, Option, String, List, [], ◌∷◌,
  ◌++◌, ◌==◌, nat_eq, string_eq, ==_iff, ==_refl, any, arith, if◌then◌else◌, Bool-cases, subst, inl,
  inr, ok, >>=-eq-ok, ok-injective,
}
use nagarik_signals.Services.Operations.{OperatorDependencies}
use nagarik_signals.Services.Issues.{Issue, insert_row}
use nagarik_signals.Services.Issues.Inversion.{insert_row-eq-ok}
use nagarik_signals.Services.Signals.{
  SignalRequest, stored_key, new_signal, reactivated, retracted_signal, activate,
}
use nagarik_signals.Services.Signals.Store.{
  active, retracted, signal_state_eq, Signal, SignalKey, has_key, find_signal, same_signal,
  update_signal, count_active,
}
use nagarik_signals.Services.Signals.Laws.{
  IsUnique, find_signal-has_key, update_signal-IsUnique, append-IsUnique,
}
use nagarik_signals.Services.Signals.Counts.{
  weight, count_active-append, count_active-update_signal,
}

abbrev pub one_if : Bool → ℕ
one_if true = 1
one_if false = 0

weight-active :
    (issue : String) (s : Signal)
    → (s.issue_id == issue) ≡ true
    → s.state ≡ active
    → weight issue s ≡ 1
weight-active issue s e h = rw (e, (==_iff s.state active).1 h) refl

weight-retracted : (issue : String) (s : Signal) → s.state ≡ retracted → weight issue s ≡ 0
weight-retracted issue s h = elim (Bool-cases (s.issue_id == issue)) [
  | inl e ↦ rw (e, h) refl
  | inr e ↦ rw e refl
]

has_key-issue :
    (k : SignalKey) (s : Signal) → has_key k s ≡ true → (s.issue_id == k.issue_id) ≡ true
unfolding has_key
has_key-issue k s h = ground arith

module _ (d : OperatorDependencies) (q : SignalRequest) (i : Issue) (key : String) where
  abbrev k : SignalKey
  k = stored_key q i key

  reactivated-count :
      (ss : List Signal) (s : Signal)
      → IsUnique ss
      → find_signal k ss ≡ some s
      → s.state ≡ retracted
      → count_active i.id (update_signal s.id retracted (reactivated d q) ss)
        ≡ count_active i.id ss + 1
  reactivated-count ss s u f h =
      let moved = count_active-update_signal i.id k retracted (reactivated d q) ss s u f h in
      let issue = has_key-issue k s (find_signal-has_key k ss s f) in
      let before = weight-retracted i.id s h in
      let after = weight-active i.id (reactivated d q s) issue refl in
      omega (arith, moved, before, after)

  retracted-count :
      (ss : List Signal) (s : Signal)
      → IsUnique ss
      → find_signal k ss ≡ some s
      → s.state ≡ active
      → count_active i.id (update_signal s.id active (retracted_signal d q) ss) + 1
        ≡ count_active i.id ss
  retracted-count ss s u f h =
      let moved = count_active-update_signal i.id k active (retracted_signal d q) ss s u f h in
      let issue = has_key-issue k s (find_signal-has_key k ss s f) in
      let before = weight-active i.id s issue h in
      let after = weight-retracted i.id (retracted_signal d q s) refl in
      omega (arith, moved, before, after)

  -- The signals are unique, and there is one more active one if they changed.
  Counted : List Signal → Bool × List Signal → Type 0
  Counted ss out = IsUnique out.1 × (count_active i.id out.1 ≡ count_active i.id ss + one_if out.0)

  added-Counted :
      (ss : List Signal)
      → IsUnique ss
      → any (same_signal (new_signal d q i key)) ss ≡ false
      → Counted ss (true, ss ++ (new_signal d q i key ∷ []))
  unfolding Counted
  added-Counted ss u apart = (
    append-IsUnique (new_signal d q i key) ss apart u,
    count_active-append i.id ss (new_signal d q i key)
        ∙ ap (λ n. count_active i.id ss + n)
            (weight-active i.id (new_signal d q i key) (==_refl i.id) refl),
  )

  found-Counted :
      (ss : List Signal) (s : Signal) (b : Bool) (out : Bool × List Signal)
      → IsUnique ss
      → find_signal k ss ≡ some s
      → (s.state == retracted) ≡ b
      → (if b then ok (true, update_signal s.id retracted (reactivated d q) ss) else ok (false, ss))
        ≡ ok out
      → Counted ss out
  unfolding Counted has_key
  found-Counted ss s true out u f e h = subst (Counted ss) (ok-injective h) (
    update_signal-IsUnique s.id retracted (reactivated d q) ss (λ a b. refl) (λ a b. refl) u,
    reactivated-count ss s u f ((==_iff s.state retracted).0 e),
  )
  found-Counted ss s false out u f e h = subst (Counted ss) (ok-injective h) (u, omega arith)

  pub activate-counts :
      (ss : List Signal) (o : Option Signal) (out : Bool × List Signal)
      → IsUnique ss
      → find_signal k ss ≡ o
      → activate d q i key o ss ≡ ok out
      → IsUnique out.1 × (count_active i.id out.1 ≡ count_active i.id ss + one_if out.0)
  unfolding activate Counted
  activate-counts ss none out u f h =
      let (added, a, h1) = >>=-eq-ok (insert_row same_signal (new_signal d q i key) ss) _ h in
      let (apart, e) = insert_row-eq-ok same_signal (new_signal d q i key) ss added a in
      subst (Counted ss) (ok-injective h1)
        (subst (λ xs. Counted ss (true, xs)) (sym e) (added-Counted ss u apart))
  activate-counts ss (some s) out u f h = found-Counted ss s (s.state == retracted) out u f refl h

  pub retracted-counts :
      (ss : List Signal) (s : Signal)
      → IsUnique ss
      → find_signal k ss ≡ some s
      → s.state ≡ active
      → IsUnique (update_signal s.id active (retracted_signal d q) ss)
        × (count_active i.id (update_signal s.id active (retracted_signal d q) ss) + 1
            ≡ count_active i.id ss)
  unfolding has_key
  retracted-counts ss s u f h = (
    update_signal-IsUnique s.id active (retracted_signal d q) ss (λ a b. refl) (λ a b. refl) u,
    retracted-count ss s u f h,
  )
