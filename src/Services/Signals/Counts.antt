-- ===== src/Services/Signals/Counts.antt =====
-- How the number of active signals of an issue moves.
use nagarik_signals.Base.{
  ℕ, ◌≡◌, ap, ◌∙◌, ◌+◌, ◌&&◌, false, some, String, List, [], ◌∷◌, ◌++◌, ◌==◌, nat_eq, string_eq,
  ==_iff, ==_refl, any, arith, if◌then◌else◌, Bool-cases, subst, inl, inr,
}
use nagarik_signals.Services.Signals.Store.{
  Signal, SignalState, active, signal_state_eq, SignalKey, find_signal, same_signal, update_signal,
  count_active,
}
use nagarik_signals.Services.Signals.Laws.{
  IsUnique, find_signal-cases, find_signal-any, update_signal-absent, find_signal-nil,
  same_signal-other,
}

-- What one row adds to the count.
abbrev pub weight : String → Signal → ℕ
weight issue s = if s.issue_id == issue && s.state == active then 1 else 0

count_active-cons :
    (issue : String) (s : Signal) (ss : List Signal)
    → count_active issue (s ∷ ss) ≡ weight issue s + count_active issue ss
unfolding count_active
count_active-cons issue s ss = elim (Bool-cases (s.issue_id == issue && s.state == active)) [
  | inl e ↦ rw e (omega arith)
  | inr e ↦ rw e (omega arith)
]

pub count_active-append :
    (issue : String) (ss : List Signal) (s : Signal)
    → count_active issue (ss ++ (s ∷ [])) ≡ count_active issue ss + weight issue s
count_active-append issue [] s = count_active-cons issue s [] ∙ (omega arith)
count_active-append issue (x ∷ ss) s =
    rw
      (
        count_active-cons issue x (ss ++ (s ∷ [])),
        count_active-cons issue x ss,
        count_active-append issue ss s,
      )
      (omega arith)

update_head :
    (issue : String) (state : SignalState) (f : Signal → Signal) (x : Signal) (ss : List Signal)
    → any (same_signal x) ss ≡ false
    → x.state ≡ state
    → count_active issue (update_signal x.id state f (x ∷ ss)) + weight issue x
      ≡ count_active issue (x ∷ ss) + weight issue (f x)
unfolding update_signal
update_head issue state f x ss absent h =
    rw (==_refl x.id, (==_iff x.state state).1 h, update_signal-absent x state f ss absent)
      (rw (count_active-cons issue (f x) ss, count_active-cons issue x ss) (omega arith))

update_tail :
    (issue : String) (state : SignalState) (f : Signal → Signal) (x s : Signal) (ss : List Signal)
    → (x.id == s.id) ≡ false
    → count_active issue (update_signal s.id state f ss) + weight issue s
      ≡ count_active issue ss + weight issue (f s)
    → count_active issue (update_signal s.id state f (x ∷ ss)) + weight issue s
      ≡ count_active issue (x ∷ ss) + weight issue (f s)
unfolding update_signal
update_tail issue state f x s ss other ih = rw other (
    rw (count_active-cons issue x (update_signal s.id state f ss), count_active-cons issue x ss)
      (omega (arith, ih)))

-- The update of the row that a key finds moves the count by what this row adds.
pub count_active-update_signal :
    (issue : String) (k : SignalKey) (state : SignalState) (f : Signal → Signal) (ss : List Signal)
    (s : Signal)
    → IsUnique ss
    → find_signal k ss ≡ some s
    → s.state ≡ state
    → count_active issue (update_signal s.id state f ss) + weight issue s
      ≡ count_active issue ss + weight issue (f s)
count_active-update_signal issue k state f [] s u e h = absurd (find_signal-nil k s e)
count_active-update_signal issue k state f (x ∷ ss) s u e h = elim (find_signal-cases k x ss s e) [
  | inl (_, same) ↦
      subst
        (λ y.
          count_active issue (update_signal y.id state f (x ∷ ss)) + weight issue y
          ≡ count_active issue (x ∷ ss) + weight issue (f y))
        same (update_head issue state f x ss u.0 (ap Signal.state same ∙ h))
  | inr (_, later) ↦
      update_tail issue state f x s ss
        (same_signal-other x s (find_signal-any (same_signal x) k ss s later u.0))
        (count_active-update_signal issue k state f ss s u.1 later h)
]
