-- ===== src/Domain/Workflow/Laws.antt =====
-- Histories of the three workflows of apps/web/lib/domain/workflow.ts.
use nagarik_signals.Base.{
  ℕ, ◌≡◌, ◌≢◌, ◌↔◌, ◌⊎◌, inl, inr, Option, none, some, arith, ok, err, error, suc, subst, text-ne,
  refl, ◌≤◌, ◌<◌,
}
use nagarik_signals.Domain.Workflow.{
  SubmissionState, received, under_review, approved, rejected, withdrawn, expired, LifecycleState,
  HandoffState, prepared, sent, acknowledged, failed, assert_submission_transition,
  assert_lifecycle_transition, assert_handoff_transition,
}

abbrev pub IsFinal : SubmissionState → Type 0
IsFinal s = (s ≡ approved) ⊎ (s ≡ rejected) ⊎ (s ≡ withdrawn) ⊎ (s ≡ expired)

-- The states that a submission passes through, oldest first; each step was asserted.
pub data SubmissionRun (s : SubmissionState) : SubmissionState → Type 0 where
  here : SubmissionRun s s
  then_to :
      {t u : SubmissionState}
      → SubmissionRun s t
      → assert_submission_transition t u ≡ ok tt
      → SubmissionRun s u

-- A transition is refused as terminal exactly from the four final states, whatever the target is.
pub submission_terminal_iff :
    (current next : SubmissionState)
    → (assert_submission_transition current next ≡ err (error "submission_terminal"))
      ↔ IsFinal current
unfolding assert_submission_transition
submission_terminal_iff current next =
    ground (arith, text-ne "submission_transition_invalid" "submission_terminal" refl)

before_decision :
    (t u : SubmissionState)
    → assert_submission_transition t u ≡ ok tt
    → (u ≡ approved) ⊎ (u ≡ rejected)
    → t ≡ under_review
unfolding assert_submission_transition
before_decision t u h d = ground arith

-- A history of a submission from `received` to an approval or a rejection was under review just
-- before, and the decision was asserted from there.
pub SubmissionRun-decided :
    {s u : SubmissionState}
    → SubmissionRun s u
    → s ≡ received
    → (u ≡ approved) ⊎ (u ≡ rejected)
    → SubmissionRun s under_review × (assert_submission_transition under_review u ≡ ok tt)
SubmissionRun-decided here e d = absurd (ground arith)
SubmissionRun-decided (then_to {t} {u} r h) e d =
    let was : t ≡ under_review = before_decision t u h d in
    (subst (SubmissionRun _) was r, rw was at h)

-- Every lifecycle state but `closed` may be closed, `closed` has no successor, and no state may
-- be asserted again.
pub lifecycle_closing :
    (current next : LifecycleState)
    → ((assert_lifecycle_transition current LifecycleState.closed ≡ ok tt)
        ↔ (current ≢ LifecycleState.closed))
      × (assert_lifecycle_transition LifecycleState.closed next ≡ err (error "lifecycle_terminal"))
      × (assert_lifecycle_transition current current ≢ ok tt)
unfolding assert_lifecycle_transition
lifecycle_closing current next = (ground arith, ground arith, ground arith)

-- How far a handoff has come.
abbrev progress : Option HandoffState → ℕ
progress none = 0
progress (some prepared) = 1
progress (some sent) = 2
progress (some acknowledged) = 3
progress (some HandoffState.closed) = 4
progress (some failed) = 4

progress-lt :
    (current : Option HandoffState) (next : HandoffState)
    → assert_handoff_transition current next ≡ ok tt
    → progress current < progress (some next)
unfolding assert_handoff_transition
progress-lt current next h = ground arith

-- A history of one handoff from the start, with the number of its transitions.
pub data HandoffRun : ℕ → Option HandoffState → Type 0 where
  start : HandoffRun 0 none
  move_on :
      {n : ℕ} {s : Option HandoffState} {u : HandoffState}
      → HandoffRun n s
      → assert_handoff_transition s u ≡ ok tt
      → HandoffRun (suc n) (some u)

HandoffRun-le : {n : ℕ} {s : Option HandoffState} → HandoffRun n s → n ≤ progress s
HandoffRun-le start = omega arith
HandoffRun-le (move_on {s = s} {u = u} r h) = omega (arith, HandoffRun-le r, progress-lt s u h)

progress-le : (s : Option HandoffState) → progress s ≤ 4
progress-le s = ground arith

HandoffRun-le-four : {n : ℕ} {s : Option HandoffState} → HandoffRun n s → n ≤ 4
HandoffRun-le-four {s} r = omega (arith, HandoffRun-le r, progress-le s)

-- The state in which nothing may be asserted any more.
abbrev pub IsOver : Option HandoffState → Type 0
IsOver s = (u : HandoffState) → assert_handoff_transition s u ≡ err (error "handoff_terminal")

IsOver-iff :
    (s : Option HandoffState) → IsOver s ↔ ((s ≡ some HandoffState.closed) ⊎ (s ≡ some failed))
unfolding assert_handoff_transition
IsOver-iff none = (
  (λ h. let e = h prepared in absurd (cc)),
  λ c. elim c [ inl e ↦ absurd (cc) | inr e ↦ absurd (cc) ],
)
IsOver-iff (some prepared) = (
  (λ h. let e = h sent in absurd (cc)),
  λ c. elim c [ inl e ↦ absurd (cc) | inr e ↦ absurd (cc) ],
)
IsOver-iff (some sent) = (
  (λ h. let e = h failed in absurd (cc)),
  λ c. elim c [ inl e ↦ absurd (cc) | inr e ↦ absurd (cc) ],
)
IsOver-iff (some acknowledged) = (
  (λ h. let e = h HandoffState.closed in absurd (cc)),
  λ c. elim c [ inl e ↦ absurd (cc) | inr e ↦ absurd (cc) ],
)
IsOver-iff (some HandoffState.closed) = ((λ _. inl refl), λ _ u. ground arith)
IsOver-iff (some failed) = ((λ _. inr refl), λ _ u. ground arith)

-- A history of asserted handoff transitions from the start has at most four, and it is over, every
-- further transition being refused as terminal, exactly in `closed` and in `failed`. So no history
-- prepares a second cycle after a closed or a failed one.
pub HandoffRun-ends :
    {n : ℕ} {s : Option HandoffState}
    → HandoffRun n s
    → (n ≤ 4) × (IsOver s ↔ ((s ≡ some HandoffState.closed) ⊎ (s ≡ some failed)))
HandoffRun-ends {s} r = (HandoffRun-le-four r, IsOver-iff s)
