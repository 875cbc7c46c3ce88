-- ===== src/Examples/Workflows.antt =====
-- Runs of apps/web/lib/domain/workflow.ts.
use nagarik_signals.Base.{some, ◌⊎◌, ◌≡◌, ◌≢◌, ◌↔◌, ◌≤◌, refl, ok, err, error, inl, some}
use nagarik_signals.Domain.Workflow.{
  received, under_review, approved, LifecycleState, open_state, resolved, HandoffState, prepared,
  sent, acknowledged, failed, assert_submission_transition, assert_lifecycle_transition,
  assert_handoff_transition,
}
use nagarik_signals.Domain.Workflow.Laws.{
  IsFinal, SubmissionRun, here, then_to, HandoffRun, start, move_on, submission_terminal_iff,
  SubmissionRun-decided, lifecycle_closing, IsOver, HandoffRun-ends,
}

submission_terminal_iff_example :
    (assert_submission_transition approved received ≡ err (error "submission_terminal"))
    ↔ IsFinal approved
submission_terminal_iff_example = submission_terminal_iff approved received

-- A submission that is received, reviewed and approved.
approval : SubmissionRun received approved
unfolding assert_submission_transition
approval = then_to {t = under_review} (then_to {t = received} here refl) refl

SubmissionRun-decided_example :
    SubmissionRun received under_review
    × (assert_submission_transition under_review approved ≡ ok tt)
SubmissionRun-decided_example = SubmissionRun-decided approval refl (inl refl)

lifecycle_closing_example :
    ((assert_lifecycle_transition open_state LifecycleState.closed ≡ ok tt)
      ↔ (open_state ≢ LifecycleState.closed))
    × (assert_lifecycle_transition LifecycleState.closed resolved
        ≡ err (error "lifecycle_terminal"))
    × (assert_lifecycle_transition open_state open_state ≢ ok tt)
lifecycle_closing_example = lifecycle_closing open_state resolved

-- A handoff that is prepared, sent, acknowledged and closed.
whole_handoff : HandoffRun 4 (some HandoffState.closed)
unfolding assert_handoff_transition
whole_handoff =
    move_on
      (move_on {u = acknowledged} (move_on {u = sent} (move_on {u = prepared} start refl) refl)
        refl)
      refl

HandoffRun-ends_example :
    (4 ≤ 4)
    × (IsOver (some HandoffState.closed) ↔ (
        (some HandoffState.closed ≡ some HandoffState.closed)
        ⊎ (some HandoffState.closed ≡ some failed)))
HandoffRun-ends_example = HandoffRun-ends whole_handoff
