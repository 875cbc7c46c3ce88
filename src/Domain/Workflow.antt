-- ===== src/Domain/Workflow.antt =====
-- apps/web/lib/domain/workflow.ts: the states and the transition tables.
pub mod Laws
use nagarik_signals.Base.{
  ℕ, ◌≡◌, ◌↔◌, ◌||◌, true, Option, none, some, List, [], ◌∷◌, arith, Eq, ◌==◌, option_eq, nat_beq,
  includes, length, nat_eq, if◌then◌else◌, Result, ok, err, error,
}

pub data SubmissionState : Type 0 where
  received under_review changes_requested revision_pending : SubmissionState
  approved rejected withdrawn expired : SubmissionState

pub data LifecycleState : Type 0 where
  open_state in_progress resolved closed disputed : LifecycleState

pub data HandoffState : Type 0 where
  prepared sent acknowledged closed failed : HandoffState

-- The position of a state in its list of states.
abbrev submission_index : SubmissionState → ℕ
submission_index received = 0
submission_index under_review = 1
submission_index changes_requested = 2
submission_index revision_pending = 3
submission_index approved = 4
submission_index rejected = 5
submission_index withdrawn = 6
submission_index expired = 7

abbrev lifecycle_index : LifecycleState → ℕ
lifecycle_index open_state = 0
lifecycle_index in_progress = 1
lifecycle_index resolved = 2
lifecycle_index LifecycleState.closed = 3
lifecycle_index disputed = 4

abbrev handoff_index : HandoffState → ℕ
handoff_index prepared = 0
handoff_index sent = 1
handoff_index acknowledged = 2
handoff_index HandoffState.closed = 3
handoff_index failed = 4

pub submission_index_iff :
    (a b : SubmissionState) → (nat_beq (submission_index a) (submission_index b) ≡ true) ↔ (a ≡ b)
submission_index_iff a b = ground arith

pub lifecycle_index_iff :
    (a b : LifecycleState) → (nat_beq (lifecycle_index a) (lifecycle_index b) ≡ true) ↔ (a ≡ b)
lifecycle_index_iff a b = ground arith

pub handoff_index_iff :
    (a b : HandoffState) → (nat_beq (handoff_index a) (handoff_index b) ≡ true) ↔ (a ≡ b)
handoff_index_iff a b = ground arith

instance abbrev pub submission_eq : Eq SubmissionState
submission_eq = record {
  equals = λ a b. nat_beq (submission_index a) (submission_index b);
  equals_iff = submission_index_iff;
}

instance abbrev pub lifecycle_eq : Eq LifecycleState
lifecycle_eq = record {
  equals = λ a b. nat_beq (lifecycle_index a) (lifecycle_index b);
  equals_iff = lifecycle_index_iff;
}

instance abbrev pub handoff_eq : Eq HandoffState
handoff_eq = record {
  equals = λ a b. nat_beq (handoff_index a) (handoff_index b);
  equals_iff = handoff_index_iff;
}

unfoldable pub submission_transitions : SubmissionState → List SubmissionState
submission_transitions received = under_review ∷ withdrawn ∷ expired ∷ []
submission_transitions under_review = changes_requested ∷ approved ∷ rejected ∷ withdrawn ∷ []
submission_transitions changes_requested =
    revision_pending ∷ under_review ∷ withdrawn ∷ expired ∷ []
submission_transitions revision_pending = under_review ∷ withdrawn ∷ []
submission_transitions approved = []
submission_transitions rejected = []
submission_transitions withdrawn = []
submission_transitions expired = []

unfoldable pub lifecycle_transitions : LifecycleState → List LifecycleState
lifecycle_transitions open_state = in_progress ∷ disputed ∷ LifecycleState.closed ∷ []
lifecycle_transitions in_progress = resolved ∷ disputed ∷ LifecycleState.closed ∷ []
lifecycle_transitions resolved = disputed ∷ LifecycleState.closed ∷ []
lifecycle_transitions disputed = open_state ∷ in_progress ∷ resolved ∷ LifecycleState.closed ∷ []
lifecycle_transitions LifecycleState.closed = []

-- `none` is the row of an issue that has no handoff.
unfoldable pub handoff_transitions : Option HandoffState → List HandoffState
handoff_transitions none = prepared ∷ []
handoff_transitions (some prepared) = sent ∷ failed ∷ []
handoff_transitions (some sent) = acknowledged ∷ failed ∷ []
handoff_transitions (some acknowledged) = HandoffState.closed ∷ []
handoff_transitions (some failed) = []
handoff_transitions (some HandoffState.closed) = []

unfoldable pub assert_submission_transition : SubmissionState → SubmissionState → Result (Unit {0})
unfolding submission_transitions
assert_submission_transition current next =
    if includes (submission_transitions current) next
    then ok tt
    else if length (submission_transitions current) == 0
    then err (error "submission_terminal")
    else err (error "submission_transition_invalid")

unfoldable pub assert_lifecycle_transition : LifecycleState → LifecycleState → Result (Unit {0})
unfolding lifecycle_transitions
assert_lifecycle_transition current next =
    if includes (lifecycle_transitions current) next
    then ok tt
    else if current == LifecycleState.closed
    then err (error "lifecycle_terminal")
    else err (error "lifecycle_transition_invalid")

unfoldable pub assert_handoff_transition : Option HandoffState → HandoffState → Result (Unit {0})
unfolding handoff_transitions
assert_handoff_transition current next =
    if includes (handoff_transitions current) next
    then ok tt
    else if current == some HandoffState.closed || current == some failed
    then err (error "handoff_terminal")
    else err (error "handoff_transition_invalid")
