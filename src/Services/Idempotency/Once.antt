-- ===== src/Services/Idempotency/Once.antt =====
-- A request whose reservation was completed is replayed.
use nagarik_signals.Base.{
  ℕ, ◌≡◌, sym, subst, none, some, List, ◌∷◌, ==_refl, string_eq, ok, ok-injective,
}
use nagarik_signals.Services.Idempotency.{
  Reservation, IdempotencyRecord, reserved, replay, reserve_idempotency, reserve_found, find_record,
  same_request, complete_idempotency, respond, awaits_response,
}

module _ {R : Type 0} where
  pub reserve_idempotency-fresh :
      (q : Reservation) (now : ℕ) (rs : List (IdempotencyRecord R))
      → find_record q rs ≡ none
      → reserve_idempotency q now rs ≡ (reserved, record { reservation = q; response = none } ∷ rs)
  unfolding reserve_idempotency reserve_found
  reserve_idempotency-fresh q now rs e = rw e

  completed-head :
      (q : Reservation) (r : R) (rs rs' : List (IdempotencyRecord R))
      → complete_idempotency q.id q.hash r (record { reservation = q; response = none } ∷ rs)
        ≡ ok rs'
      → rs' ≡ record { reservation = q; response = some r } ∷ respond q.id q.hash r rs
  unfolding complete_idempotency respond awaits_response
  completed-head q r rs rs' h =
      let e1 = ==_refl q.id in
      let e2 = ==_refl q.hash in let h' = rw (e1, e2) at h in sym (ok-injective h')

  -- Once a fresh reservation is completed with an answer, a reservation at any later time with the same
  -- scope, actor, key and hash replays this answer and leaves the table as it is.
  pub reserve_idempotency-once :
      (q q' : Reservation) (r : R) (now : ℕ) (rs rs' : List (IdempotencyRecord R))
      → q'.scope ≡ q.scope
      → q'.actor_key ≡ q.actor_key
      → q'.key ≡ q.key
      → q'.hash ≡ q.hash
      → complete_idempotency q.id q.hash r (record { reservation = q; response = none } ∷ rs)
        ≡ ok rs'
      → reserve_idempotency q' now rs' ≡ (replay r, rs')
  unfolding reserve_idempotency reserve_found find_record same_request
  reserve_idempotency-once q q' r now rs rs' s a k e h =
      let known = completed-head q r rs rs' h in
      subst (λ xs. reserve_idempotency q' now xs ≡ (replay r, xs)) (sym known)
        (rw (s, a, k, e, ==_refl q.scope, ==_refl q.actor_key, ==_refl q.key, ==_refl q.hash))
