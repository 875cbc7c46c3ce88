-- ===== src/Services/Operations/Once.antt =====
-- An operator's request whose reservation was completed is replayed.
use Prim.Native.String.{◌++◌}
use nagarik_signals.Base.{
  ℕ, ◌≡◌, refl, sym, ap, ◌∙◌, subst, true, none, List, ◌∷◌, ok, >>=-eq-ok, guard-then-eq-ok,
  ok-injective, ltb, length, not,
}
use nagarik_signals.Base.Utf8.{utf8}
use nagarik_signals.Security.Ids.{keyed_actor_hash}
use nagarik_signals.Services.Idempotency.{
  Reservation, IdempotencyRecord, reserve_idempotency, find_record,
}
use nagarik_signals.Services.Idempotency.Once.{reserve_idempotency-fresh, reserve_idempotency-once}
use nagarik_signals.Services.Operations.{
  OperatorDependencies, MutationRequest, MutationReservation, fresh, replayed, operator_reservation,
  answer_reservation, reserve_operator_mutation, complete_operator_mutation,
}

-- The reservation of a request, its actor's key being long enough.
abbrev pub reservation_of : OperatorDependencies → MutationRequest → Reservation
reservation_of d q =
    operator_reservation d q (d.hmac d.correlation_key ("operator:" ++ q.actor.subject_id))

-- The same services at another time.
abbrev pub at_time : ℕ → OperatorDependencies → OperatorDependencies
at_time now d = record d { now = now }

module _ {R : Type 0} (d : OperatorDependencies) (q : MutationRequest) where
  abbrev pub opened : List (IdempotencyRecord R) → List (IdempotencyRecord R)
  opened rs = record { reservation = reservation_of d q; response = none } ∷ rs

  reserved_with :
      (rs : List (IdempotencyRecord R)) (out : MutationReservation R × List (IdempotencyRecord R))
      → reserve_operator_mutation d q rs ≡ ok out
      → (not (ltb (length (utf8 d.correlation_key)) 32) ≡ true)
        × (answer_reservation
              (reservation_of d q)
              (reserve_idempotency (reservation_of d q) d.now rs)
            ≡ ok out)
  unfolding reserve_operator_mutation keyed_actor_hash
  reserved_with rs out h =
      let (key, e, h1) =
        >>=-eq-ok (keyed_actor_hash d.hmac d.correlation_key ("operator:" ++ q.actor.subject_id)) _
          h in
      let (long, k) = guard-then-eq-ok (not (ltb (length (utf8 d.correlation_key)) 32)) _ _ e in
      (
        long,
        subst
            (λ a.
              answer_reservation (operator_reservation d q a)
                (reserve_idempotency (operator_reservation d q a) d.now rs)
              ≡ ok out)
            (sym (ok-injective k)) h1,
      )

  -- A request that was not known is reserved, in a row at the front.
  pub reserve_operator_mutation-fresh :
      (rs : List (IdempotencyRecord R)) (out : MutationReservation R × List (IdempotencyRecord R))
      → find_record (reservation_of d q) rs ≡ none
      → reserve_operator_mutation d q rs ≡ ok out
      → out ≡ (
        fresh (reservation_of d q).id (reservation_of d q).hash (reservation_of d q).actor_key,
        opened rs,
      )
  unfolding answer_reservation
  reserve_operator_mutation-fresh rs out unknown h =
      let e = reserve_idempotency-fresh (reservation_of d q) d.now rs unknown in
      sym (
        ok-injective
          (ap (answer_reservation (reservation_of d q)) (sym e) ∙ (reserved_with rs out h).1))

  -- Once it is completed, the same request is replayed at any time.
  pub reserve_operator_mutation-once :
      (rs rs' : List (IdempotencyRecord R))
      (out : MutationReservation R × List (IdempotencyRecord R)) (r : R) (now : ℕ)
      → reserve_operator_mutation d q rs ≡ ok out
      → complete_operator_mutation (reservation_of d q).id (reservation_of d q).hash r (opened rs)
        ≡ ok rs'
      → reserve_operator_mutation (at_time now d) q rs' ≡ ok (replayed r, rs')
  unfolding reserve_operator_mutation keyed_actor_hash answer_reservation complete_operator_mutation
      operator_reservation
  reserve_operator_mutation-once rs rs' out r now h done = rw (
    (reserved_with rs out h).0,
    reserve_idempotency-once (reservation_of d q) (reservation_of (at_time now d) q) r now rs rs'
        refl refl refl refl done,
  )
