-- ===== src/Services/Operations.antt =====
-- apps/web/lib/services/operatorMutation.ts: how a change by an operator reserves its idempotency key
-- and stores its answer. HMAC is a parameter.
pub mod Once
use Prim.Native.String.{◌++◌}
use nagarik_signals.Base.{ℕ, ◌+◌, ◌*◌, String, List, [], ◌∷◌, Result, ok, err, coded, ◌>>=◌}
use nagarik_signals.Chain.Protocol.{Hashing}
use nagarik_signals.Proof.Canonical.{Json, json_hash}
use nagarik_signals.Security.Ids.{deterministic_uuid, keyed_actor_hash}
use nagarik_signals.Services.Idempotency.{
  Reservation, IdempotencyRecord, Disposition, reserved, conflict, in_progress, replay,
  reserve_idempotency, complete_idempotency,
}

-- `OperatorMutationActor`
pub record Operator : Type 0 where
  pub subject_id : String
  pub organization_id : String

-- `OperatorMutationDependencies`, with the hash functions of Node; the transaction is the state that
-- the operations pass on.
pub record OperatorDependencies : Type 0 where
  pub hashing : Hashing
  pub hmac : String → String → String
  pub correlation_key : String
  pub now : ℕ

pub record MutationRequest : Type 0 where
  pub scope : String
  pub actor : Operator
  pub idempotency_key : String
  pub request : Json

-- `MutationReservation`
pub data MutationReservation (R : Type 0) : Type 0 where
  fresh : (record_id request_hash actor_key : String) → MutationReservation R
  replayed : (response : R) → MutationReservation R

abbrev pub thirty_days : ℕ
thirty_days = 30 * 24 * 60 * 60_000

unfoldable pub operator_reservation : OperatorDependencies → MutationRequest → String → Reservation
operator_reservation d q actor_key = record {
  id =
      deterministic_uuid d.hashing "nagarik:v2:operator-idempotency"
        (q.scope ++ ":" ++ q.actor.subject_id ++ ":" ++ q.idempotency_key);
  scope = q.scope;
  actor_key = actor_key;
  key = q.idempotency_key;
  hash = json_hash d.hashing q.request;
  expires_at = d.now + thirty_days;
}

module _ {R : Type 0} where
  unfoldable pub answer_reservation :
      Reservation
      → Disposition R × List (IdempotencyRecord R)
      → Result (MutationReservation R × List (IdempotencyRecord R))
  answer_reservation q (conflict, rs) = err (coded "idempotency_key_reused" 409)
  answer_reservation q (in_progress, rs) = err (coded "idempotency_in_progress" 409)
  answer_reservation q (replay response, rs) = ok (replayed response, rs)
  answer_reservation q (reserved, rs) = ok (fresh q.id q.hash q.actor_key, rs)

  unfoldable pub reserve_operator_mutation :
      OperatorDependencies
      → MutationRequest
      → List (IdempotencyRecord R)
      → Result (MutationReservation R × List (IdempotencyRecord R))
  unfolding answer_reservation
  reserve_operator_mutation d q rs = do
    actor_key ← keyed_actor_hash d.hmac d.correlation_key ("operator:" ++ q.actor.subject_id)
    let reservation = operator_reservation d q actor_key in
        answer_reservation reservation (reserve_idempotency reservation d.now rs)

  unfoldable pub complete_operator_mutation :
      (record_id request_hash : String)
      → R
      → List (IdempotencyRecord R)
      → Result (List (IdempotencyRecord R))
  complete_operator_mutation record_id request_hash response rs =
      complete_idempotency record_id request_hash response rs
