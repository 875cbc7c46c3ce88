-- ===== src/Services/Idempotency.antt =====
-- The reservations of requests: nagarik.reserve_idempotency in
-- supabase/migrations/20260731000500_idempotency_serialization.sql, and nagarik.complete_idempotency in
-- 20260731000300_access_and_transactions.sql. Keys and hashes have 32 bytes, and no reservation that is
-- asked for has expired, as the callers derive them.
pub mod Once
use nagarik_signals.Base.{
  ℕ, ◌&&◌, true, false, Bool, Option, none, some, String, List, [], ◌∷◌, ◌==◌, string_eq, ltb,
  if◌then◌else◌, any, Result, ok, err, error,
}

-- A request as the table knows it.
pub record Reservation : Type 0 where
  pub id : String
  pub scope : String
  pub actor_key : String
  pub key : String
  pub hash : String
  pub expires_at : ℕ

-- A row of `nagarik.idempotency_records`; it is completed if it has a response.
pub record IdempotencyRecord (R : Type 0) : Type 0 where
  pub reservation : Reservation
  pub response : Option R

pub data Disposition (R : Type 0) : Type 0 where
  reserved : Disposition R
  conflict : Disposition R
  in_progress : Disposition R
  replay : R → Disposition R

unfoldable pub same_request : Reservation → Reservation → Bool
same_request a b = a.scope == b.scope && a.actor_key == b.actor_key && a.key == b.key

module _ {R : Type 0} where
  unfoldable pub find_record :
      Reservation → List (IdempotencyRecord R) → Option (IdempotencyRecord R)
  find_record q [] = none
  find_record q (r ∷ rs) = if same_request r.reservation q then some r else find_record q rs

  -- The row with this identifier is reserved anew.
  unfoldable pub renew :
      String → Reservation → List (IdempotencyRecord R) → List (IdempotencyRecord R)
  renew id q [] = []
  renew id q (r ∷ rs) =
      if r.reservation.id == id
      then record {
        reservation = record r.reservation { hash = q.hash; expires_at = q.expires_at };
        response = none;
      }
        ∷ renew id q rs
      else r ∷ renew id q rs

  unfoldable pub reserve_found :
      Reservation
      → ℕ
      → Option (IdempotencyRecord R)
      → List (IdempotencyRecord R)
      → Disposition R × List (IdempotencyRecord R)
  reserve_found q now none rs = (reserved, record { reservation = q; response = none } ∷ rs)
  reserve_found q now (some r) rs =
      if r.reservation.hash == q.hash
      then (elim r.response [
        | some answer ↦ (replay answer, rs)
        | none ↦
            if ltb now r.reservation.expires_at
            then (in_progress, rs)
            else (reserved, renew r.reservation.id q rs)
      ])
      else (conflict, rs)

  unfoldable pub reserve_idempotency :
      Reservation → ℕ → List (IdempotencyRecord R) → Disposition R × List (IdempotencyRecord R)
  reserve_idempotency q now rs = reserve_found q now (find_record q rs) rs

  -- The rows that a completion changes: this identifier, this hash, and no response yet.
  unfoldable pub awaits_response : String → String → IdempotencyRecord R → Bool
  awaits_response id hash r =
      r.reservation.id == id
      && r.reservation.hash == hash
      && (elim r.response [ none ↦ true | some answer ↦ false ])

  unfoldable pub respond :
      String → String → R → List (IdempotencyRecord R) → List (IdempotencyRecord R)
  respond id hash answer [] = []
  respond id hash answer (r ∷ rs) =
      if awaits_response id hash r
      then record r { response = some answer } ∷ respond id hash answer rs
      else r ∷ respond id hash answer rs

  unfoldable pub complete_idempotency :
      String → String → R → List (IdempotencyRecord R) → Result (List (IdempotencyRecord R))
  complete_idempotency id hash answer rs =
      if any (awaits_response id hash) rs
      then ok (respond id hash answer rs)
      else err (error "idempotency_completion_conflict")
