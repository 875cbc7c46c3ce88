-- ===== src/Base/Results.antt =====
-- `throw` and `try` as a result type, shared by every part of the program.
use Prim.Native.Nat.{ℕ}
use Prim.Native.String.{String}
use mathlib.Core.Path.{◌≡◌, refl, ap}
use mathlib.Core.Logic.{◌⊎◌, inl, inr}
use mathlib.Core.Bool.{Bool, true, false}

-- What the program throws: `new Error(message)`, an error class with a code and an HTTP status,
-- `ChainExecutionError` and `PublicProjectionDeferredError`.
pub data Thrown : Type 0 where
  error : String → Thrown
  coded : String → ℕ → Thrown
  execution : (category : String) (retryable : Bool) → Thrown
  projection_deferred : Thrown

pub data Result (A : Type 0) : Type 0 where
  ok : A → Result A
  err : Thrown → Result A

-- `if (!test) throw e`
abbrev pub guard : Bool → Thrown → Result (Unit {0})
guard false thrown = err thrown
guard true thrown = ok tt

infixl 5 ◌>>=◌ ◌>>◌
abbrev pub ◌>>=◌ : {A B : Type 0} → Result A → (A → Result B) → Result B
err thrown >>= rest = err thrown
ok value >>= rest = rest value

abbrev pub ◌>>◌ : {B : Type 0} → Result (Unit {0}) → Result B → Result B
first >> rest = first >>= λ _. rest

pub >>=-eq-ok :
    {A B : Type 0} (first : Result A) (rest : A → Result B) {out : B}
    → (first >>= rest) ≡ ok out
    → (x : A) × (first ≡ ok x) × (rest x ≡ ok out)
>>=-eq-ok (err thrown) rest done = cc
>>=-eq-ok (ok x) rest done = (x, refl, done)

pub guard-eq-ok : (b : Bool) (e : Thrown) {u : Unit {0}} → guard b e ≡ ok u → b ≡ true
guard-eq-ok true e h = refl
guard-eq-ok false e h = cc

pub Result-cases :
    {A : Type 0} (r : Result A) → ((a : A) × (r ≡ ok a)) ⊎ ((e : Thrown) × (r ≡ err e))
Result-cases (ok a) = inl (a, refl)
Result-cases (err e) = inr (e, refl)

-- Inversion of a test that passed.
pub guard-then-eq-ok :
    {B : Type 0} (b : Bool) (e : Thrown) (k : Result B) {r : B}
    → (guard b e >> k) ≡ ok r
    → (b ≡ true) × (k ≡ ok r)
guard-then-eq-ok true e k h = (refl, h)
guard-then-eq-ok false e k h = cc

pub then-eq-ok :
    {B : Type 0} (m : Result (Unit {0})) (k : Result B) {r : B}
    → (m >> k) ≡ ok r
    → (m ≡ ok tt) × (k ≡ ok r)
then-eq-ok (ok u) k h = (refl, h)
then-eq-ok (err e) k h = cc

pub ok-injective : {A : Type 0} {a b : A} → ok a ≡ ok b → a ≡ b
ok-injective e = cc

-- An answer that is marked with `true` is not one that is marked with `false`.
pub marked-ne :
    {A B : Type 0} (a a' : A) (b b' : B)
    → ¬ (◌≡◌ {A = Result ((Bool × A) × B)} (ok ((true, a), b)) (ok ((false, a'), b')))
marked-ne {A} {B} a a' b b' e = different (ap (λ p. p.0.0) (pairs e))
  where
    pairs :
        ◌≡◌ {A = Result ((Bool × A) × B)} (ok ((true, a), b)) (ok ((false, a'), b'))
        → ◌≡◌ {A = (Bool × A) × B} ((true, a), b) ((false, a'), b')
    pairs p = ok-injective p

    different : ¬ (true ≡ false)
    different p = cc
