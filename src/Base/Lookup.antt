-- ===== src/Base/Lookup.antt =====
-- Lookups in lists, before and after an update in place.
use mathlib.Core.Path.{◌≡◌, refl, sym, ap, ◌∙◌}
use mathlib.Core.Bool.{Bool, true, false, ◌||◌}
use mathlib.Core.Option.{Option, none, some}
use mathlib.Core.List.{List, [], ◌∷◌, ◌++◌}
use nagarik_signals.Base.Tests.{if◌then◌else◌}
use nagarik_signals.Base.Lists.{any, All}

module _ {A : Type 0} where
  pub some_injective : {a b : A} → some a ≡ some b → a ≡ b
  some_injective e = cc

  abbrev pub first : (A → Bool) → List A → Option A
  first p [] = none
  first p (x ∷ xs) = if p x then some x else first p xs

  abbrev pub change : (A → Bool) → (A → A) → List A → List A
  change q f [] = []
  change q f (x ∷ xs) = if q x then f x ∷ change q f xs else x ∷ change q f xs

  abbrev pub mapped : (A → A) → Option A → Option A
  mapped f none = none
  mapped f (some a) = some (f a)

  abbrev pub changed_if : (A → Bool) → (A → A) → A → A
  changed_if q f a = if q a then f a else a

  -- The row that is found is the changed one, if the change keeps what the rows are found by.
  pub first-change :
      (p q : A → Bool) (f : A → A) (xs : List A)
      → ((a : A) → p (f a) ≡ p a)
      → first p (change q f xs) ≡ mapped (changed_if q f) (first p xs)
  first-change p q f [] keeps = refl
  first-change p q f (x ∷ xs) keeps = cases (p x) (q x) refl refl (first-change p q f xs keeps)
    where
      cases :
          (b c : Bool)
          → p x ≡ b
          → q x ≡ c
          → first p (change q f xs) ≡ mapped (changed_if q f) (first p xs)
          → first p (if c then f x ∷ change q f xs else x ∷ change q f xs)
            ≡ mapped (changed_if q f) (if b then some x else first p xs)
      cases true true e g ih = rw (keeps x, e, g)
      cases true false e g ih = rw (e, g)
      cases false true e g ih = rw (keeps x, e) ih
      cases false false e g ih = rw (e) ih

  pub first-change_some :
      (p q : A → Bool) (f : A → A) (xs : List A) (a : A)
      → ((b : A) → p (f b) ≡ p b)
      → first p xs ≡ some a
      → q a ≡ true
      → first p (change q f xs) ≡ some (f a)
  first-change_some p q f xs a keeps found hit =
      first-change p q f xs keeps ∙ ap (mapped (changed_if q f)) found ∙ (rw (hit))

  -- A row that no row before it passes for is found at the end.
  pub first-append :
      (p : A → Bool) (xs : List A) (a : A)
      → any p xs ≡ false
      → p a ≡ true
      → first p (xs ++ (a ∷ [])) ≡ some a
  first-append p [] a h e = rw (e)
  first-append p (x ∷ xs) a h e = cases (p x) (λ k. first-append p xs a k e) h
    where
      cases :
          (b : Bool)
          → (any p xs ≡ false → first p (xs ++ (a ∷ [])) ≡ some a)
          → (b || any p xs) ≡ false
          → (if b then some x else first p (xs ++ (a ∷ []))) ≡ some a
      cases true ih h = cc
      cases false ih h = ih h

  pub first_holds : (p : A → Bool) (xs : List A) (a : A) → first p xs ≡ some a → p a ≡ true
  first_holds p [] a h = cc
  first_holds p (x ∷ xs) a h = cases (p x) refl (first_holds p xs a) h
    where
      cases :
          (b : Bool)
          → p x ≡ b
          → (first p xs ≡ some a → p a ≡ true)
          → (if b then some x else first p xs) ≡ some a
          → p a ≡ true
      cases true e ih h = ap p (sym (some_injective h)) ∙ e
      cases false e ih h = ih h

  -- No row is left that the update looks for.
  pub All-change :
      (q : A → Bool) (f : A → A) (xs : List A)
      → ((a : A) → q (f a) ≡ false)
      → All (λ a. q a ≡ false) (change q f xs)
  All-change q f [] done = tt
  All-change q f (x ∷ xs) done = cases (q x) refl (All-change q f xs done)
    where
      cases :
          (b : Bool)
          → q x ≡ b
          → All (λ a. q a ≡ false) (change q f xs)
          → All (λ a. q a ≡ false) (if b then f x ∷ change q f xs else x ∷ change q f xs)
      cases true e ih = (done x, ih)
      cases false e ih = (e, ih)
