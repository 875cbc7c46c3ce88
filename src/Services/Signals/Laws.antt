-- ===== src/Services/Signals/Laws.antt =====
-- Signals have their own identifiers and keys; how the rows change when one of them is updated.
use nagarik_signals.Base.{
  ◌≡◌, refl, ◌∙◌, ◌&&◌, true, false, Bool, none, some, Option, String, List, [], ◌∷◌, ◌++◌, ◌==◌,
  nat_eq, string_eq, ==_iff, ==_sym, any, arith, if◌then◌else◌, Bool-cases, ◌⊎◌, subst, inl, inr,
}
use nagarik_signals.Services.Signals.Store.{
  Signal, SignalState, signal_state_eq, SignalKey, has_key, find_signal, same_signal, update_signal,
}

-- No two rows have the same identifier or the same key.
abbrev pub IsUnique : List Signal → Type 0
IsUnique [] = Unit
IsUnique (s ∷ ss) = (any (same_signal s) ss ≡ false) × IsUnique ss

-- The row that is found is the first one, or one of the others.
pub find_signal-cases :
    (k : SignalKey) (x : Signal) (ss : List Signal) (s : Signal)
    → find_signal k (x ∷ ss) ≡ some s
    → ((has_key k x ≡ true) × (x ≡ s)) ⊎ ((has_key k x ≡ false) × (find_signal k ss ≡ some s))
unfolding find_signal
find_signal-cases k x ss s f = decided (has_key k x) f
  where
    decided :
        (b : Bool)
        → (if b then some x else find_signal k ss) ≡ some s
        → ((b ≡ true) × (x ≡ s)) ⊎ ((b ≡ false) × (find_signal k ss ≡ some s))
    decided true e = inl (refl, cc)
    decided false e = inr (refl, e)

pub any-cons :
    (p : Signal → Bool) (x : Signal) (ss : List Signal)
    → any p (x ∷ ss) ≡ false
    → (p x ≡ false) × (any p ss ≡ false)
any-cons p x ss h = ground arith

none-ne : {s : Signal} → ¬ (none ≡ some s)
none-ne e = cc

pub find_signal-nil : (k : SignalKey) (s : Signal) → ¬ (find_signal k [] ≡ some s)
unfolding find_signal
find_signal-nil k s e = none-ne e

-- A test that no row passes is not passed by a row that is found.
pub find_signal-any :
    (p : Signal → Bool) (k : SignalKey) (ss : List Signal) (s : Signal)
    → find_signal k ss ≡ some s
    → any p ss ≡ false
    → p s ≡ false
find_signal-any p k [] s f h = absurd (find_signal-nil k s f)
find_signal-any p k (x ∷ ss) s f h =
    let (here, there) = any-cons p x ss h in
    elim (find_signal-cases k x ss s f) [
      | inl (_, e) ↦ subst (λ y. p y ≡ false) e here
      | inr (_, e) ↦ find_signal-any p k ss s e there
    ]

pub same_signal-other : (x s : Signal) → same_signal x s ≡ false → (x.id == s.id) ≡ false
same_signal-other x s h = ground arith

same_signal-ids : (s x : Signal) → same_signal s x ≡ false → (x.id == s.id) ≡ false
same_signal-ids s x h = ground (arith, ==_iff x.id s.id, ==_iff s.id x.id)

pub update_signal-absent :
    (s : Signal) (state : SignalState) (f : Signal → Signal) (ss : List Signal)
    → any (same_signal s) ss ≡ false
    → update_signal s.id state f ss ≡ ss
unfolding update_signal
update_signal-absent s state f [] h = refl
update_signal-absent s state f (x ∷ ss) h =
    let (here, there) = any-cons (same_signal s) x ss h in
    rw (same_signal-ids s x here, update_signal-absent s state f ss there) refl

-- What an update does to the row that a key finds.
abbrev pub updated : (id : String) → SignalState → (Signal → Signal) → Signal → Signal
updated id state f s = if s.id == id && s.state == state then f s else s

abbrev pub map_found : (Signal → Signal) → Option Signal → Option Signal
map_found f none = none
map_found f (some s) = some (f s)

-- An update that keeps every key finds the same rows, updated.
pub find_signal-update_signal :
    (k : SignalKey) (id : String) (state : SignalState) (f : Signal → Signal) (ss : List Signal)
    → ((s : Signal) → has_key k (f s) ≡ has_key k s)
    → find_signal k (update_signal id state f ss)
      ≡ map_found (updated id state f) (find_signal k ss)
unfolding find_signal update_signal
find_signal-update_signal k id state f [] keeps = refl
find_signal-update_signal k id state f (s ∷ ss) keeps =
    let ih = find_signal-update_signal k id state f ss keeps in
    elim (Bool-cases (s.id == id && s.state == state)) [
      | inl b ↦ elim (Bool-cases (has_key k s)) [
        | inl c ↦ rw (b, keeps s, c, b) refl
        | inr c ↦ rw (b, keeps s, c) ih
      ]
      | inr b ↦ elim (Bool-cases (has_key k s)) [ inl c ↦ rw (b, c, b) refl | inr c ↦ rw (b, c) ih ]
    ]

any-same :
    (p q : Signal → Bool) (ss : List Signal) → ((s : Signal) → p s ≡ q s) → any p ss ≡ any q ss
any-same p q [] e = refl
any-same p q (s ∷ ss) e = rw (e s, any-same p q ss e) refl

any-append :
    (p : Signal → Bool) (ss : List Signal) (x : Signal)
    → any p ss ≡ false
    → p x ≡ false
    → any p (ss ++ (x ∷ [])) ≡ false
any-append p [] x h e = rw e refl
any-append p (s ∷ ss) x h e =
    let (here, there) = any-cons p s ss h in rw (here, any-append p ss x there e) refl

same_signal-sym : (x s : Signal) → same_signal x s ≡ false → same_signal s x ≡ false
unfolding has_key
same_signal-sym x s h =
    rw
      (
        ==_sym s.id x.id,
        ==_sym x.issue_id s.issue_id,
        ==_sym x.key_version s.key_version,
        ==_sym x.signal_key s.signal_key,
      )
      h

-- An update that keeps identifiers and keys keeps them unique.
same_signal-any-update_signal :
    (x : Signal) (id : String) (state : SignalState) (f : Signal → Signal) (ss : List Signal)
    → ((a s : Signal) → same_signal a (f s) ≡ same_signal a s)
    → any (same_signal x) (update_signal id state f ss) ≡ any (same_signal x) ss
unfolding update_signal
same_signal-any-update_signal x id state f [] keeps = refl
same_signal-any-update_signal x id state f (s ∷ ss) keeps =
    let ih = same_signal-any-update_signal x id state f ss keeps in
    elim (Bool-cases (s.id == id && s.state == state)) [
      | inl b ↦ rw (b, keeps x s, ih) refl
      | inr b ↦ rw (b, ih) refl
    ]

pub update_signal-IsUnique :
    (id : String) (state : SignalState) (f : Signal → Signal) (ss : List Signal)
    → ((a s : Signal) → same_signal a (f s) ≡ same_signal a s)
    → ((a s : Signal) → same_signal (f s) a ≡ same_signal s a)
    → IsUnique ss
    → IsUnique (update_signal id state f ss)
unfolding update_signal
update_signal-IsUnique id state f [] keeps keeps' u = tt
update_signal-IsUnique id state f (s ∷ ss) keeps keeps' u =
    decided (s.id == id && s.state == state)
      (same_signal-any-update_signal s id state f ss keeps ∙ u.0)
      (update_signal-IsUnique id state f ss keeps keeps' u.1)
  where
    rest : List Signal
    rest = update_signal id state f ss

    decided :
        (b : Bool)
        → any (same_signal s) rest ≡ false
        → IsUnique rest
        → IsUnique (if b then f s ∷ rest else s ∷ rest)
    decided true before unique =
        (any-same (same_signal (f s)) (same_signal s) rest (λ a. keeps' a s) ∙ before, unique)
    decided false before unique = (before, unique)

-- A row that clashes with none of the others may be added.
pub append-IsUnique :
    (x : Signal) (ss : List Signal)
    → any (same_signal x) ss ≡ false
    → IsUnique ss
    → IsUnique (ss ++ (x ∷ []))
append-IsUnique x [] h u = (refl, tt)
append-IsUnique x (s ∷ ss) h u =
    let (here, there) = any-cons (same_signal x) s ss h in
    (any-append (same_signal s) ss x u.0 (same_signal-sym x s here), append-IsUnique x ss there u.1)

pub find_signal-has_key :
    (k : SignalKey) (ss : List Signal) (s : Signal) → find_signal k ss ≡ some s → has_key k s ≡ true
find_signal-has_key k [] s e = absurd (find_signal-nil k s e)
find_signal-has_key k (x ∷ ss) s e = elim (find_signal-cases k x ss s e) [
  | inl (h, same) ↦ subst (λ y. has_key k y ≡ true) same h
  | inr (_, later) ↦ find_signal-has_key k ss s later
]
