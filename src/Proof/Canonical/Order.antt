-- ===== src/Proof/Canonical/Order.antt =====
-- The canonical text does not depend on the order in which an object's members are listed.
use nagarik_signals.Base.{
  ℕ, ◌≡◌, ◌≢◌, inl, inr, refl, sym, ap, ◌∙◌, true, false, String, List, [], ◌∷◌, arith, Bool-cases,
}
use nagarik_signals.Base.Text.{codes}
use nagarik_signals.Chain.Protocol.{Hashing}
use nagarik_signals.Proof.Canonical.{
  Json, object, Members, member, Entry, in_order, insert, sort, canonicalize, canonical_members,
  json_hash,
}

in_order-total : (xs ys : List ℕ) → in_order xs ys ≡ false → in_order ys xs ≡ true
unfolding in_order
in_order-total [] ys h = ground arith
in_order-total (x ∷ xs) [] h = refl
in_order-total (x ∷ xs) (y ∷ ys) h = ground (arith, in_order-total xs ys)

in_order-antisym : (xs ys : List ℕ) → in_order xs ys ≡ true → in_order ys xs ≡ true → xs ≡ ys
unfolding in_order
in_order-antisym [] [] h k = refl
in_order-antisym [] (y ∷ ys) h k = ground arith
in_order-antisym (x ∷ xs) [] h k = ground arith
in_order-antisym (x ∷ xs) (y ∷ ys) h k = ground (arith, in_order-antisym xs ys)

in_order_trans :
    (xs ys zs : List ℕ) → in_order xs ys ≡ true → in_order ys zs ≡ true → in_order xs zs ≡ true
unfolding in_order
in_order_trans [] ys zs h k = refl
in_order_trans (x ∷ xs) [] zs h k = ground arith
in_order_trans (x ∷ xs) (y ∷ ys) [] h k = ground arith
in_order_trans (x ∷ xs) (y ∷ ys) (z ∷ zs) h k = ground (arith, in_order_trans xs ys zs)

insert_before :
    (e f : Entry) (fs : List Entry)
    → in_order (codes e.0) (codes f.0) ≡ true
    → insert e (f ∷ fs) ≡ e ∷ f ∷ fs
unfolding insert
insert_before e f fs h = rw h

insert_after :
    (e f : Entry) (fs : List Entry)
    → in_order (codes e.0) (codes f.0) ≡ false
    → insert e (f ∷ fs) ≡ f ∷ insert e fs
unfolding insert
insert_after e f fs h = rw h

-- The first of two entries that are put before a third one.
insert-insert-both :
    (a b c : Entry) (es : List Entry)
    → in_order (codes a.0) (codes b.0) ≡ true
    → in_order (codes b.0) (codes a.0) ≡ false
    → in_order (codes a.0) (codes c.0) ≡ true
    → in_order (codes b.0) (codes c.0) ≡ true
    → insert a (insert b (c ∷ es)) ≡ insert b (insert a (c ∷ es))
insert-insert-both a b c es ab ba ac bc = rw (
  insert_before b c es bc,
  insert_before a c es ac,
  insert_before a b (c ∷ es) ab,
  insert_after b a (c ∷ es) ba,
  insert_before b c es bc,
)

insert-insert :
    (a b : Entry) (es : List Entry)
    → in_order (codes a.0) (codes b.0) ≡ true
    → in_order (codes b.0) (codes a.0) ≡ false
    → insert a (insert b es) ≡ insert b (insert a es)
insert-insert a b [] ab ba = unfold insert in rw (ab, ba)
insert-insert a b (c ∷ es) ab ba = elim (Bool-cases (in_order (codes b.0) (codes c.0))) [
  | inl bc ↦ insert-insert-both a b c es ab ba (in_order_trans _ _ _ ab bc) bc
  | inr bc ↦ elim (Bool-cases (in_order (codes a.0) (codes c.0))) [
    | inl ac ↦ rw (
      insert_after b c es bc,
      insert_before a c es ac,
      insert_before a c (insert b es) ac,
      insert_after b a (c ∷ es) ba,
      insert_after b c es bc,
    )
    | inr ac ↦ rw (
      insert_after b c es bc,
      insert_after a c es ac,
      insert_after a c (insert b es) ac,
      insert_after b c (insert a es) bc,
      insert-insert a b es ab ba,
    )
  ]
]

sort-swap :
    (a b : Entry) (es : List Entry)
    → codes a.0 ≢ codes b.0
    → insert a (insert b es) ≡ insert b (insert a es)
sort-swap a b es differ = elim (Bool-cases (in_order (codes a.0) (codes b.0))) [
  | inl ab ↦ elim (Bool-cases (in_order (codes b.0) (codes a.0))) [
    | inl ba ↦ absurd (differ (in_order-antisym _ _ ab ba))
    | inr ba ↦ insert-insert a b es ab ba
  ]
  | inr ab ↦ sym (insert-insert b a es (in_order-total _ _ ab) ab)
]

-- The same members, listed in another order.
pub data Reordered : Members → Members → Type 0 where
  same : {ms : Members} → Reordered ms ms
  behind :
      {k : String} {v : Json} {ms ns : Members}
      → Reordered ms ns
      → Reordered (member k v ms) (member k v ns)
  swap :
      {k l : String} {v w : Json} {ms : Members}
      → codes k ≢ codes l
      → Reordered (member k v (member l w ms)) (member l w (member k v ms))
  chain : {ms ns os : Members} → Reordered ms ns → Reordered ns os → Reordered ms os

sort-canonical_members :
    {ms ns : Members} → Reordered ms ns → sort (canonical_members ms) ≡ sort (canonical_members ns)
unfolding sort canonical_members
sort-canonical_members same = refl
sort-canonical_members (behind {k} {v} r) =
    ap (insert (k, canonicalize v)) (sort-canonical_members r)
sort-canonical_members (swap {k} {l} {v} {w} {ms} differ) =
    sort-swap (k, canonicalize v) (l, canonicalize w) (sort (canonical_members ms)) differ
sort-canonical_members (chain r q) = sort-canonical_members r ∙ sort-canonical_members q

-- Two objects with the same members in different orders have the same canonical text, and so the same
-- digest, whatever the hash. Reordering exchanges neighbours whose keys differ, at any place and any
-- number of times.
pub canonicalize-Reordered :
    (h : Hashing) (ms ns : Members)
    → Reordered ms ns
    → (canonicalize (object ms) ≡ canonicalize (object ns))
      × (json_hash h (object ms) ≡ json_hash h (object ns))
unfolding canonicalize json_hash
canonicalize-Reordered h ms ns r = let e = sort-canonical_members r in (rw e refl, rw e refl)
