-- ===== src/Chain/Outbox/Store/Growth.antt =====
-- Tables that only grow: issues whose counts never go back, bindings that are never changed.
use nagarik_signals.Base.{
  ◌≡◌, ◌≤◌, refl, ap, ◌∙◌, Bool, true, false, ◌||◌, inl, inr, some, String, List, [], ◌∷◌, ◌==◌,
  ==_iff, string_eq, nat_eq, arith, if◌then◌else◌, any, Bool-cases,
}
use nagarik_signals.Chain.Outbox.Store.{
  IssueRow, BindingRow, find_issue, update_issue, find_binding,
}
use nagarik_signals.Chain.Outbox.Store.Inversion.{find_issue-update_issue}

-- Every issue is still there, with at least its count of confirmed updates.
unfoldable pub Grows : List IssueRow → List IssueRow → Type 0
Grows xs ys =
    (id : String) (i : IssueRow)
    → find_issue id xs ≡ some i
    → (j : IssueRow) × (find_issue id ys ≡ some j)
      × (i.confirmed_update_count ≤ j.confirmed_update_count)

-- Every event that had a binding has the same one.
unfoldable pub Persist : List BindingRow → List BindingRow → Type 0
Persist xs ys =
    (event : String) (b : BindingRow)
    → find_binding event xs ≡ some b
    → find_binding event ys ≡ some b

find_issue-update_other :
    (id other : String) (f : IssueRow → IssueRow) (is : List IssueRow)
    → ((j : IssueRow) → (f j).id ≡ j.id)
    → (other == id) ≡ false
    → find_issue id (update_issue other f is) ≡ find_issue id is
unfolding find_issue update_issue
find_issue-update_other id other f [] keeps h = refl
find_issue-update_other id other f (j ∷ is) keeps h =
    helper (j.id == other) refl (find_issue-update_other id other f is keeps h)
  where
    helper :
        (b : Bool)
        → (j.id == other) ≡ b
        → find_issue id (update_issue other f is) ≡ find_issue id is
        → find_issue id (if b then f j ∷ update_issue other f is else j ∷ update_issue other f is)
          ≡ find_issue id (j ∷ is)
    helper true e ih =
        let same : j.id ≡ other = (==_iff j.id other).0 e in
        let a : (j.id == id) ≡ false = ap (λ k. k == id) same ∙ h in
        let b : ((f j).id == id) ≡ false = ap (λ k. k == id) (keeps j) ∙ a in rw (a, b) ih
    helper false e ih = rw ih

pub Grows-refl : (xs : List IssueRow) → Grows xs xs
unfolding Grows
Grows-refl xs id i h = (i, h, omega arith)

pub Grows-trans : (xs ys zs : List IssueRow) → Grows xs ys → Grows ys zs → Grows xs zs
unfolding Grows
Grows-trans xs ys zs a b id i h =
    let (j, e, le) = a id i h in let (k, e', le') = b id j e in (k, e', omega arith)

pub Grows-update :
    (other : String) (f : IssueRow → IssueRow) (xs : List IssueRow)
    → ((j : IssueRow) → (f j).id ≡ j.id)
    → ((j : IssueRow)
        → find_issue other xs ≡ some j
        → j.confirmed_update_count ≤ (f j).confirmed_update_count)
    → Grows xs (update_issue other f xs)
unfolding Grows
Grows-update other f xs keeps le id i h = elim (Bool-cases (other == id)) [
  | inl e ↦
      let same : other ≡ id = (==_iff other id).0 e in
      (
        f i,
        ap (λ o. find_issue id (update_issue o f xs)) same
            ∙ find_issue-update_issue id f xs keeps h,
        le i (ap (λ o. find_issue o xs) same ∙ h),
      )
  | inr e ↦ (i, find_issue-update_other id other f xs keeps e ∙ h, omega arith)
]

pub any-find_binding :
    (event : String) (bs : List BindingRow) {b : BindingRow}
    → find_binding event bs ≡ some b
    → any (λ c. c.event_id == event) bs ≡ true
unfolding find_binding
any-find_binding event [] h = absurd (cc)
any-find_binding event (c ∷ bs) h =
    helper (c.event_id == event) h (λ b k. any-find_binding event bs {b = b} k)
  where
    helper :
        (t : Bool) {b : BindingRow}
        → (if t then some c else find_binding event bs) ≡ some b
        → ((b : BindingRow)
            → find_binding event bs ≡ some b
            → any (λ c. c.event_id == event) bs ≡ true)
        → (t || any (λ c. c.event_id == event) bs) ≡ true
    helper true h ih = refl
    helper false {b} h ih = ih b h

pub Persist-refl : (xs : List BindingRow) → Persist xs xs
unfolding Persist
Persist-refl xs event b h = h

pub Persist-trans : (xs ys zs : List BindingRow) → Persist xs ys → Persist ys zs → Persist xs zs
unfolding Persist
Persist-trans xs ys zs a b event c h = b event c (a event c h)
