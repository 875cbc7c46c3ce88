-- ===== src/Services/Issues/Changed.antt =====
-- What a lookup gives after the rows of issues and versions have changed.
use nagarik_signals.Base.{
  ◌≡◌, sym, ap, ◌∙◌, refl, Bool, false, some, String, List, [], ◌∷◌, ◌++◌, ◌==◌, ==_refl, ==_sym,
  string_eq, ◌&&◌, ◌||◌, any, arith, nat_eq,
}
use nagarik_signals.Base.Lookup.{first, change, first-change_some, first-append}
use nagarik_signals.Services.Publication.{same_version}
use nagarik_signals.Services.Issues.{Issue, Version, find_v2_issue, find_version, change_issue}

abbrev is_v2_issue : (public_id organization_id : String) → Issue → Bool
is_v2_issue public_id organization_id i =
    i.public_id == public_id && i.organization_id == organization_id && i.is_v2

find_v2_issue-first :
    (p o : String) (is : List Issue) → find_v2_issue p o is ≡ first (is_v2_issue p o) is
unfolding find_v2_issue
find_v2_issue-first p o [] = refl
find_v2_issue-first p o (i ∷ is) = rw (find_v2_issue-first p o is)

pub change_issue-change :
    (id : String) (f : Issue → Issue) (is : List Issue)
    → change_issue id f is ≡ change (λ i. i.id == id) f is
unfolding change_issue
change_issue-change id f [] = refl
change_issue-change id f (i ∷ is) = rw (change_issue-change id f is)

find_version-first :
    (id : String) (vs : List Version) → find_version id vs ≡ first (λ v. v.id == id) vs
unfolding find_version
find_version-first id [] = refl
find_version-first id (v ∷ vs) = rw (find_version-first id vs)

-- The changed issue is found where the issue was, if the change keeps what it is found by.
pub find_v2_issue-change_issue :
    (p o : String) (f : Issue → Issue) (is : List Issue) (i : Issue)
    → ((j : Issue) → is_v2_issue p o (f j) ≡ is_v2_issue p o j)
    → find_v2_issue p o is ≡ some i
    → find_v2_issue p o (change_issue i.id f is) ≡ some (f i)
find_v2_issue-change_issue p o f is i keeps h =
    find_v2_issue-first p o (change_issue i.id f is)
    ∙ ap (first (is_v2_issue p o)) (change_issue-change i.id f is)
    ∙ first-change_some (is_v2_issue p o) (λ j. j.id == i.id) f is i keeps
        (sym (find_v2_issue-first p o is) ∙ h) (==_refl i.id)

any-false :
    {A : Type 0} (p q : A → Bool) (xs : List A)
    → ((a : A) → p a ≡ false → q a ≡ false)
    → any p xs ≡ false
    → any q xs ≡ false
any-false p q [] h e = refl
any-false p q (x ∷ xs) h e = ground (arith, h x, any-false p q xs h)

-- A version that clashes with none is found once it is added.
pub find_version-append :
    (vs : List Version) (v : Version)
    → any (same_version v) vs ≡ false
    → find_version v.id (vs ++ (v ∷ [])) ≡ some v
find_version-append vs v h =
    find_version-first v.id (vs ++ (v ∷ []))
    ∙ first-append (λ w. w.id == v.id) vs v
        (any-false (same_version v) (λ w. w.id == v.id) vs
          (λ w e. ==_sym w.id v.id ∙ left (v.id == w.id) _ e) h)
        (==_refl v.id)
  where
    left : (a b : Bool) → (a || b) ≡ false → a ≡ false
    left a b e = ground arith
