-- ===== src/Services/Issues/Inversion.antt =====
-- What an insert that succeeds has done, for the tables of the operators' services.
use nagarik_signals.Base.{
  ◌≡◌, refl, sym, ◌∙◌, Bool, true, false, List, [], ◌∷◌, ◌++◌, any, ok, err, error, if◌then◌else◌,
  ok-injective, Option, none, some, ap,
}
use nagarik_signals.Services.Issues.{Issue, Version, insert_row, paired, find_version, with_version}

pub insert_row-eq-ok :
    {A : Type 0} (clash : A → A → Bool) (row : A) (rows rows' : List A)
    → insert_row clash row rows ≡ ok rows'
    → (any (clash row) rows ≡ false) × (rows' ≡ rows ++ (row ∷ []))
unfolding insert_row
insert_row-eq-ok clash row rows rows' h = helper (any (clash row) rows) h
  where
    helper :
        (b : Bool)
        → (if b then err (error "unique_violation") else ok (rows ++ (row ∷ []))) ≡ ok rows'
        → (b ≡ false) × (rows' ≡ rows ++ (row ∷ []))
    helper true h = cc
    helper false h = (refl, sym (ok-injective h))

pub some-injective : {A : Type 0} {a b : A} → some a ≡ some b → a ≡ b
some-injective e = cc

no_value : {A : Type 0} {a : A} → ¬ (none ≡ some a)
no_value e = cc

paired-eq-some :
    (i : Issue) (o : Option Version) (i' : Issue) (v : Version)
    → paired i o ≡ some (i', v)
    → (i ≡ i') × (o ≡ some v)
paired-eq-some i none i' v h = absurd (no_value {a = (i', v)} h)
paired-eq-some i (some w) i' v h = let e = pair h in (ap (λ p. p.0) e, ap (λ p. some p.1) e)
  where
    pair :
        ◌≡◌ {A = Option (Issue × Version)} (some (i, w)) (some (i', v))
        → ◌≡◌ {A = Issue × Version} (i, w) (i', v)
    pair k = some-injective k

-- The two rows of a join.
pub with_version-eq-some :
    (o : Option Issue) (vs : List Version) (i : Issue) (v : Version)
    → with_version o vs ≡ some (i, v)
    → (o ≡ some i) × (find_version i.current_version_id vs ≡ some v)
unfolding with_version
with_version-eq-some none vs i v h = absurd (no_value {a = (i, v)} h)
with_version-eq-some (some j) vs i v h =
    let (e, f) = paired-eq-some j (find_version j.current_version_id vs) i v h in
    (ap some e, ap (λ k. find_version k.current_version_id vs) (sym e) ∙ f)

pub with_version-some :
    (o : Option Issue) (vs : List Version) (i : Issue) (v : Version)
    → o ≡ some i
    → find_version i.current_version_id vs ≡ some v
    → with_version o vs ≡ some (i, v)
unfolding with_version
with_version-some o vs i v e f = ap (λ k. with_version k vs) e ∙ ap (paired i) f
