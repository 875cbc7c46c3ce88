-- ===== src/Chain/Outbox/Claim/Laws.antt =====
-- Which jobs a claim leases.
use mathlib.Core.List.{Memᴰ}
use nagarik_signals.Base.{
  ok-injective, ◌||◌, leb→le, Bool, All-keep-All, All-both, All-map_imp, ℕ, ◌≤◌, ◌<◌, ◌≡◌, ◌⊎◌, inl,
  inr, ◌&&◌, true, false, Option, none, some, String, List, [], ◌∷◌, map, length, take, keep, All,
  All-take, All-keep, All-map, length-take-le, length-map, leb, any, ◌==◌, ==_iff, string_eq,
  Result, ok, arith, refl, sym, ap, subst, if◌then◌else◌,
}
use nagarik_signals.Chain.Outbox.Store.{
  JobState, blocked, dead_letter, pending, leased, submitted_unknown, confirming, confirmed, JobRow,
  Database, update_job, find_job, state_eq,
}
use nagarik_signals.Chain.Outbox.Claim.{
  lease_over, waits_for, eligible, leased_row, lease_all, claim_chain_outbox_jobs, claim_exact_job,
  claim_found, reclaimable,
}

module _ {P : Type 0} (owner : String) (limit seconds now : ℕ) (db : Database P) where
  unfoldable pub chosen : List JobRow
  chosen = take limit (keep (eligible now db.jobs) db.jobs)

  pub claim-eq-ok :
      {rows : List JobRow} {db' : Database P}
      → claim_chain_outbox_jobs owner limit seconds now db ≡ ok (rows, db')
      → (rows ≡ map (leased_row owner seconds now) chosen)
        × (db' ≡ record db { jobs = lease_all owner seconds now chosen db.jobs })
        × (15 ≤ seconds)
  unfolding claim_chain_outbox_jobs chosen
  claim-eq-ok h = ground arith

  pub claim-length-le :
      (db' : Database P) (rows : List JobRow)
      → claim_chain_outbox_jobs owner limit seconds now db ≡ ok (rows, db')
      → length rows ≤ limit
  unfolding chosen
  claim-length-le db' rows h = rw (claim-eq-ok h).0 (
      rw (length-map (leased_row owner seconds now) chosen)
        (length-take-le limit (keep (eligible now db.jobs) db.jobs)))

-- The job may be leased at this time.
pub IsDue : ℕ → JobRow → Type 0
IsDue now j =
    ((j.state ≡ pending) ⊎ (j.state ≡ submitted_unknown) ⊎ (j.state ≡ confirming))
      × (j.available_at ≤ now)
    ⊎ ((j.state ≡ leased) × ((t : ℕ) × (j.lease_expires_at ≡ some t) × (t ≤ now)))

-- Every earlier job of the same issue is confirmed.
pub InOrder : List JobRow → JobRow → Type 0
InOrder jobs j =
    All
      (λ p. (p.issue_id ≡ j.issue_id) → (p.chain_sequence < j.chain_sequence) → p.state ≡ confirmed)
      jobs

InOrder-any : (j : JobRow) (jobs : List JobRow) → any (waits_for j) jobs ≡ false → InOrder jobs j
unfolding InOrder
InOrder-any j [] h = tt
InOrder-any j (p ∷ jobs) h = (
  λ same lt. ground (arith, ==_iff p.issue_id j.issue_id, ==_iff p.state confirmed),
  InOrder-any j jobs (ground arith),
)

lease_over-le :
    (now : ℕ) (j : JobRow)
    → lease_over now j ≡ true
    → (t : ℕ) × (j.lease_expires_at ≡ some t) × (t ≤ now)
lease_over-le now j = helper j.lease_expires_at
  where
    helper :
        (e : Option ℕ)
        → (elim e [ none ↦ false | some t ↦ leb t now ]) ≡ true
        → (t : ℕ) × (e ≡ some t) × (t ≤ now)
    helper none h = absurd (cc)
    helper (some t) h = (t, refl, leb→le t now h)

state-IsDue :
    (now : ℕ) (j : JobRow)
    → ((j.state == pending || j.state == submitted_unknown || j.state == confirming)
          && leb j.available_at now
        || j.state == leased && lease_over now j)
      ≡ true
    → IsDue now j
unfolding IsDue
state-IsDue now j h = helper j.state refl h
  where
    helper :
        (s : JobState)
        → j.state ≡ s
        → ((s == pending || s == submitted_unknown || s == confirming) && leb j.available_at now
            || s == leased && lease_over now j)
          ≡ true
        → IsDue now j
    helper pending e h = inl (inl e, leb→le _ now (ground arith))
    helper submitted_unknown e h = inl (inr (inl e), leb→le _ now (ground arith))
    helper confirming e h = inl (inr (inr e), leb→le _ now (ground arith))
    helper leased e h = inr (e, lease_over-le now j h)
    helper confirmed e h = absurd (cc)
    helper blocked e h = absurd (cc)
    helper dead_letter e h = absurd (cc)

eligible-InOrder :
    (now : ℕ) (jobs : List JobRow) (j : JobRow) → eligible now jobs j ≡ true → InOrder jobs j
unfolding eligible
eligible-InOrder now jobs j h = InOrder-any j jobs (ground arith)

eligible-IsDue :
    (now : ℕ) (jobs : List JobRow) (j : JobRow) → eligible now jobs j ≡ true → IsDue now j
unfolding eligible
eligible-IsDue now jobs j h = state-IsDue now j (ground arith)

All-Memᴰ {ℓ κ} :
    {A : Type ℓ} (P : A → Type κ) (xs : List A) → ((x : A) → Memᴰ x xs → P x) → All P xs
All-Memᴰ P [] f = tt
All-Memᴰ P (x ∷ xs) f = (f x (Memᴰ.head refl), All-Memᴰ P xs (λ y m. f y (Memᴰ.tail m)))

-- The row is a job of the table, leased to the owner.
pub record IsClaimed (owner : String) (seconds now : ℕ) (jobs : List JobRow) (row : JobRow)
    : Type 0 where
  pub job : JobRow
  pub member : Memᴰ job jobs
  pub due : IsDue now job
  pub in_order : InOrder jobs job
  pub leased : row ≡ leased_row owner seconds now job

module _ {P : Type 0} (owner : String) (limit seconds now : ℕ) (db : Database P) where
  -- A claim gives at most as many rows as its limit, and each is a job of the table that may be
  -- leased at this time, whose earlier jobs of the same issue are all confirmed, with the lease, the
  -- owner and one attempt more.
  pub claim-IsClaimed :
      (rows : List JobRow) (db' : Database P)
      → claim_chain_outbox_jobs owner limit seconds now db ≡ ok (rows, db')
      → (length rows ≤ limit) × All (IsClaimed owner seconds now db.jobs) rows
  unfolding chosen
  claim-IsClaimed rows db' h =
      let kept = keep (eligible now db.jobs) db.jobs in
      let both =
        All-both (λ j. Memᴰ j db.jobs) (λ j. eligible now db.jobs j ≡ true) kept
          (All-keep-All _ (eligible now db.jobs) db.jobs (All-Memᴰ _ db.jobs (λ x m. m)))
          (All-keep (eligible now db.jobs) db.jobs) in
      (
        claim-length-le owner limit seconds now db db' rows h,
        subst (All (IsClaimed owner seconds now db.jobs))
            (sym (claim-eq-ok owner limit seconds now db h).0)
            (All-map _ (leased_row owner seconds now) (take limit kept) (
              All-map_imp _ _ (take limit kept)
                (λ j m. record {
                  job = j;
                  member = m.0;
                  due = eligible-IsDue now db.jobs j m.1;
                  in_order = eligible-InOrder now db.jobs j m.1;
                  leased = refl;
                })
                (All-take _ limit kept both))),
      )

-- A claim of one job leaves the tables as they are, or leases the row.
pub claim_exact_job-eq-ok :
    {P : Type 0} (owner id : String) (now : ℕ) (db : Database P) {row : Option JobRow}
    {db' : Database P}
    → claim_exact_job owner id now db ≡ ok (row, db')
    → (db' ≡ db)
      ⊎ ((j : JobRow) × (find_job id db.jobs ≡ some j)
          × (reclaimable now j ≡ true)
          × (row ≡ some (leased_row owner 60 now j))
          × (db' ≡ record db { jobs = update_job j.id (leased_row owner 60 now) db.jobs }))
unfolding claim_exact_job claim_found
claim_exact_job-eq-ok {P} owner id now db {row} {db'} h = helper (find_job id db.jobs) refl h
  where
    Goal : Type 0
    Goal =
        (db' ≡ db)
        ⊎ ((j : JobRow) × (find_job id db.jobs ≡ some j)
            × (reclaimable now j ≡ true)
            × (row ≡ some (leased_row owner 60 now j))
            × (db' ≡ record db { jobs = update_job j.id (leased_row owner 60 now) db.jobs }))

    found :
        (j : JobRow)
        → find_job id db.jobs ≡ some j
        → (b : Bool) → reclaimable now j ≡ b
        → if◌then◌else◌ {A = Result (Option JobRow × Database P)} b
            (ok (
              some (leased_row owner 60 now j),
              record db { jobs = update_job j.id (leased_row owner 60 now) db.jobs },
            ))
            (ok (none, db))
          ≡ ok (row, db')
        → Goal
    found j e true r h =
        let same = sym (ok-injective h) in inr (j, e, r, ap (λ p. p.0) same, ap (λ p. p.1) same)
    found j e false r h = inl (ap (λ p. p.1) (sym (ok-injective h)))

    helper :
        (m : Option JobRow)
        → find_job id db.jobs ≡ m
        → claim_found owner now m db ≡ ok (row, db')
        → Goal
    helper none e h = inl (ap (λ p. p.1) (sym (ok-injective h)))
    helper (some j) e h = found j e (reclaimable now j) refl h
