-- ===== src/Chain/Outbox/Claim/Apart.antt =====
-- Two leases of one job never overlap.
use nagarik_signals.Base.{
  Bool, All-keep-All, All-both, All-map_imp, ℕ, ◌+◌, ◌*◌, ◌<◌, ◌≡◌, ◌≢◌, true, false, some, String,
  List, [], ◌∷◌, map, take, keep, All, All-take, All-keep, All-map, ◌==◌, ==_iff, string_eq, ok,
  arith, refl, sym, subst, if◌then◌else◌,
}
use nagarik_signals.Chain.Outbox.Store.{leased, JobRow, Database, update_job, state_eq}
use nagarik_signals.Chain.Outbox.Claim.{eligible, leased_row, lease_all, claim_chain_outbox_jobs}
use nagarik_signals.Chain.Outbox.Claim.Laws.{claim-eq-ok, chosen}

-- A row that is leased until a time.
LeasedUntil : ℕ → JobRow → Type 0
LeasedUntil t j = (j.state ≡ leased) × (j.lease_expires_at ≡ some t)

-- Each row with an identifier is leased until a time.
Marked : ℕ → String → List JobRow → Type 0
Marked t id = All (λ j. (j.id == id) ≡ true → LeasedUntil t j)

module _ (owner : String) (seconds now : ℕ) where
  lease_end : ℕ
  lease_end = now + seconds * 1_000

  update-Marked :
      (id : String) (js : List JobRow)
      → Marked lease_end id (update_job id (leased_row owner seconds now) js)
  unfolding update_job LeasedUntil Marked lease_end
  update-Marked id [] = tt
  update-Marked id (j ∷ js) = helper (j.id == id) refl (update-Marked id js)
    where
      rest : List JobRow
      rest = update_job id (leased_row owner seconds now) js

      helper :
          (b : Bool)
          → (j.id == id) ≡ b
          → Marked lease_end id rest
          → Marked lease_end id (if b then leased_row owner seconds now j ∷ rest else j ∷ rest)
      helper true e ih = (λ _. (refl, refl), ih)
      helper false e ih = (λ e'. absurd (cc), ih)

  update-Marked-Marked :
      (id other : String) (js : List JobRow)
      → Marked lease_end id js
      → Marked lease_end id (update_job other (leased_row owner seconds now) js)
  unfolding update_job LeasedUntil Marked lease_end
  update-Marked-Marked id other [] h = tt
  update-Marked-Marked id other (j ∷ js) h =
      helper (j.id == other) (update-Marked-Marked id other js h.1)
    where
      rest : List JobRow
      rest = update_job other (leased_row owner seconds now) js

      helper :
          (b : Bool)
          → Marked lease_end id rest
          → Marked lease_end id (if b then leased_row owner seconds now j ∷ rest else j ∷ rest)
      helper true ih = (λ _. (refl, refl), ih)
      helper false ih = (h.0, ih)

  lease_all-Marked :
      (id : String) (cs js : List JobRow)
      → Marked lease_end id js
      → Marked lease_end id (lease_all owner seconds now cs js)
  unfolding lease_all
  lease_all-Marked id [] js h = h
  lease_all-Marked id (c ∷ cs) js h = lease_all-Marked id cs _ (update-Marked-Marked id c.id js h)

  lease_all-All :
      (cs js : List JobRow)
      → All (λ c. Marked lease_end c.id (lease_all owner seconds now cs js)) cs
  unfolding lease_all
  lease_all-All [] js = tt
  lease_all-All (c ∷ cs) js =
      (lease_all-Marked c.id cs _ (update-Marked c.id js), lease_all-All cs _)

eligible-LeasedUntil :
    (now t : ℕ) (jobs : List JobRow) (j : JobRow)
    → now < t
    → eligible now jobs j ≡ true
    → LeasedUntil t j
    → ⊥
unfolding eligible LeasedUntil
eligible-LeasedUntil now t jobs j lt h (s, e) = let h' = rw (s, e) at h in ground arith

-- What is claimed at a time at which each row with an identifier is leased has other identifiers.
Marked-apart :
    (t now : ℕ) (js : List JobRow) (id : String) (owner : String) (limit seconds : ℕ)
    → now < t
    → Marked t id js
    → All
        (λ b. id ≢ b.id)
        (map (leased_row owner seconds now) (take limit (keep (eligible now js) js)))
unfolding Marked
Marked-apart t now js id owner limit seconds lt m =
    let kept = keep (eligible now js) js in
    let both =
      All-both _ _ kept (All-keep-All _ (eligible now js) js m) (All-keep (eligible now js) js) in
    All-map _ (leased_row owner seconds now) (take limit kept) (
      All-take _ limit kept (
        All-map_imp _ (λ b. id ≢ b.id) kept
          (λ b q same. eligible-LeasedUntil now t js b lt q.1 (q.0 ((==_iff b.id id).1 (sym same))))
          both))

module _ {P : Type 0} (owner other : String) (limit limit' seconds seconds' now now' : ℕ)
    (db : Database P) where
  -- While the leases of a claim run, a claim by any worker on the tables that the first one left
  -- gives none of its jobs.
  pub claim-claim-apart :
      (rows rows' : List JobRow) (db' db'' : Database P)
      → claim_chain_outbox_jobs owner limit seconds now db ≡ ok (rows, db')
      → claim_chain_outbox_jobs other limit' seconds' now' db' ≡ ok (rows', db'')
      → now' < now + seconds * 1_000
      → All (λ a. All (λ b. a.id ≢ b.id) rows') rows
  unfolding chosen lease_end
  claim-claim-apart rows rows' db' db'' h h' lt =
      let (e, at, _) = claim-eq-ok owner limit seconds now db h in
      let (e', _, _) = claim-eq-ok other limit' seconds' now' db' h' in
      let first = take limit (keep (eligible now db.jobs) db.jobs) in
      let marked =
        subst (λ d. All (λ c. Marked (now + seconds * 1_000) c.id d.jobs) first) (sym at)
          (lease_all-All owner seconds now first db.jobs) in
      let apart = All-map _ (leased_row owner seconds now) first (
        All-map_imp _
          (λ c.
            All (λ b. c.id ≢ b.id)
              (map (leased_row other seconds' now')
                (take limit' (keep (eligible now' db'.jobs) db'.jobs))))
          first (λ c m. Marked-apart _ now' db'.jobs c.id other limit' seconds' lt m) marked) in
      rw (e, e') apart
