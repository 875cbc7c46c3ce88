-- ===== src/Chain/Outbox/Steps/Leases.antt =====
-- The rows of the jobs agree with their states, whatever steps are taken.
use nagarik_signals.Base.{
  ◌≡◌, ◌≢◌, refl, sym, ap, subst, ℕ, Bool, true, false, ◌⊎◌, inl, inr, none, some, String, List, [],
  ◌∷◌, map, ◌==◌, ==_iff, string_eq, option_eq, arith, if◌then◌else◌, All,
}
use nagarik_signals.Chain.Protocol.{Hashing}
use nagarik_signals.Chain.Signer.{ChainProfile}
use nagarik_signals.Chain.Outbox.Store.{
  leased, confirming, confirmed, state_eq, JobRow, Database, find_job, update_job,
}
use nagarik_signals.Chain.Outbox.Transactions.{
  WorkerJob, Projector, awaits, failed_row, submitted_row, unknown_row, conflict_row, confirmed_row,
}
use nagarik_signals.Chain.Outbox.Transactions.Frames.{
  IsRecorded, mark_submitted-IsRecorded, record_invalid_claim-IsRecorded,
  record_submitted_unknown-IsRecorded, record_post_submit_conflict-IsRecorded,
  record_projection_deferred-IsRecorded, record_failure-IsRecorded,
}
use nagarik_signals.Chain.Outbox.Claim.{leased_row, lease_all}
use nagarik_signals.Chain.Outbox.Claim.Laws.{claim-eq-ok, chosen, claim_exact_job-eq-ok}
use nagarik_signals.Chain.Outbox.Finalize.Effects.{finalize_confirmed-IsCommitted}
use nagarik_signals.Chain.Outbox.Steps.{Step, Reach, start, later}

-- A leased row names its holder and its end, another row names neither, and a row that waits for a
-- confirmation or has one names its signature.
pub record IsSound (j : JobRow) : Type 0 where
  pub held : j.state ≡ leased → (j.lease_owner ≢ none) × (j.lease_expires_at ≢ none)
  pub free : j.state ≢ leased → (j.lease_owner ≡ none) × (j.lease_expires_at ≡ none)
  pub signed : (j.state ≡ confirming) ⊎ (j.state ≡ confirmed) → j.submitted_signature ≢ none

abbrev ids : List JobRow → List String
ids js = map (λ j. j.id) js

unfoldable pub Distinct : List String → Type 0
Distinct [] = Unit
Distinct (x ∷ xs) = All (λ y. x ≢ y) xs × Distinct xs

-- No two rows have one identifier, and every row agrees with its state.
unfoldable pub IsConsistent : List JobRow → Type 0
IsConsistent js = Distinct (ids js) × All IsSound js

update-ids :
    (id : String) (f : JobRow → JobRow) (js : List JobRow)
    → ((j : JobRow) → (f j).id ≡ j.id)
    → ids (update_job id f js) ≡ ids js
unfolding update_job
update-ids id f [] keeps = refl
update-ids id f (j ∷ js) keeps = helper (j.id == id) (update-ids id f js keeps)
  where
    helper :
        (b : Bool)
        → ids (update_job id f js) ≡ ids js
        → ids (if b then f j ∷ update_job id f js else j ∷ update_job id f js) ≡ ids (j ∷ js)
    helper true ih = rw (keeps j, ih)
    helper false ih = rw ih

update-absent :
    (id : String) (f : JobRow → JobRow) (js : List JobRow)
    → All (λ y. id ≢ y) (ids js)
    → update_job id f js ≡ js
unfolding update_job
update-absent id f [] h = refl
update-absent id f (j ∷ js) h = helper (j.id == id) refl (update-absent id f js h.1)
  where
    helper :
        (b : Bool)
        → (j.id == id) ≡ b
        → update_job id f js ≡ js
        → (if b then f j ∷ update_job id f js else j ∷ update_job id f js) ≡ j ∷ js
    helper true e ih = absurd (h.0 (sym ((==_iff j.id id).0 e)))
    helper false e ih = ap (λ xs. j ∷ xs) ih

update-All :
    (id : String) (f : JobRow → JobRow) (js : List JobRow)
    → Distinct (ids js)
    → All IsSound js
    → ((j : JobRow) → find_job id js ≡ some j → IsSound j → IsSound (f j))
    → All IsSound (update_job id f js)
unfolding update_job find_job Distinct
update-All id f [] d h k = tt
update-All id f (j ∷ js) d h k = helper (j.id == id) refl (λ k'. update-All id f js d.1 h.1 k')
  where
    helper :
        (b : Bool)
        → (j.id == id) ≡ b
        → (((j : JobRow) → find_job id js ≡ some j → IsSound j → IsSound (f j))
            → All IsSound (update_job id f js))
        → All IsSound (if b then f j ∷ update_job id f js else j ∷ update_job id f js)
    helper true e ih =
        let same = (==_iff j.id id).0 e in
        (
          k j (rw e) h.0,
          subst (All IsSound)
              (sym (update-absent id f js (subst (λ i. All (λ y. i ≢ y) (ids js)) same d.0))) h.1,
        )
    helper false e ih = (h.0, ih (λ i found s. k i (rw e found) s))

update-IsConsistent :
    (id : String) (f : JobRow → JobRow) (js : List JobRow)
    → ((j : JobRow) → (f j).id ≡ j.id)
    → ((j : JobRow) → find_job id js ≡ some j → IsSound j → IsSound (f j))
    → IsConsistent js
    → IsConsistent (update_job id f js)
unfolding IsConsistent
update-IsConsistent id f js keeps k (d, h) =
    (subst Distinct (sym (update-ids id f js keeps)) d, update-All id f js d h k)

-- The updates of a row that set all that the state asks for.
leased_row-IsSound :
    (owner : String) (seconds now : ℕ) (j : JobRow) → IsSound (leased_row owner seconds now j)
leased_row-IsSound owner seconds now j = record {
  held = λ _. (λ h. cc, λ h. cc);
  free = λ h. absurd (h refl);
  signed = λ h. absurd (elim h [ inl e ↦ cc | inr e ↦ cc ]);
}

idle-IsSound :
    (j : JobRow)
    → j.state ≢ leased
    → j.state ≢ confirming
    → j.state ≢ confirmed
    → j.lease_owner ≡ none
    → j.lease_expires_at ≡ none
    → IsSound j
idle-IsSound j a b c owner end = record {
  held = λ h. absurd (a h);
  free = λ _. (owner, end);
  signed = λ h. absurd (elim h [ inl e ↦ b e | inr e ↦ c e ]);
}

failed_row-IsSound :
    (job : WorkerJob) (c : String) (dead : Bool) (now : ℕ) (j : JobRow)
    → IsSound (failed_row job c dead now j)
failed_row-IsSound job c true now j = idle-IsSound _ (λ h. cc) (λ h. cc) (λ h. cc) refl refl
failed_row-IsSound job c false now j = idle-IsSound _ (λ h. cc) (λ h. cc) (λ h. cc) refl refl

submitted_row-IsSound : (g : String) (now : ℕ) (j : JobRow) → IsSound (submitted_row g now j)
submitted_row-IsSound g now j = record {
  held = λ h. cc;
  free = λ _. (refl, refl);
  signed = λ _ h. cc;
}

confirmed_row-IsSound : (g : String) (now : ℕ) (j : JobRow) → IsSound (confirmed_row g now j)
confirmed_row-IsSound g now j = record {
  held = λ h. cc;
  free = λ _. (refl, refl);
  signed = λ _ h. cc;
}

-- A row that waits for a confirmation holds no lease.
awaits-free :
    (g id : String) (js : List JobRow) (j : JobRow)
    → awaits g (find_job id js) ≡ true
    → find_job id js ≡ some j
    → IsSound j
    → (j.lease_owner ≡ none) × (j.lease_expires_at ≡ none)
awaits-free g id js j held found s =
    let w : awaits g (some j) ≡ true = rw found at held in
    let e : j.state ≡ confirming = ground (arith, ==_iff j.state confirming) in s.free (λ l. cc)

module _ {P : Type 0} (h : Hashing) (profile : ChainProfile) (project : Projector P) where
  recorded-IsConsistent :
      (held : Bool) (id : String) (f : JobRow → JobRow) (db end : Database P)
      → IsRecorded held id f db end
      → ((j : JobRow) → (f j).id ≡ j.id)
      → ((j : JobRow) → find_job id db.jobs ≡ some j → IsSound j → IsSound (f j))
      → IsConsistent db.jobs
      → IsConsistent end.jobs
  recorded-IsConsistent held id f db end r keeps k c =
      subst IsConsistent (sym r.jobs) (update-IsConsistent id f db.jobs keeps k c)

  lease_all-IsConsistent :
      (owner : String) (seconds now : ℕ) (cs js : List JobRow)
      → IsConsistent js
      → IsConsistent (lease_all owner seconds now cs js)
  unfolding lease_all
  lease_all-IsConsistent owner seconds now [] js c = c
  lease_all-IsConsistent owner seconds now (x ∷ cs) js c =
      lease_all-IsConsistent owner seconds now cs _ (
        update-IsConsistent x.id (leased_row owner seconds now) js (λ j. refl)
          (λ j _ _. leased_row-IsSound owner seconds now j) c)

  step-IsConsistent :
      {db end : Database P}
      → Step h profile project db end
      → IsConsistent db.jobs
      → IsConsistent end.jobs
  step-IsConsistent {db} {end} (Step.claimed owner limit seconds now rows e) c =
      let (_, at, _) = claim-eq-ok owner limit seconds now db e in
      subst (λ d. IsConsistent d.jobs) (sym at)
        (lease_all-IsConsistent owner seconds now (chosen owner limit seconds now db) db.jobs c)
  step-IsConsistent {db} {end} (Step.claimed_exactly owner id now row e) c =
      elim (claim_exact_job-eq-ok owner id now db e) [
        | inl at ↦ subst (λ d. IsConsistent d.jobs) (sym at) c
        | inr (j, _, _, _, at) ↦
            subst (λ d. IsConsistent d.jobs) (sym at)
              (update-IsConsistent j.id (leased_row owner 60 now) db.jobs (λ j. refl)
                (λ j _ _. leased_row-IsSound owner 60 now j) c)
      ]
  step-IsConsistent {db} {end} (Step.invalid row now e) c =
      recorded-IsConsistent _ row.id _ db end (record_invalid_claim-IsRecorded row now db end e)
        (λ j. refl) (λ j _ _. idle-IsSound _ (λ h. cc) (λ h. cc) (λ h. cc) refl refl) c
  step-IsConsistent {db} {end} (Step.failed job category r now dead p e) c =
      recorded-IsConsistent _ job.row.id _ db end
        (record_failure-IsRecorded job category r now dead db end e).1 (λ j. refl)
        (λ j _ _. failed_row-IsSound job category dead now j) c
  step-IsConsistent {db} {end} (Step.submitted job g now p e) c =
      recorded-IsConsistent _ job.row.id _ db end (mark_submitted-IsRecorded job g now db end e)
        (λ j. refl) (λ j _ _. submitted_row-IsSound g now j) c
  step-IsConsistent {db} {end} (Step.lost_sight job g now p e) c =
      let r = record_submitted_unknown-IsRecorded job g now db end e in
      recorded-IsConsistent _ job.row.id (unknown_row job now) db end r (λ j. refl)
        (λ j found s.
          let free = awaits-free g job.row.id db.jobs j r.holds found s in
          idle-IsSound _ (λ h. cc) (λ h. cc) (λ h. cc) free.0 free.1)
        c
  step-IsConsistent {db} {end} (Step.conflicted job g category now p e) c =
      let r = record_post_submit_conflict-IsRecorded job g category now db end e in
      recorded-IsConsistent _ job.row.id (conflict_row category now) db end r (λ j. refl)
        (λ j found s.
          let free = awaits-free g job.row.id db.jobs j r.holds found s in
          idle-IsSound _ (λ h. cc) (λ h. cc) (λ h. cc) free.0 free.1)
        c
  step-IsConsistent {db} {end} (Step.deferred job g now p e) c =
      recorded-IsConsistent _ job.row.id _ db end
        (record_projection_deferred-IsRecorded job g now db end e) (λ j. refl)
        (λ j _ _. idle-IsSound _ (λ h. cc) (λ h. cc) (λ h. cc) refl refl) c
  step-IsConsistent {db} {end} (Step.finalized job o r now p e) c =
      let q = finalize_confirmed-IsCommitted profile project job o r now db end e in
      subst IsConsistent (sym q.jobs) (
        update-IsConsistent job.row.id (confirmed_row o.signature now) db.jobs (λ j. refl)
          (λ j _ _. confirmed_row-IsSound o.signature now j) c)

  -- If the rows of the jobs are consistent, that is, no two have one identifier, the leased ones and
  -- only those name a holder and an end of the lease, and those that wait for a confirmation or have
  -- one name a signature, then they are so after any sequence of steps.
  pub Reach-IsConsistent :
      (db end : Database P)
      → Reach h profile project db end
      → IsConsistent db.jobs
      → IsConsistent end.jobs
  Reach-IsConsistent db end start c = c
  Reach-IsConsistent db end (later r s) c = step-IsConsistent s (Reach-IsConsistent db _ r c)
