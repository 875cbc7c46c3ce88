-- ===== src/Services/Publication/Removal/Legacy.antt =====
-- A legacy issue is taken down at once, without a chain job.
use nagarik_signals.Base.{
  ◌≡◌, refl, sym, ap, ◌∙◌, ◌&&◌, not, String, Bool, true, false, none, List, [], ◌∷◌, ◌==◌,
  string_eq, ==_iff, if◌then◌else◌, arith, ok, >>=-eq-ok, ok-injective, All, Bool-cases, inl, inr,
  subst,
}
use nagarik_signals.Services.Operations.{OperatorDependencies, complete_operator_mutation}
use nagarik_signals.Services.Issues.{Issue, Version, insert_row, same_audit, change_issue}
use nagarik_signals.Services.Publication.Removal.{
  RemovalRequest, RemovalResult, RemovalTables, PublicIssue, change_public_issue,
}
use nagarik_signals.Services.Publication.Removal.Restriction.{create_privacy_restriction}
use nagarik_signals.Services.Publication.Removal.Rows.{removal_event_id}
use nagarik_signals.Services.Publication.Removal.Remove.{
  remove_legacy, take_down, legacy_result, legacy_recovery, legacy_audit, legacy_removed,
  same_recovery,
}
use nagarik_signals.Services.Publication.Removal.Laws.{create_privacy_restriction-IsRestricted}

-- No legacy row of this issue shows its content.
abbrev pub IsCleared : String → PublicIssue → Type 0
IsCleared public_id p = p.public_id ≡ public_id → p.is_v2 ≡ false → p.content ≡ none

change_public_issue-IsCleared :
    (public_id : String) (f : PublicIssue → PublicIssue) (ps : List PublicIssue)
    → ((p : PublicIssue) → (f p).content ≡ none)
    → All
        (IsCleared public_id)
        (change_public_issue (λ p. p.public_id == public_id && not p.is_v2) f ps)
unfolding change_public_issue
change_public_issue-IsCleared public_id f [] clears = tt
change_public_issue-IsCleared public_id f (p ∷ ps) clears =
    decided (p.public_id == public_id && not p.is_v2) refl
      (change_public_issue-IsCleared public_id f ps clears)
  where
    rest : List PublicIssue
    rest = change_public_issue (λ p. p.public_id == public_id && not p.is_v2) f ps

    decided :
        (b : Bool)
        → (p.public_id == public_id && not p.is_v2) ≡ b
        → All (IsCleared public_id) rest
        → All (IsCleared public_id) (if b then f p ∷ rest else p ∷ rest)
    decided true e ih = ((λ _ _. clears p), ih)
    decided false e ih = ((λ same legacy. absurd (kept same legacy e)), ih)
      where
        kept :
            p.public_id ≡ public_id
            → p.is_v2 ≡ false
            → ¬ ((p.public_id == public_id && not p.is_v2) ≡ false)
        kept same legacy k = ground (arith, ==_iff p.public_id public_id)

pub record IsTakenDown (d : OperatorDependencies) (q : RemovalRequest) (t : RemovalTables)
    (r : RemovalResult) (t' : RemovalTables) : Type 0 where
  pub issue : Issue
  pub legacy : issue.is_v2 ≡ false
  pub cleared : All (IsCleared q.public_id) t'.public_issues
  pub jobs : t'.rows.base.jobs ≡ t.rows.base.jobs
  pub issues : t'.rows.base.issues ≡ change_issue issue.id (legacy_removed d q) t.rows.base.issues
  pub answer : r ≡ legacy_result d q issue

module _ (d : OperatorDependencies) (q : RemovalRequest) where
  take_down-IsCleared :
      (v : Version) (t : RemovalTables)
      → All (IsCleared q.public_id) (take_down d q v t).public_issues
        × ((take_down d q v t).rows.base ≡ t.rows.base)
  unfolding take_down
  take_down-IsCleared v t = elim (Bool-cases (v.public_media_id == "")) [
    | inl e ↦ rw e (change_public_issue-IsCleared q.public_id _ t.public_issues (λ p. refl), refl)
    | inr e ↦ rw e (change_public_issue-IsCleared q.public_id _ t.public_issues (λ p. refl), refl)
  ]

  pub remove_legacy-IsTakenDown :
      (record_id request_hash actor_key : String) (t : RemovalTables) (i : Issue) (v : Version)
      (out : RemovalResult × RemovalTables)
      → i.is_v2 ≡ false
      → remove_legacy d q record_id request_hash actor_key t i v ≡ ok out
      → IsTakenDown d q t out.0 out.1
  unfolding remove_legacy
  remove_legacy-IsTakenDown record_id request_hash actor_key t i v out old h =
      let (restricted, s, h1) =
        >>=-eq-ok (create_privacy_restriction d q i.id (removal_event_id d q) true t) _ h in
      let down = take_down d q v restricted in
      let (recovery, _, h2) =
        >>=-eq-ok (insert_row same_recovery (legacy_recovery d q i) down.recovery) _ h1 in
      let (audit, _, h3) =
        >>=-eq-ok (insert_row same_audit (legacy_audit d q actor_key i) down.rows.base.audit) _
          h2 in
      let (records, _, h4) =
        >>=-eq-ok
          (complete_operator_mutation record_id request_hash (legacy_result d q i)
            down.rows.base.records)
          _ h3 in
      let o = sym (ok-injective h4) in
      let (cleared, base) = take_down-IsCleared v restricted in
      let rows = (create_privacy_restriction-IsRestricted d q i.id true t restricted s).rows in
      record {
        issue = i;
        legacy = old;
        cleared = subst (All (IsCleared q.public_id)) (sym (ap (λ p. p.1.public_issues) o)) cleared;
        jobs = ap (λ p. p.1.rows.base.jobs) o ∙ ap (λ b. b.jobs) base ∙ ap (λ r. r.base.jobs) rows;
        issues =
            ap (λ p. p.1.rows.base.issues) o
            ∙ ap (λ b. change_issue i.id (legacy_removed d q) b.issues) base
            ∙ ap (λ r. change_issue i.id (legacy_removed d q) r.base.issues) rows;
        answer = ap (λ p. p.0) o;
      }
