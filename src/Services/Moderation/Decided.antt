-- ===== src/Services/Moderation/Decided.antt =====
-- The submission is found again after its row was changed.
use nagarik_signals.Base.{
  ◌+◌, ◌≡◌, refl, sym, ap, ◌∙◌, Bool, true, false, Option, none, some, String, List, [], ◌∷◌, ◌==◌,
  ==_refl, string_eq, nat_eq, ◌&&◌, if◌then◌else◌, ok, err, coded, Result, >>=-eq-ok, ok-injective,
}
use nagarik_signals.Base.Lookup.{first, change, first-change_some}
use nagarik_signals.Services.Media.{find_media}
use nagarik_signals.Services.Moderation.{
  ModerationRequest, ModerationDependencies, ModerationTables, ModerationResult, Submission,
  SubmissionRow, PublishedIssue, find_row, found_media, find_submission, next_submission_state,
}
use nagarik_signals.Services.Moderation.Records.{moderated_submission, moderation_result}
use nagarik_signals.Services.Moderation.Moderate.{change_submission}

abbrev pub is_submission : (submission_id organization_id : String) → Submission → Bool
is_submission submission_id organization_id s =
    s.id == submission_id && s.organization_id == organization_id

abbrev found_or_missing : {A : Type 0} → Option A → Result A
found_or_missing none = err (coded "resource_not_found" 404)
found_or_missing (some a) = ok a

find_row-first :
    {A : Type 0} (p : A → Bool) (xs : List A) → find_row p xs ≡ found_or_missing (first p xs)
unfolding find_row
find_row-first p [] = refl
find_row-first p (x ∷ xs) = cases (p x) (find_row-first p xs)
  where
    cases :
        (b : Bool)
        → find_row p xs ≡ found_or_missing (first p xs)
        → (if b then ok x else find_row p xs) ≡ found_or_missing (if b then some x else first p xs)
    cases true ih = refl
    cases false ih = ih

first-found : {A : Type 0} (o : Option A) (a : A) → found_or_missing o ≡ ok a → o ≡ some a
first-found none a h = cc
first-found (some b) a h = ap some (ok-injective h)

change_submission-change :
    (id : String) (f : Submission → Submission) (ss : List Submission)
    → change_submission id f ss ≡ change (λ s. s.id == id) f ss
unfolding change_submission
change_submission-change id f [] = refl
change_submission-change id f (s ∷ ss) = rw (change_submission-change id f ss)

find_row-change_submission :
    (p : Submission → Bool) (f : Submission → Submission) (ss : List Submission) (s : Submission)
    → ((a : Submission) → p (f a) ≡ p a)
    → find_row p ss ≡ ok s
    → find_row p (change_submission s.id f ss) ≡ ok (f s)
find_row-change_submission p f ss s keeps h =
    find_row-first p (change_submission s.id f ss)
    ∙ ap (λ xs. found_or_missing (first p xs)) (change_submission-change s.id f ss)
    ∙ ap found_or_missing (
        first-change_some p (λ a. a.id == s.id) f ss s keeps
          (first-found (first p ss) s (sym (find_row-first p ss) ∙ h)) (==_refl s.id))

find_submission-row :
    (submission_id organization_id : String) (t : ModerationTables) (r : SubmissionRow)
    → find_submission submission_id organization_id t ≡ ok r
    → find_row (is_submission submission_id organization_id) t.submissions ≡ ok r.submission
unfolding find_submission
find_submission-row submission_id organization_id t r h =
    let (submission, e, h1) =
      >>=-eq-ok (find_row (is_submission submission_id organization_id) t.submissions) _ h in
    let (revision, _, h2) =
      >>=-eq-ok
        (find_row
          (λ v.
            v.submission_id == submission.id
            && v.revision_number == submission.current_revision_number)
          t.revisions)
        _ h1 in
    let (link, _, h3) =
      >>=-eq-ok (find_row (λ l. l.revision_id == revision.id && l.position == 0) t.links) _ h2 in
    let (media, _, h4) =
      >>=-eq-ok (found_media (find_media (λ m. m.id == link.media_id) t.publications.media)) _ h3 in
    e ∙ ap (λ k. ok k.submission) (ok-injective h4)

-- What the row of the submission and the answer say after a decision.
pub record IsMoved (q : ModerationRequest) (t' : ModerationTables) (r : SubmissionRow)
    (a : ModerationResult) : Type 0 where
  pub after : Submission
  pub found_after :
      find_row (is_submission q.submission_id q.actor.organization_id) t'.submissions ≡ ok after
  pub new_state : after.state ≡ next_submission_state q.moderation.decision
  pub next_version : after.version ≡ r.submission.version + 1
  pub same_revision : after.current_revision_number ≡ r.submission.current_revision_number
  pub answer_state : (a.state ≡ after.state) × (a.version ≡ after.version)
  pub answer_id : a.submission_id ≡ after.id

pub moderated-IsMoved :
    (d : ModerationDependencies) (q : ModerationRequest) (t t' : ModerationTables)
    (r : SubmissionRow) (a : ModerationResult) (issue : Option PublishedIssue)
    → find_submission q.submission_id q.actor.organization_id t ≡ ok r
    → t'.submissions
      ≡ change_submission r.submission.id
          (moderated_submission d q (next_submission_state q.moderation.decision))
          t.submissions
    → a ≡ moderation_result d q r issue
    → IsMoved q t' r a
unfolding moderated_submission moderation_result
moderated-IsMoved d q t t' r a issue found written answer =
    let p = is_submission q.submission_id q.actor.organization_id in
    let f = moderated_submission d q (next_submission_state q.moderation.decision) in
    record {
      after = f r.submission;
      found_after =
          ap (find_row p) written
          ∙ find_row-change_submission p f t.submissions r.submission (λ s. refl)
              (find_submission-row q.submission_id q.actor.organization_id t r found);
      new_state = refl;
      next_version = refl;
      same_revision = refl;
      answer_state = (ap ModerationResult.state answer, ap ModerationResult.version answer);
      answer_id = ap ModerationResult.submission_id answer;
    }
