-- ===== src/Services/Publication/Checks.antt =====
-- The issues whose publication may be changed.
use nagarik_signals.Base.{
  ℕ, ◌≡◌, ◌&&◌, String, none, ◌==◌, ==_iff, arith, option_eq, nat_eq, string_eq, ok,
  guard-then-eq-ok, guard-eq-ok,
}
use nagarik_signals.Services.Issues.{published, publication_eq, Issue}
use nagarik_signals.Services.Publication.{check_publication}

pub record IsCorrectable (version : ℕ) (head : String) (i : Issue) : Type 0 where
  pub is_published : i.publication_state ≡ published
  pub unblocked : i.blocked_from_sequence ≡ none
  pub seen_version : i.domain_version ≡ version
  pub seen_head : i.projected_timeline_head ≡ head

pub check_publication-IsCorrectable :
    (version : ℕ) (head : String) (i : Issue)
    → check_publication version head i ≡ ok tt
    → IsCorrectable version head i
unfolding check_publication
check_publication-IsCorrectable version head i h =
    let (a, h1) =
      guard-then-eq-ok (i.publication_state == published && i.blocked_from_sequence == none) _ _
        h in
    let b = guard-eq-ok (i.domain_version == version && i.projected_timeline_head == head) _ h1 in
    record {
      is_published = (==_iff _ _).0 (ground arith);
      unblocked = (==_iff _ _).0 (ground arith);
      seen_version = (==_iff _ _).0 (ground arith);
      seen_head = (==_iff _ _).0 (ground arith);
    }
