-- ===== src/Services/Publication.antt =====
-- apps/web/lib/services/publication.ts: the correction and the removal of published issues. The
-- requests have passed their schemas.
pub mod Checks
pub mod Correction
pub mod Removal
use Prim.Native.String.{◌++◌}
use nagarik_signals.Base.{
  ℕ, ◌&&◌, ◌||◌, true, false, not, Bool, Option, none, some, String, List, [], ◌∷◌, ◌==◌, nat_eq,
  string_eq, option_eq, if◌then◌else◌, Result, ok, err, coded, guard, ◌>>=◌, ◌>>◌,
}
use nagarik_signals.Proof.Canonical.{Json, null, text, Members, no_members, member}
use nagarik_signals.Services.Switches.{SwitchRow, operator_mutations, publication}
use nagarik_signals.Services.Issues.{
  Category, road, waste, water, electricity_lighting, public_facility, public_safety_hazard,
  other_public_infrastructure, Issue, Version, IssueTables, published, publication_eq,
  is_capability_enabled,
}
use nagarik_signals.Services.Media.{MediaObject}

-- `publicCopySchema`
pub record PublicCopy : Type 0 where
  pub title : String
  pub narrative : String
  pub ward_label : String
  pub locality_label : Option String
  pub public_reason : Option String

pub data PublicationEventType : Type 0 where
  approved corrected removed_event : PublicationEventType

-- A row of `nagarik.publication_events`.
pub record PublicationEvent : Type 0 where
  pub id : String
  pub issue_id : String
  pub issue_version_id : Option String
  pub event_type : PublicationEventType
  pub domain_version : ℕ
  pub private_reason : Option String
  pub public_event : Json
  pub created_by : String
  pub created_at : ℕ

abbrev pub same_publication_event : PublicationEvent → PublicationEvent → Bool
same_publication_event a b =
    a.id == b.id || a.issue_id == b.issue_id && a.domain_version == b.domain_version

abbrev pub same_version : Version → Version → Bool
same_version a b = a.id == b.id || a.issue_id == b.issue_id && a.version_number == b.version_number

abbrev pub category_name : Category → String
category_name road = "road"
category_name waste = "waste"
category_name water = "water"
category_name electricity_lighting = "electricity_lighting"
category_name public_facility = "public_facility"
category_name public_safety_hazard = "public_safety_hazard"
category_name other_public_infrastructure = "other_public_infrastructure"

abbrev pub text_or_null : Option String → Json
text_or_null none = null
text_or_null (some s) = text s

-- `object[key] ?? null`
unfoldable pub member_or_null : String → Members → Json
member_or_null key no_members = null
member_or_null key (member k v ms) = if k == key then v else member_or_null key ms

-- `{ ...object, [key]: value }`
unfoldable pub with_member : String → Json → Members → Members
with_member key value no_members = member key value no_members
with_member key value (member k v ms) =
    if k == key then member k value ms else member k v (with_member key value ms)

unfoldable pub assert_operator_switches :
    List SwitchRow → (require_publication : Bool) → Result (Unit {0})
assert_operator_switches ss require_publication = do
  guard (is_capability_enabled operator_mutations ss) (coded "operator_mutations_disabled" 503)
  guard (not (require_publication && not (is_capability_enabled publication ss)))
      (coded "publication_disabled" 503)

-- The issue may be changed by a request that has seen this version and this head.
unfoldable pub check_publication : (version : ℕ) (head : String) → Issue → Result (Unit {0})
check_publication version head i = do
  guard (i.publication_state == published && i.blocked_from_sequence == none)
      (coded "workflow_conflict" 409)
  guard (i.domain_version == version && i.projected_timeline_head == head)
      (coded "stale_resource_version" 409)

pub record PublicationTables (R : Type 0) : Type 0 where
  pub base : IssueTables R
  pub media : List MediaObject
  pub publication_events : List PublicationEvent
