-- ===== src/Services/Signals/Store.antt =====
-- The rows of signals and of the public projection, and their updates.
use nagarik_signals.Base.{
  ℕ, suc, ◌&&◌, ◌||◌, true, false, Bool, Option, none, some, String, List, [], ◌∷◌, ◌==◌, nat_eq,
  string_eq, if◌then◌else◌, Eq, nat_beq, ◌↔◌, ◌≡◌, arith,
}
use nagarik_signals.Services.Switches.{SwitchRow, invite_signals}
use nagarik_signals.Services.Issues.{
  PublicationState, published, publication_eq, Issue, AuditRow, is_capability_enabled,
}

pub data SignalState : Type 0 where
  active retracted removed : SignalState

abbrev signal_index : SignalState → ℕ
signal_index active = 0
signal_index retracted = 1
signal_index removed = 2

pub signal_index_iff :
    (a b : SignalState) → (nat_beq (signal_index a) (signal_index b) ≡ true) ↔ (a ≡ b)
signal_index_iff a b = ground arith

instance abbrev pub signal_state_eq : Eq SignalState
signal_state_eq = record {
  equals = λ a b. nat_beq (signal_index a) (signal_index b);
  equals_iff = signal_index_iff;
}

-- A row of `nagarik.signals`.
pub record Signal : Type 0 where
  pub id : String
  pub issue_id : String
  pub key_version : ℕ
  pub signal_key : String
  pub state : SignalState
  pub created_at : ℕ
  pub retracted_at : Option ℕ

-- What a row of `public.issue_projection` says of signals.
pub record IssueProjection : Type 0 where
  pub public_id : String
  pub publication_state : PublicationState
  pub signal_count : ℕ
  pub updated_at : ℕ

pub record SignalTables : Type 0 where
  pub switches : List SwitchRow
  pub issues : List Issue
  pub projections : List IssueProjection
  pub signals : List Signal
  pub audit : List AuditRow

-- `unique (issue_id, key_version, signal_key)`
pub record SignalKey : Type 0 where
  pub issue_id : String
  pub key_version : ℕ
  pub signal_key : String

unfoldable pub has_key : SignalKey → Signal → Bool
has_key k s =
    s.issue_id == k.issue_id && s.key_version == k.key_version && s.signal_key == k.signal_key

unfoldable pub find_signal : SignalKey → List Signal → Option Signal
find_signal k [] = none
find_signal k (s ∷ ss) = if has_key k s then some s else find_signal k ss

abbrev pub key_of : Signal → SignalKey
key_of s = record { issue_id = s.issue_id; key_version = s.key_version; signal_key = s.signal_key }

abbrev pub same_signal : Signal → Signal → Bool
same_signal a b = a.id == b.id || has_key (key_of a) b

-- `where id = $1 and state = ...`
unfoldable pub update_signal :
    (id : String) → SignalState → (Signal → Signal) → List Signal → List Signal
update_signal id state f [] = []
update_signal id state f (s ∷ ss) =
    if s.id == id && s.state == state
    then f s ∷ update_signal id state f ss
    else s ∷ update_signal id state f ss

-- `count(*) ... where issue_id = $1 and state = 'active'`
unfoldable pub count_active : (issue_id : String) → List Signal → ℕ
count_active issue_id [] = 0
count_active issue_id (s ∷ ss) =
    let rest = count_active issue_id ss in
    if s.issue_id == issue_id && s.state == active then suc rest else rest

unfoldable pub is_projected : (public_id : String) → List IssueProjection → Bool
is_projected public_id [] = false
is_projected public_id (p ∷ ps) =
    p.public_id == public_id && p.publication_state == published || is_projected public_id ps

unfoldable pub find_public_issue : (public_id organization_id : String) → List Issue → Option Issue
find_public_issue public_id organization_id [] = none
find_public_issue public_id organization_id (i ∷ is) =
    if i.public_id == public_id && i.organization_id == organization_id
    then some i
    else find_public_issue public_id organization_id is

-- The query that joins the projection, the issue and the switch.
unfoldable pub select_signalable :
    (public_id organization_id : String) → SignalTables → Option Issue
select_signalable public_id organization_id t =
    if is_projected public_id t.projections && is_capability_enabled invite_signals t.switches
    then find_public_issue public_id organization_id t.issues
    else none

unfoldable pub write_count :
    (public_id : String) → (count now : ℕ) → List IssueProjection → List IssueProjection
write_count public_id count now [] = []
write_count public_id count now (p ∷ ps) =
    if p.public_id == public_id
    then record p { signal_count = count; updated_at = now } ∷ write_count public_id count now ps
    else p ∷ write_count public_id count now ps
