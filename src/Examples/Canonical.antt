-- ===== src/Examples/Canonical.antt =====
-- Runs of apps/web/lib/proof/canonicalize.ts and apps/web/lib/security/ids.ts.
use nagarik_signals.Base.{◌≡◌, ◌≢◌, true}
use nagarik_signals.Base.Text.{is_uuid_v4, codes}
use nagarik_signals.Proof.Canonical.{
  number, text, object, Members, no_members, member, canonicalize, json_hash,
}
use nagarik_signals.Proof.Canonical.Order.{swap, canonicalize-Reordered}
use nagarik_signals.Security.Ids.{deterministic_uuid_v4}
use nagarik_signals.Security.Ids.Uuid.{deterministic_uuid_v4-is_uuid_v4}
use nagarik_signals.Examples.World.{sums}

abbrev note_first : Members
note_first = member "note" (text "fixed") (member "count" (number 12) no_members)

abbrev count_first : Members
count_first = member "count" (number 12) (member "note" (text "fixed") no_members)

different_keys : codes "note" ≢ codes "count"
different_keys e = cc

canonicalize-Reordered_example :
    (canonicalize (object note_first) ≡ canonicalize (object count_first))
    × (json_hash sums (object note_first) ≡ json_hash sums (object count_first))
canonicalize-Reordered_example =
    canonicalize-Reordered sums note_first count_first (swap different_keys)

deterministic_uuid_v4-is_uuid_v4_example :
    is_uuid_v4 (deterministic_uuid_v4 sums "nagarik:v2:public-issue" "submission") ≡ true
deterministic_uuid_v4-is_uuid_v4_example =
    deterministic_uuid_v4-is_uuid_v4 sums "nagarik:v2:public-issue" "submission"
