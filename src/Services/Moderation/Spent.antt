-- ===== src/Services/Moderation/Spent.antt =====
-- What the receipt of an approval shows once it is used: its capability is consumed, and the derivative
-- that it stands for is public.
use nagarik_signals.Base.{
  ℕ, ◌+◌, ◌≡◌, refl, sym, ap, ◌∙◌, subst, Bool, true, false, Option, none, some, String, List, [],
  ◌∷◌, ◌==◌, ==_iff, ==_refl, string_eq, nat_eq, ◌&&◌, All, arith,
}
use nagarik_signals.Base.Lookup.{
  first, change, first-change_some, first_holds, All-change, some_injective,
}
use nagarik_signals.Security.Tokens.{operator_media, purpose_eq}
use nagarik_signals.Security.Capabilities.{ParsedToken}
use nagarik_signals.Security.Receipts.{Receipt}
use nagarik_signals.Security.Receipts.Checked.{read_scope-row}
use nagarik_signals.Services.Media.{
  MediaObject, approved_public, media_eq, find_media, update_media,
}
use nagarik_signals.Services.Moderation.{
  ModerationRequest, ModerationDependencies, SubmissionRow, Capability,
}
use nagarik_signals.Services.Moderation.Approval.{
  consume_capability, is_derivative, published_media, find_capability, capability_media,
  with_derivative, find_receipt,
}
use nagarik_signals.Services.Moderation.Received.{PublicTables, IsReceived}

abbrev is_active : String → Capability → Bool
is_active id c = c.capability_id == id && c.state == "active"

abbrev consumed_at_time : ℕ → Capability → Capability
consumed_at_time now c = record {
  row = record c.row { state = "consumed" };
  consumed_at = some now;
}

find_capability-first :
    (p : Capability → Bool) (cs : List Capability) → find_capability p cs ≡ first p cs
unfolding find_capability
find_capability-first p [] = refl
find_capability-first p (c ∷ cs) = rw (find_capability-first p cs)

consume_capability-change :
    (id : String) (now : ℕ) (cs : List Capability)
    → consume_capability id now cs ≡ change (is_active id) (consumed_at_time now) cs
unfolding consume_capability
consume_capability-change id now [] = refl
consume_capability-change id now (c ∷ cs) = rw (consume_capability-change id now cs)

find_media-first : (p : MediaObject → Bool) (ms : List MediaObject) → find_media p ms ≡ first p ms
unfolding find_media
find_media-first p [] = refl
find_media-first p (m ∷ ms) = rw (find_media-first p ms)

update_media-change :
    (p : MediaObject → Bool) (f : MediaObject → MediaObject) (ms : List MediaObject)
    → update_media p f ms ≡ change p f ms
unfolding update_media
update_media-change p f [] = refl
update_media-change p f (m ∷ ms) = rw (update_media-change p f ms)

-- No capability with this identifier is active any more.
pub consume_capability-All :
    (id : String) (now : ℕ) (cs : List Capability)
    → All (λ c. is_active id c ≡ false) (consume_capability id now cs)
consume_capability-All id now cs =
    subst (All (λ c. is_active id c ≡ false)) (sym (consume_capability-change id now cs))
      (All-change (is_active id) (consumed_at_time now) cs (λ c. ground arith))

no_value : {A : Type 0} {a : A} → ¬ (none ≡ some a)
no_value e = cc

capability_media-eq-some :
    (b : Capability) (o : Option MediaObject) (c : Capability) (m : MediaObject)
    → capability_media b o ≡ some (c, m)
    → (b ≡ c) × (o ≡ some m)
capability_media-eq-some b none c m h = absurd (no_value {a = (c, m)} h)
capability_media-eq-some b (some n) c m h =
    let e = pair h in (ap (λ p. p.0) e, ap (λ p. some p.1) e)
  where
    pair :
        ◌≡◌ {A = Option (Capability × MediaObject)} (some (b, n)) (some (c, m))
        → ◌≡◌ {A = Capability × MediaObject} (b, n) (c, m)
    pair k = some_injective k

with_derivative-eq-some :
    (ms : List MediaObject) (o : Option Capability) (c : Capability) (m : MediaObject)
    → with_derivative ms o ≡ some (c, m)
    → (o ≡ some c) × (find_media (λ k. k.id == c.subject_id) ms ≡ some m)
unfolding with_derivative
with_derivative-eq-some ms none c m h = absurd (no_value {a = (c, m)} h)
with_derivative-eq-some ms (some b) c m h =
    let (e, f) = capability_media-eq-some b (find_media (λ k. k.id == b.subject_id) ms) c m h in
    (ap some e, ap (λ a. find_media (λ k. k.id == a.subject_id) ms) (sym e) ∙ f)

with_derivative-some :
    (ms : List MediaObject) (o : Option Capability) (c : Capability) (m : MediaObject)
    → o ≡ some c
    → find_media (λ k. k.id == c.subject_id) ms ≡ some m
    → with_derivative ms o ≡ some (c, m)
unfolding with_derivative
with_derivative-some ms o c m e f = ap (with_derivative ms) e ∙ ap (capability_media c) f

find_capability-consume_capability :
    (p : Capability → Bool) (id : String) (now : ℕ) (cs : List Capability) (c : Capability)
    → ((a : Capability) → p (consumed_at_time now a) ≡ p a)
    → find_capability p cs ≡ some c
    → is_active id c ≡ true
    → find_capability p (consume_capability id now cs) ≡ some (consumed_at_time now c)
find_capability-consume_capability p id now cs c keeps h active =
    ap (find_capability p) (consume_capability-change id now cs)
    ∙ find_capability-first p (change (is_active id) (consumed_at_time now) cs)
    ∙ first-change_some p (is_active id) (consumed_at_time now) cs c keeps
        (sym (find_capability-first p cs) ∙ h) active

find_media-update_media :
    (p q : MediaObject → Bool) (f : MediaObject → MediaObject) (ms : List MediaObject)
    (m : MediaObject)
    → ((a : MediaObject) → p (f a) ≡ p a)
    → find_media p ms ≡ some m
    → q m ≡ true
    → find_media p (update_media q f ms) ≡ some (f m)
find_media-update_media p q f ms m keeps h hit =
    ap (find_media p) (update_media-change q f ms)
    ∙ find_media-first p (change q f ms)
    ∙ first-change_some p q f ms m keeps (sym (find_media-first p ms) ∙ h) hit

-- The receipt is looked up again after the approval.
pub record IsSpent (d : ModerationDependencies) (q : ModerationRequest) (parsed : ParsedToken)
    (derivative : MediaObject) (receipt : Receipt) (media : List MediaObject)
    (capabilities : List Capability) : Type 0 where
  pub capability : Capability
  pub shown : MediaObject
  pub found : find_receipt d q media capabilities parsed ≡ some (capability, shown)
  pub consumed : capability.state ≡ "consumed"
  pub public : shown.state ≡ approved_public
  pub next_version : shown.version ≡ derivative.version + 1
  pub of_receipt : shown.id ≡ receipt.media_id
  pub none_active : All (λ c. is_active receipt.capability_id c ≡ false) capabilities

pub receipt-IsSpent :
    (d : ModerationDependencies) (q : ModerationRequest) (t : PublicTables) (r : SubmissionRow)
    (receipt : Receipt) (c : IsReceived d q t r receipt)
    → IsSpent d q c.parsed c.derivative receipt
        (update_media (is_derivative receipt.media_id) (published_media d.now) t.media)
        (consume_capability receipt.capability_id d.now t.capabilities)
unfolding find_receipt
receipt-IsSpent d q t r receipt c =
    let p : Capability → Bool = λ a.
      a.capability_id == c.parsed.capability_id
      && a.purpose == operator_media
      && a.organization_id == q.actor.organization_id in
    let (held, media) =
      with_derivative-eq-some t.media (find_capability p t.capabilities) c.capability c.derivative
        c.found in
    let (capability_id, media_id) =
      read_scope-row c.capability.row _ _ receipt c.authorized.scoped in
    let same : c.derivative.id ≡ c.capability.subject_id = (==_iff _ _).0 (
      first_holds (λ k. k.id == c.capability.subject_id) t.media c.derivative
        (sym (find_media-first (λ k. k.id == c.capability.subject_id) t.media) ∙ media)) in
    record {
      capability = consumed_at_time d.now c.capability;
      shown = published_media d.now c.derivative;
      found =
          with_derivative-some _ _ (consumed_at_time d.now c.capability)
            (published_media d.now c.derivative)
            (find_capability-consume_capability p receipt.capability_id d.now t.capabilities
              c.capability (λ a. refl) held
              (rw (capability_id, ==_refl c.capability.capability_id, c.authorized.active)))
            (find_media-update_media (λ k. k.id == c.capability.subject_id)
              (is_derivative receipt.media_id) (published_media d.now) t.media c.derivative
              (λ a. refl) media (rw (media_id, same, ==_refl c.capability.subject_id, c.redacted)));
      consumed = refl;
      public = refl;
      next_version = refl;
      of_receipt = same ∙ sym media_id;
      none_active = consume_capability-All receipt.capability_id d.now t.capabilities;
    }
