-- ===== src/Api/Events/Validate/Accepted.antt =====
-- What `validateCloudEvent` makes sure of.
use Prim.Native.String.{len}
use cost_ai_grid_poc.Prelude.{
  ℕ, ◌+◌, ◌≤◌, ◌≡◌, ◌||◌, Option, none, some, false, true, str_eq, ltb, if◌then◌else◌, Bool, refl,
  not, ◌==◌, arith,
}
use cost_ai_grid_poc.Api.Events.CloudEvents.{
  CloudEvent, EventHandler, Invalid, max_id_length, max_event_age, max_event_future, spec_version,
  attributes, no_payload, too_old, too_future, no_identity, id_length,
}
use cost_ai_grid_poc.Api.Events.Validate.{Identity, identify, is_blank, validate_cloud_event}

-- an identity that is complete, of ids that are short enough
abbrev pub IsIdentified : Identity → Type 0
IsIdentified i =
    (str_eq i.resource_type "" ≡ false)
    × (str_eq i.resource_id "" ≡ false)
    × (str_eq i.tenant_id "" ≡ false)
    × (len i.resource_id ≤ max_id_length)
    × (len i.tenant_id ≤ max_id_length)

-- an instant that is no more than two hours before and five minutes after another
abbrev pub IsTimely : ℕ → ℕ → Type 0
IsTimely now time = (now ≤ time + max_event_age) × (time ≤ now + max_event_future)

passed :
    (b : Bool) (e : Invalid) (x : Option Invalid)
    → (if b then some e else x) ≡ none
    → (b ≡ false) × (x ≡ none)
passed true e x h = absurd (cc h)
passed false e x h = (refl, h)

neither : (a b : Bool) → (a || b) ≡ false → (a ≡ false) × (b ≡ false)
neither true b h = absurd (cc h)
neither false b h = (refl, h)

at_most : (a b : ℕ) → ltb a b ≡ false → b ≤ a
at_most a b h = ground arith

-- An event that is valid at an instant is timely, and its identity is complete.
pub validate_cloud_event-IsTimely :
    (h : EventHandler) (now : ℕ) (ce : CloudEvent)
    → validate_cloud_event h now ce ≡ none
    → IsTimely now ce.time × IsIdentified (identify h ce)
unfolding validate_cloud_event
validate_cloud_event-IsTimely h now ce v =
    let i = identify h ce in
    let (_, v1) = passed (not (str_eq ce.spec_version "1.0")) spec_version _ v in
    let (_, v2) =
      passed (str_eq ce.id "" || str_eq ce.type "" || str_eq ce.source "" || ce.time == 0)
        attributes _ v1 in
    let (_, v3) = passed (is_blank ce.payload) no_payload _ v2 in
    let (old, v4) = passed (ltb (ce.time + max_event_age) now) too_old _ v3 in
    let (future, v5) = passed (ltb (now + max_event_future) ce.time) too_future _ v4 in
    let (known, v6) =
      passed (str_eq i.resource_type "" || str_eq i.resource_id "" || str_eq i.tenant_id "")
        no_identity _ v5 in
    let (short, _) =
      passed (ltb max_id_length (len i.resource_id) || ltb max_id_length (len i.tenant_id))
        id_length _ v6 in
    let (known', known_tenant) = neither _ _ known in
    let (known_type, known_id) = neither _ _ known' in
    let (short_id, short_tenant) = neither _ _ short in
    (
      (at_most _ _ old, at_most _ _ future),
      (known_type, known_id, known_tenant, at_most _ _ short_id, at_most _ _ short_tenant),
    )
