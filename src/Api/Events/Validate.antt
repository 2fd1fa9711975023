-- ===== src/Api/Events/Validate.antt =====
-- `classifyEvent` and `validateCloudEvent`.
pub mod Accepted
use Prim.Native.String.{len}
use cost_ai_grid_poc.Prelude.{
  ℕ, ◌+◌, String, Bool, ◌&&◌, ◌||◌, not, Option, none, some, str_eq, ltb, ◌==◌, if◌then◌else◌,
}
use cost_ai_grid_poc.Json.{Json, null, is_struct, field_of, as_text, object_of}
use cost_ai_grid_poc.CustomMetrics.Config.{MetricDef}
use cost_ai_grid_poc.CustomMetrics.Registry.{has_event_type, classify_custom}
use cost_ai_grid_poc.Api.Events.CloudEvents.{
  CloudEvent, EventHandler, Invalid, batch_size, spec_version, attributes, no_payload, too_old,
  too_future, no_identity, id_length, no_extensions, v1_payload, v1_identity, max_id_length,
  max_event_age, max_event_future, is_v1,
}
use cost_ai_grid_poc.Api.Events.Payloads.{MeteringData, metering_data, are_text, unmarshal}

-- the resource type and id and the tenant of an event
pub record Identity : Type 0 where
  pub resource_type : String
  pub resource_id : String
  pub tenant_id : String

-- the first text that is not empty
abbrev pub first_text : String → String → String
first_text s t = if str_eq s "" then t else s

-- the fields that `classifyEvent` peeks at
pub record Peek : Type 0 where
  pub tenant_id : String
  pub organization_id : String
  pub instance_id : String
  pub cluster_id : String
  pub model_id : String
  pub model : String

unfoldable pub peek : Option Json → Option Peek
peek =
    unmarshal
      (λ j.
        are_text j "tenant_id" "organization_id" "instance_id" "cluster_id"
        && are_text j "model_id" "user" "model" "model")
      (λ j. record {
        tenant_id = text "tenant_id" j;
        organization_id = text "organization_id" j;
        instance_id = text "instance_id" j;
        cluster_id = text "cluster_id" j;
        model_id = text "model_id" j;
        model = text "model" j;
      })
  where
    text : String → Json → String
    text k j = as_text (field_of k j)

abbrev identity : String → String → String → Identity
identity resource_type resource_id tenant_id = record {
  resource_type = resource_type;
  resource_id = resource_id;
  tenant_id = tenant_id;
}

abbrev pub classify_peeked : CloudEvent → Peek → Identity
classify_peeked ce p =
    let tenant = first_text p.tenant_id (first_text p.organization_id ce.subject) in
    if str_eq ce.type "osac.compute_instance.lifecycle"
    then identity "ComputeInstance" p.instance_id tenant
    else if str_eq ce.type "osac.cluster.lifecycle"
    then identity "Cluster" p.cluster_id tenant
    else if str_eq ce.type "osac.model.lifecycle"
    then identity "Model" p.model_id tenant
    else if str_eq ce.type "inference.tokens.used"
    then identity "Model" (first_text p.model_id p.model) tenant
    else identity ce.type "" tenant

unfoldable pub classify_event : CloudEvent → Identity
unfolding peek
classify_event ce =
    let peeked : Identity = elim (peek ce.payload) [
      | none ↦ identity ce.type "" ce.subject
      | some p ↦ classify_peeked ce p
    ] in
    if is_v1 ce.type
    then identity (first_text ce.osac_resource_type ce.type) ce.osac_resource_id ce.osac_tenant
    else peeked

-- by the definition of the operator's registry
abbrev pub by_registry : EventHandler → CloudEvent → Identity → Identity
by_registry h ce i = elim h.custom_metrics [
  | none ↦ i
  | some defs ↦ elim ce.payload [
    | none ↦ i
    | some j ↦ elim (object_of j) [
      | none ↦ i
      | some fields ↦
          let (rt, rid, tid) = classify_custom h.formats defs ce.type fields in identity rt rid tid
    ]
  ]
]

-- the identity of an event, which its validation and its processing find in the same way
unfoldable pub identify : EventHandler → CloudEvent → Identity
unfolding classify_event
identify h ce =
    let i = classify_event ce in
    if (str_eq i.resource_id "" || str_eq i.tenant_id "") && has_event_type h.custom_metrics ce.type
    then by_registry h ce i
    else i

-- the data of a lifecycle event agrees with its extensions
abbrev pub v1_agrees : CloudEvent → MeteringData → Bool
v1_agrees ce d =
    not (str_eq d.resource_id "" || str_eq d.resource_type "" || str_eq d.tenant_id "")
    && str_eq d.resource_id ce.osac_resource_id
    && str_eq d.resource_type ce.osac_resource_type
    && str_eq d.tenant_id ce.osac_tenant

abbrev pub validate_v1 : CloudEvent → Option Invalid
validate_v1 ce =
    let checked : Option Invalid = elim (metering_data ce.payload) [
      | none ↦ some v1_payload
      | some d ↦ if v1_agrees ce d then none else some v1_identity
    ] in
    if str_eq ce.osac_resource_id "" || str_eq ce.osac_resource_type "" || str_eq ce.osac_tenant ""
    then some no_extensions
    else checked

abbrev is_null : Json → Bool
is_null null = Bool.true
is_null _ = Bool.false

-- whether there is no data, or `null`
abbrev pub is_blank : Option Json → Bool
is_blank none = Bool.true
is_blank (some j) = is_null j

unfoldable pub validate_cloud_event : EventHandler → ℕ → CloudEvent → Option Invalid
unfolding identify
validate_cloud_event h now ce =
    let i = identify h ce in
    if not (str_eq ce.spec_version "1.0")
    then some spec_version
    else if str_eq ce.id "" || str_eq ce.type "" || str_eq ce.source "" || ce.time == 0
    then some attributes
    else if is_blank ce.payload
    then some no_payload
    else if ltb (ce.time + max_event_age) now
    then some too_old
    else if ltb (now + max_event_future) ce.time
    then some too_future
    else if str_eq i.resource_type "" || str_eq i.resource_id "" || str_eq i.tenant_id ""
    then some no_identity
    else if ltb max_id_length (len i.resource_id) || ltb max_id_length (len i.tenant_id)
    then some id_length
    else if is_v1 ce.type
    then validate_v1 ce
    else none
