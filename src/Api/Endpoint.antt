-- ===== src/Api/Endpoint.antt =====
-- api/v1alpha1/baremetalendpoint_types.go
use kube_baremetal.Prelude.{String, Bool, true, false, Option, List}
use kube_baremetal.Api.Meta.{ObjectMeta, ObjectReference}
use kube_baremetal.Condition.{StatusCondition}

abbrev pub bare_metal_endpoint_finalizer : String
bare_metal_endpoint_finalizer = "bme.finalizer.baremetal.com.rmb938"

abbrev pub bare_metal_endpoint_instance_label : String
bare_metal_endpoint_instance_label = "baremetal.com.rmb938/instance"

abbrev pub bare_metal_endpoint_nic_label : String
bare_metal_endpoint_nic_label = "baremetal.com.rmb938/nic"

pub record BareMetalEndpointBond : Type 0 where
  pub macs : List String
  pub mode : String

pub record BareMetalEndpointSpec : Type 0 where
  pub primary : Bool
  pub mac : String
  pub bond : Option BareMetalEndpointBond
  pub network_ref : ObjectReference

-- `empty` is the empty text, `other` any text that is no phase of the source.
pub data BareMetalEndpointStatusPhase : Type 0 where
  empty pending addressing addressed deleting deleted : BareMetalEndpointStatusPhase
  other : String → BareMetalEndpointStatusPhase

abbrev pub is_empty : BareMetalEndpointStatusPhase → Bool
is_empty empty = true
is_empty _ = false

abbrev pub is_pending : BareMetalEndpointStatusPhase → Bool
is_pending pending = true
is_pending _ = false

abbrev pub is_addressed : BareMetalEndpointStatusPhase → Bool
is_addressed addressed = true
is_addressed _ = false

abbrev pub is_deleting : BareMetalEndpointStatusPhase → Bool
is_deleting deleting = true
is_deleting _ = false

abbrev pub is_deleted : BareMetalEndpointStatusPhase → Bool
is_deleted deleted = true
is_deleted _ = false

pub record BareMetalEndpointStatusAddress : Type 0 where
  pub ip : String
  pub cidr : String
  pub gateway : String
  pub nameservers : List String
  pub search_domains : List String

pub record BareMetalEndpointStatus : Type 0 where
  pub conditions : List StatusCondition
  pub address : Option BareMetalEndpointStatusAddress
  pub phase : BareMetalEndpointStatusPhase

pub record BareMetalEndpoint : Type 0 where
  pub meta : ObjectMeta
  pub spec : BareMetalEndpointSpec
  pub status : BareMetalEndpointStatus
