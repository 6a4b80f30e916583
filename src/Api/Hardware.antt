-- ===== src/Api/Hardware.antt =====
-- api/v1alpha1/baremetalhardware_types.go
use kube_baremetal.Prelude.{String, Bool, Option, List}
use kube_baremetal.Api.Meta.{ObjectMeta, ObjectReference, Time}
use kube_baremetal.Api.Discovery.{BareMetalDiscoveryHardware}
use kube_baremetal.Condition.{ConditionType, StatusCondition}

abbrev pub bare_metal_hardware_finalizer : String
bare_metal_hardware_finalizer = "bmh.finalizer.baremetal.com.rmb938"

abbrev pub bare_metal_hardware_taint_key_not_ready : String
bare_metal_hardware_taint_key_not_ready = "hardware.baremetal.com.rmb938/not-ready"

abbrev pub bare_metal_hardware_taint_key_no_schedule : String
bare_metal_hardware_taint_key_no_schedule = "hardware.baremetal.com.rmb938/unschedulable"

-- The types of the conditions.
abbrev pub hardware_set : ConditionType
hardware_set = "HardwareSet"

abbrev pub image_drive_valid : ConditionType
image_drive_valid = "ImageDriveValid"

abbrev pub nics_valid : ConditionType
nics_valid = "NicsValid"

-- The effects of `corev1.Taint`.
pub data TaintEffect : Type 0 where
  no_schedule prefer_no_schedule no_execute : TaintEffect

-- `corev1.Taint`
pub record Taint : Type 0 where
  pub key : String
  pub value : String
  pub effect : TaintEffect
  pub time_added : Option Time

pub record BareMetalHardwareNicBond : Type 0 where
  pub interfaces : List String
  pub mode : String

pub record BareMetalHardwareNic : Type 0 where
  pub name : String
  pub primary : Bool
  pub bond : Option BareMetalHardwareNicBond
  pub network_ref : ObjectReference

pub record BareMetalHardwareSpec : Type 0 where
  pub system_uuid : String
  pub can_provision : Bool
  pub image_drive : String
  pub nics : List BareMetalHardwareNic
  pub taints : List Taint

pub record BareMetalHardwareStatusInstanceRef : Type 0 where
  pub name : String
  pub namespace : String
  pub uid : String

pub record BareMetalHardwareStatus : Type 0 where
  pub conditions : List StatusCondition
  pub instance_ref : Option BareMetalHardwareStatusInstanceRef
  pub hardware : Option BareMetalDiscoveryHardware

pub record BareMetalHardware : Type 0 where
  pub meta : ObjectMeta
  pub spec : BareMetalHardwareSpec
  pub status : BareMetalHardwareStatus
