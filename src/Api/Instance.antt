-- ===== src/Api/Instance.antt =====
-- api/v1alpha1/baremetalinstance_types.go
use kube_baremetal.Prelude.{String, Bool, true, false, Option, List}
use kube_baremetal.Api.Meta.{ObjectMeta}
use kube_baremetal.Condition.{ConditionType, StatusCondition}

abbrev pub bare_metal_instance_finalizer : String
bare_metal_instance_finalizer = "bmi.finalizer.baremetal.com.rmb938"

-- `BareMetalHardwareConditionTypeInstanceScheduled`
abbrev pub instance_scheduled : ConditionType
instance_scheduled = "InstanceScheduled"

-- `BareMetalHardwareConditionTypeInstanceNetworked`
abbrev pub instance_networked : ConditionType
instance_networked = "InstanceNetworkConfigured"

-- `BareMetalHardwareConditionTypeInstanceImaged`
abbrev pub instance_imaged : ConditionType
instance_imaged = "InstanceImaged"

-- `BareMetalHardwareConditionTypeInstanceCleaned`
abbrev pub instance_cleaned : ConditionType
instance_cleaned = "InstanceCleaned"

-- `corev1.Toleration`
pub record Toleration : Type 0 where
  pub key : String
  pub operator : String
  pub value : String
  pub effect : String

pub record BareMetalInstanceSpec : Type 0 where
  pub selector : List (String × String)
  pub tolerations : List Toleration

-- `empty` is the empty text; `imaging` is a text that the enum marker of the type allows.
pub data BareMetalInstanceStatusPhase : Type 0 where
  empty pending provisioning imaging running cleaning terminating terminated :
      BareMetalInstanceStatusPhase

abbrev pub is_empty : BareMetalInstanceStatusPhase → Bool
is_empty empty = true
is_empty _ = false

abbrev pub is_pending : BareMetalInstanceStatusPhase → Bool
is_pending pending = true
is_pending _ = false

abbrev pub is_provisioning : BareMetalInstanceStatusPhase → Bool
is_provisioning provisioning = true
is_provisioning _ = false

abbrev pub is_running : BareMetalInstanceStatusPhase → Bool
is_running running = true
is_running _ = false

abbrev pub is_cleaning : BareMetalInstanceStatusPhase → Bool
is_cleaning cleaning = true
is_cleaning _ = false

abbrev pub is_terminating : BareMetalInstanceStatusPhase → Bool
is_terminating terminating = true
is_terminating _ = false

abbrev pub is_terminated : BareMetalInstanceStatusPhase → Bool
is_terminated terminated = true
is_terminated _ = false

pub record BareMetalInstanceStatusAgentInfo : Type 0 where
  pub ip : String

pub record BareMetalInstanceStatus : Type 0 where
  pub conditions : List StatusCondition
  pub agent_info : Option BareMetalInstanceStatusAgentInfo
  pub hardware_name : String
  pub phase : BareMetalInstanceStatusPhase

pub record BareMetalInstance : Type 0 where
  pub api_version : String
  pub kind : String
  pub meta : ObjectMeta
  pub spec : BareMetalInstanceSpec
  pub status : BareMetalInstanceStatus
