-- ===== src/Instance/Provisioner/Premises.antt =====
-- What holds where `Provisioner.Reconcile` takes a step.
use kube_baremetal.Prelude.{
  ◌≡◌, Bool, true, false, Option, some, List, [], ◌∷◌, keep_if, String, ◌==◌, string_eq, nat_eq,
}
use kube_baremetal.Agent.{Status}
use kube_baremetal.Agent.Http.{Http}
use kube_baremetal.Api.Meta.{deleting}
use kube_baremetal.Api.Hardware.{
  BareMetalHardware, BareMetalHardwareNic, BareMetalHardwareStatusInstanceRef,
  bare_metal_hardware_taint_key_not_ready as not_ready,
}
use kube_baremetal.Api.Endpoint.{BareMetalEndpoint, is_addressed}
use kube_baremetal.Api.Instance.{
  BareMetalInstance, BareMetalInstanceStatusAgentInfo, instance_networked, instance_imaged,
  instance_cleaned, is_provisioning, is_cleaning, is_terminating, is_terminated,
}
use kube_baremetal.Condition.{
  ConditionType, ConditionStatus, StatusCondition, is_true, is_error, set_condition,
}
use kube_baremetal.Client.{Server, ok, Write, update_instance_status}
use kube_baremetal.Hardware.{has_taint}
use kube_baremetal.Instance.Provisioner.{
  condition_of, new_condition, get_hardware_of, refers_to, is_owned_by,
}
use kube_baremetal.Instance.Provisioner.Agent.{agent_status}

-- The instance is being deleted, and the provisioner has not ended it.
pub record IsLeaving (bmi : BareMetalInstance) : Type 0 where
  pub gone : deleting bmi.meta ≡ true
  pub not_ended : is_terminating bmi.status.phase ≡ false
  pub not_terminated : is_terminated bmi.status.phase ≡ false

-- The instance is to be cleaned off its hardware.
pub record IsCleaning (bmi : BareMetalInstance) : Type 0 where
  pub leaving : IsLeaving bmi
  pub in_phase : is_cleaning bmi.status.phase ≡ true
  pub not_clean : is_true (condition_of instance_cleaned bmi) ≡ false
  pub not_failed : is_error (condition_of instance_cleaned bmi) ≡ false

-- `bmh` is the hardware of the instance, and refers to it.
pub record Holds (server : Server) (bmi : BareMetalInstance) (bmh : BareMetalHardware)
    : Type 0 where
  pub ref : BareMetalHardwareStatusInstanceRef
  pub found : get_hardware_of server bmi ≡ ok bmh
  pub has_ref : bmh.status.instance_ref ≡ some ref
  pub is_mine : refers_to bmi ref ≡ true

-- The instance is to be provisioned onto `bmh`, which takes instances.
pub record IsProvisioning (server : Server) (bmi : BareMetalInstance) (bmh : BareMetalHardware)
    : Type 0 where
  pub stays : deleting bmi.meta ≡ false
  pub in_phase : is_provisioning bmi.status.phase ≡ true
  pub found : get_hardware_of server bmi ≡ ok bmh
  pub kept : deleting bmh.meta ≡ false
  pub ready : has_taint not_ready bmh.spec.taints ≡ false

-- The agent of the instance answers with `answer`.
pub record Answers (http : Http) (bmi : BareMetalInstance) (ip : String) (answer : Option Status)
    : Type 0 where
  pub agent : BareMetalInstanceStatusAgentInfo
  pub known : bmi.status.agent_info ≡ some agent
  pub at_ip : agent.ip ≡ ip
  pub answers : agent_status http ip ≡ ok answer

-- The agent has done the action, with or without an error.
abbrev pub Ended : String → Bool → Status → Type 0
Ended type well status =
    ((status.type == type) ≡ true) × (status.is_done ≡ true) × ((status.error == "") ≡ well)

-- The one endpoint that the instance owns for a nic has its address.
pub record HasAddress (server : Server) (bmi : BareMetalInstance) (nic : BareMetalHardwareNic)
    : Type 0 where
  pub bmes : List BareMetalEndpoint
  pub bme : BareMetalEndpoint
  pub listed : server.list_endpoints_by_instance_nic bmi.meta.name nic.name ≡ ok bmes
  pub only : keep_if (is_owned_by bmi) bmes ≡ bme ∷ []
  pub has_phase : is_addressed bme.status.phase ≡ true

-- `w` stores the instance with a new condition, and nothing else of it changed.
pub data Reports (server : Server) (bmi : BareMetalInstance) (type : ConditionType)
    (status : ConditionStatus) : Write → Type 0 where
  reported :
      {cs : List StatusCondition} (reason message : String)
      → set_condition (new_condition server type status reason message) bmi.status.conditions
        ≡ some cs
      → Reports server bmi type status
          (update_instance_status (record bmi { status = record bmi.status { conditions = cs } }))

-- The images are made on hardware that the instance holds, when its network is configured.
pub record IsImaging (server : Server) (bmi : BareMetalInstance) (bmh : BareMetalHardware)
    : Type 0 where
  pub provisioning : IsProvisioning server bmi bmh
  pub holds : Holds server bmi bmh
  pub networked : is_true (condition_of instance_networked bmi) ≡ true

-- The same, and it is not imaged yet.
pub record IsUnimaged (server : Server) (bmi : BareMetalInstance) (bmh : BareMetalHardware)
    : Type 0 where
  pub imaging : IsImaging server bmi bmh
  pub not_imaged : is_true (condition_of instance_imaged bmi) ≡ false
  pub not_failed : is_error (condition_of instance_imaged bmi) ≡ false
