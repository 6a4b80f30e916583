-- ===== src/Instance/Provisioner.antt =====
-- `Provisioner` of controllers/baremetalinstance/provisioner.go: what the blocks of
-- `Provisioner.Reconcile` share.
pub mod Agent
pub mod Clean
pub mod Claim
pub mod Example
pub mod Network
pub mod Nics
pub mod Links
pub mod Image
pub mod Reconcile
pub mod Safety
pub mod Premises
pub mod Move
pub mod Moves
use kube_baremetal.Prelude.{String, Bool, Option, none, some, any, ◌==◌, string_eq}
use kube_baremetal.Api.Meta.{NamespacedName, name_of}
use kube_baremetal.Api.Hardware.{BareMetalHardware, BareMetalHardwareStatusInstanceRef}
use kube_baremetal.Api.Endpoint.{BareMetalEndpoint}
use kube_baremetal.Api.Instance.{BareMetalInstance, BareMetalInstanceStatusPhase}
use kube_baremetal.Condition.{
  ConditionType, ConditionStatus, StatusCondition, get_condition, set_condition,
}
use kube_baremetal.Client.{
  Server, Exec, Reply, ok, err, not_found, Result, pure, fail, or_not_formed, ◌>>=◌, ◌>>◌, write,
  record_event, EventType, update_instance_status, update_hardware_status, done,
}

abbrev pub condition_of : ConditionType → BareMetalInstance → Option StatusCondition
condition_of type bmi = get_condition type bmi.status.conditions

abbrev pub say : BareMetalInstance → EventType → String → Exec (Unit {0})
say bmi type reason = record_event (name_of bmi.meta) type reason

abbrev pub say_of : BareMetalHardware → EventType → String → Exec (Unit {0})
say_of bmh type reason = record_event (name_of bmh.meta) type reason

-- The condition that a block sets.
abbrev pub new_condition :
    Server → ConditionType → ConditionStatus → String → String → StatusCondition
new_condition server type status reason message = record {
  type = type;
  status = status;
  last_transition_time = some server.now;
  reason = reason;
  message = message;
}

-- `SetCondition`, the update of the status, and what follows.
unfoldable pub put_status : Server → BareMetalInstance → StatusCondition → Exec Result → Exec Result
put_status server bmi new k = do
  conditions ← or_not_formed (set_condition new bmi.status.conditions)
  write server (
      update_instance_status
        (record bmi { status = record bmi.status { conditions = conditions } }))
  k

-- The phase, and no agent with it where the source forgets the agent.
abbrev pub with_phase : BareMetalInstanceStatusPhase → BareMetalInstance → BareMetalInstance
with_phase phase bmi = record bmi { status = record bmi.status { phase = phase } }

abbrev pub without_agent : BareMetalInstance → BareMetalInstance
without_agent bmi = record bmi { status = record bmi.status { agent_info = none } }

unfoldable pub put_instance : Server → BareMetalInstance → Exec Result
put_instance server bmi = do write server (update_instance_status bmi); done

-- `bmh.Status.InstanceRef = ref`
abbrev pub with_ref :
    Option BareMetalHardwareStatusInstanceRef → BareMetalHardware → BareMetalHardware
with_ref ref bmh = record bmh { status = record bmh.status { instance_ref = ref } }

-- The hardware of the instance, by its name.
abbrev pub get_hardware_of : Server → BareMetalInstance → Reply BareMetalHardware
get_hardware_of server bmi =
    server.get_hardware (record { namespace = bmi.meta.namespace; name = bmi.status.hardware_name })

-- `bmh = nil` where it is not found, any other error is returned.
unfoldable pub or_nil : Reply BareMetalHardware → Exec (Option BareMetalHardware)
or_nil (ok bmh) = pure (some bmh)
or_nil (err not_found) = pure none
or_nil (err e) = fail e

-- `bmh.Status.InstanceRef.UID != bmi.UID`, negated.
abbrev pub refers_to : BareMetalInstance → BareMetalHardwareStatusInstanceRef → Bool
refers_to bmi ref = ref.uid == bmi.meta.uid

-- `ownedByUs`: the loop over the owners sets a flag.
unfoldable pub is_owned_by : BareMetalInstance → BareMetalEndpoint → Bool
is_owned_by bmi bme = any (λ ref. ref.uid == bmi.meta.uid) bme.meta.owner_references
