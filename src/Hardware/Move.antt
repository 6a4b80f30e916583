-- ===== src/Hardware/Move.antt =====
-- The writes that `BareMetalHardwareReconciler.Reconcile` may make, and when.
use kube_baremetal.Prelude.{
  ◌≡◌, ◌⊎◌, true, false, none, some, is_some, List, [], ◌∷◌, String, ◌==◌, string_eq, nat_eq,
  length,
}
use kube_baremetal.Api.Meta.{deleting}
use kube_baremetal.Api.Discovery.{BareMetalDiscovery, BareMetalDiscoveryHardware}
use kube_baremetal.Api.Hardware.{
  BareMetalHardware, BareMetalHardwareStatusInstanceRef, bare_metal_hardware_finalizer,
  hardware_set, image_drive_valid, nics_valid, bare_metal_hardware_taint_key_not_ready as not_ready,
  bare_metal_hardware_taint_key_no_schedule as unschedulable,
}
use kube_baremetal.Api.Instance.{BareMetalInstance}
use kube_baremetal.Finalizer.{remove_finalizer}
use kube_baremetal.Condition.{
  ConditionType, StatusCondition, ConditionStatus, status_true, status_false, set_condition,
}
use kube_baremetal.Client.{
  Server, ok, err, not_found, Write, update_hardware, update_hardware_status, delete_instance,
}
use kube_baremetal.Hardware.{has_taint, remove_taint, with_taint, is_ready, finds_nics, finds_drive}
use kube_baremetal.Hardware.Controller.{get_instance_of}

-- What the spec says of the hardware information: the status and the reason of each condition.
pub data Verdict (bmh : BareMetalHardware) : ConditionType → ConditionStatus → String → Type 0 where
  is_set : is_some bmh.status.hardware ≡ true → Verdict bmh hardware_set status_true "HardwareIsSet"
  is_not_set : bmh.status.hardware ≡ none → Verdict bmh hardware_set status_false "HardwareIsNotSet"
  no_nics : (length bmh.spec.nics == 0) ≡ true → Verdict bmh nics_valid status_false "NicsAreNotSet"
  nics_found :
      {h : BareMetalDiscoveryHardware}
      → (length bmh.spec.nics == 0) ≡ false
      → bmh.status.hardware ≡ some h
      → finds_nics h bmh.spec.nics ≡ true
      → Verdict bmh nics_valid status_true "ValidNics"
  nics_missing :
      {h : BareMetalDiscoveryHardware}
      → (length bmh.spec.nics == 0) ≡ false
      → bmh.status.hardware ≡ some h
      → finds_nics h bmh.spec.nics ≡ false
      → Verdict bmh nics_valid status_false "InvalidNics"
  no_drive :
      (bmh.spec.image_drive == "") ≡ true
      → Verdict bmh image_drive_valid status_false "ImageDriveIsNotSet"
  drive_found :
      {h : BareMetalDiscoveryHardware}
      → (bmh.spec.image_drive == "") ≡ false
      → bmh.status.hardware ≡ some h
      → finds_drive h bmh.spec.image_drive ≡ true
      → Verdict bmh image_drive_valid status_true "ValidImageDrive"
  drive_missing :
      {h : BareMetalDiscoveryHardware}
      → (bmh.spec.image_drive == "") ≡ false
      → bmh.status.hardware ≡ some h
      → finds_drive h bmh.spec.image_drive ≡ false
      → Verdict bmh image_drive_valid status_false "InvalidImageDrive"

-- A write of the reconciler of `bmh`.
pub data Move (server : Server) (bmh : BareMetalHardware) : Write → Type 0 where
  release :
      deleting bmh.meta ≡ true
      → has_taint unschedulable bmh.spec.taints ≡ true
      → bmh.status.instance_ref ≡ none
      → Move server bmh (
          update_hardware
            (record bmh { meta = remove_finalizer bmh.meta bare_metal_hardware_finalizer }))
  evict :
      {ref : BareMetalHardwareStatusInstanceRef} {bmi : BareMetalInstance}
      → deleting bmh.meta ≡ true
      → has_taint unschedulable bmh.spec.taints ≡ true
      → bmh.status.instance_ref ≡ some ref
      → get_instance_of server ref ≡ ok bmi
      → (bmi.meta.uid == ref.uid) ≡ true
      → Move server bmh (delete_instance bmi)
  forget :
      {ref : BareMetalHardwareStatusInstanceRef}
      → bmh.status.instance_ref ≡ some ref
      → (get_instance_of server ref ≡ err not_found)
        ⊎ ((bmi : BareMetalInstance) × (get_instance_of server ref ≡ ok bmi)
            × ((bmi.meta.uid == ref.uid) ≡ false))
      → Move server bmh (
          update_hardware_status
            (record bmh { status = record bmh.status { instance_ref = none } }))
  close :
      (deleting bmh.meta ≡ true) ⊎ (bmh.spec.can_provision ≡ false)
      → has_taint unschedulable bmh.spec.taints ≡ false
      → Move server bmh (
          update_hardware (record bmh {
            spec = record bmh.spec { taints = with_taint server.now unschedulable bmh.spec.taints };
          }))
  open_up :
      deleting bmh.meta ≡ false
      → bmh.spec.can_provision ≡ true
      → has_taint unschedulable bmh.spec.taints ≡ true
      → Move server bmh (
          update_hardware (record bmh {
            spec = record bmh.spec { taints = remove_taint unschedulable bmh.spec.taints };
          }))
  hold :
      deleting bmh.meta ≡ false
      → is_ready bmh ≡ false
      → has_taint not_ready bmh.spec.taints ≡ false
      → Move server bmh (
          update_hardware (record bmh {
            spec = record bmh.spec { taints = with_taint server.now not_ready bmh.spec.taints };
          }))
  clear_hold :
      deleting bmh.meta ≡ false
      → is_ready bmh ≡ true
      → has_taint not_ready bmh.spec.taints ≡ true
      → Move server bmh (
          update_hardware (record bmh {
            spec = record bmh.spec { taints = remove_taint not_ready bmh.spec.taints };
          }))
  judge :
      {type : ConditionType} {status : ConditionStatus} {reason : String}
      {cs : List StatusCondition} (message : String)
      → deleting bmh.meta ≡ false
      → Verdict bmh type status reason
      → set_condition
          (record {
            type = type;
            status = status;
            last_transition_time = some server.now;
            reason = reason;
            message = message;
          })
          bmh.status.conditions
        ≡ some cs
      → Move server bmh
          (update_hardware_status (record bmh { status = record bmh.status { conditions = cs } }))
  learn :
      {bmd : BareMetalDiscovery} {h : BareMetalDiscoveryHardware}
      → deleting bmh.meta ≡ false
      → bmh.status.hardware ≡ none
      → server.list_discoveries_by_system_uuid bmh.spec.system_uuid ≡ ok (bmd ∷ [])
      → bmd.status.hardware ≡ some h
      → Move server bmh
          (update_hardware_status (record bmh { status = record bmh.status { hardware = some h } }))
