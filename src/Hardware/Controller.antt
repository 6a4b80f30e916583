-- ===== src/Hardware/Controller.antt =====
-- `BareMetalHardwareReconciler.Reconcile` of controllers/baremetalhardware_controller.go. The steps
-- that go on take what follows them as an argument.
use kube_baremetal.Prelude.{String, not, Option, none, some, ◌==◌, nat_eq, string_eq, if◌then◌else◌}
use kube_baremetal.Api.Meta.{name_of}
use kube_baremetal.Api.Hardware.{
  BareMetalHardware, BareMetalHardwareStatusInstanceRef, bare_metal_hardware_finalizer,
  bare_metal_hardware_taint_key_not_ready, bare_metal_hardware_taint_key_no_schedule,
}
use kube_baremetal.Api.Instance.{BareMetalInstance}
use kube_baremetal.Condition.{ConditionType, ConditionStatus, set_condition, lacks_reason}
use kube_baremetal.Finalizer.{remove_finalizer}
use kube_baremetal.Client.{
  Server, Exec, Result, Reply, ok, err, not_found, fail, ◌>>=◌, ◌>>◌, write, or_not_formed,
  record_event, EventType, normal, warning, update_hardware, update_hardware_status,
  delete_instance, done, requeue_after,
}
use kube_baremetal.Hardware.{has_taint, remove_taint, with_taint, condition_of, is_ready}

-- The taint is added, and the event recorded.
unfoldable pub add_taint : Server → BareMetalHardware → String → EventType → String → Exec Result
add_taint server bmh key type reason = do
  write server (
      update_hardware (record bmh {
        spec = record bmh.spec { taints = with_taint server.now key bmh.spec.taints };
      }))
  record_event (name_of bmh.meta) type reason
  done

-- The first taint of the key goes, and the event is recorded.
unfoldable pub drop_taint : Server → BareMetalHardware → String → String → Exec Result
drop_taint server bmh key reason = do
  write server (
      update_hardware
        (record bmh { spec = record bmh.spec { taints = remove_taint key bmh.spec.taints } }))
  record_event (name_of bmh.meta) normal reason
  done

unfoldable pub clear_instance : Server → BareMetalHardware → Exec Result
clear_instance server bmh = do
  write server
      (update_hardware_status (record bmh { status = record bmh.status { instance_ref = none } }))
  done

-- The instance of the reference: the reference is cleared where there is none or another one.
unfoldable pub with_instance :
    Server
    → BareMetalHardware
    → BareMetalHardwareStatusInstanceRef
    → Reply BareMetalInstance
    → (BareMetalInstance → Exec Result)
    → Exec Result
unfolding clear_instance
with_instance server bmh ref (err not_found) k = clear_instance server bmh
with_instance server bmh ref (err e) k = fail e
with_instance server bmh ref (ok bmi) k =
    if not (bmi.meta.uid == ref.uid) then clear_instance server bmh else k bmi

abbrev pub get_instance_of : Server → BareMetalHardwareStatusInstanceRef → Reply BareMetalInstance
get_instance_of server ref =
    server.get_instance (record { namespace = ref.namespace; name = ref.name })

-- The hardware is being deleted and has the taint.
unfoldable pub finish :
    Server → BareMetalHardware → Option BareMetalHardwareStatusInstanceRef → Exec Result
unfolding with_instance
finish server bmh none = do
  write server (
      update_hardware
        (record bmh { meta = remove_finalizer bmh.meta bare_metal_hardware_finalizer }))
  done
finish server bmh (some ref) = with_instance server bmh ref (get_instance_of server ref) λ bmi. do
  record_event (name_of bmh.meta) normal "FailedDelete"
  write server (delete_instance bmi)
  requeue_after 60

unfoldable pub remove : Server → BareMetalHardware → Exec Result
unfolding add_taint finish
remove server bmh =
    if not (has_taint bare_metal_hardware_taint_key_no_schedule bmh.spec.taints)
    then add_taint server bmh bare_metal_hardware_taint_key_no_schedule normal
        "HardwareNotSchedulable"
    else finish server bmh bmh.status.instance_ref

-- The taint `unschedulable` follows `canProvision`.
unfoldable pub taint_unschedulable : Server → BareMetalHardware → Exec Result → Exec Result
unfolding add_taint drop_taint
taint_unschedulable server bmh k =
    if bmh.spec.can_provision
    then (if has_taint bare_metal_hardware_taint_key_no_schedule bmh.spec.taints
        then drop_taint server bmh bare_metal_hardware_taint_key_no_schedule "HardwareSchedulable"
        else k)
    else if not (has_taint bare_metal_hardware_taint_key_no_schedule bmh.spec.taints)
    then add_taint server bmh bare_metal_hardware_taint_key_no_schedule normal
        "HardwareNotSchedulable"
    else k

-- The taint `not-ready` follows the conditions.
unfoldable pub taint_not_ready : Server → BareMetalHardware → Exec Result → Exec Result
unfolding add_taint drop_taint
taint_not_ready server bmh k =
    if is_ready bmh
    then (if has_taint bare_metal_hardware_taint_key_not_ready bmh.spec.taints
        then drop_taint server bmh bare_metal_hardware_taint_key_not_ready "HardwareReady"
        else k)
    else if not (has_taint bare_metal_hardware_taint_key_not_ready bmh.spec.taints)
    then add_taint server bmh bare_metal_hardware_taint_key_not_ready warning "HardwareNotReady"
    else k

-- A reference to an instance is checked.
unfoldable pub check_instance :
    Server
    → BareMetalHardware
    → Option BareMetalHardwareStatusInstanceRef
    → Exec Result
    → Exec Result
unfolding with_instance
check_instance server bmh none k = k
check_instance server bmh (some ref) k =
    with_instance server bmh ref (get_instance_of server ref) λ _. k

-- The condition is set where its reason is another one, and `say` records the event.
unfoldable pub report :
    Server
    → BareMetalHardware
    → ConditionType
    → ConditionStatus
    → String
    → String
    → Exec (Unit {0})
    → Exec Result
    → Exec Result
report server bmh type status reason message say k =
    if lacks_reason reason (condition_of type bmh)
    then (do
      conditions ← or_not_formed (
          set_condition
            (record {
              type = type;
              status = status;
              last_transition_time = some server.now;
              reason = reason;
              message = message;
            })
            bmh.status.conditions)
      write server (
          update_hardware_status
            (record bmh { status = record bmh.status { conditions = conditions } }))
      say
      done)
    else k
