-- ===== src/Instance/Scheduler.antt =====
-- `Scheduler.Reconcile` of controllers/baremetalinstance/scheduler.go
pub mod Move
pub mod Moves
pub mod Placing
use kube_baremetal.Prelude.{
  Bool, false, not, Option, none, some, length, ◌==◌, string_eq, nat_eq, if◌then◌else◌,
}
use kube_baremetal.Api.Meta.{NamespacedName, deleting, name_of}
use kube_baremetal.Api.Instance.{
  BareMetalInstance, BareMetalInstanceStatus, instance_scheduled, is_pending, is_terminating,
  is_terminated, provisioning, terminated,
}
use kube_baremetal.Condition.{
  StatusCondition, ConditionStatus, status_true, status_false, is_status_true, is_true,
  get_condition, set_condition,
}
use kube_baremetal.Client.{
  Server, Exec, Result, ◌>>=◌, ◌>>◌, write, or_fail, or_not_formed, record_event, normal,
  update_instance_status, done, requeue_after, ignore_not_found,
}
use kube_baremetal.Instance.Hardware.{Tools, Sorted, sort, draw, nothing_sorted}

-- The condition that the scheduler sets, with the time of the clock.
abbrev pub scheduled_condition : Server → ConditionStatus → StatusCondition
scheduled_condition server status = record {
  type = instance_scheduled;
  status = status;
  last_transition_time = some server.now;
  reason = "";
  message = "";
}

abbrev pub scheduled_in : BareMetalInstanceStatus → Option StatusCondition
scheduled_in status = get_condition instance_scheduled status.conditions

-- `SetCondition` and the update of the status.
unfoldable pub set_scheduled : Server → BareMetalInstance → ConditionStatus → Exec Result
set_scheduled server bmi status = do
  conditions ←
      or_not_formed (set_condition (scheduled_condition server status) bmi.status.conditions)
  write server (
      update_instance_status
        (record bmi { status = record bmi.status { conditions = conditions } }))
  done

-- The instance is being deleted.
unfoldable pub unschedule : Server → BareMetalInstance → Exec Result
unschedule server bmi =
    if is_terminated bmi.status.phase
    then done
    else if not (is_true (scheduled_in bmi.status))
    then (do
      write server (
          update_instance_status (record bmi { status = record bmi.status { phase = terminated } }))
      done)
    else if not (is_terminating bmi.status.phase)
    then done
    else do
      conditions ←
          or_not_formed
            (set_condition (scheduled_condition server status_false) bmi.status.conditions)
      write server (
          update_instance_status (record bmi {
            status = record bmi.status { conditions = conditions; hardware_name = "" };
          }))
      record_event (name_of bmi.meta) normal "InstanceUnscheduled"
      done

-- What follows the loop over the hardwares.
unfoldable pub place : Server → Tools → BareMetalInstance → Sorted → Exec Result
place server tools bmi s =
    if length s.acceptable == 0
    then (do record_event (name_of bmi.meta) normal "FailedScheduling"; requeue_after 60)
    else do
      name ← draw tools s
      write server (
          update_instance_status
            (record bmi { status = record bmi.status { hardware_name = name } }))
      record_event (name_of bmi.meta) normal "InstanceScheduled"
      done

-- The search for a hardware, which the lock keeps to one instance at a time.
unfoldable pub choose : Server → Tools → BareMetalInstance → Exec Result
unfolding place
choose server tools bmi = do
  total ← or_fail (server.list_hardware_in_namespace bmi.meta.namespace)
  s ← or_fail (sort server tools bmi total nothing_sorted)
  place server tools bmi s

-- The condition of a pending instance, found.
unfoldable pub advance : Server → Tools → BareMetalInstance → Option StatusCondition → Exec Result
unfolding set_scheduled choose
advance server tools bmi none = set_scheduled server bmi status_false
advance server tools bmi (some cond) =
    if is_status_true cond.status
    then (do
      write server (
          update_instance_status
            (record bmi { status = record bmi.status { phase = provisioning } }))
      done)
    else if not (bmi.status.hardware_name == "")
    then set_scheduled server bmi status_true
    else choose server tools bmi

-- The handler of one instance.
unfoldable pub handle : Server → Tools → BareMetalInstance → Exec Result
unfolding unschedule advance
handle server tools bmi =
    if deleting bmi.meta
    then unschedule server bmi
    else if not (is_pending bmi.status.phase)
    then done
    else advance server tools bmi (scheduled_in bmi.status)

unfoldable pub reconcile : Server → Tools → NamespacedName → Exec Result
unfolding handle
reconcile server tools req = ignore_not_found (server.get_instance req) (handle server tools)
