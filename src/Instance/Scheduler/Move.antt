-- ===== src/Instance/Scheduler/Move.antt =====
-- The steps of the status of an instance that `Scheduler.Reconcile` may take.
use kube_baremetal.Prelude.{◌≡◌, Bool, true, false, none, List, String, ◌==◌, string_eq, nat_eq}
use kube_baremetal.Api.Meta.{deleting}
use kube_baremetal.Api.Instance.{
  BareMetalInstance, BareMetalInstanceStatus, instance_scheduled, is_pending, is_terminating,
  is_terminated, provisioning, terminated,
}
use kube_baremetal.Condition.{StatusCondition, status_true, status_false, is_true}
use kube_baremetal.Condition.Laws.{Sets}
use kube_baremetal.Client.{Write, update_instance_status}
use kube_baremetal.Instance.Scheduler.{scheduled_in}

-- A step of the status `s`; `d` says that the instance is being deleted.
pub data Move (d : Bool) (s : BareMetalInstanceStatus) : BareMetalInstanceStatus → Type 0 where
  abandon :
      d ≡ true
      → is_terminated s.phase ≡ false
      → is_true (scheduled_in s) ≡ false
      → Move d s (record s { phase = terminated })
  unassign :
      {cs : List StatusCondition}
      → d ≡ true
      → is_terminating s.phase ≡ true
      → is_true (scheduled_in s) ≡ true
      → Sets instance_scheduled status_false s.conditions cs
      → Move d s (record s { conditions = cs; hardware_name = "" })
  announce :
      {cs : List StatusCondition}
      → d ≡ false
      → is_pending s.phase ≡ true
      → scheduled_in s ≡ none
      → Sets instance_scheduled status_false s.conditions cs
      → Move d s (record s { conditions = cs })
  enter :
      d ≡ false
      → is_pending s.phase ≡ true
      → is_true (scheduled_in s) ≡ true
      → Move d s (record s { phase = provisioning })
  confirm :
      {cs : List StatusCondition}
      → d ≡ false
      → is_pending s.phase ≡ true
      → is_true (scheduled_in s) ≡ false
      → (s.hardware_name == "") ≡ false
      → Sets instance_scheduled status_true s.conditions cs
      → Move d s (record s { conditions = cs })
  assign :
      {name : String}
      → d ≡ false
      → is_pending s.phase ≡ true
      → is_true (scheduled_in s) ≡ false
      → (s.hardware_name == "") ≡ true
      → Move d s (record s { hardware_name = name })

-- A write that moves the status of `bmi` by one step and leaves the rest of it alone.
abbrev pub IsMoveOf : BareMetalInstance → Write → Type 0
IsMoveOf bmi (update_instance_status e) =
    (e.meta ≡ bmi.meta) × (e.spec ≡ bmi.spec) × Move (deleting bmi.meta) bmi.status e.status
IsMoveOf bmi _ = ⊥
