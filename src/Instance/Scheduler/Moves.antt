-- ===== src/Instance/Scheduler/Moves.antt =====
-- Every write of `Scheduler.Reconcile` is a step of the status of the instance.
use kube_baremetal.Prelude.{
  ◌≡◌, refl, true, false, not, Option, none, some, List, arith, ◌==◌, string_eq, length, nat_eq,
}
use kube_baremetal.Api.Meta.{NamespacedName, deleting}
use kube_baremetal.Api.Hardware.{BareMetalHardware}
use kube_baremetal.Api.Instance.{
  BareMetalInstance, instance_scheduled, is_pending, is_terminating, is_terminated,
}
use kube_baremetal.Condition.{
  StatusCondition, ConditionStatus, status_true, status_false, is_status_true, is_true,
  set_condition,
}
use kube_baremetal.Condition.Laws.{Sets, set_condition-Sets}
use kube_baremetal.Client.{Server, ok, or_fail, or_not_formed, done}
use kube_baremetal.Client.Once.{
  Once, IsQuiet, Once-if, Once-write, Once-bind, or_fail-IsQuiet, or_not_formed-IsQuiet,
  or_not_formed-some,
}
use kube_baremetal.Instance.Hardware.{
  Tools, Pointer, bmh_variable, Sorted, sort, draw, nothing_sorted, index, name_behind,
}
use kube_baremetal.Instance.Scheduler
use kube_baremetal.Instance.Scheduler.{
  scheduled_in, scheduled_condition, set_scheduled, unschedule, place, choose, advance,
}
use kube_baremetal.Instance.Scheduler.Move.{
  Move, IsMoveOf, abandon, unassign, announce, enter, confirm, assign,
}

module _ (server : Server) (tools : Tools) (bmi : BareMetalInstance) where
  set_scheduled-Move :
      (status : ConditionStatus)
      → ((cs : List StatusCondition)
          → Sets instance_scheduled status bmi.status.conditions cs
          → Move (deleting bmi.meta) bmi.status (record bmi.status { conditions = cs }))
      → Once (IsMoveOf bmi) (set_scheduled server bmi status)
  unfolding set_scheduled
  set_scheduled-Move status move =
      Once-bind _
        (or_not_formed (set_condition (scheduled_condition server status) bmi.status.conditions)) _
        (or_not_formed-IsQuiet _)
        λ cs h.
          Once-write _ server _ done (record { none_written = refl })
            (
              refl,
              refl,
              move cs (
                  set_condition-Sets (scheduled_condition server status) _ cs
                    (or_not_formed-some _ cs h)),
            )

  unschedule-Move : deleting bmi.meta ≡ true → Once (IsMoveOf bmi) (unschedule server bmi)
  unfolding unschedule
  unschedule-Move d =
      Once-if _ (is_terminated bmi.status.phase) _ _ (λ _. record { at_most = tt })
        λ alive.
          Once-if _ (not (is_true (scheduled_in bmi.status))) _ _
            (λ free.
              Once-write _ server _ done (record { none_written = refl })
                (refl, refl, abandon d alive (ground arith)))
            λ held.
              Once-if _ (not (is_terminating bmi.status.phase)) _ _ (λ _. record { at_most = tt })
                λ ending.
                  Once-bind _
                    (or_not_formed (
                      set_condition (scheduled_condition server status_false)
                        bmi.status.conditions))
                    _ (or_not_formed-IsQuiet _)
                    λ cs h.
                      Once-write _ server _ _ (record { none_written = refl })
                        (
                          refl,
                          refl,
                          unassign d (ground arith) (ground arith) (
                              set_condition-Sets (scheduled_condition server status_false) _ cs
                                (or_not_formed-some _ cs h)),
                        )

  draw-IsQuiet : (s : Sorted) → IsQuiet (draw tools s)
  unfolding draw
  draw-IsQuiet s = drawn (index s.acceptable (tools.intn (length s.acceptable))) s.bmh refl
    where
      drawn :
          (o : Option Pointer) (b : Option BareMetalHardware)
          → s.bmh ≡ b
          → IsQuiet (name_behind s o)
      drawn none b h = record { none_written = refl }
      drawn (some bmh_variable) none h = rw h (record { none_written = refl })
      drawn (some bmh_variable) (some bmh) h = rw h (record { none_written = refl })

  module _ (d : deleting bmi.meta ≡ false) (p : is_pending bmi.status.phase ≡ true) where
    choose-Move :
        is_true (scheduled_in bmi.status) ≡ false
        → (bmi.status.hardware_name == "") ≡ true
        → Once (IsMoveOf bmi) (choose server tools bmi)
    unfolding choose place
    choose-Move free unnamed =
        Once-bind _ (or_fail (server.list_hardware_in_namespace bmi.meta.namespace)) _
          (or_fail-IsQuiet _)
          λ total _.
            Once-bind _ (or_fail (sort server tools bmi total nothing_sorted)) _ (or_fail-IsQuiet _)
              λ s _.
                Once-if _ (length s.acceptable == 0) _ _ (λ _. record { at_most = tt })
                  λ _. Once-bind _ (draw tools s) _ (draw-IsQuiet s) λ name _.
                    Once-write _ server _ _ (record { none_written = refl })
                      (refl, refl, assign d p free unnamed)

    advance-Move :
        (cond : Option StatusCondition)
        → scheduled_in bmi.status ≡ cond
        → Once (IsMoveOf bmi) (advance server tools bmi cond)
    unfolding advance
    advance-Move none h = set_scheduled-Move status_false λ cs s. announce d p h s
    advance-Move (some cond) h =
        Once-if _ (is_status_true cond.status) _ _
          (λ t.
            Once-write _ server _ done (record { none_written = refl })
              (refl, refl, enter d p (ground arith)))
          λ f.
            Once-if _ (not (bmi.status.hardware_name == "")) _ _
              (λ named.
                set_scheduled-Move status_true λ cs s. confirm d p (ground arith) (ground arith) s)
              λ unnamed. choose-Move (ground arith) (ground arith)

  handle-Move : Once (IsMoveOf bmi) (Scheduler.handle server tools bmi)
  unfolding Scheduler.handle
  handle-Move = Once-if _ (deleting bmi.meta) _ _ unschedule-Move λ d.
      Once-if _ (not (is_pending bmi.status.phase)) _ _ (λ _. record { at_most = tt })
        λ p. advance-Move d (ground arith) (scheduled_in bmi.status) refl

-- `Scheduler.Reconcile` of a stored instance writes at most once, and the write moves the status by
-- one step: it touches neither metadata nor spec, nor any condition but `InstanceScheduled`; the
-- instance goes to `Provisioning` only from `Pending` with that condition true, the condition
-- becomes true only with a hardware name set, the name is set only where it is empty and the
-- condition is not true, and is emptied only together with setting the condition to false, of an
-- instance that is being deleted.
pub scheduler_reconcile-Move :
    (server : Server) (tools : Tools) (bmi : BareMetalInstance) (req : NamespacedName)
    → server.get_instance req ≡ ok bmi
    → Once (IsMoveOf bmi) (Scheduler.reconcile server tools req)
unfolding Scheduler.reconcile
scheduler_reconcile-Move server tools bmi req h = rw h (handle-Move server tools bmi)
