-- ===== src/Hardware/Moves.antt =====
-- Every write of `BareMetalHardwareReconciler.Reconcile` is one that it may make.
use kube_baremetal.Prelude.{
  ◌≡◌, refl, ◌⊎◌, inl, inr, true, false, not, Option, none, some, List, [], ◌∷◌, arith, String,
  ◌==◌, string_eq, nat_eq, length,
}
use kube_baremetal.Api.Meta.{NamespacedName, deleting}
use kube_baremetal.Api.Discovery.{BareMetalDiscovery, BareMetalDiscoveryHardware}
use kube_baremetal.Api.Hardware.{
  BareMetalHardware, BareMetalHardwareStatusInstanceRef,
  bare_metal_hardware_taint_key_not_ready as not_ready,
  bare_metal_hardware_taint_key_no_schedule as unschedulable,
}
use kube_baremetal.Api.Instance.{BareMetalInstance}
use kube_baremetal.Condition.{ConditionType, ConditionStatus, lacks_reason, set_condition}
use kube_baremetal.Client.{
  Server, Exec, Result, Reply, ok, err, not_found, condition_not_formed, api_status, failure, ◌>>◌,
  or_fail, or_not_formed, normal, delete_instance, write, done, requeue_after,
}
use kube_baremetal.Client.Once.{
  Once, IsQuiet, Once-if, Once-write, Once-bind, or_fail-IsQuiet, or_fail-ok, or_not_formed-IsQuiet,
  or_not_formed-some,
}
use kube_baremetal.Hardware.{has_taint, condition_of, is_ready, finds_nics, finds_drive}
use kube_baremetal.Hardware.Controller.{
  add_taint, drop_taint, clear_instance, with_instance, get_instance_of, finish, remove,
  taint_unschedulable, taint_not_ready, check_instance, report,
}
use kube_baremetal.Hardware.Reconcile
use kube_baremetal.Hardware.Reconcile.{
  check_nics, check_drive, copy_hardware, discovered, discover, check_hardware, say,
}
use kube_baremetal.Hardware.Move.{
  Verdict, is_set, is_not_set, no_nics, nics_found, nics_missing, no_drive, drive_found,
  drive_missing, Move, release, evict, forget, close, open_up, hold, clear_hold, judge, learn,
}

module _ (server : Server) (bmh : BareMetalHardware) where
  abbrev Moves : Exec Result → Type 0
  Moves m = Once (Move server bmh) m

  clear-Moves :
      (ref : BareMetalHardwareStatusInstanceRef)
      → bmh.status.instance_ref ≡ some ref
      → (get_instance_of server ref ≡ err not_found)
        ⊎ ((bmi : BareMetalInstance) × (get_instance_of server ref ≡ ok bmi)
            × ((bmi.meta.uid == ref.uid) ≡ false))
      → Moves (clear_instance server bmh)
  unfolding clear_instance
  clear-Moves ref r gone =
      Once-write _ server _ done (record { none_written = refl }) (forget r gone)

  with_instance-Moves :
      (ref : BareMetalHardwareStatusInstanceRef) (reply : Reply BareMetalInstance)
      (k : BareMetalInstance → Exec Result)
      → bmh.status.instance_ref ≡ some ref
      → get_instance_of server ref ≡ reply
      → ((bmi : BareMetalInstance)
          → get_instance_of server ref ≡ ok bmi
          → (bmi.meta.uid == ref.uid) ≡ true
          → Moves (k bmi))
      → Moves (with_instance server bmh ref reply k)
  unfolding with_instance
  with_instance-Moves ref (err not_found) k r h moves = clear-Moves ref r (inl h)
  with_instance-Moves ref (err condition_not_formed) k r h moves = record { at_most = tt }
  with_instance-Moves ref (err (api_status n)) k r h moves = record { at_most = tt }
  with_instance-Moves ref (err (failure e)) k r h moves = record { at_most = tt }
  with_instance-Moves ref (ok bmi) k r h moves =
      Once-if _ (not (bmi.meta.uid == ref.uid)) _ _
        (λ other. clear-Moves ref r (inr (bmi, h, ground arith)))
        (λ same. moves bmi h (ground arith))

  finish-Moves :
      (ref : Option BareMetalHardwareStatusInstanceRef)
      → deleting bmh.meta ≡ true
      → has_taint unschedulable bmh.spec.taints ≡ true
      → bmh.status.instance_ref ≡ ref
      → Moves (finish server bmh ref)
  unfolding finish
  finish-Moves none d t r =
      Once-write _ server _ done (record { none_written = refl }) (release d t r)
  finish-Moves (some ref) d t r =
      with_instance-Moves ref (get_instance_of server ref) _ r refl λ bmi h same.
        Once-bind _ (say bmh normal "FailedDelete")
          (λ _. write server (delete_instance bmi) >> requeue_after 60)
          (record { none_written = refl })
          λ _ _.
            Once-write _ server (delete_instance bmi) (requeue_after 60)
              (record { none_written = refl }) (evict d t r h same)

  remove-Moves : deleting bmh.meta ≡ true → Moves (remove server bmh)
  unfolding remove add_taint
  remove-Moves d =
      Once-if _ (not (has_taint unschedulable bmh.spec.taints)) _ _
        (λ t.
          Once-write _ server _ _ (record { none_written = refl }) (close (inl d) (ground arith)))
        (λ t. finish-Moves bmh.status.instance_ref d (ground arith) refl)

  module _ (d : deleting bmh.meta ≡ false) where
    taint_unschedulable-Moves :
        (k : Exec Result) → Moves k → Moves (taint_unschedulable server bmh k)
    unfolding taint_unschedulable add_taint drop_taint
    taint_unschedulable-Moves k moves =
        Once-if _ bmh.spec.can_provision _ _
          (λ can.
            Once-if _ (has_taint unschedulable bmh.spec.taints) _ _
              (λ t. Once-write _ server _ _ (record { none_written = refl }) (open_up d can t))
              (λ _. moves))
          (λ cannot.
            Once-if _ (not (has_taint unschedulable bmh.spec.taints)) _ _
              (λ t.
                Once-write _ server _ _ (record { none_written = refl })
                  (close (inr cannot) (ground arith)))
              (λ _. moves))

    taint_not_ready-Moves : (k : Exec Result) → Moves k → Moves (taint_not_ready server bmh k)
    unfolding taint_not_ready add_taint drop_taint
    taint_not_ready-Moves k moves =
        Once-if _ (is_ready bmh) _ _
          (λ ready.
            Once-if _ (has_taint not_ready bmh.spec.taints) _ _
              (λ t. Once-write _ server _ _ (record { none_written = refl }) (clear_hold d ready t))
              (λ _. moves))
          (λ unready.
            Once-if _ (not (has_taint not_ready bmh.spec.taints)) _ _
              (λ t.
                Once-write _ server _ _ (record { none_written = refl })
                  (hold d unready (ground arith)))
              (λ _. moves))

    check_instance-Moves :
        (ref : Option BareMetalHardwareStatusInstanceRef) (k : Exec Result)
        → bmh.status.instance_ref ≡ ref
        → Moves k
        → Moves (check_instance server bmh ref k)
    unfolding check_instance
    check_instance-Moves none k r moves = moves
    check_instance-Moves (some ref) k r moves =
        with_instance-Moves ref (get_instance_of server ref) _ r refl λ _ _ _. moves

    report-Moves :
        (type : ConditionType) (status : ConditionStatus) (reason message : String)
        (what : Exec (Unit {0})) (k : Exec Result)
        → IsQuiet (what >> done)
        → Verdict bmh type status reason
        → Moves k
        → Moves (report server bmh type status reason message what k)
    unfolding report
    report-Moves type status reason message what k quiet v moves =
        Once-if _ (lacks_reason reason (condition_of type bmh)) _ _
          (λ _.
            Once-bind _
              (or_not_formed (
                set_condition
                  (record {
                    type = type;
                    status = status;
                    last_transition_time = some server.now;
                    reason = reason;
                    message = message;
                  })
                  bmh.status.conditions))
              _ (or_not_formed-IsQuiet _)
              λ cs h.
                Once-write _ server _ (what >> done) quiet
                  (judge message d v (or_not_formed-some _ cs h)))
          (λ _. moves)

    check_nics-Moves :
        (hardware : BareMetalDiscoveryHardware) (k : Exec Result)
        → bmh.status.hardware ≡ some hardware
        → Moves k
        → Moves (check_nics server bmh hardware k)
    unfolding check_nics
    check_nics-Moves hardware k h moves =
        Once-if _ (not (length bmh.spec.nics == 0)) _ _
          (λ set.
            Once-if _ (finds_nics hardware bmh.spec.nics) _ _
              (λ f.
                report-Moves _ _ _ _ _ k (record { none_written = refl })
                  (nics_found (ground arith) h f) moves)
              (λ f.
                report-Moves _ _ _ _ _ k (record { none_written = refl })
                  (nics_missing (ground arith) h f) moves))
          (λ e.
            report-Moves _ _ _ _ _ k (record { none_written = refl }) (no_nics (ground arith))
              moves)

    check_drive-Moves :
        (hardware : BareMetalDiscoveryHardware) (k : Exec Result)
        → bmh.status.hardware ≡ some hardware
        → Moves k
        → Moves (check_drive server bmh hardware k)
    unfolding check_drive
    check_drive-Moves hardware k h moves =
        Once-if _ (not (bmh.spec.image_drive == "")) _ _
          (λ set.
            Once-if _ (finds_drive hardware bmh.spec.image_drive) _ _
              (λ f.
                report-Moves _ _ _ _ _ k (record { none_written = refl })
                  (drive_found (ground arith) h f) moves)
              (λ f.
                report-Moves _ _ _ _ _ k (record { none_written = refl })
                  (drive_missing (ground arith) h f) moves))
          (λ e.
            report-Moves _ _ _ _ _ k (record { none_written = refl }) (no_drive (ground arith))
              moves)

    discovered-Moves :
        (bmds : List BareMetalDiscovery)
        → bmh.status.hardware ≡ none
        → server.list_discoveries_by_system_uuid bmh.spec.system_uuid ≡ ok bmds
        → Moves (discovered server bmh bmds)
    unfolding discovered copy_hardware
    discovered-Moves [] n l = record { at_most = tt }
    discovered-Moves (bmd ∷ other ∷ rest) n l = record { at_most = tt }
    discovered-Moves (bmd ∷ []) n l = copies bmd.status.hardware refl
      where
        copies :
            (o : Option BareMetalDiscoveryHardware)
            → bmd.status.hardware ≡ o
            → Moves (copy_hardware server bmh o)
        copies none h = record { at_most = tt }
        copies (some hardware) h =
            Once-write _ server _ _ (record { none_written = refl }) (learn d n l h)

    discover-Moves : bmh.status.hardware ≡ none → Moves (discover server bmh)
    unfolding discover
    discover-Moves n =
        Once-bind _ (or_fail (server.list_discoveries_by_system_uuid bmh.spec.system_uuid)) _
          (or_fail-IsQuiet _) λ bmds l. discovered-Moves bmds n (or_fail-ok _ bmds l)

    check_hardware-Moves :
        (hardware : Option BareMetalDiscoveryHardware)
        → bmh.status.hardware ≡ hardware
        → Moves (check_hardware server bmh hardware)
    unfolding check_hardware
    check_hardware-Moves none h =
        report-Moves _ _ _ _ _ _ (record { none_written = refl }) (is_not_set h) (discover-Moves h)
    check_hardware-Moves (some hardware) h =
        report-Moves _ _ _ _ _ _ (record { none_written = refl }) (is_set (ground arith))
          (check_nics-Moves hardware _ h
            (check_drive-Moves hardware done h (record { at_most = tt })))

  handle-Moves : Moves (Reconcile.handle server bmh)
  unfolding Reconcile.handle
  handle-Moves = Once-if _ (deleting bmh.meta) _ _ remove-Moves λ d. taint_unschedulable-Moves d _ (
      taint_not_ready-Moves d _ (
        check_instance-Moves d bmh.status.instance_ref _ refl
          (check_hardware-Moves d bmh.status.hardware refl)))

-- `BareMetalHardwareReconciler.Reconcile` of a stored hardware writes at most once: a taint that
-- follows `canProvision` or the conditions; a condition, whose status and reason say what holds of
-- the spec and the hardware information; the hardware information of the one discovery; no
-- reference to an instance, where the instance is not there or another one; and, of a hardware that
-- is being deleted and has its taint, the deletion of its instance, and the hardware without its
-- finalizer only where no instance is referred to.
pub hardware_reconcile-Move :
    (server : Server) (bmh : BareMetalHardware) (req : NamespacedName)
    → server.get_hardware req ≡ ok bmh
    → Once (Move server bmh) (Reconcile.reconcile server req)
unfolding Reconcile.reconcile
hardware_reconcile-Move server bmh req h = rw h (handle-Moves server bmh)
