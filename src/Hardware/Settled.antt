-- ===== src/Hardware/Settled.antt =====
-- A hardware that `BareMetalHardwareReconciler.Reconcile` leaves as it is.
use kube_baremetal.Prelude.{
  ◌≡◌, refl, subst, Bool, true, false, not, Option, none, some, is_some, arith, String, ◌==◌,
  string_eq, nat_eq, length, if◌then◌else◌, text_eq_iff, inl, inr, List,
}
use kube_baremetal.Api.Meta.{NamespacedName, deleting}
use kube_baremetal.Api.Discovery.{BareMetalDiscoveryHardware}
use kube_baremetal.Api.Hardware.{
  BareMetalHardware, BareMetalHardwareStatusInstanceRef, hardware_set, image_drive_valid,
  nics_valid, bare_metal_hardware_taint_key_not_ready as not_ready,
  bare_metal_hardware_taint_key_no_schedule as unschedulable,
}
use kube_baremetal.Api.Instance.{BareMetalInstance}
use kube_baremetal.Condition.{
  ConditionType, ConditionStatus, StatusCondition, lacks_reason, set_condition,
}
use kube_baremetal.Client.{
  Server, Exec, EventType, Result, Reply, ok, err, not_found, condition_not_formed, api_status,
  failure, or_not_formed, write, done, ignore_not_found, ◌>>◌, ◌>>=◌, update_hardware_status,
}
use kube_baremetal.Client.Quiet.{Rests, write-Rests, if-Rests, or_not_formed-Rests}
use kube_baremetal.Hardware.{has_taint, condition_of, is_ready, finds_nics, finds_drive}
use kube_baremetal.Hardware.Controller.{
  add_taint, drop_taint, clear_instance, with_instance, get_instance_of, remove,
  taint_unschedulable, taint_not_ready, check_instance, report,
}
use kube_baremetal.Hardware.Move.{
  Verdict, is_set, no_nics, nics_found, nics_missing, no_drive, drive_found, drive_missing,
}
use kube_baremetal.Hardware.Reconcile
use kube_baremetal.Hardware.Reconcile.{check_nics, check_drive, check_hardware}

-- The condition has the reason of what holds of the spec and the hardware information.
pub record IsJudged (bmh : BareMetalHardware) (type : ConditionType) : Type 0 where
  pub status : ConditionStatus
  pub reason : String
  pub verdict : Verdict bmh type status reason
  pub reported : lacks_reason reason (condition_of type bmh) ≡ false

-- The taints follow the spec and the conditions, the conditions follow the spec and the hardware
-- information, and an instance that is referred to is there.
pub record IsSettled (server : Server) (bmh : BareMetalHardware) : Type 0 where
  pub schedulable : has_taint unschedulable bmh.spec.taints ≡ not bmh.spec.can_provision
  pub ready : has_taint not_ready bmh.spec.taints ≡ not (is_ready bmh)
  pub referred :
      (ref : BareMetalHardwareStatusInstanceRef)
      → bmh.status.instance_ref ≡ some ref
      → (bmi : BareMetalInstance) × (get_instance_of server ref ≡ ok bmi) × (bmi.meta.uid ≡ ref.uid)
  pub known : IsJudged bmh hardware_set
  pub nics : IsJudged bmh nics_valid
  pub drive : IsJudged bmh image_drive_valid

some_injective {ℓ} : {A : Type ℓ} {a b : A} → some a ≡ some b → a ≡ b
some_injective h = cc

is_some_of :
    {o : Option BareMetalDiscoveryHardware} {hardware : BareMetalDiscoveryHardware}
    → o ≡ some hardware
    → is_some o ≡ true
is_some_of h = ground arith

module _ (server : Server) (bmh : BareMetalHardware) where
  add_taint-Rests :
      (key reason : String) (type : EventType) → Rests (add_taint server bmh key type reason) → ⊥
  unfolding add_taint
  add_taint-Rests key reason type r = write-Rests server _ _ r

  drop_taint-Rests : (key reason : String) → Rests (drop_taint server bmh key reason) → ⊥
  unfolding drop_taint
  drop_taint-Rests key reason r = write-Rests server _ _ r

  -- A taint is added where it is wanted and missing, dropped where it is there and not wanted.
  follows :
      (unwanted there : Bool) (k : Exec Result) (key added dropped : String) (type : EventType)
      → Rests (
          if unwanted
          then (if there then drop_taint server bmh key dropped else k)
          else if not there
          then add_taint server bmh key type added
          else k)
      → (there ≡ not unwanted) × Rests k
  follows true true k key added dropped type r = absurd (drop_taint-Rests key dropped r)
  follows true false k key added dropped type r = (refl, r)
  follows false true k key added dropped type r = (refl, r)
  follows false false k key added dropped type r = absurd (add_taint-Rests key added type r)

  with_instance-Rests :
      (ref : BareMetalHardwareStatusInstanceRef) (reply : Reply BareMetalInstance) (k : Exec Result)
      → Rests (with_instance server bmh ref reply (λ _. k))
      → ((bmi : BareMetalInstance) × (reply ≡ ok bmi) × (bmi.meta.uid ≡ ref.uid)) × Rests k
  unfolding with_instance clear_instance
  with_instance-Rests ref (err not_found) k r = absurd (write-Rests server _ done r)
  with_instance-Rests ref (err condition_not_formed) k r = absurd (cc r.completes)
  with_instance-Rests ref (err (api_status n)) k r = absurd (cc r.completes)
  with_instance-Rests ref (err (failure e)) k r = absurd (cc r.completes)
  with_instance-Rests ref (ok bmi) k r =
      elim (if-Rests (not (bmi.meta.uid == ref.uid)) (clear_instance server bmh) k r) [
        | inl (t, r') ↦ absurd (write-Rests server _ done r')
        | inr (f, r') ↦ ((bmi, refl, (text_eq_iff _ _).0 (ground arith)), r')
      ]

  judged :
      {type : ConditionType} {status : ConditionStatus} {reason : String}
      → Verdict bmh type status reason
      → lacks_reason reason (condition_of type bmh) ≡ false
      → IsJudged bmh type
  judged {status} {reason} v e = record {
    status = status;
    reason = reason;
    verdict = v;
    reported = e;
  }

  report-Rests :
      (type : ConditionType) (status : ConditionStatus) (reason message : String)
      (what : Exec (Unit {0})) (k : Exec Result)
      → Rests (report server bmh type status reason message what k)
      → (lacks_reason reason (condition_of type bmh) ≡ false) × Rests k
  unfolding report
  report-Rests type status reason message what k r =
      let set = or_not_formed (
        set_condition
          (record {
            type = type;
            status = status;
            last_transition_time = some server.now;
            reason = reason;
            message = message;
          })
          bmh.status.conditions) in
      let update = λ (cs : List StatusCondition).
        update_hardware_status (record bmh { status = record bmh.status { conditions = cs } }) in
      elim (if-Rests (lacks_reason reason (condition_of type bmh))
        (set >>= λ cs. write server (update cs) >> (what >> done)) k r) [
          | inl (t, r') ↦ absurd (or_not_formed-Rests server _ update (what >> done) r')
          | inr (f, r') ↦ (f, r')
        ]

  check_nics-Rests :
      (hardware : BareMetalDiscoveryHardware) (k : Exec Result)
      → bmh.status.hardware ≡ some hardware
      → Rests (check_nics server bmh hardware k)
      → IsJudged bmh nics_valid × Rests k
  unfolding check_nics
  check_nics-Rests hardware k h r = elim (if-Rests (not (length bmh.spec.nics == 0)) _ _ r) [
    | inl (t, r') ↦ elim (if-Rests (finds_nics hardware bmh.spec.nics) _ _ r') [
      | inl (f, q) ↦
          let (e, q') = report-Rests _ _ _ _ _ k q in (judged (nics_found (ground arith) h f) e, q')
      | inr (f, q) ↦
          let (e, q') = report-Rests _ _ _ _ _ k q in
          (judged (nics_missing (ground arith) h f) e, q')
    ]
    | inr (t, r') ↦
        let (e, q') = report-Rests _ _ _ _ _ k r' in (judged (no_nics (ground arith)) e, q')
  ]

  check_drive-Rests :
      (hardware : BareMetalDiscoveryHardware) (k : Exec Result)
      → bmh.status.hardware ≡ some hardware
      → Rests (check_drive server bmh hardware k)
      → IsJudged bmh image_drive_valid × Rests k
  unfolding check_drive
  check_drive-Rests hardware k h r = elim (if-Rests (not (bmh.spec.image_drive == "")) _ _ r) [
    | inl (t, r') ↦ elim (if-Rests (finds_drive hardware bmh.spec.image_drive) _ _ r') [
      | inl (f, q) ↦
          let (e, q') = report-Rests _ _ _ _ _ k q in
          (judged (drive_found (ground arith) h f) e, q')
      | inr (f, q) ↦
          let (e, q') = report-Rests _ _ _ _ _ k q in
          (judged (drive_missing (ground arith) h f) e, q')
    ]
    | inr (t, r') ↦
        let (e, q') = report-Rests _ _ _ _ _ k r' in (judged (no_drive (ground arith)) e, q')
  ]

  check_instance-Rests :
      (o : Option BareMetalHardwareStatusInstanceRef) (k : Exec Result)
      → Rests (check_instance server bmh o k)
      → ((ref : BareMetalHardwareStatusInstanceRef)
          → o ≡ some ref
          → (bmi : BareMetalInstance) × (get_instance_of server ref ≡ ok bmi)
            × (bmi.meta.uid ≡ ref.uid))
        × Rests k
  unfolding check_instance
  check_instance-Rests none k r = (λ ref h. absurd (ground arith), r)
  check_instance-Rests (some ref) k r =
      let (there, q) = with_instance-Rests ref (get_instance_of server ref) k r in
      (
        λ ref' h.
            subst
              (λ (x : BareMetalHardwareStatusInstanceRef).
                (bmi : BareMetalInstance) × (get_instance_of server x ≡ ok bmi)
                × (bmi.meta.uid ≡ x.uid))
              (some_injective h) there,
        q,
      )

  -- What the handler runs of a hardware that is not being deleted.
  abbrev upkeep : Option BareMetalDiscoveryHardware → Exec Result
  upkeep hardware = taint_unschedulable server bmh (
      taint_not_ready server bmh
        (check_instance server bmh bmh.status.instance_ref (check_hardware server bmh hardware)))

  handle-upkeep :
      deleting bmh.meta ≡ false
      → Rests (Reconcile.handle server bmh)
      → Rests (upkeep bmh.status.hardware)
  unfolding Reconcile.handle
  handle-upkeep d r =
      elim (if-Rests (deleting bmh.meta) (remove server bmh) (upkeep bmh.status.hardware) r) [
        | inl (t, _) ↦ absurd cc
        | inr (_, q) ↦ q
      ]

  handle-IsSettled :
      (hardware : BareMetalDiscoveryHardware)
      → deleting bmh.meta ≡ false
      → bmh.status.hardware ≡ some hardware
      → Rests (Reconcile.handle server bmh)
      → IsSettled server bmh
  unfolding taint_unschedulable taint_not_ready check_hardware
  handle-IsSettled hardware d h r =
      let r0 = subst (λ o. Rests (upkeep o)) h (handle-upkeep d r) in
      let (schedulable, r1) = follows _ _ _ _ _ _ _ r0 in
      let (ready, r2) = follows _ _ _ _ _ _ _ r1 in
      let (referred, r3) = check_instance-Rests bmh.status.instance_ref _ r2 in
      let (known, r4) = report-Rests _ _ _ _ _ _ r3 in
      let (nics, r5) = check_nics-Rests hardware _ h r4 in
      let (drive, _) = check_drive-Rests hardware done h r5 in
      record {
        schedulable = schedulable;
        ready = ready;
        referred = referred;
        known = judged (is_set (is_some_of h)) known;
        nics = nics;
        drive = drive;
      }

-- A hardware that is not being deleted and whose hardware information is set is settled wherever
-- `BareMetalHardwareReconciler.Reconcile` completes and writes nothing: it has the taint
-- `unschedulable` where it cannot be provisioned and only there, and the taint `not-ready` where one
-- of its three conditions is not true and only there; each of the conditions has the reason that fits
-- the spec and the hardware information; and an instance that it refers to is there, with that UID.
pub hardware_reconcile-IsSettled :
    (server : Server) (bmh : BareMetalHardware) (req : NamespacedName)
    (hardware : BareMetalDiscoveryHardware)
    → server.get_hardware req ≡ ok bmh
    → deleting bmh.meta ≡ false
    → bmh.status.hardware ≡ some hardware
    → Rests (Reconcile.reconcile server req)
    → IsSettled server bmh
unfolding Reconcile.reconcile
hardware_reconcile-IsSettled server bmh req hardware h d known r =
    handle-IsSettled server bmh hardware d known
      (subst (λ reply. Rests (ignore_not_found reply (Reconcile.handle server))) h r)
