-- ===== src/Instance/Provisioner/Claim.antt =====
-- `Provisioner.Reconcile` of controllers/baremetalinstance/provisioner.go: the hardware that an
-- instance is provisioned onto.
use kube_baremetal.Prelude.{Option, none, some, not, if◌then◌else◌}
use kube_baremetal.Api.Meta.{deleting}
use kube_baremetal.Api.Hardware.{
  BareMetalHardware, BareMetalHardwareStatusInstanceRef,
  bare_metal_hardware_taint_key_not_ready as not_ready,
}
use kube_baremetal.Api.Instance.{BareMetalInstance}
use kube_baremetal.Client.{
  Server, Exec, Result, ◌>>◌, write, normal, warning, update_hardware_status, done, requeue_after,
}
use kube_baremetal.Hardware.{has_taint}
use kube_baremetal.Instance.Provisioner.{say, say_of, with_ref, refers_to}

-- The reference to the instance.
abbrev pub ref_of : BareMetalInstance → BareMetalHardwareStatusInstanceRef
ref_of bmi = record { name = bmi.meta.name; namespace = bmi.meta.namespace; uid = bmi.meta.uid }

-- The hardware is not to be provisioned onto.
unfoldable pub cannot_provision : BareMetalInstance → Exec Result
cannot_provision bmi = do say bmi warning "InstanceProvisioning"; done

-- A hardware without a reference is claimed, else `k` follows.
unfoldable pub claimed :
    Server
    → BareMetalInstance
    → BareMetalHardware
    → Option BareMetalHardwareStatusInstanceRef
    → Exec Result
    → Exec Result
claimed server bmi bmh none k = do
  write server (update_hardware_status (with_ref (some (ref_of bmi)) bmh))
  say_of bmh normal "InstanceScheduled"
  done
claimed server bmi bmh (some ref) k = k

-- The loop over the taints comes first.
unfoldable pub claim :
    Server
    → BareMetalInstance
    → BareMetalHardware
    → Option BareMetalHardwareStatusInstanceRef
    → Exec Result
    → Exec Result
unfolding claimed
claim server bmi bmh ref k =
    if has_taint not_ready bmh.spec.taints
    then (do say bmi warning "InstanceProvisioning"; requeue_after 30)
    else claimed server bmi bmh ref k

-- The reference, read: another instance's hardware is left alone.
unfoldable pub check_reference :
    Server
    → BareMetalInstance
    → BareMetalHardware
    → Option BareMetalHardwareStatusInstanceRef
    → Exec Result
    → Exec Result
unfolding claim cannot_provision
check_reference server bmi bmh none k = claim server bmi bmh none k
check_reference server bmi bmh (some ref) k =
    if not (refers_to bmi ref) then cannot_provision bmi else claim server bmi bmh (some ref) k

-- The hardware, which may be gone; `k` is what follows on a hardware that the instance holds.
unfoldable pub check_hardware :
    Server
    → BareMetalInstance
    → Option BareMetalHardware
    → (BareMetalHardware → Exec Result)
    → Exec Result
unfolding cannot_provision check_reference
check_hardware server bmi none k = cannot_provision bmi
check_hardware server bmi (some bmh) k =
    if deleting bmh.meta
    then cannot_provision bmi
    else check_reference server bmi bmh bmh.status.instance_ref (k bmh)
