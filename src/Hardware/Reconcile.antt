-- ===== src/Hardware/Reconcile.antt =====
-- `BareMetalHardwareReconciler.Reconcile` of controllers/baremetalhardware_controller.go: the
-- conditions, the hardware of the discovery, and the whole handler.
use kube_baremetal.Prelude.{
  String, not, Option, none, some, List, [], ◌∷◌, length, ◌==◌, nat_eq, string_eq, if◌then◌else◌,
}
use kube_baremetal.Api.Meta.{NamespacedName, deleting, name_of}
use kube_baremetal.Api.Discovery.{BareMetalDiscovery, BareMetalDiscoveryHardware}
use kube_baremetal.Api.Hardware.{BareMetalHardware, hardware_set, image_drive_valid, nics_valid}
use kube_baremetal.Condition.{status_true, status_false}
use kube_baremetal.Client.{
  Server, Exec, Result, ◌>>=◌, ◌>>◌, write, or_fail, record_event, EventType, normal, warning,
  update_hardware_status, pure, done, requeue, ignore_not_found,
}
use kube_baremetal.Hardware.{finds_nics, finds_drive}
use kube_baremetal.Hardware.Controller.{
  report, remove, taint_unschedulable, taint_not_ready, check_instance,
}

abbrev pub say : BareMetalHardware → EventType → String → Exec (Unit {0})
say bmh type reason = record_event (name_of bmh.meta) type reason

-- The condition `NicsValid`.
unfoldable pub check_nics :
    Server → BareMetalHardware → BareMetalDiscoveryHardware → Exec Result → Exec Result
check_nics server bmh hardware k =
    if not (length bmh.spec.nics == 0)
    then (if finds_nics hardware bmh.spec.nics
        then report server bmh nics_valid status_true "ValidNics" "nics are found"
            (say bmh normal "ValidNics") k
        else report server bmh nics_valid status_false "InvalidNics" "invalid nics"
            (say bmh warning "InvalidNics") k)
    else report server bmh nics_valid status_false "NicsAreNotSet" "nics are not set"
        (say bmh warning "NicsAreNotSet") k

-- The condition `ImageDriveValid`.
unfoldable pub check_drive :
    Server → BareMetalHardware → BareMetalDiscoveryHardware → Exec Result → Exec Result
check_drive server bmh hardware k =
    if not (bmh.spec.image_drive == "")
    then (if finds_drive hardware bmh.spec.image_drive
        then report server bmh image_drive_valid status_true "ValidImageDrive" "found image drive"
            (say bmh normal "ValidImageDrive") k
        else report server bmh image_drive_valid status_false "InvalidImageDrive"
            "invalid image drive" (say bmh warning "InvalidImageDrive") k)
    else report server bmh image_drive_valid status_false "ImageDriveIsNotSet"
        "image drive is not set" (say bmh warning "ImageDriveIsNotSet") k

-- The one discovery's hardware, which may not be there yet.
unfoldable pub copy_hardware :
    Server → BareMetalHardware → Option BareMetalDiscoveryHardware → Exec Result
copy_hardware server bmh none = do say bmh warning "DiscoveryNoHardware"; requeue
copy_hardware server bmh (some hardware) = do
  write server (
      update_hardware_status
        (record bmh { status = record bmh.status { hardware = some hardware } }))
  say bmh normal "DiscoveryFound"
  done

-- The discoveries of the system's UUID.
unfoldable pub discovered : Server → BareMetalHardware → List BareMetalDiscovery → Exec Result
unfolding copy_hardware
discovered server bmh [] = do say bmh warning "DiscoveryNotFound"; requeue
discovered server bmh (bmd ∷ []) = copy_hardware server bmh bmd.status.hardware
discovered server bmh (bmd ∷ other ∷ rest) = do say bmh warning "ManyDiscoveryFound"; requeue

unfoldable pub discover : Server → BareMetalHardware → Exec Result
unfolding discovered
discover server bmh = do
  discoveries ← or_fail (server.list_discoveries_by_system_uuid bmh.spec.system_uuid)
  discovered server bmh discoveries

-- What follows the test of the instance: the checks of the hardware, or the search for it.
unfoldable pub check_hardware :
    Server → BareMetalHardware → Option BareMetalDiscoveryHardware → Exec Result
unfolding check_nics check_drive discover
check_hardware server bmh (some hardware) =
    report server bmh hardware_set status_true "HardwareIsSet" "hardware information is set"
      (pure tt) (check_nics server bmh hardware (check_drive server bmh hardware done))
check_hardware server bmh none =
    report server bmh hardware_set status_false "HardwareIsNotSet" "hardware information is not set"
      (say bmh warning "HardwareIsNotSet") (discover server bmh)

-- The handler of one hardware.
unfoldable pub handle : Server → BareMetalHardware → Exec Result
unfolding check_hardware
handle server bmh =
    if deleting bmh.meta
    then remove server bmh
    else taint_unschedulable server bmh (
        taint_not_ready server bmh (
          check_instance server bmh bmh.status.instance_ref
            (check_hardware server bmh bmh.status.hardware)))

unfoldable pub reconcile : Server → NamespacedName → Exec Result
unfolding handle
reconcile server req = ignore_not_found (server.get_hardware req) (handle server)
