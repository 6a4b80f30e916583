-- ===== src/Instance/Provisioner/Reconcile.antt =====
-- `Provisioner.Reconcile` of controllers/baremetalinstance/provisioner.go: the conditions that order
-- the blocks, and the map of `SetupWithManager`.
use kube_baremetal.Prelude.{Option, none, some, List, [], ◌∷◌, not, if◌then◌else◌}
use kube_baremetal.Ip.Text.{NetText}
use kube_baremetal.Agent.Http.{Http}
use kube_baremetal.Api.Meta.{NamespacedName, deleting}
use kube_baremetal.Api.Hardware.{BareMetalHardware, BareMetalHardwareStatusInstanceRef}
use kube_baremetal.Api.Instance.{
  BareMetalInstance, instance_scheduled, instance_networked, instance_imaged, is_provisioning,
}
use kube_baremetal.Condition.{
  StatusCondition, status_false, is_true, is_status_true, is_status_false,
}
use kube_baremetal.Client.{Server, Exec, Result, ◌>>=◌, done, ignore_not_found}
use kube_baremetal.Instance.Provisioner.{
  condition_of, put_status, new_condition, get_hardware_of, or_nil,
}
use kube_baremetal.Instance.Provisioner.Clean.{clean}
use kube_baremetal.Instance.Provisioner.Claim.{check_hardware}
use kube_baremetal.Instance.Provisioner.Network.{check_nics}
use kube_baremetal.Instance.Provisioner.Image.{Printer, image_condition}

-- The condition `InstanceNetworkConfigured`, read.
unfoldable pub network_condition :
    Server
    → Http
    → Printer
    → NetText
    → BareMetalInstance
    → BareMetalHardware
    → Option StatusCondition
    → Exec Result
unfolding put_status check_nics image_condition
network_condition server http printer net bmi bmh none =
    put_status server bmi (new_condition server instance_networked status_false "" "") done
network_condition server http printer net bmi bmh (some networked) =
    if is_status_false networked.status
    then check_nics server bmi bmh bmh.spec.nics
    else if is_status_true networked.status
    then image_condition server http printer net bmi bmh (condition_of instance_imaged bmi)
    else done

-- What follows the block of the instances that are being deleted.
unfoldable pub provision : Server → Http → Printer → NetText → BareMetalInstance → Exec Result
unfolding or_nil check_hardware network_condition
provision server http printer net bmi = if not (is_provisioning bmi.status.phase) then done else do
  bmh ← or_nil (get_hardware_of server bmi)
  check_hardware server bmi bmh
      λ bmh. network_condition server http printer net bmi bmh (condition_of instance_networked bmi)

-- The handler of one instance.
unfoldable pub handle : Server → Http → Printer → NetText → BareMetalInstance → Exec Result
unfolding clean provision
handle server http printer net bmi =
    if not (is_true (condition_of instance_scheduled bmi))
    then done
    else if deleting bmi.meta
    then clean server http bmi
    else provision server http printer net bmi

unfoldable pub reconcile : Server → Http → Printer → NetText → NamespacedName → Exec Result
unfolding handle
reconcile server http printer net req =
    ignore_not_found (server.get_instance req) (handle server http printer net)

-- The instance of a reference.
unfoldable pub request_of : Option BareMetalHardwareStatusInstanceRef → List NamespacedName
request_of none = []
request_of (some ref) = record { namespace = ref.namespace; name = ref.name } ∷ []

-- The instances to reconcile where a hardware changes.
unfoldable pub requests_of : BareMetalHardware → List NamespacedName
unfolding request_of
requests_of bmh = request_of bmh.status.instance_ref
