-- ===== src/Instance/Provisioner/Network.antt =====
-- `Provisioner.Reconcile` of controllers/baremetalinstance/provisioner.go: the endpoints of the
-- nics.
use kube_baremetal.Prelude.{
  String, true, false, Option, none, some, List, [], ◌∷◌, ◌++◌, map, keep_if, ◌==◌, string_eq,
  if◌then◌else◌,
}
use kube_baremetal.Api.Meta.{OwnerReference}
use kube_baremetal.Api.Discovery.{BareMetalDiscoveryHardware, BareMetalDiscoveryHardwareNic}
use kube_baremetal.Api.Hardware.{BareMetalHardware, BareMetalHardwareNic, BareMetalHardwareNicBond}
use kube_baremetal.Api.Endpoint.{
  BareMetalEndpoint, BareMetalEndpointBond, bare_metal_endpoint_instance_label,
  bare_metal_endpoint_nic_label, is_addressed, empty,
}
use kube_baremetal.Api.Instance.{BareMetalInstance, instance_networked}
use kube_baremetal.Condition.{status_true}
use kube_baremetal.Client.{
  Server, Exec, Result, pure, panic, or_fail, ◌>>=◌, ◌>>◌, write, normal, warning, create_endpoint,
  done, requeue_after,
}
use kube_baremetal.Instance.Provisioner.{say, put_status, new_condition, is_owned_by}

-- The loop over the interfaces: the first of the nic's name, or all of its bond.
unfoldable pub macs_of :
    String → Option BareMetalHardwareNicBond → List BareMetalDiscoveryHardwareNic → List String
macs_of name bond [] = []
macs_of name none (interf ∷ rest) =
    if interf.name == name then interf.mac ∷ [] else macs_of name none rest
macs_of name (some bond) (interf ∷ rest) =
    map (λ _. interf.mac) (keep_if (λ b. interf.name == b) bond.interfaces)
    ++ macs_of name (some bond) rest

-- `bme.Spec.Bond`
abbrev bond_of : Option BareMetalHardwareNicBond → List String → Option BareMetalEndpointBond
bond_of none macs = none
bond_of (some bond) macs = some (record { macs = macs; mode = bond.mode })

-- The owner of the endpoints.
abbrev pub owner_of : BareMetalInstance → OwnerReference
owner_of bmi = record {
  api_version = bmi.api_version;
  kind = bmi.kind;
  name = bmi.meta.name;
  uid = bmi.meta.uid;
  controller = true;
  block_owner_deletion = false;
}

-- The endpoint of a nic, before the server names it. `mac` is the first of `macs`.
unfoldable pub endpoint_for :
    BareMetalInstance → BareMetalHardwareNic → String → List String → BareMetalEndpoint
endpoint_for bmi nic mac macs = record {
  meta = record {
    name = "";
    generate_name = bmi.meta.name;
    namespace = bmi.meta.namespace;
    uid = "";
    labels =
        (bare_metal_endpoint_instance_label, bmi.meta.name)
        ∷ (bare_metal_endpoint_nic_label, nic.name)
        ∷ [];
    owner_references = owner_of bmi ∷ [];
    finalizers = [];
    deletion_timestamp = none;
  };
  spec = record {
    primary = nic.primary;
    mac = mac;
    bond = bond_of nic.bond macs;
    network_ref = nic.network_ref;
  };
  status = record { conditions = []; address = none; phase = empty };
}

-- `macs[0]` panics where the list is empty.
unfoldable pub first_mac : List String → Exec String
first_mac [] = panic
first_mac (mac ∷ macs) = pure mac

-- `bmh.Status.Hardware.NICS` panics where there is no hardware information.
unfoldable pub interfaces_of :
    Option BareMetalDiscoveryHardware → Exec (List BareMetalDiscoveryHardwareNic)
interfaces_of none = panic
interfaces_of (some hardware) = pure hardware.nics

-- `allAddressed == false`
unfoldable pub wait_for_addresses : BareMetalInstance → Exec Result
wait_for_addresses bmi = do say bmi normal "InstanceNetworking"; requeue_after 60

-- A nic without an endpoint gets one.
unfoldable pub create_for :
    Server → BareMetalInstance → BareMetalHardware → BareMetalHardwareNic → Exec Result
unfolding interfaces_of first_mac wait_for_addresses
create_for server bmi bmh nic = do
  interfaces ← interfaces_of bmh.status.hardware
  let macs = macs_of nic.name nic.bond interfaces
  mac ← first_mac macs
  write server (create_endpoint (endpoint_for bmi nic mac macs))
  wait_for_addresses bmi

-- `switch len(ourBMEs)`; `k` goes on with the next nic.
unfoldable pub check_endpoints :
    Server
    → BareMetalInstance
    → BareMetalHardware
    → BareMetalHardwareNic
    → List BareMetalEndpoint
    → Exec Result
    → Exec Result
unfolding create_for wait_for_addresses
check_endpoints server bmi bmh nic [] k = create_for server bmi bmh nic
check_endpoints server bmi bmh nic (bme ∷ []) k =
    if is_addressed bme.status.phase then k else wait_for_addresses bmi
check_endpoints server bmi bmh nic (bme ∷ other ∷ rest) k = do
  say bmi warning "InstanceNetworking"
  done

-- The loop over the nics, and what follows when all of them are addressed.
unfoldable pub check_nics :
    Server → BareMetalInstance → BareMetalHardware → List BareMetalHardwareNic → Exec Result
unfolding put_status check_endpoints
check_nics server bmi bmh [] =
    put_status server bmi (new_condition server instance_networked status_true "" "")
      (do say bmi normal "InstanceNetworked"; done)
check_nics server bmi bmh (nic ∷ nics) = do
  bmes ← or_fail (server.list_endpoints_by_instance_nic bmi.meta.name nic.name)
  check_endpoints server bmi bmh nic (keep_if (is_owned_by bmi) bmes)
      (check_nics server bmi bmh nics)
