-- ===== src/Discovery/Tests.antt =====
-- Reports of the machine `node`.
use kube_baremetal.Prelude.{◌≡◌, refl, none, some, [], ◌∷◌, string_eq, text_eq}
use kube_baremetal.Api.Discovery.{BareMetalDiscovery}
use kube_baremetal.Api.Instance.{provisioning, running}
use kube_baremetal.Client.{
  Server, ok, err, failure, completed, create_discovery, update_discovery_status,
  update_instance_status,
}
use kube_baremetal.Client.Effects.{writes}
use kube_baremetal.Client.Example.{empty_server}
use kube_baremetal.Client.Once.{Once}
use kube_baremetal.Instance.Provisioner.Claim.{ref_of}
use kube_baremetal.Instance.Provisioner.Example.{web, node, node_hardware}
use kube_baremetal.Discovery.{
  Boot, ipxe_boot, os_script, chain_script, ready, ReadyInput, discover, with_status, with_hardware,
  with_agent, new_discovery,
}
use kube_baremetal.Discovery.Stored.{IsStored, code_of, discover-IsStored}
use kube_baremetal.Discovery.Reports.{Report, ready-Report}

-- The server with the hardware of one instance.
abbrev one : Server
one = record empty_server {
  get_instance = λ _. ok (web provisioning none []);
  list_hardware_by_system_uuid = λ _. ok (node (some (ref_of (web provisioning none []))) ∷ []);
}

abbrev input : ReadyInput
input = record { system_uuid = "node"; ip = "10.0.0.7" }

ready_written :
    writes (ready one (some input)).1
    ≡ update_instance_status (with_agent "10.0.0.7" (web provisioning none [])) ∷ []
unfolding ready text_eq
ready_written = refl

ready-Report_example : Once (Report one input) (ready one (some input))
ready-Report_example = ready-Report one input

abbrev boot : Boot
boot = record {
  cmd_line = err (failure "no file");
  trim_space = λ s. s;
  location = "http://discovery";
}

-- A machine without its UUID is told to ask again, one whose instance runs boots it, and one whose
-- instance is provisioned boots the agent, whose command line is missing here.
boot_chained :
    (ipxe_boot boot one "").0 ≡ completed (record { status_code = 200; body = chain_script })
unfolding ipxe_boot text_eq
boot_chained = refl

boot_running :
    (ipxe_boot boot (record one { get_instance = λ _. ok (web running none []) }) "node").0
    ≡ completed (record { status_code = 200; body = os_script })
unfolding ipxe_boot text_eq
boot_running = refl

boot_failed : (ipxe_boot boot one "node").0 ≡ completed (with_status 400)
unfolding ipxe_boot text_eq
boot_failed = refl

-- The first report of the machine creates its discovery and stores its hardware.
discover_new :
    writes
      (discover empty_server
        (some record { system_uuid = "node"; hardware = some node_hardware })).1
    ≡ create_discovery (new_discovery "node")
      ∷ update_discovery_status (with_hardware node_hardware (new_discovery "node"))
      ∷ []
unfolding discover text_eq
discover_new = refl

new_answered :
    code_of
      (discover empty_server
        (some record { system_uuid = "node"; hardware = some node_hardware })).0
    ≡ 204
unfolding discover text_eq
new_answered = refl

-- A discovery that was made by hand, which the server refuses to create again.
abbrev by_hand : BareMetalDiscovery
by_hand = record {
  meta = (node none).meta;
  spec = record { system_uuid = "node" };
  status = record { hardware = none };
}

abbrev with_discovery : Server
with_discovery = record empty_server {
  list_discoveries_by_system_uuid = λ _. ok (by_hand ∷ []);
  refuses = λ _. some (failure "resourceVersion should not be set on objects to be created");
}

discover_by_hand :
    discover with_discovery (some record { system_uuid = "node"; hardware = some node_hardware })
    ≡ (completed (with_status 500), [])
unfolding discover text_eq
discover_by_hand = refl

discover-IsStored_example : IsStored empty_server "node" node_hardware (
    writes
      (discover empty_server
        (some record { system_uuid = "node"; hardware = some node_hardware })).1)
discover-IsStored_example =
    discover-IsStored empty_server "node" node_hardware
      (record { hardware = λ e h. cc h; discoveries = λ e h. cc h; writing = λ w e h. cc h })
      new_answered
