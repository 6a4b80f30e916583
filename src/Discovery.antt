-- ===== src/Discovery.antt =====
-- pkg/discovery/server.go: the HTTP handlers that a machine calls while it boots. `gin` is not the
-- program's own code: what it binds of a request is an argument of a handler, and the answer that
-- the handler gives is its result.
pub mod Reports
pub mod Stored
mod Tests
use Prim.Native.String.{◌++◌ as str_append}
use kube_baremetal.Prelude.{
  ℕ, String, Bool, not, ◌&&◌, Option, none, some, List, [], ◌∷◌, is_some, ◌==◌, nat_eq, string_eq,
  if◌then◌else◌,
}
use kube_baremetal.Api.Meta.{ObjectMeta}
use kube_baremetal.Api.Discovery.{BareMetalDiscovery, BareMetalDiscoveryHardware}
use kube_baremetal.Api.Hardware.{BareMetalHardware, BareMetalHardwareStatusInstanceRef}
use kube_baremetal.Api.Instance.{BareMetalInstance, is_running, is_provisioning, is_cleaning}
use kube_baremetal.Client.{
  Server, Exec, Error, Reply, ok, err, not_found, condition_not_formed, api_status, failure, pure,
  ◌>>◌, send, Write, update_instance_status, create_discovery, update_discovery_status,
}
use kube_baremetal.Hardware.Controller.{get_instance_of}

-- The answer to a request. `body` is empty where the handler sets the status alone; the text of an
-- error is left out.
pub record Answer : Type 0 where
  pub status_code : ℕ
  pub body : String

abbrev pub with_status : ℕ → Answer
with_status code = record { status_code = code; body = "" }

-- The code that an error is answered with. `IsNotFound` accepts an `APIStatus` with the code 404.
unfoldable pub error_code : Error → ℕ
error_code not_found = 404
error_code condition_not_formed = 500
error_code (api_status code) = if code == 0 then 500 else code
error_code (failure e) = 500

-- `if err != nil`, with the answer to it.
unfoldable pub or_answer {ℓ} : {A : Type ℓ} → Reply A → (A → Exec Answer) → Exec Answer
unfolding error_code
or_answer (ok a) k = k a
or_answer (err e) k = pure (with_status (error_code e))

-- A write, and what follows it.
unfoldable pub or_refused : Option Error → Write → Exec Answer → Exec Answer
unfolding error_code
or_refused none w k = send none w >> k
or_refused (some e) w k = pure (with_status (error_code e))

-- `boot?systemUUID=${uuid}`
abbrev pub chain_script : String
chain_script = "#!ipxe\necho Chaining again with systemUUID\nchain boot?systemUUID=${uuid}"

abbrev pub os_script : String
os_script = "#!ipxe\necho Booting into the OS\nsleep 10\nexit 0"

-- `ioutil.ReadFile` of the kernel's command line, `strings.TrimSpace`, and the address of the server.
pub record Boot : Type 0 where
  pub cmd_line : Reply String
  pub trim_space : String → String
  pub location : String

-- The script of the agent, whose command line is read from a file.
unfoldable pub boot_script : Boot → Reply String → Answer
boot_script boot (err e) = with_status 400
boot_script boot (ok text) = record {
  status_code = 200;
  body =
      str_append
        "#!ipxe\necho Booting into the agent\nsleep 10\ninitrd files/linuxkit-agent-initrd.img\nchain files/linuxkit-agent-kernel "
        (str_append (boot.trim_space text) (str_append " discovery_url=" boot.location));
}

unfoldable pub boot_agent : Boot → Exec Answer
unfolding boot_script
boot_agent boot = pure (boot_script boot boot.cmd_line)

-- The instance of the hardware, which may be gone or another one.
unfoldable pub boot_instance :
    Boot → BareMetalHardwareStatusInstanceRef → Reply BareMetalInstance → Exec Answer
unfolding boot_agent error_code
boot_instance boot ref (err not_found) = boot_agent boot
boot_instance boot ref (err e) = pure (with_status (error_code e))
boot_instance boot ref (ok bmi) =
    if bmi.meta.uid == ref.uid && is_running bmi.status.phase
    then pure (record { status_code = 200; body = os_script })
    else boot_agent boot

unfoldable pub boot_reference :
    Boot → Server → Option BareMetalHardwareStatusInstanceRef → Exec Answer
unfolding boot_instance
boot_reference boot server none = boot_agent boot
boot_reference boot server (some ref) = boot_instance boot ref (get_instance_of server ref)

-- The hardware of the system's UUID.
unfoldable pub boot_hardware : Boot → Server → List BareMetalHardware → Exec Answer
unfolding boot_reference
boot_hardware boot server (bmh ∷ []) = boot_reference boot server bmh.status.instance_ref
boot_hardware boot server _ = boot_agent boot

-- `ipxeBoot`
unfoldable pub ipxe_boot : Boot → Server → String → Exec Answer
unfolding or_answer boot_hardware
ipxe_boot boot server system_uuid =
    if system_uuid == ""
    then pure (record { status_code = 200; body = chain_script })
    else or_answer (server.list_hardware_by_system_uuid system_uuid) (boot_hardware boot server)

pub record ReadyInput : Type 0 where
  pub system_uuid : String
  pub ip : String

-- The agent of the instance.
abbrev pub with_agent : String → BareMetalInstance → BareMetalInstance
with_agent ip bmi = record bmi {
  status = record bmi.status { agent_info = some record { ip = ip } };
}

-- The instance that the hardware refers to.
unfoldable pub ready_instance :
    Server → String → BareMetalHardwareStatusInstanceRef → BareMetalInstance → Exec Answer
unfolding or_refused
ready_instance server ip ref bmi =
    if not (bmi.meta.uid == ref.uid)
    then pure (with_status 404)
    else if not (is_provisioning bmi.status.phase) && not (is_cleaning bmi.status.phase)
    then pure (with_status 404)
    else let w = update_instance_status (with_agent ip bmi) in
      or_refused (server.refuses w) w (pure (with_status 204))

-- The error `not_found` is answered with its code, as any other.
unfoldable pub ready_reference :
    Server → String → Option BareMetalHardwareStatusInstanceRef → Exec Answer
unfolding or_answer ready_instance
ready_reference server ip none = pure (with_status 404)
ready_reference server ip (some ref) =
    or_answer (get_instance_of server ref) (ready_instance server ip ref)

unfoldable pub ready_hardware : Server → String → List BareMetalHardware → Exec Answer
unfolding ready_reference
ready_hardware server ip [] = pure (with_status 404)
ready_hardware server ip (bmh ∷ []) = ready_reference server ip bmh.status.instance_ref
ready_hardware server ip (bmh ∷ other ∷ rest) = pure (with_status 500)

-- `ready`; the error of the binding is `none`.
unfoldable pub ready : Server → Option ReadyInput → Exec Answer
unfolding or_answer ready_hardware
ready server none = pure (with_status 400)
ready server (some input) =
    if input.system_uuid == ""
    then pure (with_status 400)
    else or_answer (server.list_hardware_by_system_uuid input.system_uuid)
        (ready_hardware server input.ip)

pub record DiscoverInput : Type 0 where
  pub system_uuid : String
  pub hardware : Option BareMetalDiscoveryHardware

-- The discovery of a system that was not discovered before.
unfoldable pub new_discovery : String → BareMetalDiscovery
new_discovery system_uuid = record {
  meta = record {
    name = system_uuid;
    generate_name = "";
    namespace = "";
    uid = "";
    labels = [];
    owner_references = [];
    finalizers = [];
    deletion_timestamp = none;
  };
  spec = record { system_uuid = system_uuid };
  status = record { hardware = none };
}

abbrev pub with_hardware : BareMetalDiscoveryHardware → BareMetalDiscovery → BareMetalDiscovery
with_hardware hardware bmd = record bmd { status = record { hardware = some hardware } }

-- The discovery is created, and the status of what `Create` made of it updated, unless it has hardware information.
unfoldable pub populate : Server → BareMetalDiscoveryHardware → BareMetalDiscovery → Exec Answer
unfolding or_refused
populate server hardware bmd =
    if is_some bmd.status.hardware
    then pure (with_status 204)
    else let created = create_discovery bmd in
      let updated = update_discovery_status (with_hardware hardware (server.created bmd)) in
      or_refused (server.refuses created) created
        (or_refused (server.refuses updated) updated (pure (with_status 204)))

-- The discoveries of the system's UUID.
unfoldable pub discover_discovery :
    Server → String → BareMetalDiscoveryHardware → List BareMetalDiscovery → Exec Answer
unfolding new_discovery populate
discover_discovery server uuid hardware [] = populate server hardware (new_discovery uuid)
discover_discovery server uuid hardware (bmd ∷ []) = populate server hardware bmd
discover_discovery server uuid hardware (bmd ∷ other ∷ rest) = pure (with_status 500)

-- The hardware of the system's UUID.
unfoldable pub discover_hardware :
    Server → String → BareMetalDiscoveryHardware → List BareMetalHardware → Exec Answer
unfolding or_answer discover_discovery
discover_hardware server uuid hardware [] =
    or_answer (server.list_discoveries_by_system_uuid uuid)
      (discover_discovery server uuid hardware)
discover_hardware server uuid hardware (bmh ∷ []) = pure (with_status 204)
discover_hardware server uuid hardware (bmh ∷ other ∷ rest) = pure (with_status 500)

-- The hardware of the input, which has to be there.
unfoldable pub discover_input : Server → String → Option BareMetalDiscoveryHardware → Exec Answer
unfolding or_answer discover_hardware
discover_input server uuid none = pure (with_status 400)
discover_input server uuid (some hardware) =
    or_answer (server.list_hardware_by_system_uuid uuid) (discover_hardware server uuid hardware)

-- `discover`; the error of the binding is `none`.
unfoldable pub discover : Server → Option DiscoverInput → Exec Answer
unfolding discover_input
discover server none = pure (with_status 400)
discover server (some input) =
    if input.system_uuid == ""
    then pure (with_status 400)
    else discover_input server input.system_uuid input.hardware
