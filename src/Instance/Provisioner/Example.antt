-- ===== src/Instance/Provisioner/Example.antt =====
-- An instance `web` on the hardware `node`, whose agent answers.
use kube_baremetal.Prelude.{ℕ, true, Option, none, some, String, List, [], ◌∷◌}
use kube_baremetal.Agent.{Status, cleaning_action_type}
use kube_baremetal.Agent.Http.{Http}
use kube_baremetal.Api.Meta.{ObjectMeta}
use kube_baremetal.Api.Discovery.{BareMetalDiscoveryHardware}
use kube_baremetal.Api.Hardware.{
  BareMetalHardware, BareMetalHardwareNic, BareMetalHardwareStatusInstanceRef,
}
use kube_baremetal.Api.Instance.{
  BareMetalInstance, BareMetalInstanceStatusPhase, instance_scheduled,
  bare_metal_instance_finalizer,
}
use kube_baremetal.Condition.{ConditionType, ConditionStatus, StatusCondition, status_true}
use kube_baremetal.Client.{Server, ok}
use kube_baremetal.Client.Example.{empty_server}
use kube_baremetal.Instance.Provisioner.Image.{Printer}

abbrev pub meta_of : String → Option ℕ → ObjectMeta
meta_of name deleted = record {
  name = name;
  generate_name = "";
  namespace = "default";
  uid = name;
  labels = [];
  owner_references = [];
  finalizers = bare_metal_instance_finalizer ∷ "other" ∷ [];
  deletion_timestamp = deleted;
}

abbrev pub condition : ConditionType → ConditionStatus → StatusCondition
condition type status = record {
  type = type;
  status = status;
  last_transition_time = some 1;
  reason = "";
  message = "";
}

-- The instance, with its conditions.
abbrev pub web : BareMetalInstanceStatusPhase → Option ℕ → List StatusCondition → BareMetalInstance
web phase deleted conditions = record {
  api_version = "baremetal.com.rmb938/v1alpha1";
  kind = "BareMetalInstance";
  meta = meta_of "web" deleted;
  spec = record { selector = []; tolerations = [] };
  status = record {
    conditions = condition instance_scheduled status_true ∷ conditions;
    agent_info = some record { ip = "10.0.0.9" };
    hardware_name = "node";
    phase = phase;
  };
}

abbrev pub eth0 : BareMetalHardwareNic
eth0 = record {
  name = "eth0";
  primary = true;
  bond = none;
  network_ref = record { name = "lan"; kind = "BareMetalNetwork"; group = "baremetal.com.rmb938" };
}

abbrev pub node_hardware : BareMetalDiscoveryHardware
node_hardware = record {
  cpu = record { model_name = "cpu"; architecture = "x86_64"; cpus = 4 };
  ram = 1024;
  storage = [];
  nics = record { name = "eth0"; mac = "aa:bb"; speed = 1000 } ∷ [];
}

-- The hardware, with the instance that it refers to.
abbrev pub node : Option BareMetalHardwareStatusInstanceRef → BareMetalHardware
node ref = record {
  meta = meta_of "node" none;
  spec = record {
    system_uuid = "node";
    can_provision = true;
    image_drive = "sda";
    nics = eth0 ∷ [];
    taints = [];
  };
  status = record { conditions = []; instance_ref = ref; hardware = some node_hardware };
}

abbrev pub server_of : BareMetalInstance → BareMetalHardware → Server
server_of bmi bmh = record empty_server { get_instance = λ _. ok bmi; get_hardware = λ _. ok bmh }

-- An agent whose answer carries a status.
abbrev pub agent_with : Status → Http
agent_with status = record {
  new_request = λ _. none;
  do_request = λ _. ok (record { status_code = 200; body = ok "status" });
  unmarshal_status = λ _. ok status;
  marshal_image_request = λ _. none;
}

abbrev pub printer : Printer
printer = record {
  itoa = λ n. "n";
  trim_space = λ s. s;
  base64 = λ s. s;
  marshal_network_data = λ d. ok "links";
}

abbrev pub failed_status : Status
failed_status = record { type = cleaning_action_type; is_done = true; error = "disk" }
