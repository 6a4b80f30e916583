-- ===== src/Client/Example.antt =====
-- A server that stores nothing and accepts every write, for the examples to fill.
use kube_baremetal.Prelude.{none, []}
use kube_baremetal.Client.{Server, ok, err, not_found}

abbrev pub empty_server : Server
empty_server = record {
  get_endpoint = λ _. err not_found;
  get_network = λ _. err not_found;
  get_hardware = λ _. err not_found;
  get_instance = λ _. err not_found;
  list_endpoints_by_network_ref = λ _. ok [];
  list_endpoints_by_instance = λ _. ok [];
  list_endpoints_by_instance_nic = λ _ _. ok [];
  list_hardware_in_namespace = λ _. ok [];
  list_hardware_by_system_uuid = λ _. ok [];
  list_instances_by_hardware_name = λ _. ok [];
  list_discoveries_by_system_uuid = λ _. ok [];
  refuses = λ _. none;
  created = λ bmd. bmd;
  now = 1;
}
