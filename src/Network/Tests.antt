-- ===== src/Network/Tests.antt =====
-- The reconciler of networks on one that is being deleted.
use kube_baremetal.Prelude.{refl, some, [], ◌∷◌}
use kube_baremetal.Api.Meta.{name_of}
use kube_baremetal.Api.Network.{BareMetalNetwork, bare_metal_network_finalizer}
use kube_baremetal.Client.Example.{empty_server}
use kube_baremetal.Client.{Server, ok}
use kube_baremetal.Client.Once.{Once}
use kube_baremetal.Network.{reconcile, IsRelease, network_controller_reconcile-IsRelease}

abbrev leaving : BareMetalNetwork
leaving = record {
  kind = "BareMetalNetwork";
  meta = record {
    name = "lan";
    generate_name = "";
    namespace = "default";
    uid = "lan";
    labels = [];
    owner_references = [];
    finalizers = bare_metal_network_finalizer ∷ "other" ∷ [];
    deletion_timestamp = some 7;
  };
  spec = record {
    cidr = "10.0.0.0/29";
    gateway = "10.0.0.1";
    start = "10.0.0.1";
    end = "10.0.0.6";
    nameservers = [];
    search_domains = [];
  };
}

abbrev server : Server
server = record empty_server { get_network = λ _. ok leaving }

network_controller_reconcile-IsRelease_example :
    Once (IsRelease leaving) (reconcile server (name_of leaving.meta))
network_controller_reconcile-IsRelease_example =
    network_controller_reconcile-IsRelease server leaving (name_of leaving.meta) refl
