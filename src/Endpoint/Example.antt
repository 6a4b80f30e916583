-- ===== src/Endpoint/Example.antt =====
-- A small cluster: the network `lan` hands out 10.0.0.1 to 10.0.0.6,
-- 10.0.0.1 is its gateway, endpoint `a` holds 10.0.0.2, `b` waits for an address, and `c` holds
-- 10.0.0.2 of another network.
use kube_baremetal.Prelude.{
  ℕ, true, Option, none, some, String, List, [], ◌∷◌, if◌then◌else◌, ◌==◌, string_eq, nat_eq,
  keep_if,
}
use kube_baremetal.Ip.{Ip}
use kube_baremetal.Ip.Example.{net_text, print}
use kube_baremetal.Api.Meta.{ObjectMeta, name_of, same_name, group}
use kube_baremetal.Api.Endpoint.{
  BareMetalEndpoint, BareMetalEndpointStatusPhase, BareMetalEndpointStatusAddress,
  bare_metal_endpoint_finalizer, addressing, addressed,
}
use kube_baremetal.Api.Network.{BareMetalNetwork}
use kube_baremetal.Client.Example.{empty_server}
use kube_baremetal.Client.{Server, ok, err, not_found}
use kube_baremetal.Endpoint.Network.{network_ref_index, address_of}

abbrev pub v4 : ℕ → ℕ → ℕ → ℕ → Ip
v4 a b c d = 0 ∷ 0 ∷ 0 ∷ 0 ∷ 0 ∷ 0 ∷ 0 ∷ 0 ∷ 0 ∷ 0 ∷ 255 ∷ 255 ∷ a ∷ b ∷ c ∷ d ∷ []

abbrev pub meta_of : String → ObjectMeta
meta_of name = record {
  name = name;
  generate_name = "";
  namespace = "default";
  uid = name;
  labels = [];
  owner_references = [];
  finalizers = bare_metal_endpoint_finalizer ∷ [];
  deletion_timestamp = none;
}

abbrev pub lan : BareMetalNetwork
lan = record {
  kind = "BareMetalNetwork";
  meta = meta_of "lan";
  spec = record {
    cidr = "10.0.0.0/29";
    gateway = print (v4 10 0 0 1);
    start = print (v4 10 0 0 1);
    end = print (v4 10 0 0 6);
    nameservers = print (v4 10 0 0 3) ∷ [];
    search_domains = [];
  };
}

abbrev pub endpoint :
    String
    → String
    → BareMetalEndpointStatusPhase
    → Option BareMetalEndpointStatusAddress
    → BareMetalEndpoint
endpoint name network phase address = record {
  meta = meta_of name;
  spec = record {
    primary = true;
    mac = "";
    bond = none;
    network_ref = record { name = network; kind = "BareMetalNetwork"; group = group };
  };
  status = record { conditions = []; address = address; phase = phase };
}

abbrev pub a : BareMetalEndpoint
a = endpoint "a" "lan" addressed (some (address_of net_text lan (v4 10 0 0 2)))

abbrev pub b : BareMetalEndpoint
b = endpoint "b" "lan" addressing none

abbrev pub c : BareMetalEndpoint
c = endpoint "c" "wan" addressed (some (address_of net_text lan (v4 10 0 0 2)))

abbrev pub cluster : List BareMetalEndpoint
cluster = a ∷ b ∷ c ∷ []

abbrev pub server : Server
server = record empty_server {
  get_endpoint = λ req. if same_name req (name_of b.meta) then ok b else err not_found;
  get_network = λ req. if req.name == "lan" then ok lan else err not_found;
  list_endpoints_by_network_ref = λ key. ok (keep_if (λ e. network_ref_index e == key) cluster);
}
