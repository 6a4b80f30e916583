-- ===== src/Instance/Provisioner/Links.antt =====
-- `Provisioner.Reconcile` of controllers/baremetalinstance/provisioner.go: the network data of an
-- image (controllers/baremetalinstance/types.go), from the endpoints of the instance.
use Prim.Native.String.{◌++◌ as str_append}
use kube_baremetal.Prelude.{
  ℕ, suc, String, Option, none, some, List, [], ◌∷◌, ◌++◌, length, ◌==◌, string_eq, nat_eq,
  if◌then◌else◌,
}
use kube_baremetal.Ip.{Ip, IpNet, to4}
use kube_baremetal.Ip.Text.{NetText}
use kube_baremetal.Api.Endpoint.{
  BareMetalEndpoint, BareMetalEndpointBond, BareMetalEndpointStatusAddress,
  bare_metal_endpoint_nic_label,
}
use kube_baremetal.Client.{Exec, failure, pure, fail, panic, ◌>>=◌}

pub record NetworkDataLink : Type 0 where
  pub id : String
  pub mac : String
  pub type : String
  pub bond_mode : String
  pub bond_mii_mon : ℕ
  pub bond_links : List String

pub record NetworkDataNetwork : Type 0 where
  pub link : String
  pub type : String
  pub ip_address : String
  pub netmask : String
  pub gateway : String
  pub nameservers : List String
  pub search : List String

pub record NetworkData : Type 0 where
  pub links : List NetworkDataLink
  pub networks : List NetworkDataNetwork

-- The value of a key in a map.
unfoldable pub label_of : String → List (String × String) → Option String
label_of key [] = none
label_of key ((k, v) ∷ labels) = if k == key then some v else label_of key labels

-- A physical link.
abbrev pub phy : String → String → NetworkDataLink
phy id mac = record {
  id = id;
  mac = mac;
  type = "phy";
  bond_mode = "";
  bond_mii_mon = 0;
  bond_links = [];
}

-- The links of a bond, from the `i`-th address on; `itoa` prints a number.
unfoldable pub bond_links : (ℕ → String) → String → ℕ → List String → List NetworkDataLink
bond_links itoa name i [] = []
bond_links itoa name i (mac ∷ macs) =
    phy (str_append name (str_append "-bond-" (itoa i))) mac ∷ bond_links itoa name (suc i) macs

abbrev ids : List NetworkDataLink → List String
ids [] = []
ids (link ∷ links) = link.id ∷ ids links

-- The links of an endpoint: those of its bond come first.
unfoldable pub links_of :
    (ℕ → String) → String → String → Option BareMetalEndpointBond → List NetworkDataLink
unfolding bond_links
links_of itoa name mac none = phy name mac ∷ []
links_of itoa name mac (some bond) =
    let slaves = bond_links itoa name 0 bond.macs in
    slaves
    ++ record {
      id = name;
      mac = mac;
      type = "bond";
      bond_mode = bond.mode;
      bond_mii_mon = 100;
      bond_links = ids slaves;
    }
      ∷ []

-- `networkType`
abbrev type_of_network : IpNet → String
type_of_network network = if length (to4 network.ip) == 0 then "ipv6" else "ipv4"

-- The network of an endpoint with its address.
unfoldable pub network_of :
    NetText
    → BareMetalEndpoint
    → String
    → BareMetalEndpointStatusAddress
    → IpNet
    → NetworkDataNetwork
network_of net bme name address network = record {
  link = name;
  type = type_of_network network;
  ip_address = address.ip;
  netmask = net.ip_string network.mask;
  gateway = if bme.spec.primary then address.gateway else "";
  nameservers = if bme.spec.primary then address.nameservers else [];
  search = if bme.spec.primary then address.search_domains else [];
}

-- `bme.Status.Address.CIDR` panics where there is no address.
unfoldable pub address_of :
    Option BareMetalEndpointStatusAddress → Exec BareMetalEndpointStatusAddress
address_of none = panic
address_of (some address) = pure address

-- `net.ParseCIDR`, whose error is returned.
unfoldable pub parsed_network : Option (Ip × IpNet) → Exec IpNet
parsed_network none = fail (failure "invalid CIDR address")
parsed_network (some (ip, network)) = pure network

-- One endpoint of the loop; without its label it is skipped.
unfoldable pub describe_one :
    (ℕ → String) → NetText → BareMetalEndpoint → Option String → NetworkData → Exec NetworkData
unfolding links_of address_of parsed_network network_of
describe_one itoa net bme none data_so_far = pure data_so_far
describe_one itoa net bme (some name) data_so_far = do
  address ← address_of bme.status.address
  network ← parsed_network (net.parse_cidr address.cidr)
  pure (record {
    links = data_so_far.links ++ links_of itoa name bme.spec.mac bme.spec.bond;
    networks = data_so_far.networks ++ network_of net bme name address network ∷ [];
  })

-- The loop over the endpoints that the instance owns.
unfoldable pub describe :
    (ℕ → String) → NetText → List BareMetalEndpoint → NetworkData → Exec NetworkData
unfolding label_of describe_one
describe itoa net [] data_so_far = pure data_so_far
describe itoa net (bme ∷ bmes) data_so_far = do
  next ←
      describe_one itoa net bme (label_of bare_metal_endpoint_nic_label bme.meta.labels) data_so_far
  describe itoa net bmes next

abbrev pub no_data : NetworkData
no_data = record { links = []; networks = [] }
