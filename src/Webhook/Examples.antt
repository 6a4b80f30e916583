-- ===== src/Webhook/Examples.antt =====
-- The webhooks of endpoints, of hardware and of discoveries on one machine.
use kube_baremetal.Prelude.{
  ◌≡◌, ◌≢◌, ◌↔◌, refl, ℕ, String, Bool, Option, none, some, true, false, List, [], ◌∷◌, length,
  text_eq,
}
use kube_baremetal.Ip.{Ip, IpNet, mask_ip, contains_ip}
use kube_baremetal.Ip.Example.{net_text, net_text-ParsesSixteen, print, parse}
use kube_baremetal.Api.Meta.{ObjectMeta}
use kube_baremetal.Api.Discovery.{BareMetalDiscoveryHardware}
use kube_baremetal.Api.Endpoint.{
  BareMetalEndpoint, BareMetalEndpointStatusAddress, addressed, pending,
  BareMetalEndpointStatusPhase,
}
use kube_baremetal.Api.Hardware.{BareMetalHardwareNic}
use kube_baremetal.Condition.{get_condition}
use kube_baremetal.Webhook.Error.{field, item, duplicate, required}
use kube_baremetal.Webhook.Discovery.{hardware_errors}
use kube_baremetal.Webhook.Discovery.Names.{IsComplete, hardware_errors-IsComplete}
use kube_baremetal.Webhook.Endpoint
use kube_baremetal.Webhook.Same.{endpoint_equal, endpoint_equal-IsEquality}
use kube_baremetal.Webhook.Endpoint.Create.{IsCreated, validate_create-IsCreated}
use kube_baremetal.Webhook.Endpoint.Update.{
  IsUpdate, validate_update-IsUpdate, validate_update-nameservers,
}
use kube_baremetal.Webhook.Hardware.{nics_errors}
use kube_baremetal.Webhook.Hardware.Nics.{IsWellFormed, nics_errors-IsWellFormed}

abbrev host : List ℕ → Ip
host d = 0 ∷ 0 ∷ 0 ∷ 0 ∷ 0 ∷ 0 ∷ 0 ∷ 0 ∷ 0 ∷ 0 ∷ 255 ∷ 255 ∷ 10 ∷ 0 ∷ 0 ∷ d

abbrev mac : ℕ → String
mac n = print (host (n ∷ []))

abbrev meta_of : String → ObjectMeta
meta_of name = record {
  name = name;
  generate_name = "";
  namespace = "default";
  uid = name;
  labels = [];
  owner_references = [];
  finalizers = [];
  deletion_timestamp = none;
}

abbrev nic : String → Bool → BareMetalHardwareNic
nic name primary = record {
  name = name;
  primary = primary;
  bond = none;
  network_ref = record { name = "lan"; kind = "BareMetalNetwork"; group = "baremetal.com.rmb938" };
}

nics_errors-IsWellFormed_example :
    (nics_errors (nic "a" true ∷ nic "b" false ∷ []) ≡ [])
    ↔ IsWellFormed (nic "a" true ∷ nic "b" false ∷ [])
nics_errors-IsWellFormed_example = nics_errors-IsWellFormed (nic "a" true ∷ nic "b" false ∷ [])

nics_refused :
    nics_errors (nic "a" true ∷ nic "a" false ∷ nic "b" true ∷ [])
    ≡ duplicate (item "spec.nics" 1) "cannot define nics multiple times"
      ∷ duplicate (item "spec.nics" 2) "cannot have multiple primary nics"
      ∷ []
unfolding nics_errors text_eq
nics_refused = refl

no_primary :
    nics_errors (nic "a" false ∷ []) ≡ required (field "spec.nics") "no primary nic found" ∷ []
unfolding nics_errors text_eq
no_primary = refl

abbrev hardware : BareMetalDiscoveryHardware
hardware = record {
  cpu = record { model_name = "cpu"; architecture = "x86_64"; cpus = 4 };
  ram = 1024;
  storage = record { name = "sda"; size = 9; rotational = false; trim = true; serial = "s" } ∷ [];
  nics =
      record { name = "a"; mac = mac 7; speed = 1 }
      ∷ record { name = "b"; mac = mac 8; speed = 1 }
      ∷ [];
}

hardware_admitted : hardware_errors net_text hardware ≡ []
unfolding hardware_errors text_eq parse print
hardware_admitted = refl

hardware_errors-IsComplete_example : IsComplete net_text hardware
hardware_errors-IsComplete_example = hardware_errors-IsComplete net_text hardware hardware_admitted

abbrev address : List String → BareMetalEndpointStatusAddress
address nameservers = record {
  ip = print (host (5 ∷ []));
  cidr = "10.0.0.0/29";
  gateway = print (host (1 ∷ []));
  nameservers = nameservers;
  search_domains = [];
}

abbrev endpoint :
    BareMetalEndpointStatusPhase → Option BareMetalEndpointStatusAddress → BareMetalEndpoint
endpoint phase address = record {
  meta = meta_of "web";
  spec = record {
    primary = true;
    mac = mac 7;
    bond = some record { macs = mac 7 ∷ mac 8 ∷ []; mode = "balance-rr" };
    network_ref = (nic "a" true).network_ref;
  };
  status = record { conditions = []; address = address; phase = phase };
}

endpoint_created : Endpoint.validate_create net_text (endpoint pending none) ≡ []
unfolding Endpoint.validate_create parse print text_eq
endpoint_created = refl

validate_create-IsCreated_example : IsCreated net_text (endpoint pending none)
validate_create-IsCreated_example =
    validate_create-IsCreated net_text (endpoint pending none) endpoint_created

-- An endpoint without nameservers becomes addressed.
abbrev old_endpoint : BareMetalEndpoint
old_endpoint = endpoint pending (some (address []))

abbrev new_endpoint : BareMetalEndpoint
new_endpoint = endpoint addressed (some (address []))

endpoint_updated : Endpoint.validate_update net_text endpoint_equal new_endpoint old_endpoint ≡ []
unfolding Endpoint.validate_update text_eq parse print contains_ip get_condition
endpoint_updated = refl

validate_update-IsUpdate_example : IsUpdate new_endpoint old_endpoint
validate_update-IsUpdate_example =
    validate_update-IsUpdate net_text endpoint_equal new_endpoint old_endpoint
      endpoint_equal-IsEquality endpoint_updated

-- With a nameserver the same update is refused.
abbrev served : BareMetalEndpoint
served = endpoint addressed (some (address (print (host (3 ∷ [])) ∷ [])))

abbrev lan : IpNet
lan = record { ip = 10 ∷ 0 ∷ 0 ∷ 0 ∷ []; mask = 255 ∷ 255 ∷ 255 ∷ 248 ∷ [] }

lan_short : length (mask_ip (10 ∷ 0 ∷ 0 ∷ 0 ∷ []) lan.mask) ≡ 4
unfolding mask_ip
lan_short = refl

validate_update-nameservers_example :
    Endpoint.validate_update net_text endpoint_equal served served ≢ []
validate_update-nameservers_example =
    validate_update-nameservers net_text endpoint_equal served served
      (address (print (host (3 ∷ [])) ∷ [])) (10 ∷ 0 ∷ 0 ∷ 0 ∷ []) lan (print (host (3 ∷ []))) []
      net_text-ParsesSixteen refl refl lan_short refl
