-- ===== src/Webhook/Tests.antt =====
-- The webhook of networks on `lan`, of 10.0.0.1 to 10.0.0.6, and on one with its range backwards;
-- the webhook of instances on one that gets its agent.
use kube_baremetal.Prelude.{◌≡◌, refl, ℕ, String, Option, none, some, true, List, [], ◌∷◌, text_eq}
use kube_baremetal.Ip.{Ip, contains_ip, mask_ip, not_below}
use kube_baremetal.Ip.Example.{net_text, net_text-ParsesSixteen, print, parse}
use kube_baremetal.Api.Network.{BareMetalNetwork}
use kube_baremetal.Api.Instance.{
  BareMetalInstance, BareMetalInstanceStatusPhase, BareMetalInstanceStatusAgentInfo, provisioning,
}
use kube_baremetal.Condition.{status_true, get_condition}
use kube_baremetal.Finalizer.{has_finalizer}
use kube_baremetal.Webhook.Error.{field, item, invalid, forbidden}
use kube_baremetal.Webhook.Instance
use kube_baremetal.Webhook.Instance.{DeepEqual, validate_update}
use kube_baremetal.Webhook.Instance.Update.{Keeps, validate_update-Keeps}
use kube_baremetal.Webhook.Same.{instance_equal, instance_equal-IsEquality}
use kube_baremetal.Webhook.Network.{validate_create, default}
use kube_baremetal.Webhook.Network.Range.{IsAdmitted, validate_create-IsAdmitted}

abbrev host : List ℕ → Ip
host d = 0 ∷ 0 ∷ 0 ∷ 0 ∷ 0 ∷ 0 ∷ 0 ∷ 0 ∷ 0 ∷ 0 ∷ 255 ∷ 255 ∷ 10 ∷ 0 ∷ 0 ∷ d

abbrev network : Ip → Ip → List String → BareMetalNetwork
network start end nameservers = record {
  kind = "BareMetalNetwork";
  meta = record {
    name = "lan";
    generate_name = "";
    namespace = "default";
    uid = "lan";
    labels = [];
    owner_references = [];
    finalizers = [];
    deletion_timestamp = none;
  };
  spec = record {
    cidr = "10.0.0.0/29";
    gateway = print (host (1 ∷ []));
    start = print start;
    end = print end;
    nameservers = nameservers;
    search_domains = [];
  };
}

abbrev lan : BareMetalNetwork
lan = network (host (1 ∷ [])) (host (6 ∷ [])) (print (host (3 ∷ [])) ∷ [])

lan_admitted : validate_create net_text lan ≡ []
unfolding validate_create text_eq parse print contains_ip not_below mask_ip
lan_admitted = refl

backwards :
    validate_create net_text (network (host (6 ∷ [])) (host (1 ∷ [])) ("" ∷ []))
    ≡ invalid (field "spec.start") "start address must be greater then end address"
      ∷ invalid (item "spec.nameservers" 0) "invalid nameserver address"
      ∷ []
unfolding validate_create text_eq parse print contains_ip not_below
backwards = refl

given_finalizer : has_finalizer (default lan).meta "bmn.finalizer.baremetal.com.rmb938" ≡ true
unfolding default has_finalizer text_eq
given_finalizer = refl

validate_create-IsAdmitted_example : IsAdmitted net_text lan
validate_create-IsAdmitted_example =
    validate_create-IsAdmitted net_text lan net_text-ParsesSixteen lan_admitted

abbrev instance_of :
    String
    → BareMetalInstanceStatusPhase
    → Option BareMetalInstanceStatusAgentInfo
    → BareMetalInstance
instance_of hardware_name phase agent_info = record {
  api_version = "baremetal.com.rmb938/v1alpha1";
  kind = "BareMetalInstance";
  meta = lan.meta;
  spec = record {
    selector = ("rack", "a") ∷ [];
    tolerations =
        record { key = "gpu"; operator = "Exists"; value = ""; effect = "NoSchedule" } ∷ [];
  };
  status = record {
    conditions =
        record {
          type = "InstanceScheduled";
          status = status_true;
          last_transition_time = some 1;
          reason = "";
          message = "";
        }
        ∷ [];
    agent_info = agent_info;
    hardware_name = hardware_name;
    phase = phase;
  };
}

abbrev old_instance : BareMetalInstance
old_instance = instance_of "spare" provisioning none

abbrev new_instance : BareMetalInstance
new_instance = instance_of "spare" provisioning (some (record { ip = print (host (5 ∷ [])) }))

update_admitted : validate_update net_text instance_equal new_instance old_instance ≡ []
unfolding validate_update get_condition text_eq parse print
update_admitted = refl

moved_refused :
    validate_update net_text instance_equal (instance_of "other" provisioning none) old_instance
    ≡ forbidden (field "status.hardwareName") "Cannot change the scheduled hardware name" ∷ []
unfolding validate_update get_condition text_eq
moved_refused = refl

create_refused :
    Instance.validate_create new_instance
    ≡ forbidden (field "status.hardwareName") "Cannot set hardware name during creation"
      ∷ forbidden (field "status.agentInfo") "Cannot set agentInfo during creation"
      ∷ []
unfolding Instance.validate_create text_eq
create_refused = refl

validate_update-Keeps_example : Keeps net_text new_instance old_instance
validate_update-Keeps_example =
    validate_update-Keeps net_text instance_equal new_instance old_instance
      instance_equal-IsEquality update_admitted
