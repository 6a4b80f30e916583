-- ===== src/Instance/Provisioner/Safety/Whole.antt =====
-- `Provisioner.Reconcile` on a hardware whose nics are there, with endpoints that have an address.
use kube_baremetal.Prelude.{
  ◌≡◌, refl, String, true, not, ℕ, Option, none, some, is_some, List, [], ◌∷◌, keep_if,
}
use kube_baremetal.Ip.{Ip, IpNet}
use kube_baremetal.Ip.Text.{NetText}
use kube_baremetal.Agent.{Status, post_image}
use kube_baremetal.Agent.Http.{Http}
use kube_baremetal.Api.Meta.{NamespacedName, deleting}
use kube_baremetal.Api.Discovery.{BareMetalDiscoveryHardware}
use kube_baremetal.Api.Endpoint.{
  BareMetalEndpoint, BareMetalEndpointStatusAddress, bare_metal_endpoint_nic_label,
}
use kube_baremetal.Api.Hardware.{
  BareMetalHardware, BareMetalHardwareStatusInstanceRef,
  bare_metal_hardware_taint_key_not_ready as not_ready,
}
use kube_baremetal.Api.Instance.{
  BareMetalInstance, BareMetalInstanceStatusAgentInfo, is_provisioning, instance_scheduled,
  instance_networked, instance_imaged,
}
use kube_baremetal.Condition.{
  StatusCondition, is_true, is_status_true, is_status_false, is_status_error, status_true,
}
use kube_baremetal.Client.{
  Server, Exec, Result, Reply, Error, ok, err, not_found, condition_not_formed, api_status, failure,
  done, write, update_hardware_status, or_fail, ◌>>=◌,
}
use kube_baremetal.Client.Safe.{IsSafe, IsSafe-bind, IsSafe-if, IsSafe-or_fail, IsSafe-write}
use kube_baremetal.Hardware.{has_taint, finds_nics}
use kube_baremetal.Instance.Provisioner.{
  condition_of, new_condition, or_nil, get_hardware_of, refers_to, is_owned_by, with_ref,
}
use kube_baremetal.Instance.Provisioner.Agent.{agent_status, or_agent_error, post}
use kube_baremetal.Instance.Provisioner.Claim.{
  ref_of, cannot_provision, claimed, claim, check_reference, check_hardware,
}
use kube_baremetal.Instance.Provisioner.Links.{
  NetworkData, no_data, label_of, address_of, parsed_network, describe_one, describe,
}
use kube_baremetal.Instance.Provisioner.Image.{
  Printer, image_request, post_request, finish_imaging, follow_imaging, image_with_agent,
  image_condition,
}
use kube_baremetal.Instance.Provisioner.Nics.{HaveInterfaces, put_status-IsSafe, check_nics-IsSafe}
use kube_baremetal.Instance.Provisioner.Reconcile.{network_condition, provision, handle, reconcile}
use kube_baremetal.Instance.Provisioner.Safety.{
  or_agent_error-IsSafe, send_request-IsSafe, follow-IsSafe, put_instance-IsSafe, clean-IsSafe,
}

abbrev pub AreAddressed : List BareMetalEndpoint → Type 0
AreAddressed [] = Unit
AreAddressed (bme ∷ bmes) = (is_some bme.status.address ≡ true) × AreAddressed bmes

-- The nics of the hardware are found in its hardware information and its bonds have interfaces.
pub record HasNics (bmh : BareMetalHardware) : Type 0 where
  pub hardware : BareMetalDiscoveryHardware
  pub known : bmh.status.hardware ≡ some hardware
  pub found : finds_nics hardware bmh.spec.nics ≡ true
  pub bonded : HaveInterfaces bmh.spec.nics

-- What a reconcile of the instance finds: such a hardware, and endpoints with an address.
pub record IsEquipped (server : Server) (bmi : BareMetalInstance) : Type 0 where
  pub has_nics : (bmh : BareMetalHardware) → get_hardware_of server bmi ≡ ok bmh → HasNics bmh
  pub addressed :
      (bmes : List BareMetalEndpoint)
      → server.list_endpoints_by_instance bmi.meta.name ≡ ok bmes
      → AreAddressed (keep_if (is_owned_by bmi) bmes)

IsSafe-bind-or_fail {ℓ} :
    {A : Type ℓ} (r : Reply A) (f : A → Exec Result)
    → ((a : A) → r ≡ ok a → IsSafe (f a))
    → IsSafe (or_fail r >>= f)
IsSafe-bind-or_fail (ok a) f safe = record { not_panicked = (safe a refl).not_panicked }
IsSafe-bind-or_fail (err e) f safe = record { not_panicked = tt }

IsSafe-bind-or_nil :
    (r : Reply BareMetalHardware) (f : Option BareMetalHardware → Exec Result)
    → ((bmh : BareMetalHardware) → r ≡ ok bmh → IsSafe (f (some bmh)))
    → IsSafe (f none)
    → IsSafe (or_nil r >>= f)
unfolding or_nil
IsSafe-bind-or_nil (ok bmh) f safe nil = record { not_panicked = (safe bmh refl).not_panicked }
IsSafe-bind-or_nil (err not_found) f safe nil = record { not_panicked = nil.not_panicked }
IsSafe-bind-or_nil (err condition_not_formed) f safe nil = record { not_panicked = tt }
IsSafe-bind-or_nil (err (api_status n)) f safe nil = record { not_panicked = tt }
IsSafe-bind-or_nil (err (failure e)) f safe nil = record { not_panicked = tt }

parsed_network-IsSafe : (o : Option (Ip × IpNet)) → IsSafe (parsed_network o)
unfolding parsed_network
parsed_network-IsSafe none = record { not_panicked = tt }
parsed_network-IsSafe (some (ip, network)) = record { not_panicked = tt }

address_of-IsSafe :
    (o : Option BareMetalEndpointStatusAddress) → is_some o ≡ true → IsSafe (address_of o)
unfolding address_of
address_of-IsSafe none there = absurd cc
address_of-IsSafe (some address) there = record { not_panicked = tt }

describe_one-IsSafe :
    (itoa : ℕ → String) (net : NetText) (bme : BareMetalEndpoint) (name : Option String)
    (data_so_far : NetworkData)
    → is_some bme.status.address ≡ true
    → IsSafe (describe_one itoa net bme name data_so_far)
unfolding describe_one
describe_one-IsSafe itoa net bme none data_so_far there = record { not_panicked = tt }
describe_one-IsSafe itoa net bme (some name) data_so_far there =
    IsSafe-bind (address_of bme.status.address) _ (address_of-IsSafe bme.status.address there)
      λ address.
        IsSafe-bind (parsed_network (net.parse_cidr address.cidr)) _
          (parsed_network-IsSafe (net.parse_cidr address.cidr))
          λ network. record { not_panicked = tt }

describe-IsSafe :
    (itoa : ℕ → String) (net : NetText) (bmes : List BareMetalEndpoint) (data_so_far : NetworkData)
    → AreAddressed bmes
    → IsSafe (describe itoa net bmes data_so_far)
unfolding describe
describe-IsSafe itoa net [] data_so_far all = record { not_panicked = tt }
describe-IsSafe itoa net (bme ∷ bmes) data_so_far (there, all) =
    IsSafe-bind
      (describe_one itoa net bme (label_of bare_metal_endpoint_nic_label bme.meta.labels)
        data_so_far)
      _ (describe_one-IsSafe itoa net bme _ data_so_far there)
      λ next. describe-IsSafe itoa net bmes next all

module _ (server : Server) (http : Http) (printer : Printer) (net : NetText)
    (bmi : BareMetalInstance) where
  post_request-IsSafe :
      (ip network_data : String) (bmh : BareMetalHardware) (answer : Option Error)
      → IsSafe (post_request http bmi ip (image_request printer bmi bmh network_data) answer)
  unfolding post_request post
  post_request-IsSafe ip network_data bmh none =
      send_request-IsSafe http bmi (post_image ip (image_request printer bmi bmh network_data)) _
  post_request-IsSafe ip network_data bmh (some e) = record { not_panicked = tt }

  follow_imaging-IsSafe :
      (bmh : BareMetalHardware) (ip network_data : String) (status : Option Status)
      → IsSafe (follow_imaging server http printer bmi bmh ip network_data status)
  unfolding follow_imaging finish_imaging
  follow_imaging-IsSafe bmh ip network_data none = record {
    not_panicked = (post_request-IsSafe ip network_data bmh _).not_panicked;
  }
  follow_imaging-IsSafe bmh ip network_data (some status) =
      follow-IsSafe server bmi _ _ _ status _ (record {
        not_panicked =
            (put_status-IsSafe server bmi (new_condition server instance_imaged status_true "" "")
              done (record { not_panicked = tt })).not_panicked;
      })

  module _ (equipped : IsEquipped server bmi) where
    image_with_agent-IsSafe :
        (bmh : BareMetalHardware) (agent : Option BareMetalInstanceStatusAgentInfo)
        → IsSafe (image_with_agent server http printer net bmi bmh agent)
    unfolding image_with_agent
    image_with_agent-IsSafe bmh none = record { not_panicked = tt }
    image_with_agent-IsSafe bmh (some agent) =
        IsSafe-bind (or_agent_error bmi (agent_status http agent.ip)) _
          (or_agent_error-IsSafe bmi (agent_status http agent.ip))
          λ status.
            IsSafe-bind-or_fail (server.list_endpoints_by_instance bmi.meta.name) _ λ bmes listed.
              IsSafe-bind (describe printer.itoa net (keep_if (is_owned_by bmi) bmes) no_data) _
                (describe-IsSafe printer.itoa net _ no_data (equipped.addressed bmes listed))
                λ network_data.
                  IsSafe-bind (or_fail (printer.marshal_network_data network_data)) _
                    (IsSafe-or_fail (printer.marshal_network_data network_data))
                    λ text. follow_imaging-IsSafe bmh agent.ip text status

    image_condition-IsSafe :
        (bmh : BareMetalHardware) (imaged : Option StatusCondition)
        → IsSafe (image_condition server http printer net bmi bmh imaged)
    unfolding image_condition
    image_condition-IsSafe bmh none =
        put_status-IsSafe server bmi _ _ (record { not_panicked = tt })
    image_condition-IsSafe bmh (some imaged) =
        IsSafe-if (is_status_true imaged.status) _ _ (put_instance-IsSafe server _) (
          IsSafe-if (is_status_error imaged.status) _ _ (record { not_panicked = tt })
            (image_with_agent-IsSafe bmh bmi.status.agent_info))

    network_condition-IsSafe :
        (bmh : BareMetalHardware) (networked : Option StatusCondition)
        → HasNics bmh
        → IsSafe (network_condition server http printer net bmi bmh networked)
    unfolding network_condition
    network_condition-IsSafe bmh none has =
        put_status-IsSafe server bmi _ _ (record { not_panicked = tt })
    network_condition-IsSafe bmh (some networked) has =
        IsSafe-if (is_status_false networked.status) _ _
          (check_nics-IsSafe server bmi bmh has.hardware has.known bmh.spec.nics has.found
            has.bonded)
          (IsSafe-if (is_status_true networked.status) _ _
            (image_condition-IsSafe bmh (condition_of instance_imaged bmi))
            (record { not_panicked = tt }))

    claimed-IsSafe :
        (bmh : BareMetalHardware) (ref : Option BareMetalHardwareStatusInstanceRef)
        (k : Exec Result)
        → IsSafe k
        → IsSafe (claimed server bmi bmh ref k)
    unfolding claimed
    claimed-IsSafe bmh none k safe =
        IsSafe-bind (write server (update_hardware_status (with_ref (some (ref_of bmi)) bmh))) _
          (IsSafe-write server _) λ _. record { not_panicked = tt }
    claimed-IsSafe bmh (some ref) k safe = safe

    claim-IsSafe :
        (bmh : BareMetalHardware) (ref : Option BareMetalHardwareStatusInstanceRef)
        (k : Exec Result)
        → IsSafe k
        → IsSafe (claim server bmi bmh ref k)
    unfolding claim
    claim-IsSafe bmh ref k safe =
        IsSafe-if (has_taint not_ready bmh.spec.taints) _ _ (record { not_panicked = tt })
          (claimed-IsSafe bmh ref k safe)

    check_reference-IsSafe :
        (bmh : BareMetalHardware) (ref : Option BareMetalHardwareStatusInstanceRef)
        (k : Exec Result)
        → IsSafe k
        → IsSafe (check_reference server bmi bmh ref k)
    unfolding check_reference cannot_provision
    check_reference-IsSafe bmh none k safe = claim-IsSafe bmh none k safe
    check_reference-IsSafe bmh (some ref) k safe =
        IsSafe-if (not (refers_to bmi ref)) _ _ (record { not_panicked = tt })
          (claim-IsSafe bmh (some ref) k safe)

    provision-IsSafe : IsSafe (provision server http printer net bmi)
    unfolding provision check_hardware cannot_provision
    provision-IsSafe =
        IsSafe-if (not (is_provisioning bmi.status.phase)) _ _ (record { not_panicked = tt })
          (IsSafe-bind-or_nil (get_hardware_of server bmi) _
            (λ bmh got.
              IsSafe-if (deleting bmh.meta) _ _ (record { not_panicked = tt })
                (check_reference-IsSafe bmh bmh.status.instance_ref _ (
                  network_condition-IsSafe bmh (condition_of instance_networked bmi)
                    (equipped.has_nics bmh got))))
            (record { not_panicked = tt }))

    handle-IsSafe : IsSafe (handle server http printer net bmi)
    unfolding handle
    handle-IsSafe =
        IsSafe-if (not (is_true (condition_of instance_scheduled bmi))) _ _
          (record { not_panicked = tt })
          (IsSafe-if (deleting bmi.meta) _ _ (clean-IsSafe server http bmi) provision-IsSafe)

-- A reconcile of the provisioner does not panic, whatever the server and the agent answer, where the
-- nics of the instance's hardware are found in its hardware information, where the bonds of that
-- hardware have interfaces, and where the endpoints of the instance have an address.
pub provisioner_reconcile-IsSafe :
    (server : Server) (http : Http) (printer : Printer) (net : NetText) (bmi : BareMetalInstance)
    (req : NamespacedName)
    → server.get_instance req ≡ ok bmi
    → IsEquipped server bmi
    → IsSafe (reconcile server http printer net req)
unfolding reconcile
provisioner_reconcile-IsSafe server http printer net bmi req got equipped =
    rw got (handle-IsSafe server http printer net bmi equipped)
