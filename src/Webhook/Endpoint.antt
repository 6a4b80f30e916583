-- ===== src/Webhook/Endpoint.antt =====
-- `BareMetalEndpointWebhook` of webhooks/baremetalendpoint_webhook.go
pub mod Create
pub mod Update
use kube_baremetal.Prelude.{
  ◌≡◌, ℕ, String, Bool, true, false, not, ◌&&◌, ◌||◌, Option, none, some, is_some, List, [], ◌∷◌,
  ◌++◌, length, ◌==◌, nat_eq, string_eq, if◌then◌else◌,
}
use kube_baremetal.Ip.{Ip, IpNet, mask_ip, contains_ip}
use kube_baremetal.Ip.Text.{NetText}
use kube_baremetal.Api.Meta.{ObjectReference, deleting}
use kube_baremetal.Api.Endpoint.{
  BareMetalEndpoint, BareMetalEndpointBond, BareMetalEndpointStatusAddress,
  bare_metal_endpoint_finalizer, is_empty,
}
use kube_baremetal.Finalizer.{has_finalizer}
use kube_baremetal.Webhook.Conditions.{condition_errors}
use kube_baremetal.Webhook.Duplicates.{each_errors}
use kube_baremetal.Webhook.Error.{
  Field, field, item, FieldError, invalid, forbidden, duplicate, unless, collect,
}

-- `reflect.DeepEqual` on the bonds and on the addresses.
pub record DeepEqual : Type 0 where
  pub same_bond : Option BareMetalEndpointBond → Option BareMetalEndpointBond → Bool
  pub same_address :
      Option BareMetalEndpointStatusAddress → Option BareMetalEndpointStatusAddress → Bool

-- Its documented behaviour: what is deeply equal is equal.
pub record IsEquality (deep : DeepEqual) : Type 0 where
  pub bond : (a b : Option BareMetalEndpointBond) → deep.same_bond a b ≡ true → a ≡ b
  pub address : (a b : Option BareMetalEndpointStatusAddress) → deep.same_address a b ≡ true → a ≡ b

-- `Default`: the finalizer is added where it is missing.
unfoldable pub default : BareMetalEndpoint → BareMetalEndpoint
default r =
    if deleting r.meta
    then r
    else if has_finalizer r.meta bare_metal_endpoint_finalizer
    then r
    else record r {
      meta = record r.meta { finalizers = r.meta.finalizers ++ bare_metal_endpoint_finalizer ∷ [] };
    }

-- The error of `net.ParseMAC`.
abbrev pub mac_errors : NetText → Field → String → List FieldError
mac_errors net path mac = unless (is_some (net.parse_mac mac)) (invalid path "invalid MAC address")

-- The block under `r.Spec.Bond != nil`.
unfoldable pub bond_errors : NetText → Option BareMetalEndpointBond → List FieldError
unfolding each_errors
bond_errors net none = []
bond_errors net (some bond) =
    each_errors (λ i mac. mac_errors net (item "spec.bond.macs" i) mac)
      (λ i. duplicate (item "spec.bond.macs" i) "duplicate bond mac") bond.macs 0 bond.macs

-- `ValidateCreate`
unfoldable pub validate_create : NetText → BareMetalEndpoint → List FieldError
unfolding bond_errors
validate_create net r = collect (
    unless (not (is_some r.status.address))
      (forbidden (field "status.address") "Cannot have address set when creating")
    ∷ bond_errors net r.spec.bond
    ∷ mac_errors net (field "spec.mac") r.spec.mac
    ∷ [])

abbrev pub Parsed : Type 0
Parsed = Option (Ip × IpNet)

unfoldable pub cidr_errors : Parsed → List FieldError
cidr_errors none = invalid (field "status.address.cidr") "invalid cidr address" ∷ []
cidr_errors (some parsed) = []

-- `network != nil && network.Contains(ip) == false`
unfoldable pub inside_errors : Parsed → Field → String → Ip → List FieldError
inside_errors none path message ip = []
inside_errors (some (cidr_ip, network)) path message ip =
    unless (contains_ip network ip) (invalid path message)

-- The checks of the address and of the gateway.
unfoldable pub ip_errors : Parsed → Field → String → String → Option Ip → List FieldError
unfolding inside_errors
ip_errors network path bad message none = invalid path bad ∷ []
ip_errors network path bad message (some ip) = inside_errors network path message ip

-- `networkIP != nil && len(networkIP) != len(nsIP)`
unfoldable pub length_errors : Parsed → Field → Ip → List FieldError
length_errors none path ip = []
length_errors (some (cidr_ip, network)) path ip =
    let network_ip = mask_ip cidr_ip network.mask in
    if length network_ip == 0
    then []
    else unless (length network_ip == length ip)
        (invalid path "nameserver ip version is different then cidr ip version")

unfoldable pub nameserver_errors : Parsed → Field → Option Ip → List FieldError
unfolding length_errors
nameserver_errors network path none = invalid path "invalid nameserver address" ∷ []
nameserver_errors network path (some ip) = length_errors network path ip

-- The loop over the nameservers.
unfoldable pub nameservers_errors : NetText → Parsed → List String → List FieldError
unfolding nameserver_errors each_errors
nameservers_errors net network nameservers =
    each_errors
      (λ i ns. nameserver_errors network (item "status.address.nameservers" i) (net.parse_ip ns))
      (λ i. duplicate (item "status.address.nameservers" i) "duplicate nameserver") nameservers 0
      nameservers

-- An address that did not change is validated again.
unfoldable pub address_errors : NetText → BareMetalEndpointStatusAddress → List FieldError
unfolding cidr_errors ip_errors nameservers_errors
address_errors net address =
    let network = net.parse_cidr address.cidr in
    collect (
      cidr_errors network
      ∷ ip_errors network (field "status.address.ip") "invalid ip address" "ip is not in cidr"
          (net.parse_ip address.ip)
      ∷ ip_errors network (field "status.address.gateway") "invalid gateway address"
          "gateway is not in cidr" (net.parse_ip address.gateway)
      ∷ nameservers_errors net network address.nameservers
      ∷ [])

-- The block under `r.Status.Address != nil`.
unfoldable pub status_errors :
    NetText
    → DeepEqual
    → Option BareMetalEndpointStatusAddress
    → Option BareMetalEndpointStatusAddress
    → List FieldError
unfolding address_errors
status_errors net deep none old = []
status_errors net deep (some address) old =
    if deep.same_address (some address) old
    then address_errors net address
    else forbidden (field "status.address") "Cannot change the address" ∷ []

-- `reflect.DeepEqual` on two references.
abbrev pub same_ref : ObjectReference → ObjectReference → Bool
same_ref a b = a.name == b.name && a.kind == b.kind && a.group == b.group

-- `ValidateUpdate`
unfoldable pub validate_update :
    NetText → DeepEqual → BareMetalEndpoint → BareMetalEndpoint → List FieldError
unfolding condition_errors status_errors
validate_update net deep r old = collect (
    unless (is_empty old.status.phase || not (is_empty r.status.phase))
      (forbidden (field "status.phase") "Cannot set phase to empty string")
    ∷ condition_errors r.status.conditions old.status.conditions
    ∷ unless (r.spec.mac == old.spec.mac) (forbidden (field "spec.mac") "Cannot change the mac")
    ∷ unless (deep.same_bond r.spec.bond old.spec.bond)
        (forbidden (field "spec.bond") "Cannot change the bond")
    ∷ unless (same_ref r.spec.network_ref old.spec.network_ref)
        (forbidden (field "spec.networkRef") "Cannot change the networkRef")
    ∷ status_errors net deep r.status.address old.status.address
    ∷ [])
