-- ===== src/Webhook/Network.antt =====
-- `BareMetalNetworkWebhook` of webhooks/baremetalnetwork_webhook.go
pub mod Range
use kube_baremetal.Prelude.{
  ℕ, ◌+◌, String, Bool, true, false, not, Option, none, some, is_some, List, [], ◌∷◌, ◌++◌, length,
  ◌==◌, nat_eq, string_eq, if◌then◌else◌,
}
use kube_baremetal.Ip.{Ip, IpNet, mask_ip, to4, contains_ip, not_below}
use kube_baremetal.Ip.Text.{NetText}
use kube_baremetal.Api.Meta.{deleting}
use kube_baremetal.Api.Network.{BareMetalNetwork, bare_metal_network_finalizer}
use kube_baremetal.Finalizer.{has_finalizer}
use kube_baremetal.Webhook.Duplicates.{each_errors}
use kube_baremetal.Webhook.Error.{
  Field, field, item, FieldError, invalid, forbidden, unless, collect,
}

-- `Default`: the finalizer is added where it is missing.
unfoldable pub default : BareMetalNetwork → BareMetalNetwork
default r =
    if deleting r.meta
    then r
    else if has_finalizer r.meta bare_metal_network_finalizer
    then r
    else record r {
      meta = record r.meta { finalizers = r.meta.finalizers ++ bare_metal_network_finalizer ∷ [] };
    }

abbrev pub Parsed : Type 0
Parsed = Option (Ip × IpNet)

unfoldable pub cidr_errors : Parsed → List FieldError
cidr_errors none = invalid (field "spec.cidr") "invalid cidr" ∷ []
cidr_errors (some parsed) = []

-- `network != nil && !network.Contains(ip)`
unfoldable pub inside_errors : Parsed → Field → String → Ip → List FieldError
inside_errors none path message ip = []
inside_errors (some (cidr_ip, network)) path message ip =
    unless (contains_ip network ip) (invalid path message)

-- The checks of the start, the end and the gateway; the path of an address that does not parse is
-- one of its own.
unfoldable pub address_errors :
    Parsed → Field → String → Field → String → Option Ip → List FieldError
unfolding inside_errors
address_errors network bad invalid_message path message none = invalid bad invalid_message ∷ []
address_errors network bad invalid_message path message (some ip) =
    inside_errors network path message ip

-- `bytes.Compare(start, end) >= 0`
unfoldable pub order_errors : Option Ip → Option Ip → List FieldError
order_errors (some start) (some end) =
    unless (not (not_below start end))
      (invalid (field "spec.start") "start address must be greater then end address")
order_errors _ _ = []

-- `networkIP != nil && len(networkIP) != len(nsIP)`, of the shortest form of the nameserver.
unfoldable pub version_errors : Parsed → Field → Ip → List FieldError
version_errors none path ip = []
version_errors (some (cidr_ip, network)) path ip =
    let network_ip = mask_ip cidr_ip network.mask in
    let short = if length (to4 ip) == 0 then ip else to4 ip in
    if length network_ip == 0
    then []
    else unless (length network_ip == length short)
        (invalid path "nameserver ip version is different then cidr ip version")

unfoldable pub nameserver_errors : Parsed → Field → Option Ip → List FieldError
unfolding version_errors
nameserver_errors network path none = invalid path "invalid nameserver address" ∷ []
nameserver_errors network path (some ip) = version_errors network path ip

-- The loop over the nameservers.
unfoldable pub nameservers_errors : NetText → Parsed → List String → List FieldError
unfolding nameserver_errors each_errors
nameservers_errors net network nameservers =
    each_errors (λ i ns. nameserver_errors network (item "spec.nameservers" i) (net.parse_ip ns))
      (λ i. invalid (item "spec.nameservers" i) "duplicate nameserver") nameservers 0 nameservers

-- `ValidateCreate`
unfoldable pub validate_create : NetText → BareMetalNetwork → List FieldError
unfolding cidr_errors address_errors order_errors nameservers_errors
validate_create net r =
    let network = net.parse_cidr r.spec.cidr in
    let start = net.parse_ip r.spec.start in
    let end = net.parse_ip r.spec.end in
    collect (
      cidr_errors network
      ∷ address_errors network (field "spec.start") "invalid start address" (field "spec.start")
          "start address is not in cidr" start
      ∷ address_errors network (field "spec.start") "invalid end address" (field "spec.end")
          "end address is not in cidr" end
      ∷ order_errors start end
      ∷ address_errors network (field "spec.gateway") "invalid gateway address"
          (field "spec.gateway") "gateway address is not in cidr" (net.parse_ip r.spec.gateway)
      ∷ nameservers_errors net network r.spec.nameservers
      ∷ [])

-- `ValidateUpdate`; `same_spec` is `reflect.DeepEqual` of the two specs.
unfoldable pub validate_update : Bool → List FieldError
validate_update same_spec = unless same_spec (forbidden (field "spec") "Cannot change the spec")
