-- ===== src/Instance/Provisioner/Moves/Described.antt =====
-- The network data is computed without a write.
use kube_baremetal.Prelude.{refl, Option, none, some, List, [], ◌∷◌, String, ℕ}
use kube_baremetal.Ip.{Ip, IpNet}
use kube_baremetal.Ip.Text.{NetText}
use kube_baremetal.Api.Endpoint.{
  BareMetalEndpoint, BareMetalEndpointStatusAddress, bare_metal_endpoint_nic_label,
}
use kube_baremetal.Client.Once.{IsQuiet, IsQuiet-bind}
use kube_baremetal.Instance.Provisioner.Links.{
  NetworkData, label_of, address_of, parsed_network, describe_one, describe,
}

address_of-IsQuiet : (o : Option BareMetalEndpointStatusAddress) → IsQuiet (address_of o)
unfolding address_of
address_of-IsQuiet none = record { none_written = refl }
address_of-IsQuiet (some a) = record { none_written = refl }

parsed_network-IsQuiet : (o : Option (Ip × IpNet)) → IsQuiet (parsed_network o)
unfolding parsed_network
parsed_network-IsQuiet none = record { none_written = refl }
parsed_network-IsQuiet (some (ip, network)) = record { none_written = refl }

module _ (itoa : ℕ → String) (net : NetText) where
  describe_one-IsQuiet :
      (bme : BareMetalEndpoint) (name : Option String) (d : NetworkData)
      → IsQuiet (describe_one itoa net bme name d)
  unfolding describe_one
  describe_one-IsQuiet bme none d = record { none_written = refl }
  describe_one-IsQuiet bme (some name) d =
      IsQuiet-bind (address_of bme.status.address) _ (address_of-IsQuiet _) λ address.
        IsQuiet-bind (parsed_network (net.parse_cidr address.cidr)) _ (parsed_network-IsQuiet _)
          λ network. record { none_written = refl }

  pub describe-IsQuiet :
      (bmes : List BareMetalEndpoint) (d : NetworkData) → IsQuiet (describe itoa net bmes d)
  unfolding describe
  describe-IsQuiet [] d = record { none_written = refl }
  describe-IsQuiet (bme ∷ bmes) d =
      IsQuiet-bind
        (describe_one itoa net bme (label_of bare_metal_endpoint_nic_label bme.meta.labels) d) _
        (describe_one-IsQuiet bme _ d) λ next. describe-IsQuiet bmes next
