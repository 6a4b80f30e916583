-- ===== src/Api/Network.antt =====
-- api/v1alpha1/baremetalnetwork_types.go
use kube_baremetal.Prelude.{String, List}
use kube_baremetal.Api.Meta.{ObjectMeta}

abbrev pub bare_metal_network_finalizer : String
bare_metal_network_finalizer = "bmn.finalizer.baremetal.com.rmb938"

pub record BareMetalNetworkSpec : Type 0 where
  pub cidr : String
  pub gateway : String
  pub start : String
  pub end : String
  pub nameservers : List String
  pub search_domains : List String

pub record BareMetalNetwork : Type 0 where
  pub kind : String
  pub meta : ObjectMeta
  pub spec : BareMetalNetworkSpec
