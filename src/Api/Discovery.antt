-- ===== src/Api/Discovery.antt =====
-- api/v1alpha1/baremetaldiscovery_types.go
use kube_baremetal.Prelude.{ℕ, String, Bool, Option, List}
use kube_baremetal.Api.Meta.{ObjectMeta}

-- A `resource.Quantity`, as the number that it stands for.
abbrev pub Quantity : Type 0
Quantity = ℕ

pub record BareMetalDiscoveryHardwareCpu : Type 0 where
  pub model_name : String
  pub architecture : String
  pub cpus : Quantity

pub record BareMetalDiscoveryHardwareStorage : Type 0 where
  pub name : String
  pub size : Quantity
  pub rotational : Bool
  pub trim : Bool
  pub serial : String

pub record BareMetalDiscoveryHardwareNic : Type 0 where
  pub name : String
  pub mac : String
  pub speed : Quantity

pub record BareMetalDiscoveryHardware : Type 0 where
  pub cpu : BareMetalDiscoveryHardwareCpu
  pub ram : Quantity
  pub storage : List BareMetalDiscoveryHardwareStorage
  pub nics : List BareMetalDiscoveryHardwareNic

pub record BareMetalDiscoverySpec : Type 0 where
  pub system_uuid : String

pub record BareMetalDiscoveryStatus : Type 0 where
  pub hardware : Option BareMetalDiscoveryHardware

pub record BareMetalDiscovery : Type 0 where
  pub meta : ObjectMeta
  pub spec : BareMetalDiscoverySpec
  pub status : BareMetalDiscoveryStatus
