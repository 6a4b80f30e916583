-- ===== src/Webhook/Discovery.antt =====
-- `BareMetalDiscoveryWebhook` of webhooks/baremetaldiscovery_webhook.go
pub mod Names
use kube_baremetal.Prelude.{
  ℕ, ◌+◌, String, Bool, true, false, not, ◌||◌, Option, none, some, List, [], ◌∷◌, ◌++◌, length,
  ◌==◌, nat_eq, string_eq, if◌then◌else◌,
}
use kube_baremetal.Ip.Text.{NetText}
use kube_baremetal.Api.Discovery.{
  BareMetalDiscovery, BareMetalDiscoveryHardware, BareMetalDiscoveryHardwareStorage,
  BareMetalDiscoveryHardwareNic,
}
use kube_baremetal.Client.{Reply, ok, err}
use kube_baremetal.Webhook.Endpoint.{mac_errors}
use kube_baremetal.Webhook.Error.{
  Field, field, item, FieldError, invalid, forbidden, duplicate, internal_error, unless, collect,
}

-- One error for each earlier text that is the same.
unfoldable pub seen_errors : Field → String → List String → List FieldError
seen_errors path s [] = []
seen_errors path s (name ∷ names) =
    unless (not (name == s)) (duplicate path s) ++ seen_errors path s names

-- The loop over the storage; `seen` are the names before.
unfoldable pub storage_errors :
    List String → ℕ → List BareMetalDiscoveryHardwareStorage → List FieldError
unfolding seen_errors
storage_errors seen i [] = []
storage_errors seen i (storage ∷ rest) =
    seen_errors (item "status.hardware.storage" i) storage.name seen
    ++ storage_errors (seen ++ storage.name ∷ []) (i + 1) rest

-- The loop over the nics.
unfoldable pub nic_errors :
    NetText → List String → ℕ → List BareMetalDiscoveryHardwareNic → List FieldError
unfolding seen_errors
nic_errors net seen i [] = []
nic_errors net seen i (nic ∷ rest) = collect (
    mac_errors net (item "status.hardware.nics" i) nic.mac
    ∷ seen_errors (item "status.hardware.nics" i) nic.name seen
    ∷ nic_errors net (seen ++ nic.name ∷ []) (i + 1) rest
    ∷ [])

-- `validateHardware`
unfoldable pub hardware_errors : NetText → BareMetalDiscoveryHardware → List FieldError
unfolding storage_errors nic_errors
hardware_errors net hardware = collect (
    unless (not (hardware.cpu.cpus == 0))
      (invalid (field "status.hardware.cpu.cpus") "CPU quantity cannot be zero")
    ∷ unless (not (hardware.ram == 0))
        (invalid (field "status.hardware.ram") "Memory quantity cannot be zero")
    ∷ storage_errors [] 0 hardware.storage
    ∷ nic_errors net [] 0 hardware.nics
    ∷ [])

-- An error of the list, and then the objects that it has.
unfoldable pub existing_errors {ℓ} : {A : Type ℓ} → String → Reply (List A) → List FieldError
existing_errors uuid (err e) = internal_error (field "spec.systemUUID") "cannot list" ∷ []
existing_errors uuid (ok items) =
    unless (length items == 0) (duplicate (field "spec.systemUUID") uuid)

-- The hardware that is set.
unfoldable pub set_errors : NetText → Option BareMetalDiscoveryHardware → List FieldError
unfolding hardware_errors
set_errors net none = []
set_errors net (some hardware) = hardware_errors net hardware

-- `ValidateCreate`: the list of the discoveries is asked for twice.
unfoldable pub validate_create :
    NetText
    → Reply (List BareMetalDiscovery)
    → Reply (List BareMetalDiscovery)
    → BareMetalDiscovery
    → List FieldError
unfolding existing_errors set_errors
validate_create net first second r = collect (
    existing_errors r.spec.system_uuid first
    ∷ existing_errors r.spec.system_uuid second
    ∷ set_errors net r.status.hardware
    ∷ [])

-- The hardware of an update, by whether the old object has one; `same` is `reflect.DeepEqual`.
unfoldable pub change_errors :
    NetText
    → Bool
    → Option BareMetalDiscoveryHardware
    → Option BareMetalDiscoveryHardware
    → List FieldError
unfolding set_errors
change_errors net same none new = set_errors net new
change_errors net same (some old) new =
    unless same (forbidden (field "status.hardware") "Cannot change the discovery hardware")

-- `ValidateUpdate`
unfoldable pub validate_update :
    NetText → Bool → BareMetalDiscovery → BareMetalDiscovery → List FieldError
unfolding change_errors
validate_update net same r old = collect (
    unless (r.spec.system_uuid == old.spec.system_uuid)
      (forbidden (field "spec.systemUUID") "Cannot change the discovery system uuid")
    ∷ change_errors net same old.status.hardware r.status.hardware
    ∷ [])
