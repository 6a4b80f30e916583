-- ===== src/Webhook/Hardware.antt =====
-- `BareMetalHardwareWebhook` of webhooks/baremetalhardware_webhook.go
pub mod Nics
use kube_baremetal.Prelude.{
  ℕ, ◌+◌, String, Bool, true, false, not, ◌||◌, ◌&&◌, Option, none, some, is_some, List, [], ◌∷◌,
  ◌++◌, any, map, length, ◌==◌, nat_eq, string_eq, if◌then◌else◌,
}
use kube_baremetal.Ip.Text.{NetText}
use kube_baremetal.Api.Meta.{deleting}
use kube_baremetal.Api.Discovery.{BareMetalDiscoveryHardware}
use kube_baremetal.Api.Hardware.{
  BareMetalHardware, BareMetalHardwareNic, BareMetalHardwareNicBond, bare_metal_hardware_finalizer,
}
use kube_baremetal.Finalizer.{has_finalizer}
use kube_baremetal.Client.{Reply}
use kube_baremetal.Webhook.Conditions.{condition_errors}
use kube_baremetal.Webhook.Discovery.{existing_errors, set_errors}
use kube_baremetal.Webhook.Error.{
  field, item, FieldError, forbidden, required, duplicate, unless, collect,
}

-- `BondModeActiveBackup`
abbrev pub bond_mode_active_backup : String
bond_mode_active_backup = "active-backup"

-- The bond is behind a pointer, so the loop changes the bond of the spec.
unfoldable pub default_bond : Option BareMetalHardwareNicBond → Option BareMetalHardwareNicBond
default_bond none = none
default_bond (some bond) =
    some (if bond.mode == "" then record bond { mode = bond_mode_active_backup } else bond)

-- `Default`: the finalizer where it is missing, and the mode of the bonds.
unfoldable pub default : BareMetalHardware → BareMetalHardware
unfolding default_bond
default r = if deleting r.meta then r else record r {
  meta = record r.meta {
    finalizers =
        if has_finalizer r.meta bare_metal_hardware_finalizer
        then r.meta.finalizers
        else r.meta.finalizers ++ bare_metal_hardware_finalizer ∷ [];
  };
  spec = record r.spec {
    nics =
        map {A = BareMetalHardwareNic} (λ nic. record nic { bond = default_bond nic.bond })
          r.spec.nics;
  };
}

-- One round of the loop over the nics: a nic whose name was found before is an error, and does not
-- count as a primary one.
unfoldable pub round_errors : Bool → Bool → ℕ → BareMetalHardwareNic → List FieldError
round_errors true primary i nic =
    duplicate (item "spec.nics" i) "cannot define nics multiple times" ∷ []
round_errors false primary i nic =
    unless (not (nic.primary && primary))
      (duplicate (item "spec.nics" i) "cannot have multiple primary nics")

-- The loop from the index `i` on, with `foundNICS` and `foundPrimary`, and the test after it.
unfoldable pub rest_errors : List String → Bool → ℕ → List BareMetalHardwareNic → List FieldError
unfolding round_errors
rest_errors found primary i [] =
    unless primary (required (field "spec.nics") "no primary nic found")
rest_errors found primary i (nic ∷ nics) =
    let twice = any (λ name. nic.name == name) found in
    round_errors twice primary i nic
    ++ rest_errors (if twice then found else found ++ nic.name ∷ [])
        (primary || (not twice && nic.primary)) (i + 1) nics

-- `validateNICs`
unfoldable pub nics_errors : List BareMetalHardwareNic → List FieldError
unfolding rest_errors
nics_errors [] = []
nics_errors (nic ∷ nics) = rest_errors [] false 0 (nic ∷ nics)

-- `ValidateCreate`
unfoldable pub validate_create :
    Reply (List BareMetalHardware) → BareMetalHardware → List FieldError
unfolding existing_errors nics_errors
validate_create existing r = collect (
    existing_errors r.spec.system_uuid existing
    ∷ unless (not (is_some r.status.hardware))
        (forbidden (field "status.hardware") "Cannot have hardware set when creating")
    ∷ unless (not (is_some r.status.instance_ref))
        (forbidden (field "status.instanceRef") "Cannot have instanceRef set when creating")
    ∷ nics_errors r.spec.nics
    ∷ [])

-- The block under `oldBMH.Status.Hardware != nil`; `same` is `reflect.DeepEqual`.
unfoldable pub kept_errors :
    NetText
    → Bool
    → Option BareMetalDiscoveryHardware
    → Option BareMetalDiscoveryHardware
    → List FieldError
unfolding set_errors
kept_errors net same none new = []
kept_errors net same (some old) new =
    if same
    then set_errors net new
    else forbidden (field "status.hardware") "Cannot change the hardware" ∷ []

-- `ValidateUpdate`
unfoldable pub validate_update :
    NetText → Bool → BareMetalHardware → BareMetalHardware → List FieldError
unfolding condition_errors kept_errors nics_errors
validate_update net same r old = collect (
    condition_errors r.status.conditions old.status.conditions
    ∷ unless (r.spec.system_uuid == old.spec.system_uuid)
        (forbidden (field "spec.systemUUID") "Cannot change the system uuid")
    ∷ kept_errors net same old.status.hardware r.status.hardware
    ∷ nics_errors r.spec.nics
    ∷ [])
