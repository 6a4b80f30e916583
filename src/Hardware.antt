-- ===== src/Hardware.antt =====
-- controllers/baremetalhardware_controller.go: what `BareMetalHardwareReconciler.Reconcile` tests
-- and builds.
pub mod Controller
pub mod Reconcile
pub mod Move
pub mod Moves
pub mod Settled
mod Tests
use kube_baremetal.Prelude.{
  String, Bool, true, false, not, ◌&&◌, Option, none, some, List, [], ◌∷◌, ◌++◌, length, any, ◌==◌,
  nat_eq, string_eq, if◌then◌else◌,
}
use kube_baremetal.Api.Meta.{Time}
use kube_baremetal.Api.Discovery.{BareMetalDiscoveryHardware}
use kube_baremetal.Api.Hardware.{
  BareMetalHardware, BareMetalHardwareNic, BareMetalHardwareNicBond, Taint, no_schedule,
  hardware_set, image_drive_valid, nics_valid,
}
use kube_baremetal.Condition.{StatusCondition, ConditionType, is_true, get_condition}

-- The loop that looks for the key of a taint.
unfoldable pub has_taint : String → List Taint → Bool
has_taint key taints = any (λ t. t.key == key) taints

-- `append(taints[:taintIndex], taints[taintIndex+1:]...)` at the first taint of the key.
unfoldable pub remove_taint : String → List Taint → List Taint
remove_taint key [] = []
remove_taint key (t ∷ ts) = let rest = remove_taint key ts in if t.key == key then ts else t ∷ rest

abbrev pub with_taint : Time → String → List Taint → List Taint
with_taint now key taints =
    taints ++ record { key = key; value = ""; effect = no_schedule; time_added = some now } ∷ []

abbrev pub condition_of : ConditionType → BareMetalHardware → Option StatusCondition
condition_of t bmh = get_condition t bmh.status.conditions

-- All three conditions are true.
abbrev pub is_ready : BareMetalHardware → Bool
is_ready bmh =
    is_true (condition_of image_drive_valid bmh)
    && is_true (condition_of nics_valid bmh)
    && is_true (condition_of hardware_set bmh)

-- The hardware has a nic of the name.
abbrev pub has_nic : BareMetalDiscoveryHardware → String → Bool
has_nic hardware name = any (λ nic. nic.name == name) hardware.nics

-- A loop that breaks at the first item that fails.
abbrev pub every {ℓ} : {A : Type ℓ} → (A → Bool) → List A → Bool
every p [] = true
every p (x ∷ xs) = p x && every p xs

abbrev pub finds_nic :
    BareMetalDiscoveryHardware → BareMetalHardwareNic → Option BareMetalHardwareNicBond → Bool
finds_nic hardware nic none = has_nic hardware nic.name
finds_nic hardware nic (some bond) = every (has_nic hardware) bond.interfaces

-- `foundAllNics`
unfoldable pub finds_nics : BareMetalDiscoveryHardware → List BareMetalHardwareNic → Bool
finds_nics hardware nics = every (λ nic. finds_nic hardware nic nic.bond) nics

-- `foundImageDrive`
unfoldable pub finds_drive : BareMetalDiscoveryHardware → String → Bool
finds_drive hardware drive = any (λ storage. storage.name == drive) hardware.storage
