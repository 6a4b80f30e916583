-- ===== src/Instance/Life.antt =====
-- The life of an instance: what the reconcilers of controllers/baremetalinstance make of it
-- together, one after another.
pub mod Steps
pub mod Provisions
pub mod Reach
pub mod Failure
pub mod Ending
mod Tests
use kube_baremetal.Prelude.{◌≡◌, Bool, true, false, String, ◌==◌, string_eq}
use kube_baremetal.Api.Instance.{
  BareMetalInstanceStatus, instance_scheduled, instance_networked, instance_imaged, is_running,
  is_cleaning, is_terminating, is_terminated,
}
use kube_baremetal.Condition.{ConditionType, is_true, get_condition}

abbrev pub holds : ConditionType → BareMetalInstanceStatus → Bool
holds type s = is_true (get_condition type s.conditions)

-- What the status says, where `d` says that the instance is being deleted: a scheduled instance has
-- a hardware; only an instance that is being deleted is in the phases Cleaning, Terminating and
-- Terminated, and a terminated one is not scheduled; an imaged instance has its network, and a
-- running one is imaged.
pub record IsOrderly (d : Bool) (s : BareMetalInstanceStatus) : Type 0 where
  pub placed : holds instance_scheduled s ≡ true → (s.hardware_name == "") ≡ false
  pub clears : is_cleaning s.phase ≡ true → d ≡ true
  pub ends : is_terminating s.phase ≡ true → d ≡ true
  pub over : is_terminated s.phase ≡ true → d ≡ true
  pub released : is_terminated s.phase ≡ true → holds instance_scheduled s ≡ false
  pub connected : holds instance_imaged s ≡ true → holds instance_networked s ≡ true
  pub complete : is_running s.phase ≡ true → holds instance_imaged s ≡ true
