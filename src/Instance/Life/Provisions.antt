-- ===== src/Instance/Life/Provisions.antt =====
-- Every step of the provisioner keeps the status of an instance in order.
use kube_baremetal.Prelude.{
  ◌≡◌, ◌⊎◌, inl, inr, refl, Bool, true, false, Option, none, some, List, String, arith,
}
use kube_baremetal.Ip.Text.{NetText}
use kube_baremetal.Agent.Http.{Http}
use kube_baremetal.Api.Meta.{deleting}
use kube_baremetal.Api.Instance.{
  BareMetalInstance, BareMetalInstanceStatus, instance_networked, instance_imaged, instance_cleaned,
  BareMetalInstanceStatusPhase, is_running, is_cleaning, is_terminating, is_terminated, empty,
  pending, provisioning, imaging, running, cleaning, terminating, terminated,
}
use kube_baremetal.Condition.{
  ConditionType, ConditionStatus, StatusCondition, status_true, status_false, status_error,
  is_status_true, is_status_false, is_true, is_false, status_unset, status_unknown, set_condition,
}
use kube_baremetal.Condition.Laws.{Sets, set_condition-Sets}
use kube_baremetal.Client.{Server, Write, update_instance_status, update_instance, delete_instance}
use kube_baremetal.Instance.Provisioner.{new_condition}
use kube_baremetal.Instance.Provisioner.Image.{Printer}
use kube_baremetal.Instance.Provisioner.Premises.{reported}
use kube_baremetal.Instance.Provisioner.Move.{
  Move, CleanMove, ProvisionMove, cleans, provisions, start_cleaning, enter_cleaning, end_cleaning,
  no_hardware, lost_hardware, confirm_clean, ask_clean, fail_clean, free, claim, start_network,
  add_endpoint, confirm_network, start_image, run, ask_image, fail_image, confirm_image,
}
use kube_baremetal.Instance.Life.{IsOrderly, holds}
use kube_baremetal.Instance.Life.Steps.{networked-Only, imaged-Only, cleaned-Only}

-- A false condition is not true.
is_false-unheld : (o : Option StatusCondition) → is_false o ≡ true → is_true o ≡ false
is_false-unheld none f = refl
is_false-unheld (some cond) f = is_status_false-unheld cond.status f
  where
    is_status_false-unheld :
        (status : ConditionStatus) → is_status_false status ≡ true → is_status_true status ≡ false
    is_status_false-unheld status_true f = cc
    is_status_false-unheld status_false f = refl
    is_status_false-unheld status_unset f = refl
    is_status_false-unheld status_error f = refl
    is_status_false-unheld status_unknown f = refl

-- An instance is in one phase.
is_running-alone :
    (phase : BareMetalInstanceStatusPhase)
    → is_running phase ≡ true
    → (is_cleaning phase ≡ true) ⊎ (is_terminating phase ≡ true) ⊎ (is_terminated phase ≡ true)
    → ⊥
is_running-alone running r (inl h) = cc
is_running-alone running r (inr (inl h)) = cc
is_running-alone running r (inr (inr h)) = cc
is_running-alone empty r h = cc
is_running-alone pending r h = cc
is_running-alone provisioning r h = cc
is_running-alone imaging r h = cc
is_running-alone cleaning r h = cc
is_running-alone terminating r h = cc
is_running-alone terminated r h = cc

cleaned-IsOrderly :
    {d : Bool} {status : ConditionStatus} (s t : BareMetalInstanceStatus)
    → Sets instance_cleaned status s.conditions t.conditions
    → t.phase ≡ s.phase
    → t.hardware_name ≡ s.hardware_name
    → IsOrderly d s
    → IsOrderly d t
cleaned-IsOrderly s t sets same name o =
    let only = cleaned-Only s t sets in
    record {
      placed = rw (only.scheduled, name) o.placed;
      clears = rw same o.clears;
      ends = rw same o.ends;
      over = rw same o.over;
      released = rw (same, only.scheduled) o.released;
      connected = rw (only.imaged, only.networked) o.connected;
      complete = rw (same, only.imaged) o.complete;
    }

-- An instance whose network was not configured is not imaged.
networked-IsOrderly :
    {d : Bool} {status : ConditionStatus} (s t : BareMetalInstanceStatus)
    → holds instance_networked s ≡ false
    → Sets instance_networked status s.conditions t.conditions
    → t.phase ≡ s.phase
    → t.hardware_name ≡ s.hardware_name
    → IsOrderly d s
    → IsOrderly d t
networked-IsOrderly s t before sets same name o =
    let only = networked-Only s t sets in
    record {
      placed = rw (only.scheduled, name) o.placed;
      clears = rw same o.clears;
      ends = rw same o.ends;
      over = rw same o.over;
      released = rw (same, only.scheduled) o.released;
      connected = λ h. ground (arith, only.imaged, o.connected);
      complete = rw (same, only.imaged) o.complete;
    }

-- An instance that was not imaged is not running; it is imaged only with its network.
imaged-IsOrderly :
    {d : Bool} {status : ConditionStatus} (s t : BareMetalInstanceStatus)
    → holds instance_imaged s ≡ false
    → holds instance_networked s ≡ true
    → Sets instance_imaged status s.conditions t.conditions
    → t.phase ≡ s.phase
    → t.hardware_name ≡ s.hardware_name
    → IsOrderly d s
    → IsOrderly d t
imaged-IsOrderly s t before connected sets same name o =
    let only = imaged-Only s t sets in
    record {
      placed = rw (only.scheduled, name) o.placed;
      clears = rw same o.clears;
      ends = rw same o.ends;
      over = rw same o.over;
      released = rw (same, only.scheduled) o.released;
      connected = λ h. ground (arith, only.networked);
      complete = λ h. ground (arith, o.complete, same);
    }

-- An instance that is being deleted is in the phase Cleaning or Terminating.
leaving-IsOrderly :
    {d : Bool} (s t : BareMetalInstanceStatus)
    → d ≡ true
    → is_terminated t.phase ≡ false
    → is_running t.phase ≡ false
    → t.conditions ≡ s.conditions
    → t.hardware_name ≡ s.hardware_name
    → IsOrderly d s
    → IsOrderly d t
leaving-IsOrderly s t gone alive idle same name o = record {
  placed = rw (same, name) o.placed;
  clears = λ h. gone;
  ends = λ h. gone;
  over = λ h. gone;
  released = λ h. ground arith;
  connected = rw same o.connected;
  complete = λ h. ground arith;
}

running-IsOrderly :
    {d : Bool} (s t : BareMetalInstanceStatus)
    → holds instance_imaged s ≡ true
    → is_running t.phase ≡ true
    → t.conditions ≡ s.conditions
    → t.hardware_name ≡ s.hardware_name
    → IsOrderly d s
    → IsOrderly d t
running-IsOrderly s t imaged runs same name o = record {
  placed = rw (same, name) o.placed;
  clears = λ h. absurd (is_running-alone t.phase runs (inl h));
  ends = λ h. absurd (is_running-alone t.phase runs (inr (inl h)));
  over = λ h. absurd (is_running-alone t.phase runs (inr (inr h)));
  released = λ h. absurd (is_running-alone t.phase runs (inr (inr h)));
  connected = rw same o.connected;
  complete = rw same (λ h. imaged);
}

-- A write that leaves the metadata alone, and the status in order.
abbrev pub Keeps : BareMetalInstance → Write → Type 0
Keeps bmi (update_instance_status e) =
    (e.meta ≡ bmi.meta)
    × (IsOrderly (deleting bmi.meta) bmi.status → IsOrderly (deleting bmi.meta) e.status)
Keeps bmi (update_instance e) = ⊥
Keeps bmi (delete_instance e) = ⊥
Keeps bmi w = Unit

module _ (server : Server) (http : Http) (printer : Printer) (net : NetText)
    (bmi : BareMetalInstance) where
  abbrev sets_of :
      {type : ConditionType} {status : ConditionStatus} {cs : List StatusCondition}
      (reason message : String)
      → set_condition (new_condition server type status reason message) bmi.status.conditions
        ≡ some cs
      → Sets type status bmi.status.conditions cs
  sets_of {type} {status} {cs} reason message h =
      set_condition-Sets (new_condition server type status reason message) bmi.status.conditions cs
        h

  clean-Keeps : {w : Write} → CleanMove server http bmi w → Keeps bmi w
  clean-Keeps (start_cleaning l fresh (reported reason message h)) =
      (refl, λ o. cleaned-IsOrderly _ _ (sets_of reason message h) refl refl o)
  clean-Keeps (enter_cleaning l seen unclean sound waiting) =
      (refl, λ o. leaving-IsOrderly _ _ l.gone refl refl refl refl o)
  clean-Keeps (end_cleaning l clean) =
      (refl, λ o. leaving-IsOrderly _ _ l.gone refl refl refl refl o)
  clean-Keeps (no_hardware c unnamed) =
      (refl, λ o. leaving-IsOrderly _ _ c.leaving.gone refl refl refl refl o)
  clean-Keeps (lost_hardware c lost) =
      (refl, λ o. leaving-IsOrderly _ _ c.leaving.gone refl refl refl refl o)
  clean-Keeps (confirm_clean c found unheld (reported reason message h)) =
      (refl, λ o. cleaned-IsOrderly _ _ (sets_of reason message h) refl refl o)
  clean-Keeps (ask_clean c h a) = tt
  clean-Keeps (fail_clean c held a e (reported reason message h)) =
      (refl, λ o. cleaned-IsOrderly _ _ (sets_of reason message h) refl refl o)
  clean-Keeps (free c h a e) = tt

  provision-Keeps : {w : Write} → ProvisionMove server http printer net bmi w → Keeps bmi w
  provision-Keeps (claim p unheld) = tt
  provision-Keeps (start_network p held fresh (reported reason message h)) =
      (refl, λ o. networked-IsOrderly _ _ (ground arith) (sets_of reason message h) refl refl o)
  provision-Keeps (add_endpoint nic mac macs p held f member l e known m) = tt
  provision-Keeps (confirm_network p held f all (reported reason message h)) = (
    refl,
    λ o. networked-IsOrderly _ _ (is_false-unheld _ f) (sets_of reason message h) refl refl o,
  )
  provision-Keeps (start_image i fresh (reported reason message h)) = (
    refl,
    λ o. imaged-IsOrderly _ _ (ground arith) i.networked (sets_of reason message h) refl refl o,
  )
  provision-Keeps (run i imaged) = (refl, λ o. running-IsOrderly _ _ imaged refl refl refl o)
  provision-Keeps (ask_image bmh ip text u a l d m) = tt
  provision-Keeps (fail_image u a e (reported reason message h)) = (
    refl,
    λ o.
        imaged-IsOrderly _ _ u.not_imaged u.imaging.networked (sets_of reason message h) refl refl
          o,
  )
  provision-Keeps (confirm_image u a e (reported reason message h)) = (
    refl,
    λ o.
        imaged-IsOrderly _ _ u.not_imaged u.imaging.networked (sets_of reason message h) refl refl
          o,
  )

  pub move-Keeps : {w : Write} → Move server http printer net bmi w → Keeps bmi w
  move-Keeps (cleans scheduled m) = clean-Keeps m
  move-Keeps (provisions scheduled m) = provision-Keeps m
