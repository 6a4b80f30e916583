-- ===== src/Instance/Life/Tests.antt =====
-- Instances at points of their life.
use kube_baremetal.Prelude.{
  ◌≡◌, refl, subst, keep_if, true, false, none, some, String, [], ◌∷◌, ◌==◌, string_eq, text_eq,
}
use kube_baremetal.Ip.Example.{net_text}
use kube_baremetal.Agent.{cleaning_action_type}
use kube_baremetal.Agent.Http.{Http}
use kube_baremetal.Api.Meta.{NamespacedName, name_of}
use kube_baremetal.Api.Hardware.{BareMetalHardware}
use kube_baremetal.Api.Instance.{
  BareMetalInstance, instance_scheduled, instance_cleaned, instance_networked, cleaning,
  provisioning, empty, pending, is_terminated, bare_metal_instance_finalizer,
}
use kube_baremetal.Condition.{
  StatusCondition, status_true, status_false, status_error, is_true, get_condition,
}
use kube_baremetal.Finalizer.{has_finalizer}
use kube_baremetal.Client.{Server, ok, ok_injective, done, update_instance_status}
use kube_baremetal.Client.Effects.{writes}
use kube_baremetal.Client.Once.{Once}
use kube_baremetal.Client.Safe.{IsSafe}
use kube_baremetal.Hardware.{finds_nics}
use kube_baremetal.Instance.Provisioner.Safety.Whole.{
  AreAddressed, HasNics, IsEquipped, provisioner_reconcile-IsSafe,
}
use kube_baremetal.Instance.Controller
use kube_baremetal.Instance.Hardware.{Tools}
use kube_baremetal.Instance.Provisioner.{condition_of, is_owned_by}
use kube_baremetal.Instance.Provisioner.Agent.{agent_status}
use kube_baremetal.Instance.Provisioner.Claim.{ref_of}
use kube_baremetal.Instance.Provisioner.Example.{
  web, node, node_hardware, condition, server_of, agent_with, printer, failed_status,
}
use kube_baremetal.Instance.Provisioner.Move.{Move}
use kube_baremetal.Instance.Provisioner.Moves.Whole.{provisioner_reconcile-Move}
use kube_baremetal.Instance.Provisioner.Premises.{IsCleaning, Holds, Answers, Ended}
use kube_baremetal.Instance.Provisioner.Reconcile
use kube_baremetal.Instance.Life.{IsOrderly}
use kube_baremetal.Instance.Life.Reach.{
  create, then, Step, by_controller, Reach-IsOrderly, IsGone, instance_reconcile-IsGone,
}
use kube_baremetal.Instance.Life.Failure.{failed_instance, reconcile-failed_instance}
use kube_baremetal.Instance.Life.Ending.{ended, ended_lem}

-- An instance that is cleaned off its hardware.
abbrev dirty : BareMetalInstance
dirty = web cleaning (some 5) (condition instance_cleaned status_false ∷ [])

abbrev held : BareMetalHardware
held = node (some (ref_of dirty))

abbrev free : BareMetalHardware
free = node none

abbrev failing : Http
failing = agent_with failed_status

provisioner_reconcile-Move_example :
    Once
      (Move (server_of dirty held) failing printer net_text dirty)
      (Reconcile.reconcile (server_of dirty held) failing printer net_text (name_of dirty.meta))
provisioner_reconcile-Move_example =
    provisioner_reconcile-Move (server_of dirty held) failing printer net_text dirty
      (name_of dirty.meta) refl

dirty-IsCleaning : IsCleaning dirty
unfolding get_condition text_eq
dirty-IsCleaning = record {
  leaving = record { gone = refl; not_ended = refl; not_terminated = refl };
  in_phase = refl;
  not_clean = refl;
  not_failed = refl;
}

dirty-held :
    condition_of "InstanceScheduled" dirty ≡ some (condition "InstanceScheduled" status_true)
unfolding get_condition text_eq
dirty-held = refl

dirty-known : condition_of instance_cleaned dirty ≡ some (condition instance_cleaned status_false)
unfolding get_condition text_eq
dirty-known = refl

dirty-Holds : Holds (server_of dirty held) dirty held
unfolding text_eq
dirty-Holds = record { ref = ref_of dirty; found = refl; has_ref = refl; is_mine = refl }

failing-Answers : Answers failing dirty "10.0.0.9" (some failed_status)
unfolding agent_status
failing-Answers = record {
  agent = record { ip = "10.0.0.9" };
  known = refl;
  at_ip = refl;
  answers = refl;
}

dirty-scheduled : is_true (condition_of instance_scheduled dirty) ≡ true
unfolding get_condition text_eq
dirty-scheduled = refl

node-named : (dirty.status.hardware_name == "") ≡ false
unfolding text_eq
node-named = refl

failed_status-Ended : Ended cleaning_action_type false failed_status
unfolding text_eq
failed_status-Ended = (refl, refl, refl)

abbrev stopped : BareMetalInstance
stopped =
    failed_instance (server_of dirty held) failing printer net_text dirty held "10.0.0.9"
      failed_status

reconcile-failed_instance_example :
    (writes
        (Reconcile.reconcile (server_of dirty held) failing printer net_text (name_of dirty.meta)).1
      ≡ update_instance_status stopped ∷ [])
    × ((cond : StatusCondition) × (condition_of instance_cleaned stopped ≡ some cond)
        × (cond.status ≡ status_error))
    × ((later : Server) (agent : Http) (again : NamespacedName)
        → later.get_instance again ≡ ok stopped
        → Reconcile.reconcile later agent printer net_text again ≡ done)
reconcile-failed_instance_example =
    reconcile-failed_instance (server_of dirty held) failing printer net_text dirty held "10.0.0.9"
      failed_status (name_of dirty.meta) (condition instance_cleaned status_false) refl
      dirty-scheduled dirty-IsCleaning dirty-known node-named dirty-Holds failing-Answers
      failed_status-Ended refl (λ w. refl)

abbrev tools : Tools
tools = record { tolerates_taint = λ _ _. false; matches = λ _ _. false; intn = λ n. 0 }

abbrev gone : BareMetalInstance
gone = ended (server_of dirty free) failing printer net_text tools (name_of dirty.meta) dirty

ended_lem_example :
    (gone.status.hardware_name ≡ "")
    × (is_terminated gone.status.phase ≡ true)
    × (has_finalizer gone.meta bare_metal_instance_finalizer ≡ false)
    × ((f : String)
        → (bare_metal_instance_finalizer == f) ≡ false
        → has_finalizer gone.meta f ≡ has_finalizer dirty.meta f)
ended_lem_example =
    ended_lem (server_of dirty free) failing printer net_text tools (name_of dirty.meta) refl
      (λ w. refl) dirty free (condition instance_cleaned status_false) dirty-scheduled
      dirty-IsCleaning dirty-known node-named refl refl

-- An instance that was just created, and becomes pending.
abbrev fresh : BareMetalInstance
fresh = record (web empty none []) {
  status = record { conditions = []; agent_info = none; hardware_name = ""; phase = empty };
}

fresh-Step : Step fresh (record fresh { status = record fresh.status { phase = pending } })
unfolding Controller.reconcile Controller.handle
fresh-Step = by_controller (server_of fresh free) (name_of fresh.meta) refl refl

Reach-IsOrderly_example :
    IsOrderly false (record fresh { status = record fresh.status { phase = pending } }).status
Reach-IsOrderly_example = Reach-IsOrderly (then (create refl refl) fresh-Step)

instance_reconcile-IsGone_example :
    Once (IsGone fresh) (Controller.reconcile (server_of fresh free) (name_of fresh.meta))
instance_reconcile-IsGone_example =
    instance_reconcile-IsGone (server_of fresh free) fresh (name_of fresh.meta) refl
      (create refl refl)

-- An instance whose endpoints are still to be created.
abbrev unnetworked : BareMetalInstance
unnetworked = web provisioning none (condition instance_networked status_false ∷ [])

node-found : finds_nics node_hardware ((node none).spec.nics) ≡ true
unfolding finds_nics text_eq
node-found = refl

node-HasNics : HasNics (node (some (ref_of unnetworked)))
node-HasNics = record {
  hardware = node_hardware;
  known = refl;
  found = node-found;
  bonded = (tt, tt);
}

unnetworked-IsEquipped :
    IsEquipped (server_of unnetworked (node (some (ref_of unnetworked)))) unnetworked
unfolding is_owned_by
unnetworked-IsEquipped = record {
  has_nics = λ bmh got. subst HasNics (ok_injective got) node-HasNics;
  addressed = λ bmes listed.
      subst (λ bs. AreAddressed (keep_if (is_owned_by unnetworked) bs)) (ok_injective listed) tt;
}

provisioner_reconcile-IsSafe_example : IsSafe (
    Reconcile.reconcile
      (server_of unnetworked (node (some (ref_of unnetworked))))
      (agent_with failed_status)
      printer
      net_text
      (name_of unnetworked.meta))
provisioner_reconcile-IsSafe_example =
    provisioner_reconcile-IsSafe (server_of unnetworked (node (some (ref_of unnetworked))))
      (agent_with failed_status) printer net_text unnetworked (name_of unnetworked.meta) refl
      unnetworked-IsEquipped
