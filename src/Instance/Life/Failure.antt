-- ===== src/Instance/Life/Failure.antt =====
-- What an error of the agent leads to.
use kube_baremetal.Prelude.{
  ◌≡◌, refl, ◌∙◌, ap, true, false, none, some, List, [], ◌∷◌, String, ◌==◌, nat_eq, string_eq,
  text_eq, arith,
}
use kube_baremetal.Ip.Text.{NetText}
use kube_baremetal.Agent.{Status, cleaning_action_type}
use kube_baremetal.Agent.Http.{Http}
use kube_baremetal.Api.Meta.{NamespacedName, deleting, is_zero}
use kube_baremetal.Api.Hardware.{BareMetalHardware}
use kube_baremetal.Api.Instance.{BareMetalInstance, instance_scheduled, instance_cleaned}
use kube_baremetal.Condition.{
  ConditionType, ConditionStatus, StatusCondition, status_error, is_status_true, is_status_error,
  is_status_unset, is_true, is_error, set_condition, put_condition,
}
use kube_baremetal.Condition.Laws.{set_condition-Sets}
use kube_baremetal.Client.{Server, ok, Write, update_instance_status, Exec, Result, done}
use kube_baremetal.Client.Effects.{writes}
use kube_baremetal.Instance.Provisioner.{condition_of, new_condition, put_status, or_nil}
use kube_baremetal.Instance.Provisioner.Agent.{or_agent_error, follow}
use kube_baremetal.Instance.Provisioner.Clean.{
  clean, clean_condition, clean_hardware, clean_reference, clean_with_agent, follow_cleaning,
  free_hardware,
}
use kube_baremetal.Instance.Provisioner.Image.{Printer}
use kube_baremetal.Instance.Provisioner.Reconcile
use kube_baremetal.Instance.Provisioner.Premises.{IsCleaning, Holds, Answers, Ended}
use kube_baremetal.Instance.Life.Steps.{Sets-others}

-- A condition with a type, a status and a time is stored.
pub set_condition-stored :
    (server : Server) (type : ConditionType) (status : ConditionStatus) (reason message : String)
    (cs : List StatusCondition)
    → text_eq type "" ≡ false
    → is_status_unset status ≡ false
    → is_zero (some server.now) ≡ false
    → set_condition (new_condition server type status reason message) cs
      ≡ some (put_condition (new_condition server type status reason message) cs)
unfolding set_condition
set_condition-stored server type status reason message cs t s z = rw (t, s, z) refl

-- After an error of the cleaning nothing is done.
error-done :
    (server : Server) (http : Http) (printer : Printer) (net : NetText) (e : BareMetalInstance)
    → is_true (condition_of instance_scheduled e) ≡ true
    → deleting e.meta ≡ true
    → is_error (condition_of instance_cleaned e) ≡ true
    → Reconcile.handle server http printer net e ≡ done
unfolding Reconcile.handle clean clean_condition
error-done server http printer net e held gone failed = ground arith

module _ (server : Server) (http : Http) (printer : Printer) (net : NetText)
    (bmi : BareMetalInstance) (bmh : BareMetalHardware) (ip : String) (status : Status) where
  abbrev failure_condition : StatusCondition
  failure_condition =
      new_condition server instance_cleaned status_error "CleaningFailed" status.error

  -- The instance with the error of the agent.
  abbrev pub failed_instance : BareMetalInstance
  failed_instance = record bmi {
    status = record bmi.status {
      conditions = put_condition failure_condition bmi.status.conditions;
    };
  }

  follow-failed :
      (k : Exec Result)
      → Ended cleaning_action_type false status
      → is_zero (some server.now) ≡ false
      → ((w : Write) → server.refuses w ≡ none)
      → writes (follow server bmi cleaning_action_type instance_cleaned "CleaningFailed" status k).1
        ≡ update_instance_status failed_instance ∷ []
  unfolding follow put_status text_eq
  follow-failed k (same, over, wrong) now accepts =
      rw
        (
          same,
          over,
          wrong,
          set_condition-stored server instance_cleaned status_error "CleaningFailed" status.error
              bmi.status.conditions refl refl now,
          accepts _,
        )
        refl

  clean_with_agent-failed :
      Answers http bmi ip (some status)
      → Ended cleaning_action_type false status
      → is_zero (some server.now) ≡ false
      → ((w : Write) → server.refuses w ≡ none)
      → writes (clean_with_agent server http bmi bmh bmi.status.agent_info).1
        ≡ update_instance_status failed_instance ∷ []
  unfolding clean_with_agent or_agent_error follow_cleaning
  clean_with_agent-failed a e now accepts =
      ap (λ agent. writes (clean_with_agent server http bmi bmh agent).1) a.known
      ∙ rw (a.at_ip, a.answers) (follow-failed (free_hardware server bmi bmh) e now accepts)

  clean-failed :
      (c : StatusCondition)
      → IsCleaning bmi
      → condition_of instance_cleaned bmi ≡ some c
      → (bmi.status.hardware_name == "") ≡ false
      → Holds server bmi bmh
      → Answers http bmi ip (some status)
      → Ended cleaning_action_type false status
      → is_zero (some server.now) ≡ false
      → ((w : Write) → server.refuses w ≡ none)
      → writes (clean server http bmi).1 ≡ update_instance_status failed_instance ∷ []
  unfolding clean clean_condition or_nil clean_hardware clean_reference
  clean-failed c i known named h a e now accepts =
      let unclean : is_status_true c.status ≡ false = ground (arith, known, i.not_clean) in
      let sound : is_status_error c.status ≡ false = ground (arith, known, i.not_failed) in
      rw
        (
          i.leaving.not_ended, i.leaving.not_terminated, known, unclean, sound, i.in_phase, named,
          h.found,
        )
        (ap (λ ref. writes (clean_reference server http bmi bmh ref).1) h.has_ref
          ∙ rw h.is_mine (clean_with_agent-failed a e now accepts))

  -- The agent has ended the cleaning of an instance with an error: the one write of
  -- `Provisioner.Reconcile` is the condition `InstanceCleaned` with the status Error and the error
  -- of the agent. Of the instance as it is then stored, every later reconcile does nothing: no
  -- write, no request to the agent, no retry.
  pub reconcile-failed_instance :
      (req : NamespacedName) (c : StatusCondition)
      → server.get_instance req ≡ ok bmi
      → is_true (condition_of instance_scheduled bmi) ≡ true
      → IsCleaning bmi
      → condition_of instance_cleaned bmi ≡ some c
      → (bmi.status.hardware_name == "") ≡ false
      → Holds server bmi bmh
      → Answers http bmi ip (some status)
      → Ended cleaning_action_type false status
      → is_zero (some server.now) ≡ false
      → ((w : Write) → server.refuses w ≡ none)
      → (writes (Reconcile.reconcile server http printer net req).1
          ≡ update_instance_status failed_instance ∷ [])
        × ((cond : StatusCondition) × (condition_of instance_cleaned failed_instance ≡ some cond)
            × (cond.status ≡ status_error))
        × ((later : Server) (agent : Http) (again : NamespacedName)
            → later.get_instance again ≡ ok failed_instance
            → Reconcile.reconcile later agent printer net again ≡ done)
  unfolding Reconcile.reconcile Reconcile.handle text_eq
  reconcile-failed_instance req c got held i known named h a e now accepts =
      let stored =
        set_condition-stored server instance_cleaned status_error "CleaningFailed" status.error
          bmi.status.conditions refl refl now in
      let sets = set_condition-Sets failure_condition bmi.status.conditions _ stored in
      (
        rw (got, held, i.leaving.gone) (clean-failed c i known named h a e now accepts),
        sets.held,
        λ later agent again got_again. rw got_again (
            error-done later agent printer net failed_instance
              (rw (Sets-others instance_scheduled refl sets) held) i.leaving.gone
              (ground (arith, sets.held.1, sets.held.2))),
      )
