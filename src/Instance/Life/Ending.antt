-- ===== src/Instance/Life/Ending.antt =====
-- How an instance ends once its hardware is clean: its provisioner, its scheduler and its controller
-- in turn.
use kube_baremetal.Prelude.{
  ◌≡◌, refl, ◌∙◌, ap, true, false, none, some, List, [], ◌∷◌, ◌==◌, string_eq, text_eq, String,
  arith,
}
use kube_baremetal.Ip.Text.{NetText}
use kube_baremetal.Agent.Http.{Http}
use kube_baremetal.Api.Meta.{NamespacedName, deleting, is_zero}
use kube_baremetal.Api.Hardware.{BareMetalHardware}
use kube_baremetal.Api.Instance.{
  BareMetalInstance, instance_scheduled, instance_cleaned, terminating, terminated, is_terminating,
  is_terminated, bare_metal_instance_finalizer,
}
use kube_baremetal.Condition.{
  StatusCondition, status_true, status_false, is_status_true, is_status_error, is_true,
  put_condition,
}
use kube_baremetal.Condition.Laws.{set_condition-Sets}
use kube_baremetal.Finalizer.{has_finalizer, remove_finalizer, has_finalizer-remove_finalizer}
use kube_baremetal.Client.{Server, ok, Write, update_instance, update_instance_status}
use kube_baremetal.Client.Effects.{writes}
use kube_baremetal.Instance.Controller
use kube_baremetal.Instance.Hardware.{Tools}
use kube_baremetal.Instance.Scheduler
use kube_baremetal.Instance.Scheduler.{scheduled_condition, unschedule}
use kube_baremetal.Instance.Provisioner.{
  condition_of, new_condition, put_status, put_instance, get_hardware_of, or_nil, with_phase,
  without_agent,
}
use kube_baremetal.Instance.Provisioner.Clean.{
  clean, clean_condition, clean_hardware, clean_reference,
}
use kube_baremetal.Instance.Provisioner.Image.{Printer}
use kube_baremetal.Instance.Provisioner.Reconcile
use kube_baremetal.Instance.Provisioner.Premises.{IsCleaning}
use kube_baremetal.Instance.Life.Steps.{Sets-held, Sets-others}
use kube_baremetal.Instance.Life.Failure.{set_condition-stored}

-- The instance that is stored after the writes.
unfoldable pub stored : BareMetalInstance → List Write → BareMetalInstance
stored bmi [] = bmi
stored bmi (update_instance e ∷ ws) = stored e ws
stored bmi (update_instance_status e ∷ ws) = stored e ws
stored bmi (w ∷ ws) = stored bmi ws

-- The server with the instance.
abbrev pub holding : Server → BareMetalInstance → Server
holding server bmi = record server { get_instance = λ req. ok bmi }

module _ (server : Server) (http : Http) (printer : Printer) (net : NetText) (tools : Tools)
    (req : NamespacedName) where
  unfoldable pub provisioned : BareMetalInstance → BareMetalInstance
  unfolding stored
  provisioned bmi =
      stored bmi (writes (Reconcile.reconcile (holding server bmi) http printer net req).1)

  unfoldable pub scheduled : BareMetalInstance → BareMetalInstance
  unfolding stored
  scheduled bmi = stored bmi (writes (Scheduler.reconcile (holding server bmi) tools req).1)

  unfoldable pub controlled : BareMetalInstance → BareMetalInstance
  unfolding stored
  controlled bmi = stored bmi (writes (Controller.reconcile (holding server bmi) req).1)

  -- Two reconciles of the provisioner, two of the scheduler, one of the controller.
  unfoldable pub ended : BareMetalInstance → BareMetalInstance
  unfolding provisioned scheduled controlled
  ended bmi = controlled (scheduled (scheduled (provisioned (provisioned bmi))))

  module _ (now : is_zero (some server.now) ≡ false)
      (accepts : (w : Write) → server.refuses w ≡ none) where
    abbrev cleaned_true : StatusCondition
    cleaned_true = new_condition server instance_cleaned status_true "" ""

    abbrev cleaned_instance : BareMetalInstance → BareMetalInstance
    cleaned_instance bmi = record bmi {
      status = record bmi.status { conditions = put_condition cleaned_true bmi.status.conditions };
    }

    -- The hardware does not refer to the instance any more.
    provisioned-free :
        (bmi : BareMetalInstance) (bmh : BareMetalHardware) (c : StatusCondition)
        → is_true (condition_of instance_scheduled bmi) ≡ true
        → IsCleaning bmi
        → condition_of instance_cleaned bmi ≡ some c
        → (bmi.status.hardware_name == "") ≡ false
        → get_hardware_of server bmi ≡ ok bmh
        → bmh.status.instance_ref ≡ none
        → provisioned bmi ≡ cleaned_instance bmi
    unfolding provisioned stored Reconcile.reconcile Reconcile.handle clean clean_condition or_nil
        clean_hardware clean_reference put_status text_eq
    provisioned-free bmi bmh c held i known named found free =
        let unclean : is_status_true c.status ≡ false = ground (arith, known, i.not_clean) in
        let sound : is_status_error c.status ≡ false = ground (arith, known, i.not_failed) in
        rw
          (
            held,
            i.leaving.gone,
            i.leaving.not_ended,
            i.leaving.not_terminated,
            known,
            unclean,
            sound,
            i.in_phase,
            named,
            found,
            free,
            set_condition-stored server instance_cleaned status_true "" "" bmi.status.conditions
                refl refl now,
            accepts _,
          )
          refl

    -- The instance is clean.
    provisioned-clean :
        (bmi : BareMetalInstance) (c : StatusCondition)
        → is_true (condition_of instance_scheduled bmi) ≡ true
        → deleting bmi.meta ≡ true
        → is_terminating bmi.status.phase ≡ false
        → is_terminated bmi.status.phase ≡ false
        → condition_of instance_cleaned bmi ≡ some c
        → is_status_true c.status ≡ true
        → provisioned bmi ≡ without_agent (with_phase terminating bmi)
    unfolding provisioned stored Reconcile.reconcile Reconcile.handle clean clean_condition
        put_instance
    provisioned-clean bmi c held gone alive unended known clean =
        rw (held, gone, alive, unended, known, clean, accepts _) refl

    abbrev scheduled_false : StatusCondition
    scheduled_false = scheduled_condition server status_false

    abbrev unscheduled_instance : BareMetalInstance → BareMetalInstance
    unscheduled_instance bmi = record bmi {
      status = record bmi.status {
        conditions = put_condition scheduled_false bmi.status.conditions;
        hardware_name = "";
      };
    }

    -- The provisioner is done with the instance.
    scheduled-terminating :
        (bmi : BareMetalInstance)
        → deleting bmi.meta ≡ true
        → is_terminated bmi.status.phase ≡ false
        → is_terminating bmi.status.phase ≡ true
        → is_true (condition_of instance_scheduled bmi) ≡ true
        → scheduled bmi ≡ unscheduled_instance bmi
    unfolding scheduled stored Scheduler.reconcile Scheduler.handle unschedule text_eq
    scheduled-terminating bmi gone unended ending held =
        rw
          (
            gone,
            unended,
            held,
            ending,
            set_condition-stored server instance_scheduled status_false "" "" bmi.status.conditions
                refl refl now,
            accepts _,
          )
          refl

    -- The instance has no hardware any more.
    scheduled-unheld :
        (bmi : BareMetalInstance)
        → deleting bmi.meta ≡ true
        → is_terminated bmi.status.phase ≡ false
        → is_true (condition_of instance_scheduled bmi) ≡ false
        → scheduled bmi ≡ with_phase terminated bmi
    unfolding scheduled stored Scheduler.reconcile Scheduler.handle unschedule
    scheduled-unheld bmi gone unended unheld = rw (gone, unended, unheld, accepts _) refl

    controlled-terminated :
        (bmi : BareMetalInstance)
        → deleting bmi.meta ≡ true
        → is_terminated bmi.status.phase ≡ true
        → controlled bmi
          ≡ record bmi { meta = remove_finalizer bmi.meta bare_metal_instance_finalizer }
    unfolding controlled stored Controller.reconcile Controller.handle
    controlled-terminated bmi gone over = rw (gone, over, accepts _) refl

    -- What the five reconciles make of it.
    abbrev ended_instance : BareMetalInstance → BareMetalInstance
    ended_instance bmi =
        let last =
          with_phase terminated (
            unscheduled_instance (without_agent (with_phase terminating (cleaned_instance bmi)))) in
        record last { meta = remove_finalizer bmi.meta bare_metal_instance_finalizer }

    ended-free :
        (bmi : BareMetalInstance) (bmh : BareMetalHardware) (c : StatusCondition)
        → is_true (condition_of instance_scheduled bmi) ≡ true
        → IsCleaning bmi
        → condition_of instance_cleaned bmi ≡ some c
        → (bmi.status.hardware_name == "") ≡ false
        → get_hardware_of server bmi ≡ ok bmh
        → bmh.status.instance_ref ≡ none
        → ended bmi ≡ ended_instance bmi
    unfolding ended text_eq
    ended-free bmi bmh c held i known named found free =
        let gone = i.leaving.gone in
        let clean = set_condition-Sets cleaned_true bmi.status.conditions _ (
          set_condition-stored server instance_cleaned status_true "" "" bmi.status.conditions refl
            refl now) in
        let b1 = cleaned_instance bmi in
        let b2 = without_agent (with_phase terminating b1) in
        let b3 = unscheduled_instance b2 in
        let b4 = with_phase terminated b3 in
        let held1 : is_true (condition_of instance_scheduled b1) ≡ true =
          Sets-others instance_scheduled refl clean ∙ held in
        let free2 = set_condition-Sets scheduled_false b2.status.conditions _ (
          set_condition-stored server instance_scheduled status_false "" "" b2.status.conditions
            refl refl now) in
        ap (λ b. controlled (scheduled (scheduled (provisioned b))))
          (provisioned-free bmi bmh c held i known named found free)
        ∙ ap (λ b. controlled (scheduled (scheduled b)))
            (provisioned-clean b1 clean.held.0 held1 gone i.leaving.not_ended
              i.leaving.not_terminated clean.held.1 (ap is_status_true clean.held.2))
        ∙ ap (λ b. controlled (scheduled b)) (scheduled-terminating b2 gone refl refl held1)
        ∙ ap (λ b. controlled b) (scheduled-unheld b3 gone refl (Sets-held free2))
        ∙ controlled-terminated b4 gone refl

    -- Where the server answers and accepts every write, an instance that is being deleted, in the
    -- phase Cleaning, and whose hardware refers to no instance any more, is gone after five
    -- reconciles, two of the provisioner, two of the scheduler and one of the controller: it has
    -- given back its hardware's name, is in the phase Terminated, and has lost the finalizer of the
    -- controller, and no other finalizer.
    pub ended_lem :
        (bmi : BareMetalInstance) (bmh : BareMetalHardware) (c : StatusCondition)
        → is_true (condition_of instance_scheduled bmi) ≡ true
        → IsCleaning bmi
        → condition_of instance_cleaned bmi ≡ some c
        → (bmi.status.hardware_name == "") ≡ false
        → get_hardware_of server bmi ≡ ok bmh
        → bmh.status.instance_ref ≡ none
        → ((ended bmi).status.hardware_name ≡ "")
          × (is_terminated (ended bmi).status.phase ≡ true)
          × (has_finalizer (ended bmi).meta bare_metal_instance_finalizer ≡ false)
          × ((f : String)
              → (bare_metal_instance_finalizer == f) ≡ false
              → has_finalizer (ended bmi).meta f ≡ has_finalizer bmi.meta f)
    unfolding text_eq
    ended_lem bmi bmh c held i known named found free =
        rw (ended-free bmi bmh c held i known named found free) (
          refl,
          refl,
          has_finalizer-remove_finalizer bmi.meta bare_metal_instance_finalizer
              bare_metal_instance_finalizer,
          λ f other.
              rw (has_finalizer-remove_finalizer bmi.meta bare_metal_instance_finalizer f, other)
                refl,
        )
