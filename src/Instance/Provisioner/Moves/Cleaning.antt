-- ===== src/Instance/Provisioner/Moves/Cleaning.antt =====
-- Every step of the provisioner for an instance that is being deleted is one that it may make.
use kube_baremetal.Prelude.{
  ◌≡◌, refl, true, not, Option, none, some, ◌||◌, String, ◌==◌, string_eq, nat_eq, arith, inl, inr,
}
use kube_baremetal.Agent.{Status, cleaning_action_type, post_clean}
use kube_baremetal.Agent.Http.{Http}
use kube_baremetal.Api.Meta.{deleting}
use kube_baremetal.Api.Hardware.{BareMetalHardware, BareMetalHardwareStatusInstanceRef}
use kube_baremetal.Api.Instance.{
  BareMetalInstance, BareMetalInstanceStatusAgentInfo, instance_cleaned, is_cleaning, terminating,
  is_terminating, is_terminated,
}
use kube_baremetal.Condition.{
  StatusCondition, status_true, status_false, is_status_true, is_status_error,
}
use kube_baremetal.Client.{
  Server, Exec, Result, ok, normal, completed, update_instance_status, update_hardware_status, done,
  ◌>>◌,
}
use kube_baremetal.Client.Once.{Once, Once-if, Once-write, Once-bind}
use kube_baremetal.Instance.Provisioner.{
  condition_of, with_phase, with_ref, say, say_of, get_hardware_of, or_nil, refers_to,
}
use kube_baremetal.Instance.Provisioner.Agent.{agent_status, or_agent_error}
use kube_baremetal.Instance.Provisioner.Clean.{
  free_hardware, follow_cleaning, clean_with_agent, skip_cleaning, clean_reference, clean_hardware,
  clean_condition, clean,
}
use kube_baremetal.Instance.Provisioner.Move.{
  CleanMove, start_cleaning, enter_cleaning, end_cleaning, no_hardware, lost_hardware,
  confirm_clean, ask_clean, fail_clean, free,
}
use kube_baremetal.Instance.Provisioner.Premises.{IsLeaving, IsCleaning, Holds, Answers}
use kube_baremetal.Instance.Provisioner.Moves.{
  or_nil-IsQuiet, or_nil-cases, or_agent_error-IsQuiet, or_agent_error-ok, post-Once,
  put_instance-Once, put_status-Once, follow-Once,
}

module _ (server : Server) (http : Http) (bmi : BareMetalInstance) where
  abbrev Moves : Exec Result → Type 0
  Moves m = Once (CleanMove server http bmi) m

  follow_cleaning-Moves :
      (bmh : BareMetalHardware) (ip : String) (answer : Option Status)
      → IsCleaning bmi
      → Holds server bmi bmh
      → Answers http bmi ip answer
      → Moves (follow_cleaning server http bmi bmh ip answer)
  unfolding follow_cleaning free_hardware
  follow_cleaning-Moves bmh ip none c h a =
      let ask = post-Once (CleanMove server http bmi) bmi http (post_clean ip) (ask_clean c h a) in
      record { at_most = ask.at_most }
  follow_cleaning-Moves bmh ip (some status) c h a =
      follow-Once _ bmi server cleaning_action_type instance_cleaned "CleaningFailed" status _
        (λ e w r. fail_clean c h a e r)
        (λ e.
          let write_it =
            Once-write (CleanMove server http bmi) server
              (update_hardware_status (with_ref none bmh))
              (do say bmi normal "InstanceCleaned"; say_of bmh normal "HardwareCleaned"; done)
              (record { none_written = refl }) (free c h a e) in
          record { at_most = write_it.at_most })

  clean_with_agent-Moves :
      (bmh : BareMetalHardware) (agent : Option BareMetalInstanceStatusAgentInfo)
      → IsCleaning bmi
      → Holds server bmi bmh
      → bmi.status.agent_info ≡ agent
      → Moves (clean_with_agent server http bmi bmh agent)
  unfolding clean_with_agent
  clean_with_agent-Moves bmh none c h known = record { at_most = tt }
  clean_with_agent-Moves bmh (some agent) c h known =
      Once-bind _ (or_agent_error bmi (agent_status http agent.ip)) _ (or_agent_error-IsQuiet bmi _)
        λ answer e. follow_cleaning-Moves bmh agent.ip answer c h (record {
          agent = agent;
          known = known;
          at_ip = refl;
          answers = or_agent_error-ok bmi (agent_status http agent.ip) answer e;
        })

  skip_cleaning-Moves :
      CleanMove server http bmi (update_instance_status (with_phase terminating bmi))
      → Moves (skip_cleaning server bmi)
  unfolding skip_cleaning
  skip_cleaning-Moves move =
      let put =
        put_instance-Once (CleanMove server http bmi) bmi server (with_phase terminating bmi)
          move in
      record { at_most = put.at_most }

  clean_reference-Moves :
      (bmh : BareMetalHardware) (ref : Option BareMetalHardwareStatusInstanceRef)
      → IsCleaning bmi
      → get_hardware_of server bmi ≡ ok bmh
      → bmh.status.instance_ref ≡ ref
      → Moves (clean_reference server http bmi bmh ref)
  unfolding clean_reference
  clean_reference-Moves bmh none c found r =
      put_status-Once _ bmi server instance_cleaned status_true "" "" _
        (record { none_written = refl }) λ w reports. confirm_clean c found r reports
  clean_reference-Moves bmh (some ref) c found r =
      Once-if _ (not (refers_to bmi ref)) _ _
        (λ other. skip_cleaning-Moves (lost_hardware c (inr (bmh, ref, found, r, ground arith))))
        (λ mine.
          clean_with_agent-Moves bmh bmi.status.agent_info c
            (record { ref = ref; found = found; has_ref = r; is_mine = ground arith }) refl)

  clean_hardware-Moves :
      (bmh : Option BareMetalHardware)
      → IsCleaning bmi
      → (or_nil (get_hardware_of server bmi)).0 ≡ completed bmh
      → Moves (clean_hardware server http bmi bmh)
  unfolding clean_hardware
  clean_hardware-Moves bmh c h = elim (or_nil-cases (get_hardware_of server bmi) bmh h) [
    | inl (lost, n) ↦ rw n (skip_cleaning-Moves (lost_hardware c (inl lost)))
    | inr (b, found, s) ↦ rw s (clean_reference-Moves b b.status.instance_ref c found refl)
  ]

  clean_condition-Moves :
      (cleaned : Option StatusCondition)
      → IsLeaving bmi
      → condition_of instance_cleaned bmi ≡ cleaned
      → Moves (clean_condition server http bmi cleaned)
  unfolding clean_condition
  clean_condition-Moves none l h =
      put_status-Once _ bmi server instance_cleaned status_false "" "" _
        (record { none_written = refl }) λ w reports. start_cleaning l h reports
  clean_condition-Moves (some cleaned) l h =
      Once-if _ (is_status_true cleaned.status) _ _
        (λ t. put_instance-Once _ bmi server _ (end_cleaning l (ground arith)))
        λ unclean.
          Once-if _ (is_status_error cleaned.status) _ _ (λ _. record { at_most = tt })
            λ sound.
              Once-if _ (not (is_cleaning bmi.status.phase)) _ _
                (λ p.
                  put_instance-Once _ bmi server _
                    (enter_cleaning l (ground arith) (ground arith) (ground arith) (ground arith)))
                λ p.
                  let c : IsCleaning bmi = record {
                    leaving = l;
                    in_phase = ground arith;
                    not_clean = ground arith;
                    not_failed = ground arith;
                  } in
                  Once-if _ (bmi.status.hardware_name == "") _ _
                    (λ e. put_instance-Once _ bmi server _ (no_hardware c e))
                    λ _.
                      Once-bind _ (or_nil (get_hardware_of server bmi)) _ (or_nil-IsQuiet _)
                        λ bmh e. clean_hardware-Moves bmh c e

  pub clean-Moves : deleting bmi.meta ≡ true → Moves (clean server http bmi)
  unfolding clean
  clean-Moves d =
      Once-if _ (is_terminating bmi.status.phase || is_terminated bmi.status.phase) _ _
        (λ _. record { at_most = tt })
        λ alive.
          clean_condition-Moves (condition_of instance_cleaned bmi)
            (record { gone = d; not_ended = ground arith; not_terminated = ground arith }) refl
