-- ===== src/Instance/Provisioner/Safety.antt =====
-- `Provisioner.Reconcile` without a panic.
pub mod Whole
use kube_baremetal.Prelude.{
  ◌≡◌, refl, subst, String, Bool, true, false, not, ◌&&◌, ◌||◌, ℕ, Option, none, some, List, [],
  ◌∷◌, ◌==◌, string_eq, nat_eq, if◌then◌else◌, keep_if, arith, Bool-cases, inl, inr,
}
use kube_baremetal.Agent.{
  Status, Call, ImageRequest, post_image, post_clean, cleaning_action_type, imaging_action_type,
}
use kube_baremetal.Agent.Http.{Http, status_conflict, status_accepted}
use kube_baremetal.Api.Meta.{NamespacedName, deleting}
use kube_baremetal.Api.Hardware.{BareMetalHardware, BareMetalHardwareStatusInstanceRef}
use kube_baremetal.Api.Instance.{
  BareMetalInstance, BareMetalInstanceStatusAgentInfo, is_cleaning, is_terminating, is_terminated,
  terminating, instance_cleaned,
}
use kube_baremetal.Condition.{
  StatusCondition, ConditionType, is_status_true, is_status_error, status_false, status_true,
  status_error,
}
use kube_baremetal.Client.{
  Server, Exec, Result, Reply, Error, ok, err, done, write, pure, fail, update_instance_status,
  update_hardware_status, not_found, condition_not_formed, api_status, failure, ◌>>=◌, ◌>>◌,
}
use kube_baremetal.Client.Safe.{IsSafe, IsSafe-bind, IsSafe-if, IsSafe-or_fail, IsSafe-write}
use kube_baremetal.Instance.Provisioner.{
  condition_of, put_status, put_instance, new_condition, with_phase, with_ref, or_nil,
  get_hardware_of, refers_to,
}
use kube_baremetal.Instance.Provisioner.Agent.{
  agent_status, or_agent_error, post, send_request, answered, wrong_action, follow,
}
use kube_baremetal.Instance.Provisioner.Clean.{
  free_hardware, follow_cleaning, clean_with_agent, skip_cleaning, clean_reference, clean_hardware,
  clean_condition, clean,
}
use kube_baremetal.Instance.Provisioner.Nics.{put_status-IsSafe}

pub or_agent_error-IsSafe {ℓ} :
    {A : Type ℓ} (bmi : BareMetalInstance) (r : Reply A) → IsSafe (or_agent_error bmi r)
unfolding or_agent_error
or_agent_error-IsSafe bmi (ok a) = record { not_panicked = tt }
or_agent_error-IsSafe bmi (err e) = record { not_panicked = tt }

answered-IsSafe : (bmi : BareMetalInstance) (code : ℕ) → IsSafe (answered bmi code)
unfolding answered
answered-IsSafe bmi code =
    IsSafe-if (code == status_conflict) _ _ (record { not_panicked = tt })
      (IsSafe-if (code == status_accepted) _ _ (record { not_panicked = tt })
        (record { not_panicked = tt }))

pub send_request-IsSafe :
    (http : Http) (bmi : BareMetalInstance) (c : Call) (answer : Option Error)
    → IsSafe (send_request http bmi c answer)
unfolding send_request
send_request-IsSafe http bmi c (some e) = record { not_panicked = tt }
send_request-IsSafe http bmi c none = record {
  not_panicked =
      (IsSafe-bind (or_agent_error bmi (http.do_request c)) _
        (or_agent_error-IsSafe bmi (http.do_request c))
        λ response.
          IsSafe-bind (or_agent_error bmi response.body) _ (or_agent_error-IsSafe bmi response.body)
            λ body. answered-IsSafe bmi response.status_code).not_panicked;
}

wrong_action-IsSafe : (bmi : BareMetalInstance) (status : Status) → IsSafe (wrong_action bmi status)
unfolding wrong_action
wrong_action-IsSafe bmi status = elim (Bool-cases (not (status.error == ""))) [
  | inl failed ↦ rw failed (record { not_panicked = tt })
  | inr sound ↦ rw sound (record { not_panicked = tt })
]

pub follow-IsSafe :
    (server : Server) (bmi : BareMetalInstance) (type : String) (condition : ConditionType)
    (reason : String) (status : Status) (k : Exec Result)
    → IsSafe k
    → IsSafe (follow server bmi type condition reason status k)
unfolding follow
follow-IsSafe server bmi type condition reason status k safe =
    IsSafe-if (not (status.type == type)) _ _ (wrong_action-IsSafe bmi status) (
      IsSafe-if (not status.is_done) _ _ (record { not_panicked = tt })
        (IsSafe-if (not (status.error == "")) _ _
          (record {
            not_panicked =
                (put_status-IsSafe server bmi
                  (new_condition server condition status_error reason status.error) done
                  (record { not_panicked = tt })).not_panicked;
          })
          safe))

pub put_instance-IsSafe :
    (server : Server) (bmi : BareMetalInstance) → IsSafe (put_instance server bmi)
unfolding put_instance
put_instance-IsSafe server bmi =
    IsSafe-bind (write server (update_instance_status bmi)) _ (IsSafe-write server _)
      λ _. record { not_panicked = tt }

or_nil-IsSafe : (r : Reply BareMetalHardware) → IsSafe (or_nil r)
unfolding or_nil
or_nil-IsSafe (ok bmh) = record { not_panicked = tt }
or_nil-IsSafe (err not_found) = record { not_panicked = tt }
or_nil-IsSafe (err condition_not_formed) = record { not_panicked = tt }
or_nil-IsSafe (err (api_status n)) = record { not_panicked = tt }
or_nil-IsSafe (err (failure e)) = record { not_panicked = tt }

module _ (server : Server) (http : Http) (bmi : BareMetalInstance) where
  free_hardware-IsSafe : (bmh : BareMetalHardware) → IsSafe (free_hardware server bmi bmh)
  unfolding free_hardware
  free_hardware-IsSafe bmh = record {
    not_panicked =
        (IsSafe-bind (write server (update_hardware_status (with_ref none bmh))) _
          (IsSafe-write server _) λ _. record { not_panicked = tt }).not_panicked;
  }

  follow_cleaning-IsSafe :
      (bmh : BareMetalHardware) (ip : String) (status : Option Status)
      → IsSafe (follow_cleaning server http bmi bmh ip status)
  unfolding follow_cleaning post
  follow_cleaning-IsSafe bmh ip none = record {
    not_panicked =
        (send_request-IsSafe http bmi (post_clean ip)
          (http.new_request (post_clean ip))).not_panicked;
  }
  follow_cleaning-IsSafe bmh ip (some status) =
      follow-IsSafe server bmi _ _ _ status _ (free_hardware-IsSafe bmh)

  clean_with_agent-IsSafe :
      (bmh : BareMetalHardware) (agent : Option BareMetalInstanceStatusAgentInfo)
      → IsSafe (clean_with_agent server http bmi bmh agent)
  unfolding clean_with_agent
  clean_with_agent-IsSafe bmh none = record { not_panicked = tt }
  clean_with_agent-IsSafe bmh (some agent) =
      IsSafe-bind (or_agent_error bmi (agent_status http agent.ip)) _
        (or_agent_error-IsSafe bmi (agent_status http agent.ip))
        λ status. follow_cleaning-IsSafe bmh agent.ip status

  skip_cleaning-IsSafe : IsSafe (skip_cleaning server bmi)
  unfolding skip_cleaning
  skip_cleaning-IsSafe = record {
    not_panicked = (put_instance-IsSafe server (with_phase terminating bmi)).not_panicked;
  }

  clean_reference-IsSafe :
      (bmh : BareMetalHardware) (ref : Option BareMetalHardwareStatusInstanceRef)
      → IsSafe (clean_reference server http bmi bmh ref)
  unfolding clean_reference
  clean_reference-IsSafe bmh none = put_status-IsSafe server bmi _ _ (record { not_panicked = tt })
  clean_reference-IsSafe bmh (some ref) =
      IsSafe-if (not (refers_to bmi ref)) _ _ skip_cleaning-IsSafe
        (clean_with_agent-IsSafe bmh bmi.status.agent_info)

  clean_hardware-IsSafe :
      (bmh : Option BareMetalHardware) → IsSafe (clean_hardware server http bmi bmh)
  unfolding clean_hardware
  clean_hardware-IsSafe none = skip_cleaning-IsSafe
  clean_hardware-IsSafe (some bmh) = clean_reference-IsSafe bmh bmh.status.instance_ref

  clean_condition-IsSafe :
      (cleaned : Option StatusCondition) → IsSafe (clean_condition server http bmi cleaned)
  unfolding clean_condition
  clean_condition-IsSafe none = put_status-IsSafe server bmi _ _ (record { not_panicked = tt })
  clean_condition-IsSafe (some cleaned) =
      IsSafe-if (is_status_true cleaned.status) _ _ (put_instance-IsSafe server _) (
        IsSafe-if (is_status_error cleaned.status) _ _ (record { not_panicked = tt })
          (IsSafe-if (not (is_cleaning bmi.status.phase)) _ _ (put_instance-IsSafe server _) (
            IsSafe-if (bmi.status.hardware_name == "") _ _ (put_instance-IsSafe server _) (
              IsSafe-bind (or_nil (get_hardware_of server bmi)) _
                (or_nil-IsSafe (get_hardware_of server bmi)) clean_hardware-IsSafe))))

  pub clean-IsSafe : IsSafe (clean server http bmi)
  unfolding clean
  clean-IsSafe =
      IsSafe-if (is_terminating bmi.status.phase || is_terminated bmi.status.phase) _ _
        (record { not_panicked = tt }) (clean_condition-IsSafe (condition_of instance_cleaned bmi))
