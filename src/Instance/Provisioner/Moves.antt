-- ===== src/Instance/Provisioner/Moves.antt =====
-- The writes that the blocks of the provisioner share: the conditions, and the requests to the agent.
pub mod Cleaning
pub mod Described
pub mod Imaging
pub mod Networking
pub mod Whole
use kube_baremetal.Prelude.{
  ◌≡◌, ◌∙◌, ap, refl, true, false, not, Option, none, some, List, [], String, ℕ, ◌==◌, string_eq,
  nat_eq, if◌then◌else◌, arith, ◌⊎◌, inl, inr,
}
use kube_baremetal.Agent.{Status, Call}
use kube_baremetal.Agent.Http.{Http, status_conflict, status_accepted}
use kube_baremetal.Api.Hardware.{BareMetalHardware}
use kube_baremetal.Api.Instance.{BareMetalInstance}
use kube_baremetal.Condition.{ConditionType, ConditionStatus, status_error, set_condition}
use kube_baremetal.Client.{
  Server, Exec, Error, Reply, ok, err, not_found, condition_not_formed, api_status, failure, Result,
  Write, called, completed, done, or_not_formed, update_instance_status, warning,
}
use kube_baremetal.Client.Once.{
  Once, IsQuiet, Once-if, Once-write, Once-call, Once-bind, IsQuiet-bind, IsQuiet-if, Once-quiet,
  or_not_formed-IsQuiet, or_not_formed-some,
}
use kube_baremetal.Instance.Provisioner.{say, put_status, put_instance, new_condition, or_nil}
use kube_baremetal.Instance.Provisioner.Agent.{
  or_agent_error, answered, send_request, post, wrong_action, follow,
}
use kube_baremetal.Instance.Provisioner.Premises.{Ended, Reports, reported}

pub or_nil-IsQuiet : (r : Reply BareMetalHardware) → IsQuiet (or_nil r)
unfolding or_nil
or_nil-IsQuiet (ok bmh) = record { none_written = refl }
or_nil-IsQuiet (err not_found) = record { none_written = refl }
or_nil-IsQuiet (err condition_not_formed) = record { none_written = refl }
or_nil-IsQuiet (err (api_status n)) = record { none_written = refl }
or_nil-IsQuiet (err (failure e)) = record { none_written = refl }

-- A hardware was found, or there is none.
pub or_nil-cases :
    (r : Reply BareMetalHardware) (o : Option BareMetalHardware)
    → (or_nil r).0 ≡ completed o
    → ((r ≡ err not_found) × (o ≡ none))
      ⊎ ((bmh : BareMetalHardware) × (r ≡ ok bmh) × (o ≡ some bmh))
unfolding or_nil
or_nil-cases (ok bmh) o h = inr (bmh, refl, ground arith)
or_nil-cases (err not_found) o h = inl (refl, ground arith)
or_nil-cases (err condition_not_formed) o h = cc
or_nil-cases (err (api_status n)) o h = cc
or_nil-cases (err (failure e)) o h = cc

pub or_nil-some :
    (r : Reply BareMetalHardware) (bmh : BareMetalHardware)
    → (or_nil r).0 ≡ completed (some bmh)
    → r ≡ ok bmh
or_nil-some r bmh h = elim (or_nil-cases r (some bmh) h) [
  | inl (lost, n) ↦ cc
  | inr (b, found, s) ↦ found ∙ ap ok (ground arith)
]

module _ (bmi : BareMetalInstance) where
  pub or_agent_error-IsQuiet {ℓ} : {A : Type ℓ} (r : Reply A) → IsQuiet (or_agent_error bmi r)
  unfolding or_agent_error
  or_agent_error-IsQuiet (ok a) = record { none_written = refl }
  or_agent_error-IsQuiet (err e) = record { none_written = refl }

  pub or_agent_error-ok {ℓ} :
      {A : Type ℓ} (r : Reply A) (a : A) → (or_agent_error bmi r).0 ≡ completed a → r ≡ ok a
  unfolding or_agent_error
  or_agent_error-ok (ok b) a h = cc
  or_agent_error-ok (err e) a h = cc

  answered-IsQuiet : (code : ℕ) → IsQuiet (answered bmi code)
  unfolding answered
  answered-IsQuiet code =
      IsQuiet-if (code == status_conflict) _ _ (record { none_written = refl })
        (IsQuiet-if (code == status_accepted) _ _ (record { none_written = refl })
          (record { none_written = refl }))

  wrong_action-IsQuiet : (status : Status) → IsQuiet (wrong_action bmi status)
  unfolding wrong_action
  wrong_action-IsQuiet status = record { none_written = ground arith }

module _ (P : Write → Type 0) (bmi : BareMetalInstance) where
  send_request-Once :
      (http : Http) (c : Call) (refused : Option Error)
      → P (called c)
      → Once P (send_request http bmi c refused)
  unfolding send_request
  send_request-Once http c (some e) p = record { at_most = tt }
  send_request-Once http c none p =
      Once-call P c _
        (IsQuiet-bind (or_agent_error bmi (http.do_request c)) _ (or_agent_error-IsQuiet bmi _)
          λ response.
            IsQuiet-bind (or_agent_error bmi response.body) _ (or_agent_error-IsQuiet bmi _)
              λ body. answered-IsQuiet bmi response.status_code)
        p

  -- A request for an action is the one thing that is done.
  pub post-Once : (http : Http) (c : Call) → P (called c) → Once P (post http bmi c)
  unfolding post
  post-Once http c p = send_request-Once http c (http.new_request c) p

  pub put_instance-Once :
      (server : Server) (after : BareMetalInstance)
      → P (update_instance_status after)
      → Once P (put_instance server after)
  unfolding put_instance
  put_instance-Once server after p =
      Once-write P server (update_instance_status after) done (record { none_written = refl }) p

  -- The condition is stored, with the rest of the instance as it was.
  pub put_status-Once :
      (server : Server) (type : ConditionType) (status : ConditionStatus) (reason message : String)
      (k : Exec Result)
      → IsQuiet k
      → ((w : Write) → Reports server bmi type status w → P w)
      → Once P (put_status server bmi (new_condition server type status reason message) k)
  unfolding put_status
  put_status-Once server type status reason message k quiet p =
      Once-bind P
        (or_not_formed
          (set_condition (new_condition server type status reason message) bmi.status.conditions))
        _ (or_not_formed-IsQuiet _)
        λ cs h.
          Once-write P server _ k quiet (p _ (reported reason message (or_not_formed-some _ cs h)))

  -- The agent's action, followed: an error of it is reported, and `k` is for when it ended well.
  pub follow-Once :
      (server : Server) (type : String) (condition : ConditionType) (reason : String)
      (status : Status) (k : Exec Result)
      → (Ended type false status → (w : Write) → Reports server bmi condition status_error w → P w)
      → (Ended type true status → Once P k)
      → Once P (follow server bmi type condition reason status k)
  unfolding follow
  follow-Once server type condition reason status k failed well =
      Once-if P (not (status.type == type)) _ _
        (λ _. Once-quiet P (wrong_action bmi status) (wrong_action-IsQuiet bmi status))
        λ same.
          Once-if P (not status.is_done) _ _ (λ _. record { at_most = tt })
            λ ended.
              Once-if P (not (status.error == "")) _ _
                (λ e.
                  Once-bind P (say bmi warning "AgentFailed") _ (record { none_written = refl })
                    λ _ _.
                      put_status-Once server condition status_error reason status.error done
                        (record { none_written = refl })
                        (failed (ground arith, ground arith, ground arith)))
                (λ e. well (ground arith, ground arith, ground arith))
