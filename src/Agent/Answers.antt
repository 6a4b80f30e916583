-- ===== src/Agent/Answers.antt =====
-- What the provisioner makes of the answers of an agent.
use kube_baremetal.Prelude.{
  ◌≡◌, refl, sym, ap, ◌∙◌, inl, inr, String, true, false, Option, none, some, is_some, List, ◌∷◌,
  Option-cases, if◌then◌else◌, text_eq, text_eq_iff, arith,
}
use kube_baremetal.Agent.{
  Status, ImageRequest, get_status, post_clean, imaging_action_type, cleaning_action_type,
}
use kube_baremetal.Agent.Http.{Http}
use kube_baremetal.Agent.Manager.{
  Manager, Action, image_action, Event, ask, new_manager, new_status, run, happen, HasStarted, one,
  run-HasStarted, current_status, do_action, take_action,
}
use kube_baremetal.Agent.Server.{status, clean, respond_status, respond_taken}
use kube_baremetal.Api.Meta.{deleting}
use kube_baremetal.Api.Instance.{BareMetalInstance, BareMetalInstanceStatusAgentInfo}
use kube_baremetal.Condition.{ConditionType, ConditionStatus}
use kube_baremetal.Client.{Server, ok, ok_injective, completed, Write, update_instance_status}
use kube_baremetal.Client.Once.{Once, Once-weaken}
use kube_baremetal.Instance.Provisioner.Agent.{
  agent_status, request_status, response_status, read_status, status_of, some_status, post,
  send_request, or_agent_error, answered,
}
use kube_baremetal.Instance.Provisioner.Clean
use kube_baremetal.Instance.Provisioner.Premises.{Answers, Reports, reported}
use kube_baremetal.Instance.Provisioner.Move.{
  CleanMove, start_cleaning, enter_cleaning, end_cleaning, no_hardware, lost_hardware,
  confirm_clean, ask_clean, fail_clean, free,
}
use kube_baremetal.Instance.Provisioner.Moves.Cleaning.{clean-Moves}

-- The agent at `ip` is the manager `m`: a request for its status can be made, and is answered by its
-- handler, and `json` reads back the status that it prints.
pub record Serves (http : Http) (marshal : Status → String) (ip : String) (m : Manager)
    : Type 0 where
  pub made : http.new_request (get_status ip) ≡ none
  pub answered : http.do_request (get_status ip) ≡ ok (status marshal m)
  pub reads : (s : Status) → current_status m ≡ some s → http.unmarshal_status (marshal s) ≡ ok s

response_status-respond_status :
    (http : Http) (marshal : Status → String) (current : Option Status)
    → ((s : Status) → current ≡ some s → http.unmarshal_status (marshal s) ≡ ok s)
    → response_status http (ok (respond_status marshal current)) ≡ ok current
unfolding response_status read_status status_of some_status respond_status
response_status-respond_status http marshal none reads = refl
response_status-respond_status http marshal (some s) reads = rw (reads s refl) refl

-- What `getAgentStatus` of the provisioner reads is the status of the agent's manager, or none where
-- no action was started.
pub agent_status-current_status :
    (http : Http) (marshal : Status → String) (ip : String) (m : Manager)
    → Serves http marshal ip m
    → agent_status http ip ≡ ok (current_status m)
unfolding agent_status request_status status
agent_status-current_status http marshal ip m serves =
    rw (serves.made, serves.answered)
      (response_status-respond_status http marshal (current_status m) serves.reads)

-- A request to clean that can be made, and is answered by the handler: the provisioner comes back
-- after 30 seconds where the action was started, and after 60 where another one is there.
pub post-clean :
    (http : Http) (bmi : BareMetalInstance) (ip : String) (m : Manager)
    → http.new_request (post_clean ip) ≡ none
    → http.do_request (post_clean ip) ≡ ok (clean m).1
    → (post http bmi (post_clean ip)).0
      ≡ completed (record { requeue = false; requeue_after = if is_some m.current then 60 else 30 })
unfolding post send_request or_agent_error answered clean do_action take_action respond_taken
post-clean http bmi ip m made answers = elim (Option-cases m.current) [
  | inl idle ↦ rw (made, answers, idle) refl
  | inr (running, busy) ↦ rw (made, answers, busy) refl
]

-- The instance alone is written.
abbrev pub IsOwn : Write → Type 0
IsOwn (update_instance_status e) = Unit
IsOwn w = ⊥

Reports-IsOwn :
    {server : Server} {bmi : BareMetalInstance} {type : ConditionType} {status : ConditionStatus}
    {w : Write}
    → Reports server bmi type status w
    → IsOwn w
Reports-IsOwn (reported reason message h) = tt

module _ (server : Server) (http : Http) (bmi : BareMetalInstance)
    (agent : BareMetalInstanceStatusAgentInfo) (known : bmi.status.agent_info ≡ some agent) where
  -- The agent's answer is what it answered.
  Answers-agent :
      {ip : String} {answer seen : Option Status}
      → agent_status http agent.ip ≡ ok seen
      → Answers http bmi ip answer
      → seen ≡ answer
  Answers-agent {ip} {answer} {seen} read a =
      let same : a.agent ≡ agent = ground (arith, a.known, known) in
      let at : agent.ip ≡ ip =
        ap (λ (i : BareMetalInstanceStatusAgentInfo). i.ip) (sym same) ∙ a.at_ip in
      ok_injective (sym read ∙ ap (agent_status http) at ∙ a.answers)

  imaging-IsOwn :
      {w : Write} (status : Status)
      → agent_status http agent.ip ≡ ok (some status)
      → status.type ≡ imaging_action_type
      → CleanMove server http bmi w
      → IsOwn w
  unfolding text_eq
  imaging-IsOwn status read imaging (start_cleaning l fresh r) = Reports-IsOwn r
  imaging-IsOwn status read imaging (enter_cleaning l seen unclean sound waiting) = tt
  imaging-IsOwn status read imaging (end_cleaning l c) = tt
  imaging-IsOwn status read imaging (no_hardware c unnamed) = tt
  imaging-IsOwn status read imaging (lost_hardware c lost) = tt
  imaging-IsOwn status read imaging (confirm_clean c found unheld r) = Reports-IsOwn r
  imaging-IsOwn status read imaging (ask_clean c h a) =
      absurd (ground (arith, Answers-agent read a))
  imaging-IsOwn status read imaging (fail_clean c h a e r) = Reports-IsOwn r
  imaging-IsOwn status read imaging (free c h a e) =
      let seen : status.type ≡ cleaning_action_type =
        ground (arith, Answers-agent read a, text_eq_iff status.type cleaning_action_type, e.0) in
      cc ((text_eq_iff imaging_action_type cleaning_action_type).1 (sym imaging ∙ seen))

-- The current status is that of the image.
HasStarted-imaging :
    (request : ImageRequest) (m : Manager) (later : List Action)
    → HasStarted (m, image_action request ∷ later)
    → (s : Status) × (current_status m ≡ some s) × (s.type ≡ imaging_action_type)
unfolding current_status new_status
HasStarted-imaging request m later (one _ s same) = (s, refl, same)

-- An agent that was asked to image, first of all, whatever it was asked for later and however far it
-- is: as long as it serves, a reconcile of the provisioner of an instance that is being deleted
-- neither asks it to clean nor frees the hardware; it writes the instance alone, if anything.
pub clean-IsOwn :
    (server : Server) (http : Http) (marshal : Status → String) (bmi : BareMetalInstance)
    (agent : BareMetalInstanceStatusAgentInfo) (request : ImageRequest) (es : List Event)
    → deleting bmi.meta ≡ true
    → bmi.status.agent_info ≡ some agent
    → Serves http marshal agent.ip (run new_manager (ask (image_action request) ∷ es)).0
    → Once IsOwn (Clean.clean server http bmi)
unfolding run happen do_action take_action
clean-IsOwn server http marshal bmi agent request es gone known serves =
    let m = (run new_manager (ask (image_action request) ∷ es)).0 in
    let (status, current, imaging) =
      HasStarted-imaging request m _ (run-HasStarted (ask (image_action request) ∷ es)) in
    let read = agent_status-current_status http marshal agent.ip m serves ∙ ap ok current in
    Once-weaken (CleanMove server http bmi) IsOwn (Clean.clean server http bmi)
      (clean-Moves server http bmi gone)
      λ w move. imaging-IsOwn server http bmi agent known status read imaging move
