-- ===== src/Instance/Provisioner/Agent.antt =====
-- `getAgentStatus` of controllers/baremetalinstance/provisioner.go, and the blocks that ask the
-- agent for an action and follow it, which cleaning and imaging have in common.
use kube_baremetal.Prelude.{
  ℕ, String, not, Option, none, some, ◌==◌, nat_eq, string_eq, if◌then◌else◌,
}
use kube_baremetal.Agent.{Status, Call, get_status}
use kube_baremetal.Agent.Http.{
  Http, Response, status_ok, status_accepted, status_no_content, status_conflict,
}
use kube_baremetal.Api.Instance.{BareMetalInstance}
use kube_baremetal.Condition.{ConditionType, status_error}
use kube_baremetal.Client.{
  Server, Exec, Error, Reply, ok, err, failure, Result, pure, fail, ◌>>=◌, ◌>>◌, call, normal,
  warning, done, requeue, requeue_after,
}
use kube_baremetal.Instance.Provisioner.{say, put_status, new_condition}

-- `json.Unmarshal`, whose error is wrapped.
unfoldable pub some_status : Reply Status → Reply (Option Status)
some_status (ok status) = ok (some status)
some_status (err e) = err (failure "error while unmarshalling agent status")

-- The body of a status code.
unfoldable pub status_of : Http → ℕ → String → Reply (Option Status)
unfolding some_status
status_of http code body =
    if code == status_no_content
    then ok none
    else if code == status_ok
    then some_status (http.unmarshal_status body)
    else err (failure "agent status request returned an error")

unfoldable pub read_status : Http → ℕ → Reply String → Reply (Option Status)
unfolding status_of
read_status http code (ok body) = status_of http code body
read_status http code (err e) = err (failure "error while reading agent status body")

unfoldable pub response_status : Http → Reply Response → Reply (Option Status)
unfolding read_status
response_status http (ok response) = read_status http response.status_code response.body
response_status http (err e) = err (failure "error while requesting agent status")

-- What follows `http.NewRequestWithContext`.
unfoldable pub request_status : Http → String → Option Error → Reply (Option Status)
unfolding response_status
request_status http ip none = response_status http (http.do_request (get_status ip))
request_status http ip (some e) = err (failure "error while creating request for agent status")

-- `getAgentStatus`: the agent's status, `none` where it does nothing.
unfoldable pub agent_status : Http → String → Reply (Option Status)
unfolding request_status
agent_status http ip = request_status http ip (http.new_request (get_status ip))

-- An error of the agent is an event, and is returned.
unfoldable pub or_agent_error {ℓ} : {A : Type ℓ} → BareMetalInstance → Reply A → Exec A
or_agent_error bmi (ok a) = pure a
or_agent_error bmi (err e) = do say bmi warning "AgentError"; fail e

-- The status code of the answer to a request for an action.
unfoldable pub answered : BareMetalInstance → ℕ → Exec Result
answered bmi code =
    if code == status_conflict
    then (do say bmi warning "AgentWrongAction"; requeue_after 60)
    else if code == status_accepted
    then (do say bmi normal "AgentWorking"; requeue_after 30)
    else (do say bmi warning "AgentError"; requeue)

-- What follows `http.NewRequestWithContext`.
unfoldable pub send_request : Http → BareMetalInstance → Call → Option Error → Exec Result
unfolding or_agent_error answered
send_request http bmi c (some e) = fail (failure "error while creating request for agent")
send_request http bmi c none = do
  call c
  response ← or_agent_error bmi (http.do_request c)
  body ← or_agent_error bmi response.body
  answered bmi response.status_code

-- The request for an action, from `http.NewRequestWithContext` to the answer.
unfoldable pub post : Http → BareMetalInstance → Call → Exec Result
unfolding send_request
post http bmi c = send_request http bmi c (http.new_request c)

-- `AgentWrongAction`, with the error of the other action.
unfoldable pub wrong_action : BareMetalInstance → Status → Exec Result
wrong_action bmi status = do
  say bmi warning "AgentWrongAction"
  if not (status.error == "") then say bmi warning "AgentLastActionFailed" else pure tt
  requeue_after 60

-- The agent does something: `k` is what follows when it has done `type` without an error, and
-- `condition` is what an error of it sets.
unfoldable pub follow :
    Server
    → BareMetalInstance
    → String
    → ConditionType
    → String
    → Status
    → Exec Result
    → Exec Result
unfolding wrong_action put_status
follow server bmi type condition reason status k =
    if not (status.type == type)
    then wrong_action bmi status
    else if not status.is_done
    then (do say bmi normal "AgentWorking"; requeue_after 30)
    else if not (status.error == "")
    then (do
      say bmi warning "AgentFailed"
      put_status server bmi (new_condition server condition status_error reason status.error) done)
    else k
