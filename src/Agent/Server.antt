-- ===== src/Agent/Server.antt =====
-- The handlers of pkg/agent/server.go. The binding of a request is an argument.
use kube_baremetal.Prelude.{ℕ, String, Bool, true, false, Option, none, some}
use kube_baremetal.Agent.{Status, ImageRequest}
use kube_baremetal.Agent.Http.{
  Response, status_ok, status_accepted, status_no_content, status_conflict,
}
use kube_baremetal.Agent.Manager.{image_action, clean_action, Manager, do_action, current_status}
use kube_baremetal.Client.{ok}

-- `c.Status` and `c.JSON`; `body` is the text that was written.
abbrev pub respond : ℕ → String → Response
respond code body = record { status_code = code; body = ok body }

-- The answer to a request for an action.
unfoldable pub respond_taken : Bool → Response
respond_taken true = respond status_accepted ""
respond_taken false = respond status_conflict "cannot run multiple actions"

-- `image`; the error of the binding is `none`.
unfoldable pub image : Manager → Option ImageRequest → Manager × Response
unfolding do_action respond_taken
image m none = (m, respond 400 "cannot bind")
image m (some request) =
    let (next, taken) = do_action m (image_action request) in (next, respond_taken taken)

-- `clean`
unfoldable pub clean : Manager → Manager × Response
unfolding do_action respond_taken
clean m = let (next, taken) = do_action m clean_action in (next, respond_taken taken)

-- The status, printed by `marshal`.
unfoldable pub respond_status : (Status → String) → Option Status → Response
respond_status marshal none = respond status_no_content ""
respond_status marshal (some status) = respond status_ok (marshal status)

-- `status`
unfoldable pub status : (Status → String) → Manager → Response
unfolding respond_status current_status
status marshal m = respond_status marshal (current_status m)
