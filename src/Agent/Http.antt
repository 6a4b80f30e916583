-- ===== src/Agent/Http.antt =====
-- How a client talks to an agent. `net/http` and `encoding/json` are not the program's own code:
-- what they answer in one reconcile is the parameter `Http`.
use kube_baremetal.Prelude.{ℕ, String, Option}
use kube_baremetal.Agent.{Status, ImageRequest, Call}
use kube_baremetal.Client.{Error, Reply}

-- `http.Response`: the status code, and what `ioutil.ReadAll` answers for the body.
pub record Response : Type 0 where
  pub status_code : ℕ
  pub body : Reply String

pub record Http : Type 0 where
  -- `some e`: `http.NewRequestWithContext` refuses the request, as with a URL that is malformed
  pub new_request : Call → Option Error
  -- `http.DefaultClient.Do`
  pub do_request : Call → Reply Response
  -- `json.Unmarshal` into an `action.Status`
  pub unmarshal_status : String → Reply Status
  -- `some e`: `json.Marshal` of the request fails
  pub marshal_image_request : ImageRequest → Option Error

abbrev pub status_ok : ℕ
status_ok = 200

abbrev pub status_accepted : ℕ
status_accepted = 202

abbrev pub status_no_content : ℕ
status_no_content = 204

abbrev pub status_conflict : ℕ
status_conflict = 409
