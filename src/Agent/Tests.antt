-- ===== src/Agent/Tests.antt =====
-- An agent that is asked to image, to clean, and fails.
use kube_baremetal.Prelude.{
  ◌≡◌, refl, String, true, false, none, some, is_some, List, [], ◌∷◌, ◌++◌, if◌then◌else◌, arith,
}
use kube_baremetal.Agent.{
  Status, ImageRequest, get_status, post_clean, post_image, imaging_action_type,
}
use kube_baremetal.Agent.Http.{Http}
use kube_baremetal.Agent.Manager.{
  image_action, clean_action, Manager, Event, ask, fail, end, run, HasStarted, new_manager,
  run-HasStarted, current_status,
}
use kube_baremetal.Agent.Server.{clean, status}
use kube_baremetal.Agent.Answers.{
  Serves, IsOwn, agent_status-current_status, post-clean, clean-IsOwn,
}
use kube_baremetal.Agent.Disk.{gpt_start, mbr_start, gpt_index, gpt_index-full, gpt_index-unused}
use kube_baremetal.Api.Instance.{cleaning}
use kube_baremetal.Client.{ok, completed, panicked}
use kube_baremetal.Client.Once.{Once}
use kube_baremetal.Instance.Provisioner.Agent.{agent_status, post}
use kube_baremetal.Instance.Provisioner.Clean
use kube_baremetal.Instance.Provisioner.Claim.{ref_of}
use kube_baremetal.Instance.Provisioner.Example.{web, node, server_of}

abbrev request : ImageRequest
request = record {
  image_url = "http://image";
  disk_path = "/dev/sda";
  metadata_contents = "";
  network_data_contents = "";
  user_data_contents = "";
}

abbrev later : List Event
later = ask clean_action ∷ fail "disk" ∷ end ∷ []

-- The agent after that.
abbrev busy : Manager
busy = (run new_manager (ask (image_action request) ∷ later)).0

abbrev failed : Status
failed = record { type = imaging_action_type; is_done = true; error = "disk" }

abbrev print : Status → String
print s = "status"

-- It is reached over HTTP.
abbrev http_of : Manager → Http
http_of m = record {
  new_request = λ _. none;
  do_request = λ call. ok (elim call [
    | get_status ip ↦ status print m
    | post_clean ip ↦ (clean m).1
    | post_image ip r ↦ (clean m).1
  ]);
  unmarshal_status = λ _. ok failed;
  marshal_image_request = λ _. none;
}

run_busy :
    run new_manager (ask (image_action request) ∷ later)
    ≡ (record { current = some (image_action request, failed) }, image_action request ∷ [])
unfolding run
run_busy = refl

run-HasStarted_example : HasStarted (run new_manager (ask (image_action request) ∷ later))
run-HasStarted_example = run-HasStarted (ask (image_action request) ∷ later)

busy-Serves : Serves (http_of busy) print "10.0.0.9" busy
unfolding run current_status
busy-Serves = record { made = refl; answered = refl; reads = λ s at. ground (arith, at) }

agent_status-current_status_example :
    agent_status (http_of busy) "10.0.0.9" ≡ ok (current_status busy)
agent_status-current_status_example =
    agent_status-current_status (http_of busy) print "10.0.0.9" busy busy-Serves

post_conflict :
    (post (http_of busy) (web cleaning (some 5) []) (post_clean "10.0.0.9")).0
    ≡ completed
        (record { requeue = false; requeue_after = if is_some busy.current then 60 else 30 })
post_conflict = post-clean (http_of busy) (web cleaning (some 5) []) "10.0.0.9" busy refl refl

clean-IsOwn_example : Once IsOwn (
    Clean.clean
      (server_of (web cleaning (some 5) []) (node (some (ref_of (web cleaning (some 5) [])))))
      (http_of busy)
      (web cleaning (some 5) []))
clean-IsOwn_example =
    clean-IsOwn
      (server_of (web cleaning (some 5) []) (node (some (ref_of (web cleaning (some 5) [])))))
      (http_of busy) print (web cleaning (some 5) []) (record { ip = "10.0.0.9" }) request later
      refl refl busy-Serves

-- A disk of 1 GB with sectors of 512 bytes.
gpt_start_computed : gpt_start 1000000000 512 ≡ 1822020
unfolding gpt_start
gpt_start_computed = refl

mbr_start_computed : mbr_start 1000000000 512 ≡ 1822053
unfolding mbr_start
mbr_start_computed = refl

gpt_index_free : (gpt_index (true ∷ false ∷ [])).0 ≡ completed 1
unfolding gpt_index
gpt_index_free = refl

gpt_index-full_example : (gpt_index ((true ∷ false ∷ []) ++ true ∷ [])).0 ≡ panicked
gpt_index-full_example = gpt_index-full (true ∷ false ∷ [])

gpt_index-unused_example :
    (gpt_index (((true ∷ false ∷ []) ++ true ∷ []) ++ false ∷ false ∷ [])).0 ≡ completed 3
gpt_index-unused_example = gpt_index-unused (true ∷ false ∷ []) (false ∷ []) refl
