-- ===== src/Agent/Manager.antt =====
-- `Manager` of pkg/agent/manager.go, with the actions of pkg/agent/action. The lock makes its
-- operations follow each other; `Do` runs beside them, and what it makes of the disks is left out:
-- an action shows only in its status.
use kube_baremetal.Prelude.{
  ◌≡◌, refl, String, Bool, true, false, Option, none, some, List, [], ◌∷◌, ◌++◌,
}
use kube_baremetal.Agent.{Status, ImageRequest, imaging_action_type, cleaning_action_type}

-- `imageAction` and `cleanAction`
pub data Action : Type 0 where
  image_action : ImageRequest → Action
  clean_action : Action

-- `NewImageAction`, `NewCleanAction`: the status of an action that was not run.
unfoldable pub new_status : Action → Status
new_status (image_action request) = record {
  type = imaging_action_type;
  is_done = false;
  error = "";
}
new_status clean_action = record { type = cleaning_action_type; is_done = false; error = "" }

-- `currentAction`, with its status; nil where no action was started.
pub record Manager : Type 0 where
  pub current : Option (Action × Status)

abbrev pub new_manager : Manager
new_manager = record { current = none }

-- The test of `DoAction`.
unfoldable pub take_action : Option (Action × Status) → Action → Manager × Bool
unfolding new_status
take_action none action = (record { current = some (action, new_status action) }, true)
take_action (some running) action = (record { current = some running }, false)

-- `DoAction`: whether the action was started.
unfoldable pub do_action : Manager → Action → Manager × Bool
unfolding take_action
do_action m action = take_action m.current action

-- The `Status` of both actions returns no error.
abbrev pub status_in : Option (Action × Status) → Option Status
status_in none = none
status_in (some (action, status)) = some status

-- `CurrentStatus`
unfoldable pub current_status : Manager → Option Status
current_status m = status_in m.current

-- What happens to a manager: a request for an action, and the two writes of `Do`.
pub data Event : Type 0 where
  ask : Action → Event
  fail : String → Event
  end : Event

-- `Do` writes the status behind its pointer: the error, if there is one, before `Done`.
unfoldable pub progress : (Status → Status) → Option (Action × Status) → Manager
progress change none = record { current = none }
progress change (some (action, status)) = record { current = some (action, change status) }

-- The actions that were started.
abbrev started : Bool → Action → List Action
started true action = action ∷ []
started false action = []

unfoldable pub happen : Manager → Event → Manager × List Action
unfolding do_action progress
happen m (ask action) = let (next, taken) = do_action m action in (next, started taken action)
happen m (fail error) = (progress (λ s. record s { error = error }) m.current, [])
happen m end = (progress (λ s. record s { is_done = true }) m.current, [])

unfoldable pub run : Manager → List Event → Manager × List Action
unfolding happen
run m [] = (m, [])
run m (e ∷ es) =
    let (next, here) = happen m e in let (last, later) = run next es in (last, here ++ later)

-- What was started, and what is current.
pub data HasStarted : Manager × List Action → Type 0 where
  nothing : HasStarted (new_manager, [])
  one :
      (action : Action) (status : Status)
      → status.type ≡ (new_status action).type
      → HasStarted (record { current = some (action, status) }, action ∷ [])

busy-HasStarted :
    (es : List Event) (action : Action) (status : Status)
    → status.type ≡ (new_status action).type
    → HasStarted (
      (run (record { current = some (action, status) }) es).0,
      action ∷ (run (record { current = some (action, status) }) es).1,
    )
unfolding run happen do_action take_action progress
busy-HasStarted [] action status same = one action status same
busy-HasStarted (ask other ∷ es) action status same = busy-HasStarted es action status same
busy-HasStarted (fail error ∷ es) action status same =
    busy-HasStarted es action (record status { error = error }) same
busy-HasStarted (end ∷ es) action status same =
    busy-HasStarted es action (record status { is_done = true }) same

-- Whatever is asked of a new manager, and however the action that it runs goes on, it starts no
-- action but the first that it is asked for, and keeps that action as the current one for good; the
-- type of the current status is the type of that action.
pub run-HasStarted : (es : List Event) → HasStarted (run new_manager es)
unfolding run happen do_action take_action progress
run-HasStarted [] = nothing
run-HasStarted (ask action ∷ es) = busy-HasStarted es action (new_status action) refl
run-HasStarted (fail error ∷ es) = run-HasStarted es
run-HasStarted (end ∷ es) = run-HasStarted es
