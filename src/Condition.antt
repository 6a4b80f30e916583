-- ===== src/Condition.antt =====
-- apis/condition/v1: the conditions of a status.
pub mod Laws
mod Tests
use kube_baremetal.Prelude.{
  String, Bool, true, false, Option, none, some, List, [], ◌∷◌, ℕ, ◌==◌, nat_eq, string_eq, ◌||◌,
  if◌then◌else◌, not,
}
use kube_baremetal.Api.Meta.{Time, is_zero}

abbrev pub ConditionType : Type 0
ConditionType = String

-- `status_unset` is the empty text, the zero value.
pub data ConditionStatus : Type 0 where
  status_unset status_true status_false status_error status_unknown : ConditionStatus

abbrev pub is_status_true : ConditionStatus → Bool
is_status_true status_true = true
is_status_true _ = false

abbrev pub is_status_false : ConditionStatus → Bool
is_status_false status_false = true
is_status_false _ = false

abbrev pub is_status_error : ConditionStatus → Bool
is_status_error status_error = true
is_status_error _ = false

abbrev pub is_status_unset : ConditionStatus → Bool
is_status_unset status_unset = true
is_status_unset _ = false

abbrev pub status_code : ConditionStatus → ℕ
status_code status_unset = 0
status_code status_true = 1
status_code status_false = 2
status_code status_error = 3
status_code status_unknown = 4

abbrev pub same_status : ConditionStatus → ConditionStatus → Bool
same_status a b = status_code a == status_code b

pub record StatusCondition : Type 0 where
  pub type : ConditionType
  pub status : ConditionStatus
  pub last_transition_time : Option Time
  pub reason : String
  pub message : String

-- `GetCondition`: the first condition of the type.
unfoldable pub get_condition : ConditionType → List StatusCondition → Option StatusCondition
get_condition t [] = none
get_condition t (cond ∷ rest) = if cond.type == t then some cond else get_condition t rest

-- What overwrites `cond`: without a change of the status the time of the transition stays.
unfoldable pub overwrite : StatusCondition → StatusCondition → StatusCondition
overwrite new cond =
    if same_status cond.status new.status
    then record new { last_transition_time = cond.last_transition_time }
    else new

-- The loop of `SetCondition`, with the append behind it.
unfoldable pub put_condition : StatusCondition → List StatusCondition → List StatusCondition
put_condition new [] = new ∷ []
put_condition new (cond ∷ rest) =
    if cond.type == new.type then overwrite new cond ∷ rest else cond ∷ put_condition new rest

abbrev pub is_malformed : StatusCondition → Bool
is_malformed new = new.type == "" || is_status_unset new.status || is_zero new.last_transition_time

-- `SetCondition`; `none` is the error that the condition is not fully formed.
unfoldable pub set_condition :
    StatusCondition → List StatusCondition → Option (List StatusCondition)
unfolding put_condition overwrite
set_condition new conditions =
    if is_malformed new then none else some (put_condition new conditions)

-- `cond != nil && cond.Status == ConditionStatusTrue`
abbrev pub is_true : Option StatusCondition → Bool
is_true none = false
is_true (some cond) = is_status_true cond.status

-- `cond != nil && cond.Status == ConditionStatusError`
abbrev pub is_error : Option StatusCondition → Bool
is_error none = false
is_error (some cond) = is_status_error cond.status

-- `cond != nil && cond.Status == ConditionStatusFalse`
abbrev pub is_false : Option StatusCondition → Bool
is_false none = false
is_false (some cond) = is_status_false cond.status

-- `cond == nil || cond.Reason != reason`
abbrev pub lacks_reason : String → Option StatusCondition → Bool
lacks_reason reason none = true
lacks_reason reason (some cond) = not (cond.reason == reason)
