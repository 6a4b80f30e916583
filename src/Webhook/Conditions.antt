-- ===== src/Webhook/Conditions.antt =====
-- The check of the webhooks that no condition is removed, and what passes it.
use kube_baremetal.Prelude.{◌≡◌, true, is_some, List, [], ◌∷◌, string_eq, text_eq_iff, arith}
use kube_baremetal.Condition.{ConditionType, StatusCondition, get_condition}
use kube_baremetal.Webhook.Error.{
  field, FieldError, forbidden, unless, collect, collect-empty, unless-empty,
}

-- The loop over the types of the old conditions.
unfoldable pub condition_errors : List StatusCondition → List StatusCondition → List FieldError
condition_errors new [] = []
condition_errors new (cond ∷ rest) =
    let later = condition_errors new rest in
    collect (
      unless (is_some (get_condition cond.type new))
        (forbidden (field "status.conditions") "Cannot remove conditions")
      ∷ later
      ∷ [])

pub condition_errors-empty :
    (new old : List StatusCondition) (t : ConditionType)
    → condition_errors new old ≡ []
    → is_some (get_condition t old) ≡ true
    → is_some (get_condition t new) ≡ true
unfolding condition_errors get_condition
condition_errors-empty new [] t h i = cc i
condition_errors-empty new (cond ∷ rest) t h i =
    let parts =
      collect-empty
        (unless (is_some (get_condition cond.type new))
            (forbidden (field "status.conditions") "Cannot remove conditions")
          ∷ condition_errors new rest
          ∷ [])
        h in
    ground (
      arith,
      text_eq_iff cond.type t,
      unless-empty (is_some (get_condition cond.type new)) _ parts.0,
      condition_errors-empty new rest t parts.1.0,
    )
