-- ===== src/Condition/Tests.antt =====
-- Conditions of a concrete status.
use kube_baremetal.Prelude.{◌≡◌, refl, List, [], ◌∷◌, none, some, text_eq}
use kube_baremetal.Condition.{
  StatusCondition, status_true, status_false, status_unset, get_condition, set_condition,
}
use kube_baremetal.Condition.Laws.{
  NodupTypes, IsWritten, set_condition-IsWritten, set_condition-NodupTypes,
}

abbrev not_ready : StatusCondition
not_ready = record {
  type = "Ready";
  status = status_false;
  last_transition_time = some 5;
  reason = "";
  message = "";
}

abbrev others : List StatusCondition
others = record not_ready { type = "Cleaned"; status = status_true } ∷ not_ready ∷ []

-- The status stays false, so the time of the transition stays 5.
abbrev again : StatusCondition
again = record not_ready { last_transition_time = some 9; reason = "Again" }

set_again :
    set_condition again others
    ≡ some (
        record not_ready { type = "Cleaned"; status = status_true }
        ∷ record not_ready { reason = "Again" }
        ∷ [])
unfolding set_condition text_eq
set_again = refl

set_unset : set_condition (record again { status = status_unset }) others ≡ none
unfolding set_condition text_eq
set_unset = refl

set_condition-IsWritten_example : IsWritten again others (
    record not_ready { type = "Cleaned"; status = status_true }
    ∷ record not_ready { reason = "Again" }
    ∷ [])
unfolding set_condition text_eq
set_condition-IsWritten_example = set_condition-IsWritten again others _ refl

set_condition-NodupTypes_example : NodupTypes (
    record not_ready { type = "Cleaned"; status = status_true }
    ∷ record not_ready { reason = "Again" }
    ∷ [])
unfolding get_condition set_condition text_eq
set_condition-NodupTypes_example = set_condition-NodupTypes again others _ (refl, (refl, tt)) refl
