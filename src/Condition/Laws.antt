-- ===== src/Condition/Laws.antt =====
-- What `SetCondition` stores, as `GetCondition` reads it back.
use kube_baremetal.Prelude.{
  ◌≡◌, ◌≢◌, ◌↔◌, ℕ, true, subst, ◌∙◌, sym, ap, refl, Option, none, some, List, [], ◌∷◌, ◌==◌,
  nat_eq, string_eq, text_eq_iff, if◌then◌else◌, arith, Bool-cases, inl, inr,
}
use kube_baremetal.Condition.{
  ConditionType, ConditionStatus, StatusCondition, overwrite, get_condition, put_condition,
  set_condition, same_status, status_code, status_unset, status_true, status_false, status_error,
  status_unknown,
}

-- What is stored for `new` where `old` was.
abbrev pub settled : StatusCondition → Option StatusCondition → StatusCondition
settled new none = new
settled new (some old) = overwrite new old

pub type-overwrite : (new old : StatusCondition) → (overwrite new old).type ≡ new.type
unfolding overwrite
type-overwrite new old = ground arith

pub get_condition-put_condition :
    (t : ConditionType) (new : StatusCondition) (cs : List StatusCondition)
    → get_condition t (put_condition new cs) ≡ (
        if new.type == t
        then some (settled new (get_condition new.type cs))
        else get_condition t cs)
unfolding get_condition put_condition
get_condition-put_condition t new [] = refl
get_condition-put_condition t new (c ∷ cs) = ground (
  arith,
  type-overwrite new c,
  text_eq_iff new.type t,
  text_eq_iff c.type t,
  text_eq_iff c.type new.type,
  get_condition-put_condition t new cs,
)

get_condition-set_condition :
    (t : ConditionType) (new : StatusCondition) (cs cs' : List StatusCondition)
    → set_condition new cs ≡ some cs'
    → get_condition t cs' ≡ (
        if new.type == t
        then some (settled new (get_condition new.type cs))
        else get_condition t cs)
unfolding set_condition
get_condition-set_condition t new cs cs' h =
    ground
      (arith, get_condition-put_condition t new cs, text_eq_iff new.type "", text_eq_iff new.type t)

-- What `GetCondition` returns of `after`, which are `before` with `new`: the new condition where there
-- was none of its type or one of another status, the new condition with the old transition time where
-- there was one of the same status, and for every other type what it returned of `before`.
pub record IsWritten (new : StatusCondition) (before after : List StatusCondition) : Type 0 where
  pub fresh : get_condition new.type before ≡ none → get_condition new.type after ≡ some new
  pub changed :
      (old : StatusCondition)
      → get_condition new.type before ≡ some old
      → old.status ≢ new.status
      → get_condition new.type after ≡ some new
  pub kept :
      (old : StatusCondition)
      → get_condition new.type before ≡ some old
      → old.status ≡ new.status
      → get_condition new.type after
        ≡ some (record new { last_transition_time = old.last_transition_time })
  pub others : (t : ConditionType) → new.type ≢ t → get_condition t after ≡ get_condition t before

same_status_self : (s : ConditionStatus) → same_status s s ≡ true
same_status_self status_unset = refl
same_status_self status_true = refl
same_status_self status_false = refl
same_status_self status_error = refl
same_status_self status_unknown = refl

abbrev status_of_code : ℕ → ConditionStatus
status_of_code n =
    if n == 0
    then status_unset
    else if n == 1
    then status_true
    else if n == 2
    then status_false
    else if n == 3
    then status_error
    else status_unknown

status_of_code-status_code : (s : ConditionStatus) → status_of_code (status_code s) ≡ s
status_of_code-status_code status_unset = refl
status_of_code-status_code status_true = refl
status_of_code-status_code status_false = refl
status_of_code-status_code status_error = refl
status_of_code-status_code status_unknown = refl

same_status_iff : (a b : ConditionStatus) → (same_status a b ≡ true) ↔ (a ≡ b)
same_status_iff a b = (
  λ h.
      sym (status_of_code-status_code a)
      ∙ ap status_of_code {x = status_code a} {y = status_code b} (ground arith)
      ∙ status_of_code-status_code b,
  λ e. subst (λ c. same_status a c ≡ true) e (same_status_self a),
)

overwrite-kept :
    (new old : StatusCondition)
    → old.status ≡ new.status
    → overwrite new old ≡ record new { last_transition_time = old.last_transition_time }
unfolding overwrite
overwrite-kept new old same = rw ((same_status_iff old.status new.status).1 same) refl

overwrite-changed : (new old : StatusCondition) → old.status ≢ new.status → overwrite new old ≡ new
unfolding overwrite
overwrite-changed new old other = ground (arith, same_status_iff old.status new.status, other)

-- What a successful `SetCondition` stores is what `GetCondition` reads back: of its type the new
-- condition, with the old transition time exactly where there was a condition of the type with the
-- same status, and of any other type what it returned before.
pub set_condition-IsWritten :
    (new : StatusCondition) (before after : List StatusCondition)
    → set_condition new before ≡ some after
    → IsWritten new before after
set_condition-IsWritten new before after h =
    let read : get_condition new.type after ≡ some (settled new (get_condition new.type before)) =
      ground (
        arith,
        text_eq_iff new.type new.type,
        get_condition-set_condition new.type new before after h,
      ) in
    record {
      fresh = λ e. read ∙ ap (λ o. some (settled new o)) e;
      changed = λ old e other.
          read ∙ ap (λ o. some (settled new o)) e ∙ ap some (overwrite-changed new old other);
      kept = λ old e same.
          read ∙ ap (λ o. some (settled new o)) e ∙ ap some (overwrite-kept new old same);
      others = λ t n.
          ground (arith, text_eq_iff new.type t, get_condition-set_condition t new before after h);
    }

-- `after` are `before` but for the condition of the type, which has the status.
pub record Sets (type : ConditionType) (status : ConditionStatus)
    (before after : List StatusCondition) : Type 0 where
  pub held : (c : StatusCondition) × (get_condition type after ≡ some c) × (c.status ≡ status)
  pub others : (t : ConditionType) → type ≢ t → get_condition t after ≡ get_condition t before

-- No two conditions have one type.
abbrev pub NodupTypes : List StatusCondition → Type 0
NodupTypes [] = Unit
NodupTypes (c ∷ cs) = (get_condition c.type cs ≡ none) × NodupTypes cs

put_condition-NodupTypes :
    (new : StatusCondition) (cs : List StatusCondition)
    → NodupTypes cs
    → NodupTypes (put_condition new cs)
unfolding put_condition get_condition
put_condition-NodupTypes new [] h = (refl, tt)
put_condition-NodupTypes new (c ∷ cs) (fresh, h) = elim (Bool-cases (c.type == new.type)) [
  | inl same ↦
      let moved : (overwrite new c).type ≡ c.type =
        type-overwrite new c ∙ sym ((text_eq_iff _ _).0 same) in
      rw same (ap (λ t. get_condition t cs) moved ∙ fresh, h)
  | inr other ↦ rw other (
    ground (
      arith,
      text_eq_iff c.type new.type,
      text_eq_iff new.type c.type,
      get_condition-put_condition c.type new cs,
    ),
    put_condition-NodupTypes new cs h,
  )
]

-- `SetCondition` keeps one condition to a type.
pub set_condition-NodupTypes :
    (new : StatusCondition) (cs cs' : List StatusCondition)
    → NodupTypes cs
    → set_condition new cs ≡ some cs'
    → NodupTypes cs'
unfolding set_condition
set_condition-NodupTypes new cs cs' h e =
    ground (arith, put_condition-NodupTypes new cs h, text_eq_iff new.type "")

-- What is stored has the status of the new condition.
pub status-settled :
    (new : StatusCondition) (old : Option StatusCondition) → (settled new old).status ≡ new.status
unfolding overwrite
status-settled new none = refl
status-settled new (some old) = ground arith

pub set_condition-Sets :
    (new : StatusCondition) (before after : List StatusCondition)
    → set_condition new before ≡ some after
    → Sets new.type new.status before after
set_condition-Sets new before after h = record {
  held = (
    settled new (get_condition new.type before),
    ground (
      arith,
      text_eq_iff new.type new.type,
      get_condition-set_condition new.type new before after h,
    ),
    status-settled new (get_condition new.type before),
  );
  others = λ t n.
      ground (arith, text_eq_iff new.type t, get_condition-set_condition t new before after h);
}
