-- ===== src/Instance/Life/Steps.antt =====
-- Every write of a reconciler keeps the status of an instance in order.
use kube_baremetal.Prelude.{◌≡◌, refl, Bool, false, List, text_eq, text_eq_iff, arith}
use kube_baremetal.Api.Instance.{
  BareMetalInstanceStatus, instance_scheduled, instance_networked, instance_imaged,
  instance_cleaned,
}
use kube_baremetal.Condition.{
  ConditionType, ConditionStatus, StatusCondition, status_false, is_status_true, is_true,
  get_condition,
}
use kube_baremetal.Condition.Laws.{Sets}
use kube_baremetal.Instance.Scheduler.Move.{
  abandon, unassign, announce, enter, confirm, assign, Move as Schedule,
}
use kube_baremetal.Instance.Life.{IsOrderly, holds}

-- The condition that was set, as a test.
pub Sets-held :
    {type : ConditionType} {status : ConditionStatus} {before after : List StatusCondition}
    → Sets type status before after
    → is_true (get_condition type after) ≡ is_status_true status
Sets-held sets = ground (arith, sets.held.1, sets.held.2)

-- The other conditions are as they were.
pub Sets-others :
    {type : ConditionType} {status : ConditionStatus} {before after : List StatusCondition}
    (t : ConditionType)
    → text_eq type t ≡ false
    → Sets type status before after
    → is_true (get_condition t after) ≡ is_true (get_condition t before)
Sets-others {type} t apart sets = rw (sets.others t (λ e. ground (arith, text_eq_iff type t))) refl

-- Only `instance_scheduled` of them changed.
pub record ScheduledOnly (s t : BareMetalInstanceStatus) : Type 0 where
  pub networked : holds instance_networked t ≡ holds instance_networked s
  pub imaged : holds instance_imaged t ≡ holds instance_imaged s

pub scheduled-Only :
    {status : ConditionStatus} (s t : BareMetalInstanceStatus)
    → Sets instance_scheduled status s.conditions t.conditions
    → ScheduledOnly s t
unfolding text_eq
scheduled-Only s t sets = record {
  networked = Sets-others instance_networked refl sets;
  imaged = Sets-others instance_imaged refl sets;
}

-- Only `instance_networked` of them changed.
pub record NetworkedOnly (s t : BareMetalInstanceStatus) : Type 0 where
  pub scheduled : holds instance_scheduled t ≡ holds instance_scheduled s
  pub imaged : holds instance_imaged t ≡ holds instance_imaged s

pub networked-Only :
    {status : ConditionStatus} (s t : BareMetalInstanceStatus)
    → Sets instance_networked status s.conditions t.conditions
    → NetworkedOnly s t
unfolding text_eq
networked-Only s t sets = record {
  scheduled = Sets-others instance_scheduled refl sets;
  imaged = Sets-others instance_imaged refl sets;
}

-- Only `instance_imaged` of them changed.
pub record ImagedOnly (s t : BareMetalInstanceStatus) : Type 0 where
  pub scheduled : holds instance_scheduled t ≡ holds instance_scheduled s
  pub networked : holds instance_networked t ≡ holds instance_networked s

pub imaged-Only :
    {status : ConditionStatus} (s t : BareMetalInstanceStatus)
    → Sets instance_imaged status s.conditions t.conditions
    → ImagedOnly s t
unfolding text_eq
imaged-Only s t sets = record {
  scheduled = Sets-others instance_scheduled refl sets;
  networked = Sets-others instance_networked refl sets;
}

-- Only `instance_cleaned` of them changed.
pub record CleanedOnly (s t : BareMetalInstanceStatus) : Type 0 where
  pub scheduled : holds instance_scheduled t ≡ holds instance_scheduled s
  pub networked : holds instance_networked t ≡ holds instance_networked s
  pub imaged : holds instance_imaged t ≡ holds instance_imaged s

pub cleaned-Only :
    {status : ConditionStatus} (s t : BareMetalInstanceStatus)
    → Sets instance_cleaned status s.conditions t.conditions
    → CleanedOnly s t
unfolding text_eq
cleaned-Only s t sets = record {
  scheduled = Sets-others instance_scheduled refl sets;
  networked = Sets-others instance_networked refl sets;
  imaged = Sets-others instance_imaged refl sets;
}

-- The scheduler has set the condition to false.
unset-IsOrderly :
    {d : Bool} (s t : BareMetalInstanceStatus)
    → Sets instance_scheduled status_false s.conditions t.conditions
    → t.phase ≡ s.phase
    → IsOrderly d s
    → IsOrderly d t
unset-IsOrderly s t sets same o =
    let only = scheduled-Only s t sets in
    let unset = Sets-held sets in
    record {
      placed = λ h. ground arith;
      clears = rw same o.clears;
      ends = rw same o.ends;
      over = rw same o.over;
      released = λ h. unset;
      connected = λ h. ground (arith, o.connected, only.networked, only.imaged);
      complete = rw (same, only.imaged) o.complete;
    }

-- A step of the scheduler.
pub schedule-IsOrderly :
    {d : Bool} {s t : BareMetalInstanceStatus} → Schedule d s t → IsOrderly d s → IsOrderly d t
schedule-IsOrderly {s} {t} (abandon gone alive unheld) o = record {
  placed = o.placed;
  clears = λ h. gone;
  ends = λ h. gone;
  over = λ h. gone;
  released = λ h. unheld;
  connected = o.connected;
  complete = λ h. cc;
}
schedule-IsOrderly {s} {t} (unassign gone ending held sets) o = unset-IsOrderly s t sets refl o
schedule-IsOrderly {s} {t} (announce stays waiting fresh sets) o = unset-IsOrderly s t sets refl o
schedule-IsOrderly {s} {t} (enter stays waiting held) o = record {
  placed = o.placed;
  clears = λ h. cc;
  ends = λ h. cc;
  over = λ h. cc;
  released = λ h. cc;
  connected = o.connected;
  complete = λ h. cc;
}
schedule-IsOrderly {s} {t} (confirm stays waiting unheld named sets) o =
    let only = scheduled-Only s t sets in
    record {
      placed = λ h. named;
      clears = o.clears;
      ends = o.ends;
      over = o.over;
      released = λ h. ground (arith, o.over);
      connected = λ h. ground (arith, o.connected, only.networked, only.imaged);
      complete = λ h. ground (arith, o.complete, only.imaged);
    }
schedule-IsOrderly {s} {t} (assign stays waiting unheld unnamed) o = record {
  placed = λ h. ground arith;
  clears = o.clears;
  ends = o.ends;
  over = o.over;
  released = o.released;
  connected = o.connected;
  complete = o.complete;
}
