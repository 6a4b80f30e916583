-- ===== src/Instance/Hardware.antt =====
-- The choice of a hardware in `Scheduler.Reconcile`
-- (controllers/baremetalinstance/scheduler.go): the loop over the listed hardwares, and the draw.
-- `for _, bmh := range totalBMH` has one variable `bmh` for all rounds (go.mod asks for Go 1.13),
-- and the lists keep `&bmh`: the variable is state of the loop, and a pointer is read after it.
pub mod Choice
use kube_baremetal.Prelude.{
  ℕ, zero, suc, String, Bool, true, false, not, ◌&&◌, Option, none, some, is_some, List, [], ◌∷◌,
  ◌++◌, length, any, ◌==◌, nat_eq, if◌then◌else◌,
}
use kube_baremetal.Api.Meta.{deleting}
use kube_baremetal.Api.Hardware.{
  BareMetalHardware, Taint, TaintEffect, no_schedule, prefer_no_schedule, no_execute,
}
use kube_baremetal.Api.Instance.{BareMetalInstance, Toleration}
use kube_baremetal.Client.{Server, Reply, ok, err, Exec, pure, panic}

-- `Toleration.ToleratesTaint` of k8s.io/api, `labels.SelectorFromSet(s).Matches` of
-- k8s.io/apimachinery, and `rand.Intn`.
pub record Tools : Type 0 where
  pub tolerates_taint : Toleration → Taint → Bool
  pub matches : List (String × String) → List (String × String) → Bool
  pub intn : ℕ → ℕ

-- `&bmh`, the address of the variable of the loop.
pub data Pointer : Type 0 where
  bmh_variable : Pointer

-- The variable and the lists of the loop.
pub record Sorted : Type 0 where
  pub bmh : Option BareMetalHardware
  pub scheduled : List Pointer
  pub unscheduable : List Pointer
  pub not_match_selector : List Pointer
  pub not_tolerate_taint : List Pointer
  pub acceptable : List Pointer

-- Where the body of the loop puts a hardware; `skipped` is the first `continue`.
pub data Verdict : Type 0 where
  skipped is_scheduled unmatched unprovisionable untolerated accepted : Verdict

-- An effect that keeps an instance away.
abbrev pub repels : TaintEffect → Bool
repels no_schedule = true
repels no_execute = true
repels prefer_no_schedule = false

unfoldable pub tolerates_all : Tools → List Toleration → List Taint → Bool
tolerates_all tools tolerations [] = true
tolerates_all tools tolerations (taint ∷ taints) =
    let rest = tolerates_all tools tolerations taints in
    if not (repels taint.effect)
    then rest
    else if any (λ t. tools.tolerates_taint t taint) tolerations
    then rest
    else false

-- No instance names the hardware, so the tests of the instance's demands follow.
unfoldable pub demands : Tools → BareMetalInstance → BareMetalHardware → Verdict
unfolding tolerates_all
demands tools bmi bmh =
    if not (length bmi.spec.selector == 0) && not (tools.matches bmi.spec.selector bmh.meta.labels)
    then unmatched
    else if not bmh.spec.can_provision
    then unprovisionable
    else if not (tolerates_all tools bmi.spec.tolerations bmh.spec.taints)
    then untolerated
    else accepted

-- The answer of the list of the instances that name the hardware.
unfoldable pub named_by :
    Tools → BareMetalInstance → BareMetalHardware → Reply (List BareMetalInstance) → Reply Verdict
unfolding demands
named_by tools bmi bmh (err e) = err e
named_by tools bmi bmh (ok (x ∷ xs)) = ok is_scheduled
named_by tools bmi bmh (ok []) = ok (demands tools bmi bmh)

-- The body of the loop up to its `append`.
unfoldable pub judge : Server → Tools → BareMetalInstance → BareMetalHardware → Reply Verdict
unfolding named_by
judge server tools bmi bmh =
    if deleting bmh.meta
    then ok skipped
    else if is_some bmh.status.instance_ref
    then ok is_scheduled
    else named_by tools bmi bmh (server.list_instances_by_hardware_name bmh.meta.name)

abbrev append : List Pointer → List Pointer
append ps = ps ++ bmh_variable ∷ []

unfoldable pub put : Verdict → Sorted → Sorted
put skipped s = s
put is_scheduled s = record s { scheduled = append s.scheduled }
put unmatched s = record s { not_match_selector = append s.not_match_selector }
put unprovisionable s = record s { unscheduable = append s.unscheduable }
put untolerated s = record s { not_tolerate_taint = append s.not_tolerate_taint }
put accepted s = record s { acceptable = append s.acceptable }

-- The loop: each round assigns the variable.
unfoldable pub sort :
    Server → Tools → BareMetalInstance → List BareMetalHardware → Sorted → Reply Sorted
unfolding put judge
sort server tools bmi [] s = ok s
sort server tools bmi (bmh ∷ rest) s = elim (judge server tools bmi bmh) [
  | ok v ↦ sort server tools bmi rest (put v (record s { bmh = some bmh }))
  | err e ↦ err e
]

abbrev pub nothing_sorted : Sorted
nothing_sorted = record {
  bmh = none;
  scheduled = [];
  unscheduable = [];
  not_match_selector = [];
  not_tolerate_taint = [];
  acceptable = [];
}

-- `pointers[n]`
unfoldable pub index : List Pointer → ℕ → Option Pointer
index [] n = none
index (p ∷ ps) zero = some p
index (p ∷ ps) (suc n) = index ps n

-- The value behind the pointer.
abbrev pub deref : Sorted → Pointer → Option BareMetalHardware
deref s bmh_variable = s.bmh

-- `p.Name`, of a pointer that an index gave.
abbrev name_of_hardware : Option BareMetalHardware → Exec String
name_of_hardware none = panic
name_of_hardware (some bmh) = pure bmh.meta.name

abbrev pub name_behind : Sorted → Option Pointer → Exec String
name_behind s none = panic
name_behind s (some p) = name_of_hardware (deref s p)

-- `acceptableBMH[rand.Intn(len(acceptableBMH))].Name`
unfoldable pub draw : Tools → Sorted → Exec String
unfolding index
draw tools s = name_behind s (index s.acceptable (tools.intn (length s.acceptable)))
