-- ===== src/Instance/Life/Reach.antt =====
-- The instances that the reconcilers can come to, and what holds of them.
use kube_baremetal.Prelude.{◌≡◌, refl, sym, subst, ℕ, Bool, true, false, some, [], ◌∷◌}
use kube_baremetal.Ip.Text.{NetText}
use kube_baremetal.Agent.Http.{Http}
use kube_baremetal.Api.Meta.{NamespacedName, deleting, is_zero}
use kube_baremetal.Api.Instance.{
  BareMetalInstance, BareMetalInstanceStatus, instance_scheduled, is_terminated, empty, pending,
}
use kube_baremetal.Condition.{get_condition}
use kube_baremetal.Client.{Server, ok, Write, update_instance, update_instance_status}
use kube_baremetal.Client.Effects.{writes}
use kube_baremetal.Client.Once.{Once, Once-wrote, Once-weaken}
use kube_baremetal.Discovery.{ReadyInput, ready}
use kube_baremetal.Discovery.Reports.{Report, report, ready-Report}
use kube_baremetal.Instance.Controller
use kube_baremetal.Instance.Release.{IsRelease, instance_reconcile-IsRelease}
use kube_baremetal.Instance.Hardware.{Tools}
use kube_baremetal.Instance.Scheduler
use kube_baremetal.Instance.Scheduler.Moves.{scheduler_reconcile-Move}
use kube_baremetal.Instance.Provisioner.Reconcile
use kube_baremetal.Instance.Provisioner.Image.{Printer}
use kube_baremetal.Instance.Provisioner.Moves.Whole.{provisioner_reconcile-Move}
use kube_baremetal.Instance.Life.{IsOrderly, holds}
use kube_baremetal.Instance.Life.Steps.{schedule-IsOrderly}
use kube_baremetal.Instance.Life.Provisions.{move-Keeps}

-- One reconciler reads the instance `b` and stores `e` as its status; or a user deletes the
-- instance; or the discovery server, which finds no other instance, stores the
-- address of its agent.
pub data Step (b : BareMetalInstance) : BareMetalInstance → Type 0 where
  by_controller :
      {e : BareMetalInstance} (server : Server) (req : NamespacedName)
      → server.get_instance req ≡ ok b
      → writes (Controller.reconcile server req).1 ≡ update_instance_status e ∷ []
      → Step b e
  by_scheduler :
      {e : BareMetalInstance} (server : Server) (tools : Tools) (req : NamespacedName)
      → server.get_instance req ≡ ok b
      → writes (Scheduler.reconcile server tools req).1 ≡ update_instance_status e ∷ []
      → Step b e
  by_provisioner :
      {e : BareMetalInstance} (server : Server) (http : Http) (printer : Printer) (net : NetText)
      (req : NamespacedName)
      → server.get_instance req ≡ ok b
      → writes (Reconcile.reconcile server http printer net req).1 ≡ update_instance_status e ∷ []
      → Step b e
  delete :
      (t : ℕ)
      → deleting b.meta ≡ false
      → is_zero (some t) ≡ false
      → Step b (record b { meta = record b.meta { deletion_timestamp = some t } })
  by_discovery :
      {e : BareMetalInstance} (server : Server) (input : ReadyInput)
      → ((n : NamespacedName) (x : BareMetalInstance) → server.get_instance n ≡ ok x → x ≡ b)
      → writes (ready server (some input)).1 ≡ update_instance_status e ∷ []
      → Step b e

-- An instance that was created without a phase and without conditions, some steps later.
pub data Reach : BareMetalInstance → Type 0 where
  create : {b : BareMetalInstance} → b.status.phase ≡ empty → b.status.conditions ≡ [] → Reach b
  then : {b e : BareMetalInstance} → Reach b → Step b e → Reach e

create-IsOrderly :
    (b : BareMetalInstance)
    → b.status.phase ≡ empty
    → b.status.conditions ≡ []
    → IsOrderly (deleting b.meta) b.status
unfolding get_condition
create-IsOrderly b e c = record {
  placed = rw c λ h. cc;
  clears = rw e λ h. cc;
  ends = rw e λ h. cc;
  over = rw e λ h. cc;
  released = rw e λ h. cc;
  connected = rw c λ h. cc;
  complete = rw e λ h. cc;
}

-- The controller gives the first phase.
pending-IsOrderly :
    {d : Bool} (s : BareMetalInstanceStatus)
    → IsOrderly d s
    → IsOrderly d (record s { phase = pending })
pending-IsOrderly s o = record {
  placed = o.placed;
  clears = λ h. cc;
  ends = λ h. cc;
  over = λ h. cc;
  released = λ h. cc;
  connected = o.connected;
  complete = λ h. cc;
}

-- The agent's address is no matter of order.
report-IsOrderly :
    {server : Server} {input : ReadyInput} (b e : BareMetalInstance)
    → Report server input (update_instance_status e)
    → ((n : NamespacedName) (x : BareMetalInstance) → server.get_instance n ≡ ok x → x ≡ b)
    → IsOrderly (deleting b.meta) b.status
    → IsOrderly (deleting e.meta) e.status
report-IsOrderly b e (report bmi listed has_ref got same waits) only o =
    let orderly : IsOrderly (deleting bmi.meta) bmi.status =
      subst (λ (x : BareMetalInstance). IsOrderly (deleting x.meta) x.status) (sym (only _ bmi got))
        o in
    record {
      placed = orderly.placed;
      clears = orderly.clears;
      ends = orderly.ends;
      over = orderly.over;
      released = orderly.released;
      connected = orderly.connected;
      complete = orderly.complete;
    }

Step-IsOrderly :
    {b e : BareMetalInstance}
    → Step b e
    → IsOrderly (deleting b.meta) b.status
    → IsOrderly (deleting e.meta) e.status
Step-IsOrderly {b} {e} (by_controller server req got wrote) o =
    let (stays, unset, eq) = Once-wrote (instance_reconcile-IsRelease server b req got) wrote in
    rw eq (pending-IsOrderly b.status o)
Step-IsOrderly {b} {e} (by_scheduler server tools req got wrote) o =
    let (meta, spec, move) = Once-wrote (scheduler_reconcile-Move server tools b req got) wrote in
    rw meta (schedule-IsOrderly move o)
Step-IsOrderly {b} {e} (by_provisioner server http printer net req got wrote) o =
    let (meta, keeps) =
      move-Keeps server http printer net b
        (Once-wrote (provisioner_reconcile-Move server http printer net b req got) wrote) in
    rw meta (keeps o)
Step-IsOrderly {b} (delete t stays set) o = record {
  placed = o.placed;
  clears = λ h. rw set refl;
  ends = λ h. rw set refl;
  over = λ h. rw set refl;
  released = o.released;
  connected = o.connected;
  complete = o.complete;
}
Step-IsOrderly {b} {e} (by_discovery server input only wrote) o =
    report-IsOrderly b e (Once-wrote (ready-Report server input) wrote) only o

-- At every point of its life an instance that is scheduled has a hardware; one in the phases
-- Cleaning, Terminating or Terminated is being deleted, and a terminated one is not scheduled; one
-- that is imaged has its network configured, and one that is running is imaged. The life is any
-- sequence of the writes of its controller, its scheduler and its provisioner, each made of the
-- instance as it was stored last, of a deletion by a user, and of the reports of its agent
-- to the discovery server.
pub Reach-IsOrderly : {b : BareMetalInstance} → Reach b → IsOrderly (deleting b.meta) b.status
Reach-IsOrderly (create {b} e c) = create-IsOrderly b e c
Reach-IsOrderly (then r step) = Step-IsOrderly step (Reach-IsOrderly r)

-- The instance has given its hardware back.
abbrev pub IsGone : BareMetalInstance → Write → Type 0
IsGone b (update_instance e) =
    (deleting b.meta ≡ true)
    × (is_terminated b.status.phase ≡ true)
    × (holds instance_scheduled b.status ≡ false)
IsGone b w = Unit

-- `Controller.Reconcile` of an instance that was reached takes the finalizer from it, if it does,
-- only where the instance is being deleted, terminated and not scheduled.
pub instance_reconcile-IsGone :
    (server : Server) (b : BareMetalInstance) (req : NamespacedName)
    → server.get_instance req ≡ ok b
    → Reach b
    → Once (IsGone b) (Controller.reconcile server req)
instance_reconcile-IsGone server b req got r =
    Once-weaken (IsRelease b) (IsGone b) (Controller.reconcile server req)
      (instance_reconcile-IsRelease server b req got) gone
  where
    gone : (w : Write) → IsRelease b w → IsGone b w
    gone (update_instance e) h = (h.0, h.1, (Reach-IsOrderly r).released h.1)
    gone w h = tt
