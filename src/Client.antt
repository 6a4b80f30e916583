-- ===== src/Client.antt =====
-- What a reconciler asks of the Kubernetes API server, and what it does: controller-runtime's
-- `client.Client`, `record.EventRecorder`, `clock.Clock` and `ctrl.Result`, which are not the
-- program's own code. The server's answers are the parameter `Server`; a reconciler is a
-- computation that reads it and leaves a list of effects.
pub mod Effects
pub mod Example
pub mod Once
pub mod Quiet
pub mod Safe
use kube_baremetal.Prelude.{
  ◌≡◌, ℕ, String, Bool, true, false, Option, none, some, List, [], ◌∷◌, ◌++◌,
}
use kube_baremetal.Agent.{Call}
use kube_baremetal.Condition.{StatusCondition}
use kube_baremetal.Api.Meta.{NamespacedName, Time, ObjectMeta}
use kube_baremetal.Api.Discovery.{BareMetalDiscovery}
use kube_baremetal.Api.Endpoint.{BareMetalEndpoint}
use kube_baremetal.Api.Network.{BareMetalNetwork}
use kube_baremetal.Api.Hardware.{BareMetalHardware}
use kube_baremetal.Api.Instance.{BareMetalInstance}

-- `not_found` is what `apierrors.IsNotFound` accepts, `api_status` an `APIStatus` with its code,
-- `failure` any other error, `condition_not_formed` the error of `SetCondition`.
pub data Error : Type 0 where
  not_found condition_not_formed : Error
  api_status : ℕ → Error
  failure : String → Error

pub data Reply {ℓ} (A : Type ℓ) : Type ℓ where
  ok : A → Reply A
  err : Error → Reply A

pub ok_injective {ℓ} : {A : Type ℓ} {a b : A} → ok a ≡ ok b → a ≡ b
ok_injective h = cc

-- `r.Update` writes metadata and spec, `r.Status().Update` the status. `called` is a request to an
-- agent, which acts on it.
pub data Write : Type 0 where
  update_endpoint update_endpoint_status create_endpoint : BareMetalEndpoint → Write
  update_network : BareMetalNetwork → Write
  update_hardware update_hardware_status : BareMetalHardware → Write
  update_instance update_instance_status delete_instance : BareMetalInstance → Write
  create_discovery update_discovery_status : BareMetalDiscovery → Write
  called : Call → Write

pub data EventType : Type 0 where
  normal warning : EventType

-- The answers that one reconcile gets. The lists are named after the selector of the call.
pub record Server : Type 0 where
  pub get_endpoint : NamespacedName → Reply BareMetalEndpoint
  pub get_network : NamespacedName → Reply BareMetalNetwork
  pub get_hardware : NamespacedName → Reply BareMetalHardware
  pub get_instance : NamespacedName → Reply BareMetalInstance
  pub list_endpoints_by_network_ref : String → Reply (List BareMetalEndpoint)
  pub list_endpoints_by_instance : String → Reply (List BareMetalEndpoint)
  pub list_endpoints_by_instance_nic : String → String → Reply (List BareMetalEndpoint)
  pub list_hardware_in_namespace : String → Reply (List BareMetalHardware)
  pub list_hardware_by_system_uuid : String → Reply (List BareMetalHardware)
  pub list_instances_by_hardware_name : String → Reply (List BareMetalInstance)
  pub list_discoveries_by_system_uuid : String → Reply (List BareMetalDiscovery)
  -- `some e`: the server refuses the write with `e`
  pub refuses : Write → Option Error
  -- the object as `Create` fills it in
  pub created : BareMetalDiscovery → BareMetalDiscovery
  pub now : Time

-- `event` names the object and the reason; the text of the message is left out.
pub data Effect : Type 0 where
  wrote : Write → Effect
  event : NamespacedName → EventType → String → Effect

-- `panicked`: a nil pointer or an index out of range. `diverged`: a loop that never ends.
pub data Outcome {ℓ} (A : Type ℓ) : Type ℓ where
  completed : A → Outcome A
  failed : Error → Outcome A
  panicked diverged : Outcome A

-- A computation, run: how it ended, and the effects in order.
abbrev pub Exec {ℓ} : Type ℓ → Type ℓ
Exec A = Outcome A × List Effect

module _ {ℓ} {A : Type ℓ} where
  abbrev pub pure : A → Exec A
  pure a = (completed a, [])

  abbrev pub fail : Error → Exec A
  fail e = (failed e, [])

  abbrev pub panic : Exec A
  panic = (panicked, [])

  abbrev pub diverge : Exec A
  diverge = (diverged, [])

  -- `if err != nil { return ctrl.Result{}, err }`
  abbrev pub or_fail : Reply A → Exec A
  or_fail (ok a) = pure a
  or_fail (err e) = fail e

module _ {ℓ κ} {A : Type ℓ} {B : Type κ} where
  infixl 5 ◌>>=◌
  abbrev pub ◌>>=◌ : Exec A → (A → Exec B) → Exec B
  ◌>>=◌ (completed a, es) f = let (r, fs) = f a in (r, es ++ fs)
  ◌>>=◌ (failed e, es) f = (failed e, es)
  ◌>>=◌ (panicked, es) f = (panicked, es)
  ◌>>=◌ (diverged, es) f = (diverged, es)

infixl 5 ◌>>◌
abbrev pub ◌>>◌ {ℓ} : {B : Type ℓ} → Exec (Unit {0}) → Exec B → Exec B
m >> k = m >>= λ _. k

-- A write with the server's answer.
abbrev pub send : Option Error → Write → Exec (Unit {0})
send none w = (completed tt, wrote w ∷ [])
send (some e) w = fail e

-- A write, and `return ctrl.Result{}, err` where the server refuses it.
abbrev pub write : Server → Write → Exec (Unit {0})
write server w = send (server.refuses w) w

abbrev pub record_event : NamespacedName → EventType → String → Exec (Unit {0})
record_event object type reason = (completed tt, event object type reason ∷ [])

-- A request to an agent is on its way; the answer is a value of its own.
abbrev pub call : Call → Exec (Unit {0})
call c = (completed tt, wrote (called c) ∷ [])

-- `err := SetCondition(..); if err != nil { return ctrl.Result{}, err }`
abbrev pub or_not_formed : Option (List StatusCondition) → Exec (List StatusCondition)
or_not_formed none = fail condition_not_formed
or_not_formed (some conditions) = pure conditions

-- `ctrl.Result`, with the delay in seconds.
pub record Result : Type 0 where
  pub requeue : Bool
  pub requeue_after : ℕ

abbrev pub done : Exec Result
done = pure (record { requeue = false; requeue_after = 0 })

abbrev pub requeue : Exec Result
requeue = pure (record { requeue = true; requeue_after = 0 })

abbrev pub requeue_after : ℕ → Exec Result
requeue_after seconds = pure (record { requeue = false; requeue_after = seconds })

-- `client.IgnoreNotFound` at the head of every reconciler.
abbrev pub ignore_not_found {ℓ} : {A : Type ℓ} → Reply A → (A → Exec Result) → Exec Result
ignore_not_found (ok a) f = f a
ignore_not_found (err not_found) f = done
ignore_not_found (err e) f = fail e
