-- ===== src/Endpoint/Lifecycle.antt =====
-- What holds of the status of an endpoint at every point of its life, and when its finalizer goes.
use kube_baremetal.Prelude.{◌≡◌, refl, Bool, true, false, none, is_some, arith}
use kube_baremetal.Api.Meta.{NamespacedName, deleting}
use kube_baremetal.Api.Endpoint.{
  BareMetalEndpoint, BareMetalEndpointStatus, bare_metal_endpoint_finalizer, is_empty, is_pending,
  is_addressed, is_deleted,
}
use kube_baremetal.Finalizer.{remove_finalizer}
use kube_baremetal.Client.{Server, ok, Write, update_endpoint, update_endpoint_status, done}
use kube_baremetal.Client.Once.{Once, Once-if, Once-write}
use kube_baremetal.Endpoint.Controller
use kube_baremetal.Endpoint.Phases.{Step, start, begin, give, settle, retire, free, finish}

-- A status that an endpoint can come to: created with no phase and no address, moved by steps, and
-- deleted by a user at any time. The flag says that it is being deleted.
pub data Reach : Bool → BareMetalEndpointStatus → Type 0 where
  created :
      {s : BareMetalEndpointStatus}
      → is_empty s.phase ≡ true
      → is_some s.address ≡ false
      → Reach false s
  step : {d : Bool} {s t : BareMetalEndpointStatus} → Reach d s → Step d s t → Reach d t
  delete : {s : BareMetalEndpointStatus} → Reach false s → Reach true s

pub record IsSound (d : Bool) (s : BareMetalEndpointStatus) : Type 0 where
  pub deleted_free : is_deleted s.phase ≡ true → (d ≡ true) × (s.address ≡ none)
  pub addressed_held : d ≡ false → is_addressed s.phase ≡ true → is_some s.address ≡ true
  pub pending_free : is_pending s.phase ≡ true → s.address ≡ none
  pub empty_free : is_empty s.phase ≡ true → s.address ≡ none

created-IsSound :
    (s : BareMetalEndpointStatus)
    → is_empty s.phase ≡ true
    → is_some s.address ≡ false
    → IsSound false s
created-IsSound s e n = ground arith

Step-IsSound : {d : Bool} {s t : BareMetalEndpointStatus} → IsSound d s → Step d s t → IsSound d t
Step-IsSound i (start d e) = ground arith
Step-IsSound i (begin d p n) = ground arith
Step-IsSound i (give f d a p n) = ground arith
Step-IsSound i (settle d a h) = ground arith
Step-IsSound i (retire d a h) = ground arith
Step-IsSound i (free d a h) = ground arith
Step-IsSound i (finish d a n) = ground arith

delete-IsSound : {s : BareMetalEndpointStatus} → IsSound false s → IsSound true s
delete-IsSound i = ground arith

-- At every point of its life an endpoint that is `Deleted` has no address and is being deleted, one
-- that is `Addressed` and not being deleted has an address, and one that has no phase or is
-- `Pending` has none.
pub Reach-IsSound : {d : Bool} {s : BareMetalEndpointStatus} → Reach d s → IsSound d s
Reach-IsSound (created e n) = created-IsSound _ e n
Reach-IsSound (step r st) = Step-IsSound (Reach-IsSound r) st
Reach-IsSound (delete r) = delete-IsSound (Reach-IsSound r)

-- What `Controller.Reconcile` may write: the first phase, or the object without its finalizer where
-- it is being deleted and holds no address.
abbrev pub IsRelease : BareMetalEndpoint → Write → Type 0
IsRelease bme (update_endpoint e) =
    (deleting bme.meta ≡ true)
    × (bme.status.address ≡ none)
    × (e ≡ record bme { meta = remove_finalizer bme.meta bare_metal_endpoint_finalizer })
IsRelease bme (update_endpoint_status e) =
    (e.meta ≡ bme.meta) × (e.spec ≡ bme.spec) × Step (deleting bme.meta) bme.status e.status
IsRelease bme _ = ⊥

controller_handle-IsRelease :
    (server : Server) (bme : BareMetalEndpoint)
    → IsSound (deleting bme.meta) bme.status
    → Once (IsRelease bme) (Controller.handle server bme)
unfolding Controller.handle
controller_handle-IsRelease server bme i =
    Once-if _ (deleting bme.meta) _ _
      (λ d.
        Once-if _ (is_deleted bme.status.phase) _ _
          (λ gone.
            Once-write _ server _ done (record { none_written = refl })
              (d, (i.deleted_free gone).1, refl))
          (λ _. record { at_most = tt }))
      (λ d.
        Once-if _ (is_empty bme.status.phase) _ _
          (λ e. Once-write _ server _ done (record { none_written = refl }) (refl, refl, start d e))
          (λ _. record { at_most = tt }))

-- `Controller.Reconcile` of an endpoint whose status was reached writes at most once: a step of the
-- status, or the endpoint without its finalizer, and then it is being deleted and its address has
-- been given back.
pub controller_reconcile-IsRelease :
    (server : Server) (bme : BareMetalEndpoint) (req : NamespacedName)
    → server.get_endpoint req ≡ ok bme
    → Reach (deleting bme.meta) bme.status
    → Once (IsRelease bme) (Controller.reconcile server req)
unfolding Controller.reconcile
controller_reconcile-IsRelease server bme req h r =
    rw h (controller_handle-IsRelease server bme (Reach-IsSound r))
