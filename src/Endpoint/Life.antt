-- ===== src/Endpoint/Life.antt =====
-- The endpoints that the two reconcilers of controllers/baremetalendpoint come to, one after another.
use kube_baremetal.Prelude.{◌≡◌, sym, subst, ℕ, true, false, some, is_some, [], ◌∷◌}
use kube_baremetal.Ip.Text.{NetText}
use kube_baremetal.Api.Meta.{NamespacedName, deleting, is_zero}
use kube_baremetal.Api.Endpoint.{BareMetalEndpoint, is_empty}
use kube_baremetal.Client.{Server, ok, update_endpoint_status}
use kube_baremetal.Client.Effects.{writes}
use kube_baremetal.Client.Once.{Once-wrote}
use kube_baremetal.Endpoint.Controller
use kube_baremetal.Endpoint.Network
use kube_baremetal.Endpoint.Phases.{network_reconcile-Step}
use kube_baremetal.Endpoint.Lifecycle.{
  Reach, created, step, delete, IsSound, Reach-IsSound, controller_reconcile-IsRelease,
}

-- One reconciler reads the endpoint `b` and stores `e` as its status; or a user deletes the endpoint.
pub data Turn (b : BareMetalEndpoint) : BareMetalEndpoint → Type 0 where
  by_controller :
      {e : BareMetalEndpoint} (server : Server) (req : NamespacedName)
      → server.get_endpoint req ≡ ok b
      → writes (Controller.reconcile server req).1 ≡ update_endpoint_status e ∷ []
      → Turn b e
  by_network :
      {e : BareMetalEndpoint} (server : Server) (net : NetText) (req : NamespacedName)
      → server.get_endpoint req ≡ ok b
      → writes (Network.reconcile server net req).1 ≡ update_endpoint_status e ∷ []
      → Turn b e
  by_user :
      (t : ℕ)
      → deleting b.meta ≡ false
      → is_zero (some t) ≡ false
      → Turn b (record b { meta = record b.meta { deletion_timestamp = some t } })

-- An endpoint that was created without a phase and without an address, some turns later.
pub data Life : BareMetalEndpoint → Type 0 where
  create :
      {b : BareMetalEndpoint}
      → deleting b.meta ≡ false
      → is_empty b.status.phase ≡ true
      → is_some b.status.address ≡ false
      → Life b
  take : {b e : BareMetalEndpoint} → Life b → Turn b e → Life e

Turn-Reach :
    {b e : BareMetalEndpoint}
    → Turn b e
    → Reach (deleting b.meta) b.status
    → Reach (deleting e.meta) e.status
Turn-Reach {b} {e} (by_controller server req got wrote) r =
    let (meta, spec, moved) =
      Once-wrote (controller_reconcile-IsRelease server b req got r) wrote in
    rw meta (step r moved)
Turn-Reach {b} {e} (by_network server net req got wrote) r =
    let (meta, spec, moved) = Once-wrote (network_reconcile-Step server net b req got) wrote in
    rw meta (step r moved)
Turn-Reach {b} (by_user t stays set) r = rw set (delete (subst (λ d. Reach d b.status) stays r))

pub Life-Reach : {b : BareMetalEndpoint} → Life b → Reach (deleting b.meta) b.status
Life-Reach {b} (create stays unset free) =
    subst (λ d. Reach d b.status) (sym stays) (created unset free)
Life-Reach (take life turn) = Turn-Reach turn (Life-Reach life)

-- Whatever the two reconcilers of endpoints do, in any order, to an endpoint that was created without
-- a phase and without an address, and whenever it is deleted: an endpoint that is `Deleted` has no
-- address and is being deleted, one that is `Addressed` and not being deleted has an address, and one
-- that has no phase or is `Pending` has none.
pub Life-IsSound : {b : BareMetalEndpoint} → Life b → IsSound (deleting b.meta) b.status
Life-IsSound life = Reach-IsSound (Life-Reach life)
