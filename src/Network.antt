-- ===== src/Network.antt =====
-- `BareMetalNetworkReconciler.Reconcile` of controllers/baremetalnetwork_controller.go
mod Tests
use kube_baremetal.Prelude.{◌≡◌, refl, String, Bool, true, false, if◌then◌else◌, ◌==◌, string_eq}
use kube_baremetal.Api.Meta.{NamespacedName, deleting}
use kube_baremetal.Api.Network.{BareMetalNetwork, bare_metal_network_finalizer}
use kube_baremetal.Finalizer.{has_finalizer, remove_finalizer, has_finalizer-remove_finalizer}
use kube_baremetal.Client.{
  Server, Exec, Result, ◌>>◌, ok, Write, write, update_network, done, ignore_not_found,
}
use kube_baremetal.Client.Once.{Once, Once-if, Once-write}

-- The handler of one network.
unfoldable pub handle : Server → BareMetalNetwork → Exec Result
handle server bmn =
    if deleting bmn.meta
    then (do
      write server (
          update_network
            (record bmn { meta = remove_finalizer bmn.meta bare_metal_network_finalizer }))
      done)
    else done

unfoldable pub reconcile : Server → NamespacedName → Exec Result
unfolding handle
reconcile server req = ignore_not_found (server.get_network req) (handle server)

-- The network is being deleted, and loses this finalizer alone.
abbrev pub IsRelease : BareMetalNetwork → Write → Type 0
IsRelease bmn (update_network e) =
    (deleting bmn.meta ≡ true)
    × (e.spec ≡ bmn.spec)
    × ((f : String)
        → has_finalizer e.meta f
          ≡ (if bare_metal_network_finalizer == f then false else has_finalizer bmn.meta f))
IsRelease bmn _ = ⊥

-- `Reconcile` of a stored network writes at most once: it takes its own finalizer, and no other, from
-- a network that is being deleted.
pub network_controller_reconcile-IsRelease :
    (server : Server) (bmn : BareMetalNetwork) (req : NamespacedName)
    → server.get_network req ≡ ok bmn
    → Once (IsRelease bmn) (reconcile server req)
unfolding reconcile
network_controller_reconcile-IsRelease server bmn req h = rw h (
    Once-if _ (deleting bmn.meta) _ _
      (λ d.
        Once-write _ server _ done (record { none_written = refl })
          (d, refl, λ f. has_finalizer-remove_finalizer bmn.meta bare_metal_network_finalizer f))
      (λ _. record { at_most = tt }))
