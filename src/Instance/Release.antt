-- ===== src/Instance/Release.antt =====
-- When the finalizer of an instance goes.
use kube_baremetal.Prelude.{◌≡◌, refl, String, true, false, ◌==◌, string_eq, if◌then◌else◌}
use kube_baremetal.Api.Meta.{NamespacedName, deleting}
use kube_baremetal.Api.Instance.{
  BareMetalInstance, bare_metal_instance_finalizer, is_terminated, is_empty, pending,
}
use kube_baremetal.Finalizer.{has_finalizer, has_finalizer-remove_finalizer}
use kube_baremetal.Client.{Server, ok, Write, update_instance, update_instance_status, done}
use kube_baremetal.Client.Once.{Once, Once-if, Once-write}
use kube_baremetal.Instance.Controller

-- The instance is being deleted and terminated, and loses this finalizer alone; or it has no phase
-- yet, and becomes `Pending`.
abbrev pub IsRelease : BareMetalInstance → Write → Type 0
IsRelease bmi (update_instance e) =
    (deleting bmi.meta ≡ true)
    × (is_terminated bmi.status.phase ≡ true)
    × (e.spec ≡ bmi.spec)
    × ((f : String)
        → has_finalizer e.meta f
          ≡ (if bare_metal_instance_finalizer == f then false else has_finalizer bmi.meta f))
IsRelease bmi (update_instance_status e) =
    (deleting bmi.meta ≡ false)
    × (is_empty bmi.status.phase ≡ true)
    × (e ≡ record bmi { status = record bmi.status { phase = pending } })
IsRelease bmi _ = ⊥

handle-IsRelease :
    (server : Server) (bmi : BareMetalInstance)
    → Once (IsRelease bmi) (Controller.handle server bmi)
unfolding Controller.handle
handle-IsRelease server bmi =
    Once-if _ (deleting bmi.meta) _ _
      (λ d.
        Once-if _ (is_terminated bmi.status.phase) _ _
          (λ t.
            Once-write _ server _ done (record { none_written = refl })
              (
                d,
                t,
                refl,
                λ f. has_finalizer-remove_finalizer bmi.meta bare_metal_instance_finalizer f,
              ))
          (λ _. record { at_most = tt }))
      (λ d.
        Once-if _ (is_empty bmi.status.phase) _ _
          (λ e. Once-write _ server _ done (record { none_written = refl }) (d, e, refl))
          (λ _. record { at_most = tt }))

-- `Controller.Reconcile` of a stored instance writes at most once: it takes its own finalizer, and
-- no other, from an instance that is being deleted and `Terminated`, or makes one that has no phase
-- and is not being deleted `Pending`.
pub instance_reconcile-IsRelease :
    (server : Server) (bmi : BareMetalInstance) (req : NamespacedName)
    → server.get_instance req ≡ ok bmi
    → Once (IsRelease bmi) (Controller.reconcile server req)
unfolding Controller.reconcile
instance_reconcile-IsRelease server bmi req h = rw h (handle-IsRelease server bmi)
