-- ===== src/Instance/Controller.antt =====
-- `Controller.Reconcile` of controllers/baremetalinstance/controller.go
use kube_baremetal.Prelude.{if◌then◌else◌}
use kube_baremetal.Api.Meta.{NamespacedName, deleting}
use kube_baremetal.Api.Instance.{
  BareMetalInstance, bare_metal_instance_finalizer, is_terminated, is_empty, pending,
}
use kube_baremetal.Finalizer.{remove_finalizer}
use kube_baremetal.Client.{
  Server, Exec, Result, ◌>>◌, write, update_instance, update_instance_status, done,
  ignore_not_found,
}

-- The handler of one instance.
unfoldable pub handle : Server → BareMetalInstance → Exec Result
handle server bmi =
    if deleting bmi.meta
    then (if is_terminated bmi.status.phase
        then (do
          write server (
              update_instance
                (record bmi { meta = remove_finalizer bmi.meta bare_metal_instance_finalizer }))
          done)
        else done)
    else if is_empty bmi.status.phase
    then (do
      write server
          (update_instance_status (record bmi { status = record bmi.status { phase = pending } }))
      done)
    else done

unfoldable pub reconcile : Server → NamespacedName → Exec Result
unfolding handle
reconcile server req = ignore_not_found (server.get_instance req) (handle server)
