-- ===== src/Endpoint/Controller.antt =====
-- `Controller.Reconcile` of controllers/baremetalendpoint/controller.go
use kube_baremetal.Prelude.{if◌then◌else◌}
use kube_baremetal.Api.Meta.{NamespacedName, deleting}
use kube_baremetal.Api.Endpoint.{
  BareMetalEndpoint, bare_metal_endpoint_finalizer, is_deleted, is_empty, pending,
}
use kube_baremetal.Finalizer.{remove_finalizer}
use kube_baremetal.Client.{
  Server, Exec, Result, ◌>>◌, write, update_endpoint, update_endpoint_status, done,
  ignore_not_found,
}

-- The handler of one endpoint.
unfoldable pub handle : Server → BareMetalEndpoint → Exec Result
handle server bme =
    if deleting bme.meta
    then (if is_deleted bme.status.phase
        then (do
          write server (
              update_endpoint
                (record bme { meta = remove_finalizer bme.meta bare_metal_endpoint_finalizer }))
          done)
        else done)
    else if is_empty bme.status.phase
    then (do
      write server
          (update_endpoint_status (record bme { status = record bme.status { phase = pending } }))
      done)
    else done

unfoldable pub reconcile : Server → NamespacedName → Exec Result
unfolding handle
reconcile server req = ignore_not_found (server.get_endpoint req) (handle server)
