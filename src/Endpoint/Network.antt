-- ===== src/Endpoint/Network.antt =====
-- `Network.Reconcile` of controllers/baremetalendpoint/network.go, with the index of
-- `SetupWithManager`. The function is cut at its blocks, in their order.
use Prim.Native.String.{◌++◌ as str_append}
use kube_baremetal.Prelude.{
  String, Bool, not, ◌||◌, ◌&&◌, Option, none, some, List, is_some, ◌==◌, string_eq, if◌then◌else◌,
}
use kube_baremetal.Ip.{Ip, IpNet, mask_ip, broadcast_of}
use kube_baremetal.Ip.Text.{NetText}
use kube_baremetal.Api.Meta.{NamespacedName, name_of, deleting, group}
use kube_baremetal.Api.Endpoint.{
  BareMetalEndpoint, BareMetalEndpointStatusAddress, BareMetalEndpointStatusPhase, is_empty,
  is_pending, is_addressed, is_deleting, is_deleted, addressing, addressed,
  deleting as deleting_phase, deleted,
}
use kube_baremetal.Api.Network.{BareMetalNetwork}
use kube_baremetal.Client.{
  Server, Exec, Reply, ok, err, not_found, failure, Result, pure, fail, panic, diverge, or_fail,
  ◌>>=◌, ◌>>◌, write, record_event, normal, warning, update_endpoint_status, done, requeue,
  ignore_not_found,
}
use kube_baremetal.Endpoint.Search.{
  Search, found, exhausted, unfinished, next_ip, parse_or_nil, is_special, is_nameserver,
  is_allocated,
}

-- `group + "." + kind + "." + name`
unfoldable pub ref_key : String → String → String → String
ref_key g kind name = str_append g (str_append "." (str_append kind (str_append "." name)))

-- The index "spec.networkRef.group,kind,name".
unfoldable pub network_ref_index : BareMetalEndpoint → String
unfolding ref_key
network_ref_index bme =
    ref_key bme.spec.network_ref.group bme.spec.network_ref.kind bme.spec.network_ref.name

abbrev with_phase : BareMetalEndpointStatusPhase → BareMetalEndpoint → BareMetalEndpoint
with_phase phase bme = record bme { status = record bme.status { phase = phase } }

abbrev with_address : Option BareMetalEndpointStatusAddress → BareMetalEndpoint → BareMetalEndpoint
with_address address bme = record bme { status = record bme.status { address = address } }

-- The block under `bme.DeletionTimestamp.IsZero() == false`.
unfoldable pub release : Server → BareMetalEndpoint → Option BareMetalNetwork → Exec Result
release server bme bmn =
    if is_deleted bme.status.phase
    then done
    else if not (is_some bme.status.address)
    then (do write server (update_endpoint_status (with_phase deleted bme)); done)
    else if is_some bmn && not (is_deleting bme.status.phase)
    then (do write server (update_endpoint_status (with_phase deleting_phase bme)); done)
    else (do write server (update_endpoint_status (with_address none bme)); done)

-- The address that is stored for `ip`.
abbrev pub address_of : NetText → BareMetalNetwork → Ip → BareMetalEndpointStatusAddress
address_of net bmn ip = record {
  ip = net.ip_string ip;
  cidr = bmn.spec.cidr;
  gateway = bmn.spec.gateway;
  nameservers = bmn.spec.nameservers;
  search_domains = bmn.spec.search_domains;
}

-- The end of the loop: an address is stored, or the search goes on later.
unfoldable pub store_address :
    Server → NetText → BareMetalEndpoint → BareMetalNetwork → Search → Exec Result
store_address server net bme bmn unfinished = diverge
store_address server net bme bmn exhausted = do
  record_event (name_of bme.meta) warning "NoIPAvailable"
  requeue
store_address server net bme bmn (found ip) = do
  write server (update_endpoint_status (with_address (some (address_of net bmn ip)) bme))
  record_event (name_of bme.meta) normal "Addressed"
  done

-- What the loop skips: special addresses, nameservers, addresses of other endpoints.
unfoldable pub is_taken : NetText → BareMetalNetwork → Ip → Ip → List BareMetalEndpoint → Ip → Bool
is_taken net bmn network_ip broadcast bmes ip =
    is_special network_ip (parse_or_nil net bmn.spec.gateway) broadcast ip
    || is_nameserver net bmn.spec.nameservers ip
    || is_allocated net bmes ip

-- The address that the loop finds in the range of the network.
unfoldable pub search_range : NetText → BareMetalNetwork → Ip → Ip → List BareMetalEndpoint → Search
unfolding is_taken
search_range net bmn network_ip broadcast bmes =
    next_ip (is_taken net bmn network_ip broadcast bmes) (parse_or_nil net bmn.spec.start)
      (parse_or_nil net bmn.spec.end)

-- `net.ParseCIDR`, whose error is returned.
unfoldable pub parse_network : Option (Ip × IpNet) → Exec (Ip × IpNet)
parse_network none = fail (failure "invalid CIDR address")
parse_network (some parsed) = pure parsed

-- An index out of range panics.
unfoldable pub in_range : Option Ip → Exec Ip
in_range none = panic
in_range (some broadcast) = pure broadcast

-- From the parsed CIDR to the end of the loop.
unfoldable pub search_network :
    NetText → BareMetalNetwork → List BareMetalEndpoint → Ip × IpNet → Exec Search
unfolding in_range search_range
search_network net bmn bmes (cidr_ip, network) = do
  let network_ip = mask_ip cidr_ip network.mask
  broadcast ← in_range (broadcast_of network_ip network.mask)
  pure (search_range net bmn network_ip broadcast bmes)

-- The block under `r.addressLock`.
unfoldable pub allocate : Server → NetText → BareMetalEndpoint → BareMetalNetwork → Exec Result
unfolding ref_key parse_network search_network store_address
allocate server net bme bmn = do
  bmes ← or_fail (server.list_endpoints_by_network_ref (ref_key group bmn.kind bmn.meta.name))
  parsed ← parse_network (net.parse_cidr bmn.spec.cidr)
  result ← search_network net bmn bmes parsed
  store_address server net bme bmn result

-- An endpoint without an address: it is retried until its network is there.
unfoldable pub assign_network :
    Server → NetText → BareMetalEndpoint → Option BareMetalNetwork → Exec Result
unfolding allocate
assign_network server net bme none = requeue
assign_network server net bme (some bmn) =
    if is_pending bme.status.phase
    then (do
      write server (update_endpoint_status (with_phase addressing bme))
      record_event (name_of bme.meta) normal "Addressing"
      done)
    else allocate server net bme bmn

-- The block for an endpoint that is not deleted.
unfoldable pub assign : Server → NetText → BareMetalEndpoint → Option BareMetalNetwork → Exec Result
unfolding assign_network
assign server net bme bmn =
    if is_addressed bme.status.phase
    then done
    else if is_some bme.status.address
    then (do write server (update_endpoint_status (with_phase addressed bme)); done)
    else assign_network server net bme bmn

-- The answer to the question for the endpoint's network: nil with an event where there is none.
unfoldable pub named_network :
    BareMetalEndpoint → Reply BareMetalNetwork → Exec (Option BareMetalNetwork)
named_network bme (ok bmn) = pure (some bmn)
named_network bme (err not_found) = do
  record_event (name_of bme.meta) warning "NetworkNotFound"
  pure none
named_network bme (err e) = fail e

unfoldable pub find_network : Server → BareMetalEndpoint → Exec (Option BareMetalNetwork)
unfolding named_network
find_network server bme = named_network bme (
    server.get_network
      (record { namespace = bme.meta.namespace; name = bme.spec.network_ref.name }))

-- The handler of one endpoint.
unfoldable pub handle : Server → NetText → BareMetalEndpoint → Exec Result
unfolding find_network release assign
handle server net bme =
    if is_empty bme.status.phase
    then done
    else if not (bme.spec.network_ref.group == group)
    then done
    else if not (bme.spec.network_ref.kind == "BareMetalNetwork")
    then done
    else do
      bmn ← find_network server bme
      if deleting bme.meta then release server bme bmn else assign server net bme bmn

unfoldable pub reconcile : Server → NetText → NamespacedName → Exec Result
unfolding handle
reconcile server net req = ignore_not_found (server.get_endpoint req) (handle server net)
