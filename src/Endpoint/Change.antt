-- ===== src/Endpoint/Change.antt =====
-- What `Network.Reconcile` may do to the address of an endpoint.
use kube_baremetal.Prelude.{
  ◌≡◌, refl, true, false, not, ◌&&◌, Option, none, some, List, is_some, ◌==◌, string_eq, arith,
  String, text_eq_iff,
}
use kube_baremetal.Ip.{Ip, IpNet}
use kube_baremetal.Ip.Text.{NetText, ParsesSixteen}
use kube_baremetal.Api.Meta.{NamespacedName, deleting, group}
use kube_baremetal.Api.Endpoint.{
  BareMetalEndpoint, is_empty, is_pending, is_addressed, is_deleted, is_deleting,
}
use kube_baremetal.Api.Network.{BareMetalNetwork}
use kube_baremetal.Client.{
  Server, Reply, ok, err, not_found, condition_not_formed, api_status, failure, Write,
  update_endpoint_status, completed, done, or_fail,
}
use kube_baremetal.Client.Once.{Once, Once-if, Once-write, Once-bind, or_fail-IsQuiet}
use kube_baremetal.Endpoint.Search.{Search, found, exhausted, unfinished}
use kube_baremetal.Endpoint.Network
use kube_baremetal.Endpoint.Network.{
  ref_key, address_of, release, assign, assign_network, allocate, store_address, find_network,
  named_network, search_range, search_network, parse_network, in_range, is_taken,
}
use kube_baremetal.Endpoint.Phases.{
  parse_network-IsQuiet, search_network-IsQuiet, find_network-IsQuiet, none_of,
}
use kube_baremetal.Endpoint.Address.{HasRange, IsAvailable, search_network-IsAvailable}

-- The question for the network of an endpoint.
abbrev pub network_name : BareMetalEndpoint → NamespacedName
network_name bme = record { namespace = bme.meta.namespace; name = bme.spec.network_ref.name }

-- `e` is `bme` with an available address of its network.
pub record IsGiven (server : Server) (net : NetText) (bme e : BareMetalEndpoint) : Type 0 where
  pub right_group : bme.spec.network_ref.group ≡ group
  pub right_kind : bme.spec.network_ref.kind ≡ "BareMetalNetwork"
  pub bmn : BareMetalNetwork
  pub bmes : List BareMetalEndpoint
  pub cidr_ip : Ip
  pub network : IpNet
  pub ip : Ip
  pub named : server.get_network (network_name bme) ≡ ok bmn
  pub listed : server.list_endpoints_by_network_ref (ref_key group bmn.kind bmn.meta.name) ≡ ok bmes
  pub parsed : net.parse_cidr bmn.spec.cidr ≡ some (cidr_ip, network)
  pub available : IsAvailable net bmn bmes cidr_ip network ip
  pub had_none : bme.status.address ≡ none
  pub stored :
      e ≡ record bme { status = record bme.status { address = some (address_of net bmn ip) } }

-- What a write may do to the address of `bme`.
pub data Change (server : Server) (net : NetText) (bme : BareMetalEndpoint) : Write → Type 0 where
  kept :
      {e : BareMetalEndpoint}
      → e.status.address ≡ bme.status.address
      → Change server net bme (update_endpoint_status e)
  cleared :
      {e : BareMetalEndpoint}
      → deleting bme.meta ≡ true
      → e.status.address ≡ none
      → Change server net bme (update_endpoint_status e)
  given :
      {e : BareMetalEndpoint}
      → deleting bme.meta ≡ false
      → IsGiven server net bme e
      → Change server net bme (update_endpoint_status e)

or_fail_ok {ℓ} : {A : Type ℓ} (r : Reply A) (a : A) → (or_fail r).0 ≡ completed a → r ≡ ok a
or_fail_ok (ok b) a h = cc
or_fail_ok (err e) a h = cc

parse_network-some :
    (r : Option (Ip × IpNet)) (p : Ip × IpNet) → (parse_network r).0 ≡ completed p → r ≡ some p
unfolding parse_network
parse_network-some none p h = cc
parse_network-some (some q) p h = cc

named_network_ok :
    (bme : BareMetalEndpoint) (r : Reply BareMetalNetwork) (bmn : BareMetalNetwork)
    → (named_network bme r).0 ≡ completed (some bmn)
    → r ≡ ok bmn
unfolding named_network
named_network_ok bme (ok b) bmn h = cc
named_network_ok bme (err not_found) bmn h = cc
named_network_ok bme (err condition_not_formed) bmn h = cc
named_network_ok bme (err (api_status n)) bmn h = cc
named_network_ok bme (err (failure e)) bmn h = cc

equal_of : {s t : String} → not (s == t) ≡ false → s ≡ t
equal_of {s} {t} h = ground (arith, text_eq_iff s t)

module _ (server : Server) (net : NetText) (bme : BareMetalEndpoint) where
  release-Change :
      (bmn : Option BareMetalNetwork)
      → deleting bme.meta ≡ true
      → Once (Change server net bme) (release server bme bmn)
  unfolding release
  release-Change bmn d =
      Once-if _ (is_deleted bme.status.phase) _ _ (λ _. record { at_most = tt })
        λ _.
          Once-if _ (not (is_some bme.status.address)) _ _
            (λ _. Once-write _ server _ done (record { none_written = refl }) (kept refl))
            λ _.
              Once-if _ (is_some bmn && not (is_deleting bme.status.phase)) _ _
                (λ _. Once-write _ server _ done (record { none_written = refl }) (kept refl))
                (λ _. Once-write _ server _ done (record { none_written = refl }) (cleared d refl))

  module _ (sixteen : ParsesSixteen net)
      (ranges : (bmn : BareMetalNetwork)
        → server.get_network (network_name bme) ≡ ok bmn
        → HasRange net bmn)
      (right_group : bme.spec.network_ref.group ≡ group)
      (right_kind : bme.spec.network_ref.kind ≡ "BareMetalNetwork")
      (d : deleting bme.meta ≡ false) where
    module _ (bmn : BareMetalNetwork) (named : server.get_network (network_name bme) ≡ ok bmn)
        (had_none : bme.status.address ≡ none) where
      store_address-Change :
          (bmes : List BareMetalEndpoint) (parsed : Ip × IpNet) (r : Search)
          → server.list_endpoints_by_network_ref (ref_key group bmn.kind bmn.meta.name) ≡ ok bmes
          → net.parse_cidr bmn.spec.cidr ≡ some parsed
          → (search_network net bmn bmes parsed).0 ≡ completed r
          → Once (Change server net bme) (store_address server net bme bmn r)
      unfolding store_address
      store_address-Change bmes (cidr_ip, network) (found ip) listed p h =
          Once-write _ server _ _ (record { none_written = refl })
            (given d (record {
              right_group = right_group;
              right_kind = right_kind;
              bmn = bmn;
              bmes = bmes;
              cidr_ip = cidr_ip;
              network = network;
              ip = ip;
              named = named;
              listed = listed;
              parsed = p;
              available =
                  search_network-IsAvailable net sixteen bmn (ranges bmn named) bmes cidr_ip network
                    ip h;
              had_none = had_none;
              stored = refl;
            }))
      store_address-Change bmes parsed exhausted listed p h = record { at_most = tt }
      store_address-Change bmes parsed unfinished listed p h = record { at_most = tt }

      allocate-Change : Once (Change server net bme) (allocate server net bme bmn)
      unfolding allocate
      allocate-Change =
          Once-bind _ (or_fail (server.list_endpoints_by_network_ref _)) _ (or_fail-IsQuiet _)
            λ bmes l.
              Once-bind _ (parse_network (net.parse_cidr bmn.spec.cidr)) _
                (parse_network-IsQuiet (net.parse_cidr bmn.spec.cidr))
                λ parsed p.
                  Once-bind _ (search_network net bmn bmes parsed) _
                    (search_network-IsQuiet net bmn bmes parsed)
                    λ r h.
                      store_address-Change bmes parsed r (or_fail_ok _ bmes l)
                        (parse_network-some _ parsed p) h

    assign_network-Change :
        (bmn : Option BareMetalNetwork)
        → (named_network bme (server.get_network (network_name bme))).0 ≡ completed bmn
        → bme.status.address ≡ none
        → Once (Change server net bme) (assign_network server net bme bmn)
    unfolding assign_network
    assign_network-Change none f n = record { at_most = tt }
    assign_network-Change (some bmn) f n =
        Once-if _ (is_pending bme.status.phase) _ _
          (λ _. Once-write _ server _ _ (record { none_written = refl }) (kept refl))
          (λ _. allocate-Change bmn (named_network_ok bme _ bmn f) n)

    assign-Change :
        (bmn : Option BareMetalNetwork)
        → (named_network bme (server.get_network (network_name bme))).0 ≡ completed bmn
        → Once (Change server net bme) (assign server net bme bmn)
    unfolding assign
    assign-Change bmn f =
        Once-if _ (is_addressed bme.status.phase) _ _ (λ _. record { at_most = tt })
          λ _.
            Once-if _ (is_some bme.status.address) _ _
              (λ _. Once-write _ server _ done (record { none_written = refl }) (kept refl))
              (λ gone. assign_network-Change bmn f (none_of _ gone))

  handle-Change :
      ParsesSixteen net
      → ((bmn : BareMetalNetwork)
          → server.get_network (network_name bme) ≡ ok bmn
          → HasRange net bmn)
      → Once (Change server net bme) (Network.handle server net bme)
  unfolding Network.handle find_network
  handle-Change sixteen ranges =
      Once-if _ (is_empty bme.status.phase) _ _ (λ _. record { at_most = tt })
        λ _.
          Once-if _ (not (bme.spec.network_ref.group == group)) _ _ (λ _. record { at_most = tt })
            λ g.
              Once-if _ (not (bme.spec.network_ref.kind == "BareMetalNetwork")) _ _
                (λ _. record { at_most = tt })
                λ k.
                  Once-bind _ (find_network server bme) _ (find_network-IsQuiet server net bme)
                    λ bmn f.
                      Once-if _ (deleting bme.meta) _ _ (release-Change bmn)
                        (λ d. assign-Change sixteen ranges (equal_of g) (equal_of k) d bmn f)

-- `Network.Reconcile`, where the network of the endpoint has a range: it writes at most once, and
-- the write keeps the address, or clears it while the endpoint is being deleted, or gives an
-- endpoint that had none an address that is in the range of its network and is neither the
-- network's, the broadcast's, the gateway's, a nameserver's nor one held by an endpoint listed.
pub network_reconcile-Change :
    (server : Server) (net : NetText) (bme : BareMetalEndpoint) (req : NamespacedName)
    → ParsesSixteen net
    → server.get_endpoint req ≡ ok bme
    → ((bmn : BareMetalNetwork) → server.get_network (network_name bme) ≡ ok bmn → HasRange net bmn)
    → Once (Change server net bme) (Network.reconcile server net req)
unfolding Network.reconcile
network_reconcile-Change server net bme req sixteen h ranges =
    rw h (handle-Change server net bme sixteen ranges)
