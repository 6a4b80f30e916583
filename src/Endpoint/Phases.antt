-- ===== src/Endpoint/Phases.antt =====
-- The life of an endpoint's status: the steps that the two reconcilers of
-- controllers/baremetalendpoint take.
use kube_baremetal.Prelude.{
  ◌≡◌, refl, Bool, true, false, not, ◌&&◌, Option, none, some, List, is_some, arith, ◌==◌,
  string_eq,
}
use kube_baremetal.Ip.{Ip, IpNet, mask_ip, broadcast_of}
use kube_baremetal.Ip.Text.{NetText}
use kube_baremetal.Api.Meta.{NamespacedName, deleting, group}
use kube_baremetal.Api.Endpoint.{
  BareMetalEndpoint, BareMetalEndpointStatus, BareMetalEndpointStatusAddress, is_empty, is_pending,
  is_addressed, is_deleting, is_deleted, pending, addressing, addressed, deleted,
  deleting as deleting_phase,
}
use kube_baremetal.Api.Network.{BareMetalNetwork}
use kube_baremetal.Client.{
  Server, or_fail, pure, ◌>>=◌, Reply, ok, err, not_found, condition_not_formed, api_status,
  failure, Write, update_endpoint_status, done,
}
use kube_baremetal.Client.Once.{Once, IsQuiet, Once-if, Once-write, Once-bind, or_fail-IsQuiet}
use kube_baremetal.Endpoint.Search.{Search, found, exhausted, unfinished}
use kube_baremetal.Endpoint.Network
use kube_baremetal.Endpoint.Network.{
  release, assign, allocate, store_address, find_network, named_network, assign_network,
  search_range, parse_network, search_network, in_range, search_range, in_range, search_range,
}

-- A step of the status `s`; `d` says that the endpoint is being deleted.
pub data Step (d : Bool) (s : BareMetalEndpointStatus) : BareMetalEndpointStatus → Type 0 where
  start : d ≡ false → is_empty s.phase ≡ true → Step d s (record s { phase = pending })
  begin :
      d ≡ false
      → is_pending s.phase ≡ true
      → s.address ≡ none
      → Step d s (record s { phase = addressing })
  give :
      {a : BareMetalEndpointStatusAddress}
      → is_empty s.phase ≡ false
      → d ≡ false
      → is_addressed s.phase ≡ false
      → is_pending s.phase ≡ false
      → s.address ≡ none
      → Step d s (record s { address = some a })
  settle :
      d ≡ false
      → is_addressed s.phase ≡ false
      → is_some s.address ≡ true
      → Step d s (record s { phase = addressed })
  retire :
      d ≡ true
      → is_deleted s.phase ≡ false
      → is_some s.address ≡ true
      → Step d s (record s { phase = deleting_phase })
  free :
      d ≡ true
      → is_deleted s.phase ≡ false
      → is_some s.address ≡ true
      → Step d s (record s { address = none })
  finish :
      d ≡ true
      → is_deleted s.phase ≡ false
      → s.address ≡ none
      → Step d s (record s { phase = deleted })

-- A write that moves the status of `bme` by one step and leaves the rest of it alone.
abbrev pub IsStepOf : BareMetalEndpoint → Write → Type 0
IsStepOf bme (update_endpoint_status e) =
    (e.meta ≡ bme.meta) × (e.spec ≡ bme.spec) × Step (deleting bme.meta) bme.status e.status
IsStepOf bme _ = ⊥

pub none_of : (a : Option BareMetalEndpointStatusAddress) → is_some a ≡ false → a ≡ none
none_of none h = refl
none_of (some a) h = ground arith

pub parse_network-IsQuiet : (r : Option (Ip × IpNet)) → IsQuiet (parse_network r)
unfolding parse_network
parse_network-IsQuiet none = record { none_written = refl }
parse_network-IsQuiet (some p) = record { none_written = refl }

pub search_network-IsQuiet :
    (net : NetText) (bmn : BareMetalNetwork) (bmes : List BareMetalEndpoint) (parsed : Ip × IpNet)
    → IsQuiet (search_network net bmn bmes parsed)
unfolding search_network
search_network-IsQuiet net bmn bmes (cidr_ip, network) =
    go (broadcast_of (mask_ip cidr_ip network.mask) network.mask)
  where
    go :
        (b : Option Ip)
        → IsQuiet (
            in_range b >>= λ broadcast.
            pure (search_range net bmn (mask_ip cidr_ip network.mask) broadcast bmes))
    go none = record { none_written = refl }
    go (some b) = record { none_written = refl }

named_network-IsQuiet :
    (bme : BareMetalEndpoint) (r : Reply BareMetalNetwork) → IsQuiet (named_network bme r)
unfolding named_network
named_network-IsQuiet bme (ok bmn) = record { none_written = refl }
named_network-IsQuiet bme (err not_found) = record { none_written = refl }
named_network-IsQuiet bme (err condition_not_formed) = record { none_written = refl }
named_network-IsQuiet bme (err (api_status n)) = record { none_written = refl }
named_network-IsQuiet bme (err (failure e)) = record { none_written = refl }

module _ (server : Server) (net : NetText) (bme : BareMetalEndpoint) where
  release-Step :
      (bmn : Option BareMetalNetwork)
      → deleting bme.meta ≡ true
      → Once (IsStepOf bme) (release server bme bmn)
  unfolding release
  release-Step bmn d =
      Once-if _ (is_deleted bme.status.phase) _ _ (λ _. record { at_most = tt })
        λ alive.
          Once-if _ (not (is_some bme.status.address)) _ _
            (λ gone.
              Once-write _ server _ done (record { none_written = refl })
                (refl, refl, finish d alive (none_of _ (ground arith))))
            λ held.
              Once-if _ (is_some bmn && not (is_deleting bme.status.phase)) _ _
                (λ here.
                  Once-write _ server _ done (record { none_written = refl })
                    (refl, refl, retire d alive (ground arith)))
                (λ over.
                  Once-write _ server _ done (record { none_written = refl })
                    (refl, refl, free d alive (ground arith)))

  store_address-Step :
      (bmn : BareMetalNetwork) (r : Search)
      → is_empty bme.status.phase ≡ false
      → deleting bme.meta ≡ false
      → is_addressed bme.status.phase ≡ false
      → is_pending bme.status.phase ≡ false
      → bme.status.address ≡ none
      → Once (IsStepOf bme) (store_address server net bme bmn r)
  unfolding store_address
  store_address-Step bmn (found ip) f d a p n =
      Once-write _ server _ _ (record { none_written = refl }) (refl, refl, give f d a p n)
  store_address-Step bmn exhausted f d a p n = record { at_most = tt }
  store_address-Step bmn unfinished f d a p n = record { at_most = tt }

  allocate-Step :
      (bmn : BareMetalNetwork)
      → is_empty bme.status.phase ≡ false
      → deleting bme.meta ≡ false
      → is_addressed bme.status.phase ≡ false
      → is_pending bme.status.phase ≡ false
      → bme.status.address ≡ none
      → Once (IsStepOf bme) (allocate server net bme bmn)
  unfolding allocate
  allocate-Step bmn f d a p n =
      Once-bind _ (or_fail (server.list_endpoints_by_network_ref _)) _ (or_fail-IsQuiet _) λ bmes _.
        Once-bind _ (parse_network (net.parse_cidr bmn.spec.cidr)) _
          (parse_network-IsQuiet (net.parse_cidr bmn.spec.cidr))
          λ parsed _.
            Once-bind _ (search_network net bmn bmes parsed) _
              (search_network-IsQuiet net bmn bmes parsed) λ r _. store_address-Step bmn r f d a p n

  assign-Step :
      (bmn : Option BareMetalNetwork)
      → is_empty bme.status.phase ≡ false
      → deleting bme.meta ≡ false
      → Once (IsStepOf bme) (assign server net bme bmn)
  unfolding assign
  assign-Step bmn f d =
      Once-if _ (is_addressed bme.status.phase) _ _ (λ _. record { at_most = tt })
        λ a.
          Once-if _ (is_some bme.status.address) _ _
            (λ held.
              Once-write _ server _ done (record { none_written = refl })
                (refl, refl, settle d a held))
            λ gone. no_address bmn a (none_of _ gone)
    where
      no_address :
          (bmn : Option BareMetalNetwork)
          → is_addressed bme.status.phase ≡ false
          → bme.status.address ≡ none
          → Once (IsStepOf bme) (assign_network server net bme bmn)
      no_address none a n = record { at_most = tt }
      no_address (some network) a n =
          Once-if _ (is_pending bme.status.phase) _ _
            (λ p.
              Once-write _ server _ _ (record { none_written = refl }) (refl, refl, begin d p n))
            (λ p. allocate-Step network f d a p n)

  pub find_network-IsQuiet : IsQuiet (find_network server bme)
  unfolding find_network
  find_network-IsQuiet = named_network-IsQuiet bme (server.get_network _)

  handle-Step : Once (IsStepOf bme) (Network.handle server net bme)
  unfolding Network.handle
  handle-Step =
      Once-if _ (is_empty bme.status.phase) _ _ (λ _. record { at_most = tt })
        λ f.
          Once-if _ (not (bme.spec.network_ref.group == group)) _ _ (λ _. record { at_most = tt })
            λ _.
              Once-if _ (not (bme.spec.network_ref.kind == "BareMetalNetwork")) _ _
                (λ _. record { at_most = tt })
                λ _.
                  Once-bind _ (find_network server bme) _ find_network-IsQuiet λ bmn _.
                    Once-if _ (deleting bme.meta) _ _ (release-Step bmn) (assign-Step bmn f)

-- `Network.Reconcile` writes at most once; what it writes is the status of the endpoint that it
-- read, one step of `Step` further, with metadata and spec unchanged.
pub network_reconcile-Step :
    (server : Server) (net : NetText) (bme : BareMetalEndpoint) (req : NamespacedName)
    → server.get_endpoint req ≡ ok bme
    → Once (IsStepOf bme) (Network.reconcile server net req)
unfolding Network.reconcile
network_reconcile-Step server net bme req h = rw h (handle-Step server net bme)
