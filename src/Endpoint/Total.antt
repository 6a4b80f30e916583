-- ===== src/Endpoint/Total.antt =====
-- The allocation always ends, with an address wherever one is left.
use kube_baremetal.Prelude.{◌≡◌, refl, ◌⊎◌, inl, inr, Bool, ℕ, true, none, some, List, [], ◌∷◌}
use kube_baremetal.Ip.{Ip, IpNet, value, mask_ip, broadcast_of}
use kube_baremetal.Ip.Text.{NetText, ParsesSixteen}
use kube_baremetal.Api.Meta.{group}
use kube_baremetal.Api.Endpoint.{BareMetalEndpoint}
use kube_baremetal.Api.Network.{BareMetalNetwork}
use kube_baremetal.Client.{Server, Exec, ok, completed, Write, update_endpoint_status, Result}
use kube_baremetal.Client.Effects.{writes}
use kube_baremetal.Endpoint.Search.{Search, found, exhausted, unfinished}
use kube_baremetal.Endpoint.Search.First.{IsFirstFree}
use kube_baremetal.Endpoint.Network.{
  ref_key, address_of, allocate, search_network, parse_network, in_range, is_taken, store_address,
}
use kube_baremetal.Endpoint.Address.{HasRange, search_range-IsFirstFree}

-- How an allocation may end: with one write of an address that was not taken, every lower one of
-- the range being taken; or with no write and a retry, every address of the range being taken.
abbrev pub Ends :
    NetText → BareMetalNetwork → BareMetalEndpoint → (Ip → Bool) → Ip → ℕ → Exec Result → Type 0
Ends net bmn bme taken end low m =
    ((ip : Ip) × (writes m.1
        ≡ update_endpoint_status
            (record bme { status = record bme.status { address = some (address_of net bmn ip) } })
          ∷ [])
      × IsFirstFree taken end low (found ip))
    ⊎ ((writes m.1 ≡ [])
        × (m.0 ≡ completed (record { requeue = true; requeue_after = 0 }))
        × IsFirstFree taken end low exhausted)

module _ (server : Server) (net : NetText) (bme : BareMetalEndpoint) (bmn : BareMetalNetwork)
    (accepts : (w : Write) → server.refuses w ≡ none) where
  store_address-Ends :
      (taken : Ip → Bool) (end : Ip) (low : ℕ) (r : Search)
      → IsFirstFree taken end low r
      → Ends net bmn bme taken end low (store_address server net bme bmn r)
  unfolding store_address
  store_address-Ends taken end low (found ip) f = inl (ip, rw (accepts _), f)
  store_address-Ends taken end low exhausted f = inr (refl, refl, f)
  store_address-Ends taken end low unfinished f = absurd f

  -- Where the server answers and accepts the write, the CIDR parses and the network has a range,
  -- the allocation ends: it stores the lowest address of the range that is not taken, or, if all
  -- are taken, writes nothing and asks to be run again.
  pub allocate-Ends :
      (bmes : List BareMetalEndpoint) (cidr_ip broadcast : Ip) (network : IpNet)
      (range : HasRange net bmn)
      → ParsesSixteen net
      → server.list_endpoints_by_network_ref (ref_key group bmn.kind bmn.meta.name) ≡ ok bmes
      → net.parse_cidr bmn.spec.cidr ≡ some (cidr_ip, network)
      → broadcast_of (mask_ip cidr_ip network.mask) network.mask ≡ some broadcast
      → Ends net bmn bme
          (is_taken net bmn (mask_ip cidr_ip network.mask) broadcast bmes)
          range.end
          (value range.start)
          (allocate server net bme bmn)
  unfolding allocate parse_network search_network in_range
  allocate-Ends bmes cidr_ip broadcast network range sixteen listed parsed known =
      rw (listed, parsed, known)
        (store_address-Ends (is_taken net bmn (mask_ip cidr_ip network.mask) broadcast bmes)
          range.end (value range.start) _
          (search_range-IsFirstFree net sixteen bmn range (mask_ip cidr_ip network.mask) broadcast
            bmes))
