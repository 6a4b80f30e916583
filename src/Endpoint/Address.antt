-- ===== src/Endpoint/Address.antt =====
-- What holds of an address that `Network.Reconcile` hands out.
use kube_baremetal.Prelude.{
  ◌≡◌, All, [], ◌∷◌, refl, sym, ◌∙◌, subst, ◌+◌, ◌<◌, false, Option, none, some, List, string_eq,
  arith, String,
}
use kube_baremetal.Ip.{Ip, IpNet, equal, value, weight, mask_ip, broadcast_of}
use kube_baremetal.Ip.Text.{NetText, ParsesSixteen}
use kube_baremetal.Api.Endpoint.{BareMetalEndpoint}
use kube_baremetal.Api.Network.{BareMetalNetwork}
use kube_baremetal.Client.{Exec, completed, ◌>>=◌, pure}
use kube_baremetal.Endpoint.Search.{
  Search, found, parse_or_nil, is_special, is_nameserver, is_allocated,
}
use kube_baremetal.Endpoint.Search.First.{IsBetween, IsFirstFree, next_ip-IsFirstFree}
use kube_baremetal.Endpoint.Network.{search_range, search_network, in_range, is_taken}

-- The range of the network is written in addresses, and ends before the last address there is.
pub record HasRange (net : NetText) (bmn : BareMetalNetwork) : Type 0 where
  pub start : Ip
  pub end : Ip
  pub start_parses : net.parse_ip bmn.spec.start ≡ some start
  pub end_parses : net.parse_ip bmn.spec.end ≡ some end
  pub not_last : value end + 1 < weight end

-- `ip` is an address of the range that is neither special, nor a nameserver, nor held by one of
-- `bmes`.
pub record IsAvailable (net : NetText) (bmn : BareMetalNetwork) (bmes : List BareMetalEndpoint)
    (cidr_ip : Ip) (network : IpNet) (ip : Ip) : Type 0 where
  pub start : Ip
  pub end : Ip
  pub broadcast : Ip
  pub start_parses : net.parse_ip bmn.spec.start ≡ some start
  pub end_parses : net.parse_ip bmn.spec.end ≡ some end
  pub broadcast_known : broadcast_of (mask_ip cidr_ip network.mask) network.mask ≡ some broadcast
  pub between : IsBetween end (value start) (value end) ip
  pub not_network : equal ip (mask_ip cidr_ip network.mask) ≡ false
  pub not_gateway : equal ip (parse_or_nil net bmn.spec.gateway) ≡ false
  pub not_broadcast : equal ip broadcast ≡ false
  pub not_nameserver : All (λ ns. equal ip (parse_or_nil net ns) ≡ false) bmn.spec.nameservers
  pub not_allocated : is_allocated net bmes ip ≡ false

parse_or_nil-some :
    (net : NetText) (s : String) (ip : Ip) → net.parse_ip s ≡ some ip → parse_or_nil net s ≡ ip
unfolding parse_or_nil
parse_or_nil-some net s ip h = ground arith

-- A search that finds an address has its broadcast address, and the result of the loop.
module _ (net : NetText) (bmn : BareMetalNetwork) (bmes : List BareMetalEndpoint)
    (network_ip : Ip) where
  search_from : Option Ip → Exec Search
  unfolding in_range
  search_from b = do broadcast ← in_range b; pure (search_range net bmn network_ip broadcast bmes)

  search_from_found :
      (b : Option Ip) (r : Search)
      → (search_from b).0 ≡ completed r
      → (broadcast : Ip) × (b ≡ some broadcast)
        × (search_range net bmn network_ip broadcast bmes ≡ r)
  unfolding search_from
  search_from_found none r h = cc
  search_from_found (some broadcast) r h = (broadcast, refl, cc)

not_special :
    (network_ip gateway broadcast ip : Ip)
    → is_special network_ip gateway broadcast ip ≡ false
    → (equal ip network_ip ≡ false) × (equal ip gateway ≡ false) × (equal ip broadcast ≡ false)
unfolding is_special
not_special network_ip gateway broadcast ip h = ground arith

nameservers_differ :
    (net : NetText) (nameservers : List String) (ip : Ip)
    → is_nameserver net nameservers ip ≡ false
    → All (λ ns. equal ip (parse_or_nil net ns) ≡ false) nameservers
unfolding is_nameserver
nameservers_differ net [] ip h = tt
nameservers_differ net (ns ∷ rest) ip h =
    (ground arith, nameservers_differ net rest ip (ground arith))

not_taken :
    (net : NetText) (bmn : BareMetalNetwork) (network_ip broadcast : Ip)
    (bmes : List BareMetalEndpoint) (ip : Ip)
    → is_taken net bmn network_ip broadcast bmes ip ≡ false
    → (is_special network_ip (parse_or_nil net bmn.spec.gateway) broadcast ip ≡ false)
      × (is_nameserver net bmn.spec.nameservers ip ≡ false)
      × (is_allocated net bmes ip ≡ false)
unfolding is_taken
not_taken net bmn network_ip broadcast bmes ip h = ground arith

module _ (net : NetText) (sixteen : ParsesSixteen net) (bmn : BareMetalNetwork)
    (range : HasRange net bmn) where
  -- The result of the search in the range of the network.
  pub search_range-IsFirstFree :
      (network_ip broadcast : Ip) (bmes : List BareMetalEndpoint)
      → IsFirstFree
          (is_taken net bmn network_ip broadcast bmes)
          range.end
          (value range.start)
          (search_range net bmn network_ip broadcast bmes)
  unfolding search_range
  search_range-IsFirstFree network_ip broadcast bmes =
      let s = sixteen _ _ range.start_parses in
      let e = sixteen _ _ range.end_parses in
      let from = parse_or_nil-some net bmn.spec.start range.start range.start_parses in
      let to = parse_or_nil-some net bmn.spec.end range.end range.end_parses in
      rw (from, to)
        (next_ip-IsFirstFree (is_taken net bmn network_ip broadcast bmes) range.start range.end
          (s.0 ∙ sym e.0) s.1 e.1 range.not_last)

  pub search_network-IsAvailable :
      (bmes : List BareMetalEndpoint) (cidr_ip : Ip) (network : IpNet) (ip : Ip)
      → (search_network net bmn bmes (cidr_ip, network)).0 ≡ completed (found ip)
      → IsAvailable net bmn bmes cidr_ip network ip
  unfolding search_network search_from
  search_network-IsAvailable bmes cidr_ip network ip h =
      let network_ip = mask_ip cidr_ip network.mask in
      let (broadcast, known, r) =
        search_from_found net bmn bmes network_ip (broadcast_of network_ip network.mask) (found ip)
          h in
      let (between, free, before) =
        subst
          (IsFirstFree (is_taken net bmn network_ip broadcast bmes) range.end (value range.start)) r
          (search_range-IsFirstFree network_ip broadcast bmes) in
      let open_address = not_taken net bmn network_ip broadcast bmes ip free in
      let special =
        not_special network_ip (parse_or_nil net bmn.spec.gateway) broadcast ip open_address.0 in
      record {
        start = range.start;
        end = range.end;
        broadcast = broadcast;
        start_parses = range.start_parses;
        end_parses = range.end_parses;
        broadcast_known = known;
        between = between;
        not_network = special.0;
        not_gateway = special.1;
        not_broadcast = special.2;
        not_nameserver = nameservers_differ net bmn.spec.nameservers ip open_address.1;
        not_allocated = open_address.2;
      }
