-- ===== src/Endpoint/Search.antt =====
-- The loop of `Network.Reconcile` (controllers/baremetalendpoint/network.go) that looks for an
-- address: `for ip := start; bytes.Compare(end, ip) >= 0; r.inc(ip)`.
pub mod First
use kube_baremetal.Prelude.{
  ℕ, zero, suc, ◌+◌, ◌-◌, Bool, true, false, ◌||◌, Option, none, some, List, String, [], any,
}
use kube_baremetal.Ip.{Ip, value, inc, not_below, equal}
use kube_baremetal.Ip.Text.{NetText}
use kube_baremetal.Api.Endpoint.{BareMetalEndpoint}

pub data Search : Type 0 where
  found : Ip → Search
  exhausted unfinished : Search

-- The loop on fuel; `taken` is what makes the body go on to the next address.
unfoldable pub scan : ℕ → (Ip → Bool) → Ip → Ip → Search
scan zero taken end ip = unfinished
scan (suc fuel) taken end ip = elim (not_below end ip) [
  | false ↦ exhausted
  | true ↦ elim (taken ip) [ true ↦ scan fuel taken end (inc ip) | false ↦ found ip ]
]

-- One round for each address from `start` to `end`, and one for the test that ends the loop.
unfoldable pub next_ip : (Ip → Bool) → Ip → Ip → Search
unfolding scan
next_ip taken start end = scan (suc (value end + 1 - value start)) taken end start

-- `net.ParseIP`, whose nil is the empty slice.
unfoldable pub parse_or_nil : NetText → String → Ip
parse_or_nil net s = elim (net.parse_ip s) [ none ↦ [] | some ip ↦ ip ]

-- Network, gateway and broadcast address.
unfoldable pub is_special : Ip → Ip → Ip → Ip → Bool
is_special network_ip gateway broadcast ip =
    equal ip network_ip || equal ip gateway || equal ip broadcast

unfoldable pub is_nameserver : NetText → List String → Ip → Bool
unfolding parse_or_nil
is_nameserver net nameservers ip = any (λ ns. equal ip (parse_or_nil net ns)) nameservers

-- An endpoint of the network has the address.
unfoldable pub has_address : NetText → Ip → BareMetalEndpoint → Bool
unfolding parse_or_nil
has_address net ip bme = elim bme.status.address [
  | none ↦ false
  | some address ↦ equal ip (parse_or_nil net address.ip)
]

unfoldable pub is_allocated : NetText → List BareMetalEndpoint → Ip → Bool
is_allocated net bmes ip = any (has_address net ip) bmes
