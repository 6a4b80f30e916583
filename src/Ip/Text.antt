-- ===== src/Ip/Text.antt =====
-- The texts of addresses. `net.ParseIP`, `net.ParseCIDR`, `net.ParseMAC` and `IP.String` are
-- functions of the standard library over texts: parameters here, with what their documentation says.
use kube_baremetal.Prelude.{◌≡◌, Option, some, List, String, length, ℕ}
use kube_baremetal.Ip.{Ip, IpNet, IsBytes}

pub record NetText : Type 0 where
  pub parse_ip : String → Option Ip
  pub parse_cidr : String → Option (Ip × IpNet)
  pub parse_mac : String → Option (List ℕ)
  pub ip_string : Ip → String

-- What `net.ParseIP` returns has 16 bytes.
abbrev pub ParsesSixteen : NetText → Type 0
ParsesSixteen net =
    (s : String) (ip : Ip) → net.parse_ip s ≡ some ip → (length ip ≡ 16) × IsBytes ip

-- `net.ParseIP(ip.String())` is `ip`, for an address of 16 bytes.
abbrev pub RoundTrips : NetText → Type 0
RoundTrips net = (ip : Ip) → length ip ≡ 16 → IsBytes ip → net.parse_ip (net.ip_string ip) ≡ some ip
