-- ===== src/Webhook/Network/Range.antt =====
-- What `ValidateCreate` of webhooks/baremetalnetwork_webhook.go makes sure of.
use kube_baremetal.Prelude.{
  ℕ, ◌<◌, ◌≡◌, refl, sym, ◌∙◌, String, true, false, Option, none, some, List, [], ◌∷◌, length,
  arith, ◌==◌, nat_eq, string_eq, if◌then◌else◌, All,
}
use kube_baremetal.Ip.{Ip, IpNet, IsBytes, mask_ip, to4, contains_ip, not_below, value}
use kube_baremetal.Ip.Text.{NetText, ParsesSixteen}
use kube_baremetal.Ip.Value.{not_below_iff}
use kube_baremetal.Api.Network.{BareMetalNetwork}
use kube_baremetal.Webhook.Error.{Field, field, item, unless-empty, collect-empty}
use kube_baremetal.Webhook.Duplicates.Nodup.{NodupTexts, each_errors-NodupTexts, each_errors-All}
use kube_baremetal.Webhook.Network.{
  Parsed, cidr_errors, inside_errors, address_errors, order_errors, version_errors,
  nameserver_errors, nameservers_errors, validate_create,
}

-- `ip` is the parsed text, and an address of the network.
abbrev pub IsInside : NetText → IpNet → String → Ip → Type 0
IsInside net network text ip = (net.parse_ip text ≡ some ip) × (contains_ip network ip ≡ true)

-- The number of bytes of the shortest form.
abbrev pub short_length : Ip → ℕ
short_length ip = if length (to4 ip) == 0 then length ip else length (to4 ip)

-- The nameserver parses, and has as many bytes as the network's address, if that is known.
abbrev pub IsNameserver : NetText → Ip → String → Type 0
IsNameserver net network_ip text =
    (ip : Ip) × (net.parse_ip text ≡ some ip)
    × ((length network_ip == 0) ≡ false → length network_ip ≡ short_length ip)

pub record IsAdmitted (net : NetText) (r : BareMetalNetwork) : Type 0 where
  pub cidr_ip : Ip
  pub network : IpNet
  pub start : Ip
  pub end : Ip
  pub gateway : Ip
  pub cidr_parses : net.parse_cidr r.spec.cidr ≡ some (cidr_ip, network)
  pub start_inside : IsInside net network r.spec.start start
  pub end_inside : IsInside net network r.spec.end end
  pub gateway_inside : IsInside net network r.spec.gateway gateway
  pub ordered : value start < value end
  pub nameservers : All (IsNameserver net (mask_ip cidr_ip network.mask)) r.spec.nameservers
  pub distinct : NodupTexts r.spec.nameservers

cidr_errors-empty :
    (network : Parsed) → cidr_errors network ≡ [] → (p : Ip × IpNet) × (network ≡ some p)
unfolding cidr_errors
cidr_errors-empty none h = cc h
cidr_errors-empty (some p) h = (p, refl)

address_errors-empty :
    (cidr_ip : Ip) (network : IpNet) (bad path : Field) (first second : String) (o : Option Ip)
    → address_errors (some (cidr_ip, network)) bad first path second o ≡ []
    → (ip : Ip) × (o ≡ some ip) × (contains_ip network ip ≡ true)
unfolding address_errors inside_errors
address_errors-empty cidr_ip network bad path first second none h = cc h
address_errors-empty cidr_ip network bad path first second (some ip) h =
    (ip, refl, unless-empty _ _ h)

-- The same, where the CIDR parses to the network.
address_errors-inside :
    (cidr : Parsed) (cidr_ip : Ip) (network : IpNet) (bad path : Field) (first second : String)
    (o : Option Ip)
    → cidr ≡ some (cidr_ip, network)
    → address_errors cidr bad first path second o ≡ []
    → (ip : Ip) × (o ≡ some ip) × (contains_ip network ip ≡ true)
address_errors-inside cidr cidr_ip network bad path first second o parsed h =
    address_errors-empty cidr_ip network bad path first second o (cc (h, parsed))

order_errors-empty :
    (start end : Ip) → order_errors (some start) (some end) ≡ [] → not_below start end ≡ false
unfolding order_errors
order_errors-empty start end h = ground (arith, unless-empty _ _ h)

nameserver_errors-empty :
    (cidr_ip : Ip) (network : IpNet) (path : Field) (o : Option Ip)
    → nameserver_errors (some (cidr_ip, network)) path o ≡ []
    → (ip : Ip) × (o ≡ some ip)
      × ((length (mask_ip cidr_ip network.mask) == 0) ≡ false
          → length (mask_ip cidr_ip network.mask) ≡ short_length ip)
unfolding nameserver_errors version_errors
nameserver_errors-empty cidr_ip network path none h = cc h
nameserver_errors-empty cidr_ip network path (some ip) h = (ip, refl, λ known. ground arith)

nameservers_errors-empty :
    (net : NetText) (cidr_ip : Ip) (network : IpNet) (nameservers : List String)
    → nameservers_errors net (some (cidr_ip, network)) nameservers ≡ []
    → All (IsNameserver net (mask_ip cidr_ip network.mask)) nameservers
unfolding nameservers_errors
nameservers_errors-empty net cidr_ip network nameservers h =
    each_errors-All _ _ nameservers (IsNameserver net (mask_ip cidr_ip network.mask))
      (λ i ns.
        nameserver_errors-empty cidr_ip network (item "spec.nameservers" i) (net.parse_ip ns))
      0 nameservers h

nameservers_errors-NodupTexts :
    (net : NetText) (network : Parsed) (nameservers : List String)
    → nameservers_errors net network nameservers ≡ []
    → NodupTexts nameservers
unfolding nameservers_errors
nameservers_errors-NodupTexts net network nameservers h = each_errors-NodupTexts _ _ nameservers h

below_lt :
    (start end : Ip)
    → length start ≡ 16
    → length end ≡ 16
    → IsBytes start
    → IsBytes end
    → not_below start end ≡ false
    → value start < value end
below_lt start end s e hs he h = ground (arith, not_below_iff start end (s ∙ sym e) hs he)

-- A network that `ValidateCreate` admits has a CIDR, a start, an end and a gateway that parse, the
-- three addresses are of the CIDR, the start is below the end, no nameserver is there twice, and each
-- is an address that, in its shortest form, has as many bytes as the network's address, where that
-- is not nil.
pub validate_create-IsAdmitted :
    (net : NetText) (r : BareMetalNetwork)
    → ParsesSixteen net
    → validate_create net r ≡ []
    → IsAdmitted net r
unfolding validate_create
validate_create-IsAdmitted net r sixteen h =
    let cidr = net.parse_cidr r.spec.cidr in
    let start_text = net.parse_ip r.spec.start in
    let end_text = net.parse_ip r.spec.end in
    let at = field "spec.start" in
    let parts =
      collect-empty
        (cidr_errors cidr
          ∷ address_errors cidr at "invalid start address" at "start address is not in cidr"
              start_text
          ∷ address_errors cidr at "invalid end address" (field "spec.end")
              "end address is not in cidr" end_text
          ∷ order_errors start_text end_text
          ∷ address_errors cidr (field "spec.gateway") "invalid gateway address"
              (field "spec.gateway") "gateway address is not in cidr" (net.parse_ip r.spec.gateway)
          ∷ nameservers_errors net cidr r.spec.nameservers
          ∷ [])
        h in
    let ((cidr_ip, network), parsed) = cidr_errors-empty cidr parts.0 in
    let (start, hs, start_in) =
      address_errors-inside cidr cidr_ip network at at "invalid start address"
        "start address is not in cidr" start_text parsed parts.1.0 in
    let (end, he, end_in) =
      address_errors-inside cidr cidr_ip network at (field "spec.end") "invalid end address"
        "end address is not in cidr" end_text parsed parts.1.1.0 in
    let (gateway, hg, gateway_in) =
      address_errors-inside cidr cidr_ip network (field "spec.gateway") (field "spec.gateway")
        "invalid gateway address" "gateway address is not in cidr" (net.parse_ip r.spec.gateway)
        parsed parts.1.1.1.1.0 in
    let below : not_below start end ≡ false =
      order_errors-empty start end (cc (parts.1.1.1.0, hs, he)) in
    let (start_long, start_bytes) = sixteen _ _ hs in
    let (end_long, end_bytes) = sixteen _ _ he in
    record {
      cidr_ip = cidr_ip;
      network = network;
      start = start;
      end = end;
      gateway = gateway;
      cidr_parses = parsed;
      start_inside = (hs, start_in);
      end_inside = (he, end_in);
      gateway_inside = (hg, gateway_in);
      ordered = below_lt start end start_long end_long start_bytes end_bytes below;
      nameservers =
          nameservers_errors-empty net cidr_ip network r.spec.nameservers
            (cc (parts.1.1.1.1.1.0, parsed));
      distinct = nameservers_errors-NodupTexts net cidr r.spec.nameservers parts.1.1.1.1.1.0;
    }
