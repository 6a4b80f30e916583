-- ===== src/Webhook/Endpoint/Update.antt =====
-- What an update of an endpoint that the webhook admits keeps, and an update that it never admits.
use kube_baremetal.Prelude.{
  ◌≡◌, ◌≢◌, refl, subst, Bool-cases, inl, inr, String, true, false, not, ◌||◌, Option, none, some,
  is_some, List, [], ◌∷◌, length, ◌==◌, nat_eq, string_eq, text_eq_iff, arith, All,
}
use kube_baremetal.Ip.{Ip, IpNet, mask_ip}
use kube_baremetal.Ip.Text.{NetText, ParsesSixteen}
use kube_baremetal.Api.Meta.{ObjectReference}
use kube_baremetal.Api.Endpoint.{BareMetalEndpoint, BareMetalEndpointStatusAddress, is_empty}
use kube_baremetal.Condition.{ConditionType, get_condition}
use kube_baremetal.Webhook.Conditions.{condition_errors, condition_errors-empty}
use kube_baremetal.Webhook.Duplicates.Nodup.{each_errors-All}
use kube_baremetal.Webhook.Error.{
  Field, field, item, forbidden, unless, unless-empty, collect-empty,
}
use kube_baremetal.Webhook.Endpoint.{
  DeepEqual, IsEquality, cidr_errors, ip_errors, length_errors, nameserver_errors,
  nameservers_errors, address_errors, status_errors, same_ref, validate_update,
}

pub record IsUpdate (r old : BareMetalEndpoint) : Type 0 where
  pub phase : is_empty old.status.phase ≡ false → is_empty r.status.phase ≡ false
  pub conditions :
      (t : ConditionType)
      → is_some (get_condition t old.status.conditions) ≡ true
      → is_some (get_condition t r.status.conditions) ≡ true
  pub mac : r.spec.mac ≡ old.spec.mac
  pub bond : r.spec.bond ≡ old.spec.bond
  pub network_ref : r.spec.network_ref ≡ old.spec.network_ref
  pub address : is_some r.status.address ≡ true → r.status.address ≡ old.status.address

same_ref-eq : (a b : ObjectReference) → same_ref a b ≡ true → a ≡ b
same_ref-eq a b h =
    ground
      (arith, text_eq_iff a.name b.name, text_eq_iff a.kind b.kind, text_eq_iff a.group b.group)

status_errors-empty :
    (net : NetText) (deep : DeepEqual) (new old : Option BareMetalEndpointStatusAddress)
    → status_errors net deep new old ≡ []
    → is_some new ≡ true
    → deep.same_address new old ≡ true
unfolding status_errors
status_errors-empty net deep none old h set = cc
status_errors-empty net deep (some address) old h set = ground arith

-- The checks, each without an error.
record IsPassed (net : NetText) (deep : DeepEqual) (r old : BareMetalEndpoint) : Type 0 where
  phase : (is_empty old.status.phase || not (is_empty r.status.phase)) ≡ true
  conditions : condition_errors r.status.conditions old.status.conditions ≡ []
  mac : (r.spec.mac == old.spec.mac) ≡ true
  bond : deep.same_bond r.spec.bond old.spec.bond ≡ true
  network_ref : same_ref r.spec.network_ref old.spec.network_ref ≡ true
  address : status_errors net deep r.status.address old.status.address ≡ []

validate_update-IsPassed :
    (net : NetText) (deep : DeepEqual) (r old : BareMetalEndpoint)
    → validate_update net deep r old ≡ []
    → IsPassed net deep r old
unfolding validate_update
validate_update-IsPassed net deep r old h =
    let phase = is_empty old.status.phase || not (is_empty r.status.phase) in
    let bond = deep.same_bond r.spec.bond old.spec.bond in
    let ref = same_ref r.spec.network_ref old.spec.network_ref in
    let parts =
      collect-empty
        (unless phase (forbidden (field "status.phase") "Cannot set phase to empty string")
          ∷ condition_errors r.status.conditions old.status.conditions
          ∷ unless (r.spec.mac == old.spec.mac)
              (forbidden (field "spec.mac") "Cannot change the mac")
          ∷ unless bond (forbidden (field "spec.bond") "Cannot change the bond")
          ∷ unless ref (forbidden (field "spec.networkRef") "Cannot change the networkRef")
          ∷ status_errors net deep r.status.address old.status.address
          ∷ [])
        h in
    record {
      phase = unless-empty phase _ parts.0;
      conditions = parts.1.0;
      mac = unless-empty (r.spec.mac == old.spec.mac) _ parts.1.1.0;
      bond = unless-empty bond _ parts.1.1.1.0;
      network_ref = unless-empty ref _ parts.1.1.1.1.0;
      address = parts.1.1.1.1.1.0;
    }

-- Where `DeepEqual` is an equality, an update that `ValidateUpdate` admits does not empty the phase, removes no condition, changes
-- neither the MAC address, nor the bond, nor the reference to the network, and leaves an endpoint
-- with an address only if it is the address that it had.
pub validate_update-IsUpdate :
    (net : NetText) (deep : DeepEqual) (r old : BareMetalEndpoint)
    → IsEquality deep
    → validate_update net deep r old ≡ []
    → IsUpdate r old
validate_update-IsUpdate net deep r old equality h =
    let p = validate_update-IsPassed net deep r old h in
    record {
      phase = λ e. ground (arith, p.phase);
      conditions =
          λ t. condition_errors-empty r.status.conditions old.status.conditions t p.conditions;
      mac = (text_eq_iff r.spec.mac old.spec.mac).0 p.mac;
      bond = equality.bond _ _ p.bond;
      network_ref = same_ref-eq r.spec.network_ref old.spec.network_ref p.network_ref;
      address = λ set.
          equality.address _ _
            (status_errors-empty net deep r.status.address old.status.address p.address set);
    }

-- The nameserver parses, to as many bytes as the address of the network has.
abbrev IsAlike : NetText → Ip → String → Type 0
IsAlike net network_ip ns =
    (ip : Ip) × (net.parse_ip ns ≡ some ip)
    × ((length network_ip == 0) ≡ false → length network_ip ≡ length ip)

nameserver_errors-empty :
    (cidr_ip : Ip) (network : IpNet) (path : Field) (o : Option Ip)
    → nameserver_errors (some (cidr_ip, network)) path o ≡ []
    → (ip : Ip) × (o ≡ some ip)
      × ((length (mask_ip cidr_ip network.mask) == 0) ≡ false
          → length (mask_ip cidr_ip network.mask) ≡ length ip)
unfolding nameserver_errors length_errors
nameserver_errors-empty cidr_ip network path none h = cc h
nameserver_errors-empty cidr_ip network path (some ip) h = (ip, refl, λ known. ground arith)

nameservers_errors-IsAlike :
    (net : NetText) (cidr_ip : Ip) (network : IpNet) (nameservers : List String)
    → nameservers_errors net (some (cidr_ip, network)) nameservers ≡ []
    → All (IsAlike net (mask_ip cidr_ip network.mask)) nameservers
unfolding nameservers_errors
nameservers_errors-IsAlike net cidr_ip network nameservers h =
    each_errors-All _ _ nameservers (IsAlike net (mask_ip cidr_ip network.mask))
      (λ i ns.
        nameserver_errors-empty cidr_ip network (item "status.address.nameservers" i)
          (net.parse_ip ns))
      0 nameservers h

address_errors-IsAlike :
    (net : NetText) (address : BareMetalEndpointStatusAddress) (cidr_ip : Ip) (network : IpNet)
    → net.parse_cidr address.cidr ≡ some (cidr_ip, network)
    → address_errors net address ≡ []
    → All (IsAlike net (mask_ip cidr_ip network.mask)) address.nameservers
unfolding address_errors
address_errors-IsAlike net address cidr_ip network parsed h =
    let cidr = net.parse_cidr address.cidr in
    let parts =
      collect-empty
        (cidr_errors cidr
          ∷ ip_errors cidr (field "status.address.ip") "invalid ip address" "ip is not in cidr"
              (net.parse_ip address.ip)
          ∷ ip_errors cidr (field "status.address.gateway") "invalid gateway address"
              "gateway is not in cidr" (net.parse_ip address.gateway)
          ∷ nameservers_errors net cidr address.nameservers
          ∷ [])
        h in
    nameservers_errors-IsAlike net cidr_ip network address.nameservers
      (subst (λ p. nameservers_errors net p address.nameservers ≡ []) parsed parts.1.1.1.0)

status_errors-address :
    (net : NetText) (deep : DeepEqual) (address : BareMetalEndpointStatusAddress)
    (old : Option BareMetalEndpointStatusAddress)
    → status_errors net deep (some address) old ≡ []
    → address_errors net address ≡ []
unfolding status_errors
status_errors-address net deep address old h =
    elim (Bool-cases (deep.same_address (some address) old)) [
      | inl same ↦ subst (λ es. es ≡ []) (rw same refl) h
      | inr other ↦ absurd (ground arith)
    ]

-- No update of an endpoint that keeps an address is admitted, where the network of the address is an
-- IPv4 network, of 4 bytes, and the address comes with a nameserver: the nameserver, parsed, has 16
-- bytes, and its length is compared with that of the network.
pub validate_update-nameservers :
    (net : NetText) (deep : DeepEqual) (r old : BareMetalEndpoint)
    (address : BareMetalEndpointStatusAddress) (cidr_ip : Ip) (network : IpNet) (ns : String)
    (rest : List String)
    → ParsesSixteen net
    → r.status.address ≡ some address
    → net.parse_cidr address.cidr ≡ some (cidr_ip, network)
    → length (mask_ip cidr_ip network.mask) ≡ 4
    → address.nameservers ≡ ns ∷ rest
    → validate_update net deep r old ≢ []
validate_update-nameservers net deep r old address cidr_ip network ns rest sixteen set parsed four
      named h =
    let p = validate_update-IsPassed net deep r old h in
    let checked = subst (λ o. status_errors net deep o old.status.address ≡ []) set p.address in
    let alike = subst (All (IsAlike net (mask_ip cidr_ip network.mask))) named (
      address_errors-IsAlike net address cidr_ip network parsed
        (status_errors-address net deep address old.status.address checked)) in
    let (ip, parses, same_length) = alike.0 in
    let known : (length (mask_ip cidr_ip network.mask) == 0) ≡ false = ground arith in
    omega (arith, same_length known, (sixteen ns ip parses).0, four)
