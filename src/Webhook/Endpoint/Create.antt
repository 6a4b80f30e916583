-- ===== src/Webhook/Endpoint/Create.antt =====
-- What `ValidateCreate` of webhooks/baremetalendpoint_webhook.go makes sure of.
use kube_baremetal.Prelude.{
  ◌≡◌, subst, String, true, not, Option, none, some, is_some, [], ◌∷◌, All, arith,
}
use kube_baremetal.Ip.Text.{NetText}
use kube_baremetal.Api.Endpoint.{BareMetalEndpoint, BareMetalEndpointBond}
use kube_baremetal.Webhook.Duplicates.Nodup.{NodupTexts, each_errors-NodupTexts, each_errors-All}
use kube_baremetal.Webhook.Error.{field, forbidden, unless, unless-empty, collect-empty}
use kube_baremetal.Webhook.Endpoint.{mac_errors, bond_errors, validate_create}

-- The text is a MAC address.
abbrev pub IsMac : NetText → String → Type 0
IsMac net mac = is_some (net.parse_mac mac) ≡ true

pub record IsCreated (net : NetText) (r : BareMetalEndpoint) : Type 0 where
  pub unaddressed : is_some r.status.address ≡ true → ⊥
  pub mac : IsMac net r.spec.mac
  pub bond :
      (bond : BareMetalEndpointBond)
      → r.spec.bond ≡ some bond
      → All (IsMac net) bond.macs × NodupTexts bond.macs

bond_errors-empty :
    (net : NetText) (o : Option BareMetalEndpointBond) (bond : BareMetalEndpointBond)
    → o ≡ some bond
    → bond_errors net o ≡ []
    → All (IsMac net) bond.macs × NodupTexts bond.macs
unfolding bond_errors
bond_errors-empty net none bond e h = absurd (ground arith)
bond_errors-empty net (some b) bond e h =
    subst (λ m. All (IsMac net) m × NodupTexts m) (ground arith)
      (
        each_errors-All _ _ b.macs (IsMac net)
            (λ i mac. unless-empty (is_some (net.parse_mac mac)) _) 0 b.macs h,
        each_errors-NodupTexts _ _ b.macs h,
      )

-- An endpoint that `ValidateCreate` admits has no address yet, its MAC address parses, and so does
-- each address of its bond, of which no two are the same.
pub validate_create-IsCreated :
    (net : NetText) (r : BareMetalEndpoint) → validate_create net r ≡ [] → IsCreated net r
unfolding validate_create
validate_create-IsCreated net r h =
    let parts =
      collect-empty
        (unless (not (is_some r.status.address))
            (forbidden (field "status.address") "Cannot have address set when creating")
          ∷ bond_errors net r.spec.bond
          ∷ mac_errors net (field "spec.mac") r.spec.mac
          ∷ [])
        h in
    record {
      unaddressed = λ set. ground (arith, unless-empty (not (is_some r.status.address)) _ parts.0);
      mac = unless-empty (is_some (net.parse_mac r.spec.mac)) _ parts.1.1.0;
      bond = λ bond e. bond_errors-empty net r.spec.bond bond e parts.1.0;
    }
