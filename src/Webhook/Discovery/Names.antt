-- ===== src/Webhook/Discovery/Names.antt =====
-- What `validateHardware` of webhooks/baremetaldiscovery_webhook.go makes sure of.
use kube_baremetal.Prelude.{
  ℕ, ◌+◌, ◌≡◌, ◌≢◌, refl, String, not, is_some, List, [], ◌∷◌, ◌++◌, map, All, Any, inl, inr, ◌∙◌,
  ◌==◌, nat_eq, string_eq, text_eq_iff, arith,
}
use kube_baremetal.Ip.Text.{NetText}
use kube_baremetal.Api.Discovery.{
  BareMetalDiscoveryHardware, BareMetalDiscoveryHardwareStorage, BareMetalDiscoveryHardwareNic,
}
use kube_baremetal.Webhook.Duplicates.Nodup.{NodupTexts}
use kube_baremetal.Webhook.Error.{
  Field, field, item, invalid, duplicate, unless, append-empty, unless-empty, collect-empty,
}
use kube_baremetal.Webhook.Endpoint.{mac_errors}
use kube_baremetal.Webhook.Endpoint.Create.{IsMac}
use kube_baremetal.Webhook.Discovery.{seen_errors, storage_errors, nic_errors, hardware_errors}

pub record IsComplete (net : NetText) (hardware : BareMetalDiscoveryHardware) : Type 0 where
  pub has_cpus : hardware.cpu.cpus ≢ 0
  pub has_ram : hardware.ram ≢ 0
  pub storage : NodupTexts (map (λ storage. storage.name) hardware.storage)
  pub nics : NodupTexts (map (λ nic. nic.name) hardware.nics)
  pub macs : All (λ nic. IsMac net nic.mac) hardware.nics

seen_errors-empty :
    (path : Field) (s : String) (seen : List String)
    → seen_errors path s seen ≡ []
    → All (λ t. t ≢ s) seen
unfolding seen_errors
seen_errors-empty path s [] h = tt
seen_errors-empty path s (name ∷ names) h =
    let (here, later) =
      append-empty (unless (not (name == s)) (duplicate path s)) (seen_errors path s names) h in
    (
      ground (arith, text_eq_iff name s, unless-empty (not (name == s)) _ here),
      seen_errors-empty path s names later,
    )

-- The names that come are none that were seen, and distinct.
abbrev Apart : List String → List String → Type 0
Apart seen [] = Unit
Apart seen (s ∷ rest) = All (λ t. t ≢ s) seen × Apart (seen ++ s ∷ []) rest

Any-last : (P : String → Type 0) (xs : List String) (x : String) → P x → Any P (xs ++ x ∷ [])
Any-last P [] x p = inl p
Any-last P (y ∷ xs) x p = inr (Any-last P xs x p)

Any-append : (P : String → Type 0) (xs : List String) (x : String) → Any P xs → Any P (xs ++ x ∷ [])
Any-append P [] x p = absurd p
Any-append P (y ∷ xs) x (inl p) = inl p
Any-append P (y ∷ xs) x (inr p) = inr (Any-append P xs x p)

-- A text that is there is not one that none of them is.
All-Any : (xs : List String) (s t : String) → All (λ x. x ≢ t) xs → Any (λ x. x ≡ s) xs → s ≢ t
All-Any [] s t all there = absurd there
All-Any (x ∷ xs) s t (apart, rest) (inl same) = λ e. apart (same ∙ e)
All-Any (x ∷ xs) s t (apart, rest) (inr there) = All-Any xs s t rest there

-- A text that was seen is none of those that come.
Apart-All :
    (seen rest : List String) (s : String)
    → Apart seen rest
    → Any (λ x. x ≡ s) seen
    → All (λ t. s ≢ t) rest
Apart-All seen [] s h there = tt
Apart-All seen (t ∷ rest) s (apart, h) there =
    (All-Any seen s t apart there, Apart-All (seen ++ t ∷ []) rest s h (Any-append _ seen t there))

Apart-NodupTexts : (seen rest : List String) → Apart seen rest → NodupTexts rest
Apart-NodupTexts seen [] h = tt
Apart-NodupTexts seen (s ∷ rest) (apart, h) = (
  Apart-All (seen ++ s ∷ []) rest s h (Any-last _ seen s refl),
  Apart-NodupTexts (seen ++ s ∷ []) rest h,
)

storage_errors-Apart :
    (seen : List String) (i : ℕ) (storage : List BareMetalDiscoveryHardwareStorage)
    → storage_errors seen i storage ≡ []
    → Apart seen (map (λ s. s.name) storage)
unfolding storage_errors
storage_errors-Apart seen i [] h = tt
storage_errors-Apart seen i (s ∷ rest) h =
    let (here, later) =
      append-empty (seen_errors (item "status.hardware.storage" i) s.name seen)
        (storage_errors (seen ++ s.name ∷ []) (i + 1) rest) h in
    (
      seen_errors-empty (item "status.hardware.storage" i) s.name seen here,
      storage_errors-Apart (seen ++ s.name ∷ []) (i + 1) rest later,
    )

nic_errors-Apart :
    (net : NetText) (seen : List String) (i : ℕ) (nics : List BareMetalDiscoveryHardwareNic)
    → nic_errors net seen i nics ≡ []
    → Apart seen (map (λ nic. nic.name) nics) × All (λ nic. IsMac net nic.mac) nics
unfolding nic_errors
nic_errors-Apart net seen i [] h = (tt, tt)
nic_errors-Apart net seen i (nic ∷ rest) h =
    let path = item "status.hardware.nics" i in
    let parts =
      collect-empty
        (mac_errors net path nic.mac
          ∷ seen_errors path nic.name seen
          ∷ nic_errors net (seen ++ nic.name ∷ []) (i + 1) rest
          ∷ [])
        h in
    let (apart, macs) = nic_errors-Apart net (seen ++ nic.name ∷ []) (i + 1) rest parts.1.1.0 in
    (
      (seen_errors-empty path nic.name seen parts.1.0, apart),
      (unless-empty (is_some (net.parse_mac nic.mac)) _ parts.0, macs),
    )

-- Hardware information that `validateHardware` finds no error in has processors and memory, no two
-- of its disks have one name, no two of its nics do, and the MAC address of each nic parses.
pub hardware_errors-IsComplete :
    (net : NetText) (hardware : BareMetalDiscoveryHardware)
    → hardware_errors net hardware ≡ []
    → IsComplete net hardware
unfolding hardware_errors
hardware_errors-IsComplete net hardware h =
    let parts =
      collect-empty
        (unless (not (hardware.cpu.cpus == 0))
            (invalid (field "status.hardware.cpu.cpus") "CPU quantity cannot be zero")
          ∷ unless (not (hardware.ram == 0))
              (invalid (field "status.hardware.ram") "Memory quantity cannot be zero")
          ∷ storage_errors [] 0 hardware.storage
          ∷ nic_errors net [] 0 hardware.nics
          ∷ [])
        h in
    let (apart, macs) = nic_errors-Apart net [] 0 hardware.nics parts.1.1.1.0 in
    record {
      has_cpus = λ e. ground (arith, unless-empty (not (hardware.cpu.cpus == 0)) _ parts.0);
      has_ram = λ e. ground (arith, unless-empty (not (hardware.ram == 0)) _ parts.1.0);
      storage =
          Apart-NodupTexts [] (map (λ s. s.name) hardware.storage)
            (storage_errors-Apart [] 0 hardware.storage parts.1.1.0);
      nics = Apart-NodupTexts [] (map (λ nic. nic.name) hardware.nics) apart;
      macs = macs;
    }
