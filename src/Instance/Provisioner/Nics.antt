-- ===== src/Instance/Provisioner/Nics.antt =====
-- The networking of an instance on a hardware whose nics are there.
use kube_baremetal.Prelude.{
  ◌≡◌, subst, String, true, Option, none, some, List, [], ◌∷◌, ◌++◌, map, keep_if, any, ◌==◌,
  string_eq, inl, inr, Bool-cases, arith,
}
use kube_baremetal.Api.Discovery.{BareMetalDiscoveryHardware, BareMetalDiscoveryHardwareNic}
use kube_baremetal.Api.Hardware.{BareMetalHardware, BareMetalHardwareNic, BareMetalHardwareNicBond}
use kube_baremetal.Api.Endpoint.{BareMetalEndpoint, is_addressed}
use kube_baremetal.Api.Instance.{BareMetalInstance, instance_networked}
use kube_baremetal.Condition.{StatusCondition, set_condition, status_true}
use kube_baremetal.Client.{Server, Exec, Result}
use kube_baremetal.Client.Safe.{
  IsSafe, IsSafe-bind, IsSafe-if, IsSafe-or_fail, IsSafe-or_not_formed, IsSafe-write,
}
use kube_baremetal.Hardware.{every, has_nic, finds_nic, finds_nics}
use kube_baremetal.Instance.Provisioner.{put_status, new_condition, is_owned_by}
use kube_baremetal.Instance.Provisioner.Network.{
  macs_of, first_mac, interfaces_of, wait_for_addresses, create_for, check_endpoints, check_nics,
}

-- A bond has an interface, as the schema asks.
abbrev pub HasInterface : Option BareMetalHardwareNicBond → Type 0
HasInterface none = Unit
HasInterface (some bond) =
    (name : String) × (names : List String) × (bond.interfaces ≡ name ∷ names)

abbrev pub HaveInterfaces : List BareMetalHardwareNic → Type 0
HaveInterfaces [] = Unit
HaveInterfaces (nic ∷ nics) = HasInterface nic.bond × HaveInterfaces nics

abbrev IsCons : List String → Type 0
IsCons [] = ⊥
IsCons (x ∷ xs) = Unit

first_mac-IsCons : (macs : List String) → IsCons macs → IsSafe (first_mac macs)
unfolding first_mac
first_mac-IsCons [] c = absurd c
first_mac-IsCons (mac ∷ macs) c = record { not_panicked = tt }

IsCons-append : (xs ys : List String) → IsCons ys → IsCons (xs ++ ys)
IsCons-append [] ys c = c
IsCons-append (x ∷ xs) ys c = tt

-- The nic has the MAC address of its interface.
macs_of-IsCons-single :
    (name : String) (interfaces : List BareMetalDiscoveryHardwareNic)
    → any (λ interf. interf.name == name) interfaces ≡ true
    → IsCons (macs_of name none interfaces)
unfolding macs_of
macs_of-IsCons-single name [] found = absurd (ground arith)
macs_of-IsCons-single name (interf ∷ rest) found = elim (Bool-cases (interf.name == name)) [
  | inl here ↦ rw here tt
  | inr other ↦ rw other (macs_of-IsCons-single name rest (ground (arith, found, other)))
]

-- The bond has the MAC address of its first interface.
macs_of-IsCons-bond :
    (nic first : String) (names : List String) (bond : BareMetalHardwareNicBond)
    (interfaces : List BareMetalDiscoveryHardwareNic)
    → bond.interfaces ≡ first ∷ names
    → any (λ interf. interf.name == first) interfaces ≡ true
    → IsCons (macs_of nic (some bond) interfaces)
unfolding macs_of
macs_of-IsCons-bond nic first names bond [] shape found = absurd (ground arith)
macs_of-IsCons-bond nic first names bond (interf ∷ rest) shape found =
    elim (Bool-cases (interf.name == first)) [
      | inl here ↦ rw (shape, here) tt
      | inr other ↦
          IsCons-append (map (λ _. interf.mac) (keep_if (λ b. interf.name == b) bond.interfaces)) _
            (macs_of-IsCons-bond nic first names bond rest shape (ground (arith, found, other)))
    ]

macs_of-IsCons :
    (hardware : BareMetalDiscoveryHardware) (nic : BareMetalHardwareNic)
    (bond : Option BareMetalHardwareNicBond)
    → HasInterface bond
    → finds_nic hardware nic bond ≡ true
    → IsCons (macs_of nic.name bond hardware.nics)
macs_of-IsCons hardware nic none has found = macs_of-IsCons-single nic.name hardware.nics found
macs_of-IsCons hardware nic (some bond) (first, names, shape) found =
    macs_of-IsCons-bond nic.name first names bond hardware.nics shape
      (ground (arith, subst (λ interfaces. every (has_nic hardware) interfaces ≡ true) shape found))

pub put_status-IsSafe :
    (server : Server) (bmi : BareMetalInstance) (new : StatusCondition) (k : Exec Result)
    → IsSafe k
    → IsSafe (put_status server bmi new k)
unfolding put_status
put_status-IsSafe server bmi new k safe =
    IsSafe-bind _ _ (IsSafe-or_not_formed (set_condition new bmi.status.conditions))
      λ conditions. IsSafe-bind _ _ (IsSafe-write server _) λ _. safe

module _ (server : Server) (bmi : BareMetalInstance) (bmh : BareMetalHardware)
    (hardware : BareMetalDiscoveryHardware) (known : bmh.status.hardware ≡ some hardware) where
  wait_for_addresses-IsSafe : IsSafe (wait_for_addresses bmi)
  unfolding wait_for_addresses
  wait_for_addresses-IsSafe = record { not_panicked = tt }

  create_for-IsSafe :
      (nic : BareMetalHardwareNic)
      → HasInterface nic.bond
      → finds_nic hardware nic nic.bond ≡ true
      → IsSafe (create_for server bmi bmh nic)
  unfolding create_for interfaces_of
  create_for-IsSafe nic has found = rw known (
      IsSafe-bind (first_mac (macs_of nic.name nic.bond hardware.nics)) _
        (first_mac-IsCons _ (macs_of-IsCons hardware nic nic.bond has found))
        λ mac. IsSafe-bind _ _ (IsSafe-write server _) λ _. wait_for_addresses-IsSafe)

  check_endpoints-IsSafe :
      (nic : BareMetalHardwareNic) (bmes : List BareMetalEndpoint) (k : Exec Result)
      → HasInterface nic.bond
      → finds_nic hardware nic nic.bond ≡ true
      → IsSafe k
      → IsSafe (check_endpoints server bmi bmh nic bmes k)
  unfolding check_endpoints
  check_endpoints-IsSafe nic [] k has found safe = create_for-IsSafe nic has found
  check_endpoints-IsSafe nic (bme ∷ []) k has found safe =
      IsSafe-if (is_addressed bme.status.phase) k _ safe wait_for_addresses-IsSafe
  check_endpoints-IsSafe nic (bme ∷ other ∷ rest) k has found safe = record { not_panicked = tt }

  -- Where the nics of a hardware are found in its hardware information, and each bond has an
  -- interface, the networking of an instance on it does not panic, whatever the server answers.
  pub check_nics-IsSafe :
      (nics : List BareMetalHardwareNic)
      → finds_nics hardware nics ≡ true
      → HaveInterfaces nics
      → IsSafe (check_nics server bmi bmh nics)
  unfolding check_nics finds_nics
  check_nics-IsSafe [] found have =
      put_status-IsSafe server bmi (new_condition server instance_networked status_true "" "") _
        record { not_panicked = tt }
  check_nics-IsSafe (nic ∷ nics) found (has, have) =
      IsSafe-bind _ _
        (IsSafe-or_fail (server.list_endpoints_by_instance_nic bmi.meta.name nic.name))
        λ bmes.
          check_endpoints-IsSafe nic (keep_if (is_owned_by bmi) bmes) _ has (ground (arith, found))
            (check_nics-IsSafe nics (ground (arith, found)) have)
