-- ===== src/Instance/Provisioner/Moves/Networking.antt =====
-- Every step of the provisioner for the endpoints of an instance is one that it may make.
use kube_baremetal.Prelude.{
  ◌≡◌, refl, true, Option, none, some, List, [], ◌∷◌, keep_if, All, Any, String, string_eq, nat_eq,
  arith, inl, inr,
}
use kube_baremetal.Ip.Text.{NetText}
use kube_baremetal.Agent.Http.{Http}
use kube_baremetal.Api.Discovery.{BareMetalDiscoveryHardware, BareMetalDiscoveryHardwareNic}
use kube_baremetal.Api.Hardware.{BareMetalHardware, BareMetalHardwareNic}
use kube_baremetal.Api.Endpoint.{BareMetalEndpoint, is_addressed}
use kube_baremetal.Api.Instance.{BareMetalInstance, instance_networked}
use kube_baremetal.Condition.{status_true, is_false}
use kube_baremetal.Client.{Server, Exec, Result, ok, completed, or_fail}
use kube_baremetal.Client.Once.{
  Once, IsQuiet, Once-if, Once-write, Once-bind, Once-quiet, or_fail-IsQuiet, or_fail-ok,
}
use kube_baremetal.Instance.Provisioner.{condition_of, is_owned_by}
use kube_baremetal.Instance.Provisioner.Network.{
  macs_of, interfaces_of, first_mac, wait_for_addresses, create_for, check_endpoints, check_nics,
}
use kube_baremetal.Instance.Provisioner.Image.{Printer}
use kube_baremetal.Instance.Provisioner.Move.{ProvisionMove, add_endpoint, confirm_network}
use kube_baremetal.Instance.Provisioner.Premises.{Holds, IsProvisioning, HasAddress}
use kube_baremetal.Instance.Provisioner.Moves.{put_status-Once}

interfaces_of-IsQuiet : (o : Option BareMetalDiscoveryHardware) → IsQuiet (interfaces_of o)
unfolding interfaces_of
interfaces_of-IsQuiet none = record { none_written = refl }
interfaces_of-IsQuiet (some h) = record { none_written = refl }

interfaces_of-some :
    (o : Option BareMetalDiscoveryHardware) (nics : List BareMetalDiscoveryHardwareNic)
    → (interfaces_of o).0 ≡ completed nics
    → (h : BareMetalDiscoveryHardware) × (o ≡ some h) × (h.nics ≡ nics)
unfolding interfaces_of
interfaces_of-some none nics h = cc
interfaces_of-some (some hardware) nics h = (hardware, refl, ground arith)

first_mac-IsQuiet : (macs : List String) → IsQuiet (first_mac macs)
unfolding first_mac
first_mac-IsQuiet [] = record { none_written = refl }
first_mac-IsQuiet (mac ∷ macs) = record { none_written = refl }

first_mac-some :
    (macs : List String) (mac : String)
    → (first_mac macs).0 ≡ completed mac
    → (rest : List String) × (macs ≡ mac ∷ rest)
unfolding first_mac
first_mac-some [] mac h = cc
first_mac-some (m ∷ macs) mac h = (macs, ground arith)

wait_for_addresses-IsQuiet : (bmi : BareMetalInstance) → IsQuiet (wait_for_addresses bmi)
unfolding wait_for_addresses
wait_for_addresses-IsQuiet bmi = record { none_written = refl }

module _ (server : Server) (http : Http) (printer : Printer) (net : NetText)
    (bmi : BareMetalInstance) where
  abbrev Moves : Exec Result → Type 0
  Moves m = Once (ProvisionMove server http printer net bmi) m

  module _ (bmh : BareMetalHardware) (p : IsProvisioning server bmi bmh)
      (holds : Holds server bmi bmh)
      (f : is_false (condition_of instance_networked bmi) ≡ true) where
    create_for-Moves :
        (nic : BareMetalHardwareNic) (bmes : List BareMetalEndpoint)
        → Any (λ n. n ≡ nic) bmh.spec.nics
        → server.list_endpoints_by_instance_nic bmi.meta.name nic.name ≡ ok bmes
        → keep_if (is_owned_by bmi) bmes ≡ []
        → Moves (create_for server bmi bmh nic)
    unfolding create_for
    create_for-Moves nic bmes member l e =
        Once-bind _ (interfaces_of bmh.status.hardware) _ (interfaces_of-IsQuiet _) λ interfaces i.
          let h = interfaces_of-some bmh.status.hardware interfaces i in
          Once-bind _ (first_mac (macs_of nic.name nic.bond interfaces)) _ (first_mac-IsQuiet _)
            λ mac m.
              let first = first_mac-some (macs_of nic.name nic.bond interfaces) mac m in
              Once-write _ server _ (wait_for_addresses bmi) (wait_for_addresses-IsQuiet bmi) (
                rw first.1 (add_endpoint nic mac first.0 p holds f member l e h.1 (rw h.2 first.1)))

    check_endpoints-Moves :
        (nic : BareMetalHardwareNic) (bmes ours : List BareMetalEndpoint) (k : Exec Result)
        → Any (λ n. n ≡ nic) bmh.spec.nics
        → server.list_endpoints_by_instance_nic bmi.meta.name nic.name ≡ ok bmes
        → keep_if (is_owned_by bmi) bmes ≡ ours
        → (HasAddress server bmi nic → Moves k)
        → Moves (check_endpoints server bmi bmh nic ours k)
    unfolding check_endpoints
    check_endpoints-Moves nic bmes [] k member l e go = create_for-Moves nic bmes member l e
    check_endpoints-Moves nic bmes (bme ∷ []) k member l e go =
        Once-if _ (is_addressed bme.status.phase) _ _
          (λ a. go (record { bmes = bmes; bme = bme; listed = l; only = e; has_phase = a }))
          (λ _. Once-quiet _ (wait_for_addresses bmi) (wait_for_addresses-IsQuiet bmi))
    check_endpoints-Moves nic bmes (bme ∷ other ∷ rest) k member l e go = record { at_most = tt }

    check_rest-Moves :
        (nics : List BareMetalHardwareNic)
        → ((nic : BareMetalHardwareNic)
            → Any (λ n. n ≡ nic) nics
            → Any (λ n. n ≡ nic) bmh.spec.nics)
        → (All (HasAddress server bmi) nics → All (HasAddress server bmi) bmh.spec.nics)
        → Moves (check_nics server bmi bmh nics)
    unfolding check_nics
    check_rest-Moves [] within rest =
        put_status-Once _ bmi server instance_networked status_true "" "" _
          (record { none_written = refl }) λ w r. confirm_network p holds f (rest tt) r
    check_rest-Moves (nic ∷ nics) within rest =
        Once-bind _ (or_fail (server.list_endpoints_by_instance_nic bmi.meta.name nic.name)) _
          (or_fail-IsQuiet _)
          λ bmes l.
            check_endpoints-Moves nic bmes (keep_if (is_owned_by bmi) bmes) _
              (within nic (inl refl)) (or_fail-ok _ bmes l) refl
              λ a.
                check_rest-Moves nics (λ other m. within other (inr m)) λ rest_of. rest (a, rest_of)

    pub check_nics-Moves : Moves (check_nics server bmi bmh bmh.spec.nics)
    check_nics-Moves = check_rest-Moves bmh.spec.nics (λ nic member. member) λ all. all
