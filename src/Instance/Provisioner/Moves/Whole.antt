-- ===== src/Instance/Provisioner/Moves/Whole.antt =====
-- Every step of the provisioner is one that it may make.
use kube_baremetal.Prelude.{
  ◌≡◌, ◌∙◌, refl, true, false, not, Option, none, some, string_eq, nat_eq, arith,
}
use kube_baremetal.Ip.Text.{NetText}
use kube_baremetal.Agent.Http.{Http}
use kube_baremetal.Api.Meta.{NamespacedName, deleting}
use kube_baremetal.Api.Hardware.{
  BareMetalHardware, BareMetalHardwareStatusInstanceRef,
  bare_metal_hardware_taint_key_not_ready as not_ready,
}
use kube_baremetal.Api.Instance.{
  BareMetalInstance, instance_scheduled, instance_networked, instance_imaged, is_provisioning,
}
use kube_baremetal.Condition.{
  StatusCondition, status_false, is_status_true, is_status_false, is_true,
}
use kube_baremetal.Client.{Server, Exec, Result, ok, completed}
use kube_baremetal.Client.Once.{Once, Once-if, Once-write, Once-weaken, Once-bind}
use kube_baremetal.Hardware.{has_taint}
use kube_baremetal.Instance.Provisioner.{condition_of, get_hardware_of, or_nil, refers_to}
use kube_baremetal.Instance.Provisioner.Claim.{claimed, check_reference, check_hardware}
use kube_baremetal.Instance.Provisioner.Claim
use kube_baremetal.Instance.Provisioner.Image.{Printer}
use kube_baremetal.Instance.Provisioner.Reconcile
use kube_baremetal.Instance.Provisioner.Moves.Cleaning.{clean-Moves}
use kube_baremetal.Instance.Provisioner.Moves.Imaging.{image_condition-Moves}
use kube_baremetal.Instance.Provisioner.Moves.Networking.{check_nics-Moves}
use kube_baremetal.Instance.Provisioner.Reconcile.{network_condition, provision}
use kube_baremetal.Instance.Provisioner.Move.{
  ProvisionMove, Move, cleans, provisions, claim, start_network,
}
use kube_baremetal.Instance.Provisioner.Premises.{Holds, IsProvisioning}
use kube_baremetal.Instance.Provisioner.Moves.{or_nil-IsQuiet, or_nil-some, put_status-Once}

module _ (server : Server) (http : Http) (printer : Printer) (net : NetText)
    (bmi : BareMetalInstance) where
  abbrev Moves : Exec Result → Type 0
  Moves m = Once (ProvisionMove server http printer net bmi) m

  module _ (bmh : BareMetalHardware) (p : IsProvisioning server bmi bmh) where
    claimed-Moves :
        (ref : Option BareMetalHardwareStatusInstanceRef) (k : Exec Result)
        → bmh.status.instance_ref ≡ ref
        → ((r : BareMetalHardwareStatusInstanceRef) → ref ≡ some r → Moves k)
        → Moves (claimed server bmi bmh ref k)
    unfolding claimed
    claimed-Moves none k r moves =
        Once-write _ server _ _ (record { none_written = refl }) (claim p r)
    claimed-Moves (some ref) k r moves = moves ref refl

    network_condition-Moves :
        (networked : Option StatusCondition)
        → Holds server bmi bmh
        → condition_of instance_networked bmi ≡ networked
        → Moves (network_condition server http printer net bmi bmh networked)
    unfolding network_condition
    network_condition-Moves none holds h =
        put_status-Once _ bmi server instance_networked status_false "" "" _
          (record { none_written = refl }) λ w r. start_network p holds h r
    network_condition-Moves (some networked) holds h =
        Once-if _ (is_status_false networked.status) _ _
          (λ f. check_nics-Moves server http printer net bmi bmh p holds (ground arith))
          λ _.
            Once-if _ (is_status_true networked.status) _ _
              (λ t.
                image_condition-Moves server http printer net bmi bmh
                  (condition_of instance_imaged bmi)
                  (record { provisioning = p; holds = holds; networked = ground arith }) refl)
              (λ _. record { at_most = tt })

  module _ (bmh : BareMetalHardware) (d : deleting bmi.meta ≡ false)
      (phase : is_provisioning bmi.status.phase ≡ true)
      (found : get_hardware_of server bmi ≡ ok bmh) (kept : deleting bmh.meta ≡ false) where
    abbrev next : Exec Result
    next = network_condition server http printer net bmi bmh (condition_of instance_networked bmi)

    claim-Moves :
        (ref : Option BareMetalHardwareStatusInstanceRef)
        → bmh.status.instance_ref ≡ ref
        → ((r : BareMetalHardwareStatusInstanceRef) → ref ≡ some r → refers_to bmi r ≡ true)
        → Moves (Claim.claim server bmi bmh ref next)
    unfolding Claim.claim
    claim-Moves ref r mine =
        Once-if _ (has_taint not_ready bmh.spec.taints) _ _ (λ _. record { at_most = tt })
          λ ready.
            let p : IsProvisioning server bmi bmh = record {
              stays = d;
              in_phase = phase;
              found = found;
              kept = kept;
              ready = ready;
            } in
            claimed-Moves bmh p ref next r λ own e.
              network_condition-Moves bmh p (condition_of instance_networked bmi)
                (record { ref = own; found = found; has_ref = r ∙ e; is_mine = mine own e }) refl

    check_reference-Moves :
        (ref : Option BareMetalHardwareStatusInstanceRef)
        → bmh.status.instance_ref ≡ ref
        → Moves (check_reference server bmi bmh ref next)
    unfolding check_reference Claim.cannot_provision
    check_reference-Moves none r = claim-Moves none r λ own e. cc
    check_reference-Moves (some ref) r =
        Once-if _ (not (refers_to bmi ref)) _ _ (λ _. record { at_most = tt })
          λ mine. claim-Moves (some ref) r λ own e. ground arith

  check_hardware-Moves :
      (bmh : Option BareMetalHardware)
      → deleting bmi.meta ≡ false
      → is_provisioning bmi.status.phase ≡ true
      → (or_nil (get_hardware_of server bmi)).0 ≡ completed bmh
      → Moves (
          check_hardware server bmi bmh λ b.
            network_condition server http printer net bmi b (condition_of instance_networked bmi))
  unfolding check_hardware Claim.cannot_provision
  check_hardware-Moves none d phase h = record { at_most = tt }
  check_hardware-Moves (some bmh) d phase h =
      Once-if _ (deleting bmh.meta) _ _ (λ _. record { at_most = tt })
        λ kept.
          check_reference-Moves bmh d phase (or_nil-some (get_hardware_of server bmi) bmh h) kept
            bmh.status.instance_ref refl

  provision-Moves : deleting bmi.meta ≡ false → Moves (provision server http printer net bmi)
  unfolding provision
  provision-Moves d =
      Once-if _ (not (is_provisioning bmi.status.phase)) _ _ (λ _. record { at_most = tt })
        λ phase.
          Once-bind _ (or_nil (get_hardware_of server bmi)) _ (or_nil-IsQuiet _)
            λ bmh h. check_hardware-Moves bmh d (ground arith) h

  handle-Moves :
      Once (Move server http printer net bmi) (Reconcile.handle server http printer net bmi)
  unfolding Reconcile.handle
  handle-Moves =
      Once-if _ (not (is_true (condition_of instance_scheduled bmi))) _ _
        (λ _. record { at_most = tt })
        λ held.
          Once-if _ (deleting bmi.meta) _ _
            (λ d. Once-weaken _ _ _ (clean-Moves server http bmi d) λ w m. cleans (ground arith) m)
            (λ d. Once-weaken _ _ _ (provision-Moves d) λ w m. provisions (ground arith) m)

-- `Provisioner.Reconcile` of a stored instance makes at most one step, and only of a scheduled
-- instance. Of an instance that is being deleted: the condition `InstanceCleaned`, the phases
-- Cleaning and Terminating, the request to the agent to clean, and the hardware without its
-- reference to the instance, only where the agent has ended the cleaning without an error. Of one
-- that is being provisioned, onto hardware that is not being deleted and does not have the taint
-- `not-ready`: the hardware with a reference to it where it had none; and, on hardware that refers to it, the conditions
-- `InstanceNetworkConfigured` and `InstanceImaged`, an endpoint for a nic that has none, the request
-- to the agent to image, and the phase Running where the instance is imaged.
pub provisioner_reconcile-Move :
    (server : Server) (http : Http) (printer : Printer) (net : NetText) (bmi : BareMetalInstance)
    (req : NamespacedName)
    → server.get_instance req ≡ ok bmi
    → Once (Move server http printer net bmi) (Reconcile.reconcile server http printer net req)
unfolding Reconcile.reconcile
provisioner_reconcile-Move server http printer net bmi req h =
    rw h (handle-Moves server http printer net bmi)
