-- ===== src/Instance/Provisioner/Move.antt =====
-- What `Provisioner.Reconcile` may write, and what it may ask the agent for, and when.
use kube_baremetal.Prelude.{
  ◌≡◌, ◌⊎◌, true, false, none, some, is_some, List, [], ◌∷◌, keep_if, All, Any, String, ◌==◌,
  string_eq, nat_eq,
}
use kube_baremetal.Ip.Text.{NetText}
use kube_baremetal.Agent.{Status, imaging_action_type, cleaning_action_type, post_clean, post_image}
use kube_baremetal.Agent.Http.{Http}
use kube_baremetal.Api.Discovery.{BareMetalDiscoveryHardware}
use kube_baremetal.Api.Hardware.{
  BareMetalHardware, BareMetalHardwareNic, BareMetalHardwareStatusInstanceRef,
}
use kube_baremetal.Api.Endpoint.{BareMetalEndpoint}
use kube_baremetal.Api.Instance.{
  BareMetalInstance, instance_scheduled, instance_networked, instance_imaged, instance_cleaned,
  is_cleaning, cleaning, terminating, running,
}
use kube_baremetal.Condition.{status_true, status_false, status_error, is_true, is_false, is_error}
use kube_baremetal.Client.{
  Server, ok, err, not_found, completed, Write, called, update_hardware_status,
  update_instance_status, create_endpoint,
}
use kube_baremetal.Instance.Provisioner.{
  condition_of, with_phase, without_agent, with_ref, get_hardware_of, refers_to, is_owned_by,
}
use kube_baremetal.Instance.Provisioner.Claim.{ref_of}
use kube_baremetal.Instance.Provisioner.Network.{macs_of, endpoint_for}
use kube_baremetal.Instance.Provisioner.Links.{NetworkData, no_data, describe}
use kube_baremetal.Instance.Provisioner.Image.{Printer, image_request}
use kube_baremetal.Instance.Provisioner.Premises.{
  IsLeaving, IsCleaning, Holds, IsProvisioning, Answers, Ended, HasAddress, Reports, IsImaging,
  IsUnimaged,
}

-- A step for an instance that is being deleted.
pub data CleanMove (server : Server) (http : Http) (bmi : BareMetalInstance) : Write → Type 0 where
  start_cleaning :
      {w : Write}
      → IsLeaving bmi
      → condition_of instance_cleaned bmi ≡ none
      → Reports server bmi instance_cleaned status_false w
      → CleanMove server http bmi w
  enter_cleaning :
      IsLeaving bmi
      → is_some (condition_of instance_cleaned bmi) ≡ true
      → is_true (condition_of instance_cleaned bmi) ≡ false
      → is_error (condition_of instance_cleaned bmi) ≡ false
      → is_cleaning bmi.status.phase ≡ false
      → CleanMove server http bmi (update_instance_status (with_phase cleaning bmi))
  end_cleaning :
      IsLeaving bmi
      → is_true (condition_of instance_cleaned bmi) ≡ true
      → CleanMove server http bmi
          (update_instance_status (without_agent (with_phase terminating bmi)))
  no_hardware :
      IsCleaning bmi
      → (bmi.status.hardware_name == "") ≡ true
      → CleanMove server http bmi (update_instance_status (with_phase terminating bmi))
  lost_hardware :
      IsCleaning bmi
      → (get_hardware_of server bmi ≡ err not_found)
        ⊎ ((bmh : BareMetalHardware) × (ref : BareMetalHardwareStatusInstanceRef) × (get_hardware_of
                server bmi
              ≡ ok bmh)
            × (bmh.status.instance_ref ≡ some ref)
            × (refers_to bmi ref ≡ false))
      → CleanMove server http bmi (update_instance_status (with_phase terminating bmi))
  confirm_clean :
      {w : Write} {bmh : BareMetalHardware}
      → IsCleaning bmi
      → get_hardware_of server bmi ≡ ok bmh
      → bmh.status.instance_ref ≡ none
      → Reports server bmi instance_cleaned status_true w
      → CleanMove server http bmi w
  ask_clean :
      {bmh : BareMetalHardware} {ip : String}
      → IsCleaning bmi
      → Holds server bmi bmh
      → Answers http bmi ip none
      → CleanMove server http bmi (called (post_clean ip))
  fail_clean :
      {w : Write} {bmh : BareMetalHardware} {ip : String} {status : Status}
      → IsCleaning bmi
      → Holds server bmi bmh
      → Answers http bmi ip (some status)
      → Ended cleaning_action_type false status
      → Reports server bmi instance_cleaned status_error w
      → CleanMove server http bmi w
  free :
      {bmh : BareMetalHardware} {ip : String} {status : Status}
      → IsCleaning bmi
      → Holds server bmi bmh
      → Answers http bmi ip (some status)
      → Ended cleaning_action_type true status
      → CleanMove server http bmi (update_hardware_status (with_ref none bmh))

-- A step for an instance that is being provisioned.
pub data ProvisionMove (server : Server) (http : Http) (printer : Printer) (net : NetText)
    (bmi : BareMetalInstance) : Write → Type 0 where
  claim :
      {bmh : BareMetalHardware}
      → IsProvisioning server bmi bmh
      → bmh.status.instance_ref ≡ none
      → ProvisionMove server http printer net bmi
          (update_hardware_status (with_ref (some (ref_of bmi)) bmh))
  start_network :
      {w : Write} {bmh : BareMetalHardware}
      → IsProvisioning server bmi bmh
      → Holds server bmi bmh
      → condition_of instance_networked bmi ≡ none
      → Reports server bmi instance_networked status_false w
      → ProvisionMove server http printer net bmi w
  add_endpoint :
      {bmh : BareMetalHardware} {bmes : List BareMetalEndpoint}
      {hardware : BareMetalDiscoveryHardware} (nic : BareMetalHardwareNic) (mac : String)
      (macs : List String)
      → IsProvisioning server bmi bmh
      → Holds server bmi bmh
      → is_false (condition_of instance_networked bmi) ≡ true
      → Any (λ n. n ≡ nic) bmh.spec.nics
      → server.list_endpoints_by_instance_nic bmi.meta.name nic.name ≡ ok bmes
      → keep_if (is_owned_by bmi) bmes ≡ []
      → bmh.status.hardware ≡ some hardware
      → macs_of nic.name nic.bond hardware.nics ≡ mac ∷ macs
      → ProvisionMove server http printer net bmi
          (create_endpoint (endpoint_for bmi nic mac (mac ∷ macs)))
  confirm_network :
      {w : Write} {bmh : BareMetalHardware}
      → IsProvisioning server bmi bmh
      → Holds server bmi bmh
      → is_false (condition_of instance_networked bmi) ≡ true
      → All (HasAddress server bmi) bmh.spec.nics
      → Reports server bmi instance_networked status_true w
      → ProvisionMove server http printer net bmi w
  start_image :
      {w : Write} {bmh : BareMetalHardware}
      → IsImaging server bmi bmh
      → condition_of instance_imaged bmi ≡ none
      → Reports server bmi instance_imaged status_false w
      → ProvisionMove server http printer net bmi w
  run :
      {bmh : BareMetalHardware}
      → IsImaging server bmi bmh
      → is_true (condition_of instance_imaged bmi) ≡ true
      → ProvisionMove server http printer net bmi
          (update_instance_status (without_agent (with_phase running bmi)))
  ask_image :
      {bmes : List BareMetalEndpoint} {network_data : NetworkData} (bmh : BareMetalHardware)
      (ip text : String)
      → IsUnimaged server bmi bmh
      → Answers http bmi ip none
      → server.list_endpoints_by_instance bmi.meta.name ≡ ok bmes
      → (describe printer.itoa net (keep_if (is_owned_by bmi) bmes) no_data).0
        ≡ completed network_data
      → printer.marshal_network_data network_data ≡ ok text
      → ProvisionMove server http printer net bmi
          (called (post_image ip (image_request printer bmi bmh text)))
  fail_image :
      {w : Write} {bmh : BareMetalHardware} {ip : String} {status : Status}
      → IsUnimaged server bmi bmh
      → Answers http bmi ip (some status)
      → Ended imaging_action_type false status
      → Reports server bmi instance_imaged status_error w
      → ProvisionMove server http printer net bmi w
  confirm_image :
      {w : Write} {bmh : BareMetalHardware} {ip : String} {status : Status}
      → IsUnimaged server bmi bmh
      → Answers http bmi ip (some status)
      → Ended imaging_action_type true status
      → Reports server bmi instance_imaged status_true w
      → ProvisionMove server http printer net bmi w

-- A step of a scheduled instance.
pub data Move (server : Server) (http : Http) (printer : Printer) (net : NetText)
    (bmi : BareMetalInstance) : Write → Type 0 where
  cleans :
      {w : Write}
      → is_true (condition_of instance_scheduled bmi) ≡ true
      → CleanMove server http bmi w
      → Move server http printer net bmi w
  provisions :
      {w : Write}
      → is_true (condition_of instance_scheduled bmi) ≡ true
      → ProvisionMove server http printer net bmi w
      → Move server http printer net bmi w
