-- ===== src/Instance/Provisioner/Clean.antt =====
-- `Provisioner.Reconcile` of controllers/baremetalinstance/provisioner.go, for an instance that is
-- being deleted.
use kube_baremetal.Prelude.{
  String, not, Option, none, some, ◌||◌, ◌==◌, nat_eq, string_eq, if◌then◌else◌,
}
use kube_baremetal.Agent.{Status, cleaning_action_type, post_clean}
use kube_baremetal.Agent.Http.{Http}
use kube_baremetal.Api.Hardware.{BareMetalHardware, BareMetalHardwareStatusInstanceRef}
use kube_baremetal.Api.Instance.{
  BareMetalInstance, BareMetalInstanceStatusAgentInfo, instance_cleaned, cleaning, terminating,
  is_cleaning, is_terminating, is_terminated,
}
use kube_baremetal.Condition.{
  StatusCondition, status_true, status_false, is_status_true, is_status_error,
}
use kube_baremetal.Client.{
  Server, Exec, Result, ◌>>=◌, ◌>>◌, write, normal, warning, update_hardware_status, done,
  requeue_after,
}
use kube_baremetal.Instance.Provisioner.{
  condition_of, say, say_of, put_status, new_condition, put_instance, with_phase, without_agent,
  with_ref, get_hardware_of, or_nil, refers_to,
}
use kube_baremetal.Instance.Provisioner.Agent.{agent_status, or_agent_error, post, follow}

-- The agent has finished: the hardware is free.
unfoldable pub free_hardware : Server → BareMetalInstance → BareMetalHardware → Exec Result
free_hardware server bmi bmh = do
  say bmi normal "AgentFinished"
  write server (update_hardware_status (with_ref none bmh))
  say bmi normal "InstanceCleaned"
  say_of bmh normal "HardwareCleaned"
  done

-- What the agent does decides.
unfoldable pub follow_cleaning :
    Server → Http → BareMetalInstance → BareMetalHardware → String → Option Status → Exec Result
unfolding post follow free_hardware
follow_cleaning server http bmi bmh ip none = do
  say bmi normal "InstanceCleaning"
  say_of bmh normal "HardwareCleaning"
  post http bmi (post_clean ip)
follow_cleaning server http bmi bmh ip (some status) =
    follow server bmi cleaning_action_type instance_cleaned "CleaningFailed" status
      (free_hardware server bmi bmh)

-- The hardware refers to the instance: its agent has to clean it.
unfoldable pub clean_with_agent :
    Server
    → Http
    → BareMetalInstance
    → BareMetalHardware
    → Option BareMetalInstanceStatusAgentInfo
    → Exec Result
unfolding agent_status or_agent_error follow_cleaning
clean_with_agent server http bmi bmh none = do say bmi warning "InstanceNoAgent"; requeue_after 60
clean_with_agent server http bmi bmh (some agent) = do
  status ← or_agent_error bmi (agent_status http agent.ip)
  follow_cleaning server http bmi bmh agent.ip status

-- The instance cannot, or should not, be cleaned.
unfoldable pub skip_cleaning : Server → BareMetalInstance → Exec Result
unfolding put_instance
skip_cleaning server bmi = do
  say bmi warning "InstanceNotCleaned"
  put_instance server (with_phase terminating bmi)

-- The reference of the hardware, read.
unfoldable pub clean_reference :
    Server
    → Http
    → BareMetalInstance
    → BareMetalHardware
    → Option BareMetalHardwareStatusInstanceRef
    → Exec Result
unfolding skip_cleaning put_status clean_with_agent
clean_reference server http bmi bmh none =
    put_status server bmi (new_condition server instance_cleaned status_true "" "")
      (do say bmi normal "InstanceCleaned"; done)
clean_reference server http bmi bmh (some ref) =
    if not (refers_to bmi ref)
    then skip_cleaning server bmi
    else clean_with_agent server http bmi bmh bmi.status.agent_info

-- The hardware, which may be gone.
unfoldable pub clean_hardware :
    Server → Http → BareMetalInstance → Option BareMetalHardware → Exec Result
unfolding skip_cleaning clean_reference
clean_hardware server http bmi none = skip_cleaning server bmi
clean_hardware server http bmi (some bmh) =
    clean_reference server http bmi bmh bmh.status.instance_ref

-- The condition `InstanceCleaned`, read.
unfoldable pub clean_condition :
    Server → Http → BareMetalInstance → Option StatusCondition → Exec Result
unfolding put_status put_instance or_nil clean_hardware
clean_condition server http bmi none =
    put_status server bmi (new_condition server instance_cleaned status_false "" "") done
clean_condition server http bmi (some cleaned) =
    if is_status_true cleaned.status
    then put_instance server (without_agent (with_phase terminating bmi))
    else if is_status_error cleaned.status
    then done
    else if not (is_cleaning bmi.status.phase)
    then put_instance server (with_phase cleaning bmi)
    else if bmi.status.hardware_name == ""
    then put_instance server (with_phase terminating bmi)
    else do bmh ← or_nil (get_hardware_of server bmi); clean_hardware server http bmi bmh

-- The block under `bmi.DeletionTimestamp.IsZero() == false`.
unfoldable pub clean : Server → Http → BareMetalInstance → Exec Result
unfolding clean_condition
clean server http bmi =
    if is_terminating bmi.status.phase || is_terminated bmi.status.phase
    then done
    else clean_condition server http bmi (condition_of instance_cleaned bmi)
