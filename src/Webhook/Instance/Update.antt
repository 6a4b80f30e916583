-- ===== src/Webhook/Instance/Update.antt =====
-- What an update of an instance that the webhook admits keeps.
use kube_baremetal.Prelude.{
  ◌≡◌, ◌≢◌, true, false, not, ◌||◌, Option, none, some, is_some, [], ◌∷◌, ◌==◌, string_eq,
  text_eq_iff, arith,
}
use kube_baremetal.Ip.Text.{NetText}
use kube_baremetal.Api.Meta.{deleting}
use kube_baremetal.Api.Instance.{
  BareMetalInstance, BareMetalInstanceStatusAgentInfo, BareMetalInstanceStatusPhase, is_empty,
  is_provisioning, is_cleaning,
}
use kube_baremetal.Condition.{ConditionType, get_condition}
use kube_baremetal.Webhook.Error.{field, forbidden, invalid, unless, collect-empty, unless-empty}
use kube_baremetal.Webhook.Conditions.{condition_errors, condition_errors-empty}
use kube_baremetal.Webhook.Instance.{DeepEqual, IsEquality, agent_errors, validate_update}

pub record Keeps (net : NetText) (r old : BareMetalInstance) : Type 0 where
  pub phase : is_empty old.status.phase ≡ false → is_empty r.status.phase ≡ false
  pub conditions :
      (t : ConditionType)
      → is_some (get_condition t old.status.conditions) ≡ true
      → is_some (get_condition t r.status.conditions) ≡ true
  pub selector : r.spec.selector ≡ old.spec.selector
  pub tolerations : r.spec.tolerations ≡ old.spec.tolerations
  pub agent :
      (info : BareMetalInstanceStatusAgentInfo)
      → r.status.agent_info ≡ some info
      → ((is_provisioning r.status.phase || is_cleaning r.status.phase) ≡ true)
        × (is_some (net.parse_ip info.ip) ≡ true)
  pub hardware :
      deleting r.meta ≡ false
      → old.status.hardware_name ≢ ""
      → r.status.hardware_name ≡ old.status.hardware_name

agent_errors-empty :
    (net : NetText) (phase : BareMetalInstanceStatusPhase)
    (o : Option BareMetalInstanceStatusAgentInfo) (info : BareMetalInstanceStatusAgentInfo)
    → agent_errors net phase o ≡ []
    → o ≡ some info
    → ((is_provisioning phase || is_cleaning phase) ≡ true)
      × (is_some (net.parse_ip info.ip) ≡ true)
unfolding agent_errors
agent_errors-empty net phase none info h e = absurd (ground arith)
agent_errors-empty net phase (some agent) info h e =
    let parts =
      collect-empty
        (unless (is_provisioning phase || is_cleaning phase)
            (forbidden (field "status.agentInfo") "Cannot set agentInfo during the current phase")
          ∷ unless (is_some (net.parse_ip agent.ip))
              (invalid (field "status.agentInfo.ip") "invalid agent ip")
          ∷ [])
        h in
    let parses = unless-empty (is_some (net.parse_ip agent.ip)) _ parts.1.0 in
    (unless-empty _ _ parts.0, cc (parses, e))

-- Where `DeepEqual` is an equality, an update that `ValidateUpdate` admits does not empty the phase, removes no condition, changes
-- neither selector nor tolerations, has an agent only while provisioning or cleaning and with an
-- address that parses, and, while the instance is not being deleted, keeps a hardware name that is
-- set.
pub validate_update-Keeps :
    (net : NetText) (deep : DeepEqual) (r old : BareMetalInstance)
    → IsEquality deep
    → validate_update net deep r old ≡ []
    → Keeps net r old
unfolding validate_update
validate_update-Keeps net deep r old equality h =
    let same_phase = is_empty old.status.phase || not (is_empty r.status.phase) in
    let same_selector = deep.same_selector r.spec.selector old.spec.selector in
    let same_tolerations = deep.same_tolerations r.spec.tolerations old.spec.tolerations in
    let same_hardware =
      deleting r.meta
      || old.status.hardware_name == ""
      || r.status.hardware_name == old.status.hardware_name in
    let parts =
      collect-empty
        (unless same_phase (forbidden (field "status.phase") "Cannot set phase to empty string")
          ∷ condition_errors r.status.conditions old.status.conditions
          ∷ unless same_selector (forbidden (field "spec.selector") "Cannot change the selector")
          ∷ unless same_tolerations
              (forbidden (field "spec.tolerations") "Cannot change the tolerations")
          ∷ agent_errors net r.status.phase r.status.agent_info
          ∷ unless same_hardware
              (forbidden (field "status.hardwareName") "Cannot change the scheduled hardware name")
          ∷ [])
        h in
    let phase_kept = unless-empty same_phase _ parts.0 in
    let hardware_kept = unless-empty same_hardware _ parts.1.1.1.1.1.0 in
    record {
      phase = λ e. ground arith;
      conditions =
          λ t. condition_errors-empty r.status.conditions old.status.conditions t parts.1.0;
      selector = equality.selector _ _ (unless-empty same_selector _ parts.1.1.0);
      tolerations = equality.tolerations _ _ (unless-empty same_tolerations _ parts.1.1.1.0);
      agent =
          λ info. agent_errors-empty net r.status.phase r.status.agent_info info parts.1.1.1.1.0;
      hardware = λ d n. ground (
        arith,
        text_eq_iff r.status.hardware_name old.status.hardware_name,
        text_eq_iff old.status.hardware_name "",
      );
    }
