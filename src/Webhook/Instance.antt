-- ===== src/Webhook/Instance.antt =====
-- `BareMetalInstanceWebhook` of webhooks/baremetalinstance_webhook.go
pub mod Update
use kube_baremetal.Prelude.{
  ◌≡◌, String, Bool, true, false, not, ◌&&◌, ◌||◌, Option, none, some, is_some, List, [], ◌∷◌, ◌++◌,
  length, ◌==◌, nat_eq, string_eq, if◌then◌else◌,
}
use kube_baremetal.Ip.Text.{NetText}
use kube_baremetal.Api.Meta.{deleting}
use kube_baremetal.Api.Instance.{
  BareMetalInstance, BareMetalInstanceStatusAgentInfo, BareMetalInstanceStatusPhase, Toleration,
  bare_metal_instance_finalizer, is_empty, is_provisioning, is_cleaning,
}
use kube_baremetal.Finalizer.{has_finalizer}
use kube_baremetal.Webhook.Conditions.{condition_errors}
use kube_baremetal.Webhook.Error.{field, FieldError, forbidden, invalid, unless, collect}

-- `reflect.DeepEqual` on the selectors and on the tolerations.
pub record DeepEqual : Type 0 where
  pub same_selector : List (String × String) → List (String × String) → Bool
  pub same_tolerations : List Toleration → List Toleration → Bool

-- Its documented behaviour: what is deeply equal is equal.
pub record IsEquality (deep : DeepEqual) : Type 0 where
  pub selector : (a b : List (String × String)) → deep.same_selector a b ≡ true → a ≡ b
  pub tolerations : (a b : List Toleration) → deep.same_tolerations a b ≡ true → a ≡ b

-- `Default`: the finalizer is added where it is missing.
unfoldable pub default : BareMetalInstance → BareMetalInstance
default r =
    if deleting r.meta
    then r
    else if has_finalizer r.meta bare_metal_instance_finalizer
    then r
    else record r {
      meta = record r.meta { finalizers = r.meta.finalizers ++ bare_metal_instance_finalizer ∷ [] };
    }

-- `ValidateCreate`
unfoldable pub validate_create : BareMetalInstance → List FieldError
validate_create r = collect (
    unless (r.status.hardware_name == "")
      (forbidden (field "status.hardwareName") "Cannot set hardware name during creation")
    ∷ unless (not (is_some r.status.agent_info))
        (forbidden (field "status.agentInfo") "Cannot set agentInfo during creation")
    ∷ [])

-- The block under `r.Status.AgentInfo != nil`.
unfoldable pub agent_errors :
    NetText
    → BareMetalInstanceStatusPhase
    → Option BareMetalInstanceStatusAgentInfo
    → List FieldError
agent_errors net phase none = []
agent_errors net phase (some info) = collect (
    unless (is_provisioning phase || is_cleaning phase)
      (forbidden (field "status.agentInfo") "Cannot set agentInfo during the current phase")
    ∷ unless (is_some (net.parse_ip info.ip))
        (invalid (field "status.agentInfo.ip") "invalid agent ip")
    ∷ [])

-- `ValidateUpdate`
unfoldable pub validate_update :
    NetText → DeepEqual → BareMetalInstance → BareMetalInstance → List FieldError
unfolding condition_errors agent_errors
validate_update net deep r old = collect (
    unless (is_empty old.status.phase || not (is_empty r.status.phase))
      (forbidden (field "status.phase") "Cannot set phase to empty string")
    ∷ condition_errors r.status.conditions old.status.conditions
    ∷ unless (deep.same_selector r.spec.selector old.spec.selector)
        (forbidden (field "spec.selector") "Cannot change the selector")
    ∷ unless (deep.same_tolerations r.spec.tolerations old.spec.tolerations)
        (forbidden (field "spec.tolerations") "Cannot change the tolerations")
    ∷ agent_errors net r.status.phase r.status.agent_info
    ∷ unless
        (deleting r.meta
          || old.status.hardware_name == ""
          || r.status.hardware_name == old.status.hardware_name)
        (forbidden (field "status.hardwareName") "Cannot change the scheduled hardware name")
    ∷ [])
