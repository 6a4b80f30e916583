-- ===== src/Instance/Tests.antt =====
-- The scheduler among two hardwares: `spare` can be provisioned, `broken`, which the server lists
-- last, cannot.
use kube_baremetal.Prelude.{
  ◌≡◌, refl, ℕ, Bool, true, false, Option, none, some, String, [], ◌∷◌, ◌-◌, arith,
}
use kube_baremetal.Api.Meta.{ObjectMeta, name_of}
use kube_baremetal.Api.Hardware.{BareMetalHardware}
use kube_baremetal.Api.Instance.{
  BareMetalInstance, BareMetalInstanceStatusPhase, pending, terminated,
  bare_metal_instance_finalizer,
}
use kube_baremetal.Condition.{StatusCondition, status_false}
use kube_baremetal.Client.Example.{empty_server}
use kube_baremetal.Client.{Server, ok, update_instance_status}
use kube_baremetal.Client.Effects.{writes}
use kube_baremetal.Client.Once.{Once}
use kube_baremetal.Instance.Controller
use kube_baremetal.Instance.Release.{IsRelease, instance_reconcile-IsRelease}
use kube_baremetal.Instance.Hardware.{Tools, sort, draw}
use kube_baremetal.Instance.Scheduler
use kube_baremetal.Instance.Scheduler.{choose}
use kube_baremetal.Instance.Scheduler.Placing.{Places, choose-Places}
use kube_baremetal.Instance.Scheduler.Move.{IsMoveOf}
use kube_baremetal.Instance.Scheduler.Moves.{scheduler_reconcile-Move}

abbrev meta_of : String → Option ℕ → ObjectMeta
meta_of name deleted = record {
  name = name;
  generate_name = "";
  namespace = "default";
  uid = name;
  labels = [];
  owner_references = [];
  finalizers = bare_metal_instance_finalizer ∷ "other" ∷ [];
  deletion_timestamp = deleted;
}

abbrev hardware : String → Bool → BareMetalHardware
hardware name can_provision = record {
  meta = meta_of name none;
  spec = record {
    system_uuid = name;
    can_provision = can_provision;
    image_drive = "/dev/sda";
    nics = [];
    taints = [];
  };
  status = record { conditions = []; instance_ref = none; hardware = none };
}

abbrev not_scheduled : StatusCondition
not_scheduled = record {
  type = "InstanceScheduled";
  status = status_false;
  last_transition_time = some 1;
  reason = "";
  message = "";
}

abbrev instance_of : BareMetalInstanceStatusPhase → Option ℕ → BareMetalInstance
instance_of phase deleted = record {
  api_version = "baremetal.com.rmb938/v1alpha1";
  kind = "BareMetalInstance";
  meta = meta_of "web" deleted;
  spec = record { selector = []; tolerations = [] };
  status = record {
    conditions = not_scheduled ∷ [];
    agent_info = none;
    hardware_name = "";
    phase = phase;
  };
}

abbrev web : BareMetalInstance
web = instance_of pending none

abbrev server_of : BareMetalInstance → Server
server_of bmi = record empty_server {
  get_instance = λ _. ok bmi;
  list_hardware_in_namespace = λ _. ok (hardware "spare" true ∷ hardware "broken" false ∷ []);
}

abbrev tools : Tools
tools = record { tolerates_taint = λ _ _. false; matches = λ _ _. false; intn = λ n. n - 1 }

-- The instance is given the hardware that cannot be provisioned.
web_given :
    writes (choose (server_of web) tools web).1
    ≡ update_instance_status
        (record web { status = record web.status { hardware_name = "broken" } })
      ∷ []
unfolding choose sort draw
web_given = refl

choose-Places_example :
    Places
      (server_of web)
      tools
      web
      (hardware "spare" true ∷ hardware "broken" false ∷ [])
      (choose (server_of web) tools web)
choose-Places_example =
    choose-Places (server_of web) tools web (hardware "spare" true ∷ hardware "broken" false ∷ [])
      (λ _. refl) (λ n h. omega arith) (λ _. ([], refl)) refl

scheduler_reconcile-Move_example :
    Once (IsMoveOf web) (Scheduler.reconcile (server_of web) tools (name_of web.meta))
scheduler_reconcile-Move_example =
    scheduler_reconcile-Move (server_of web) tools web (name_of web.meta) refl

abbrev gone : BareMetalInstance
gone = instance_of terminated (some 7)

instance_reconcile-IsRelease_example :
    Once (IsRelease gone) (Controller.reconcile (server_of gone) (name_of gone.meta))
instance_reconcile-IsRelease_example =
    instance_reconcile-IsRelease (server_of gone) gone (name_of gone.meta) refl
