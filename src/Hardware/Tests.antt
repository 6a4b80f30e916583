-- ===== src/Hardware/Tests.antt =====
-- The reconciler of a hardware that has two nics and a drive.
use kube_baremetal.Prelude.{refl, true, false, none, some, String, List, [], ◌∷◌, text_eq}
use kube_baremetal.Api.Meta.{ObjectMeta, name_of}
use kube_baremetal.Api.Discovery.{BareMetalDiscoveryHardware}
use kube_baremetal.Api.Hardware.{BareMetalHardware}
use kube_baremetal.Condition.{StatusCondition, status_true, get_condition}
use kube_baremetal.Client.Example.{empty_server}
use kube_baremetal.Client.{Server, ok}
use kube_baremetal.Client.Once.{Once}
use kube_baremetal.Client.Quiet.{Rests}
use kube_baremetal.Hardware.{has_taint, finds_nics, finds_drive}
use kube_baremetal.Hardware.Controller.{
  taint_unschedulable, taint_not_ready, check_instance, report,
}
use kube_baremetal.Hardware.Move.{Move}
use kube_baremetal.Hardware.Moves.{hardware_reconcile-Move}
use kube_baremetal.Hardware.Reconcile
use kube_baremetal.Hardware.Reconcile.{check_nics, check_drive, check_hardware}
use kube_baremetal.Hardware.Settled.{IsSettled, hardware_reconcile-IsSettled}

abbrev meta : ObjectMeta
meta = record {
  name = "rack";
  generate_name = "";
  namespace = "default";
  uid = "rack";
  labels = [];
  owner_references = [];
  finalizers = [];
  deletion_timestamp = none;
}

abbrev info : BareMetalDiscoveryHardware
info = record {
  cpu = record { model_name = "cpu"; architecture = "x86_64"; cpus = 8 };
  ram = 64;
  storage = record { name = "sda"; size = 100; rotational = false; trim = true; serial = "1" } ∷ [];
  nics =
      record { name = "eth0"; mac = "00:00:00:00:00:01"; speed = 1000 }
      ∷ record { name = "eth1"; mac = "00:00:00:00:00:02"; speed = 1000 }
      ∷ [];
}

abbrev condition : String → String → StatusCondition
condition type reason = record {
  type = type;
  status = status_true;
  last_transition_time = some 1;
  reason = reason;
  message = "";
}

abbrev rack : List StatusCondition → BareMetalHardware
rack conditions = record {
  meta = meta;
  spec = record {
    system_uuid = "uuid";
    can_provision = true;
    image_drive = "sda";
    nics =
        record {
          name = "bond0";
          primary = true;
          bond = some (record { interfaces = "eth0" ∷ "eth1" ∷ []; mode = "active-backup" });
          network_ref = record {
            name = "lan";
            kind = "BareMetalNetwork";
            group = "baremetal.com.rmb938";
          };
        }
        ∷ [];
    taints = [];
  };
  status = record { conditions = conditions; instance_ref = none; hardware = some info };
}

abbrev ready : BareMetalHardware
ready = rack (
    condition "HardwareSet" "HardwareIsSet"
    ∷ condition "NicsValid" "ValidNics"
    ∷ condition "ImageDriveValid" "ValidImageDrive"
    ∷ [])

abbrev server : BareMetalHardware → Server
server bmh = record empty_server { get_hardware = λ _. ok bmh }

ready-Rests : Rests (Reconcile.reconcile (server ready) (name_of meta))
unfolding Reconcile.reconcile get_condition text_eq taint_unschedulable has_taint taint_not_ready
    check_instance report finds_nics finds_drive
ready-Rests = record {
  result = record { requeue = false; requeue_after = 0 };
  completes = refl;
  silent = refl;
}

hardware_reconcile-IsSettled_example : IsSettled (server ready) ready
hardware_reconcile-IsSettled_example =
    hardware_reconcile-IsSettled (server ready) ready (name_of meta) info refl refl refl ready-Rests

hardware_reconcile-Move_example :
    Once (Move (server (rack [])) (rack [])) (Reconcile.reconcile (server (rack [])) (name_of meta))
hardware_reconcile-Move_example =
    hardware_reconcile-Move (server (rack [])) (rack []) (name_of meta) refl
