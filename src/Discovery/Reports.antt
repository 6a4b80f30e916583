-- ===== src/Discovery/Reports.antt =====
-- What `ready` of pkg/discovery/server.go may write.
use kube_baremetal.Prelude.{
  ◌≡◌, refl, true, not, ◌&&◌, ◌||◌, Option, none, some, List, [], ◌∷◌, ◌==◌, string_eq, arith,
}
use kube_baremetal.Api.Hardware.{BareMetalHardware, BareMetalHardwareStatusInstanceRef}
use kube_baremetal.Api.Instance.{BareMetalInstance, is_provisioning, is_cleaning}
use kube_baremetal.Client.{Server, Exec, Error, Reply, ok, err, Write, update_instance_status, pure}
use kube_baremetal.Client.Once.{Once, Once-if}
use kube_baremetal.Hardware.Controller.{get_instance_of}
use kube_baremetal.Discovery.{
  Answer, with_status, with_agent, ReadyInput, or_answer, or_refused, ready_instance,
  ready_reference, ready_hardware, ready,
}

-- The agent's address, stored in the one instance that waits for it: the instance that the one
-- hardware of the system's UUID refers to, while it is provisioned or cleaned.
pub data Report (server : Server) (input : ReadyInput) : Write → Type 0 where
  report :
      {bmh : BareMetalHardware} {ref : BareMetalHardwareStatusInstanceRef} (bmi : BareMetalInstance)
      → server.list_hardware_by_system_uuid input.system_uuid ≡ ok (bmh ∷ [])
      → bmh.status.instance_ref ≡ some ref
      → get_instance_of server ref ≡ ok bmi
      → (bmi.meta.uid == ref.uid) ≡ true
      → (is_provisioning bmi.status.phase || is_cleaning bmi.status.phase) ≡ true
      → Report server input (update_instance_status (with_agent input.ip bmi))

pub Once-or_answer {ℓ} :
    {A : Type ℓ} (P : Write → Type 0) (r : Reply A) (k : A → Exec Answer)
    → ((a : A) → r ≡ ok a → Once P (k a))
    → Once P (or_answer r k)
unfolding or_answer
Once-or_answer P (ok a) k once = once a refl
Once-or_answer P (err e) k once = record { at_most = tt }

Once-or_refused :
    (P : Write → Type 0) (answer : Option Error) (w : Write) (a : Answer)
    → P w
    → Once P (or_refused answer w (pure a))
unfolding or_refused
Once-or_refused P none w a p = record { at_most = p }
Once-or_refused P (some e) w a p = record { at_most = tt }

module _ (server : Server) (input : ReadyInput) where
  ready_instance-Report :
      (bmh : BareMetalHardware) (ref : BareMetalHardwareStatusInstanceRef) (bmi : BareMetalInstance)
      → server.list_hardware_by_system_uuid input.system_uuid ≡ ok (bmh ∷ [])
      → bmh.status.instance_ref ≡ some ref
      → get_instance_of server ref ≡ ok bmi
      → Once (Report server input) (ready_instance server input.ip ref bmi)
  unfolding ready_instance
  ready_instance-Report bmh ref bmi listed has_ref got =
      Once-if _ (not (bmi.meta.uid == ref.uid)) _ _ (λ _. record { at_most = tt })
        λ same.
          Once-if _ (not (is_provisioning bmi.status.phase) && not (is_cleaning bmi.status.phase)) _
            _ (λ _. record { at_most = tt })
            λ waits.
              Once-or_refused _ (server.refuses (update_instance_status (with_agent input.ip bmi)))
                _ (with_status 204) (report bmi listed has_ref got (ground arith) (ground arith))

  ready_reference-Report :
      (bmh : BareMetalHardware) (ref : Option BareMetalHardwareStatusInstanceRef)
      → server.list_hardware_by_system_uuid input.system_uuid ≡ ok (bmh ∷ [])
      → bmh.status.instance_ref ≡ ref
      → Once (Report server input) (ready_reference server input.ip ref)
  unfolding ready_reference
  ready_reference-Report bmh none listed has_ref = record { at_most = tt }
  ready_reference-Report bmh (some ref) listed has_ref =
      Once-or_answer _ (get_instance_of server ref) (ready_instance server input.ip ref)
        λ bmi got. ready_instance-Report bmh ref bmi listed has_ref got

  ready_hardware-Report :
      (bmhs : List BareMetalHardware)
      → server.list_hardware_by_system_uuid input.system_uuid ≡ ok bmhs
      → Once (Report server input) (ready_hardware server input.ip bmhs)
  unfolding ready_hardware
  ready_hardware-Report [] listed = record { at_most = tt }
  ready_hardware-Report (bmh ∷ []) listed =
      ready_reference-Report bmh bmh.status.instance_ref listed refl
  ready_hardware-Report (bmh ∷ other ∷ rest) listed = record { at_most = tt }

  -- `ready` writes at most once, and then it stores the address that the agent sent, in the instance
  -- that the one hardware of the system's UUID refers to by name and by UID, while the instance is in
  -- the phase Provisioning or Cleaning.
  pub ready-Report : Once (Report server input) (ready server (some input))
  unfolding ready
  ready-Report =
      Once-if _ (input.system_uuid == "") _ _ (λ _. record { at_most = tt })
        λ named.
          Once-or_answer _ (server.list_hardware_by_system_uuid input.system_uuid)
            (ready_hardware server input.ip) ready_hardware-Report
