-- ===== src/Discovery/Stored.antt =====
-- What `discover` of pkg/discovery/server.go has stored where it answers with success.
use kube_baremetal.Prelude.{
  ℕ, ◌≡◌, ◌≢◌, refl, ◌⊎◌, inl, inr, String, true, false, none, some, is_some, List, [], ◌∷◌, ◌==◌,
  string_eq, Bool-cases, Option-cases, arith,
}
use kube_baremetal.Api.Discovery.{BareMetalDiscovery, BareMetalDiscoveryHardware}
use kube_baremetal.Api.Hardware.{BareMetalHardware}
use kube_baremetal.Client.{
  Server, Exec, Outcome, completed, failed, panicked, diverged, Reply, ok, err, Error, Write,
  create_discovery, update_discovery_status,
}
use kube_baremetal.Client.Effects.{writes}
use kube_baremetal.Discovery.{
  Answer, error_code, with_hardware, new_discovery, or_answer, or_refused, populate,
  discover_discovery, discover_hardware, discover_input, discover,
}

-- The status code of an answer, 0 where there is none.
abbrev pub code_of : Outcome Answer → ℕ
code_of (completed answer) = answer.status_code
code_of (failed e) = 0
code_of panicked = 0
code_of diverged = 0

-- No error of the API server is answered with the code of success.
pub record HasErrorCodes (server : Server) : Type 0 where
  pub hardware :
      {uuid : String} (e : Error)
      → server.list_hardware_by_system_uuid uuid ≡ err e
      → error_code e ≢ 204
  pub discoveries :
      {uuid : String} (e : Error)
      → server.list_discoveries_by_system_uuid uuid ≡ err e
      → error_code e ≢ 204
  pub writing : (w : Write) (e : Error) → server.refuses w ≡ some e → error_code e ≢ 204

-- The machine is known, or its report was stored with the last two writes.
pub data IsStored (server : Server) (uuid : String) (hardware : BareMetalDiscoveryHardware)
    : List Write → Type 0 where
  taken_in :
      (bmh : BareMetalHardware)
      → server.list_hardware_by_system_uuid uuid ≡ ok (bmh ∷ [])
      → IsStored server uuid hardware []
  discovered :
      (bmd : BareMetalDiscovery)
      → server.list_hardware_by_system_uuid uuid ≡ ok []
      → server.list_discoveries_by_system_uuid uuid ≡ ok (bmd ∷ [])
      → is_some bmd.status.hardware ≡ true
      → IsStored server uuid hardware []
  stored :
      (bmd : BareMetalDiscovery)
      → server.list_hardware_by_system_uuid uuid ≡ ok []
      → (server.list_discoveries_by_system_uuid uuid ≡ ok (bmd ∷ []))
        ⊎ ((server.list_discoveries_by_system_uuid uuid ≡ ok []) × (bmd ≡ new_discovery uuid))
      → is_some bmd.status.hardware ≡ false
      → server.refuses (create_discovery bmd) ≡ none
      → server.refuses (update_discovery_status (with_hardware hardware (server.created bmd)))
        ≡ none
      → IsStored server uuid hardware (
          create_discovery bmd
          ∷ update_discovery_status (with_hardware hardware (server.created bmd))
          ∷ [])

new_discovery-known :
    (uuid : String) (bmd : BareMetalDiscovery)
    → bmd ≡ new_discovery uuid
    → is_some bmd.status.hardware ≡ true
    → ⊥
unfolding new_discovery
new_discovery-known uuid bmd same known = ground (arith, same, known)

module _ (server : Server) (uuid : String) (hardware : BareMetalDiscoveryHardware)
    (codes : HasErrorCodes server) where
  -- A computation that answers with success only where the report is stored.
  abbrev Stores : Exec Answer → Type 0
  Stores m = code_of m.0 ≡ 204 → IsStored server uuid hardware (writes m.1)

  or_answer-Stores {ℓ} :
      {A : Type ℓ} (r : Reply A) (k : A → Exec Answer)
      → ((e : Error) → r ≡ err e → error_code e ≢ 204)
      → ((a : A) → r ≡ ok a → Stores (k a))
      → Stores (or_answer r k)
  unfolding or_answer
  or_answer-Stores (ok a) k bad next = next a refl
  or_answer-Stores (err e) k bad next = λ h. absurd (bad e refl h)

  populate-Stores :
      (bmd : BareMetalDiscovery)
      → server.list_hardware_by_system_uuid uuid ≡ ok []
      → (server.list_discoveries_by_system_uuid uuid ≡ ok (bmd ∷ []))
        ⊎ ((server.list_discoveries_by_system_uuid uuid ≡ ok []) × (bmd ≡ new_discovery uuid))
      → Stores (populate server hardware bmd)
  unfolding populate or_refused
  populate-Stores bmd none_there listed = elim (Bool-cases (is_some bmd.status.hardware)) [
    | inl known ↦ rw known λ h. elim listed [
      | inl one ↦ discovered bmd none_there one known
      | inr (fresh, same) ↦ absurd (new_discovery-known uuid bmd same known)
    ]
    | inr empty ↦ rw empty (elim (Option-cases (server.refuses (create_discovery bmd))) [
      | inr (e, refused) ↦ rw refused λ h. absurd (codes.writing _ e refused h)
      | inl accepted ↦
          rw accepted
            (elim (Option-cases (
              server.refuses
                (update_discovery_status (with_hardware hardware (server.created bmd))))) [
                  | inr (e, refused) ↦ rw refused λ h. absurd (codes.writing _ e refused h)
                  | inl updated ↦
                      rw updated λ h. stored bmd none_there listed empty accepted updated
                ])
    ])
  ]

  discover_discovery-Stores :
      (bmds : List BareMetalDiscovery)
      → server.list_hardware_by_system_uuid uuid ≡ ok []
      → server.list_discoveries_by_system_uuid uuid ≡ ok bmds
      → Stores (discover_discovery server uuid hardware bmds)
  unfolding discover_discovery
  discover_discovery-Stores [] none_there listed =
      populate-Stores (new_discovery uuid) none_there (inr (listed, refl))
  discover_discovery-Stores (bmd ∷ []) none_there listed =
      populate-Stores bmd none_there (inl listed)
  discover_discovery-Stores (bmd ∷ other ∷ rest) none_there listed = λ h. absurd (omega (arith, h))

  discover_hardware-Stores :
      (bmhs : List BareMetalHardware)
      → server.list_hardware_by_system_uuid uuid ≡ ok bmhs
      → Stores (discover_hardware server uuid hardware bmhs)
  unfolding discover_hardware
  discover_hardware-Stores [] none_there =
      or_answer-Stores (server.list_discoveries_by_system_uuid uuid)
        (discover_discovery server uuid hardware) (λ e. codes.discoveries e)
        λ bmds listed. discover_discovery-Stores bmds none_there listed
  discover_hardware-Stores (bmh ∷ []) listed = λ h. taken_in bmh listed
  discover_hardware-Stores (bmh ∷ other ∷ rest) listed = λ h. absurd (omega (arith, h))

  -- `discover` answers a report with 204 only where the machine has a hardware, or a discovery with
  -- hardware information, or where it created the discovery and stored the reported hardware in what
  -- the server made of it, in this order and both accepted, provided that no error of the server is
  -- answered with 204.
  pub discover-IsStored :
      code_of (discover server (some record { system_uuid = uuid; hardware = some hardware })).0
        ≡ 204
      → IsStored server uuid hardware (
          writes (discover server (some record { system_uuid = uuid; hardware = some hardware })).1)
  unfolding discover discover_input
  discover-IsStored = elim (Bool-cases (uuid == "")) [
    | inl unnamed ↦ rw unnamed λ h. absurd (omega (arith, h))
    | inr named ↦ rw named (
        or_answer-Stores (server.list_hardware_by_system_uuid uuid)
          (discover_hardware server uuid hardware) (λ e. codes.hardware e) discover_hardware-Stores)
  ]
