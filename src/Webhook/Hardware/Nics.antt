-- ===== src/Webhook/Hardware/Nics.antt =====
-- What `validateNICs` of webhooks/baremetalhardware_webhook.go accepts.
use kube_baremetal.Prelude.{
  ℕ, ◌+◌, ◌≡◌, ◌≢◌, ◌↔◌, ◌⊎◌, inl, inr, refl, String, Bool, true, false, ◌||◌, List, [], ◌∷◌, ◌++◌,
  any, map, length, keep_if, All, ◌==◌, nat_eq, string_eq, text_eq_iff, arith, Bool-cases,
}
use kube_baremetal.Api.Hardware.{BareMetalHardwareNic}
use kube_baremetal.Webhook.Duplicates.Nodup.{NodupTexts}
use kube_baremetal.Webhook.Hardware.{rest_errors, nics_errors}

abbrev pub name_of : BareMetalHardwareNic → String
name_of nic = nic.name

-- How many nics are primary.
abbrev pub primaries : List BareMetalHardwareNic → ℕ
primaries nics = length (keep_if (λ nic. nic.primary) nics)

-- The names are distinct, and one nic is primary; or there is no nic.
abbrev pub IsWellFormed : List BareMetalHardwareNic → Type 0
IsWellFormed nics = (nics ≡ []) ⊎ (NodupTexts (map name_of nics) × (primaries nics ≡ 1))

abbrev was_found : List String → BareMetalHardwareNic → Bool
was_found found nic = any (λ name. nic.name == name) found

-- No nic has a name that was found, or the name of an earlier nic.
abbrev Fresh : List String → List BareMetalHardwareNic → Type 0
Fresh found [] = Unit
Fresh found (nic ∷ nics) = (was_found found nic ≡ false) × Fresh (found ++ nic.name ∷ []) nics

abbrev as_number : Bool → ℕ
as_number true = 1
as_number false = 0

any-append :
    (p : String → Bool) (xs : List String) (x : String) → any p (xs ++ x ∷ []) ≡ (any p xs || p x)
any-append p [] x = ground arith
any-append p (y ∷ xs) x = ground (arith, any-append p xs x)

-- What the loop accepts, from a list of found names and a flag on.
rest_errors-Fresh :
    (found : List String) (primary : Bool) (i : ℕ) (nics : List BareMetalHardwareNic)
    → (rest_errors found primary i nics ≡ [])
      ↔ (Fresh found nics × (as_number primary + primaries nics ≡ 1))
unfolding rest_errors
rest_errors-Fresh found true i [] = (λ h. (tt, refl), λ h. refl)
rest_errors-Fresh found false i [] = (λ h. cc, λ h. absurd (omega (arith, h.1)))
rest_errors-Fresh found true i (nic ∷ nics) = elim (Bool-cases (was_found found nic)) [
  | inl twice ↦ rw twice (λ h. cc, λ h. cc)
  | inr once ↦ elim (Bool-cases nic.primary) [
    | inl chosen ↦ rw (once, chosen) (λ h. cc, λ h. absurd (omega (arith, h.1)))
    | inr other ↦
        rw (once, other)
          (
            λ h.
                let (fresh, count) =
                  (rest_errors-Fresh (found ++ nic.name ∷ []) true (i + 1) nics).0 h in
                ((refl, fresh), count),
            λ h. (rest_errors-Fresh (found ++ nic.name ∷ []) true (i + 1) nics).1 (h.0.1, h.1),
          )
  ]
]
rest_errors-Fresh found false i (nic ∷ nics) = elim (Bool-cases (was_found found nic)) [
  | inl twice ↦ rw twice (λ h. cc, λ h. cc)
  | inr once ↦ elim (Bool-cases nic.primary) [
    | inl chosen ↦
        rw (once, chosen)
          (
            λ h.
                let (fresh, count) =
                  (rest_errors-Fresh (found ++ nic.name ∷ []) true (i + 1) nics).0 h in
                ((refl, fresh), omega (arith, count)),
            λ h.
                (rest_errors-Fresh (found ++ nic.name ∷ []) true (i + 1) nics).1
                  (h.0.1, omega (arith, h.1)),
          )
    | inr other ↦
        rw (once, other)
          (
            λ h.
                let (fresh, count) =
                  (rest_errors-Fresh (found ++ nic.name ∷ []) false (i + 1) nics).0 h in
                ((refl, fresh), count),
            λ h. (rest_errors-Fresh (found ++ nic.name ∷ []) false (i + 1) nics).1 (h.0.1, h.1),
          )
  ]
]

-- No name of the nics was found, and the names are distinct.
abbrev Unseen : List String → List BareMetalHardwareNic → Type 0
Unseen found nics = All (λ nic. was_found found nic ≡ false) nics × NodupTexts (map name_of nics)

-- One more name was found.
Unseen-append :
    (found : List String) (x : String) (nics : List BareMetalHardwareNic)
    → All (λ nic. was_found (found ++ x ∷ []) nic ≡ false) nics
      ↔ (All (λ nic. was_found found nic ≡ false) nics × All (λ t. x ≢ t) (map name_of nics))
Unseen-append found x [] = (λ h. (tt, tt), λ h. tt)
Unseen-append found x (nic ∷ nics) =
    let split = any-append (λ name. nic.name == name) found x in
    (
      λ h.
          let (old, apart) = (Unseen-append found x nics).0 h.1 in
          (
            (ground (arith, split, h.0), old),
            (λ e. ground (arith, split, h.0, text_eq_iff nic.name x), apart),
          ),
      λ h. (
        ground (arith, split, h.0.0, h.1.0, text_eq_iff nic.name x),
        (Unseen-append found x nics).1 (h.0.1, h.1.1),
      ),
    )

Fresh-Unseen :
    (found : List String) (nics : List BareMetalHardwareNic) → Fresh found nics ↔ Unseen found nics
Fresh-Unseen found [] = (λ h. (tt, tt), λ h. tt)
Fresh-Unseen found (nic ∷ nics) = (
  λ h.
      let (unseen, distinct) = (Fresh-Unseen (found ++ nic.name ∷ []) nics).0 h.1 in
      let (old, apart) = (Unseen-append found nic.name nics).0 unseen in
      ((h.0, old), (apart, distinct)),
  λ h. (
    h.0.0,
    (Fresh-Unseen (found ++ nic.name ∷ []) nics).1
        ((Unseen-append found nic.name nics).1 (h.0.1, h.1.0), h.1.1),
  ),
)

nothing-Unseen : (nics : List BareMetalHardwareNic) → All (λ nic. was_found [] nic ≡ false) nics
nothing-Unseen [] = tt
nothing-Unseen (nic ∷ nics) = (refl, nothing-Unseen nics)

-- `validateNICs` finds no error exactly if there is no nic, or the names of the nics are distinct
-- and exactly one nic is primary.
pub nics_errors-IsWellFormed :
    (nics : List BareMetalHardwareNic) → (nics_errors nics ≡ []) ↔ IsWellFormed nics
unfolding nics_errors
nics_errors-IsWellFormed [] = (λ h. inl refl, λ h. refl)
nics_errors-IsWellFormed (nic ∷ nics) = (accepted, rejected)
  where
    accepted : nics_errors (nic ∷ nics) ≡ [] → IsWellFormed (nic ∷ nics)
    accepted h =
        let (fresh, count) = (rest_errors-Fresh [] false 0 (nic ∷ nics)).0 h in
        inr (((Fresh-Unseen [] (nic ∷ nics)).0 fresh).1, omega (arith, count))

    rejected : IsWellFormed (nic ∷ nics) → nics_errors (nic ∷ nics) ≡ []
    rejected (inl empty) = cc
    rejected (inr (distinct, count)) = (rest_errors-Fresh [] false 0 (nic ∷ nics)).1 (
      (Fresh-Unseen [] (nic ∷ nics)).1 (nothing-Unseen (nic ∷ nics), distinct),
      omega (arith, count),
    )
