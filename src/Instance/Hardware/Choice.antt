-- ===== src/Instance/Hardware/Choice.antt =====
-- What the loop over the hardwares leaves: its variable holds the last hardware of the list, and
-- there are as many acceptable pointers as hardwares that the instance accepts.
use kube_baremetal.Prelude.{
  ℕ, zero, suc, ◌+◌, ◌<◌, ◌≡◌, refl, sym, ◌∙◌, ap, Bool, true, false, Option, some, List, [], ◌∷◌,
  ◌++◌, length, arith, String, is_some, if◌then◌else◌,
}
use kube_baremetal.Api.Hardware.{BareMetalHardware}
use kube_baremetal.Api.Meta.{deleting}
use kube_baremetal.Api.Instance.{BareMetalInstance}
use kube_baremetal.Client.{Server, Reply, ok, err, ok_injective}
use kube_baremetal.Instance.Hardware.{
  Tools, Pointer, bmh_variable, Sorted, Verdict, accepted, skipped, is_scheduled, unmatched,
  unprovisionable, untolerated, judge, named_by, demands, put, sort, index,
}

-- The last of the list, and `o` if there is none.
abbrev pub last_of : Option BareMetalHardware → List BareMetalHardware → Option BareMetalHardware
last_of o [] = o
last_of o (x ∷ xs) = last_of (some x) xs

abbrev pub is_accepted : Reply Verdict → Bool
is_accepted (ok accepted) = true
is_accepted _ = false

length-append : (ps : List Pointer) (p : Pointer) → length (ps ++ p ∷ []) ≡ length ps + 1
length-append [] p = refl
length-append (q ∷ ps) p = omega (arith, length-append ps p)

put-bmh : (v : Verdict) (s : Sorted) → (put v s).bmh ≡ s.bmh
unfolding put
put-bmh skipped s = refl
put-bmh is_scheduled s = refl
put-bmh unmatched s = refl
put-bmh unprovisionable s = refl
put-bmh untolerated s = refl
put-bmh accepted s = refl

put-acceptable :
    (v : Verdict) (s : Sorted)
    → length (put v s).acceptable ≡ length s.acceptable + (if is_accepted (ok v) then 1 else 0)
unfolding put
put-acceptable skipped s = omega arith
put-acceptable is_scheduled s = omega arith
put-acceptable unmatched s = omega arith
put-acceptable unprovisionable s = omega arith
put-acceptable untolerated s = omega arith
put-acceptable accepted s = length-append s.acceptable bmh_variable

pub index-some : (ps : List Pointer) (n : ℕ) → n < length ps → index ps n ≡ some bmh_variable
unfolding index
index-some [] n h = absurd (omega arith)
index-some (bmh_variable ∷ ps) zero h = refl
index-some (p ∷ ps) (suc n) h = index-some ps n (omega arith)

module _ (server : Server) (tools : Tools) (bmi : BareMetalInstance) where
  -- How many hardwares of the list the instance accepts.
  abbrev pub accepted_count : List BareMetalHardware → ℕ
  accepted_count [] = 0
  accepted_count (x ∷ xs) =
      (if is_accepted (judge server tools bmi x) then 1 else 0) + accepted_count xs

  -- What the loop over `items` makes of `s`.
  abbrev pub Loops : List BareMetalHardware → Sorted → Sorted → Type 0
  Loops items s r =
      (r.bmh ≡ last_of s.bmh items)
      × (length r.acceptable ≡ length s.acceptable + accepted_count items)

  round :
      (x : BareMetalHardware) (xs : List BareMetalHardware) (s r : Sorted) (v : Verdict)
      → judge server tools bmi x ≡ ok v
      → Loops xs (put v (record s { bmh = some x })) r
      → Loops (x ∷ xs) s r
  round x xs s r v j (last, count) =
      let variable = put-bmh v (record s { bmh = some x }) in
      let more = put-acceptable v (record s { bmh = some x }) in
      (last ∙ ap (λ o. last_of o xs) variable, rw j (omega (arith, count, more)))

  -- The loop leaves the last hardware in its variable, and adds one acceptable pointer for each
  -- hardware that the instance accepts.
  pub sort-Loops :
      (items : List BareMetalHardware) (s r : Sorted)
      → sort server tools bmi items s ≡ ok r
      → Loops items s r
  unfolding sort
  sort-Loops [] s r h =
      let same : s ≡ r = ok_injective h in
      (
        ap (λ (t : Sorted). t.bmh) (sym same),
        ap (λ (t : Sorted). length t.acceptable) (sym same) ∙ omega arith,
      )
  sort-Loops (x ∷ xs) s r h = go (judge server tools bmi x) refl h (λ t. sort-Loops xs t r)
    where
      go :
          (j : Reply Verdict)
          → judge server tools bmi x ≡ j
          → elim j [
            | ok v ↦ sort server tools bmi xs (put v (record s { bmh = some x }))
            | err e ↦ err e
          ]
            ≡ ok r
          → ((t : Sorted) → sort server tools bmi xs t ≡ ok r → Loops xs t r)
          → Loops (x ∷ xs) s r
      go (ok v) j h rec = round x xs s r v j (rec (put v (record s { bmh = some x })) h)
      go (err e) j h rec = absurd cc

  -- Every list of the instances that name a hardware is answered.
  abbrev pub Answers : Type 0
  Answers =
      (name : String)
      → (bmis : List BareMetalInstance) × (server.list_instances_by_hardware_name name ≡ ok bmis)

  judge-ok : (x : BareMetalHardware) → Answers → (v : Verdict) × (judge server tools bmi x ≡ ok v)
  unfolding judge named_by
  judge-ok x answers =
      let (bmis, h) = answers x.meta.name in
      rw h (go (deleting x.meta) (is_some x.status.instance_ref) bmis)
    where
      go :
          (leaving held : Bool) (bmis : List BareMetalInstance)
          → (v : Verdict) × ((if leaving
                then ok skipped
                else if held
                then ok is_scheduled
                else named_by tools bmi x (ok bmis))
              ≡ ok v)
      go true held bmis = (skipped, refl)
      go false true bmis = (is_scheduled, refl)
      go false false [] = (demands tools bmi x, refl)
      go false false (y ∷ ys) = (is_scheduled, refl)

  -- The loop ends with a result if every list is answered.
  pub sort-ok :
      (items : List BareMetalHardware) (s : Sorted)
      → Answers
      → (r : Sorted) × (sort server tools bmi items s ≡ ok r)
  unfolding sort
  sort-ok [] s answers = (s, refl)
  sort-ok (x ∷ xs) s answers =
      let (v, j) = judge-ok x answers in
      let (r, h) = sort-ok xs (put v (record s { bmh = some x })) answers in (r, rw (sort, j) h)
