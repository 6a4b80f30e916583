-- ===== src/Instance/Scheduler/Placing.antt =====
-- Which hardware the scheduler gives to an instance.
use kube_baremetal.Prelude.{
  ℕ, ◌<◌, ◌≡◌, refl, ◌∙◌, ◌⊎◌, inl, inr, false, Option, none, some, List, [], ◌∷◌, length, arith,
  ◌==◌, nat_eq, Bool-cases,
}
use kube_baremetal.Api.Hardware.{BareMetalHardware}
use kube_baremetal.Api.Instance.{BareMetalInstance}
use kube_baremetal.Client.{Server, Write, Exec, Result, completed, pure, ok, update_instance_status}
use kube_baremetal.Client.Effects.{writes}
use kube_baremetal.Instance.Hardware.{Tools, Sorted, draw, nothing_sorted}
use kube_baremetal.Instance.Hardware.Choice.{
  last_of, accepted_count, Loops, sort-Loops, sort-ok, index-some, Answers,
}
use kube_baremetal.Instance.Scheduler.{choose, place}

module _ (server : Server) (tools : Tools) (bmi : BareMetalInstance) where
  -- How the search among `total` may end: no hardware is acceptable, nothing is written, and the
  -- instance is tried again in a minute; or one is, and the instance is given the last of `total`.
  abbrev pub Places : List BareMetalHardware → Exec Result → Type 0
  Places total m =
      ((accepted_count server tools bmi total ≡ 0)
        × (writes m.1 ≡ [])
        × (m.0 ≡ completed (record { requeue = false; requeue_after = 60 })))
      ⊎ ((bmh : BareMetalHardware) × (0 < accepted_count server tools bmi total)
          × (last_of none total ≡ some bmh)
          × (writes m.1
              ≡ update_instance_status
                  (record bmi { status = record bmi.status { hardware_name = bmh.meta.name } })
                ∷ []))

  accepted_count-last :
      (o : Option BareMetalHardware) (items : List BareMetalHardware)
      → 0 < accepted_count server tools bmi items
      → (bmh : BareMetalHardware) × (last_of o items ≡ some bmh)
  accepted_count-last o [] h = absurd (omega arith)
  accepted_count-last o (x ∷ []) h = (x, refl)
  accepted_count-last o (x ∷ y ∷ ys) h = last_of_cons (some x) y ys
    where
      last_of_cons :
          (o : Option BareMetalHardware) (y : BareMetalHardware) (ys : List BareMetalHardware)
          → (bmh : BareMetalHardware) × (last_of o (y ∷ ys) ≡ some bmh)
      last_of_cons o y [] = (y, refl)
      last_of_cons o y (z ∷ zs) = last_of_cons (some y) z zs

  draw_lem :
      (s : Sorted) (bmh : BareMetalHardware)
      → tools.intn (length s.acceptable) < length s.acceptable
      → s.bmh ≡ some bmh
      → draw tools s ≡ pure bmh.meta.name
  unfolding draw
  draw_lem s bmh below last =
      rw (draw, index-some s.acceptable (tools.intn (length s.acceptable)) below, last) refl

  place-Places :
      (total : List BareMetalHardware) (s : Sorted)
      → ((w : Write) → server.refuses w ≡ none)
      → ((n : ℕ) → 0 < n → tools.intn n < n)
      → Loops server tools bmi total nothing_sorted s
      → Places total (place server tools bmi s)
  unfolding place
  place-Places total s accepts draws (last, count) = elim (Bool-cases (length s.acceptable == 0)) [
    | inl t ↦ rw t (inl (ground arith, refl, refl))
    | inr t ↦
        let some_there : 0 < length s.acceptable = ground arith in
        let (bmh, h) = accepted_count-last none total (ground arith) in
        let drawn = draw_lem s bmh (draws (length s.acceptable) some_there) (last ∙ h) in
        rw (t, drawn, accepts _) (inr (bmh, ground arith, h, refl))
  ]

  -- Where the server answers every read and accepts the write, and `rand.Intn(n)` is below a
  -- positive `n`, the search for a hardware ends in one of two ways: no hardware of the namespace is
  -- acceptable, nothing is written and the instance is tried again after a minute; or at least one
  -- is acceptable, and the instance is given the last hardware of the list, acceptable or not.
  pub choose-Places :
      (total : List BareMetalHardware)
      → ((w : Write) → server.refuses w ≡ none)
      → ((n : ℕ) → 0 < n → tools.intn n < n)
      → Answers server tools bmi
      → server.list_hardware_in_namespace bmi.meta.namespace ≡ ok total
      → Places total (choose server tools bmi)
  unfolding choose
  choose-Places total accepts draws answers listed =
      let (s, sorted) = sort-ok server tools bmi total nothing_sorted answers in
      rw (listed, sorted)
        (place-Places total s accepts draws
          (sort-Loops server tools bmi total nothing_sorted s sorted))
