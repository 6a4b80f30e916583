-- ===== src/Endpoint/Search/First.antt =====
-- The loop finds the first address of the range that is not taken, or finds that all are taken.
use native.Mathlib.Decide.{dec_le}
use kube_baremetal.Prelude.{
  ℕ, zero, suc, ◌+◌, ◌-◌, ◌<◌, ◌≤◌, ◌≡◌, ap, sym, ◌∙◌, subst, Bool, true, false, inl, inr,
  Bool-cases, length, arith,
}
use kube_baremetal.Ip.{Ip, IsBytes, weight, value, inc, not_below}
use kube_baremetal.Ip.Value.{
  length-inc, inc-IsBytes, value-inc, not_below_iff, value-injective, weight-eq_of_length,
}
use kube_baremetal.Endpoint.Search.{Search, found, exhausted, unfinished, scan, next_ip}

-- An address of the length of `end`, between two values.
pub record IsBetween (end : Ip) (low high : ℕ) (ip : Ip) : Type 0 where
  pub long : length ip ≡ length end
  pub bytes : IsBytes ip
  pub above : low ≤ value ip
  pub below : value ip ≤ high

-- What the loop promises of its result, for the addresses from `low` on.
abbrev pub IsFirstFree : (Ip → Bool) → Ip → ℕ → Search → Type 0
IsFirstFree taken end low (found ip) =
    IsBetween end low (value end) ip
    × (taken ip ≡ false)
    × ((x : Ip) → IsBetween end low (value ip) x → value x < value ip → taken x ≡ true)
IsFirstFree taken end low exhausted = (x : Ip) → IsBetween end low (value end) x → taken x ≡ true
IsFirstFree taken end low unfinished = ⊥

module _ (taken : Ip → Bool) (end ip : Ip) (e : length ip ≡ length end) (h : IsBytes ip)
    (t : taken ip ≡ true) where
  taken_from :
      (high : ℕ) (x : Ip)
      → IsBetween end (value ip) high x
      → (IsBetween end (value ip + 1) high x → taken x ≡ true)
      → taken x ≡ true
  taken_from high x b later = elim (dec_le (value x) (value ip)) [
    | yes le ↦
        let same : x ≡ ip = value-injective x ip (b.long ∙ sym e) b.bytes h (omega arith) in
        ap taken same ∙ t
    | no gt ↦
        later (record { long = b.long; bytes = b.bytes; above = omega arith; below = b.below })
  ]

  -- `ip` is taken: what holds from the next address on holds from `ip` on.
  IsFirstFree-step :
      (r : Search) → IsFirstFree taken end (value ip + 1) r → IsFirstFree taken end (value ip) r
  IsFirstFree-step (found p) (b, free, before) = (
    record { long = b.long; bytes = b.bytes; above = omega arith; below = b.below },
    free,
    λ x bx lt. taken_from (value p) x bx (λ bx'. before x bx' lt),
  )
  IsFirstFree-step exhausted all = λ x bx. taken_from (value end) x bx (all x)
  IsFirstFree-step unfinished bad = bad

-- One round of the loop.
module _ (fuel : ℕ) (taken : Ip → Bool) (end ip : Ip) where
  scan_past : not_below end ip ≡ false → scan (suc fuel) taken end ip ≡ exhausted
  unfolding scan
  scan_past past = ground arith

  scan_free : not_below end ip ≡ true → taken ip ≡ false → scan (suc fuel) taken end ip ≡ found ip
  unfolding scan
  scan_free inside free = ground arith

  scan_taken :
      not_below end ip ≡ true
      → taken ip ≡ true
      → scan (suc fuel) taken end ip ≡ scan fuel taken end (inc ip)
  unfolding scan
  scan_taken inside t = ground arith

module _ (taken : Ip → Bool) (end : Ip) (end_bytes : IsBytes end)
    (not_last : value end + 1 < weight end) where
  value_next :
      (ip : Ip)
      → length ip ≡ length end
      → IsBytes ip
      → value ip ≤ value end
      → value (inc ip) ≡ value ip + 1
  value_next ip e h le = ground (arith, value-inc ip h, weight-eq_of_length ip end e)

  scan-IsFirstFree :
      (fuel : ℕ) (ip : Ip)
      → length ip ≡ length end
      → IsBytes ip
      → value end + 1 - value ip < fuel
      → IsFirstFree taken end (value ip) (scan fuel taken end ip)
  scan-IsFirstFree zero ip e h m = absurd (omega arith)
  scan-IsFirstFree (suc fuel) ip e h m =
      let iff = not_below_iff end ip (sym e) end_bytes h in
      let next = value_next ip e h in
      let ih = scan-IsFirstFree fuel (inc ip) (length-inc ip h ∙ e) (inc-IsBytes ip h) in
      elim (Bool-cases (not_below end ip)) [
        | inr past ↦
            subst (IsFirstFree taken end (value ip)) (sym (scan_past fuel taken end ip past))
              (λ x b. cc (past, iff.1 (omega (arith, b.above, b.below))))
        | inl inside ↦ elim (Bool-cases (taken ip)) [
          | inr free ↦
              subst (IsFirstFree taken end (value ip))
                (sym (scan_free fuel taken end ip inside free))
                (
                  record { long = e; bytes = h; above = omega arith; below = iff.0 inside },
                  free,
                  λ x b lt. absurd (omega (arith, b.above)),
                )
          | inl t ↦
              subst (IsFirstFree taken end (value ip)) (sym (scan_taken fuel taken end ip inside t))
                (IsFirstFree-step taken end ip e h t (scan fuel taken end (inc ip)) (
                  subst (λ low. IsFirstFree taken end low (scan fuel taken end (inc ip)))
                    (next (iff.0 inside)) (ih (omega (arith, next (iff.0 inside), iff.0 inside)))))
        ]
      ]

-- The loop over the whole range, where `end` is not the last address of its length: it ends. If it
-- finds an address, that one is in the range and not taken, and each address before it is taken;
-- if it finds none, each address of the range is taken.
pub next_ip-IsFirstFree :
    (taken : Ip → Bool) (start end : Ip)
    → length start ≡ length end
    → IsBytes start
    → IsBytes end
    → value end + 1 < weight end
    → IsFirstFree taken end (value start) (next_ip taken start end)
unfolding next_ip
next_ip-IsFirstFree taken start end e hs he last =
    scan-IsFirstFree taken end he last (suc (value end + 1 - value start)) start e hs (omega arith)
