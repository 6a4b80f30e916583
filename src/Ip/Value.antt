-- ===== src/Ip/Value.antt =====
-- Addresses as numbers: what `inc` and `bytes.Compare` do to the value.
use Prim.Native.Nat.{compare, Ordering}
use kube_baremetal.Prelude.{
  ℕ, ◌+◌, ◌*◌, ◌%◌, ◌<◌, ◌≤◌, ◌≡◌, refl, true, false, [], ◌∷◌, length, arith, Bool-cases, inl, inr,
  ◌==◌, nat_eq, ap, ◌↔◌, if◌then◌else◌, ◌≢◌, ◌⊎◌,
}
use kube_baremetal.Ip.{Ip, IsBytes, weight, value, inc, inc_from, compare_bytes, not_below}

pub weight-pos : (bs : Ip) → 0 < weight bs
weight-pos [] = omega arith
weight-pos (b ∷ bs) = omega (arith, weight-pos bs)

pub value-lt-weight : (bs : Ip) → IsBytes bs → value bs < weight bs
unfolding value
value-lt-weight [] h = omega arith
value-lt-weight (b ∷ bs) (hb, h) = grind (arith, value-lt-weight bs h)

pub weight-eq_of_length : (as' bs : Ip) → length as' ≡ length bs → weight as' ≡ weight bs
weight-eq_of_length [] [] h = refl
weight-eq_of_length [] (b ∷ bs) h = absurd (omega arith)
weight-eq_of_length (a ∷ as') [] h = absurd (omega arith)
weight-eq_of_length (a ∷ as') (b ∷ bs) h = omega (arith, weight-eq_of_length as' bs (omega arith))

length-inc_from : (bs : Ip) → length (inc_from bs).0 ≡ length bs
unfolding inc_from
length-inc_from [] = refl
length-inc_from (b ∷ bs) = ground (arith, length-inc_from bs)

inc_from-IsBytes : (bs : Ip) → IsBytes bs → IsBytes (inc_from bs).0
unfolding inc_from
inc_from-IsBytes [] h = tt
inc_from-IsBytes (b ∷ bs) (hb, h) = ground (arith, inc_from-IsBytes bs h)

-- No carry: the value is one more. A carry: all bytes were 255, and are 0 now.
record Carries (bs : Ip) : Type 0 where
  plain : (inc_from bs).1 ≡ false → value (inc_from bs).0 ≡ value bs + 1
  wrapped : (inc_from bs).1 ≡ true → (value (inc_from bs).0 ≡ 0) × (value bs + 1 ≡ weight bs)

-- The arithmetic of one more byte, where `w` is the weight of the bytes behind it.
byte_full : (b w : ℕ) → b < 256 → (b + 1) % 256 ≡ 0 → b * w + w ≡ 256 * w
byte_full b w hb e = let full : b ≡ 255 = omega arith in rw full (omega arith)

byte_next : (b w : ℕ) → b < 256 → (b + 1) % 256 ≢ 0 → (b + 1) % 256 * w ≡ b * w + w
byte_next b w hb e = let next : (b + 1) % 256 ≡ b + 1 = omega arith in rw next (omega arith)

inc_from-Carries : (bs : Ip) → IsBytes bs → Carries bs
unfolding inc_from value
inc_from-Carries [] h = record { plain = λ e. cc; wrapped = λ e. (refl, refl) }
inc_from-Carries (b ∷ bs) (hb, h) =
    let ih = inc_from-Carries bs h in
    let same = weight-eq_of_length (inc_from bs).0 bs (length-inc_from bs) in
    elim (Bool-cases (inc_from bs).1) [
      | inl c ↦ record {
        plain = λ e. ground (arith, ih.wrapped c, byte_next b (weight bs) hb);
        wrapped = λ e. ground (arith, ih.wrapped c, byte_full b (weight bs) hb);
      }
      | inr n ↦ record { plain = λ e. ground (arith, ih.plain n); wrapped = λ e. ground arith }
    ]

compare-cases :
    (a b : ℕ)
    → ((compare a b ≡ Ordering.lt) × (a < b))
      ⊎ (((compare a b ≡ Ordering.eq) × (a ≡ b)) ⊎ ((compare a b ≡ Ordering.gt) × (b < a)))
compare-cases a b = ground arith

-- The first byte that differs decides.
byte_lt : (a b w u v : ℕ) → a < b → u < w → a * w + u < b * w + v
byte_lt a b w u v h hu = grind arith

compare_bytes_value :
    (as' bs : Ip)
    → length as' ≡ length bs
    → IsBytes as'
    → IsBytes bs
    → (compare_bytes as' bs ≡ Ordering.lt → value as' < value bs)
      × (compare_bytes as' bs ≢ Ordering.lt → value bs ≤ value as')
unfolding compare_bytes value
compare_bytes_value [] [] e ha hb = (λ h. cc, λ h. omega arith)
compare_bytes_value [] (b ∷ bs) e ha hb = absurd (omega arith)
compare_bytes_value (a ∷ as') [] e ha hb = absurd (omega arith)
compare_bytes_value (a ∷ as') (b ∷ bs) e (ha, has) (hb, hbs) =
    let same = weight-eq_of_length as' bs (omega arith) in
    let rest = compare_bytes_value as' bs (omega arith) has hbs in
    let va = value-lt-weight as' has in
    let vb = value-lt-weight bs hbs in
    elim (compare-cases a b) [
      | inl (o, lt) ↦ (
        λ _. rw same (byte_lt a b _ _ _ lt (omega arith)),
        λ h. absurd (h (rw (o, compare_bytes))),
      )
      | inr (inl (o, same_byte)) ↦ (
        λ h. ground (arith, ap (λ (t : ℕ). t * weight bs) same_byte),
        λ h. ground (arith, ap (λ (t : ℕ). t * weight bs) same_byte),
      )
      | inr (inr (o, gt)) ↦ (
        λ h. ground arith,
        λ _. ground (arith, byte_lt b a (weight bs) (value bs) (value as') gt vb),
      )
    ]

module _ (bs : Ip) (h : IsBytes bs) where
  pub length-inc : length (inc bs) ≡ length bs
  unfolding inc
  length-inc = length-inc_from bs

  pub inc-IsBytes : IsBytes (inc bs)
  unfolding inc
  inc-IsBytes = inc_from-IsBytes bs h

  -- The value of the next address is one more, and wraps to 0 past the last address of the length.
  pub value-inc : value (inc bs) ≡ (if value bs + 1 == weight bs then 0 else value bs + 1)
  unfolding inc
  value-inc =
      let below = value-lt-weight (inc_from bs).0 (inc_from-IsBytes bs h) in
      let same = weight-eq_of_length (inc_from bs).0 bs (length-inc_from bs) in
      let ends = inc_from-Carries bs h in
      elim (Bool-cases (inc_from bs).1) [
        | inl c ↦ ground (arith, ends.wrapped c)
        | inr n ↦ ground (arith, ends.plain n)
      ]

-- `bytes.Compare(a, b) >= 0` says that the value of `b` is at most that of `a`.
pub not_below_iff :
    (as' bs : Ip)
    → length as' ≡ length bs
    → IsBytes as'
    → IsBytes bs
    → (not_below as' bs ≡ true) ↔ (value bs ≤ value as')
unfolding not_below
not_below_iff as' bs e ha hb = (
  λ h. ground (arith, compare_bytes_value as' bs e ha hb),
  λ h. ground (arith, compare_bytes_value as' bs e ha hb),
)

-- An address is known by its length and its value.
pub value-injective :
    (as' bs : Ip)
    → length as' ≡ length bs
    → IsBytes as'
    → IsBytes bs
    → value as' ≡ value bs
    → as' ≡ bs
unfolding value
value-injective [] [] e ha hb v = refl
value-injective [] (b ∷ bs) e ha hb v = absurd (omega arith)
value-injective (a ∷ as') [] e ha hb v = absurd (omega arith)
value-injective (a ∷ as') (b ∷ bs) e (ha, has) (hb, hbs) v =
    let same = weight-eq_of_length as' bs (omega arith) in
    let va = value-lt-weight as' has in
    let vb = value-lt-weight bs hbs in
    let rest = value-injective as' bs (omega arith) has hbs in
    elim (compare-cases a b) [
      | inl (o, lt) ↦ absurd (
          omega (
            arith,
            byte_lt a b (weight bs) (value as') (value bs) lt (omega arith),
            ap (λ (t : ℕ). a * t) same,
          ))
      | inr (inl (o, same_byte)) ↦ cc (
        same_byte,
        rest (omega (arith, ap (λ (t : ℕ). t * weight bs) same_byte, ap (λ (t : ℕ). a * t) same)),
      )
      | inr (inr (o, gt)) ↦ absurd (
          omega (
            arith,
            byte_lt b a (weight bs) (value bs) (value as') gt vb,
            ap (λ (t : ℕ). a * t) same,
          ))
    ]
