-- ===== src/Webhook/Duplicates/Nodup.antt =====
-- A list that the loop finds no error in: no text is there twice, and each passes its check.
use kube_baremetal.Prelude.{
  ℕ, ◌+◌, ◌<◌, ◌≡◌, ◌≢◌, refl, sym, ◌∙◌, subst, ap, String, false, not, List, [], ◌∷◌, ◌++◌, length,
  arith, ◌==◌, nat_eq, string_eq, text_eq_iff, All, Bool-cases, inl, inr,
}
use kube_baremetal.Webhook.Error.{FieldError, unless, append-empty, unless-empty, collect-empty}
use kube_baremetal.Webhook.Duplicates.{duplicate_errors, each_errors}

-- No text is there twice.
abbrev pub NodupTexts : List String → Type 0
NodupTexts [] = Unit
NodupTexts (s ∷ rest) = All (λ t. s ≢ t) rest × NodupTexts rest

module _ (error : ℕ → FieldError) (i : ℕ) (ns : String) where
  -- One round of the inner loop.
  duplicate_errors-later :
      (j : ℕ) (n : String) (rest : List String)
      → duplicate_errors error i ns j (n ∷ rest) ≡ []
      → duplicate_errors error i ns (j + 1) rest ≡ []
  unfolding duplicate_errors
  duplicate_errors-later j n rest h = elim (Bool-cases (i == j)) [
    | inl same ↦ ground (arith, same, h)
    | inr other ↦
        (append-empty (unless (not (ns == n)) (error i)) _
          (subst (λ es. es ≡ []) (rw other refl) h)).1
  ]

  duplicate_errors-here :
      (j : ℕ) (n : String) (rest : List String)
      → i < j
      → duplicate_errors error i ns j (n ∷ rest) ≡ []
      → ns ≢ n
  unfolding duplicate_errors
  duplicate_errors-here j n rest b h =
      let other : (i == j) ≡ false = ground arith in
      let parts =
        append-empty (unless (not (ns == n)) (error i)) (duplicate_errors error i ns (j + 1) rest)
          (subst (λ es. es ≡ []) (rw other refl) h) in
      ground (arith, unless-empty (not (ns == n)) _ parts.0, text_eq_iff ns n)

  duplicate_errors-above :
      (j : ℕ) (rest : List String)
      → i < j
      → duplicate_errors error i ns j rest ≡ []
      → All (λ t. ns ≢ t) rest
  duplicate_errors-above j [] b h = tt
  duplicate_errors-above j (n ∷ rest) b h = (
    duplicate_errors-here j n rest b h,
    duplicate_errors-above (j + 1) rest (omega arith) (duplicate_errors-later j n rest h),
  )

  duplicate_errors-skip :
      (pre rest : List String) (j : ℕ)
      → duplicate_errors error i ns j (pre ++ rest) ≡ []
      → duplicate_errors error i ns (j + length pre) rest ≡ []
  duplicate_errors-skip [] rest j h =
      subst (λ k. duplicate_errors error i ns k rest ≡ []) (omega arith) h
  duplicate_errors-skip (n ∷ pre) rest j h =
      subst (λ k. duplicate_errors error i ns k rest ≡ []) (omega arith)
        (duplicate_errors-skip pre rest (j + 1) (duplicate_errors-later j n (pre ++ rest) h))

append_assoc : (pre rest : List String) (s : String) → (pre ++ s ∷ []) ++ rest ≡ pre ++ (s ∷ rest)
append_assoc [] rest s = refl
append_assoc (p ∷ pre) rest s = ap (λ ts. p ∷ ts) (append_assoc pre rest s)

length-append : (pre : List String) (s : String) → length (pre ++ s ∷ []) ≡ length pre + 1
length-append [] s = refl
length-append (p ∷ pre) s = omega (arith, length-append pre s)

module _ (check : ℕ → String → List FieldError) (error : ℕ → FieldError) (every : List String) where
  -- What one round found.
  round_empty :
      (i : ℕ) (s : String) (rest : List String)
      → each_errors check error every i (s ∷ rest) ≡ []
      → (check i s ≡ [])
        × (duplicate_errors error i s 0 every ≡ [])
        × (each_errors check error every (i + 1) rest ≡ [])
  unfolding each_errors
  round_empty i s rest h =
      let parts =
        collect-empty
          (check i s
            ∷ duplicate_errors error i s 0 every
            ∷ each_errors check error every (i + 1) rest
            ∷ [])
          h in
      (parts.0, parts.1.0, parts.1.1.0)

  rest-NodupTexts :
      (pre rest : List String)
      → pre ++ rest ≡ every
      → each_errors check error every (length pre) rest ≡ []
      → NodupTexts rest
  rest-NodupTexts pre [] e h = tt
  rest-NodupTexts pre (s ∷ rest) e h =
      let i = length pre in
      let (checked, once, later) = round_empty i s rest h in
      let doubles : duplicate_errors error i s 0 (pre ++ s ∷ rest) ≡ [] =
        subst (λ ts. duplicate_errors error i s 0 ts ≡ []) (sym e) once in
      let after =
        duplicate_errors-later error i s (0 + i) s rest
          (duplicate_errors-skip error i s pre (s ∷ rest) 0 doubles) in
      (
        duplicate_errors-above error i s (0 + i + 1) rest (omega arith) after,
        rest-NodupTexts (pre ++ s ∷ []) rest (append_assoc pre rest s ∙ e) (
            subst (λ k. each_errors check error every k rest ≡ []) (sym (length-append pre s))
              later),
      )

  pub each_errors-NodupTexts : each_errors check error every 0 every ≡ [] → NodupTexts every
  each_errors-NodupTexts h = rest-NodupTexts [] every refl h

  -- Each text passed its check.
  pub each_errors-All :
      (P : String → Type 0)
      → ((i : ℕ) (s : String) → check i s ≡ [] → P s)
      → (i : ℕ) (rest : List String) → each_errors check error every i rest ≡ []
      → All P rest
  each_errors-All P passes i [] h = tt
  each_errors-All P passes i (s ∷ rest) h =
      let (checked, once, later) = round_empty i s rest h in
      (passes i s checked, each_errors-All P passes (i + 1) rest later)
