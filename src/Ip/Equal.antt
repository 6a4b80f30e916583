-- ===== src/Ip/Equal.antt =====
-- `IP.Equal` on addresses of 16 bytes.
use kube_baremetal.Prelude.{ℕ, ◌≡◌, refl, true, [], ◌∷◌, length, arith, nat_eq}
use kube_baremetal.Ip.{Ip, bytes_eq, equal}

bytes_eq-eq : (as' bs : Ip) → bytes_eq as' bs ≡ true → as' ≡ bs
unfolding bytes_eq
bytes_eq-eq [] [] h = refl
bytes_eq-eq [] (b ∷ bs) h = cc
bytes_eq-eq (a ∷ as') [] h = cc
bytes_eq-eq (a ∷ as') (b ∷ bs) h = ground (arith, bytes_eq-eq as' bs)

-- Two equal addresses of 16 bytes are the same bytes.
pub eq_of_equal : (a b : Ip) → length a ≡ 16 → length b ≡ 16 → equal a b ≡ true → a ≡ b
unfolding equal
eq_of_equal a b ha hb h = bytes_eq-eq a b (same_length (length a) (length b) ha hb h)
  where
    same_length : (m n : ℕ) → m ≡ 16 → n ≡ 16 → equal a b ≡ true → bytes_eq a b ≡ true
    same_length m n hm hn h = ground arith
