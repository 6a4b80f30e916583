-- ===== src/Ip/Tests.antt =====
-- The order and the successor of addresses.
use kube_baremetal.Prelude.{
  ◌≡◌, refl, ◌+◌, ◌≤◌, ◌↔◌, true, [], ◌∷◌, if◌then◌else◌, ◌==◌, nat_eq, arith,
}
use kube_baremetal.Ip.{Ip, IsBytes, value, weight, inc, not_below}
use kube_baremetal.Ip.Value.{value-inc, not_below_iff}

abbrev last_of_block : Ip
last_of_block = 10 ∷ 0 ∷ 0 ∷ 255 ∷ []

last_of_block-IsBytes : IsBytes last_of_block
last_of_block-IsBytes = omega arith

-- The carry goes on to the next byte, and past the last address to 0.
inc_carry : inc last_of_block ≡ 10 ∷ 0 ∷ 1 ∷ 0 ∷ []
unfolding inc
inc_carry = refl

inc_wrap : inc (255 ∷ 255 ∷ []) ≡ 0 ∷ 0 ∷ []
unfolding inc
inc_wrap = refl

value-inc_example :
    value (inc last_of_block)
    ≡ (if value last_of_block + 1 == weight last_of_block then 0 else value last_of_block + 1)
value-inc_example = value-inc last_of_block last_of_block-IsBytes

not_below_iff_example :
    (not_below last_of_block (10 ∷ 0 ∷ 0 ∷ 1 ∷ []) ≡ true)
    ↔ (value (10 ∷ 0 ∷ 0 ∷ 1 ∷ []) ≤ value last_of_block)
not_below_iff_example =
    not_below_iff last_of_block (10 ∷ 0 ∷ 0 ∷ 1 ∷ []) refl last_of_block-IsBytes (omega arith)
