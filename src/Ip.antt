-- ===== src/Ip.antt =====
-- The addresses that the controllers and webhooks compute with: `net.IP` of Go's standard library,
-- a slice of bytes, and `Network.inc` of controllers/baremetalendpoint/network.go.
-- How a text is parsed and printed is a parameter, `Ip/Text.antt`.
pub mod Value
pub mod Text
pub mod Equal
pub mod Example
mod Tests
use Prim.Native.Nat.{compare, Ordering, bit_and, bit_or}
use kube_baremetal.Prelude.{
  ℕ, zero, suc, ◌+◌, ◌-◌, ◌*◌, ◌%◌, ◌<◌, Bool, true, false, not, ◌&&◌, Option, none, some, List, [],
  ◌∷◌, ◌==◌, nat_eq, if◌then◌else◌, length, take, drop, All,
}

-- A `net.IP`; `[]` is nil.
abbrev pub Ip : Type 0
Ip = List ℕ

-- A `net.IPMask`.
abbrev pub Mask : Type 0
Mask = List ℕ

-- A `net.IPNet`.
pub record IpNet : Type 0 where
  pub ip : Ip
  pub mask : Mask

abbrev pub IsBytes : List ℕ → Type 0
IsBytes = All (λ b. b < 256)

-- The bytes of an address as one number, the first byte the most significant.
abbrev pub weight : List ℕ → ℕ
weight [] = 1
weight (b ∷ bs) = 256 * weight bs

unfoldable pub value : List ℕ → ℕ
value [] = 0
value (b ∷ bs) = b * weight bs + value bs

-- `bytes.Compare`
unfoldable pub compare_bytes : List ℕ → List ℕ → Ordering
compare_bytes [] [] = Ordering.eq
compare_bytes [] (y ∷ ys) = Ordering.lt
compare_bytes (x ∷ xs) [] = Ordering.gt
compare_bytes (x ∷ xs) (y ∷ ys) = elim (compare x y) [
  | Ordering.lt ↦ Ordering.lt
  | Ordering.gt ↦ Ordering.gt
  | Ordering.eq ↦ compare_bytes xs ys
]

-- `bytes.Compare(a, b) >= 0`
unfoldable pub not_below : List ℕ → List ℕ → Bool
unfolding compare_bytes
not_below a b = elim (compare_bytes a b) [ Ordering.lt ↦ false | _ ↦ true ]

-- `bytes.Equal`
unfoldable pub bytes_eq : List ℕ → List ℕ → Bool
bytes_eq [] [] = true
bytes_eq [] (y ∷ ys) = false
bytes_eq (x ∷ xs) [] = false
bytes_eq (x ∷ xs) (y ∷ ys) = x == y && bytes_eq xs ys

-- The prefix of an IPv4 address in 16 bytes.
abbrev pub v4_in_v6_prefix : List ℕ
v4_in_v6_prefix = 0 ∷ 0 ∷ 0 ∷ 0 ∷ 0 ∷ 0 ∷ 0 ∷ 0 ∷ 0 ∷ 0 ∷ 255 ∷ 255 ∷ []

-- `IP.Equal`: an IPv4 address and the same address in 16 bytes are equal.
unfoldable pub equal : Ip → Ip → Bool
unfolding bytes_eq
equal ip x =
    if length ip == length x
    then bytes_eq ip x
    else if length ip == 4 && length x == 16
    then bytes_eq (take 12 x) v4_in_v6_prefix && bytes_eq ip (drop 12 x)
    else if length ip == 16 && length x == 4
    then bytes_eq (take 12 ip) v4_in_v6_prefix && bytes_eq (drop 12 ip) x
    else false

-- `IP.To4`; `[]` where Go returns nil.
unfoldable pub to4 : Ip → Ip
unfolding bytes_eq
to4 ip =
    if length ip == 4
    then ip
    else if length ip == 16 && bytes_eq (take 12 ip) v4_in_v6_prefix
    then drop 12 ip
    else []

zip_and : List ℕ → List ℕ → List ℕ
zip_and (a ∷ as') (m ∷ ms) = bit_and a m ∷ zip_and as' ms
zip_and _ _ = []

-- `IP.Mask`
unfoldable pub mask_ip : Ip → Mask → Ip
unfolding zip_and bytes_eq
mask_ip ip mask =
    let m =
      if length mask == 16 && length ip == 4 && bytes_eq (take 12 mask) all_ones
      then drop 12 mask
      else mask in
    let a =
      if length m == 4 && length ip == 16 && bytes_eq (take 12 ip) v4_in_v6_prefix
      then drop 12 ip
      else ip in
    if length a == length m then zip_and a m else []
  where
    all_ones : List ℕ
    all_ones = 255 ∷ 255 ∷ 255 ∷ 255 ∷ 255 ∷ 255 ∷ 255 ∷ 255 ∷ 255 ∷ 255 ∷ 255 ∷ 255 ∷ []

-- The loop of `IPNet.Contains`: `nn[i] & m[i] != ip[i] & m[i]` ends it.
same_network : List ℕ → List ℕ → List ℕ → Bool
same_network (n ∷ ns) (m ∷ ms) (x ∷ xs) = bit_and n m == bit_and x m && same_network ns ms xs
same_network _ _ _ = true

-- `networkNumberAndMask`; `([], [])` where Go returns nil, nil.
network_number_and_mask : IpNet → Ip × Mask
unfolding to4
network_number_and_mask net =
    let v4 = to4 net.ip in
    let number = if length v4 == 0 then net.ip else v4 in
    let m = net.mask in
    if length v4 == 0 && not (length net.ip == 16)
    then ([], [])
    else if length m == 4
    then (if length number == 4 then (number, m) else ([], []))
    else if length m == 16
    then (number, if length number == 4 then drop 12 m else m)
    else ([], [])

-- `IPNet.Contains`
unfoldable pub contains_ip : IpNet → Ip → Bool
unfolding same_network network_number_and_mask
contains_ip net ip =
    let (number, m) = network_number_and_mask net in
    let x = if length (to4 ip) == 0 then ip else to4 ip in
    length x == length number && same_network number m x

-- `broadcast[i] = networkIP[i] | ^network.Mask[i]`; `none` where `networkIP[i]` is out of range.
unfoldable pub broadcast_of : Ip → Mask → Option Ip
broadcast_of ip [] = some []
broadcast_of [] (m ∷ ms) = none
broadcast_of (a ∷ as') (m ∷ ms) = elim (broadcast_of as' ms) [
  | none ↦ none
  | some bs ↦ some (bit_or a (255 - m) ∷ bs)
]

-- The loop of `inc`, from the last byte: the flag says that no byte so far ended the loop.
inc_from : Ip → Ip × Bool
inc_from [] = ([], true)
inc_from (b ∷ bs) =
    let (bs', carry) = inc_from bs in
    let next = (b + 1) % 256 in if carry then (next ∷ bs', next == 0) else (b ∷ bs', false)

-- `Network.inc`
unfoldable pub inc : Ip → Ip
unfolding inc_from
inc ip = (inc_from ip).0
