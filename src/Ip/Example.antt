-- ===== src/Ip/Example.antt =====
-- A way to write addresses as texts that has the documented properties: each byte is as many `a` as
-- it says and a `b`. The CIDR of every network is 10.0.0.0/29.
use Prim.Native.Char.{code}
use Prim.Native.String.{String}
use native.Mathlib.Nat.{add-zero, add-suc, suc-add}
use kube_baremetal.Prelude.{
  ℕ, zero, suc, ◌+◌, ◌≡◌, refl, Bool, true, ◌&&◌, Option, none, some, [], ◌∷◌, length, arith, ltb,
  ◌∙◌, ap, subst, Bool-cases, inl, inr, ◌==◌, nat_eq, if◌then◌else◌,
}
use kube_baremetal.Ip.{Ip, IsBytes}
use kube_baremetal.Ip.Text.{NetText, ParsesSixteen, RoundTrips}

print_byte : ℕ → String → String
print_byte zero rest = String.◌∷◌ "b" rest
print_byte (suc n) rest = String.◌∷◌ "a" (print_byte n rest)

unfoldable pub print : Ip → String
unfolding print_byte
print [] = String.[]
print (b ∷ bs) = print_byte b (print bs)

read_from : ℕ → String → Ip
read_from n String.[] = []
read_from n (String.◌∷◌ c s) =
    let next = n ∷ read_from 0 s in
    let same = read_from (suc n) s in if code c == 97 then same else next

all_bytes : Ip → Bool
all_bytes [] = true
all_bytes (b ∷ bs) = ltb b 256 && all_bytes bs

unfoldable pub parse : String → Option Ip
unfolding read_from all_bytes
parse s = let ip = read_from 0 s in if length ip == 16 && all_bytes ip then some ip else none

read_from-print_byte :
    (k n : ℕ) (s : String) → read_from k (print_byte n s) ≡ (k + n) ∷ read_from 0 s
unfolding read_from print_byte
read_from-print_byte k zero s = rw add-zero
read_from-print_byte k (suc n) s = rw add-suc (rw (← suc-add) (read_from-print_byte (suc k) n s))

read_from-print : (ip : Ip) → read_from 0 (print ip) ≡ ip
unfolding print read_from
read_from-print [] = refl
read_from-print (b ∷ bs) = read_from-print_byte 0 b (print bs) ∙ ground (arith, read_from-print bs)

all_bytes-IsBytes : (ip : Ip) → all_bytes ip ≡ true → IsBytes ip
unfolding all_bytes
all_bytes-IsBytes [] h = tt
all_bytes-IsBytes (b ∷ bs) h = (ground arith, all_bytes-IsBytes bs (ground arith))

IsBytes-all_bytes : (ip : Ip) → IsBytes ip → all_bytes ip ≡ true
unfolding all_bytes
IsBytes-all_bytes [] h = refl
IsBytes-all_bytes (b ∷ bs) (hb, h) = ground (arith, IsBytes-all_bytes bs h)

abbrev pub net_text : NetText
net_text = record {
  parse_ip = parse;
  parse_cidr = λ _.
      some (
        10 ∷ 0 ∷ 0 ∷ 0 ∷ [],
        record { ip = 10 ∷ 0 ∷ 0 ∷ 0 ∷ []; mask = 255 ∷ 255 ∷ 255 ∷ 248 ∷ [] },
      );
  parse_mac = parse;
  ip_string = print;
}

checked : Ip → Option Ip
checked ip = if length ip == 16 && all_bytes ip then some ip else none

parsed : (i : Ip) {ip : Ip} → checked i ≡ some ip → (length ip ≡ 16) × IsBytes ip
unfolding checked
parsed i {ip} h = elim (Bool-cases (length i == 16 && all_bytes i)) [
  | inl t ↦
      let same : i ≡ ip = ground arith in
      (
        ground (arith, ap (λ (l : Ip). length l) same),
        subst IsBytes same (all_bytes-IsBytes i (ground arith)),
      )
  | inr f ↦ absurd (ground arith)
]

pub net_text-ParsesSixteen : ParsesSixteen net_text
unfolding parse checked
net_text-ParsesSixteen s ip h = parsed (read_from 0 s) h

pub net_text-RoundTrips : RoundTrips net_text
unfolding parse
net_text-RoundTrips ip long bytes = rw read_from-print (ground (arith, IsBytes-all_bytes ip bytes))
