-- ===== src/Webhook/Same.antt =====
-- Equality of what the webhooks compare with `reflect.DeepEqual`, for the examples.
use kube_baremetal.Prelude.{
  ◌≡◌, refl, ap, String, Bool, true, false, ◌&&◌, Option, none, some, List, [], ◌∷◌, ◌==◌,
  string_eq, text_eq_iff, arith,
}
use kube_baremetal.Api.Endpoint.{BareMetalEndpointBond, BareMetalEndpointStatusAddress}
use kube_baremetal.Api.Instance.{Toleration}
use kube_baremetal.Webhook.Endpoint
use kube_baremetal.Webhook.Instance

abbrev pub same_list {ℓ} : {A : Type ℓ} → (A → A → Bool) → List A → List A → Bool
same_list same [] [] = true
same_list same [] (y ∷ ys) = false
same_list same (x ∷ xs) [] = false
same_list same (x ∷ xs) (y ∷ ys) = same x y && same_list same xs ys

same_list-eq {ℓ} :
    {A : Type ℓ} (same : A → A → Bool)
    → ((a b : A) → same a b ≡ true → a ≡ b)
    → (xs ys : List A) → same_list same xs ys ≡ true
    → xs ≡ ys
same_list-eq same eq [] [] h = refl
same_list-eq same eq [] (y ∷ ys) h = cc h
same_list-eq same eq (x ∷ xs) [] h = cc h
same_list-eq same eq (x ∷ xs) (y ∷ ys) h =
    let here : x ≡ y = eq x y (ground (arith, h)) in
    let there : xs ≡ ys = same_list-eq same eq xs ys (ground (arith, h)) in cc (here, there)

abbrev pub same_text : String → String → Bool
same_text a b = a == b

same_text-eq : (a b : String) → same_text a b ≡ true → a ≡ b
same_text-eq a b h = (text_eq_iff a b).0 h

abbrev pub same_pair : String × String → String × String → Bool
same_pair (a, b) (c, d) = a == c && b == d

same_pair-eq : (p q : String × String) → same_pair p q ≡ true → p ≡ q
same_pair-eq (a, b) (c, d) h = ground (arith, text_eq_iff a c, text_eq_iff b d)

abbrev pub same_toleration : Toleration → Toleration → Bool
same_toleration a b =
    a.key == b.key && a.operator == b.operator && a.value == b.value && a.effect == b.effect

same_toleration-eq : (a b : Toleration) → same_toleration a b ≡ true → a ≡ b
same_toleration-eq a b h = ground (
  arith,
  text_eq_iff a.key b.key,
  text_eq_iff a.operator b.operator,
  text_eq_iff a.value b.value,
  text_eq_iff a.effect b.effect,
)

abbrev pub same_option {ℓ} : {A : Type ℓ} → (A → A → Bool) → Option A → Option A → Bool
same_option same none none = true
same_option same none (some b) = false
same_option same (some a) none = false
same_option same (some a) (some b) = same a b

same_option-eq {ℓ} :
    {A : Type ℓ} (same : A → A → Bool)
    → ((a b : A) → same a b ≡ true → a ≡ b)
    → (o p : Option A) → same_option same o p ≡ true
    → o ≡ p
same_option-eq same eq none none h = refl
same_option-eq same eq none (some b) h = cc h
same_option-eq same eq (some a) none h = cc h
same_option-eq same eq (some a) (some b) h = ap some (eq a b h)

abbrev pub same_bond : BareMetalEndpointBond → BareMetalEndpointBond → Bool
same_bond a b = same_list same_text a.macs b.macs && a.mode == b.mode

same_bond-eq : (a b : BareMetalEndpointBond) → same_bond a b ≡ true → a ≡ b
same_bond-eq a b h =
    ground (arith, same_list-eq same_text same_text-eq a.macs b.macs, text_eq_iff a.mode b.mode)

abbrev pub same_address : BareMetalEndpointStatusAddress → BareMetalEndpointStatusAddress → Bool
same_address a b =
    a.ip == b.ip
    && a.cidr == b.cidr
    && a.gateway == b.gateway
    && same_list same_text a.nameservers b.nameservers
    && same_list same_text a.search_domains b.search_domains

same_address-eq : (a b : BareMetalEndpointStatusAddress) → same_address a b ≡ true → a ≡ b
same_address-eq a b h = ground (
  arith,
  text_eq_iff a.ip b.ip,
  text_eq_iff a.cidr b.cidr,
  text_eq_iff a.gateway b.gateway,
  same_list-eq same_text same_text-eq a.nameservers b.nameservers,
  same_list-eq same_text same_text-eq a.search_domains b.search_domains,
)

abbrev pub instance_equal : Instance.DeepEqual
instance_equal = record {
  same_selector = same_list same_pair;
  same_tolerations = same_list same_toleration;
}

pub instance_equal-IsEquality : Instance.IsEquality instance_equal
instance_equal-IsEquality = record {
  selector = same_list-eq same_pair same_pair-eq;
  tolerations = same_list-eq same_toleration same_toleration-eq;
}

abbrev pub endpoint_equal : Endpoint.DeepEqual
endpoint_equal = record {
  same_bond = same_option same_bond;
  same_address = same_option same_address;
}

pub endpoint_equal-IsEquality : Endpoint.IsEquality endpoint_equal
endpoint_equal-IsEquality = record {
  bond = same_option-eq same_bond same_bond-eq;
  address = same_option-eq same_address same_address-eq;
}
