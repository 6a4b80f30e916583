-- ===== src/Endpoint/Cluster.antt =====
-- The endpoints that the API server stores, and their addresses: when two endpoints are apart, and
-- that replacing one keeps all apart if the new one is apart from the others.
pub mod Unique
use kube_baremetal.Prelude.{
  ◌≡◌, ◌≢◌, refl, sym, ◌∙◌, ap, subst, ◌↔◌, Bool, true, false, ◌&&◌, List, [], ◌∷◌, map, inl, inr,
  ◌⊎◌, Bool-cases, All, length, arith, if◌then◌else◌, ◌==◌, string_eq, text_eq_iff,
}
use kube_baremetal.Ip.{Ip}
use kube_baremetal.Ip.Text.{NetText}
use kube_baremetal.Api.Meta.{NamespacedName, name_of, same_name}
use kube_baremetal.Api.Endpoint.{BareMetalEndpoint}
use kube_baremetal.Client.{Write, update_endpoint_status}
use kube_baremetal.Endpoint.Search.{has_address}
use kube_baremetal.Endpoint.Network.{network_ref_index}

abbrev pub is_named : NamespacedName → BareMetalEndpoint → Bool
is_named k e = same_name (name_of e.meta) k

-- The server's status update: the stored object of that name gets the new value.
unfoldable pub store : BareMetalEndpoint → List BareMetalEndpoint → List BareMetalEndpoint
store e [] = []
store e (f ∷ fs) = (if is_named (name_of e.meta) f then e else f) ∷ store e fs

-- The endpoints after the writes of a reconciler that updates the status of endpoints.
unfoldable pub after : List Write → List BareMetalEndpoint → List BareMetalEndpoint
unfolding store
after [] es = es
after (update_endpoint_status e ∷ ws) es = after ws (store e es)
after (w ∷ ws) es = after ws es

-- No address of 16 bytes is held by both, if they refer to one network.
abbrev pub Apart : NetText → BareMetalEndpoint → BareMetalEndpoint → Type 0
Apart net e f =
    network_ref_index e ≡ network_ref_index f
    → (x : Ip) → length x ≡ 16
    → has_address net x e ≡ true
    → has_address net x f ≡ true
    → ⊥

abbrev pub AllApart : NetText → List BareMetalEndpoint → Type 0
AllApart net [] = Unit
AllApart net (e ∷ es) = All (Apart net e) es × AllApart net es

-- No two stored endpoints have one name.
abbrev pub NodupNames : List BareMetalEndpoint → Type 0
NodupNames [] = Unit
NodupNames (e ∷ es) = All (λ f. name_of f.meta ≢ name_of e.meta) es × NodupNames es

-- `e` is what is stored under its name.
abbrev pub IsStored : BareMetalEndpoint → List BareMetalEndpoint → Type 0
IsStored e es = All (λ f. name_of f.meta ≡ name_of e.meta → f ≡ e) es

pub same_name_iff : (a b : NamespacedName) → (same_name a b ≡ true) ↔ (a ≡ b)
same_name_iff a b = (
  λ h. ground (arith, text_eq_iff a.namespace b.namespace, text_eq_iff a.name b.name),
  λ h. ground (arith, text_eq_iff a.namespace b.namespace, text_eq_iff a.name b.name),
)

Apart-sym : (net : NetText) (e f : BareMetalEndpoint) → Apart net e f → Apart net f e
Apart-sym net e f h i x l a b = h (sym i) x l b a

pub true-false : (b : Bool) → b ≡ true → b ≡ false → ⊥
true-false b t f = cc

-- What the new value must keep of the old, against every stored endpoint.
abbrev pub StaysApart :
    NetText → BareMetalEndpoint → BareMetalEndpoint → List BareMetalEndpoint → Type 0
StaysApart net old new es = All (λ f. Apart net old f → Apart net new f) es

module _ (net : NetText) (old new : BareMetalEndpoint)
    (names : name_of new.meta ≡ name_of old.meta) where
  name_cases :
      (g : BareMetalEndpoint)
      → ((is_named (name_of new.meta) g ≡ true) × (name_of g.meta ≡ name_of old.meta))
        ⊎ ((is_named (name_of new.meta) g ≡ false) × (name_of g.meta ≢ name_of old.meta))
  name_cases g = elim (Bool-cases (is_named (name_of new.meta) g)) [
    | inl t ↦ inl (t, (same_name_iff _ _).0 t ∙ names)
    | inr t ↦ inr (t, λ e. true-false _ ((same_name_iff _ _).1 (e ∙ sym names)) t)
  ]

  store_other :
      (es : List BareMetalEndpoint)
      → All (λ f. name_of f.meta ≢ name_of old.meta) es
      → store new es ≡ es
  unfolding store
  store_other [] h = refl
  store_other (f ∷ fs) (n, h) = elim (name_cases f) [
    | inl (t, e) ↦ absurd (n e)
    | inr (t, _) ↦ rw t (ap (λ gs. f ∷ gs) (store_other fs h))
  ]

  StaysApart-All :
      (es : List BareMetalEndpoint)
      → StaysApart net old new es
      → All (Apart net old) es
      → All (Apart net new) es
  StaysApart-All [] s a = tt
  StaysApart-All (f ∷ fs) (s, ss) (a, as') = (s a, StaysApart-All fs ss as')

  Apart-store :
      (f : BareMetalEndpoint) (es : List BareMetalEndpoint)
      → (Apart net old f → Apart net new f)
      → IsStored old es
      → All (Apart net f) es
      → All (Apart net f) (store new es)
  unfolding store
  Apart-store f [] s i a = tt
  Apart-store f (g ∷ gs) s (i, is) (a, as') = elim (name_cases g) [
    | inl (t, e) ↦ rw t (
      Apart-sym net new f (s (Apart-sym net f old (subst (Apart net f) (i e) a))),
      Apart-store f gs s is as',
    )
    | inr (t, _) ↦ rw t (a, Apart-store f gs s is as')
  ]

  pub store-AllApart :
      (es : List BareMetalEndpoint)
      → AllApart net es
      → NodupNames es
      → IsStored old es
      → StaysApart net old new es
      → AllApart net (store new es)
  unfolding store
  store-AllApart [] a n i s = tt
  store-AllApart (f ∷ fs) (a, as') (n, ns) (i, is) (s, ss) = elim (name_cases f) [
    | inl (t, e) ↦
        let same : f ≡ old = i e in
        let others : All (λ g. name_of g.meta ≢ name_of old.meta) fs =
          subst (λ (g : BareMetalEndpoint). All (λ h. name_of h.meta ≢ name_of g.meta) fs) same n in
        let here : All (Apart net old) fs = subst (λ g. All (Apart net g) fs) same a in
        rw t (
          subst (All (Apart net new)) (sym (store_other fs others)) (StaysApart-All fs ss here),
          store-AllApart fs as' ns is ss,
        )
    | inr (t, _) ↦ rw t (Apart-store f fs s is a, store-AllApart fs as' ns is ss)
  ]
