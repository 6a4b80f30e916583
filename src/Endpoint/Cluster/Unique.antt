-- ===== src/Endpoint/Cluster/Unique.antt =====
-- `Network.Reconcile` keeps the addresses of the endpoints of a network apart.
use kube_baremetal.Prelude.{
  ◌⊎◌, inl, inr, Bool-cases, is_some, ◌≡◌, sym, ◌∙◌, ap, subst, true, false, none, some, List, [],
  ◌∷◌, String, All, length, arith, ◌==◌, string_eq, text_eq_iff,
}
use kube_baremetal.Ip.{Ip, equal}
use kube_baremetal.Ip.Equal.{eq_of_equal}
use kube_baremetal.Ip.Text.{NetText, ParsesSixteen, RoundTrips}
use kube_baremetal.Api.Meta.{NamespacedName, name_of, group}
use kube_baremetal.Api.Endpoint.{BareMetalEndpoint, BareMetalEndpointSpec}
use kube_baremetal.Api.Network.{BareMetalNetwork}
use kube_baremetal.Client.{Server, ok, Write, update_endpoint_status}
use kube_baremetal.Client.Effects.{writes}
use kube_baremetal.Client.Once.{Once-both, AtMostOne}
use kube_baremetal.Endpoint.Search.{has_address, is_allocated, parse_or_nil}
use kube_baremetal.Endpoint.Network
use kube_baremetal.Endpoint.Network.{network_ref_index, ref_key, address_of}
use kube_baremetal.Endpoint.Phases.{IsStepOf, network_reconcile-Step}
use kube_baremetal.Endpoint.Address.{HasRange}
use kube_baremetal.Endpoint.Change.{
  Change, kept, cleared, given, IsGiven, network_name, network_reconcile-Change,
}
use kube_baremetal.Endpoint.Cluster.{
  Apart, AllApart, NodupNames, IsStored, StaysApart, true-false, after, store-AllApart,
}

-- The list has an endpoint with the address of `f`.
abbrev pub Shows : BareMetalEndpoint → List BareMetalEndpoint → Type 0
Shows f [] = ⊥
Shows f (g ∷ gs) = (g.status.address ≡ f.status.address) ⊎ Shows f gs

-- What one reconcile reads is up to date: the endpoint and the name of the network are those that are
-- stored, and the list by the index shows every address that is stored under its key. It may be out
-- of date in all else. The client of the source reads from a cache, so a run can find this untrue.
pub record IsFresh (server : Server) (cluster : List BareMetalEndpoint) : Type 0 where
  pub stored :
      (req : NamespacedName) (e : BareMetalEndpoint)
      → server.get_endpoint req ≡ ok e
      → IsStored e cluster
  pub indexed :
      (key : String) (bmes : List BareMetalEndpoint)
      → server.list_endpoints_by_network_ref key ≡ ok bmes
      → All
          (λ f.
            (network_ref_index f == key) ≡ true → is_some f.status.address ≡ true → Shows f bmes)
          cluster
  pub network :
      (k : NamespacedName) (bmn : BareMetalNetwork)
      → server.get_network k ≡ ok bmn
      → (bmn.kind ≡ "BareMetalNetwork") × (bmn.meta.name ≡ k.name)

-- What the stored text of an address parses to.
has_address-stored :
    (net : NetText) (x ip : Ip) (e : BareMetalEndpoint) (bmn : BareMetalNetwork)
    → net.parse_ip (net.ip_string ip) ≡ some ip
    → e.status.address ≡ some (address_of net bmn ip)
    → has_address net x e ≡ true
    → equal x ip ≡ true
unfolding has_address parse_or_nil
has_address-stored net x ip e bmn p a h = ground arith

has_address-none :
    (net : NetText) (x : Ip) (e : BareMetalEndpoint)
    → e.status.address ≡ none
    → has_address net x e ≡ true
    → ⊥
unfolding has_address
has_address-none net x e a h = ground arith

has_address-same :
    (net : NetText) (x : Ip) (e f : BareMetalEndpoint)
    → e.status.address ≡ f.status.address
    → has_address net x e ≡ has_address net x f
unfolding has_address
has_address-same net x e f a = ground arith

-- What is not allocated to a listed endpoint is not held by one that the list shows.
shown-free :
    (net : NetText) (ip : Ip) (f : BareMetalEndpoint) (bmes : List BareMetalEndpoint)
    → is_allocated net bmes ip ≡ false
    → Shows f bmes
    → has_address net ip f ≡ false
unfolding is_allocated
shown-free net ip f [] free shows = absurd shows
shown-free net ip f (g ∷ gs) free (inl same) =
    sym (has_address-same net ip g f same) ∙ ground (arith, free)
shown-free net ip f (g ∷ gs) free (inr shows) = shown-free net ip f gs (ground (arith, free)) shows

has_address-nothing :
    (net : NetText) (ip : Ip) (f : BareMetalEndpoint)
    → is_some f.status.address ≡ false
    → has_address net ip f ≡ false
unfolding has_address
has_address-nothing net ip f nothing = ground (arith, nothing)

not_held :
    (net : NetText) (ip : Ip) (f : BareMetalEndpoint) (bmes : List BareMetalEndpoint)
    → is_allocated net bmes ip ≡ false
    → (is_some f.status.address ≡ true → Shows f bmes)
    → has_address net ip f ≡ false
not_held net ip f bmes free shows = elim (Bool-cases (is_some f.status.address)) [
  | inl held ↦ shown-free net ip f bmes free (shows held)
  | inr none_held ↦ has_address-nothing net ip f none_held
]

index-same : (e f : BareMetalEndpoint) → e.spec ≡ f.spec → network_ref_index e ≡ network_ref_index f
unfolding network_ref_index
index-same e f h =
    ap
      (λ (s : BareMetalEndpointSpec).
        ref_key s.network_ref.group s.network_ref.kind s.network_ref.name)
      h

All-of {ℓ} : {A : Type ℓ} {P : A → Type 0} (xs : List A) → ((x : A) → P x) → All P xs
All-of [] h = tt
All-of (x ∷ xs) h = (h x, All-of xs h)

pub All-map {ℓ} :
    {A : Type ℓ} {P Q : A → Type 0} (xs : List A) → ((x : A) → P x → Q x) → All P xs → All Q xs
All-map [] f h = tt
All-map (x ∷ xs) f (p, h) = (f x p, All-map xs f h)

module _ (server : Server) (net : NetText) (cluster : List BareMetalEndpoint)
    (bme e : BareMetalEndpoint) (sixteen : ParsesSixteen net) (trips : RoundTrips net)
    (fresh : IsFresh server cluster) (same_spec : e.spec ≡ bme.spec) where
  same_index : network_ref_index bme ≡ network_ref_index e
  same_index = index-same bme e (sym same_spec)

  -- The key of the list is the key of the endpoint.
  listed_key :
      (g : IsGiven server net bme e)
      → network_ref_index e ≡ ref_key group g.bmn.kind g.bmn.meta.name
  unfolding network_ref_index
  listed_key g =
      let (kind, name) = fresh.network _ g.bmn g.named in
      sym same_index ∙ cc (g.right_group, g.right_kind, kind, name)

  free_elsewhere :
      (g : IsGiven server net bme e)
      → All
          (λ f.
            (network_ref_index f == ref_key group g.bmn.kind g.bmn.meta.name) ≡ true
            → has_address net g.ip f ≡ false)
          cluster
  unfolding is_allocated
  free_elsewhere g =
      let key = ref_key group g.bmn.kind g.bmn.meta.name in
      All-map cluster (λ f shown k. not_held net g.ip f g.bmes g.available.not_allocated (shown k))
        (fresh.indexed key g.bmes g.listed)

  given-Apart :
      (g : IsGiven server net bme e) (f : BareMetalEndpoint)
      → ((network_ref_index f == ref_key group g.bmn.kind g.bmn.meta.name) ≡ true
          → has_address net g.ip f ≡ false)
      → Apart net bme f
      → Apart net e f
  given-Apart g f fresh _ i x l he hf =
      let av = g.available in
      let long : length g.ip ≡ 16 = av.between.long ∙ (sixteen _ _ av.end_parses).0 in
      let parses = trips g.ip long av.between.bytes in
      let same_ip : x ≡ g.ip = eq_of_equal x g.ip l long (
        has_address-stored net x g.ip e g.bmn parses
          (ap (λ (b : BareMetalEndpoint). b.status.address) g.stored) he) in
      let none_there = fresh ((text_eq_iff _ _).1 (sym i ∙ listed_key g)) in
      true-false _ (subst (λ y. has_address net y f ≡ true) same_ip hf) none_there

  Change-StaysApart :
      Change server net bme (update_endpoint_status e) → StaysApart net bme e cluster
  Change-StaysApart (kept a) = All-of cluster λ f apart i x l he hf.
      apart (same_index ∙ i) x l (sym (has_address-same net x e bme a) ∙ he) hf
  Change-StaysApart (cleared d a) =
      All-of cluster λ f apart i x l he hf. has_address-none net x e a he
  Change-StaysApart (given d g) = All-map cluster (given-Apart g) (free_elsewhere g)

one_write-AllApart :
    (server : Server) (net : NetText) (cluster : List BareMetalEndpoint) (bme : BareMetalEndpoint)
    → ParsesSixteen net
    → RoundTrips net
    → IsFresh server cluster
    → IsStored bme cluster
    → NodupNames cluster
    → AllApart net cluster
    → (ws : List Write) → AtMostOne (λ w. IsStepOf bme w × Change server net bme w) ws
    → AllApart net (after ws cluster)
unfolding after
one_write-AllApart server net cluster bme sixteen trips serves s n a [] p = a
one_write-AllApart server net cluster bme sixteen trips serves s n a (update_endpoint_status e ∷ [])
      ((meta, spec, _), change) =
    store-AllApart net bme e (ap name_of meta) cluster a n s
      (Change-StaysApart server net cluster bme e sixteen trips serves spec change)
one_write-AllApart server net cluster bme sixteen trips serves s n a (w ∷ v ∷ ws) p = absurd p
one_write-AllApart server net cluster bme sixteen trips serves s n a (w ∷ []) p = absurd p.0

-- The addresses of the stored endpoints of one network stay apart: where no two of them share an
-- address of 16 bytes, none do after `Network.Reconcile` of any stored endpoint, provided that what
-- it reads is up to date: the endpoint is the stored one, the network is of the kind and the name
-- asked for, and the list shows every address that is stored for the network. No two endpoints are
-- stored under one name, the network of the endpoint has a range, and addresses of 16 bytes are read
-- back from their text.
pub network_reconcile-AllApart :
    (server : Server) (net : NetText) (cluster : List BareMetalEndpoint) (bme : BareMetalEndpoint)
    (req : NamespacedName)
    → ParsesSixteen net
    → RoundTrips net
    → IsFresh server cluster
    → NodupNames cluster
    → server.get_endpoint req ≡ ok bme
    → ((bmn : BareMetalNetwork) → server.get_network (network_name bme) ≡ ok bmn → HasRange net bmn)
    → AllApart net cluster
    → AllApart net (after (writes (Network.reconcile server net req).1) cluster)
network_reconcile-AllApart server net cluster bme req sixteen trips serves names h ranges apart =
    one_write-AllApart server net cluster bme sixteen trips serves (serves.stored req bme h) names
      apart (writes (Network.reconcile server net req).1)
      (Once-both (Network.reconcile server net req) (network_reconcile-Step server net bme req h)
        (network_reconcile-Change server net bme req sixteen h ranges)).at_most
