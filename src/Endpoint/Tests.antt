-- ===== src/Endpoint/Tests.antt =====
-- The endpoint reconcilers on the cluster of the example.
use kube_baremetal.Prelude.{
  none, is_some, List, All, inl, inr, Bool-cases, keep_if, ◌≡◌, ◌≢◌, refl, ℕ, Bool, true, false,
  some, String, [], ◌∷◌, if◌then◌else◌, ◌==◌, string_eq, nat_eq, text_eq, text_eq_iff, arith, ap,
  sym, subst, ◌<◌,
}
use kube_baremetal.Ip.{Ip, IpNet, IsBytes, value, inc, not_below, equal, mask_ip, broadcast_of}
use kube_baremetal.Ip.Example.{net_text, net_text-ParsesSixteen, net_text-RoundTrips, print, parse}
use kube_baremetal.Api.Meta.{NamespacedName, name_of, same_name}
use kube_baremetal.Api.Endpoint.{
  BareMetalEndpoint, empty, pending, addressing, deleted, deleting as deleting_phase,
}
use kube_baremetal.Api.Network.{BareMetalNetwork}
use kube_baremetal.Client.{Server, ok, ok_injective, err, not_found, update_endpoint_status}
use kube_baremetal.Client.Effects.{writes}
use kube_baremetal.Endpoint.Search.{next_ip, has_address, is_special, is_nameserver, is_allocated}
use kube_baremetal.Endpoint.Address.{HasRange}
use kube_baremetal.Endpoint.Change.{network_name, network_reconcile-Change, Change}
use kube_baremetal.Endpoint.Cluster.{AllApart, NodupNames, IsStored, after, true-false}
use kube_baremetal.Endpoint.Cluster.Unique.{All-map, IsFresh, Shows, network_reconcile-AllApart}
use kube_baremetal.Client.Once.{Once}
use kube_baremetal.Endpoint.Search.First.{IsFirstFree, next_ip-IsFirstFree}
use kube_baremetal.Endpoint.Total.{Ends, allocate-Ends}
use kube_baremetal.Endpoint.Phases.{
  IsStepOf, network_reconcile-Step, start, begin, give, settle, retire, free, finish,
}
use kube_baremetal.Endpoint.Lifecycle.{
  Reach, created, step, delete, IsSound, IsRelease, controller_reconcile-IsRelease,
}
use kube_baremetal.Endpoint.Life.{Life, create, take, by_controller, by_network, Life-IsSound}
use kube_baremetal.Endpoint.Controller
use kube_baremetal.Endpoint.Network
use kube_baremetal.Endpoint.Network.{network_ref_index, address_of, allocate, is_taken, ref_key}
use kube_baremetal.Endpoint.Example.{v4, lan, endpoint, a, b, cluster, server}

-- 10.0.0.2 is held, 10.0.0.3 is a nameserver: `b` gets 10.0.0.4.
b_addressed :
    writes (Network.reconcile server net_text (name_of b.meta)).1
    ≡ update_endpoint_status
        (endpoint "b" "lan" addressing (some (address_of net_text lan (v4 10 0 0 4))))
      ∷ []
unfolding Network.reconcile next_ip has_address text_eq print parse network_ref_index broadcast_of
    mask_ip not_below is_special equal value inc is_nameserver is_allocated
b_addressed = refl

bytes_of : (d : ℕ) → d < 256 → IsBytes (v4 10 0 0 d)
bytes_of d h = omega arith

-- The range of `lan`.
abbrev lan_range : HasRange net_text lan
unfolding value
lan_range = record {
  start = v4 10 0 0 1;
  end = v4 10 0 0 6;
  start_parses = net_text-RoundTrips (v4 10 0 0 1) refl (bytes_of 1 (omega arith));
  end_parses = net_text-RoundTrips (v4 10 0 0 6) refl (bytes_of 6 (omega arith));
  not_last = omega arith;
}

network_of_b :
    (bmn : BareMetalNetwork) → server.get_network (network_name b) ≡ ok bmn → HasRange net_text bmn
unfolding text_eq
network_of_b bmn h = subst (HasRange net_text) (ok_injective h) lan_range

differ : (s t : String) → text_eq s t ≡ false → s ≢ t
differ s t f e = true-false _ ((text_eq_iff s t).1 e) f

names_differ : (m n : NamespacedName) → text_eq m.name n.name ≡ false → m ≢ n
names_differ m n f e = differ m.name n.name f (ap (λ (k : NamespacedName). k.name) e)

read_b :
    (found_it : Bool) (e : BareMetalEndpoint)
    → (if found_it then ok b else err not_found) ≡ ok e
    → b ≡ e
read_b true e h = ok_injective h
read_b false e h = cc h

read_lan :
    (found_it : Bool) (k : NamespacedName) (bmn : BareMetalNetwork)
    → (found_it ≡ true → k.name ≡ "lan")
    → (if found_it then ok lan else err not_found) ≡ ok bmn
    → (bmn.kind ≡ "BareMetalNetwork") × (bmn.meta.name ≡ k.name)
read_lan true k bmn n h =
    subst (λ (m : BareMetalNetwork). (m.kind ≡ "BareMetalNetwork") × (m.meta.name ≡ k.name))
      (ok_injective h) (refl, sym (n refl))
read_lan false k bmn n h = cc h

b-IsStored : IsStored b cluster
unfolding text_eq
b-IsStored = (
  λ h. absurd (names_differ _ _ refl h),
  (λ _. refl, (λ h. absurd (names_differ _ _ refl h), tt)),
)

-- The list by the index shows all endpoints of the key.
Shows-weaken :
    (p : BareMetalEndpoint → Bool) (f g : BareMetalEndpoint) (es : List BareMetalEndpoint)
    → Shows f (keep_if p es)
    → Shows f (keep_if p (g ∷ es))
Shows-weaken p f g es shows = elim (Bool-cases (p g)) [
  | inl kept ↦ rw kept (inr shows)
  | inr left ↦ rw left shows
]

Shows-keep_if :
    (p : BareMetalEndpoint → Bool) (es : List BareMetalEndpoint)
    → All (λ f. p f ≡ true → is_some f.status.address ≡ true → Shows f (keep_if p es)) es
Shows-keep_if p [] = tt
Shows-keep_if p (g ∷ es) = (
  λ k _. rw k (inl refl),
  All-map es (λ f shown k held. Shows-weaken p f g es (shown k held)) (Shows-keep_if p es),
)

server-IsFresh : IsFresh server cluster
server-IsFresh = record {
  stored = λ req e h.
      subst (λ g. IsStored g cluster) (read_b (same_name req (name_of b.meta)) e h) b-IsStored;
  indexed = λ key bmes listed.
      subst
        (λ bs.
          All
            (λ f.
              (network_ref_index f == key) ≡ true → is_some f.status.address ≡ true → Shows f bs)
            cluster)
        (ok_injective listed) (Shows-keep_if (λ e. network_ref_index e == key) cluster);
  network = λ k bmn h. read_lan (k.name == "lan") k bmn (λ t. (text_eq_iff _ _).0 t) h;
}

cluster-NodupNames : NodupNames cluster
unfolding text_eq
cluster-NodupNames =
    ((names_differ _ _ refl, (names_differ _ _ refl, tt)), ((names_differ _ _ refl, tt), (tt, tt)))

cluster-AllApart : AllApart net_text cluster
unfolding text_eq has_address network_ref_index
cluster-AllApart = (
  (λ i x l ha hb. cc hb, (λ i. absurd (differ _ _ refl i), tt)),
  ((λ i x l hb hc. cc hb, tt), (tt, tt)),
)

network_reconcile-AllApart_example :
    AllApart net_text
      (after (writes (Network.reconcile server net_text (name_of b.meta)).1) cluster)
unfolding text_eq
network_reconcile-AllApart_example =
    network_reconcile-AllApart server net_text cluster b (name_of b.meta) net_text-ParsesSixteen
      net_text-RoundTrips server-IsFresh cluster-NodupNames refl network_of_b cluster-AllApart

-- Where the list is out of date and does not show `a`, its address 10.0.0.2 is given once more.
stale_addressed :
    writes
      (Network.reconcile
        (record server { list_endpoints_by_network_ref = λ key. ok (b ∷ []) })
        net_text
        (name_of b.meta)).1
    ≡ update_endpoint_status
        (endpoint "b" "lan" addressing (some (address_of net_text lan (v4 10 0 0 2))))
      ∷ []
unfolding Network.reconcile next_ip has_address text_eq print parse network_ref_index broadcast_of
    mask_ip not_below is_special equal value inc is_nameserver is_allocated
stale_addressed = refl

network_reconcile-Change_example :
    Once (Change server net_text b) (Network.reconcile server net_text (name_of b.meta))
unfolding text_eq
network_reconcile-Change_example =
    network_reconcile-Change server net_text b (name_of b.meta) net_text-ParsesSixteen refl
      network_of_b

network_reconcile-Step_example :
    Once (IsStepOf b) (Network.reconcile server net_text (name_of b.meta))
unfolding text_eq
network_reconcile-Step_example = network_reconcile-Step server net_text b (name_of b.meta) refl

-- 10.0.0.1 is taken.
next_ip-IsFirstFree_example :
    IsFirstFree
      (λ ip. equal ip (v4 10 0 0 1))
      (v4 10 0 0 6)
      (value (v4 10 0 0 1))
      (next_ip (λ ip. equal ip (v4 10 0 0 1)) (v4 10 0 0 1) (v4 10 0 0 6))
unfolding value
next_ip-IsFirstFree_example =
    next_ip-IsFirstFree (λ ip. equal ip (v4 10 0 0 1)) (v4 10 0 0 1) (v4 10 0 0 6) refl
      (bytes_of 1 (omega arith)) (bytes_of 6 (omega arith)) (omega arith)

abbrev lan_cidr_ip : Ip
lan_cidr_ip = 10 ∷ 0 ∷ 0 ∷ 0 ∷ []

abbrev lan_net : IpNet
lan_net = record { ip = lan_cidr_ip; mask = 255 ∷ 255 ∷ 255 ∷ 248 ∷ [] }

abbrev lan_broadcast : Ip
lan_broadcast = 10 ∷ 0 ∷ 0 ∷ 7 ∷ []

allocate-Ends_example :
    Ends net_text lan b
      (is_taken net_text lan (mask_ip lan_cidr_ip lan_net.mask) lan_broadcast (a ∷ b ∷ []))
      (v4 10 0 0 6)
      (value (v4 10 0 0 1))
      (allocate server net_text b lan)
unfolding text_eq network_ref_index parse mask_ip broadcast_of lan_range
allocate-Ends_example =
    allocate-Ends server net_text b lan (λ _. refl) (a ∷ b ∷ []) lan_cidr_ip lan_broadcast lan_net
      lan_range net_text-ParsesSixteen refl refl refl

-- An endpoint that was given an address, deleted, and gave it back.
gone : BareMetalEndpoint
gone = record b {
  meta = record b.meta { deletion_timestamp = some 7 };
  status = record b.status { phase = deleted };
}

gone-Reach : Reach true (record b.status { phase = deleted })
gone-Reach =
    let held = some (address_of net_text lan (v4 10 0 0 2)) in
    let new : Reach false (record b.status { phase = empty }) = created refl refl in
    let given_one : Reach false (record b.status { address = held }) =
      step (step (step new (start refl refl)) (begin refl refl refl))
        (give refl refl refl refl refl) in
    let freed : Reach true (record b.status { phase = deleting_phase }) =
      step (step (delete (step given_one (settle refl refl refl))) (retire refl refl refl))
        (free refl refl refl) in
    step freed (finish refl refl refl)

-- An endpoint that gets its first phase, is taken up, and is given an address.
abbrev new_endpoint : BareMetalEndpoint
new_endpoint = endpoint "b" "lan" empty none

abbrev pending_endpoint : BareMetalEndpoint
pending_endpoint = endpoint "b" "lan" pending none

abbrev held_endpoint : BareMetalEndpoint
held_endpoint = endpoint "b" "lan" addressing (some (address_of net_text lan (v4 10 0 0 4)))

abbrev serving : BareMetalEndpoint → Server
serving e = record server { get_endpoint = λ _. ok e }

pending-Life : Life pending_endpoint
unfolding Controller.reconcile
pending-Life =
    take (create refl refl refl) (by_controller (serving new_endpoint) (name_of b.meta) refl refl)

b-Life : Life b
unfolding Network.reconcile text_eq
b-Life =
    take pending-Life (by_network (serving pending_endpoint) net_text (name_of b.meta) refl refl)

held-Life : Life held_endpoint
unfolding text_eq
held-Life = take b-Life (by_network server net_text (name_of b.meta) refl b_addressed)

Life-IsSound_example : IsSound false held_endpoint.status
Life-IsSound_example = Life-IsSound held-Life

controller_reconcile-IsRelease_example :
    Once
      (IsRelease gone)
      (Controller.reconcile (record server { get_endpoint = λ _. ok gone }) (name_of gone.meta))
unfolding gone
controller_reconcile-IsRelease_example =
    controller_reconcile-IsRelease (record server { get_endpoint = λ _. ok gone }) gone
      (name_of gone.meta) refl gone-Reach
