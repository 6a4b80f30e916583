-- ===== src/Client/Once.antt =====
-- Computations that write at most once, and what holds of that write: one rule for each way in
-- which a handler is built.
use kube_baremetal.Prelude.{
  ◌≡◌, refl, sym, subst, ap, ◌∙◌, Bool, true, false, Option, none, some, List, [], ◌∷◌, ◌++◌,
  if◌then◌else◌, arith,
}
use kube_baremetal.Client.{
  Server, Exec, completed, failed, panicked, diverged, Reply, ok, err, not_found,
  condition_not_formed, api_status, failure, Error, send, Result, Write, Effect, wrote, event, call,
  called, ◌>>=◌, ◌>>◌, write, or_fail, or_not_formed, ignore_not_found,
}
use kube_baremetal.Agent.{Call}
use kube_baremetal.Condition.{StatusCondition}
use kube_baremetal.Client.Effects.{writes}

writes-append : (es fs : List Effect) → writes (es ++ fs) ≡ writes es ++ writes fs
writes-append [] fs = refl
writes-append (wrote w ∷ es) fs = ap (λ ws. w ∷ ws) (writes-append es fs)
writes-append (event o t r ∷ es) fs = writes-append es fs

abbrev pub AtMostOne : (Write → Type 0) → List Write → Type 0
AtMostOne P [] = Unit
AtMostOne P (w ∷ []) = P w
AtMostOne P (w ∷ v ∷ ws) = ⊥

-- `m` writes nothing, or once, and then `P` holds of the write.
pub record Once {ℓ} {A : Type ℓ} (P : Write → Type 0) (m : Exec A) : Type ℓ where
  pub at_most : AtMostOne P (writes m.1)

-- `m` writes nothing.
pub record IsQuiet {ℓ} {A : Type ℓ} (m : Exec A) : Type ℓ where
  pub none_written : writes m.1 ≡ []

module _ (P : Write → Type 0) where
  pub Once-quiet {ℓ} : {A : Type ℓ} (m : Exec A) → IsQuiet m → Once P m
  Once-quiet m q = record { at_most = subst (AtMostOne P) (sym q.none_written) tt }

  pub Once-if {ℓ} :
      {A : Type ℓ} (b : Bool) (m n : Exec A)
      → (b ≡ true → Once P m)
      → (b ≡ false → Once P n)
      → Once P (if b then m else n)
  Once-if true m n km kn = km refl
  Once-if false m n km kn = kn refl

  Once-send {ℓ} :
      {A : Type ℓ} (answer : Option Error) (w : Write) (k : Exec A)
      → IsQuiet k
      → P w
      → Once P (send answer w >> k)
  Once-send none w k q p = record {
    at_most = subst (λ ws. AtMostOne P (w ∷ ws)) (sym q.none_written) p;
  }
  Once-send (some e) w k q p = record { at_most = tt }

  pub Once-write {ℓ} :
      {A : Type ℓ} (server : Server) (w : Write) (k : Exec A)
      → IsQuiet k
      → P w
      → Once P (write server w >> k)
  Once-write server w k q p = Once-send (server.refuses w) w k q p

  pub Once-call {ℓ} :
      {A : Type ℓ} (c : Call) (k : Exec A) → IsQuiet k → P (called c) → Once P (call c >> k)
  Once-call c k q p = Once-send none (called c) k q p

  pub Once-bind {ℓ κ} :
      {A : Type ℓ} {B : Type κ} (m : Exec A) (f : A → Exec B)
      → IsQuiet m
      → ((a : A) → m.0 ≡ completed a → Once P (f a))
      → Once P (m >>= f)
  Once-bind (completed a, es) f q k =
      let split : writes (es ++ (f a).1) ≡ writes (f a).1 =
        writes-append es (f a).1 ∙ ap (λ ws. ws ++ writes (f a).1) q.none_written in
      record { at_most = subst (AtMostOne P) (sym split) (k a refl).at_most }
  Once-bind (failed e, es) f q k =
      Once-quiet (failed e, es) (record { none_written = q.none_written })
  Once-bind (panicked, es) f q k =
      Once-quiet (panicked, es) (record { none_written = q.none_written })
  Once-bind (diverged, es) f q k =
      Once-quiet (diverged, es) (record { none_written = q.none_written })

  pub Once-ignore_not_found :
      {A : Type 0} (r : Reply A) (f : A → Exec Result)
      → ((a : A) → r ≡ ok a → Once P (f a))
      → Once P (ignore_not_found r f)
  Once-ignore_not_found (ok a) f k = k a refl
  Once-ignore_not_found (err not_found) f k = record { at_most = tt }
  Once-ignore_not_found (err condition_not_formed) f k = record { at_most = tt }
  Once-ignore_not_found (err (api_status n)) f k = record { at_most = tt }
  Once-ignore_not_found (err (failure s)) f k = record { at_most = tt }

pub IsQuiet-bind {ℓ κ} :
    {A : Type ℓ} {B : Type κ} (m : Exec A) (f : A → Exec B)
    → IsQuiet m
    → ((a : A) → IsQuiet (f a))
    → IsQuiet (m >>= f)
IsQuiet-bind (completed a, es) f q k = record {
  none_written =
      writes-append es (f a).1
      ∙ ap (λ ws. ws ++ writes (f a).1) q.none_written
      ∙ (k a).none_written;
}
IsQuiet-bind (failed e, es) f q k = record { none_written = q.none_written }
IsQuiet-bind (panicked, es) f q k = record { none_written = q.none_written }
IsQuiet-bind (diverged, es) f q k = record { none_written = q.none_written }

pub IsQuiet-if {ℓ} :
    {A : Type ℓ} (b : Bool) (m n : Exec A) → IsQuiet m → IsQuiet n → IsQuiet (if b then m else n)
IsQuiet-if true m n p q = p
IsQuiet-if false m n p q = q

pub or_fail-IsQuiet {ℓ} : {A : Type ℓ} (r : Reply A) → IsQuiet (or_fail r)
or_fail-IsQuiet (ok a) = record { none_written = refl }
or_fail-IsQuiet (err e) = record { none_written = refl }

pub or_fail-ok {ℓ} : {A : Type ℓ} (r : Reply A) (a : A) → (or_fail r).0 ≡ completed a → r ≡ ok a
or_fail-ok (ok b) a h = cc
or_fail-ok (err e) a h = cc

pub or_not_formed-IsQuiet : (o : Option (List StatusCondition)) → IsQuiet (or_not_formed o)
or_not_formed-IsQuiet none = record { none_written = refl }
or_not_formed-IsQuiet (some cs) = record { none_written = refl }

pub or_not_formed-some :
    (o : Option (List StatusCondition)) (cs : List StatusCondition)
    → (or_not_formed o).0 ≡ completed cs
    → o ≡ some cs
or_not_formed-some none cs h = ground arith
or_not_formed-some (some c) cs h = ground arith

-- Two things that hold of the one write.
pub Once-both {ℓ} :
    {A : Type ℓ} {P Q : Write → Type 0} (m : Exec A) → Once P m → Once Q m → Once (λ w. P w × Q w) m
Once-both {P} {Q} m p q = record { at_most = go (writes m.1) p.at_most q.at_most }
  where
    go : (ws : List Write) → AtMostOne P ws → AtMostOne Q ws → AtMostOne (λ w. P w × Q w) ws
    go [] p q = tt
    go (w ∷ []) p q = (p, q)
    go (w ∷ v ∷ ws) p q = p

-- What follows from what holds of the one write.
pub Once-weaken {ℓ} :
    {A : Type ℓ} (P Q : Write → Type 0) (m : Exec A)
    → Once P m
    → ((w : Write) → P w → Q w)
    → Once Q m
Once-weaken P Q m p f = record { at_most = go (writes m.1) p.at_most }
  where
    go : (ws : List Write) → AtMostOne P ws → AtMostOne Q ws
    go [] p = tt
    go (w ∷ []) p = f w p
    go (w ∷ v ∷ ws) p = p

-- The one write, named.
pub Once-wrote {ℓ} :
    {A : Type ℓ} {P : Write → Type 0} {m : Exec A} {w : Write}
    → Once P m
    → writes m.1 ≡ w ∷ []
    → P w
Once-wrote {P} once h = subst (AtMostOne P) h once.at_most
