-- ===== src/Client/Safe.antt =====
-- Computations that do not panic.
use kube_baremetal.Prelude.{Bool, true, false, if◌then◌else◌, List, Option, none, some}
use kube_baremetal.Condition.{StatusCondition}
use kube_baremetal.Client.{
  Server, Exec, Outcome, completed, failed, panicked, diverged, Reply, ok, err, Error, Write,
  or_fail, or_not_formed, send, write, ◌>>=◌,
}

abbrev pub NotPanicked {ℓ} : {A : Type ℓ} → Outcome A → Type 0
NotPanicked (completed a) = Unit
NotPanicked (failed e) = Unit
NotPanicked panicked = ⊥
NotPanicked diverged = Unit

-- `m` ends, or not, without a panic.
pub record IsSafe {ℓ} {A : Type ℓ} (m : Exec A) : Type 0 where
  pub not_panicked : NotPanicked m.0

pub IsSafe-bind {ℓ κ} :
    {A : Type ℓ} {B : Type κ} (m : Exec A) (f : A → Exec B)
    → IsSafe m
    → ((a : A) → IsSafe (f a))
    → IsSafe (m >>= f)
IsSafe-bind (completed a, es) f safe next = record { not_panicked = (next a).not_panicked }
IsSafe-bind (failed e, es) f safe next = record { not_panicked = tt }
IsSafe-bind (panicked, es) f safe next = record { not_panicked = safe.not_panicked }
IsSafe-bind (diverged, es) f safe next = record { not_panicked = tt }

pub IsSafe-if {ℓ} :
    {A : Type ℓ} (b : Bool) (m n : Exec A) → IsSafe m → IsSafe n → IsSafe (if b then m else n)
IsSafe-if true m n safe other = safe
IsSafe-if false m n safe other = other

pub IsSafe-or_fail {ℓ} : {A : Type ℓ} (r : Reply A) → IsSafe (or_fail r)
IsSafe-or_fail (ok a) = record { not_panicked = tt }
IsSafe-or_fail (err e) = record { not_panicked = tt }

pub IsSafe-or_not_formed : (o : Option (List StatusCondition)) → IsSafe (or_not_formed o)
IsSafe-or_not_formed none = record { not_panicked = tt }
IsSafe-or_not_formed (some conditions) = record { not_panicked = tt }

IsSafe-send : (answer : Option Error) (w : Write) → IsSafe (send answer w)
IsSafe-send none w = record { not_panicked = tt }
IsSafe-send (some e) w = record { not_panicked = tt }

pub IsSafe-write : (server : Server) (w : Write) → IsSafe (write server w)
IsSafe-write server w = IsSafe-send (server.refuses w) w
