-- ===== src/Client/Quiet.antt =====
-- Computations that complete and write nothing, and what their parts did.
use kube_baremetal.Prelude.{
  ◌≡◌, refl, Bool, true, false, Option, none, some, List, [], if◌then◌else◌, ◌⊎◌, inl, inr,
}
use kube_baremetal.Condition.{StatusCondition}
use kube_baremetal.Client.{
  Server, Exec, Error, completed, Result, Write, send, write, or_not_formed, ◌>>◌, ◌>>=◌,
}
use kube_baremetal.Client.Effects.{writes}

-- `m` completes and writes nothing.
pub record Rests (m : Exec Result) : Type 0 where
  pub result : Result
  pub completes : m.0 ≡ completed result
  pub silent : writes m.1 ≡ []

send-Rests : (answer : Option Error) (w : Write) (k : Exec Result) → Rests (send answer w >> k) → ⊥
send-Rests none w k r = cc r.silent
send-Rests (some e) w k r = cc r.completes

-- A write that the server takes is seen, and one that it refuses fails.
pub write-Rests : (server : Server) (w : Write) (k : Exec Result) → Rests (write server w >> k) → ⊥
write-Rests server w k r = send-Rests (server.refuses w) w k r

-- The branch that was taken.
pub if-Rests :
    (b : Bool) (m n : Exec Result)
    → Rests (if b then m else n)
    → ((b ≡ true) × Rests m) ⊎ ((b ≡ false) × Rests n)
if-Rests true m n r = inl (refl, r)
if-Rests false m n r = inr (refl, r)

-- `SetCondition` and a write after it.
pub or_not_formed-Rests :
    (server : Server) (o : Option (List StatusCondition)) (w : List StatusCondition → Write)
    (k : Exec Result)
    → Rests (or_not_formed o >>= λ cs. write server (w cs) >> k)
    → ⊥
or_not_formed-Rests server none w k r = cc r.completes
or_not_formed-Rests server (some cs) w k r =
    write-Rests server (w cs) k
      (record { result = r.result; completes = r.completes; silent = r.silent })
