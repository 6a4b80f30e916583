-- ===== src/Client/Effects.antt =====
-- The writes among the effects.
use kube_baremetal.Prelude.{List, [], ◌∷◌}
use kube_baremetal.Client.{Write, Effect, wrote, event}

abbrev pub writes : List Effect → List Write
writes [] = []
writes (wrote w ∷ es) = w ∷ writes es
writes (event o t r ∷ es) = writes es
