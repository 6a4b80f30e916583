-- ===== src/Webhook/Duplicates.antt =====
-- The loop of webhooks/ over a list of texts, which checks each, and looks for it at every other
-- place of the list (webhooks/baremetalnetwork_webhook.go, webhooks/baremetalendpoint_webhook.go).
pub mod Nodup
use kube_baremetal.Prelude.{
  ℕ, ◌+◌, String, not, List, [], ◌∷◌, ◌++◌, ◌==◌, nat_eq, string_eq, if◌then◌else◌,
}
use kube_baremetal.Webhook.Error.{FieldError, unless, collect}

-- The inner loop, from the index `j` on, for the text of the index `i`.
unfoldable pub duplicate_errors : (ℕ → FieldError) → ℕ → String → ℕ → List String → List FieldError
duplicate_errors error i s j [] = []
duplicate_errors error i s j (t ∷ rest) =
    let more = duplicate_errors error i s (j + 1) rest in
    if i == j then more else unless (not (s == t)) (error i) ++ more

-- The outer loop, from the index `i` on; `every` is the whole list.
unfoldable pub each_errors :
    (ℕ → String → List FieldError)
    → (ℕ → FieldError)
    → List String
    → ℕ
    → List String
    → List FieldError
unfolding duplicate_errors
each_errors check error every i [] = []
each_errors check error every i (s ∷ rest) =
    let later = each_errors check error every (i + 1) rest in
    collect (check i s ∷ duplicate_errors error i s 0 every ∷ later ∷ [])
