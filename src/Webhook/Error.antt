-- ===== src/Webhook/Error.antt =====
-- What a webhook of webhooks/ answers with: `field.ErrorList`. An object is admitted where the list
-- is empty.
use kube_baremetal.Prelude.{ℕ, String, Bool, true, false, List, [], ◌∷◌, ◌≡◌, refl, ◌++◌, All}

-- The path of a field, and the index where the field is a list.
pub data Field : Type 0 where
  field : String → Field
  item : String → ℕ → Field

-- `field.Invalid`, `field.Forbidden`, `field.Required` and `field.InternalError`, with the message;
-- `field.Duplicate`, with the value.
pub data FieldError : Type 0 where
  invalid forbidden required internal_error duplicate : Field → String → FieldError

-- One error where the test fails.
abbrev pub unless : Bool → FieldError → List FieldError
unless true e = []
unless false e = e ∷ []

-- The errors of several checks, in order.
abbrev pub collect : List (List FieldError) → List FieldError
collect [] = []
collect (es ∷ checks) = es ++ collect checks

pub append-empty : (xs ys : List FieldError) → xs ++ ys ≡ [] → (xs ≡ []) × (ys ≡ [])
append-empty [] ys h = (refl, h)
append-empty (x ∷ xs) ys h = cc h

pub collect-empty :
    (checks : List (List FieldError)) → collect checks ≡ [] → All (λ es. es ≡ []) checks
collect-empty [] h = tt
collect-empty (es ∷ checks) h =
    let (here, later) = append-empty es (collect checks) h in (here, collect-empty checks later)

pub unless-empty : (b : Bool) (e : FieldError) → unless b e ≡ [] → b ≡ true
unless-empty true e h = refl
unless-empty false e h = cc h
