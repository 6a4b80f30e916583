-- ===== src/Finalizer.antt =====
-- api/helpers.go: the finalizers of an object, which hold back its deletion.
mod Tests
use kube_baremetal.Prelude.{
  String, ◌≡◌, refl, Bool, true, false, List, [], ◌∷◌, ◌==◌, string_eq, text_eq_iff, if◌then◌else◌,
  arith,
}
use kube_baremetal.Api.Meta.{ObjectMeta}

has_in : String → List String → Bool
has_in finalizer [] = false
has_in finalizer (f ∷ fs) = if f == finalizer then true else has_in finalizer fs

remove_in : String → List String → List String
remove_in finalizer [] = []
remove_in finalizer (f ∷ fs) =
    let rest = remove_in finalizer fs in if f == finalizer then rest else f ∷ rest

-- `HasFinalizer`
unfoldable pub has_finalizer : ObjectMeta → String → Bool
unfolding has_in
has_finalizer obj finalizer = has_in finalizer obj.finalizers

-- `RemoveFinalizer`
unfoldable pub remove_finalizer : ObjectMeta → String → ObjectMeta
unfolding remove_in
remove_finalizer obj finalizer = record obj { finalizers = remove_in finalizer obj.finalizers }

has_in-remove_in :
    (f g : String) (fs : List String)
    → has_in g (remove_in f fs) ≡ (if f == g then false else has_in g fs)
unfolding has_in remove_in
has_in-remove_in f g [] = ground (arith, text_eq_iff f g)
has_in-remove_in f g (x ∷ fs) =
    ground (arith, text_eq_iff f g, text_eq_iff x f, text_eq_iff x g, has_in-remove_in f g fs)

-- After `RemoveFinalizer` the object has every finalizer that it had but the one removed.
pub has_finalizer-remove_finalizer :
    (obj : ObjectMeta) (f g : String)
    → has_finalizer (remove_finalizer obj f) g ≡ (if f == g then false else has_finalizer obj g)
unfolding has_finalizer remove_finalizer
has_finalizer-remove_finalizer obj f g = has_in-remove_in f g obj.finalizers
