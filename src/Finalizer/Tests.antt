-- ===== src/Finalizer/Tests.antt =====
-- Finalizers of a concrete object.
use kube_baremetal.Prelude.{
  ◌≡◌, refl, false, true, [], ◌∷◌, text_eq, if◌then◌else◌, ◌==◌, string_eq, some,
}
use kube_baremetal.Api.Meta.{ObjectMeta}
use kube_baremetal.Api.Endpoint.{bare_metal_endpoint_finalizer}
use kube_baremetal.Finalizer.{has_finalizer, remove_finalizer, has_finalizer-remove_finalizer}

abbrev held : ObjectMeta
held = record {
  name = "ep";
  generate_name = "";
  namespace = "default";
  uid = "u-1";
  labels = [];
  owner_references = [];
  finalizers = bare_metal_endpoint_finalizer ∷ "other/finalizer" ∷ [];
  deletion_timestamp = some 7;
}

keeps_other :
    has_finalizer (remove_finalizer held bare_metal_endpoint_finalizer) "other/finalizer" ≡ true
unfolding has_finalizer remove_finalizer text_eq
keeps_other = refl

has_finalizer-remove_finalizer_example :
    has_finalizer (remove_finalizer held bare_metal_endpoint_finalizer) "other/finalizer" ≡ (
      if bare_metal_endpoint_finalizer == "other/finalizer"
      then false
      else has_finalizer held "other/finalizer")
has_finalizer-remove_finalizer_example =
    has_finalizer-remove_finalizer held bare_metal_endpoint_finalizer "other/finalizer"
