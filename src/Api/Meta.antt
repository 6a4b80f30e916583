-- ===== src/Api/Meta.antt =====
-- Object metadata, `ObjectReference` of apis/meta/v1/types.go, and the group of
-- api/v1alpha1/groupversion_info.go.
use kube_baremetal.Prelude.{
  ℕ, String, Bool, true, Option, none, some, List, ◌==◌, nat_eq, string_eq, ◌&&◌, not,
}

-- A point in time; 0 is the zero time.
abbrev pub Time : Type 0
Time = ℕ

-- `(*metav1.Time).IsZero`: nil is zero too.
abbrev pub is_zero : Option Time → Bool
is_zero none = true
is_zero (some t) = t == 0

-- An owner of an object.
pub record OwnerReference : Type 0 where
  pub api_version : String
  pub kind : String
  pub name : String
  pub uid : String
  pub controller : Bool
  pub block_owner_deletion : Bool

pub record ObjectMeta : Type 0 where
  pub name : String
  pub generate_name : String
  pub namespace : String
  pub uid : String
  pub labels : List (String × String)
  pub owner_references : List OwnerReference
  pub finalizers : List String
  pub deletion_timestamp : Option Time

-- `obj.DeletionTimestamp.IsZero() == false`
abbrev pub deleting : ObjectMeta → Bool
deleting m = not (is_zero m.deletion_timestamp)

pub record ObjectReference : Type 0 where
  pub name : String
  pub kind : String
  pub group : String

pub record NamespacedName : Type 0 where
  pub namespace : String
  pub name : String

abbrev pub name_of : ObjectMeta → NamespacedName
name_of m = record { namespace = m.namespace; name = m.name }

abbrev pub same_name : NamespacedName → NamespacedName → Bool
same_name a b = a.namespace == b.namespace && a.name == b.name

-- `GroupVersion.Group`
abbrev pub group : String
group = "baremetal.com.rmb938"
