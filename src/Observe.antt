-- ===== src/Observe.antt =====
-- internal/observe: the version history of the primary CR and of every managed kind. Here the
-- records of store.go; the store itself is Observe/Store.
pub mod Store
use botbox.Base.{
  ℕ, String, Bool, true, ◌&&◌, Option, List, ◌++◌, ◌≡◌, ◌↔◌, Eq, ◌==◌, String-eq, if◌then◌else◌,
  arith,
}
use text.Mathlib.TextEquality.{eq_iff}
use Prim.Native.Nat.{Ordering}
use Prim.Native.String
use botbox.Base.Int.{ℤ}
use botbox.Base.Sort.{or_else}
use botbox.Clock.{Time}
use botbox.Json.{Fields}

-- schema.GroupVersionKind
pub record GroupVersionKind : Type 0 where
  pub group : String
  pub version : String
  pub kind : String

abbrev gvk_beq : GroupVersionKind → GroupVersionKind → Bool
gvk_beq a b = a.group == b.group && (a.version == b.version && a.kind == b.kind)

pub gvk_beq_iff : (a b : GroupVersionKind) → (gvk_beq a b ≡ true) ↔ (a ≡ b)
gvk_beq_iff a b =
    ground (arith, eq_iff a.group b.group, eq_iff a.version b.version, eq_iff a.kind b.kind)

instance abbrev pub GroupVersionKind-eq : Eq GroupVersionKind
GroupVersionKind-eq = record { equals = gvk_beq; equals_iff = gvk_beq_iff }

pub record Key : Type 0 where
  pub gvk : GroupVersionKind
  pub namespace : String
  pub name : String

abbrev key_beq : Key → Key → Bool
key_beq a b = gvk_beq a.gvk b.gvk && (a.namespace == b.namespace && a.name == b.name)

pub key_beq_iff : (a b : Key) → (key_beq a b ≡ true) ↔ (a ≡ b)
key_beq_iff a b =
    ground (arith, gvk_beq_iff a.gvk b.gvk, eq_iff a.namespace b.namespace, eq_iff a.name b.name)

instance abbrev pub Key-eq : Eq Key
Key-eq = record { equals = key_beq; equals_iff = key_beq_iff }

-- metav1.OwnerReference, the fields that the checks read.
pub record OwnerReference : Type 0 where
  pub api_version : String
  pub kind : String
  pub uid : String

pub record Version : Type 0 where
  pub key : Key
  pub uid : String
  pub resource_version : String
  pub time : Time
  pub generation : ℤ
  pub observed_generation : Option ℤ
  pub finalizers : List String
  pub owner_references : List OwnerReference
  pub deletion_timestamp : Option Time
  pub labels : List (String × String)
  pub deleted : Bool
  pub object : Fields

pub record Snapshot : Type 0 where
  pub gvk : GroupVersionKind
  pub name : String
  pub object : Fields

-- `KindName`: as target.yaml writes a kind.
unfoldable pub kind_name : GroupVersionKind → String
kind_name gvk =
    if gvk.group == ""
    then String.◌++◌ gvk.version (String.◌++◌ "/" gvk.kind)
    else String.◌++◌ gvk.group
        (String.◌++◌ "/" (String.◌++◌ gvk.version (String.◌++◌ "/" gvk.kind)))

-- `compareKeys`
unfoldable pub compare_keys : Key → Key → Ordering
unfolding kind_name
compare_keys a b =
    or_else (String.compare (kind_name a.gvk) (kind_name b.gvk))
      (or_else (String.compare a.namespace b.namespace) (String.compare a.name b.name))
