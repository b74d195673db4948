-- ===== src/Proxy/Request/Paths.antt =====
-- The paths of the API, and what the proxy reads from them.
use botbox.Base.{String, Bool, true, not, ◌≡◌, List, [], ◌∷◌, ◌++◌, ◌==◌, String-eq, arith}
use botbox.Proxy.Request.{Request, namespace_subresource, named, scoped, grouped, parse_path}

-- /api, or /apis/<group>.
pub data Root : Type 0 where
  core : Root
  of_group : String → Root

-- Nothing, or /namespaces/<namespace>.
pub data Scope : Type 0 where
  of_cluster : Scope
  in_namespace : String → Scope

-- A collection, an object or a subresource of one.
pub data Item : Type 0 where
  collection : Item
  object : String → Item
  subresource : String → String → Item

abbrev root_segments : Root → List String
root_segments core = "api" ∷ []
root_segments (of_group g) = "apis" ∷ g ∷ []

abbrev scope_segments : Scope → List String
scope_segments of_cluster = []
scope_segments (in_namespace ns) = "namespaces" ∷ ns ∷ []

abbrev item_segments : Item → List String
item_segments collection = []
item_segments (object n) = n ∷ []
item_segments (subresource n s) = n ∷ s ∷ []

-- The segments of the path to an item, after the leading slash.
abbrev pub segments : Root → String → Scope → String → Item → List String
segments root version scope resource item =
    root_segments root ++ version ∷ scope_segments scope ++ resource ∷ item_segments item

-- A resource that the path does not hide: `namespaces` itself names a namespace, and `status` and
-- `finalize` are subresources of one.
abbrev is_plain : Scope → String → Bool
is_plain of_cluster resource = not (resource == "namespaces")
is_plain (in_namespace ns) resource = not (namespace_subresource resource)

abbrev group_of : Root → String
group_of core = ""
group_of (of_group g) = g

abbrev namespace_of : Scope → String
namespace_of of_cluster = ""
namespace_of (in_namespace ns) = ns

abbrev name_of : Item → String
name_of collection = ""
name_of (object n) = n
name_of (subresource n s) = n

abbrev subresource_of : Item → String
subresource_of collection = ""
subresource_of (object n) = ""
subresource_of (subresource n s) = s

-- The request with these fields, and without any.
abbrev pub located : Request → Root → String → Scope → String → Item → Request
located r root version scope resource item = record r {
  group = group_of root;
  version = version;
  namespace = namespace_of scope;
  resource = resource;
  name = name_of item;
  subresource = subresource_of item;
}

abbrev pub unread : Request → Request
unread r = record r {
  group = "";
  version = "";
  namespace = "";
  resource = "";
  name = "";
  subresource = "";
}

-- The proxy reads from the path of each item the group, version, namespace, resource, name and
-- subresource that make it, where the path does not hide the resource.
pub parse_path-segments :
    (r : Request) (root : Root) (version : String) (scope : Scope) (resource : String) (item : Item)
    → is_plain scope resource ≡ true
    → parse_path (unread r) (segments root version scope resource item)
      ≡ located r root version scope resource item
unfolding parse_path grouped scoped named
parse_path-segments r core v of_cluster res collection h = ground arith
parse_path-segments r core v of_cluster res (object n) h = ground arith
parse_path-segments r core v of_cluster res (subresource n s) h = ground arith
parse_path-segments r core v (in_namespace ns) res collection h = ground arith
parse_path-segments r core v (in_namespace ns) res (object n) h = ground arith
parse_path-segments r core v (in_namespace ns) res (subresource n s) h = ground arith
parse_path-segments r (of_group g) v of_cluster res collection h = ground arith
parse_path-segments r (of_group g) v of_cluster res (object n) h = ground arith
parse_path-segments r (of_group g) v of_cluster res (subresource n s) h = ground arith
parse_path-segments r (of_group g) v (in_namespace ns) res collection h = ground arith
parse_path-segments r (of_group g) v (in_namespace ns) res (object n) h = ground arith
parse_path-segments r (of_group g) v (in_namespace ns) res (subresource n s) h = ground arith
