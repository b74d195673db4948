-- ===== src/Proxy/Request.antt =====
-- internal/proxy/request.go: one exchange as the proxy records it, read from the method and the
-- path. The arguments are the path's segments, which strings.Split gives, and the method.
pub mod Paths
use botbox.Base.{ℕ, String, Bool, ◌||◌, List, [], ◌∷◌, ◌==◌, String-eq, if◌then◌else◌}
use botbox.Clock.{Time}

pub record Request : Type 0 where
  pub start : Time
  pub verb : String
  pub group : String
  pub version : String
  pub resource : String
  pub subresource : String
  pub namespace : String
  pub name : String
  pub path : String
  pub watch : Bool
  pub status : ℕ
  pub latency : ℕ
  pub fault : String

abbrev pub namespace_subresource : String → Bool
namespace_subresource s = s == "status" || s == "finalize"

-- What follows the scope: <resource>[/<name>[/<subresource>]].
unfoldable pub named : Request → List String → Request
named r [] = r
named r (a ∷ []) = record r { resource = a }
named r (a ∷ b ∷ []) = record r { resource = a; name = b }
named r (a ∷ b ∷ c ∷ rest) = record r { resource = a; name = b; subresource = c }

-- What follows the version: an optional /namespaces/<namespace> first.
unfoldable pub scoped : Request → List String → Request
unfolding named
scoped r (a ∷ b ∷ c ∷ rest) =
    if a == "namespaces"
    then named (record r { namespace = b })
        (if namespace_subresource c then a ∷ b ∷ c ∷ rest else c ∷ rest)
    else named r (a ∷ b ∷ c ∷ rest)
scoped r (a ∷ b ∷ []) =
    if a == "namespaces"
    then named (record r { namespace = b }) (a ∷ b ∷ [])
    else named r (a ∷ b ∷ [])
scoped r segments = named r segments

unfoldable pub grouped : Request → String → String → List String → Request
unfolding scoped
grouped r root group (version ∷ rest) =
    if root == "apis" then scoped (record r { group = group; version = version }) rest else r
grouped r root group [] = r

unfoldable pub parse_path : Request → List String → Request
unfolding scoped grouped
parse_path r (root ∷ a ∷ rest) =
    if root == "api" then scoped (record r { version = a }) rest else grouped r root a rest
parse_path r segments = r

abbrev pub verbs : List String
verbs =
    "get" ∷ "list" ∷ "watch" ∷ "create" ∷ "update" ∷ "patch" ∷ "delete" ∷ "deletecollection" ∷ []

-- `to_lower` is strings.ToLower.
unfoldable pub verb : (String → String) → String → Request → String
verb to_lower method r =
    if r.resource == ""
    then to_lower method
    else if method == "POST"
    then "create"
    else if method == "PUT"
    then "update"
    else if method == "PATCH"
    then "patch"
    else if method == "DELETE"
    then (if r.name == "" then "deletecollection" else "delete")
    else if method == "GET" || method == "HEAD"
    then (if r.watch then "watch" else if r.name == "" then "list" else "get")
    else to_lower method
