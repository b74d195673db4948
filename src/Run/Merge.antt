-- ===== src/Run/Merge.antt =====
-- internal/run/merge.go: a JSON merge patch (RFC 7386). A nil object is one without fields. The code
-- ranges over the fields of the patch in any order; here it is the order of the list.
pub mod Laws
use botbox.Base.{String, Bool, Option, none, some, ◌==◌, String-eq, if◌then◌else◌}
use botbox.Json.{Value, null, bool, int, float, str, arr, obj, Fields, end, field}

-- object[field]
unfoldable pub get : String → Fields → Option Value
get k end = none
get k (field j v rest) = if j == k then some v else get k rest

-- object[field] = value
unfoldable pub put : String → Value → Fields → Fields
put k v end = field k v end
put k v (field j w rest) =
    let deeper = put k v rest in if j == k then field k v rest else field j w deeper

-- delete(object, field)
unfoldable pub delete : String → Fields → Fields
delete k end = end
delete k (field j w rest) =
    let deeper = delete k rest in if j == k then deeper else field j w deeper

-- value.(map[string]any), which is nil for anything else.
abbrev pub fields_of : Option Value → Fields
fields_of (some (obj fs)) = fs
fields_of _ = end

-- `MergePatch`
unfoldable pub merge_patch : Fields → Fields → Fields
merge_patch object end = object
merge_patch object (field k null rest) = merge_patch (delete k object) rest
merge_patch object (field k (obj nested) rest) =
    merge_patch (put k (obj (merge_patch (fields_of (get k object)) nested)) object) rest
merge_patch object (field k (bool b) rest) = merge_patch (put k (bool b) object) rest
merge_patch object (field k (int n) rest) = merge_patch (put k (int n) object) rest
merge_patch object (field k (float x) rest) = merge_patch (put k (float x) object) rest
merge_patch object (field k (str s) rest) = merge_patch (put k (str s) object) rest
merge_patch object (field k (arr xs) rest) = merge_patch (put k (arr xs) object) rest
