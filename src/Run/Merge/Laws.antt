-- ===== src/Run/Merge/Laws.antt =====
-- What a merge patch does to each field.
use botbox.Base.{String, ◌≡◌, refl, Option, none, some, ◌==◌, String-eq, if◌then◌else◌, arith}
use text.Mathlib.TextEquality.{eq_iff}
use botbox.Json.{Value, null, bool, int, float, str, arr, obj, Fields, end, field}
use botbox.Run.Merge.{get, put, delete, fields_of, merge_patch}

get-put :
    (k j : String) (v : Value) (o : Fields)
    → get j (put k v o) ≡ (if k == j then some v else get j o)
unfolding get put
get-put k j v end = refl
get-put k j v (field i w rest) =
    ground (arith, eq_iff k j, eq_iff i k, eq_iff i j, get-put k j v rest)

get-delete : (k j : String) (o : Fields) → get j (delete k o) ≡ (if k == j then none else get j o)
unfolding get delete
get-delete k j end = ground arith
get-delete k j (field i w rest) =
    ground (arith, eq_iff k j, eq_iff i k, eq_iff i j, get-delete k j rest)

-- The fields of a Go map are distinct.
abbrev pub IsMap : Fields → Type 0
IsMap end = Unit
IsMap (field k v rest) = (get k rest ≡ none) × IsMap rest

-- RFC 7386 on one field: what the patch has for it against what the object had.
abbrev pub patched : Option Value → Option Value → Option Value
patched old none = old
patched old (some null) = none
patched old (some (obj nested)) = some (obj (merge_patch (fields_of old) nested))
patched old (some v) = some v

-- A field of the patched object is gone where the patch has null, is merged where the patch has an
-- object, has the patch's value where that is anything else, and is as it was where the patch has none.
pub get-merge_patch :
    (k : String) (object patch : Fields)
    → IsMap patch
    → get k (merge_patch object patch) ≡ patched (get k object) (get k patch)
unfolding merge_patch get
get-merge_patch k o end m = refl
get-merge_patch k o (field j null rest) (new, m) =
    ground (arith, get-merge_patch k (delete j o) rest m, get-delete j k o, eq_iff j k)
get-merge_patch k o (field j (obj nested) rest) (new, m) =
    let v = obj (merge_patch (fields_of (get j o)) nested) in
    ground (arith, get-merge_patch k (put j v o) rest m, get-put j k v o, eq_iff j k)
get-merge_patch k o (field j (bool b) rest) (new, m) =
    ground (arith, get-merge_patch k (put j (bool b) o) rest m, get-put j k (bool b) o, eq_iff j k)
get-merge_patch k o (field j (int n) rest) (new, m) =
    ground (arith, get-merge_patch k (put j (int n) o) rest m, get-put j k (int n) o, eq_iff j k)
get-merge_patch k o (field j (float x) rest) (new, m) =
    ground
      (arith, get-merge_patch k (put j (float x) o) rest m, get-put j k (float x) o, eq_iff j k)
get-merge_patch k o (field j (str t) rest) (new, m) =
    ground (arith, get-merge_patch k (put j (str t) o) rest m, get-put j k (str t) o, eq_iff j k)
get-merge_patch k o (field j (arr xs) rest) (new, m) =
    ground (arith, get-merge_patch k (put j (arr xs) o) rest m, get-put j k (arr xs) o, eq_iff j k)
