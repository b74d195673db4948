-- ===== src/Target/Path.antt =====
-- internal/target/path.go: a path names fields of an object, and Remove deletes them.
pub mod Removed
use botbox.Base.{
  String, Bool, true, false, not, ◌&&◌, ◌||◌, List, [], ◌∷◌, ◌==◌, String-eq, if◌then◌else◌, Option,
  none, some,
}
use botbox.Json.{Fields, end, field, Items, nil, cons, Value, obj, arr}

pub data Step : Type 0 where
  key : String → Step
  each : Step

abbrev pub is_empty : List Step → Bool
is_empty [] = true
is_empty (s ∷ p) = false

abbrev key_is : Step → String → Bool
key_is (key k) name = k == name
key_is each name = false

-- `MapsToStrings`
unfoldable pub maps_to_strings : List Step → Bool
maps_to_strings [] = false
maps_to_strings (s ∷ []) = false
maps_to_strings (s ∷ t ∷ []) = key_is s "metadata" && (key_is t "labels" || key_is t "annotations")
maps_to_strings (s ∷ t ∷ u ∷ p) = maps_to_strings (t ∷ u ∷ p)

-- What `remove` leaves of a value, whether that is empty, and whether a key met a list.
pub record Removal : Type 0 where
  pub left : Value
  pub empty : Bool
  pub met_list : Bool

-- `removeFromItem`, of what `remove` leaves of the item.
abbrev pub item_left : Value → Removal → Value
item_left (arr items) r = if r.empty then arr nil else r.left
item_left item r = r.left

-- The loops over the values of a map and the items of a list.
abbrev pub values_left : (Value → Removal) → Fields → Fields × Bool
values_left f end = (end, false)
values_left f (field k v fs) =
    let r = f v in
    let rest = values_left f fs in (field k (item_left v r) rest.0, r.met_list || rest.1)

abbrev pub items_left : (Value → Removal) → Items → Items × Bool
items_left f nil = (nil, false)
items_left f (cons v vs) =
    let r = f v in let rest = items_left f vs in (cons (item_left v r) rest.0, r.met_list || rest.1)

-- The field of a key: deleted where the path ends there or nothing is left of it.
abbrev pub key_left : String → Bool → (Value → Removal) → Fields → Fields × Bool
key_left name ends f end = (end, false)
key_left name ends f (field k v fs) =
    let r = f v in
    let rest = key_left name ends f fs in
    if k == name
    then (
      (if ends || r.empty then rest.0 else field k r.left rest.0),
      (not ends && r.met_list) || rest.1,
    )
    else (field k v rest.0, rest.1)

abbrev pub no_fields : Fields → Bool
no_fields end = true
no_fields (field k v fs) = false

abbrev pub no_items : Items → Bool
no_items nil = true
no_items (cons v vs) = false

abbrev pub of_fields : Fields × Bool → Removal
of_fields (fs, met) = record { left = obj fs; empty = no_fields fs; met_list = met }

abbrev pub of_items : Items × Bool → Removal
of_items (items, met) = record { left = arr items; empty = no_items items; met_list = met }

-- One step of `remove`, where `f` removes the rest of the path, which ends there or not.
abbrev pub remove_step : Value → Step → Bool → (Value → Removal) → Removal
remove_step (obj fs) each true f = record { left = obj end; empty = true; met_list = false }
remove_step (obj fs) each false f = of_fields (values_left f fs)
remove_step (obj fs) (key name) ends f = of_fields (key_left name ends f fs)
remove_step (arr items) each true f = record { left = arr items; empty = true; met_list = false }
remove_step (arr items) each false f = of_items (items_left f items)
remove_step (arr items) (key name) ends f = record {
  left = arr items;
  empty = no_items items;
  met_list = true;
}
remove_step v s ends f = record { left = v; empty = false; met_list = false }

-- `remove`
unfoldable pub remove_from : List Step → Value → Removal
remove_from [] v = record { left = v; empty = false; met_list = false }
remove_from (s ∷ p) v = remove_step v s (is_empty p) (remove_from p)

-- `Remove`, of an object: what is left of it, and whether it reports a list.
unfoldable pub remove : List Step → Fields → Removal
unfolding remove_from
remove p fs = remove_from p (obj fs)
