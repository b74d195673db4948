-- ===== src/Target/Path/Removed.antt =====
-- What Remove leaves of an object.
use botbox.Base.{
  String, Bool, true, false, ◌&&◌, ◌||◌, List, [], ◌∷◌, ◌==◌, String-eq, ◌≡◌, refl, sym, arith, ◌⊎◌,
  inl, inr, Bool-cases, if-cases,
}
use botbox.Json.{Fields, end, field, Items, nil, cons, Value, null, bool, int, float, str, obj, arr}
use botbox.Target.Path.{
  Step, key, each, Removal, item_left, values_left, items_left, key_left, no_fields, of_fields,
  no_items, remove_from, remove,
}

-- Whether some value of a map, or of its field of a key, or some item of a list passes.
abbrev pub any_value : (Value → Bool) → Fields → Bool
any_value f end = false
any_value f (field k v fs) = f v || any_value f fs

abbrev pub any_of_key : String → (Value → Bool) → Fields → Bool
any_of_key name f end = false
any_of_key name f (field k v fs) = ((k == name) && f v) || any_of_key name f fs

abbrev pub any_item : (Value → Bool) → Items → Bool
any_item f nil = false
any_item f (cons v vs) = f v || any_item f vs

abbrev at_step : Value → Step → (Value → Bool) → Bool
at_step (obj fs) each f = any_value f fs
at_step (obj fs) (key name) f = any_of_key name f fs
at_step (arr items) each f = any_item f items
at_step v s f = false

-- The path names something in the value.
unfoldable pub is_named : List Step → Value → Bool
is_named [] v = true
is_named (s ∷ p) v = at_step v s (is_named p)

abbrev list_at : Value → Step → Bool
list_at (arr items) (key name) = true
list_at v s = false

-- A key of the path meets a list in the value.
unfoldable pub meets_list : List Step → Value → Bool
meets_list [] v = false
meets_list (s ∷ p) v = list_at v s || at_step v s (meets_list p)

-- What a removal of the path that starts there leaves: only a list that is to be emptied still has it.
record IsRemoved (p : List Step) (v : Value) (r : Removal) : Type 0 where
  gone : (r.empty ≡ true) ⊎ (is_named p r.left ≡ false)
  kept : is_named p (item_left v r) ≡ false
  met : r.met_list ≡ meets_list p v

module _ (q : List Step) (f : Value → Removal) (all : (v : Value) → IsRemoved q v (f v)) where
  values_left-gone :
      (fs : Fields)
      → (any_value (is_named q) (values_left f fs).0 ≡ false)
        × ((values_left f fs).1 ≡ any_value (meets_list q) fs)
  values_left-gone end = (refl, refl)
  values_left-gone (field k v fs) =
      let (g, m) = values_left-gone fs in
      let kept = (all v).kept in let met = (all v).met in (ground arith, ground arith)

  items_left-gone :
      (items : Items)
      → (any_item (is_named q) (items_left f items).0 ≡ false)
        × ((items_left f items).1 ≡ any_item (meets_list q) items)
  items_left-gone nil = (refl, refl)
  items_left-gone (cons v items) =
      let (g, m) = items_left-gone items in
      let kept = (all v).kept in let met = (all v).met in (ground arith, ground arith)

  key_left-gone :
      (name : String) (fs : Fields)
      → (any_of_key name (is_named q) (key_left name false f fs).0 ≡ false)
        × ((key_left name false f fs).1 ≡ any_of_key name (meets_list q) fs)
  key_left-gone name end = (refl, refl)
  key_left-gone name (field k v fs) =
      let (g, m) = key_left-gone name fs in
      let gone = (all v).gone in
      let met = (all v).met in
      let left = any_of_key name (is_named q) in
      (
        elim (Bool-cases (k == name)) [
          | inr e ↦ rw (e, e) g
          | inl e ↦ rw e (
              if-cases (λ l. left l ≡ false) (f v).empty (key_left name false f fs).0
                (field k (f v).left (key_left name false f fs).0) (λ z. g) (λ z. ground arith))
        ],
        ground arith,
      )

-- Where the path ends, the field goes.
key_left-ends :
    (name : String) (f : Value → Removal) (fs : Fields)
    → (any_of_key name (is_named []) (key_left name true f fs).0 ≡ false)
      × ((key_left name true f fs).1 ≡ any_of_key name (meets_list []) fs)
unfolding is_named meets_list
key_left-ends name f end = (refl, refl)
key_left-ends name f (field k v fs) =
    let (g, m) = key_left-ends name f fs in
    (elim (Bool-cases (k == name)) [ inr e ↦ rw (e, e) g | inl e ↦ rw e g ], ground arith)

no_fields-none :
    (s : Step) (p : List Step) (fs : Fields)
    → no_fields fs ≡ true
    → is_named (s ∷ p) (obj fs) ≡ false
unfolding is_named
no_fields-none each p end h = refl
no_fields-none (key k) p end h = refl
no_fields-none s p (field k v fs) h = absurd (ground arith)

-- A map that is left empty has no more of the path than any other map.
of_fields-IsRemoved :
    (q : List Step) (fs gs : Fields) (met : Bool)
    → is_named q (obj gs) ≡ false
    → met ≡ meets_list q (obj fs)
    → IsRemoved q (obj fs) (of_fields (gs, met))
of_fields-IsRemoved q fs gs met g m = record { gone = inr g; kept = g; met = m }

nil-none : (s : Step) (p : List Step) → is_named (s ∷ p) (arr nil) ≡ false
unfolding is_named
nil-none each p = refl
nil-none (key k) p = refl

of_items-IsRemoved :
    (s : Step) (p : List Step) (items : Items) (r : Removal)
    → (r.empty ≡ true) ⊎ (is_named (s ∷ p) r.left ≡ false)
    → r.met_list ≡ meets_list (s ∷ p) (arr items)
    → IsRemoved (s ∷ p) (arr items) r
of_items-IsRemoved s p items r g m = record {
  gone = g;
  kept =
      if-cases (λ v. is_named (s ∷ p) v ≡ false) r.empty (arr nil) r.left (λ e. nil-none s p)
        (λ e. left e g);
  met = m;
}
  where
    left :
        r.empty ≡ false
        → (r.empty ≡ true) ⊎ (is_named (s ∷ p) r.left ≡ false)
        → is_named (s ∷ p) r.left ≡ false
    left e (inl h) = absurd (ground arith)
    left e (inr h) = h

any_value-nothing : (fs : Fields) → any_value (λ v. false) fs ≡ false
any_value-nothing end = refl
any_value-nothing (field k v fs) = any_value-nothing fs

any_item-nothing : (items : Items) → any_item (λ v. false) items ≡ false
any_item-nothing nil = refl
any_item-nothing (cons v items) = any_item-nothing items

remove_from-IsRemoved :
    (s : Step) (p : List Step) (v : Value) → IsRemoved (s ∷ p) v (remove_from (s ∷ p) v)
unfolding remove_from is_named meets_list
remove_from-IsRemoved each [] (obj fs) = record {
  gone = inr refl;
  kept = refl;
  met = sym (any_value-nothing fs);
}
remove_from-IsRemoved each [] (arr items) =
    of_items-IsRemoved each [] items (record { left = arr items; empty = true; met_list = false })
      (inl refl) (sym (any_item-nothing items))
remove_from-IsRemoved each (t ∷ p) (obj fs) =
    let (g, m) =
      values_left-gone (t ∷ p) (remove_from (t ∷ p)) (λ v. remove_from-IsRemoved t p v) fs in
    of_fields-IsRemoved (each ∷ t ∷ p) fs (values_left (remove_from (t ∷ p)) fs).0
      (values_left (remove_from (t ∷ p)) fs).1 g m
remove_from-IsRemoved each (t ∷ p) (arr items) =
    let (g, m) =
      items_left-gone (t ∷ p) (remove_from (t ∷ p)) (λ v. remove_from-IsRemoved t p v) items in
    of_items-IsRemoved each (t ∷ p) items (remove_from (each ∷ t ∷ p) (arr items)) (inr g) m
remove_from-IsRemoved (key k) [] (obj fs) =
    let (g, m) = key_left-ends k (remove_from []) fs in
    of_fields-IsRemoved (key k ∷ []) fs (key_left k true (remove_from []) fs).0
      (key_left k true (remove_from []) fs).1 g m
remove_from-IsRemoved (key k) (t ∷ p) (obj fs) =
    let (g, m) =
      key_left-gone (t ∷ p) (remove_from (t ∷ p)) (λ v. remove_from-IsRemoved t p v) k fs in
    of_fields-IsRemoved (key k ∷ t ∷ p) fs (key_left k false (remove_from (t ∷ p)) fs).0
      (key_left k false (remove_from (t ∷ p)) fs).1 g m
remove_from-IsRemoved (key k) p (arr items) =
    of_items-IsRemoved (key k) p items
      (record { left = arr items; empty = no_items items; met_list = true }) (inr refl) refl
remove_from-IsRemoved s p null = record { gone = inr refl; kept = refl; met = refl }
remove_from-IsRemoved s p (bool b) = record { gone = inr refl; kept = refl; met = refl }
remove_from-IsRemoved s p (int n) = record { gone = inr refl; kept = refl; met = refl }
remove_from-IsRemoved s p (float n) = record { gone = inr refl; kept = refl; met = refl }
remove_from-IsRemoved s p (str t) = record { gone = inr refl; kept = refl; met = refl }

-- No field that the path names is left of an object, whatever its shape, and Remove reports a list exactly
-- where a key of the path meets one.
pub remove_lem :
    (s : Step) (p : List Step) (fs : Fields)
    → (is_named (s ∷ p) (remove (s ∷ p) fs).left ≡ false)
      × ((remove (s ∷ p) fs).met_list ≡ meets_list (s ∷ p) (obj fs))
unfolding remove
remove_lem s p fs =
    ((remove_from-IsRemoved s p (obj fs)).kept, (remove_from-IsRemoved s p (obj fs)).met)
