-- ===== src/Witness/OfObserve.antt =====
-- A store in which a ConfigMap was recorded twice, changed, and excluded.
use botbox.Base.{ℕ, String, ◌≡◌, refl, false, none, List, [], ◌∷◌, get_last?}
use botbox.Base.Int.{pos}
use mathlib.Core.List.{filter_map}
use botbox.Base.Map.{lookup, insert}
use botbox.Json.{end}
use botbox.Observe.{GroupVersionKind, Key, Version}
use botbox.Observe.Store.{Options, new_store, history, latest}
use botbox.Observe.Store.Index.{
  Write, recorded, excluded, write, write_all, of_key, write_all-history,
}
use botbox.Base.{◌↔◌, In}
use botbox.Observe.Store.{Store, positions, managed}
use botbox.Observe.Store.Managed.{IsManaged, managed-IsManaged}
use botbox.Observe.Store.Repeats.{HasNoRepeat, write_all-HasNoRepeat}

abbrev config_map : GroupVersionKind
config_map = record { group = ""; version = "v1"; kind = "ConfigMap" }

abbrev settings : Key
settings = record { gvk = config_map; namespace = "ns"; name = "settings" }

abbrev opts : Options
opts = record {
  namespace = "ns";
  manages = config_map ∷ [];
  resource_of = λ k. none;
  selector = none;
}

abbrev at_version : String → ℕ → Version
at_version rv time = record {
  key = settings;
  uid = "u1";
  resource_version = rv;
  time = time;
  generation = pos 1;
  observed_generation = none;
  finalizers = [];
  owner_references = [];
  deletion_timestamp = none;
  labels = [];
  deleted = false;
  object = end;
}

abbrev writes : List Write
writes =
    recorded (at_version "1" 5)
    ∷ recorded (at_version "1" 6)
    ∷ recorded (at_version "2" 7)
    ∷ excluded config_map "settings"
    ∷ []

history_test :
    history (write_all writes (new_store opts)) settings ≡ at_version "1" 5 ∷ at_version "2" 7 ∷ []
unfolding write_all history filter_map positions lookup write latest insert
history_test = refl

write_all-history_example :
    (history (write_all writes (new_store opts)) settings
      ≡ of_key settings (write_all writes (new_store opts)).versions)
    × (latest (write_all writes (new_store opts)) settings
        ≡ get_last? (of_key settings (write_all writes (new_store opts)).versions))
write_all-history_example = write_all-history opts writes settings

write_all-HasNoRepeat_example : HasNoRepeat (history (write_all writes (new_store opts)) settings)
write_all-HasNoRepeat_example = write_all-HasNoRepeat opts writes settings

-- Before the exclusion.
abbrev kept : Store
kept = record {
  opts = opts;
  versions = at_version "1" 5 ∷ at_version "2" 7 ∷ [];
  by_key = (settings, 0 ∷ 1 ∷ []) ∷ [];
  excluded = [];
}

managed-IsManaged_example :
    In (at_version "2" 7) (managed (write_all writes (new_store opts)))
    ↔ IsManaged opts writes (at_version "2" 7)
managed-IsManaged_example = managed-IsManaged opts writes (at_version "2" 7)
