-- ===== src/Witness/OfTarget.antt =====
-- The last transition time of each condition, which the default equality ignores; and a run that is taken
-- down.
use botbox.Base.{ℕ, String, ◌+◌, ◌≡◌, refl, false, none, some, Option, List, [], ◌∷◌, String-eq}
use botbox.Base.Int.{pos}
use botbox.Json.{Fields, end, field, nil, cons, int, str, obj, arr}
use botbox.Target.Path.{Step, key, each, remove, remove_from}
use botbox.Target.Path.Removed.{is_named, meets_list, remove_lem}
use botbox.Run.Teardown.{Teardown, push, undo_below, run}
use botbox.Run.Teardown.Once.{failing, undone, backwards, run-in_turn}

abbrev below : List Step
below = key "conditions" ∷ each ∷ key "lastTransitionTime" ∷ []

abbrev condition : Fields
condition = field "type" (str "Ready") (field "lastTransitionTime" (int (pos 3)) end)

abbrev reported : Fields
reported = field "status" (obj (field "conditions" (arr (cons (obj condition) nil)) end)) end

remove_test :
    (remove (key "status" ∷ below) reported).left
    ≡ obj (
        field "status"
          (obj (field "conditions" (arr (cons (obj (field "type" (str "Ready") end)) nil)) end))
          end)
unfolding remove remove_from
remove_test = refl

remove_lem_example :
    (is_named (key "status" ∷ below) (remove (key "status" ∷ below) reported).left ≡ false)
    × ((remove (key "status" ∷ below) reported).met_list
        ≡ meets_list (key "status" ∷ below) (obj reported))
remove_lem_example = remove_lem (key "status") below reported

-- The proxy stops, and the namespace does not.
abbrev stops : ℕ → Option String × ℕ
stops n = (none, n + 1)

abbrev fails : ℕ → Option String × ℕ
fails n = (some "timeout", n + 10)

abbrev started : Teardown ℕ String
started = push "proxy" stops (push "namespace" fails (record { steps = [] }))

run_test : run started 0 ≡ (("namespace", "timeout") ∷ [], record { steps = [] }, 11)
unfolding run undo_below push
run_test = refl

run-in_turn_example :
    ((run started 0).0 ≡ failing (backwards started.steps) 0)
    × ((run started 0).2 ≡ undone (backwards started.steps) 0)
    × ((run started 0).1.steps ≡ [])
    × (run (run started 0).1 20 ≡ ([], (run started 0).1, 20))
run-in_turn_example = run-in_turn started 0 20
