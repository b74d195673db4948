-- ===== src/Invariant/State/Replay.antt =====
-- statesAt, which passes over the history once, and stateAt.
use botbox.Base.{◌≤◌, false, List, [], ◌∷◌, map, ◌≡◌, refl, ap, ◌∙◌, if◌then◌else◌, arith, if-cases}
use botbox.Base.Map.{Map, insert}
use botbox.Clock.{Time, after}
use botbox.Observe.{Key, Key-eq, Version}
use botbox.Invariant.{Input, versions}
use botbox.Invariant.State.{State, live_of, advance, states_from, states_at, state_at}

-- Each instant is no earlier than the one before it.
abbrev pub InOrder : Time → List Time → Type 0
InOrder t [] = Unit
InOrder t (u ∷ times) = (t ≤ u) × InOrder u times

abbrev on_from : Time → Map Key Version × List Version → Map Key Version × List Version
on_from u o = advance u o.1 o.0

-- What is recorded by t and then by a later u is what is recorded by u.
advance-advance :
    (t u : Time) (vs : List Version) (latest : Map Key Version)
    → t ≤ u
    → on_from u (advance t vs latest) ≡ advance u vs latest
unfolding advance
advance-advance t u [] latest h = refl
advance-advance t u (v ∷ vs) latest h =
    if-cases (λ o. on_from u o ≡ advance u (v ∷ vs) latest) (after v.time t) (latest, v ∷ vs)
      (advance t vs (insert v.key v latest)) (λ e. refl)
      (λ e. advance-advance t u vs (insert v.key v latest) h ∙ stays (ground arith))
  where
    stays :
        after v.time u ≡ false
        → advance u vs (insert v.key v latest)
          ≡ (if after v.time u then (latest, v ∷ vs) else advance u vs (insert v.key v latest))
    stays k = rw k refl

abbrev state_of : Time → Map Key Version × List Version → State
state_of u o = record { at = u; live = live_of o.0 }

abbrev go_on : List Time → Map Key Version × List Version → List State
go_on times o = states_from o.1 o.0 times

states_from-map :
    (t : Time) (times : List Time) (vs : List Version) (latest : Map Key Version)
    → InOrder t times
    → go_on times (advance t vs latest) ≡ map (λ u. state_of u (advance u vs latest)) times
unfolding states_from
states_from-map t [] vs latest h = refl
states_from-map t (u ∷ times) vs latest (h, k) =
    let e = advance-advance t u vs latest h in
    ap (λ o. state_of u o ∷ go_on times o) e
    ∙ ap (λ l. state_of u (advance u vs latest) ∷ l) (states_from-map u times vs latest k)

-- For instants in order, statesAt gives what stateAt gives of each: the map that it carries from one
-- instant to the next, and the versions that it does not read again, change none of them.
pub states_at-state_at :
    (inp : Input) (t : Time) (times : List Time)
    → InOrder t times
    → states_at inp (t ∷ times) ≡ map (state_at inp) (t ∷ times)
unfolding states_at states_from state_at
states_at-state_at inp t times h =
    ap (λ l. state_of t (advance t (versions inp) []) ∷ l)
      (states_from-map t times (versions inp) [] h)
