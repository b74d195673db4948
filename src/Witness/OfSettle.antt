-- ===== src/Witness/OfSettle.antt =====
-- A settle wait on a target that last changed at 4, by a clock that each sleep moves on by one.
use botbox.Base.{ℕ, ◌+◌, ◌<◌, ◌≡◌, refl, true, false, none, some, [], arith}
use botbox.Clock.{later}
use botbox.Witness.Recorded.{never_ready, widgets, lost}
use botbox.Observe.{kind_name, compare_keys}
use botbox.Base.Map.{lookup, insert}
use mathlib.Core.List.{filter_map}
use botbox.Observe.Store.{current, live, window, record_version, latest, positions}
use botbox.Invariant.Running.{back, electing, first, first_start}
use botbox.Run.Settle.{
  Settle, read, Environment, Round, converged, floored, held_open, last_change, expire, is_settled,
  round, wait_from, wait,
}
use botbox.Run.Settle.Ends.{IsTimely, Answers, wait-Answers}
use botbox.Run.Settle.Readiness.{Status, ready, changed_by, state}
use botbox.Run.Settle.Readiness.Decides.{Reports, state-Reports}

abbrev env : Environment
env = record {
  World = ℕ;
  Error = Unit;
  state = λ t w. (read true 4, w);
  now = λ w. (w, w);
  stopped = λ w. (false, w);
  held = λ t w. ((false, 0), w);
  owed = none;
  sleep = λ w. (none, w + 1);
}

abbrev settling : Settle
settling = record { stable = 3; settle = 10; floor = 0 }

timely : IsTimely env settling 0 0 (λ w. w)
timely = record {
  state_on = λ t w. omega arith;
  now_on = λ w. omega arith;
  now_read = λ w. omega arith;
  stopped_on = λ w. omega arith;
  held_on = λ t w. omega arith;
  held_until = λ t w h. refl;
  released_by = λ t w. omega arith;
  owed_on = λ t w. omega arith;
  owed_by = λ t w. ground arith;
  sleeps = λ w. omega arith;
}

wait_test : wait env settling 40 5 ≡ some (converged, 7)
unfolding wait wait_from round expire is_settled last_change floored held_open
wait_test = refl

over_by : later (floored env settling 5) 0 + 0 + 10 < 40
unfolding floored
over_by = omega arith

wait-Answers_example :
    (r : Round (Unit {0}) × ℕ) × (wait env settling 40 5 ≡ some r)
    × Answers env settling timely 5 r.0
wait-Answers_example = wait-Answers env settling timely 40 5 (omega arith) (omega arith) over_by

abbrev status : Status
status = record { started = 2; restarting = false }

state_test : state never_ready widgets status [] lost 1 40 ≡ read false 31
unfolding state ready changed_by current live window record_version latest positions lookup insert
    kind_name compare_keys filter_map back electing first first_start
state_test = refl

state-Reports_example :
    Reports never_ready
      (current lost widgets)
      status
      (back [] 2)
      1
      (state never_ready widgets status [] lost 1 40)
state-Reports_example = state-Reports never_ready widgets status [] lost 1 40
