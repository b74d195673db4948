-- ===== src/Witness/OfProxy.antt =====
-- A proxy with two faults and a request that each would answer.
use botbox.Base.{ℕ, ◌+◌, ◌≡◌, refl, false, some, List, [], ◌∷◌, ◌==◌, String-eq, All, find?, arith}
use botbox.Base.Int.{pos}
use botbox.Clock.{Time}
use botbox.Proxy.Request.{Request, parse_path}
use botbox.Proxy.Request.Paths
use botbox.Proxy.Request.Paths.{segments, unread, located, parse_path-segments}
use botbox.Proxy.Fault.{
  Libraries, error, delay, FaultSpec, InjectedFault, Proxy, add_fault, fault_for_from, applies,
  matches, draw, release, fault_for, expired, retired_by,
}
use botbox.Proxy.Fault.Steps.{Event, run}
use botbox.Proxy.Fault.Steps
use botbox.Proxy.Fault.Sound.{IsSound, run-IsSound}
use botbox.Proxy.Fault.Retired.{IsRetired, RetiredAt, run-RetiredAt}
use botbox.Proxy.Fault.Serving.{action, acts, spec_action, action-fault_for}

-- Libraries in which a pattern matches the name it spells, and no fraction is a share.
abbrev exact : Libraries
exact = record {
  Fraction = ℕ;
  Rand = ℕ;
  match_glob = λ p n. some (p == n);
  new_rand = λ seed id. seed + id;
  is_share = λ x. false;
  draw_misses = λ r x. (false, r);
}

abbrev get_pod : Request
get_pod = record {
  start = 12;
  verb = "get";
  group = "";
  version = "v1";
  resource = "pods";
  subresource = "";
  namespace = "ns";
  name = "web";
  path = "/api/v1/namespaces/ns/pods/web";
  watch = false;
  status = 0;
  latency = 0;
  fault = "";
}

-- 503 for one request on pods.
abbrev once : FaultSpec exact
once = record {
  match = record { verb = ""; resource = "pods"; name = ""; fraction = 0 };
  action = error 503;
  until = record { count = pos 1; for = pos 0 };
}

-- A delay of 5 for each request.
abbrev slow : FaultSpec exact
slow = record {
  match = record { verb = ""; resource = ""; name = ""; fraction = 0 };
  action = delay (pos 5);
  until = record { count = pos 0; for = pos 0 };
}

abbrev events : List (Time × Event exact)
events =
    (10, Steps.add once)
    ∷ (11, Steps.add slow)
    ∷ (12, Steps.request get_pod)
    ∷ (13, Steps.request get_pod)
    ∷ (18, Steps.hold_ended (1, 0))
    ∷ []

abbrev empty : Proxy exact
empty = record { seed = 7; faults = [] }

-- The proxy after them.
abbrev spent : InjectedFault exact
spent = record {
  spec = once;
  since = 10;
  random = 7;
  applied = 1;
  first = 12;
  spent = 12;
  removed = 0;
  holds = [];
}

abbrev slowing : InjectedFault exact
slowing = record {
  spec = slow;
  since = 11;
  random = 8;
  applied = 1;
  first = 13;
  spent = 0;
  removed = 0;
  holds = record { arrived = 12; released = 18 } ∷ [];
}

abbrev after_events : Proxy exact
after_events = record { seed = 7; faults = spent ∷ slowing ∷ [] }

run_test : run exact events empty ≡ after_events
unfolding run release fault_for add_fault fault_for_from expired retired_by applies matches draw
run_test = refl

run-IsSound_example : All IsSound (run exact events empty).faults
run-IsSound_example =
    run-IsSound exact 7 events
      (omega arith, (omega arith, (omega arith, (omega arith, (omega arith, tt)))))

spent-IsRetired : IsRetired {lib = exact} 1 18 spent
unfolding expired retired_by
spent-IsRetired = record { retired = refl; applied_same = refl }

run-RetiredAt_example :
    RetiredAt 0 1 21
      (run exact ((20, Steps.request get_pod) ∷ (21, Steps.clear) ∷ []) after_events).faults
run-RetiredAt_example =
    run-RetiredAt exact 0 1 18 ((20, Steps.request get_pod) ∷ (21, Steps.clear) ∷ []) after_events
      (omega arith, (omega arith, tt)) spent-IsRetired

action-fault_for_example :
    action (fault_for exact 20 get_pod after_events).0
    ≡ spec_action (find? (spent ∷ slowing ∷ []) (acts 20 get_pod))
action-fault_for_example = action-fault_for exact 20 get_pod after_events

parse_path-segments_example :
    parse_path
      (unread get_pod)
      (segments Paths.core "v1" (Paths.in_namespace "ns") "pods" (Paths.object "web"))
    ≡ located get_pod Paths.core "v1" (Paths.in_namespace "ns") "pods" (Paths.object "web")
parse_path-segments_example =
    parse_path-segments get_pod Paths.core "v1" (Paths.in_namespace "ns") "pods"
      (Paths.object "web") refl
