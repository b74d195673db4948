-- ===== src/Invariant/Running.antt =====
-- internal/invariant/running.go, and the kinds of request of g1.go and g2.go: when the target was back.
pub mod Earliest
use botbox.Base.{
  ℕ, ◌+◌, ◌/◌, String, Bool, false, not, ◌&&◌, ◌||◌, Option, none, some, List, [], ◌∷◌, ◌==◌, ℕ-eq,
  String-eq, if◌then◌else◌, any, contains,
}
use botbox.Clock.{Time, is_zero, before, after}
use botbox.Proxy.Request.{Request}
use botbox.Run.Sequence.{OpType, op_type_beq}
use botbox.Invariant.{Input, Op, Exit, settle_timeout}

-- `leaderElection` of g1.go
unfoldable pub leader_election : Request → Bool
leader_election r = r.group == "coordination.k8s.io"

-- `reconciles` of g1.go
unfoldable pub reconciles : Request → Bool
unfolding leader_election
reconciles r =
    if r.watch || (r.verb == "watch" || r.resource == "") then false else not (leader_election r)

-- `writes` of g2.go
unfoldable pub writes : String → Bool
writes verb = contains ("create" ∷ "update" ∷ "patch" ∷ "delete" ∷ "deletecollection" ∷ []) verb

-- `writesStatus` of g2.go
unfoldable pub writes_status : Request → Bool
unfolding writes
writes_status r = r.subresource == "status" && writes r.verb

unfoldable is_lease : Request → Bool
unfolding leader_election
is_lease r = leader_election r && r.resource == "leases"

-- `gotLease`
unfoldable pub got_lease : Request → Bool
unfolding is_lease
got_lease r = is_lease r && r.verb == "get"

unfoldable pub won : Request → Bool
unfolding is_lease
won r = is_lease r && (contains ("create" ∷ "update" ∷ "patch" ∷ []) r.verb && r.status / 100 == 2)

unfoldable pub electing : List Request → Bool
unfolding got_lease
electing requests = any requests got_lease

-- The loop of `first`: the earliest start so far, or zero.
unfoldable pub first_start : List Request → Time → (Request → Bool) → Time → Time
first_start [] since matches earliest = earliest
first_start (r ∷ rs) since matches earliest = first_start rs since matches (
    if after r.start since && (matches r && (is_zero earliest || before r.start earliest))
    then r.start
    else earliest)

-- `first`, which found a request exactly if the instant is not zero.
unfoldable pub first : List Request → Time → (Request → Bool) → Option Time
unfolding first_start
first requests since matches =
    let earliest = first_start requests since matches 0 in
    if is_zero earliest then none else some earliest

abbrev then_first : Option Time → List Request → (Request → Bool) → Option Time
then_first none requests matches = none
then_first (some got) requests matches = first requests got matches

-- `Back`
unfoldable pub back : List Request → Time → Option Time
unfolding electing leader_election won
back requests since =
    if not (electing requests)
    then first requests since (λ r. not (r.resource == "") && not (leader_election r))
    else then_first (first requests since got_lease) requests won

-- `settledBy`
abbrev settled_after : Time → ℕ → Option Time → Time
settled_after restart settle none = restart + settle
settled_after restart settle (some t) =
    if before t (restart + settle) then t + settle else restart + settle

unfoldable pub settled_by : Input → Time → Time
unfolding back
settled_by inp restart = settled_after restart (settle_timeout inp) (back inp.requests restart)

-- The loop of `restartOwed`.
abbrev last_owed : Input → Time → List Op → Time → Time
last_owed inp t [] owed = owed
last_owed inp t (o ∷ ops) owed =
    last_owed inp t ops
      (if op_type_beq o.type OpType.restart && before o.time t then settled_by inp o.time else owed)

unfoldable pub restart_owed : Input → Time → Time
unfolding settled_by
restart_owed inp t = last_owed inp t inp.ops 0

-- What names the last start: nothing, a Restart op, or the restart after an exit.
pub data Started : Type 0 where
  not_restarted : Started
  by_op : Op → Started
  after_exit : Exit → Started

abbrev last_restart_op : Time → List Op → Time × Started → Time × Started
last_restart_op t [] last = last
last_restart_op t (o ∷ ops) last =
    last_restart_op t ops
      (if op_type_beq o.type OpType.restart && before o.time t then (o.time, by_op o) else last)

abbrev last_exit : Time → List Exit → Time × Started → Time × Started
last_exit t [] last = last
last_exit t (e ∷ exits) last =
    last_exit t exits
      (if before e.restart t && after e.restart last.0 then (e.restart, after_exit e) else last)

-- `lastRestart`
unfoldable pub last_restart : Input → Time → Time × Started
last_restart inp t = last_exit t inp.exits (last_restart_op t inp.ops (0, not_restarted))
