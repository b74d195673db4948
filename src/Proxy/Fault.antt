-- ===== src/Proxy/Fault.antt =====
-- internal/proxy/fault.go: the faults the proxy holds, and what it does with them under its lock.
-- One function for each method, from the state and the instant its call of time.Now returned. A hold
-- is named by its fault and its place there, as the pointer that `faultFor` hands to `await` names it.
pub mod Steps
pub mod Sound
pub mod Serving
pub mod Retired
pub mod Holds
use mathlib.Core.List.{foldl}
use botbox.Base.{
  ℕ, suc, ◌+◌, String, Bool, true, false, not, ◌&&◌, ◌||◌, Option, none, some, List, [], ◌∷◌, ◌++◌,
  map, ltb, leb, ◌==◌, String-eq, ℕ-eq, if◌then◌else◌, length, get_elem?, update,
}
use botbox.Base.Int.{ℤ, pos, negsuc}
use botbox.Clock.{Time, is_zero, before, after}
use botbox.Proxy.Request.{Request}

-- `error`, `delay` for so long, or `drop`.
pub data FaultAction : Type 0 where
  error : ℕ → FaultAction
  delay : ℤ → FaultAction
  drop : FaultAction

pub record Trigger : Type 0 where
  pub count : ℤ
  pub for : ℤ

-- What the package takes from libraries: path.Match (`none` for a malformed pattern), a seeded
-- rand.Rand, and the two tests of a float64 share, `0 < fraction < 1` and `Float64() >= fraction`.
pub record Libraries : Type 1 where
  pub Fraction : Type 0
  pub Rand : Type 0
  pub match_glob : String → String → Option Bool
  pub new_rand : ℕ → ℕ → Rand
  pub is_share : Fraction → Bool
  pub draw_misses : Rand → Fraction → Bool × Rand

pub record Hold : Type 0 where
  pub arrived : Time
  pub released : Time

pub record FaultWindow : Type 0 where
  pub first : Time
  pub retired : Time

-- `earliest`: a zero instant has not come.
unfoldable pub earliest : Time → Time → Time
earliest a b = if is_zero a || (not (is_zero b) && before b a) then b else a

-- The trigger's count is above 0 and used up.
abbrev pub count_spent : ℤ → ℕ → Bool
count_spent (pos (suc n)) applied = leb (suc n) applied
count_spent _ applied = false

-- The end of a fault's duration, if it has one and it has come.
abbrev window_end : ℤ → Time → Time → Option Time
window_end (pos (suc n)) since now =
    if after (since + suc n) now then none else some (since + suc n)
window_end _ since now = none

abbrev ended_by_window : Time → Option Time → Time
ended_by_window retired none = retired
ended_by_window retired (some end) = earliest retired end

-- The loop of `endedBy` over the holds.
unfoldable pub last_release : Time → List Hold → Time
last_release ended [] = ended
last_release ended (h ∷ hs) =
    let rest = last_release (if after h.released ended then h.released else ended) hs in
    if is_zero h.released then 0 else rest

-- One hold, in the loops of `Held` for the requests that arrived before `t`.
unfoldable pub see_hold : Time → Bool × Time → Hold → Bool × Time
see_hold t (holding, released) h =
    if not (before h.arrived t)
    then (holding, released)
    else if is_zero h.released
    then (true, released)
    else if after h.released released
    then (holding, h.released)
    else (holding, released)

-- What `faultFor` answers: the action, and the hold where the action is a delay.
abbrev pub Answer : Type 0
Answer = Option (FaultAction × Option (ℕ × ℕ))

-- A malformed pattern matches nothing.
abbrev matched : Option Bool → Bool
matched none = false
matched (some b) = b

module _ (lib : Libraries) where
  open lib use {Fraction, Rand, match_glob, new_rand, is_share, draw_misses}

  pub record RequestMatcher : Type 0 where
    pub verb : String
    pub resource : String
    pub name : String
    pub fraction : Fraction

  pub record FaultSpec : Type 0 where
    pub match : RequestMatcher
    pub action : FaultAction
    pub until : Trigger

  pub record InjectedFault : Type 0 where
    pub spec : FaultSpec
    pub since : Time
    pub random : Rand
    pub applied : ℕ
    pub first : Time
    pub spent : Time
    pub removed : Time
    pub holds : List Hold

  pub record Proxy : Type 0 where
    pub seed : ℕ
    pub faults : List InjectedFault

  -- `Matches`: every field but the fraction.
  unfoldable pub matches : RequestMatcher → Request → Bool
  matches m r =
      (m.verb == "" || m.verb == r.verb)
      && (m.resource == "" || m.resource == r.resource)
      && (m.name == "" || matched (match_glob m.name r.name))

  -- The bookkeeping at the end of `applies`.
  abbrev count_request : Time → InjectedFault → InjectedFault
  count_request now f = record f {
    applied = f.applied + 1;
    first = if f.applied + 1 == 1 then now else f.first;
    spent = if count_spent f.spec.until.count (f.applied + 1) then now else f.spent;
  }

  unfoldable pub draw : InjectedFault → Bool × InjectedFault
  draw f =
      if is_share f.spec.match.fraction
      then (let (misses, random) = draw_misses f.random f.spec.match.fraction in
          (misses, record f { random = random }))
      else (false, f)

  -- `applies`, with the fault as it leaves it.
  unfoldable pub applies : InjectedFault → Request → Time → Bool × InjectedFault
  applies f r now =
      if matches f.spec.match r
      then (let (misses, drawn) = draw f in
          if misses then (false, drawn) else (true, count_request now drawn))
      else (false, f)

  unfoldable pub retired_by : InjectedFault → Time → Time
  unfolding earliest
  retired_by f now =
      ended_by_window (earliest f.spent f.removed) (window_end f.spec.until.for f.since now)

  unfoldable pub expired : InjectedFault → Time → Bool
  expired f now = not (is_zero (retired_by f now))

  unfoldable pub ended_by : InjectedFault → Time → Time
  ended_by f now =
      let ended = retired_by f now in if is_zero ended then ended else last_release ended f.holds

  -- The method `remove` of a fault.
  unfoldable pub remove : Time → InjectedFault → InjectedFault
  remove now f = record f { removed = if is_zero f.removed then now else f.removed }

  -- The fault that AddFault appends.
  abbrev new_fault : Time → FaultSpec → Rand → InjectedFault
  new_fault now spec random = record {
    spec = spec;
    since = now;
    random = random;
    applied = 0;
    first = 0;
    spent = 0;
    removed = 0;
    holds = [];
  }

  -- AddFault: the new fault's id is its position.
  unfoldable pub add_fault : Time → FaultSpec → Proxy → ℕ × Proxy
  add_fault now spec p =
      let id : ℕ = length p.faults in
      (id, record p { faults = p.faults ++ new_fault now spec (new_rand p.seed id) ∷ [] })

  -- RemoveFault. An id that AddFault never gave panics, which is `none`.
  unfoldable pub remove_fault : Time → ℕ → Proxy → Option Proxy
  remove_fault now id p =
      if ltb id (length p.faults)
      then some (record p { faults = update p.faults id (remove now) })
      else none

  unfoldable pub clear_faults : Time → Proxy → Proxy
  clear_faults now p = record p { faults = map (remove now) p.faults }

  -- Window
  unfoldable pub window : Time → ℕ → Proxy → Option FaultWindow
  unfolding ended_by
  window now id p = elim (get_elem? p.faults id) [
    | none ↦ none
    | some f ↦ some (record { first = f.first; retired = ended_by f now })
  ]

  -- Held: whether a request that arrived before `t` is held, and the last release of one.
  unfoldable pub held : Time → Proxy → Bool × Time
  unfolding see_hold
  held t p = foldl (λ so_far f. foldl (see_hold t) so_far f.holds) (false, 0) p.faults

  -- The action of the fault `id`, which applied; a delay's hold begins here.
  abbrev act_on : FaultAction → Time → ℕ → InjectedFault → Answer × InjectedFault
  act_on (delay d) arrived id f = (
    some (delay d, some (id, length f.holds)),
    record f { holds = f.holds ++ record { arrived = arrived; released = 0 } ∷ [] },
  )
  act_on (error code) arrived id f = (some (error code, none), f)
  act_on drop arrived id f = (some (drop, none), f)

  -- The loop of `faultFor`, over the faults from position `id` on.
  unfoldable pub fault_for_from :
      Time → Request → ℕ → List InjectedFault → Answer × List InjectedFault
  fault_for_from now r id [] = (none, [])
  fault_for_from now r id (f ∷ fs) =
      let rest = fault_for_from now r (id + 1) fs in
      let (hit, tried) = applies f r now in
      if expired f now
      then (rest.0, f ∷ rest.1)
      else if hit
      then (let (answer, acting) = act_on tried.spec.action r.start id tried in
          (answer, acting ∷ fs))
      else (rest.0, tried ∷ rest.1)

  unfoldable pub fault_for : Time → Request → Proxy → Answer × Proxy
  fault_for now r p =
      let (answer, faults) = fault_for_from now r 0 p.faults in
      (answer, record p { faults = faults })

  -- The end of `await`, when the delay has elapsed or the target has hung up.
  abbrev release_hold : Time → ℕ → InjectedFault → InjectedFault
  release_hold now i f = record f { holds = update f.holds i (λ h. record h { released = now }) }

  unfoldable pub release : Time → ℕ × ℕ → Proxy → Proxy
  release now (id, i) p = record p { faults = update p.faults id (release_hold now i) }
