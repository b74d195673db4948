-- ===== src/Run/Settle/Answers.antt =====
-- What a settle wait has seen when it answers.
use botbox.Base.{
  ℕ, ◌+◌, ◌≤◌, ◌<◌, ◌≡◌, refl, Bool, true, false, not, ◌⊎◌, inl, inr, Option, none, some, arith,
  if-cases, ◌∙◌, ap,
}
use botbox.Clock.{Time, before}
use botbox.Run.Settle.{
  Settle, State, failed, read, Environment, Round, converged, expired, halted, error, again,
  held_open, last_change, floored, owed_deadline, slept, expire, is_settled, judge, round,
}

-- A wait that reached `held_open` holds no request, and passed the deadline and the release.
held_open-reached :
    (h : Bool × Time) (deadline t settle : ℕ)
    → 0 < settle
    → not (before t (held_open h deadline t settle)) ≡ true
    → (h.0 ≡ false) × (deadline ≤ t) × (h.1 + settle ≤ t)
unfolding held_open
held_open-reached (false, released) deadline t settle p h = ground arith
held_open-reached (true, released) deadline t settle p h = absurd (ground arith)

module _ (env : Environment) (s : Settle) where
  open env use {World, Error, state, now, stopped, held, owed, sleep}

  -- What the last round of a wait that converged read, at its instant `t`: the target ready, running, no
  -- request held, and no change and no release of a held request for timeouts.stable.
  pub record IsSettled (start : Time) : Type 0 where
    pub opened : World
    pub changed : Time
    pub before_now : World
    pub ready : state start opened ≡ (read true changed, before_now)
    pub t : Time
    pub before_stopped : World
    pub read_now : now before_now ≡ (t, before_stopped)
    pub before_held : World
    pub running : stopped before_stopped ≡ (false, before_held)
    pub released : Time
    pub after_held : World
    pub free : held t before_held ≡ ((false, released), after_held)
    pub still : changed + s.stable ≤ t
    pub forwarded : released + s.stable ≤ t
    pub past_floor : s.floor ≤ t

  -- What the last round of a wait that gave up read: it is past timeouts.settle, the floor and what is
  -- owed, no request that came by that deadline is held, and each was released timeouts.settle ago.
  pub record IsExpired (start : Time) : Type 0 where
    pub t : Time
    pub late : World
    pub deadline : Time
    pub before_held : World
    pub owed_by : owed_deadline env s owed (floored env s start) late ≡ (deadline, before_held)
    pub released : Time
    pub after_held : World
    pub free : held deadline before_held ≡ ((false, released), after_held)
    pub reached : deadline ≤ t
    pub settled : start + s.settle ≤ deadline
    pub floored_by : s.floor + s.stable ≤ deadline
    pub forwarded : released + s.settle ≤ t

  is_settled-changed :
      (ready : Bool) (h : Bool × Time) (changed t : Time)
      → 0 < s.stable
      → is_settled env s ready (last_change h changed t) t ≡ true
      → (ready ≡ true)
        × (h.0 ≡ false)
        × (changed + s.stable ≤ t)
        × (h.1 + s.stable ≤ t)
        × (s.floor ≤ t)
  unfolding is_settled last_change
  is_settled-changed ready (false, released) changed t p h = ground arith
  is_settled-changed ready (true, released) changed t p h = absurd (ground arith)

  floored-le :
      (start : Time)
      → (start + s.settle ≤ floored env s start) × (s.floor + s.stable ≤ floored env s start)
  unfolding floored
  floored-le start = ground arith

  owed_deadline-le :
      (o : Option (World → Time × World)) (deadline : Time) (w : World)
      → deadline ≤ (owed_deadline env s o deadline w).0
  owed_deadline-le none deadline w = omega arith
  owed_deadline-le (some owed_by) deadline w = ground arith

  none_held : (r : (Bool × Time) × World) → r.0.0 ≡ false → r ≡ ((false, r.0.1), r.1)
  none_held ((b, t), w) e = ground arith

  not_stopped : (r : Bool × World) → r.0 ≡ false → r ≡ (false, r.1)
  not_stopped (b, w) e = ground arith

  -- What a round has seen by what it comes to.
  abbrev pub Saw : Time → Round Error → Type 0
  Saw start converged = IsSettled start
  Saw start expired = IsExpired start
  Saw start halted = (w : World) × ((stopped w).0 ≡ true)
  Saw start (error e) =
      ((w : World) × ((state start w).0 ≡ failed e)) ⊎ ((w : World) × ((sleep w).0 ≡ some e))
  Saw start again = Unit

  slept-Saw :
      (start : Time) (w : World) (o : Option Error × World)
      → sleep w ≡ o
      → Saw start (slept env s o).0
  slept-Saw start w (none, w') q = tt
  slept-Saw start w (some e, w') q = inr (w, ap (λ o. o.0) q)

  expire-Saw : (start t : Time) (w : World) → 0 < s.settle → Saw start (expire env s start t w).0
  unfolding expire
  expire-Saw start t w h =
      let (deadline, w1) = owed_deadline env s owed (floored env s start) w in
      let (holding, w2) = held deadline w1 in
      if-cases (λ r. Saw start r.0) (not (before t (held_open holding deadline t s.settle)))
        (expired, w2) (slept env s (sleep w2))
        (λ k.
          let (free, reached, forwarded) = held_open-reached holding deadline t s.settle h k in
          record {
            t = t;
            late = w;
            deadline = deadline;
            before_held = w1;
            owed_by = refl;
            released = holding.1;
            after_held = w2;
            free = none_held (held deadline w1) free;
            reached = reached;
            settled =
                omega (arith, floored-le start, owed_deadline-le owed (floored env s start) w);
            floored_by =
                omega (arith, floored-le start, owed_deadline-le owed (floored env s start) w);
            forwarded = forwarded;
          })
        (λ k. slept-Saw start w2 (sleep w2) refl)

  judge-Saw :
      (start : Time) (w : World) (r : State Error × World)
      → 0 < s.stable
      → 0 < s.settle
      → state start w ≡ r
      → Saw start (judge env s start r).0
  judge-Saw start w (failed x, w') p h q = inl (w, ap (λ r. r.0) q)
  judge-Saw start w (read ready changed, w') p h q =
      let (t, w1) = now w' in
      let (stop, w2) = stopped w1 in
      let (holding, w3) = held t w2 in
      let settled = is_settled env s ready (last_change holding changed t) t in
      let to = λ (r : Round Error × World). Saw start r.0 in
      if-cases to stop (halted, w2) _ (λ k. (w1, k))
        (λ k.
          if-cases to settled (converged, w3) _
            (λ e.
              let (is_ready, free, still, forwarded, past) =
                is_settled-changed ready holding changed t p e in
              record {
                opened = w;
                changed = changed;
                before_now = w';
                ready = q ∙ ap (λ b. (read b changed, w')) is_ready;
                t = t;
                before_stopped = w1;
                read_now = refl;
                before_held = w2;
                running = not_stopped (stopped w1) k;
                released = holding.1;
                after_held = w3;
                free = none_held (held t w2) free;
                still = still;
                forwarded = forwarded;
                past_floor = past;
              })
            (λ e. expire-Saw start t w3 h))

  pub round-Saw :
      (start : Time) (w : World) → 0 < s.stable → 0 < s.settle → Saw start (round env s start w).0
  unfolding round
  round-Saw start w p h = judge-Saw start w (state start w) p h refl
