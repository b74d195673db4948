-- ===== src/Run/Settle/Readiness/Decides.antt =====
-- What the readings of a settle wait say of the run.
use botbox.Base.{
  Bool, true, false, not, ◌&&◌, ◌||◌, ◌≤◌, ◌≡◌, refl, Option, none, some, List, [], ◌∷◌, ◌++◌,
  is_some, get_last?, arith, inl, inr, ◌⊎◌, All, In-filter_by, filter_by, ap, ◌∙◌, if-cases,
}
use botbox.Clock.{Time, after, before}
use botbox.Json.{Fields}
use botbox.Proxy.Request.{Request}
use botbox.Observe.{GroupVersionKind, Version}
use botbox.Observe.Store.{Store, current}
use botbox.Observe.Store
use botbox.Observe.Store.Live.{get_last?-In}
use botbox.Invariant.Running.{back}
use botbox.Run.Settle.{State, failed, read}
use botbox.Run.Settle.Readiness.{
  Evaluated, holds, not_bool, not_evaluated, ready, or_rest, Status, time_or, or_zero, changed_by,
  answer, state,
}

module _ (predicate : Fields → Evaluated) where
  -- The predicate holds on the CR, which nothing deletes.
  abbrev pub IsReady : Version → Type 0
  IsReady cr = (predicate cr.object ≡ holds true) × (is_some cr.deletion_timestamp ≡ false)

  -- The first CR that is not ready, of those before and after it.
  pub record Blocks (crs : List Version) (blocks : Version → Type 0) : Type 0 where
    pub ready_ones : List Version
    pub cr : Version
    pub others : List Version
    pub place : crs ≡ ready_ones ++ cr ∷ others
    pub readied : All IsReady ready_ones
    pub blocked : blocks cr

  abbrev pub IsUnready : Version → Type 0
  IsUnready cr =
      (predicate cr.object ≡ not_evaluated)
      ⊎ ((b : Bool) × (predicate cr.object ≡ holds b)
          × (not b || is_some cr.deletion_timestamp ≡ true))

  abbrev pub IsNotBool : Version → Type 0
  IsNotBool cr = predicate cr.object ≡ not_bool

  -- What `ready` answers, by its answer.
  abbrev pub Decides : List Version → Option Bool → Type 0
  Decides crs (some true) = All IsReady crs
  Decides crs (some false) = Blocks crs IsUnready
  Decides crs none = Blocks crs IsNotBool

  Blocks-cons :
      {P : Version → Type 0} (cr : Version) (crs : List Version)
      → IsReady cr
      → Blocks crs P
      → Blocks (cr ∷ crs) P
  Blocks-cons cr crs r b = record {
    ready_ones = cr ∷ b.ready_ones;
    cr = b.cr;
    others = b.others;
    place = ap (λ l. cr ∷ l) b.place;
    readied = (r, b.readied);
    blocked = b.blocked;
  }

  Decides-cons :
      (cr : Version) (crs : List Version) (o : Option Bool)
      → IsReady cr
      → Decides crs o
      → Decides (cr ∷ crs) o
  Decides-cons cr crs (some true) r d = (r, d)
  Decides-cons cr crs (some false) r d = Blocks-cons cr crs r d
  Decides-cons cr crs none r d = Blocks-cons cr crs r d

  at_first : {P : Version → Type 0} (cr : Version) (crs : List Version) → P cr → Blocks (cr ∷ crs) P
  at_first cr crs p = record {
    ready_ones = [];
    cr = cr;
    others = crs;
    place = refl;
    readied = tt;
    blocked = p;
  }

  ready-Decides : (crs : List Version) → Decides crs (ready predicate crs)
  unfolding ready
  ready-Decides [] = tt
  ready-Decides (cr ∷ crs) = by (predicate cr.object) refl (ready predicate crs) (ready-Decides crs)
    where
      is_true : (b : Bool) → (not b || is_some cr.deletion_timestamp) ≡ false → b ≡ true
      is_true b k = ground arith

      stays :
          (b : Bool)
          → (not b || is_some cr.deletion_timestamp) ≡ false
          → is_some cr.deletion_timestamp ≡ false
      stays b k = ground arith

      by :
          (e : Evaluated)
          → predicate cr.object ≡ e
          → (o : Option Bool) → Decides crs o
          → Decides (cr ∷ crs) (or_rest e (is_some cr.deletion_timestamp) o)
      by not_bool q o d = at_first cr crs q
      by not_evaluated q o d = at_first cr crs (inl q)
      by (holds b) q o d =
          if-cases (Decides (cr ∷ crs)) (not b || is_some cr.deletion_timestamp) (some false) o
            (λ k. at_first cr crs (inr (b, q, k)))
            (λ k. Decides-cons cr crs o (q ∙ ap holds (is_true b k), stays b k) d)

  -- What a reading reports, by what it is. It fails only where the predicate of a CR gives no Bool. A run
  -- is ready only where each CR is, and the target was back since it started and does not restart. The
  -- instant of the last change is none before the wait's start, the target's start or its return.
  abbrev pub Reports : List Version → Status → Option Time → Time → State (Unit {0}) → Type 0
  Reports crs status returned since (failed u) = Decides crs none
  Reports crs status returned since (read b changed) =
      (r : Bool) × Decides crs (some r)
      × (b ≡ (r && (is_some returned && not status.restarting)))
      × (since ≤ changed)
      × (status.started ≤ changed)
      × (or_zero returned ≤ changed)

  answer-Reports :
      (crs : List Version) (status : Status) (returned : Option Time) (since changed : Time)
      (o : Option Bool)
      → Decides crs o
      → since ≤ changed
      → status.started ≤ changed
      → or_zero returned ≤ changed
      → Reports crs status returned since (answer status returned changed o)
  answer-Reports crs status returned since changed none d h k l = d
  answer-Reports crs status returned since changed (some r) d h k l = (r, d, refl, h, k, l)

last-since :
    (store : Store) (since now : Time)
    → since ≤ time_or since (get_last? (Store.window store since now))
unfolding Store.window
last-since store since now = by (get_last? inside) refl
  where
    inside : List Version
    inside = filter_by (λ v. not (before v.time since) && not (after v.time now)) store.versions

    by : (o : Option Version) → get_last? inside ≡ o → since ≤ time_or since o
    by none q = omega arith
    by (some v) q =
        let (old, e) =
          In-filter_by (λ (v : Version). not (before v.time since) && not (after v.time now))
            store.versions (get_last?-In inside q) in
        ground arith

changed_by-le :
    (since : Time) (recorded : List Version) (started : Time) (returned : Option Time)
    → since ≤ time_or since (get_last? recorded)
    → (since ≤ changed_by since recorded started returned)
      × (started ≤ changed_by since recorded started returned)
      × (or_zero returned ≤ changed_by since recorded started returned)
unfolding changed_by
changed_by-le since recorded started returned h = ground arith

-- A reading of the settle wait reports the run as it is, and a change no earlier than the wait's start.
pub state-Reports :
    (predicate : Fields → Evaluated) (primary : GroupVersionKind) (status : Status)
    (log : List Request) (store : Store) (since now : Time)
    → Reports predicate
        (current store primary)
        status
        (back log status.started)
        since
        (state predicate primary status log store since now)
unfolding state
state-Reports predicate primary status log store since now =
    let recorded = Store.window store since now in
    let returned = back log status.started in
    let (a, b, c) =
      changed_by-le since recorded status.started returned (last-since store since now) in
    answer-Reports predicate (current store primary) status returned since
      (changed_by since recorded status.started returned) (ready predicate (current store primary))
      (ready-Decides predicate (current store primary)) a b c
