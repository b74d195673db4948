-- ===== src/Clock.antt =====
-- Instants. Go's time.Time is the count of nanoseconds since its zero value, so 0 is the zero time
-- and `IsZero` is `is_zero`; a duration that the code has made positive is a count as well.
-- No instant of a run lies before the zero time, and none near the 292 years where a Duration ends.
use botbox.Base.{ℕ, Bool, ltb, nat_eq, if◌then◌else◌}

abbrev pub Time : Type 0
Time = ℕ

abbrev pub is_zero : Time → Bool
is_zero t = nat_eq t 0

-- t.Before(u)
abbrev pub before : Time → Time → Bool
before t u = ltb t u

-- t.After(u)
abbrev pub after : Time → Time → Bool
after t u = ltb u t

-- `later` of internal/invariant/g4.go
abbrev pub later : Time → Time → Time
later a b = if after b a then b else a
