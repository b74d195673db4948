-- ===== src/Run/Shrink/Renumber.antt =====
-- What `without` makes of the ops that stay: their order, their positions, and the ops they name.
use botbox.Base.{ℕ, suc, ◌-◌, Option, none, some, ltb, if◌then◌else◌}
use botbox.Base.Int.{pos}
use botbox.Run.Sequence.{Op, Sequence}
use botbox.Run.Shrink.{moved, move_fault}

-- The position that the op at `j` had before the op at `i` went.
abbrev pub before_removal : ℕ → ℕ → ℕ
before_removal i j = if ltb j i then j else suc j

-- An op as `without` leaves it at position `j`.
abbrev pub renumbered : ℕ → ℕ → Option Op → Option Op
renumbered i j none = none
renumbered i j (some o) =
    some (record o { index = pos j; fault = move_fault i o.fault; until = moved i o.until })

-- The op that an index names once the op at `i` is gone.
abbrev pub named_after : ℕ → ℕ → ℕ
named_after i u = if ltb i u then u - 1 else u
