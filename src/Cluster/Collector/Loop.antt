-- ===== src/Cluster/Collector/Loop.antt =====
-- internal/cluster/collector.go: when the collector sweeps (`run`, `notify`). The watches' events come at
-- any time, and ask for a sweep on a channel that holds one request.
use botbox.Base.{ℕ, suc, ◌≤◌, Bool, true, false, ◌≡◌, ◌⊎◌, inl, inr, arith}

-- Where the goroutine of `run` stands: it waits, it has taken a request, or it sweeps.
pub data Phase : Type 0 where
  waiting taken sweeping stopped : Phase

-- `pending` is the request on the channel. The counts are of the events so far, and of those that had come
-- when the last sweep listed its objects.
pub record Loop : Type 0 where
  pub phase : Phase
  pub pending : Bool
  pub events : ℕ
  pub listed : ℕ

-- `notify`
unfoldable pub notify : Loop → Loop
notify l = record l { pending = true; events = suc l.events }

-- `<-c.events`
unfoldable pub take : Loop → Loop
take l = record l { phase = Phase.taken; pending = false }

-- `c.objects()`
unfoldable pub list : Loop → Loop
list l = record l { phase = Phase.sweeping; listed = l.events }

-- The round ends.
unfoldable pub again : Loop → Loop
again l = record l { phase = Phase.waiting }

-- `run`, in steps, with the events that come between them.
pub data Step : Loop → Loop → Type 0 where
  event : (l : Loop) → Step l (notify l)
  request : (l : Loop) → l.phase ≡ Phase.waiting → l.pending ≡ true → Step l (take l)
  lists : (l : Loop) → l.phase ≡ Phase.taken → Step l (list l)
  swept : (l : Loop) → l.phase ≡ Phase.sweeping → Step l (again l)
  stop : (l : Loop) → l.phase ≡ Phase.waiting → Step l (record l { phase = Phase.stopped })

pub data Runs (s : Loop) : Loop → Type 0 where
  here : Runs s s
  next : {l m : Loop} → Runs s l → Step l m → Runs s m

-- `StartCollector`: the loop before its first round.
abbrev pub started : Loop
started = record { phase = Phase.waiting; pending = false; events = 0; listed = 0 }

-- Every event is before the last listing, or a sweep is still asked for, or a listing comes next.
abbrev IsCovered : Loop → Type 0
IsCovered l =
    (l.listed ≤ l.events) × ((l.listed ≡ l.events) ⊎ ((l.pending ≡ true) ⊎ (l.phase ≡ Phase.taken)))

Step-IsCovered : {l m : Loop} → Step l m → IsCovered l → IsCovered m
unfolding notify take list again
Step-IsCovered (event l) (le, c) = (omega arith, inr (inl (ground arith)))
Step-IsCovered (request l w p) (le, c) = (le, inr (inr (ground arith)))
Step-IsCovered (lists l t) (le, c) = (omega arith, inl (ground arith))
Step-IsCovered (swept l s) (le, inl e) = (le, inl e)
Step-IsCovered (swept l s) (le, inr (inl p)) = (le, inr (inl p))
Step-IsCovered (swept l s) (le, inr (inr t)) = absurd (ground arith)
Step-IsCovered (stop l s) (le, inl e) = (le, inl e)
Step-IsCovered (stop l s) (le, inr (inl p)) = (le, inr (inl p))
Step-IsCovered (stop l s) (le, inr (inr t)) = absurd (ground arith)

pub Runs-IsCovered : {l : Loop} → Runs started l → IsCovered l
Runs-IsCovered here = (omega arith, inl (ground arith))
Runs-IsCovered (next r s) = Step-IsCovered s (Runs-IsCovered r)

-- No event is lost: where the collector waits and no sweep is asked for, the last sweep listed its objects
-- after every event that came, however the events fall between the steps.
pub Runs-IsSwept :
    {l : Loop} → Runs started l → l.phase ≡ Phase.waiting → l.pending ≡ false → l.listed ≡ l.events
Runs-IsSwept {l} r waits none = by (Runs-IsCovered r).1
  where
    by :
        (l.listed ≡ l.events) ⊎ ((l.pending ≡ true) ⊎ (l.phase ≡ Phase.taken)) → l.listed ≡ l.events
    by (inl e) = e
    by (inr (inl p)) = absurd (ground arith)
    by (inr (inr t)) = absurd (ground arith)
