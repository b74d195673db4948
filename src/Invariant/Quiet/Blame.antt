-- ===== src/Invariant/Quiet/Blame.antt =====
-- Which changes of objects in a quiet window the target is blamed for.
use botbox.Base.{
  ◌≤◌, ◌≡◌, refl, true, ◌&&◌, ◌||◌, Option, none, some, List, [], ◌∷◌, arith, All, In, here, there,
  any→In, In-filter_by, ◌==◌, String-eq, filter_by,
}
use botbox.Proxy.Request.{Request}
use botbox.Observe.{Version}
use botbox.Observe.Store.{Store, resource}
use botbox.Invariant.{Input, versions}
use botbox.Invariant.Window.{Quiet}
use botbox.Invariant.Running.{writes}
use botbox.Invariant.Quiet.{inside, requests_in, attributes, explains, moved_in, changes_in}

-- A write of the target's that could have made the version: in the window, no later than the version,
-- and on the version's object or its collection.
pub record Explains (inp : Input) (w : Quiet) (s : Store) (v : Version) (r : Request) : Type 0 where
  pub logged : In r inp.requests
  pub at_inside : inside w r.start ≡ true
  pub is_write : writes r.verb ≡ true
  pub no_later : r.start ≤ v.time
  pub of_kind :
      ((r.group == (resource s v.key.gvk).group) ≡ true)
      × ((r.resource == (resource s v.key.gvk).resource) ≡ true)
  pub of_object :
      ((r.namespace == v.key.namespace) ≡ true) × ((r.name == "" || r.name == v.key.name) ≡ true)

-- A version that the target is blamed for.
pub record IsBlamed (inp : Input) (w : Quiet) (v : Version) : Type 0 where
  pub seen : In v (versions inp)
  pub moved_inside : inside w v.time ≡ true
  pub store : Store
  pub recorded : inp.history ≡ some store
  pub attributed : attributes inp store v ≡ true
  pub write : Request
  pub explained : Explains inp w store v write

explains-Explains :
    (inp : Input) (w : Quiet) (s : Store) (v : Version)
    → explains s (requests_in inp w (λ r. writes r.verb)) v ≡ true
    → (r : Request) × Explains inp w s v r
unfolding explains requests_in
explains-Explains inp w s v h =
    let (r, m, k) = any→In (filter_by (λ r. inside w r.start && writes r.verb) inp.requests) _ h in
    let (old, e) =
      In-filter_by (λ (r : Request). inside w r.start && writes r.verb) inp.requests m in
    (
      r,
      record {
        logged = old;
        at_inside = ground arith;
        is_write = ground arith;
        no_later = ground arith;
        of_kind = ground arith;
        of_object = ground arith;
      },
    )

All-of_In {ℓ} : {A : Type ℓ} {P : A → Type 0} (xs : List A) → ((a : A) → In a xs → P a) → All P xs
All-of_In [] f = tt
All-of_In (x ∷ xs) f = (f x (here refl), All-of_In xs (λ a m. f a (there m)))

moved_in-IsBlamed :
    (inp : Input) (w : Quiet) (h : Option Store)
    → inp.history ≡ h
    → All (IsBlamed inp w) (moved_in inp w (requests_in inp w (λ r. writes r.verb)) h)
moved_in-IsBlamed inp w none q = tt
moved_in-IsBlamed inp w (some s) q = All-of_In _ (λ v m.
    let test = λ (v : Version).
      inside w v.time
      && (attributes inp s v && explains s (requests_in inp w (λ r. writes r.verb)) v) in
    let (old, e) = In-filter_by test (versions inp) m in
    let (r, x) = explains-Explains inp w s v (ground arith) in
    record {
      seen = old;
      moved_inside = ground arith;
      store = s;
      recorded = q;
      attributed = ground arith;
      write = r;
      explained = x;
    })

-- G2 blames the target for a change of an object only where the history recorded it inside the quiet
-- window, of the primary CR or a managed object, and the target's log has a write inside the window, no
-- later than the version, to that object or to its collection.
pub changes_in-IsBlamed : (inp : Input) (w : Quiet) → All (IsBlamed inp w) (changes_in inp w)
unfolding changes_in
changes_in-IsBlamed inp w = moved_in-IsBlamed inp w inp.history refl
