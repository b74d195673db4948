-- ===== src/Generate/Checkpointed/Wraps.antt =====
-- What the settle waits of `checkpointed` leave judged.
use botbox.Base.{
  ℕ, suc, ◌+◌, Bool, true, false, not, ◌&&◌, ◌||◌, List, [], ◌∷◌, ◌++◌, ◌≡◌, refl, sym, ap, ◌∙◌,
  length, arith, append_assoc, append-nil, length-append,
}
use botbox.Base.Int.{pos}
use botbox.Run.Sequence.{Op, settles}
use botbox.Generate.Checkpointed.{
  a_settle, emit, emit_if, wants_settled, settles_after, checkpoint_from,
}

-- A settle wait at position n, or none.
abbrev pub waits : Bool → ℕ → List Op
waits true n = record a_settle { index = pos n } ∷ []
waits false n = []

-- What the loop emits, from position n on, after an op that settled or did not.
unfoldable pub stream : List Op → ℕ → Bool → List Op
stream [] n settled = []
stream (o ∷ rest) n settled =
    let first = wants_settled o && not settled in
    let k = n + length (waits first n) in
    let after = settles_after o rest (settles o) in
    waits first n
    ++ (record o { index = pos k }
        ∷ (waits after (suc k)
            ++ stream rest (suc k + length (waits after (suc k))) (after || settles o)))

emit_if-stream :
    (b : Bool) (judged : List Op) (settled : Bool)
    → emit_if b (judged, settled) ≡ (judged ++ waits b (length judged), b || settled)
unfolding emit settles
emit_if-stream true judged settled = refl
emit_if-stream false judged settled = ap (λ l. (l, settled)) (sym (append-nil judged))

-- What is emitted after more of it depends on how much that is.
emitted_after :
    (judged more : List Op) (f : ℕ → List Op)
    → (judged ++ more) ++ f (length (judged ++ more))
      ≡ judged ++ (more ++ f (length judged + length more))
emitted_after judged more f = rw (length-append judged more, append_assoc judged more) refl

emitted_after-one :
    (judged : List Op) (o : Op) (f : ℕ → List Op)
    → (judged ++ o ∷ []) ++ f (length (judged ++ o ∷ [])) ≡ judged ++ (o ∷ f (suc (length judged)))
emitted_after-one judged o f =
    let next : length judged + 1 ≡ suc (length judged) = omega arith in
    emitted_after judged (o ∷ []) f ∙ ap (λ n. judged ++ (o ∷ f n)) next

pub checkpoint_from-stream :
    (ops judged : List Op) (settled : Bool)
    → (checkpoint_from ops (judged, settled)).0 ≡ judged ++ stream ops (length judged) settled
unfolding checkpoint_from stream emit settles
checkpoint_from-stream [] judged settled = sym (append-nil judged)
checkpoint_from-stream (o ∷ rest) judged settled =
    let first = wants_settled o && not settled in
    let after = settles_after o rest (settles o) in
    let before = judged ++ waits first (length judged) in
    let emitted = before ++ record o { index = pos (length before) } ∷ [] in
    let all = emitted ++ waits after (length emitted) in
    ap (λ st. (checkpoint_from rest (emit_if after (emit o st))).0)
      (emit_if-stream first judged settled)
    ∙ ap (λ st. (checkpoint_from rest st).0) (emit_if-stream after emitted (settles o))
    ∙ checkpoint_from-stream rest all (after || settles o)
    ∙ emitted_after emitted (waits after (length emitted)) (λ n. stream rest n (after || settles o))
    ∙ emitted_after-one before (record o { index = pos (length before) })
        (λ n. waits after n ++ stream rest (n + length (waits after n)) (after || settles o))
    ∙ emitted_after judged (waits first (length judged)) (λ n.
      record o { index = pos n }
      ∷ (waits after (suc n)
          ++ stream rest (suc n + length (waits after (suc n))) (after || settles o)))
