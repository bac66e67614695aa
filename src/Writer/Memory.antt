-- ===== src/Writer/Memory.antt =====
-- A queue of points in memory of toinflux/writer.py: holding a point, and passing those that were
-- posted.
use send_to_influx.Prelude.{
  ℕ, zero, suc, ◌+◌, ◌-◌, ◌≤◌, ◌≡◌, refl, sym, ap, ◌∙◌, subst, Bool, true, false, not, ◌||◌, List,
  [], ◌∷◌, ◌++◌, All, append_assoc, append-nil, max, length, length-append, drop, Bool-cases, inl,
  inr, ◌==◌, leb, if◌then◌else◌, arith,
}
use send_to_influx.Writer.Entry.{Entry}
use send_to_influx.Writer.Posting.{is_handled}

abbrev pub memory_points_per_worker : ℕ
memory_points_per_worker = 500

abbrev pub popped : List Entry → List Entry
popped [] = []
popped (e ∷ es) = es

-- The last part of `_append`: the oldest point makes room for one more.
unfoldable pub hold : List Entry → Entry → List Entry
hold queue e =
    (if leb memory_points_per_worker (length queue) then popped queue else queue) ++ e ∷ []

unfoldable pub hold_all : List Entry → List Entry → List Entry
unfolding hold
hold_all queue [] = queue
hold_all queue (e ∷ es) = hold_all (hold queue e) es

-- `queue and queue[0] is entry`
abbrev pub is_front : Entry → List Entry → Bool
is_front e [] = false
is_front e (f ∷ fs) = f.id == e.id

-- `_consume` of entries of such a queue: what is left of it, and how many were removed or had gone.
unfoldable pub consume_queue : List Entry → List Entry → List Entry × ℕ
unfolding is_handled
consume_queue [] queue = (queue, 0)
consume_queue (e ∷ done) queue =
    let front = is_front e queue in
    let (left, removed) = consume_queue done (if front then popped queue else queue) in
    (left, if front || not (is_handled queue e) then removed + 1 else removed)

-- No two entries are the same object.
abbrev pub AreDistinct : List Entry → Type 0
AreDistinct [] = Unit
AreDistinct (e ∷ es) = All (λ f. (f.id == e.id) ≡ false) es × AreDistinct es

not_handled :
    (k : ℕ) (e : Entry) (es : List Entry)
    → All (λ f. (f.id == e.id) ≡ false) es
    → (is_front e (drop k es) ≡ false) × (is_handled (drop k es) e ≡ false)
unfolding is_handled
not_handled zero e [] h = (refl, refl)
not_handled zero e (f ∷ fs) h = (h.0, ground (arith, h.0, (not_handled zero e fs h.1).1))
not_handled (suc k) e [] h = (refl, refl)
not_handled (suc k) e (f ∷ fs) h = not_handled k e fs h.1

drop_same : (m n : ℕ) (es : List Entry) → m ≡ n → drop m es ≡ drop n es
drop_same m n es e = ap (λ k. drop k es) e

consume_queue-drop :
    (done later : List Entry) (k : ℕ)
    → AreDistinct (done ++ later)
    → consume_queue done (drop k (done ++ later))
      ≡ (drop (max k (length done)) (done ++ later), length done)
unfolding consume_queue
consume_queue-drop [] later k h =
    let same : k ≡ max k 0 = omega arith in ap (λ n. (drop n later, 0)) same
consume_queue-drop (d ∷ done) later zero h =
    let self : (d.id == d.id) ≡ true = ground arith in
    let ih = consume_queue-drop done later 0 h.1 in
    let same : max 0 (length done) ≡ length done = omega arith in
    let more : max 0 (suc (length done)) ≡ suc (length done) = omega arith in
    rw self (rw (ih, same, more) (ap (λ n. (drop (length done) (done ++ later), n)) (omega arith)))
consume_queue-drop (d ∷ done) later (suc k) h =
    let (not_front, gone) = not_handled k d (done ++ later) h.0 in
    let ih = consume_queue-drop done later k h.1 in
    let more : max (suc k) (suc (length done)) ≡ suc (max k (length done)) = omega arith in
    rw (not_front, gone)
      (rw (ih, more) (ap (λ n. (drop (max k (length done)) (done ++ later), n)) (omega arith)))

-- One more point, where there is room.
with_room :
    (queue : List Entry) (e : Entry) (es : List Entry)
    → drop
        (length (queue ++ e ∷ []) + length es - memory_points_per_worker)
        ((queue ++ e ∷ []) ++ es)
      ≡ drop (length queue + suc (length es) - memory_points_per_worker) (queue ++ e ∷ es)
with_room queue e es =
    let counted = length-append queue (e ∷ []) in
    let same : length (queue ++ e ∷ []) + length es - memory_points_per_worker
        ≡ length queue + suc (length es) - memory_points_per_worker =
      omega (arith, counted) in
    drop_same _ _ _ same
    ∙ ap (drop (length queue + suc (length es) - memory_points_per_worker))
        (append_assoc queue (e ∷ []) es)

hold_all-drop :
    (queue es : List Entry)
    → length queue ≤ memory_points_per_worker
    → hold_all queue es ≡ drop (length queue + length es - memory_points_per_worker) (queue ++ es)
unfolding hold_all hold
hold_all-drop queue [] h =
    let none_gone : length queue + 0 - memory_points_per_worker ≡ 0 = omega (arith, h) in
    rw none_gone (sym (append-nil queue))
hold_all-drop [] (e ∷ es) h = hold_all-drop (e ∷ []) es (omega arith) ∙ with_room [] e es
hold_all-drop (q ∷ queue) (e ∷ es) h =
    elim (Bool-cases (leb memory_points_per_worker (length (q ∷ queue)))) [
      | inl full ↦
          let counted = length-append queue (e ∷ []) in
          let at_bound : suc (length queue) ≡ memory_points_per_worker = ground (arith, full, h) in
          let same : suc (length queue) + suc (length es) - memory_points_per_worker
              ≡ suc (length (queue ++ e ∷ []) + length es - memory_points_per_worker) =
            omega (arith, counted, at_bound) in
          rw (full, same)
            (hold_all-drop (queue ++ e ∷ []) es (omega (arith, counted, at_bound))
              ∙ ap (drop (length (queue ++ e ∷ []) + length es - memory_points_per_worker))
                  (append_assoc queue (e ∷ []) es))
      | inr room ↦
          let counted = length-append queue (e ∷ []) in
          let below : suc (suc (length queue)) ≤ memory_points_per_worker = ground (arith, room) in
          rw room (
            hold_all-drop (q ∷ (queue ++ e ∷ [])) es (omega (arith, counted, below))
            ∙ with_room (q ∷ queue) e es)
    ]

-- Points that are passed after others have come, which may have dropped some of the queue's front: what is
-- left of the queue and the points that came is all but those that were passed and those that were dropped,
-- no other point is removed, and each that was passed is counted.
pub consume_queue-hold_all :
    (done rest es : List Entry)
    → AreDistinct ((done ++ rest) ++ es)
    → length (done ++ rest) ≤ memory_points_per_worker
    → let dropped = length (done ++ rest) + length es - memory_points_per_worker in
      consume_queue done (hold_all (done ++ rest) es)
      ≡ (drop (max dropped (length done)) ((done ++ rest) ++ es), length done)
consume_queue-hold_all done rest es h bound =
    let dropped = length (done ++ rest) + length es - memory_points_per_worker in
    let whole = append_assoc done rest es in
    ap (consume_queue done) (hold_all-drop (done ++ rest) es bound ∙ ap (drop dropped) whole)
    ∙ consume_queue-drop done (rest ++ es) dropped (subst AreDistinct whole h)
    ∙ ap (λ all. (drop (max dropped (length done)) all, length done)) (sym whole)
