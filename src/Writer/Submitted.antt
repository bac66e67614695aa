-- ===== src/Writer/Submitted.antt =====
-- Where a submitted point goes in toinflux/writer.py while the disk works.
use send_to_influx.Prelude.{
  ℕ, ◌+◌, ◌≡◌, refl, sym, ap, ◌∙◌, Bool, true, false, ◌||◌, List, [], ◌∷◌, ◌++◌, append_assoc,
  append-nil,
}
use send_to_influx.Writer.Entry.{Record, Json, Entry}
use send_to_influx.Writer.Spool.{Spool, Written, synced, write_entry}
use send_to_influx.Writer.Spool.Unsent.{entry, unsent}
use send_to_influx.Writer.Spool.Valid.{IsValid}
use send_to_influx.Writer.Spool.Write.{write_entry-Unsent}
use send_to_influx.Writer.Submit.{
  Queue, Buffer, move_queue, move_memory, append_entry, submit, is_last_line,
}

abbrev pub points_in : List Entry → List Record
points_in [] = []
points_in (e ∷ es) = e.point ∷ points_in es

-- The points of all queues, in their order.
abbrev pub held_points : List Queue → List Record
held_points [] = []
held_points (q ∷ qs) = points_in q.entries ++ held_points qs

points_in-append : (es fs : List Entry) → points_in (es ++ fs) ≡ points_in es ++ points_in fs
points_in-append [] fs = refl
points_in-append (e ∷ es) fs = ap (λ rs. e.point ∷ rs) (points_in-append es fs)

module _ (json : Json) where
  -- A valid spool to which points were added at the end, and which may have lost its oldest.
  pub record HasAdded (rs : List Record) (s after : Spool) : Type 0 where
    pub valid : IsValid after
    pub added : List Entry
    pub gone : List Entry
    pub points : points_in added ≡ rs
    pub same : unsent json s ++ added ≡ gone ++ unsent json after

  HasAdded-none : (s : Spool) → IsValid s → HasAdded [] s s
  HasAdded-none s v = record {
    valid = v;
    added = [];
    gone = [];
    points = refl;
    same = append-nil (unsent json s);
  }

  HasAdded-then :
      (rs ts : List Record) (s next after : Spool)
      → HasAdded rs s next
      → HasAdded ts next after
      → HasAdded (rs ++ ts) s after
  HasAdded-then rs ts s next after h k = record {
    valid = k.valid;
    added = h.added ++ k.added;
    gone = h.gone ++ k.gone;
    points =
        points_in-append h.added k.added
        ∙ ap (λ us. us ++ points_in k.added) h.points
        ∙ ap (λ us. rs ++ us) k.points;
    same =
        sym (append_assoc (unsent json s) h.added k.added)
        ∙ ap (λ es. es ++ k.added) h.same
        ∙ append_assoc h.gone (unsent json next) k.added
        ∙ ap (λ es. h.gone ++ es) k.same
        ∙ sym (append_assoc h.gone k.gone (unsent json after));
  }

  HasAdded-one :
      (s : Spool) (r : Record)
      → IsValid s
      → let (after, ok) = write_entry json true synced r s in
        (ok ≡ true) × HasAdded (r ∷ []) s after
  HasAdded-one s r v =
      let (ok, valid, n, position, lost, same, _) = write_entry-Unsent json s r v in
      (
        ok,
        record {
          valid = valid;
          added = entry json n position r ∷ [];
          gone = lost;
          points = refl;
          same = same;
        },
      )

  module _ (creates : ℕ → Bool) (written : ℕ → Written) (can : (k : ℕ) → creates k ≡ true)
      (works : (k : ℕ) → written k ≡ synced) where
    one :
        (k : ℕ) (s : Spool) (r : Record)
        → IsValid s
        → let (after, ok) = write_entry json (creates k) (written k) r s in
          (ok ≡ true) × HasAdded (r ∷ []) s after
    one k s r v = rw (can k, works k) (HasAdded-one s r v)

    move_queue-HasAdded :
        (k : ℕ) (es : List Entry) (s : Spool)
        → IsValid s
        → let moved = move_queue json creates written k es s in
          HasAdded (points_in es) s moved.spool × (moved.left ≡ []) × (moved.all_moved ≡ true)
    unfolding move_queue
    move_queue-HasAdded k [] s v = (HasAdded-none s v, refl, refl)
    move_queue-HasAdded k (e ∷ es) s v =
        let (ok, first) = one k s e.point v in
        let next = (write_entry json (creates k) (written k) e.point s).0 in
        let (rest, left, all) = move_queue-HasAdded (k + 1) es next first.valid in
        rw ok (HasAdded-then (e.point ∷ []) (points_in es) s next _ first rest, left, all)

    move_memory-HasAdded :
        (k : ℕ) (qs : List Queue) (s : Spool)
        → IsValid s
        → let moved = move_memory json creates written k qs s in
          HasAdded (held_points qs) s moved.spool
          × (held_points moved.memory ≡ [])
          × (moved.all_moved ≡ true)
    unfolding move_memory
    move_memory-HasAdded k [] s v = (HasAdded-none s v, refl, refl)
    move_memory-HasAdded k (q ∷ qs) s v =
        let moved = move_queue json creates written k q.entries s in
        let (first, left, all) = move_queue-HasAdded k q.entries s v in
        let (rest, none_held, all_rest) =
          move_memory-HasAdded moved.writes qs moved.spool first.valid in
        rw all (
          HasAdded-then (points_in q.entries) (held_points qs) s moved.spool _ first rest,
          ap
                (λ es.
                  points_in es
                  ++ held_points
                      (move_memory json creates written moved.writes qs moved.spool).memory)
                left
              ∙ none_held,
          all_rest,
        )

    -- A buffered point that is new, on a disk that works or works again, every write to it succeeding:
    -- all that memory held goes to the spool first, and then the point; only oldest points may be gone
    -- for it. The spool is in use again, and nothing is held in memory.
    pub submit-HasAdded :
        (r : Record) (b : Buffer)
        → IsValid b.spool
        → (b.spool.disk || b.spool.locked) ≡ true
        → is_last_line r b.last_line ≡ false
        → let after = submit json creates written r true b in
          HasAdded (held_points b.memory ++ r ∷ []) b.spool after.spool
          × (held_points after.memory ≡ [])
          × (after.spool.disk ≡ true)
    unfolding submit append_entry
    submit-HasAdded r b v d l =
        let moved = move_memory json creates written b.writes b.memory b.spool in
        let (first, none_held, all) = move_memory-HasAdded b.writes b.memory b.spool v in
        let (ok, last) = one moved.writes moved.spool r first.valid in
        let added =
          HasAdded-then (held_points b.memory) (r ∷ []) b.spool moved.spool _ first last in
        rw (l, d, all, ok)
          (
            record {
              valid = record {
                ascending = added.valid.ascending;
                measured = added.valid.measured;
                points = added.valid.points;
                appends = added.valid.appends;
                newest = added.valid.newest;
              };
              added = added.added;
              gone = added.gone;
              points = added.points;
              same = added.same;
            },
            none_held,
            refl,
          )
