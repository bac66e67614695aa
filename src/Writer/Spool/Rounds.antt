-- ===== src/Writer/Spool/Rounds.antt =====
-- One round of `_read_spool` of toinflux/writer.py.
use send_to_influx.Prelude.{
  ℕ, ◌+◌, ◌≤◌, ◌<◌, ◌≡◌, ◌≢◌, refl, sym, ap, ◌∙◌, subst, Bool, true, false, Option, none, some,
  List, [], ◌∷◌, ◌++◌, append_assoc, length, take, drop, take-append-drop, Bool-cases, inl, inr,
  ◌==◌, ltb, if◌then◌else◌, arith,
}
use send_to_influx.Writer.Entry.{Json, Entry}
use send_to_influx.Writer.Spool.{
  Segment, Spool, Round, found, again, has_segment, size_of, file_of, without, later_than, retire,
  read_segment, read_round, is_segment, chunk_points,
}
use send_to_influx.Writer.Spool.Unsent.{items_from, items_of_all, unsent}
use send_to_influx.Writer.Spool.Valid.{IsValid, has_segment-below, without-below, All-below}
use send_to_influx.Writer.Spool.Started.{==_self}
use send_to_influx.Writer.Spool.Fronts.{
  rounds, take_nil, take_bound, split_entries, cons_nil, HasRead, read_segment-Skipped,
  items_from_past, spool, unsent_first, retired-IsValid, rounds_first, nothing_after, moved-IsValid,
}

module _ (json : Json) where
  abbrev pub RoundOf : Spool → Round → Type 0
  RoundOf s (found after chunk) = HasRead json s after chunk
  RoundOf s (again after) =
      IsValid after
      × (unsent json after ≡ unsent json s)
      × (rounds after.pointer after.segments < rounds s.pointer s.segments)

  module _ (append : Option ℕ) (opened disk locked : Bool) (stale limit : ℕ) where
    abbrev at : Option (ℕ × ℕ) → List Segment → Spool
    at p ss = spool json append opened disk locked stale limit p ss

    -- A segment that has nothing left is passed, unless it is the one appended to.
    round_past :
        (s : Segment) (o q : ℕ) (ss : List Segment)
        → IsValid (at (some (s.number, o)) (s ∷ ss))
        → items_from json s.number o s.file ≡ []
        → q ≤ length s.file
        → items_from json s.number q s.file ≡ []
        → RoundOf (at (some (s.number, o)) (s ∷ ss)) (
            if is_segment append s.number
            then found (at (some (s.number, q)) (s ∷ ss)) []
            else again (retire s.number (at (some (s.number, o)) (s ∷ ss))))
    unfolding retire without
    round_past s o q ss v none_left inside none_there =
        elim (Bool-cases (is_segment append s.number)) [
          | inl e ↦
              let alone =
                nothing_after json append opened disk locked stale limit append s ss e v.newest
                  v.ascending.0 in
              let empty : unsent json (at (some (s.number, o)) (s ∷ ss)) ≡ [] =
                rw (==_self s.number, alone, none_left) refl in
              let same : unsent json (at (some (s.number, q)) (s ∷ ss)) ≡ [] =
                rw (==_self s.number, alone, none_there) refl in
              rw e (record {
                valid = moved-IsValid json append opened disk locked stale limit s o q ss v inside;
                same = same ∙ sym empty;
                rest = [];
                first = empty;
                bounded = omega arith;
                drained = λ _. empty;
                front = λ (k : [] ≢ []). absurd (k refl);
              })
          | inr e ↦
              let fewer =
                rounds_first json append opened disk locked stale limit (s.number + 1) 0 ss in
              rw (e, ==_self s.number, without-below s.number ss v.ascending.0)
                (
                  retired-IsValid json append opened disk locked stale limit s o ss v e,
                  unsent_first json append opened disk locked stale limit (s.number + 1) 0 ss
                      ∙ rw none_left refl,
                  omega (arith, fewer),
                )
        ]

    -- A segment that has entries left is read from.
    round_found :
        (s : Segment) (o : ℕ) (ss : List Segment) (f : Entry) (fs : List Entry)
        → IsValid (at (some (s.number, o)) (s ∷ ss))
        → let (chunk, moved) = read_segment json s.number o s.file in
          chunk ≡ f ∷ fs
          → HasRead json
              (at (some (s.number, o)) (s ∷ ss))
              (at (some (s.number, moved)) (s ∷ ss))
              (f ∷ fs)
    round_found s o ss f fs v e =
        let inside = v.points.1 refl in
        let (taken, skipped) = read_segment-Skipped json s.number o s.file inside in
        let items = items_from json s.number o s.file in
        let later = items_of_all json ss in
        let chunk : f ∷ fs ≡ take chunk_points items = sym e ∙ taken in
        record {
          valid =
              moved-IsValid json append opened disk locked stale limit s o _ ss v skipped.inside;
          same = rw (==_self s.number) (ap (λ es. es ++ later) skipped.same_items);
          rest = drop chunk_points items ++ later;
          first = rw (==_self s.number) (
              ap (λ es. es ++ later) (sym (take-append-drop chunk_points items))
              ∙ append_assoc (take chunk_points items) (drop chunk_points items) later
              ∙ ap (λ es. es ++ (drop chunk_points items ++ later)) (sym chunk));
          bounded =
              subst (λ (es : List Entry). length es ≤ chunk_points) (sym chunk)
                (take_bound chunk_points items);
          drained = λ k. absurd (cons_nil f fs k);
          front = λ _. record {
            segment = s;
            others = ss;
            offset = _;
            more = drop chunk_points items;
            segments_are = refl;
            pointer_is = refl;
            items_are =
                skipped.same_items
                ∙ sym (take-append-drop chunk_points items)
                ∙ ap (λ es. es ++ drop chunk_points items) (sym chunk);
          };
        }

    round_here :
        (readable : ℕ → Bool) (creates : Bool) (s : Segment) (o : ℕ) (ss : List Segment)
        → readable s.number ≡ true
        → IsValid (at (some (s.number, o)) (s ∷ ss))
        → RoundOf
            (at (some (s.number, o)) (s ∷ ss))
            (read_round json readable creates (at (some (s.number, o)) (s ∷ ss)))
    unfolding read_round has_segment size_of file_of
    round_here readable creates s o ss reads v =
        let inside = v.points.1 refl in
        let (taken, skipped) = read_segment-Skipped json s.number o s.file inside in
        rw (==_self s.number) (elim (Bool-cases (ltb o s.size)) [
          | inr e ↦
              let past : length s.file ≤ o = ground (arith, e, v.measured.0) in
              let none_left = items_from_past json s.number o s.file past in
              rw e (round_past s o o ss v none_left inside none_left)
          | inl e ↦
              rw (e, reads)
                (elim (split_entries (read_segment json s.number o s.file).0) [
                  | inl k ↦
                      let none_left =
                        take_nil 99 (items_from json s.number o s.file) (sym taken ∙ k) in
                      rw (k, ==_self s.number)
                        (round_past s o (read_segment json s.number o s.file).1 ss v none_left
                          skipped.inside (skipped.same_items ∙ none_left))
                  | inr (f, fs, k) ↦ rw (k, ==_self s.number) (round_found s o ss f fs v k)
                ])
        ])

    -- What one round of a read comes to, where the files can be read.
    pub round-Read :
        (readable : ℕ → Bool) (creates : Bool) (p : Option (ℕ × ℕ)) (ss : List Segment)
        → ((n : ℕ) → readable n ≡ true)
        → IsValid (at p ss)
        → RoundOf (at p ss) (read_round json readable creates (at p ss))
    unfolding read_round has_segment later_than
    round-Read readable creates none ss reads v = record {
      valid = v;
      same = refl;
      rest = [];
      first = refl;
      bounded = omega arith;
      drained = λ _. refl;
      front = λ k. absurd (k refl);
    }
    round-Read readable creates (some (n, o)) [] reads v = record {
      valid = v;
      same = refl;
      rest = [];
      first = refl;
      bounded = omega arith;
      drained = λ _. refl;
      front = λ k. absurd (k refl);
    }
    round-Read readable creates (some (n, o)) (s ∷ ss) reads v = elim (Bool-cases (n == s.number)) [
      | inl e ↦
          let same : n ≡ s.number = ground (arith, e) in
          subst
            (λ k.
              RoundOf (at (some (k, o)) (s ∷ ss))
                (read_round json readable creates (at (some (k, o)) (s ∷ ss))))
            (sym same)
            (round_here readable creates s o ss (reads s.number)
              (subst (λ k. IsValid (at (some (k, o)) (s ∷ ss))) same v))
      | inr e ↦
          let below : n < s.number = ground (arith, e, v.points.0) in
          let later : ltb n s.number ≡ true = ground (arith, below) in
          let apart : (s.number == n) ≡ false = ground (arith, below) in
          rw
            (
              apart,
              has_segment-below n ss (All-below n s.number ss (omega (arith, below)) v.ascending.0),
              later,
            )
            (
              record {
                ascending = v.ascending;
                measured = v.measured;
                points = (omega arith, λ _. omega arith);
                appends = v.appends;
                newest = v.newest;
              },
              rw (==_self s.number, e) refl,
              rw (e, ==_self s.number) (omega arith),
            )
    ]
