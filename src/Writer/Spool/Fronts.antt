-- ===== src/Writer/Spool/Fronts.antt =====
-- The segment that the pointer of toinflux/writer.py is in.
use send_to_influx.Prelude.{
  ℕ, zero, suc, ◌+◌, ◌*◌, ◌≤◌, ◌<◌, ◌≡◌, ◌≢◌, refl, ap, Bool, true, false, Option, none, some, List,
  [], ◌∷◌, ◌++◌, All, length, take, drop, inl, inr, ◌⊎◌, ◌==◌, if◌then◌else◌, arith, Text,
}
use send_to_influx.Writer.Lines.{is_whole, lines_of, drop_all}
use send_to_influx.Writer.Entry.{Json, Entry}
use send_to_influx.Writer.Spool.{Segment, Spool, first_or, read_segment, is_segment, chunk_points}
use send_to_influx.Writer.Spool.Unsent.{
  Skipped, items_from, items_of, items_of_all, unsent_from, unsent, read_lines-take,
  read_lines-Skipped,
}
use send_to_influx.Writer.Spool.Valid.{PointsInto, EndsWhole, IsValid, NoneNewer}
use send_to_influx.Writer.Spool.Started.{==_self}

-- How many rounds a read still has at most.
abbrev pub rounds : Option (ℕ × ℕ) → List Segment → ℕ
rounds p [] = 0
rounds none (s ∷ ss) = 0
rounds (some (p, o)) (s ∷ ss) = (if p == s.number then 0 else 1) + 2 * suc (length ss)

pub take_nil : (n : ℕ) (xs : List Entry) → take (suc n) xs ≡ [] → xs ≡ []
take_nil n [] h = refl
take_nil n (x ∷ xs) h = cc

pub take_bound : (n : ℕ) (xs : List Entry) → length (take n xs) ≤ n
take_bound zero xs = omega arith
take_bound (suc n) [] = omega arith
take_bound (suc n) (x ∷ xs) = let ih = take_bound n xs in omega (arith, ih)

pub split_entries :
    (es : List Entry) → (es ≡ []) ⊎ ((f : Entry) × (fs : List Entry) × (es ≡ f ∷ fs))
split_entries [] = inl refl
split_entries (f ∷ fs) = inr (f, fs, refl)

pub cons_nil : (f : Entry) (fs : List Entry) → f ∷ fs ≢ []
cons_nil f fs e = cc

module _ (json : Json) where
  -- Entries that stand at the front of the segment that the pointer is in.
  pub record Front (s : Spool) (chunk : List Entry) : Type 0 where
    pub segment : Segment
    pub others : List Segment
    pub offset : ℕ
    pub more : List Entry
    pub segments_are : s.segments ≡ segment ∷ others
    pub pointer_is : s.pointer ≡ some (segment.number, offset)
    pub items_are : items_from json segment.number offset segment.file ≡ chunk ++ more

  -- What a read has of a spool: its first entries, none only where there is none.
  pub record HasRead (s : Spool) (after : Spool) (chunk : List Entry) : Type 0 where
    pub valid : IsValid after
    pub same : unsent json after ≡ unsent json s
    pub rest : List Entry
    pub first : unsent json s ≡ chunk ++ rest
    pub bounded : length chunk ≤ chunk_points
    pub drained : chunk ≡ [] → unsent json s ≡ []
    pub front : chunk ≢ [] → Front after chunk

  pub read_segment-Skipped :
      (n o : ℕ) (file : Text)
      → o ≤ length file
      → let (chunk, moved) = read_segment json n o file in
        (chunk ≡ take chunk_points (items_from json n o file)) × Skipped json n o file moved
  unfolding read_segment
  read_segment-Skipped n o file h = (
    read_lines-take json chunk_points n o o false (lines_of (drop o file)),
    read_lines-Skipped json 99 n o file (lines_of (drop o file)) refl h,
  )

  pub items_from_past : (n o : ℕ) (file : Text) → length file ≤ o → items_from json n o file ≡ []
  unfolding items_of lines_of
  items_from_past n o file h = ap (λ t. items_of json n o (lines_of t)) (drop_all o file h)

  -- The tail of a whole file list that is not appended to in its first segment.
  module _ (append : Option ℕ) (opened disk locked : Bool) (stale limit : ℕ) where
    abbrev pub spool : Option (ℕ × ℕ) → List Segment → Spool
    spool p ss = record {
      segments = ss;
      append_segment = append;
      is_open = opened;
      pointer = p;
      stale_segment = stale;
      limit_bytes = limit;
      disk = disk;
      locked = locked;
    }

    EndsWhole-next :
        (n : ℕ) (s : Segment) (ss : List Segment)
        → (s.number == n) ≡ false
        → EndsWhole n (s ∷ ss)
        → EndsWhole n ss
    EndsWhole-next n s ss other w = from w.before w.last w.split w.numbered w.whole
      where
        from :
            (before : List Segment) (last : Segment)
            → (s ∷ ss) ≡ before ++ last ∷ []
            → last.number ≡ n
            → is_whole last.file ≡ true
            → EndsWhole n ss
        from [] last e numbered whole =
            let same : s ≡ last = ground (arith, e) in
            absurd (ground (arith, ap (λ (t : Segment). t.number) same, numbered, other))
        from (b ∷ before) last e numbered whole = record {
          before = before;
          last = last;
          split = (ground (arith, e));
          numbered = numbered;
          whole = whole;
        }

    NoneNewer-next :
        (a : Option ℕ) (s : Segment) (ss : List Segment) → NoneNewer a (s ∷ ss) → NoneNewer a ss
    NoneNewer-next none s ss h = tt
    NoneNewer-next (some n) s ss h = h.1

    pub points_first : (p o : ℕ) (ss : List Segment) → PointsInto (some (first_or (p, o) ss)) ss
    points_first p o [] = tt
    points_first p o (s ∷ ss) = (omega arith, λ _. omega arith)

    pub unsent_first :
        (p o : ℕ) (ss : List Segment)
        → unsent_from json (some (first_or (p, o) ss)) ss ≡ items_of_all json ss
    unsent_first p o [] = refl
    unsent_first p o (s ∷ ss) = rw (==_self s.number) refl

    pub retired-IsValid :
        (s : Segment) (o : ℕ) (ss : List Segment)
        → IsValid (spool (some (s.number, o)) (s ∷ ss))
        → is_segment append s.number ≡ false
        → IsValid (spool (some (first_or (s.number + 1, 0) ss)) ss)
    retired-IsValid s o ss v other = record {
      ascending = v.ascending.1;
      measured = v.measured.1;
      points = points_first (s.number + 1) 0 ss;
      appends = (λ (h : opened ≡ true).
          let (n, e, w) = v.appends h in
          let apart : (s.number == n) ≡ false =
            ground (arith, ap (λ a. is_segment a s.number) e, other) in
          (n, e, EndsWhole-next n s ss apart w));
      newest = NoneNewer-next append s ss v.newest;
    }

    pub rounds_first :
        (p o : ℕ) (ss : List Segment) → rounds (some (first_or (p, o) ss)) ss ≤ 2 * length ss
    rounds_first p o [] = omega arith
    rounds_first p o (s ∷ ss) = rw (==_self s.number) (omega arith)

    pub nothing_after :
        (a : Option ℕ) (s : Segment) (ss : List Segment)
        → is_segment a s.number ≡ true
        → NoneNewer a (s ∷ ss)
        → All (λ t. s.number < t.number) ss
        → ss ≡ []
    nothing_after none s ss e h k = cc
    nothing_after (some n) s [] e h k = refl
    nothing_after (some n) s (t ∷ ss) e h k = absurd (ground (arith, e, h.1.0, k.0))

    pub moved-IsValid :
        (s : Segment) (o q : ℕ) (ss : List Segment)
        → IsValid (spool (some (s.number, o)) (s ∷ ss))
        → q ≤ length s.file
        → IsValid (spool (some (s.number, q)) (s ∷ ss))
    moved-IsValid s o q ss v inside = record {
      ascending = v.ascending;
      measured = v.measured;
      points = (omega arith, λ _. inside);
      appends = v.appends;
      newest = v.newest;
    }
