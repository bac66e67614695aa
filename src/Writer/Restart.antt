-- ===== src/Writer/Restart.antt =====
-- Opening the spool that a previous run of toinflux/writer.py left.
use send_to_influx.Prelude.{
  ℕ, zero, suc, ◌≤◌, ◌<◌, ◌≡◌, refl, sym, ap, ◌∙◌, subst, Bool, true, false, Option, none, some,
  List, [], ◌∷◌, ◌++◌, All, length, Bool-cases, inl, inr, ◌==◌, leb, if◌then◌else◌, arith, Text,
}
use send_to_influx.Writer.Lines.{lines_of}
use send_to_influx.Writer.Entry.{Json, Entry}
use send_to_influx.Writer.Spool.{
  Segment, Spool, has_segment, size_of, first_or, start_segment, abandon_spool,
}
use send_to_influx.Writer.Spool.Unsent.{
  items_from, items_of, items_of_all, unsent_at, unsent_from, unsent,
}
use send_to_influx.Writer.Spool.Valid.{
  Ascending, Measured, PointsInto, IsValid, NoneNewer, has_segment-below, All-below,
}
use send_to_influx.Writer.Spool.Started.{==_self}
use send_to_influx.Writer.Spool.Ready.{start_segment-IsReady, none_newer}

-- What the file of the pointer holds: nothing that can be read, or two integers, none for one that is
-- negative.
pub data StoredPointer : Type 0 where
  absent : StoredPointer
  unreadable : StoredPointer
  stored : Option ℕ → Option ℕ → StoredPointer

-- The files with their numbers, in order, as segments; the empty ones are removed.
unfoldable pub load_segments : List (ℕ × Text) → List Segment
load_segments [] = []
load_segments ((n, file) ∷ files) =
    let rest = load_segments files in
    if length file == 0 then rest else record { number = n; size = length file; file = file } ∷ rest

-- `_read_pointer`
unfoldable pub read_pointer : List Segment → StoredPointer → (ℕ × ℕ) × ℕ
unfolding has_segment size_of
read_pointer ss absent = (first_or (0, 0) ss, 0)
read_pointer ss unreadable = (first_or (0, 0) ss, 0)
read_pointer ss (stored none offset) = (first_or (0, 0) ss, 0)
read_pointer ss (stored (some n) none) =
    if has_segment n ss then ((n, 0), n) else (first_or (0, 0) ss, n)
read_pointer ss (stored (some n) (some offset)) =
    if has_segment n ss
    then ((if leb offset (size_of n ss) then (n, offset) else (n, 0)), n)
    else (first_or (0, 0) ss, n)

-- `_load_spool`; `creates` is whether the new segment can be created.
unfoldable pub load_spool : Bool → ℕ → List (ℕ × Text) → StoredPointer → Spool × Bool
unfolding load_segments read_pointer start_segment
load_spool creates limit files pointer =
    let ss = load_segments files in
    let (p, stale) = read_pointer ss pointer in
    let (s, ok) = start_segment creates (record {
      segments = ss;
      append_segment = none;
      is_open = false;
      pointer = some p;
      stale_segment = stale;
      limit_bytes = limit;
      disk = false;
      locked = true;
    }) in
    (record s { disk = ok }, ok)

-- `_open_spool`, with the lock taken and the files listed.
unfoldable pub open_spool : Bool → ℕ → List (ℕ × Text) → StoredPointer → Spool
unfolding load_spool abandon_spool
open_spool creates limit files pointer =
    let (s, ok) = load_spool creates limit files pointer in if ok then s else abandon_spool s

-- The files of segments.
abbrev pub files_of : List Segment → List (ℕ × Text)
files_of [] = []
files_of (s ∷ ss) = (s.number, s.file) ∷ files_of ss

load_segments-above :
    (n : ℕ) (ss : List Segment)
    → All (λ t. n < t.number) ss
    → All (λ t. n < t.number) (load_segments (files_of ss))
unfolding load_segments
load_segments-above n [] h = tt
load_segments-above n (s ∷ ss) h = elim (Bool-cases (length s.file == 0)) [
  | inl e ↦ rw e (load_segments-above n ss h.1)
  | inr e ↦ rw e (h.0, load_segments-above n ss h.1)
]

load_segments-Ascending :
    (ss : List Segment) → Ascending ss → Ascending (load_segments (files_of ss))
unfolding load_segments
load_segments-Ascending [] a = tt
load_segments-Ascending (s ∷ ss) a = elim (Bool-cases (length s.file == 0)) [
  | inl e ↦ rw e (load_segments-Ascending ss a.1)
  | inr e ↦ rw e (load_segments-above s.number ss a.0, load_segments-Ascending ss a.1)
]

load_segments-Measured : (ss : List Segment) → Measured (load_segments (files_of ss))
unfolding load_segments
load_segments-Measured [] = tt
load_segments-Measured (s ∷ ss) = elim (Bool-cases (length s.file == 0)) [
  | inl e ↦ rw e (load_segments-Measured ss)
  | inr e ↦ rw e (refl, load_segments-Measured ss)
]

no_bytes : (file : Text) → (length file == 0) ≡ true → file ≡ []
no_bytes [] h = refl
no_bytes (c ∷ cs) h = absurd (ground (arith, h))

module _ (json : Json) where
  items_of_nothing : (n o : ℕ) → items_from json n o [] ≡ []
  unfolding items_of lines_of
  items_of_nothing n zero = refl
  items_of_nothing n (suc o) = refl

  items_of-load_segments :
      (ss : List Segment) → items_of_all json (load_segments (files_of ss)) ≡ items_of_all json ss
  unfolding load_segments
  items_of-load_segments [] = refl
  items_of-load_segments (s ∷ ss) = elim (Bool-cases (length s.file == 0)) [
    | inl e ↦
        let nothing =
          ap (items_from json s.number 0) (no_bytes s.file e) ∙ items_of_nothing s.number 0 in
        rw e (items_of-load_segments ss ∙ sym (ap (λ es. es ++ items_of_all json ss) nothing))
    | inr e ↦ rw e (ap (λ es. items_from json s.number 0 s.file ++ es) (items_of-load_segments ss))
  ]

  unsent_oldest :
      (ss : List Segment)
      → PointsInto (some (first_or (0, 0) ss)) ss
        × (unsent_from json (some (first_or (0, 0) ss)) ss ≡ items_of_all json ss)
  unsent_oldest [] = (tt, refl)
  unsent_oldest (s ∷ ss) = ((omega arith, λ _. omega arith), rw (==_self s.number) refl)

  -- A stored pointer below all segments.
  pointer_below :
      (n o : ℕ) (ss : List Segment)
      → All (λ t. n < t.number) ss
      → (read_pointer ss (stored (some n) (some o))).0 ≡ first_or (0, 0) ss
  unfolding read_pointer
  pointer_below n o ss h = rw (has_segment-below n ss h) refl

  pointer_first :
      (o : ℕ) (s : Segment) (ss : List Segment)
      → o ≤ s.size
      → (read_pointer (s ∷ ss) (stored (some s.number) (some o))).0 ≡ (s.number, o)
  unfolding read_pointer has_segment size_of
  pointer_first o s ss h =
      let inside : leb o s.size ≡ true = ground (arith, h) in rw (==_self s.number, inside) refl

  LeadsTo : List Entry → List Segment → ℕ × ℕ → Type 0
  LeadsTo items ss p = PointsInto (some p) ss × (unsent_from json (some p) ss ≡ items)

  LeadsTo-oldest :
      (n o : ℕ) (ss : List Segment) (items : List Entry)
      → All (λ t. n < t.number) ss
      → items_of_all json ss ≡ items
      → LeadsTo items ss (read_pointer ss (stored (some n) (some o))).0
  unfolding LeadsTo
  LeadsTo-oldest n o ss items h e =
      let (points, same) = unsent_oldest ss in
      subst (LeadsTo items ss) (sym (pointer_below n o ss h)) (points, same ∙ e)

  -- The stored pointer of a spool leads back to what was unsent.
  read_pointer-Unsent :
      (n o : ℕ) (ss : List Segment)
      → PointsInto (some (n, o)) ss
      → Ascending ss
      → let loaded = load_segments (files_of ss) in
        LeadsTo (unsent_at json n o ss) loaded (read_pointer loaded (stored (some n) (some o))).0
  unfolding load_segments LeadsTo
  read_pointer-Unsent n o [] h a = LeadsTo-oldest n o [] [] tt refl
  read_pointer-Unsent n o (s ∷ ss) h a =
      let kept = load_segments (files_of ss) in
      let same = items_of-load_segments ss in
      let above = load_segments-above s.number ss a.0 in
      let offset = if n == s.number then o else 0 in
      let loaded : Segment = record { number = s.number; size = length s.file; file = s.file } in
      elim (Bool-cases (length s.file == 0)) [
        | inl e ↦
            let nothing =
              ap (items_from json s.number offset) (no_bytes s.file e)
              ∙ items_of_nothing s.number offset in
            rw e (
              LeadsTo-oldest n o kept (unsent_at json n o (s ∷ ss))
                (All-below n s.number kept h.0 above)
                (same ∙ sym (ap (λ es. es ++ items_of_all json ss) nothing)))
        | inr e ↦ elim (Bool-cases (n == s.number)) [
          | inl k ↦
              let first : n ≡ s.number = ground (arith, k) in
              let found =
                ap (λ m. (read_pointer (loaded ∷ kept) (stored (some m) (some o))).0) first
                ∙ pointer_first o loaded kept (h.1 first) in
              rw e (
                subst (LeadsTo (unsent_at json n o (s ∷ ss)) (loaded ∷ kept)) (sym found) (
                  (omega arith, λ _. h.1 first),
                  rw (==_self s.number, k)
                      (ap (λ es. items_from json s.number o s.file ++ es) same),
                ))
          | inr k ↦
              let below : n < s.number = ground (arith, h.0, k) in
              rw e (
                LeadsTo-oldest n o (loaded ∷ kept) (unsent_at json n o (s ∷ ss))
                  (below, All-below n s.number kept h.0 above)
                  (rw k (ap (λ es. items_from json s.number 0 s.file ++ es) same)))
        ]
      ]

  -- A valid spool that is opened again, with the pointer that was stored and where a new segment can be
  -- created, has the same points to send, in a spool that is valid again.
  pub open_spool-Unsent :
      (limit n o : ℕ) (s : Spool)
      → IsValid s
      → s.pointer ≡ some (n, o)
      → let opened = open_spool true limit (files_of s.segments) (stored (some n) (some o)) in
        IsValid opened
        × (opened.disk ≡ true)
        × (opened.is_open ≡ true)
        × (unsent json opened ≡ unsent json s)
  unfolding open_spool load_spool LeadsTo
  open_spool-Unsent limit n o s v e =
      let files = files_of s.segments in
      let ss = load_segments files in
      let found = read_pointer ss (stored (some n) (some o)) in
      let (points, same) =
        read_pointer-Unsent n o s.segments (subst (λ p. PointsInto p s.segments) e v.points)
          v.ascending in
      let before : Spool = record {
        segments = ss;
        append_segment = none;
        is_open = false;
        pointer = some found.0;
        stale_segment = found.1;
        limit_bytes = limit;
        disk = false;
        locked = true;
      } in
      let (ready, unsent_same, ok, _, _) =
        start_segment-IsReady json before (load_segments-Ascending s.segments v.ascending)
          (load_segments-Measured s.segments) points in
      let after = (start_segment true before).0 in
      (
        record {
          ascending = ready.ascending;
          measured = ready.measured;
          points = ready.points;
          appends = λ _. (ready.number, ready.appends, ready.ends_whole);
          newest =
              subst (λ a. NoneNewer a after.segments) (sym ready.appends)
                (none_newer json ready.number after.segments ready.ascending ready.ends_whole);
        },
        refl,
        refl,
        unsent_same ∙ same ∙ ap (λ p. unsent_from json p s.segments) (sym e),
      )
