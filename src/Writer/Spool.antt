-- ===== src/Writer/Spool.antt =====
-- The spool of `InfluxWriter` in toinflux/writer.py: the segments on disk, where sending has got to,
-- appending, reading, and passing what was dealt with.
pub mod Unsent
pub mod Valid
pub mod Started
pub mod Appended
pub mod Ready
pub mod Write
pub mod Broken
pub mod Fronts
pub mod Rounds
pub mod Read
pub mod Consume
use send_to_influx.Prelude.{
  ℕ, zero, suc, ◌+◌, max, Bool, true, false, not, ◌&&◌, ◌||◌, Option, none, some, List, [], ◌∷◌,
  ◌++◌, length, take, drop, ltb, leb, ◌==◌, if◌then◌else◌, Text,
}
use send_to_influx.Writer.Lines.{lines_of}
use send_to_influx.Writer.Entry.{Record, Json, Entry, encoded, decode}

abbrev pub segment_bytes : ℕ
segment_bytes = 131_072

abbrev pub chunk_points : ℕ
chunk_points = 100

-- A segment: its number in `_segments`, its entry in `_sizes`, and its file.
pub record Segment : Type 0 where
  pub number : ℕ
  pub size : ℕ
  pub file : Text

-- `is_open` is whether there is an `_append_file`; `locked` is whether there is a `_lock_file`.
pub record Spool : Type 0 where
  pub segments : List Segment
  pub append_segment : Option ℕ
  pub is_open : Bool
  pub pointer : Option (ℕ × ℕ)
  pub stale_segment : ℕ
  pub limit_bytes : ℕ
  pub disk : Bool
  pub locked : Bool

-- `segment in self._sizes`
unfoldable pub has_segment : ℕ → List Segment → Bool
has_segment n [] = false
has_segment n (s ∷ ss) = s.number == n || has_segment n ss

-- `self._sizes[segment]`, 0 where it is not there.
unfoldable pub size_of : ℕ → List Segment → ℕ
size_of n [] = 0
size_of n (s ∷ ss) = if s.number == n then s.size else size_of n ss

unfoldable pub file_of : ℕ → List Segment → Text
file_of n [] = []
file_of n (s ∷ ss) = if s.number == n then s.file else file_of n ss

unfoldable pub without : ℕ → List Segment → List Segment
without n [] = []
without n (s ∷ ss) = let rest = without n ss in if s.number == n then rest else s ∷ rest

-- The bytes of a segment's file and its recorded size, changed.
unfoldable pub with_bytes : ℕ → Text → ℕ → List Segment → List Segment
with_bytes n bytes size [] = []
with_bytes n bytes size (s ∷ ss) =
    let rest = with_bytes n bytes size ss in
    if s.number == n
    then record { number = s.number; size = size; file = s.file ++ bytes } ∷ ss
    else s ∷ rest

unfoldable pub highest : List Segment → ℕ
highest [] = 0
highest (s ∷ ss) = max s.number (highest ss)

unfoldable pub all_sizes : List Segment → ℕ
all_sizes [] = 0
all_sizes (s ∷ ss) = s.size + all_sizes ss

abbrev pub pointer_segment : Option (ℕ × ℕ) → ℕ
pointer_segment none = 0
pointer_segment (some (n, o)) = n

-- (self._segments[0], 0), or another pointer where there is no segment.
abbrev pub first_or : ℕ × ℕ → List Segment → ℕ × ℕ
first_or p [] = p
first_or p (s ∷ ss) = (s.number, 0)

abbrev pub kept_pointer : Option (ℕ × ℕ) → List Segment → ℕ × ℕ
kept_pointer none ss = first_or (0, 0) ss
kept_pointer (some (n, o)) ss = if has_segment n ss then (n, o) else first_or (0, 0) ss

-- `_start_segment`; `creates` is whether the file can be created. The second part is whether it did
-- not raise.
unfoldable pub start_segment : Bool → Spool → Spool × Bool
start_segment creates s =
    let n = 1 + max (highest s.segments) (max (pointer_segment s.pointer) s.stale_segment) in
    let segments = s.segments ++ record { number = n; size = 0; file = [] } ∷ [] in
    if creates
    then (
      record s {
        segments = segments;
        append_segment = some n;
        is_open = true;
        pointer = some (kept_pointer s.pointer segments);
      },
      true,
    )
    else (record s { is_open = false }, false)

-- How a write to the append file ends: in full and synced, or by an OSError, after which so many of
-- its bytes are in the file once it has been cut back (0 where the cut succeeds), and `getsize` gives
-- the size or raises too.
pub data Written : Type 0 where
  synced : Written
  broken : ℕ → Bool → Written

-- The loop of `_enforce_limit`. The file of a segment that is dropped is removed; where that raises
-- it is left behind for the next start.
unfoldable pub trimmed : ℕ → Option (ℕ × ℕ) → List Segment → Option (ℕ × ℕ) × List Segment
trimmed limit p [] = (p, [])
trimmed limit p (s ∷ []) = (p, s ∷ [])
trimmed limit p (s ∷ t ∷ ss) =
    let moved = if pointer_segment p == s.number then some (t.number, 0) else p in
    let rest = trimmed limit moved (t ∷ ss) in
    if ltb limit (all_sizes (s ∷ t ∷ ss)) then rest else (p, s ∷ t ∷ ss)

unfoldable pub enforce_limit : Spool → Spool
unfolding trimmed
enforce_limit s =
    let (p, segments) = trimmed s.limit_bytes s.pointer s.segments in
    record s { pointer = p; segments = segments }

-- `_abandon_segment`
unfoldable pub abandon_segment : ℕ → Text → ℕ → Bool → Spool → Spool
abandon_segment n bytes left measured s =
    let size = size_of n s.segments in
    let stays = take left bytes in
    record s {
      segments = with_bytes n stays (if measured then size + length stays else size) s.segments;
      is_open = false;
    }

abbrev pub is_segment : Option ℕ → ℕ → Bool
is_segment none n = false
is_segment (some m) n = m == n

-- `segment == self._append_segment`
abbrev pub is_append : Spool → ℕ → Bool
is_append s n = is_segment s.append_segment n

abbrev pub segment_of : Option ℕ → ℕ
segment_of none = 0
segment_of (some n) = n

abbrev pub append_number : Spool → ℕ
append_number s = segment_of s.append_segment

-- The write of `_write_entry`, to an append file that is open.
unfoldable pub write_line : Written → Text → Spool → Spool × Bool
unfolding enforce_limit abandon_segment
write_line synced bytes s =
    let n = append_number s in
    (
      enforce_limit (record s {
        segments = with_bytes n bytes (size_of n s.segments + length bytes) s.segments;
      }),
      true,
    )
write_line (broken left measured) bytes s =
    (abandon_segment (append_number s) bytes left measured s, false)

-- `_write_entry`
unfoldable pub write_entry : Json → Bool → Written → Record → Spool → Spool × Bool
unfolding start_segment write_line
write_entry json creates written r s =
    if not s.is_open || leb segment_bytes (size_of (append_number s) s.segments)
    then (let (started, created) = start_segment creates s in
        if created then write_line written (encoded json r) started else (started, false))
    else write_line written (encoded json r) s

-- The loop of `_read_segment`, over the lines from its position on: the entries, and the offset of
-- the pointer.
unfoldable pub read_lines : Json → ℕ → List Text → ℕ → ℕ → Bool → ℕ → List Entry × ℕ
read_lines json room [] n position started pointer = ([], pointer)
read_lines json zero (raw ∷ rest) n position started pointer = ([], pointer)
read_lines json (suc room) (raw ∷ rest) n position started pointer =
    let after = position + length raw in
    elim (decode json raw) [
      | none ↦ read_lines json (suc room) rest n after started (if started then pointer else after)
      | some r ↦
          let (entries, p) = read_lines json room rest n after true pointer in
          (record { point = r; live = false; end = some (n, after); id = after } ∷ entries, p)
    ]

-- `_read_segment` of a file that can be read.
unfoldable pub read_segment : Json → ℕ → ℕ → Text → List Entry × ℕ
unfolding read_lines
read_segment json n offset file =
    read_lines json chunk_points (lines_of (drop offset file)) n offset false offset

-- `_retire`
unfoldable pub retire : ℕ → Spool → Spool
retire n s =
    let segments = without n s.segments in
    record s { segments = segments; pointer = some (first_or (n + 1, 0) segments) }

-- `_abandon_spool`, with the lock let go of.
unfoldable pub abandon_spool : Spool → Spool
abandon_spool s = record s {
  segments = [];
  append_segment = none;
  is_open = false;
  pointer = none;
  locked = false;
}

-- `_set_aside`
unfoldable pub set_aside : Bool → ℕ → Spool → Spool
unfolding retire start_segment abandon_spool
set_aside creates n s =
    let aside = retire n s in
    let (started, created) = start_segment creates (record aside { is_open = false }) in
    let restarted = if created then started else record (abandon_spool started) { disk = false } in
    if is_append s n then restarted else aside

-- The segments with a higher number.
unfoldable pub later_than : ℕ → List Segment → List Segment
later_than n [] = []
later_than n (s ∷ ss) = let rest = later_than n ss in if ltb n s.number then s ∷ rest else rest

-- What one round of the loop of `_read_spool` comes to.
pub data Round : Type 0 where
  found : Spool → List Entry → Round
  again : Spool → Round

-- `readable` is whether a segment's file can be read, `creates` whether a new one can be created.
unfoldable pub read_round : Json → (ℕ → Bool) → Bool → Spool → Round
unfolding later_than read_segment retire set_aside
read_round json readable creates s = elim s.pointer [
  | none ↦ found s []
  | some (n, offset) ↦
      let (chunk, moved) = read_segment json n offset (file_of n s.segments) in
      let past = if is_append s n then found s [] else again (retire n s) in
      let past_moved =
        if is_append s n
        then found (record s { pointer = some (n, moved) }) []
        else again (retire n s) in
      if not (has_segment n s.segments)
      then elim (later_than n s.segments) [
        | [] ↦ found s []
        | l ∷ ls ↦ again (record s { pointer = some (l.number, 0) })
      ]
      else if ltb offset (size_of n s.segments)
      then if readable n
        then elim chunk [
          | [] ↦ past_moved
          | e ∷ es ↦ found (record s { pointer = some (n, moved) }) (e ∷ es)
        ]
        else again (set_aside creates n s)
      else past
]

unfoldable pub read_spool : ℕ → Json → (ℕ → Bool) → Bool → Spool → Option (Spool × List Entry)
read_spool zero json readable creates s = none
read_spool (suc fuel) json readable creates s = elim (read_round json readable creates s) [
  | found s' chunk ↦ some (s', chunk)
  | again s' ↦ read_spool fuel json readable creates s'
]

-- `_consume` of entries of the spool, by the end of the last: the spool, and whether it moved on.
unfoldable pub consume_to : ℕ → ℕ → Spool → Spool
unfolding retire
consume_to n offset s =
    let moved = record s { pointer = some (n, offset) } in
    let is_past = leb (size_of n s.segments) offset && not (is_append s n) in
    if not (has_segment n s.segments) then s else if is_past then retire n moved else moved

-- `self._pointer == before`
abbrev pub same_place : Option (ℕ × ℕ) → Option (ℕ × ℕ) → Bool
same_place none none = true
same_place (some (m, o)) (some (n, p)) = m == n && o == p
same_place none (some q) = false
same_place (some q) none = false
