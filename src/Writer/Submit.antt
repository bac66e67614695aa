-- ===== src/Writer/Submit.antt =====
-- `submit`, `_append` and `_move_memory_to_spool` of toinflux/writer.py.
use send_to_influx.Prelude.{
  ℕ, ◌+◌, Bool, true, false, not, ◌&&◌, ◌||◌, Option, none, some, List, [], ◌∷◌, ◌++◌,
  if◌then◌else◌, Text, text_eq,
}
use send_to_influx.Writer.Entry.{Record, Json, Entry}
use send_to_influx.Writer.Spool.{Spool, Written, write_entry}
use send_to_influx.Writer.Memory.{hold}

-- A worker: its source and its instance.
unfoldable pub same_name : Option Text → Option Text → Bool
same_name none none = true
same_name (some a) (some b) = text_eq a b
same_name none (some b) = false
same_name (some a) none = false

-- A queue of the worker that the entry comes from, in `_memory`.
pub record Queue : Type 0 where
  pub source : Text
  pub instance_name : Option Text
  pub entries : List Entry

-- What a worker submitted last, in `_last_line`.
pub record LastLine : Type 0 where
  pub source : Text
  pub instance_name : Option Text
  pub line : Text

-- `writes` counts the attempts to write to the spool, and `submitted` the points that were taken.
pub record Buffer : Type 0 where
  pub spool : Spool
  pub memory : List Queue
  pub last_line : List LastLine
  pub live : List Entry
  pub writes : ℕ
  pub submitted : ℕ

unfoldable pub hold_in_memory : Entry → List Queue → List Queue
unfolding hold same_name
hold_in_memory e [] =
    record { source = e.point.source; instance_name = e.point.instance_name; entries = e ∷ [] } ∷ []
hold_in_memory e (q ∷ qs) =
    let rest = hold_in_memory e qs in
    if text_eq q.source e.point.source && same_name q.instance_name e.point.instance_name
    then record q { entries = hold q.entries e } ∷ qs
    else q ∷ rest

-- Whether the worker's last line is this one, and the lines with this one put in its place.
unfoldable pub is_last_line : Record → List LastLine → Bool
unfolding same_name
is_last_line r [] = false
is_last_line r (l ∷ ls) =
    if text_eq l.source r.source && same_name l.instance_name r.instance_name
    then text_eq l.line r.line
    else is_last_line r ls

unfoldable pub put_last_line : Record → List LastLine → List LastLine
unfolding same_name
put_last_line r [] =
    record { source = r.source; instance_name = r.instance_name; line = r.line } ∷ []
put_last_line r (l ∷ ls) =
    let rest = put_last_line r ls in
    if text_eq l.source r.source && same_name l.instance_name r.instance_name
    then record l { line = r.line } ∷ ls
    else l ∷ rest

-- What is left of the queues when a move ends, and whether it moved all.
pub record Moved : Type 0 where
  pub spool : Spool
  pub left : List Entry
  pub writes : ℕ
  pub all_moved : Bool

pub record MovedAll : Type 0 where
  pub spool : Spool
  pub memory : List Queue
  pub writes : ℕ
  pub all_moved : Bool

-- Whether each attempt to create a segment succeeds, and how each write ends.
module _ (json : Json) (creates : ℕ → Bool) (written : ℕ → Written) where
  unfoldable pub move_queue : ℕ → List Entry → Spool → Moved
  unfolding write_entry
  move_queue k [] s = record { spool = s; left = []; writes = k; all_moved = true }
  move_queue k (e ∷ es) s =
      let (after, ok) = write_entry json (creates k) (written k) e.point s in
      let rest = move_queue (k + 1) es after in
      if ok
      then rest
      else record { spool = after; left = e ∷ es; writes = k + 1; all_moved = false }

  -- `_move_memory_to_spool`
  unfoldable pub move_memory : ℕ → List Queue → Spool → MovedAll
  unfolding move_queue
  move_memory k [] s = record { spool = s; memory = []; writes = k; all_moved = true }
  move_memory k (q ∷ qs) s =
      let first = move_queue k q.entries s in
      let rest = move_memory first.writes qs first.spool in
      if first.all_moved
      then record rest { memory = record q { entries = first.left } ∷ rest.memory }
      else record {
        spool = first.spool;
        memory = record q { entries = first.left } ∷ qs;
        writes = first.writes;
        all_moved = false;
      }

  -- `_append`
  unfoldable pub append_entry : Entry → Buffer → Buffer
  unfolding move_memory hold_in_memory
  append_entry e b =
      let moved = move_memory b.writes b.memory b.spool in
      let (after, ok) =
        write_entry json (creates moved.writes) (written moved.writes) e.point moved.spool in
      let held = record b {
        spool = record moved.spool { disk = false };
        memory = hold_in_memory e moved.memory;
        writes = moved.writes;
      } in
      let held_after = record b {
        spool = record after { disk = false };
        memory = hold_in_memory e moved.memory;
        writes = moved.writes + 1;
      } in
      let kept = record b {
        spool = record after { disk = true };
        memory = moved.memory;
        writes = moved.writes + 1;
      } in
      if b.spool.disk || b.spool.locked
      then (if moved.all_moved then (if ok then kept else held_after) else held)
      else record b { memory = hold_in_memory e b.memory }

  -- `submit`, up to the waking of the thread.
  unfoldable pub submit : Record → Bool → Buffer → Buffer
  unfolding append_entry is_last_line put_last_line
  submit r buffered b =
      let e : Entry = record { point = r; live = not buffered; end = none; id = b.submitted } in
      let counted = record b { submitted = b.submitted + 1 } in
      let taken = append_entry e (record counted { last_line = put_last_line r b.last_line }) in
      if not buffered
      then record counted { live = b.live ++ e ∷ [] }
      else if is_last_line r b.last_line
      then b
      else taken
