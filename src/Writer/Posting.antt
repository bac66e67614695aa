-- ===== src/Writer/Posting.antt =====
-- Posting a chunk: `is_point_rejection`, `_by_database`, `_send_run`, `_refused` and the chunk's part of
-- `_post_next_chunk` of toinflux/writer.py.
pub mod Groups
pub mod Whole
pub mod Dealt
pub mod Unanswered
use send_to_influx.Prelude.{
  ℕ, ◌+◌, ◌*◌, Bool, true, false, not, ◌&&◌, ◌||◌, Option, none, some, List, [], ◌∷◌, ◌++◌, ltb,
  leb, ◌==◌, if◌then◌else◌, Text, text_eq,
}
use Prim.Native.Nat.{◌^◌, min}
use send_to_influx.Writer.Lines.{newline}
use send_to_influx.Writer.Entry.{Record, Entry}

-- What `_post` returns: True, or the status, where one arrived.
pub data Status : Type 0 where
  accepted : Status
  not_accepted : Option ℕ → Status

unfoldable pub is_point_rejection : Option ℕ → Bool
is_point_rejection none = false
is_point_rejection (some code) = leb 400 code && ltb code 500 && not (code == 408 || code == 429)

-- `entry.source` of the first.
unfoldable pub source_of : List Entry → Text
source_of [] = []
source_of (e ∷ es) = e.point.source

-- `groups.setdefault(entry.source, []).append(entry)`
unfoldable pub add_entry : Entry → List (List Entry) → List (List Entry)
unfolding source_of
add_entry e [] = (e ∷ []) ∷ []
add_entry e (g ∷ gs) =
    let later = add_entry e gs in
    if text_eq (source_of g) e.point.source then (g ++ e ∷ []) ∷ gs else g ∷ later

unfoldable pub add_entries : List (List Entry) → List Entry → List (List Entry)
unfolding add_entry
add_entries groups [] = groups
add_entries groups (e ∷ es) = add_entries (add_entry e groups) es

-- `_by_database`
unfoldable pub by_database : List Entry → List (List Entry)
unfolding add_entries
by_database chunk = add_entries [] chunk

-- The lines, with a newline between each two.
unfoldable pub joined : List Entry → Text
joined [] = []
joined (e ∷ []) = e.point.line
joined (e ∷ f ∷ es) = e.point.line ++ newline ∷ joined (f ∷ es)

abbrev pub retry_first_seconds : ℕ
retry_first_seconds = 5

abbrev pub retry_max_seconds : ℕ
retry_max_seconds = 60

abbrev pub max_point_rejections : ℕ
max_point_rejections = 5

-- `_refused`: what it adds to the points that wait, with the delay of each.
unfoldable pub refused_point : Entry → List (ℕ × Record)
refused_point e =
    let rejections = e.point.rejections + 1 in
    let delay = min (retry_first_seconds * 2 ^ e.point.rejections) retry_max_seconds in
    if e.live || leb max_point_rejections rejections
    then []
    else (delay, record e.point { rejections = rejections }) ∷ []

pub data RunOutcome : Type 0 where
  sent : RunOutcome
  refused : RunOutcome
  failed : RunOutcome

-- A call of `_post`: its number, the source and the entries of the body, and what it returned.
pub record Post : Type 0 where
  pub number : ℕ
  pub source : Text
  pub entries : List Entry
  pub answer : Status

-- `done`, `accepted` and the waiting points are what a call adds to them; `posts` counts the posts,
-- and `made` has those of the call.
pub record Posted : Type 0 where
  pub outcome : RunOutcome
  pub done : List Entry
  pub taken : List Entry
  pub waiting : List (ℕ × Record)
  pub posts : ℕ
  pub made : List Post

-- "refused" once a run was, and "failed" at the end.
abbrev pub joint : RunOutcome → RunOutcome → RunOutcome
joint o failed = failed
joint refused o = refused
joint o p = p

abbrev pub is_failed : RunOutcome → Bool
is_failed failed = true
is_failed o = false

-- `chunk[0].live`
abbrev pub is_live : List Entry → Bool
is_live [] = false
is_live (e ∷ es) = e.live

-- `takewhile` of the entries that were handled.
unfoldable pub is_handled : List Entry → Entry → Bool
is_handled [] e = false
is_handled (d ∷ done) e = d.id == e.id || is_handled done e

unfoldable pub handled_start : List Entry → List Entry → List Entry
unfolding is_handled
handled_start done [] = []
handled_start done (e ∷ es) =
    let rest = handled_start done es in if is_handled done e then e ∷ rest else []

-- `_destinations` has the source; and what the server does with each post, by its number, its source
-- and its body.
module _ (configured : Text → Bool) (answers : ℕ → Text → Text → Status) where
  -- The loop of `_send_run`, which posts one point at a time.
  unfoldable pub send_each : Text → ℕ → List Entry → Posted
  unfolding is_point_rejection refused_point
  send_each source k [] = record {
    outcome = refused;
    done = [];
    taken = [];
    waiting = [];
    posts = k;
    made = [];
  }
  send_each source k (e ∷ es) =
      let rest = send_each source (k + 1) es in
      let status = answers k source e.point.line in
      let post : Post = record { number = k; source = source; entries = e ∷ []; answer = status } in
      elim status [
        | accepted ↦ record rest {
          done = e ∷ rest.done;
          taken = e ∷ rest.taken;
          made = post ∷ rest.made;
        }
        | not_accepted code ↦
            if is_point_rejection code
            then record rest {
              done = e ∷ rest.done;
              waiting = refused_point e ++ rest.waiting;
              made = post ∷ rest.made;
            }
            else record {
              outcome = failed;
              done = [];
              taken = [];
              waiting = [];
              posts = k + 1;
              made = post ∷ [];
            }
      ]

  -- `_send_run`
  unfoldable pub send_run : ℕ → List Entry → Posted
  unfolding send_each joined source_of
  send_run k entries =
      let source = source_of entries in
      let each = send_each source (k + 1) entries in
      let status = answers k source (joined entries) in
      let post : Post = record {
        number = k;
        source = source;
        entries = entries;
        answer = status;
      } in
      let all : Posted = record {
        outcome = sent;
        done = entries;
        taken = [];
        waiting = [];
        posts = k;
        made = [];
      } in
      let stopped : Posted = record {
        outcome = failed;
        done = [];
        taken = [];
        waiting = [];
        posts = k + 1;
        made = post ∷ [];
      } in
      if not (configured source) then all else elim status [
        | accepted ↦ record all { taken = entries; posts = k + 1; made = post ∷ [] }
        | not_accepted code ↦
            if is_point_rejection code then record each { made = post ∷ each.made } else stopped
      ]

  -- The loop of `_post_next_chunk` over the groups.
  unfoldable pub post_groups : ℕ → List (List Entry) → Posted
  unfolding send_run
  post_groups k [] = record {
    outcome = sent;
    done = [];
    taken = [];
    waiting = [];
    posts = k;
    made = [];
  }
  post_groups k (g ∷ gs) =
      let first = send_run k g in
      let rest = post_groups first.posts gs in
      if is_failed first.outcome then first else record {
        outcome = joint first.outcome rest.outcome;
        done = first.done ++ rest.done;
        taken = first.taken ++ rest.taken;
        waiting = first.waiting ++ rest.waiting;
        posts = rest.posts;
        made = first.made ++ rest.made;
      }

  -- The chunk's start that was dealt with, and what was posted.
  unfoldable pub post_chunk : ℕ → List Entry → List Entry × Posted
  unfolding by_database post_groups handled_start
  post_chunk k chunk =
      let posted = post_groups k (by_database chunk) in
      let done = if is_failed posted.outcome && is_live chunk then chunk else posted.done in
      (handled_start done chunk, posted)
