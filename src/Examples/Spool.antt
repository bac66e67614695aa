-- ===== src/Examples/Spool.antt =====
-- The spool of toinflux/writer.py on concrete points, with a json that writes numbers in unary.
use send_to_influx.Prelude.{
  text_eq, ℕ, zero, suc, ◌+◌, ◌≤◌, ◌≡◌, refl, ap, ◌∙◌, true, false, Option, none, some, List, [],
  ◌∷◌, ◌++◌, All, length, drop, ◌==◌, if◌then◌else◌, arith, Text,
}
use send_to_influx.Writer.Lines.{newline, is_whole, ends_line, lines_of}
use send_to_influx.Writer.Entry.{Record, Json, Entry, encoded, decode}
use send_to_influx.Writer.Spool.{
  Segment, Spool, synced, broken, all_sizes, write_entry, read_spool, read_round, has_segment,
  size_of, file_of, without,
}
use send_to_influx.Writer.Spool.Unsent.{entry, unsent, items_of}
use send_to_influx.Writer.Spool.Valid.{IsValid}
use send_to_influx.Writer.Spool.Write.{write_entry-Unsent}
use send_to_influx.Writer.Spool.Broken.{UnsentOr, write_entry_broken}
use send_to_influx.Writer.Spool.Fronts.{HasRead}
use send_to_influx.Writer.Spool.Read.{read_spool-HasRead}
use send_to_influx.Writer.Delivery.{
  Call, write, fail, send, call, QueueStep, call-QueueStep, points_of,
}
use send_to_influx.Writer.Delivered.{run, Delivered, run-Delivered}
use send_to_influx.Writer.Posting.{Status, accepted, not_accepted}
use send_to_influx.Writer.Passing.{post_next_chunk, IsSafe, post_next_chunk-IsSafe}
use send_to_influx.Writer.Restart.{stored, open_spool, files_of, open_spool-Unsent}
use send_to_influx.Writer.Memory.{hold_all, consume_queue, consume_queue-hold_all}
use send_to_influx.Writer.Submit.{Buffer, same_name, is_last_line, submit}
use send_to_influx.Writer.Submitted.{HasAdded, held_points, submit-HasAdded}
use send_to_influx.Writer.Draining.{
  Drained, note_success, run_until_idle, IsDrained, run_until_idle-IsDrained,
}

-- A number: a digit for each one, and a digit at the end.
unfoldable put_char : ℕ → Text → Text
put_char zero rest = 48 ∷ rest
put_char (suc n) rest = 49 ∷ put_char n rest

unfoldable put_text : Text → Text → Text
unfolding put_char
put_text [] rest = 50 ∷ rest
put_text (c ∷ cs) rest = put_char c (put_text cs rest)

unfoldable put_option : Option Text → Text → Text
unfolding put_text
put_option none rest = 51 ∷ rest
put_option (some t) rest = 52 ∷ put_text t rest

unfoldable put_record : Record → Text → Text
unfolding put_text put_option
put_record r rest =
    put_text r.source
      (put_option r.instance_name (put_text r.line (put_text (r.rejections ∷ []) rest)))

unfoldable onto : ℕ → Option (Text × Text) → Option (Text × Text)
onto n none = none
onto n (some (t, rest)) = some (n ∷ t, rest)

unfoldable get_text : ℕ → Text → Option (Text × Text)
unfolding onto
get_text n [] = none
get_text n (c ∷ cs) =
    let more = get_text (n + 1) cs in
    let next = onto n (get_text 0 cs) in
    if c == 49 then more else if c == 48 then next else if c == 50 then some ([], cs) else none

unfoldable get_option : Text → Option (Option Text × Text)
unfolding get_text
get_option [] = none
get_option (c ∷ cs) =
    if c == 51
    then some (none, cs)
    else elim (get_text 0 cs) [ none ↦ none | some (t, rest) ↦ some (some t, rest) ]

unfoldable first_of : Text → ℕ
first_of [] = 0
first_of (c ∷ cs) = c

unfoldable get_record : Text → Option Record
unfolding get_text get_option first_of
get_record text = elim (get_text 0 text) [
  | none ↦ none
  | some (source, t1) ↦ elim (get_option t1) [
    | none ↦ none
    | some (name, t2) ↦ elim (get_text 0 t2) [
      | none ↦ none
      | some (line, t3) ↦ elim (get_text 0 t3) [
        | none ↦ none
        | some (n, t4) ↦
            some (record {
              source = source;
              instance_name = name;
              line = line;
              rejections = first_of n;
            })
      ]
    ]
  ]
]

get_text-put_char :
    (n m : ℕ) (rest : Text) → get_text m (put_char n rest) ≡ onto (m + n) (get_text 0 rest)
unfolding get_text put_char
get_text-put_char zero m rest =
    let same : m ≡ m + 0 = omega arith in ap (λ k. onto k (get_text 0 rest)) same
get_text-put_char (suc n) m rest =
    let same : m + 1 + n ≡ m + suc n = omega arith in
    get_text-put_char n (m + 1) rest ∙ ap (λ k. onto k (get_text 0 rest)) same

get_text-put_text : (t rest : Text) → get_text 0 (put_text t rest) ≡ some (t, rest)
unfolding put_text onto
get_text-put_text [] rest = unfold get_text in refl
get_text-put_text (c ∷ cs) rest =
    get_text-put_char c 0 (put_text cs rest)
    ∙ rw (get_text-put_text cs rest, onto) (ap (λ n. some (n ∷ cs, rest)) (omega arith))

get_option-put_option :
    (o : Option Text) (rest : Text) → get_option (put_option o rest) ≡ some (o, rest)
unfolding get_option put_option
get_option-put_option none rest = refl
get_option-put_option (some t) rest = rw (get_text-put_text t rest) refl

get_record-put_record : (r : Record) (rest : Text) → get_record (put_record r rest) ≡ some r
unfolding get_record put_record first_of
get_record-put_record r rest =
    let last = put_text (r.rejections ∷ []) rest in
    let middle = put_text r.line last in
    rw (get_text-put_text r.source (put_option r.instance_name middle), get_record)
      (rw (get_option-put_option r.instance_name middle)
        (rw (get_text-put_text r.line last) (rw (get_text-put_text (r.rejections ∷ []) rest) refl)))

-- What is written stands before what follows it.
put_char-append : (n : ℕ) (rest ys : Text) → put_char n rest ++ ys ≡ put_char n (rest ++ ys)
unfolding put_char
put_char-append zero rest ys = refl
put_char-append (suc n) rest ys = ap (λ t. 49 ∷ t) (put_char-append n rest ys)

put_text-append : (t rest ys : Text) → put_text t rest ++ ys ≡ put_text t (rest ++ ys)
unfolding put_text
put_text-append [] rest ys = refl
put_text-append (c ∷ cs) rest ys =
    put_char-append c (put_text cs rest) ys ∙ ap (put_char c) (put_text-append cs rest ys)

put_option-append :
    (o : Option Text) (rest ys : Text) → put_option o rest ++ ys ≡ put_option o (rest ++ ys)
unfolding put_option
put_option-append none rest ys = refl
put_option-append (some t) rest ys = ap (λ u. 52 ∷ u) (put_text-append t rest ys)

put_record-append : (r : Record) (ys : Text) → put_record r [] ++ ys ≡ put_record r ys
unfolding put_record
put_record-append r ys =
    let last = put_text (r.rejections ∷ []) [] in
    put_text-append r.source _ ys
    ∙ ap (put_text r.source) (
        put_option-append r.instance_name _ ys
        ∙ ap (put_option r.instance_name) (
            put_text-append r.line last ys
            ∙ ap (put_text r.line) (put_text-append (r.rejections ∷ []) [] ys)))

abbrev HasNoNewline : Text → Type 0
HasNoNewline xs = All (λ c. (c == newline) ≡ false) xs

put_char-HasNoNewline : (n : ℕ) (rest : Text) → HasNoNewline rest → HasNoNewline (put_char n rest)
unfolding put_char
put_char-HasNoNewline zero rest h = (refl, h)
put_char-HasNoNewline (suc n) rest h = (refl, put_char-HasNoNewline n rest h)

put_text-HasNoNewline : (t rest : Text) → HasNoNewline rest → HasNoNewline (put_text t rest)
unfolding put_text
put_text-HasNoNewline [] rest h = (refl, h)
put_text-HasNoNewline (c ∷ cs) rest h =
    put_char-HasNoNewline c (put_text cs rest) (put_text-HasNoNewline cs rest h)

put_option-HasNoNewline :
    (o : Option Text) (rest : Text) → HasNoNewline rest → HasNoNewline (put_option o rest)
unfolding put_option
put_option-HasNoNewline none rest h = (refl, h)
put_option-HasNoNewline (some t) rest h = (refl, put_text-HasNoNewline t rest h)

put_record-HasNoNewline : (r : Record) → HasNoNewline (put_record r [])
unfolding put_record
put_record-HasNoNewline r = put_text-HasNoNewline r.source _ (
    put_option-HasNoNewline r.instance_name _
      (put_text-HasNoNewline r.line _ (put_text-HasNoNewline (r.rejections ∷ []) [] tt)))

loads-dumps_lem : (r : Record) → get_record (put_record r [] ++ newline ∷ []) ≡ some r
loads-dumps_lem r =
    ap get_record (put_record-append r (newline ∷ [])) ∙ get_record-put_record r (newline ∷ [])

abbrev unary_json : Json
unary_json = record {
  dumps = λ r. put_record r [];
  loads = get_record;
  loads-dumps = loads-dumps_lem;
  one_line = put_record-HasNoNewline;
}

abbrev point_one : Record
point_one = record { source = 1 ∷ []; instance_name = none; line = 2 ∷ 3 ∷ []; rejections = 0 }

abbrev point_two : Record
point_two = record { source = 1 ∷ []; instance_name = some (1 ∷ []); line = 4 ∷ []; rejections = 1 }

-- Two points in the first segment, the first of them passed; one more in the open segment.
abbrev two_segments : List Segment
two_segments =
    record {
      number = 3;
      size = 32;
      file = encoded unary_json point_one ++ encoded unary_json point_two;
    }
    ∷ record { number = 5; size = 15; file = encoded unary_json point_one }
    ∷ []

abbrev spool_of : ℕ → Spool
spool_of limit = record {
  segments = two_segments;
  append_segment = some 5;
  is_open = true;
  pointer = some (3, 15);
  stale_segment = 0;
  limit_bytes = limit;
  disk = true;
  locked = true;
}

spool_of-IsValid : (limit : ℕ) → IsValid (spool_of limit)
unfolding encoded put_record put_text put_option put_char is_whole ends_line
spool_of-IsValid limit = record {
  ascending = ((omega arith, tt), (tt, tt));
  measured = (refl, (refl, tt));
  points = (omega arith, λ _. omega arith);
  appends = λ _. (
    5,
    refl,
    record {
      before =
          record {
            number = 3;
            size = 32;
            file = encoded unary_json point_one ++ encoded unary_json point_two;
          }
          ∷ [];
      last = record { number = 5; size = 15; file = encoded unary_json point_one };
      split = refl;
      numbered = refl;
      whole = refl;
    },
  );
  newest = (omega arith, (omega arith, tt));
}

calls : List Call
calls = write point_two ∷ send 100 ∷ fail 4 point_two ∷ write point_one ∷ send 0 ∷ send 1 ∷ []

run-Delivered_example :
    let (after, sent) = run unary_json calls (spool_of 60) in
    Delivered unary_json calls (spool_of 60) after sent
run-Delivered_example = run-Delivered unary_json calls (spool_of 60) (spool_of-IsValid 60)

call-QueueStep_test :
    let (after, sent) = call unary_json (send 1) (spool_of 60) in
    IsValid after
    × QueueStep unary_json (send 1) (unsent unary_json (spool_of 60)) sent (unsent unary_json after)
call-QueueStep_test = call-QueueStep unary_json (send 1) (spool_of 60) (spool_of-IsValid 60)

write_entry-Unsent_example :
    let (after, ok) = write_entry unary_json true synced point_two (spool_of 60) in
    (ok ≡ true)
    × IsValid after
    × (n : ℕ) × (position : ℕ) × (lost : List Entry) × (unsent unary_json (spool_of 60)
          ++ entry unary_json n position point_two ∷ []
        ≡ lost ++ unsent unary_json after)
    × (all_sizes two_segments + length (encoded unary_json point_two) ≤ 60 → lost ≡ [])
write_entry-Unsent_example =
    write_entry-Unsent unary_json (spool_of 60) point_two (spool_of-IsValid 60)

write_entry_broken_example :
    let (after, ok) = write_entry unary_json true (broken 4 true) point_two (spool_of 60) in
    (ok ≡ false)
    × IsValid after
    × UnsentOr unary_json point_two (unsent unary_json (spool_of 60)) (unsent unary_json after)
write_entry_broken_example =
    write_entry_broken unary_json 4 (spool_of 60) point_two (spool_of-IsValid 60)

read_spool-HasRead_example :
    (after : Spool) × (chunk : List Entry) × (read_spool 6 unary_json (λ _. true) true (spool_of 60)
      ≡ some (after, chunk))
    × HasRead unary_json (spool_of 60) after chunk
read_spool-HasRead_example =
    read_spool-HasRead unary_json 6 (λ _. true) true (spool_of 60) (λ _. refl) (spool_of-IsValid 60)
      (omega arith)

-- The point that is left in the first segment is sent first, then the one of the open segment.
test_sends :
    points_of unary_json (run unary_json (send 100 ∷ send 100 ∷ send 100 ∷ []) (spool_of 60)).1
    ≡ point_two ∷ point_one ∷ []
unfolding run encoded put_record put_text put_option put_char get_record get_text get_option onto
    lines_of decode ends_line read_round has_segment size_of file_of without
test_sends = refl

-- The server is out of reach for the second post, and refuses the points of a body of one character.
answers : ℕ → Text → Text → Status
answers k source body =
    if k == 1
    then not_accepted none
    else if length body == 1
    then not_accepted (some 400)
    else accepted

post_next_chunk-IsSafe_example :
    IsSafe unary_json
      (λ _. true)
      answers
      (spool_of 60)
      (post_next_chunk unary_json (λ _. true) answers 0 (spool_of 60))
post_next_chunk-IsSafe_example =
    post_next_chunk-IsSafe unary_json (λ _. true) answers 0 (spool_of 60) (spool_of-IsValid 60)

unsent_count : length (unsent unary_json (spool_of 60)) ≡ 2
unfolding encoded put_record put_text put_option put_char get_record get_text get_option onto
    lines_of decode ends_line items_of
unsent_count = refl

run_until_idle-IsDrained_example :
    (d : Drained) × (run_until_idle unary_json (λ _. true) answers 3 0 note_success (spool_of 60)
      ≡ some d)
    × IsDrained unary_json (λ _. true) answers (spool_of 60) d
run_until_idle-IsDrained_example =
    run_until_idle-IsDrained unary_json (λ _. true) answers 3 0 note_success (spool_of 60)
      (spool_of-IsValid 60) (omega arith, λ (n : ℕ) (e : none ≡ some n). cc)
      (omega (arith, unsent_count))

open_spool-Unsent_example :
    let opened = open_spool true 60 (files_of two_segments) (stored (some 3) (some 15)) in
    IsValid opened
    × (opened.disk ≡ true)
    × (opened.is_open ≡ true)
    × (unsent unary_json opened ≡ unsent unary_json (spool_of 60))
open_spool-Unsent_example =
    open_spool-Unsent unary_json 60 3 15 (spool_of 60) (spool_of-IsValid 60) refl

abbrev held : ℕ → Entry
held n = record { point = point_one; live = false; end = none; id = n }

consume_queue-hold_all_example :
    consume_queue (held 1 ∷ []) (hold_all (held 1 ∷ held 2 ∷ []) (held 3 ∷ []))
    ≡ (drop 1 (held 1 ∷ held 2 ∷ held 3 ∷ []), 1)
consume_queue-hold_all_example =
    consume_queue-hold_all (held 1 ∷ []) (held 2 ∷ []) (held 3 ∷ [])
      ((refl, (refl, tt)), ((refl, tt), (tt, tt))) (omega arith)

-- The disk had failed; one point waits in memory.
abbrev failed_disk : Buffer
failed_disk = record {
  spool = record (spool_of 60) { disk = false };
  memory = record { source = 1 ∷ []; instance_name = none; entries = held 1 ∷ [] } ∷ [];
  last_line = record { source = 1 ∷ []; instance_name = none; line = 2 ∷ 3 ∷ [] } ∷ [];
  live = [];
  writes = 0;
  submitted = 2;
}

failed_disk-IsValid : IsValid failed_disk.spool
failed_disk-IsValid =
    let valid = spool_of-IsValid 60 in
    record {
      ascending = valid.ascending;
      measured = valid.measured;
      points = valid.points;
      appends = valid.appends;
      newest = valid.newest;
    }

submit-HasAdded_example :
    let after = submit unary_json (λ _. true) (λ _. synced) point_two true failed_disk in
    HasAdded unary_json
      (held_points failed_disk.memory ++ point_two ∷ [])
      failed_disk.spool
      after.spool
    × (held_points after.memory ≡ [])
    × (after.spool.disk ≡ true)
submit-HasAdded_example =
    submit-HasAdded unary_json (λ _. true) (λ _. synced) (λ _. refl) (λ _. refl) point_two
      failed_disk failed_disk-IsValid refl (unfold is_last_line same_name text_eq in refl)
