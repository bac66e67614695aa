-- ===== src/Writer/Passing.antt =====
-- `_post_next_chunk` of toinflux/writer.py where no live point waits and nothing is held in memory.
use send_to_influx.Prelude.{
  ℕ, ◌+◌, ◌*◌, ◌≤◌, ◌<◌, Among, ◌≡◌, ◌≢◌, refl, sym, ap, ◌∙◌, subst, Bool, true, false, not, ◌&&◌,
  none, some, List, [], ◌∷◌, ◌++◌, All, length, if◌then◌else◌, arith, Text, drop, Option-cases, inl,
  inr,
}
use send_to_influx.Writer.Entry.{Record, Json, Entry, decode}
use send_to_influx.Writer.Lines.{ends_line, lines_of}
use send_to_influx.Writer.Spool.{Spool, same_place, read_spool}
use send_to_influx.Writer.Spool.Unsent.{items_of, unsent}
use send_to_influx.Writer.Spool.Valid.{IsValid}
use send_to_influx.Writer.Spool.Fronts.{Front, HasRead}
use send_to_influx.Writer.Spool.Read.{read_spool-HasRead}
use send_to_influx.Writer.Delivery.{pass, pass_lem}
use send_to_influx.Writer.Posting.{
  Status, Post, RunOutcome, sent, refused, failed, is_failed, is_live, post_chunk,
}
use send_to_influx.Writer.Posting.Dealt.{Dealt, IsTrue, HasOwnIds, post_chunk-Dealt}
use send_to_influx.Writer.Posting.Unanswered.{Unanswered, post_chunk-Unanswered}

-- What `_post_next_chunk` returns.
pub data Verdict : Type 0 where
  idle : Verdict
  chunk_sent : Verdict
  chunk_refused : Verdict
  refused_all : Verdict
  chunk_failed : Verdict

abbrev is_none_of : List Entry → Bool
is_none_of [] = true
is_none_of (e ∷ es) = false

-- The outcome, with "refused_all" where the server took nothing of a chunk that is not live.
abbrev pub verdict_of : RunOutcome → Bool → Bool → Verdict
verdict_of sent none_taken live = chunk_sent
verdict_of refused none_taken live = if none_taken && not live then refused_all else chunk_refused
verdict_of failed none_taken live = chunk_failed

-- The spool afterwards, what of the chunk was passed, the points that wait for another attempt, the
-- number of posts so far, and those of this pass.
pub record Passed : Type 0 where
  pub spool : Spool
  pub start : List Entry
  pub verdict : Verdict
  pub waiting : List (ℕ × Record)
  pub posts : ℕ
  pub made : List Post

cons_nil : (e : Entry) (es : List Entry) → e ∷ es ≢ []
cons_nil e es h = cc

module _ (json : Json) (configured : Text → Bool) (answers : ℕ → Text → Text → Status) where
  unfoldable pub post_read : ℕ → Spool → List Entry → Passed
  unfolding post_chunk pass
  post_read k after [] = record {
    spool = after;
    start = [];
    verdict = idle;
    waiting = [];
    posts = k;
    made = [];
  }
  post_read k after (e ∷ es) =
      let (start, posted) = post_chunk configured answers k (e ∷ es) in
      let next = pass json start after in
      let stuck = not (is_none_of start) && same_place next.pointer after.pointer in
      record {
        spool = next;
        start = start;
        verdict =
            if stuck
            then chunk_failed
            else verdict_of posted.outcome (is_none_of posted.taken) e.live;
        waiting = posted.waiting;
        posts = posted.posts;
        made = posted.made;
      }

  -- `_post_next_chunk`; the files of the spool can be read.
  unfoldable pub post_next_chunk : ℕ → Spool → Passed
  unfolding read_spool post_read
  post_next_chunk k s = elim (read_spool (2 * length s.segments + 2) json (λ _. true) true s) [
    | none ↦ record { spool = s; start = []; verdict = idle; waiting = []; posts = k; made = [] }
    | some (after, chunk) ↦ post_read k after chunk
  ]

  items_buffered :
      (n p : ℕ) (ls : List Text) (d : Entry) (rest : List Entry)
      → items_of json n p ls ≡ d ∷ rest
      → d.live ≡ false
  unfolding items_of
  items_buffered n p [] d rest h = cc
  items_buffered n p (l ∷ ls) d rest h = elim (Option-cases (decode json l)) [
    | inl e ↦ items_buffered n (p + length l) ls d rest (rw (e, items_of) at h)
    | inr (r, e) ↦ let same = rw (e, items_of) at h in sym (ap (λ es. is_live es) same)
  ]

  -- What a pass does: what it takes from the front of the queue was dealt with; it takes all that it
  -- read where no post fails for want of the server, and is idle only on an empty queue.
  pub record IsSafe (s : Spool) (p : Passed) : Type 0 where
    pub valid : IsValid p.spool
    pub same : unsent json s ≡ p.start ++ unsent json p.spool
    pub dealt : All (Dealt configured answers p.made) p.start
    pub answered : All (IsTrue configured answers) p.made
    pub idle_empty : p.verdict ≡ idle → unsent json s ≡ []
    pub progress : p.verdict ≢ idle → p.verdict ≢ chunk_failed → p.start ≢ []
    pub failure : p.verdict ≡ chunk_failed → Unanswered configured answers p.made

  chunk_buffered :
      (after : Spool) (e : Entry) (es : List Entry)
      → Front json after (e ∷ es)
      → is_live (e ∷ es) ≡ false
  chunk_buffered after e es f =
      items_buffered f.segment.number f.offset (lines_of (drop f.offset f.segment.file)) e
        (es ++ f.more) f.items_are

  -- The ids rise along a list, from above a bound.
  Rising : ℕ → List Entry → Type 0
  Rising low [] = Unit
  Rising low (e ∷ es) = (low < e.id) × Rising e.id es

  Rising-lower : (low high : ℕ) (es : List Entry) → low ≤ high → Rising high es → Rising low es
  unfolding Rising
  Rising-lower low high [] h r = tt
  Rising-lower low high (e ∷ es) h r = (omega (arith, h, r.0), r.1)

  read_line_length : (l : Text) (r : Record) → decode json l ≡ some r → 1 ≤ length l
  unfolding decode ends_line
  read_line_length [] r h = cc
  read_line_length (c ∷ cs) r h = omega arith

  items_of-Rising : (n p : ℕ) (ls : List Text) → Rising p (items_of json n p ls)
  unfolding items_of Rising
  items_of-Rising n p [] = tt
  items_of-Rising n p (l ∷ ls) =
      let ih = items_of-Rising n (p + length l) ls in
      elim (Option-cases (decode json l)) [
        | inl e ↦ rw (e, items_of) (Rising-lower p (p + length l) _ (omega arith) ih)
        | inr (r, e) ↦ rw (e, items_of) (omega (arith, read_line_length l r e), ih)
      ]

  Rising-start : (low : ℕ) (es more : List Entry) → Rising low (es ++ more) → Rising low es
  unfolding Rising
  Rising-start low [] more r = tt
  Rising-start low (e ∷ es) more r = (r.0, Rising-start e.id es more r.1)

  beyond : (low : ℕ) (es : List Entry) (e : Entry) → Rising low es → Among e es → low < e.id
  unfolding Rising
  beyond low [] e r i = elim i [ ]
  beyond low (x ∷ es) e r (inl same) = subst (λ y. low < y.id) (sym same) r.0
  beyond low (x ∷ es) e r (inr i) = omega (arith, r.0, beyond x.id es e r.1 i)

  Rising-HasOwnIds : (low : ℕ) (es : List Entry) → Rising low es → HasOwnIds es
  unfolding Rising
  Rising-HasOwnIds low [] r d e i j h = elim i [ ]
  Rising-HasOwnIds low (x ∷ es) r d e (inl a) (inl b) h = a ∙ sym b
  Rising-HasOwnIds low (x ∷ es) r d e (inl a) (inr j) h =
      absurd (omega (arith, h, ap (λ (y : Entry). y.id) a, beyond x.id es e r.1 j))
  Rising-HasOwnIds low (x ∷ es) r d e (inr i) (inl b) h =
      absurd (omega (arith, h, ap (λ (y : Entry). y.id) b, beyond x.id es d r.1 i))
  Rising-HasOwnIds low (x ∷ es) r d e (inr i) (inr j) h = Rising-HasOwnIds x.id es r.1 d e i j h

  chunk-HasOwnIds :
      (after : Spool) (e : Entry) (es : List Entry) → Front json after (e ∷ es) → HasOwnIds (e ∷ es)
  chunk-HasOwnIds after e es f = Rising-HasOwnIds f.offset (e ∷ es) (
      Rising-start f.offset (e ∷ es) f.more (
        subst (Rising f.offset) f.items_are
          (items_of-Rising f.segment.number f.offset (lines_of (drop f.offset f.segment.file)))))

  not_idle :
      (o : RunOutcome) (none_taken live stuck : Bool)
      → (if stuck then chunk_failed else verdict_of o none_taken live) ≢ idle
  not_idle o none_taken live true = λ h. cc
  not_idle sent none_taken live false = λ h. cc
  not_idle refused true true false = λ h. cc
  not_idle refused true false false = λ h. cc
  not_idle refused false live false = λ h. cc
  not_idle failed none_taken live false = λ h. cc

  failed_of :
      (o : RunOutcome) (none_taken live stuck : Bool)
      → (if stuck then chunk_failed else verdict_of o none_taken live) ≢ chunk_failed
      → is_failed o ≡ false
  failed_of o none_taken live true h = absurd (h refl)
  failed_of sent none_taken live false h = refl
  failed_of refused none_taken live false h = refl
  failed_of failed none_taken live false h = absurd (h refl)

  is_failed_of :
      (o : RunOutcome) (none_taken live : Bool)
      → verdict_of o none_taken live ≡ chunk_failed
      → is_failed o ≡ true
  is_failed_of sent none_taken live h = cc
  is_failed_of refused true true h = cc
  is_failed_of refused true false h = cc
  is_failed_of refused false live h = cc
  is_failed_of failed none_taken live h = refl

  never_stuck :
      (start : List Entry) (unmoved : Bool)
      → (start ≢ [] → unmoved ≡ false)
      → (not (is_none_of start) && unmoved) ≡ false
  never_stuck [] unmoved h = refl
  never_stuck (e ∷ es) unmoved h = rw (h (cons_nil e es)) refl

  post_read-IsSafe :
      (k : ℕ) (s after : Spool) (chunk : List Entry)
      → HasRead json s after chunk
      → IsSafe s (post_read k after chunk)
  unfolding post_read
  post_read-IsSafe k s after [] h = record {
    valid = h.valid;
    same = sym h.same;
    dealt = tt;
    answered = tt;
    idle_empty = λ _. h.drained refl;
    progress = λ i _. absurd (i refl);
    failure = λ f. cc;
  }
  post_read-IsSafe k s after (e ∷ es) h =
      let buffered = chunk_buffered after e es (h.front (λ k. cc)) in
      let (start, posted) = post_chunk configured answers k (e ∷ es) in
      let (dealt, answered, (later, split), whole) =
        post_chunk-Dealt configured answers k (e ∷ es) buffered
          (chunk-HasOwnIds after e es (h.front (λ k. cc))) in
      let (valid, same, moves) =
        pass_lem json s after start later (subst (HasRead json s after) split h) in
      let stuck =
        not (is_none_of start) && same_place (pass json start after).pointer after.pointer in
      record {
        valid = valid;
        same = same;
        dealt = dealt;
        answered = answered;
        idle_empty = λ i. absurd (not_idle posted.outcome (is_none_of posted.taken) e.live stuck i);
        progress = (λ _ i (n : start ≡ []).
            let no_failure = failed_of posted.outcome (is_none_of posted.taken) e.live stuck i in
            cons_nil e es (sym (whole no_failure) ∙ n));
        failure =
            (λ (f : (if stuck
                  then chunk_failed
                  else verdict_of posted.outcome (is_none_of posted.taken) e.live)
                ≡ chunk_failed).
              post_chunk-Unanswered configured answers k (e ∷ es) (
                is_failed_of posted.outcome (is_none_of posted.taken) e.live (
                  subst
                    (λ b.
                      (if b
                        then chunk_failed
                        else verdict_of posted.outcome (is_none_of posted.taken) e.live)
                      ≡ chunk_failed)
                    (never_stuck start (same_place (pass json start after).pointer after.pointer)
                      moves)
                    f)));
      }

  -- A pass over a valid spool whose files can be read takes from the front of what is unsent only points that a post
  -- of this pass dealt with: the server took one with the point in its body, or refused one that had nothing but
  -- the point; or the point's source has no database. It takes some unless it fails or nothing is unsent, it
  -- fails only where one of its posts had no answer or one that neither takes nor refuses points, and
  -- the spool stays valid.
  pub post_next_chunk-IsSafe : (k : ℕ) (s : Spool) → IsValid s → IsSafe s (post_next_chunk k s)
  unfolding post_next_chunk
  post_next_chunk-IsSafe k s v =
      let (after, chunk, e, h) =
        read_spool-HasRead json (2 * length s.segments + 2) (λ _. true) true s (λ _. refl) v
          (omega arith) in
      rw (e, post_next_chunk) (post_read-IsSafe k s after chunk h)
