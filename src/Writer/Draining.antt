-- ===== src/Writer/Draining.antt =====
-- `run_until_idle` of toinflux/writer.py, when the retry timer lets it post and no live point waits.
use Prim.Native.Nat.{min}
use send_to_influx.Prelude.{
  ℕ, zero, suc, ◌*◌, ◌≤◌, ◌<◌, ◌≡◌, ◌≢◌, refl, sym, ap, ◌∙◌, Bool, true, false, Option, none, some,
  List, [], ◌∷◌, ◌++◌, All, append_assoc, inl, inr, ◌⊎◌, length, length-append, arith, Text,
}
use send_to_influx.Writer.Entry.{Record, Json, Entry}
use send_to_influx.Writer.Spool.{Spool}
use send_to_influx.Writer.Spool.Unsent.{unsent}
use send_to_influx.Writer.Spool.Valid.{IsValid}
use send_to_influx.Writer.Posting.{Status, Post, retry_first_seconds, retry_max_seconds}
use send_to_influx.Writer.Posting.Dealt.{Dealt, IsTrue, joined-Dealt, joined-IsTrue}
use send_to_influx.Writer.Posting.Unanswered.{Unanswered, behind_Unanswered}
use send_to_influx.Writer.Passing.{
  Verdict, idle, chunk_sent, chunk_refused, refused_all, chunk_failed, Passed, post_next_chunk,
  IsSafe, post_next_chunk-IsSafe,
}

-- The retry timer: `wait` is how long it runs from the clock's reading at the failure, none where
-- `_retry_at` is 0.0.
pub record Timer : Type 0 where
  pub delay : ℕ
  pub wait : Option ℕ
  pub refusing : Bool

-- `_note_failure`
unfoldable pub note_failure : Bool → Timer → Timer
note_failure refusing t = record {
  delay = min (t.delay * 2) retry_max_seconds;
  wait = some t.delay;
  refusing = refusing;
}

-- `_note_success`
abbrev pub note_success : Timer
note_success = record { delay = retry_first_seconds; wait = none; refusing = false }

-- What the loop comes to: the spool, the timer, the last verdict, what was passed, the points that
-- wait for another attempt, and the posts.
pub record Drained : Type 0 where
  pub spool : Spool
  pub timer : Timer
  pub verdict : Verdict
  pub passed : List Entry
  pub waiting : List (ℕ × Record)
  pub made : List Post

abbrev pub ended : Verdict → Timer → Passed → Drained
ended verdict timer p = record {
  spool = p.spool;
  timer = timer;
  verdict = verdict;
  passed = p.start;
  waiting = p.waiting;
  made = p.made;
}

unfoldable pub after_pass : Passed → Option Drained → Option Drained
after_pass p none = none
after_pass p (some d) = some (record d {
  passed = p.start ++ d.passed;
  waiting = p.waiting ++ d.waiting;
  made = p.made ++ d.made;
})

-- The waits are at most the ceiling.
abbrev pub IsBounded : Timer → Type 0
IsBounded t =
    (t.delay ≤ retry_max_seconds)
    × ((seconds : ℕ) → t.wait ≡ some seconds → seconds ≤ retry_max_seconds)

module _ (json : Json) (configured : Text → Bool) (answers : ℕ → Text → Text → Status) where
  unfoldable pub run_until_idle : ℕ → ℕ → Timer → Spool → Option Drained
  unfolding post_next_chunk note_failure after_pass
  run_until_idle zero k t s = none
  run_until_idle (suc fuel) k t s =
      let p = post_next_chunk json configured answers k s in
      let rest = run_until_idle fuel p.posts note_success p.spool in
      elim p.verdict [
        | idle ↦ some (ended idle t p)
        | chunk_failed ↦ some (ended chunk_failed (note_failure false t) p)
        | refused_all ↦ some (ended refused_all (note_failure true t) p)
        | chunk_sent ↦ after_pass p rest
        | chunk_refused ↦ after_pass p rest
      ]

  -- What is passed was dealt with by the posts made, each answered as the server answers it.
  pub record IsDrained (s : Spool) (d : Drained) : Type 0 where
    pub valid : IsValid d.spool
    pub same : unsent json s ≡ d.passed ++ unsent json d.spool
    pub dealt : All (Dealt configured answers d.made) d.passed
    pub answered : All (IsTrue configured answers) d.made
    pub emptied : d.verdict ≡ idle → unsent json d.spool ≡ []
    pub failure : d.verdict ≡ chunk_failed → Unanswered configured answers d.made
    pub stopped : (d.verdict ≢ chunk_sent) × (d.verdict ≢ chunk_refused)
    pub bounded : IsBounded d.timer

  empty_after : (start after : List Entry) → start ++ after ≡ [] → after ≡ []
  empty_after [] after h = h
  empty_after (e ∷ es) after h = cc

  note_failure-IsBounded :
      (refusing : Bool) (t : Timer) → IsBounded t → IsBounded (note_failure refusing t)
  unfolding note_failure
  note_failure-IsBounded refusing t h =
      (omega arith, λ (n : ℕ) (e : some t.delay ≡ some n). ground (arith, e, h.0))

  note_success-IsBounded : IsBounded note_success
  note_success-IsBounded = (omega arith, λ (n : ℕ) (e : none ≡ some n). cc)

  Verdict-cases :
      (v : Verdict)
      → (v ≡ idle) ⊎ (v ≡ chunk_failed) ⊎ (v ≡ refused_all) ⊎ (v ≡ chunk_sent) ⊎ (v ≡ chunk_refused)
  Verdict-cases idle = inl refl
  Verdict-cases chunk_failed = inr (inl refl)
  Verdict-cases refused_all = inr (inr (inl refl))
  Verdict-cases chunk_sent = inr (inr (inr (inl refl)))
  Verdict-cases chunk_refused = inr (inr (inr (inr refl)))

  stopped_at :
      (s : Spool) (p : Passed) (t : Timer) (v : Verdict)
      → IsSafe json configured answers s p
      → p.verdict ≡ v
      → IsBounded t
      → v ≢ chunk_sent
      → v ≢ chunk_refused
      → IsDrained s (ended v t p)
  stopped_at s p t v h e b not_sent not_refused = record {
    valid = h.valid;
    same = h.same;
    dealt = h.dealt;
    answered = h.answered;
    emptied = (λ (i : v ≡ idle).
        empty_after p.start (unsent json p.spool) (sym h.same ∙ h.idle_empty (e ∙ i)));
    failure = λ (f : v ≡ chunk_failed). h.failure (e ∙ f);
    stopped = (not_sent, not_refused);
    bounded = b;
  }

  onwards :
      (s : Spool) (p : Passed) (d : Drained)
      → IsSafe json configured answers s p
      → IsDrained p.spool d
      → IsDrained s (record d {
        passed = p.start ++ d.passed;
        waiting = p.waiting ++ d.waiting;
        made = p.made ++ d.made;
      })
  onwards s p d h k = record {
    valid = k.valid;
    same =
        h.same
        ∙ ap (λ es. p.start ++ es) k.same
        ∙ sym (append_assoc p.start d.passed (unsent json d.spool));
    dealt = joined-Dealt configured answers p.made d.made p.start d.passed h.dealt k.dealt;
    answered = joined-IsTrue configured answers p.made d.made h.answered k.answered;
    emptied = k.emptied;
    failure = λ f. behind_Unanswered configured answers p.made d.made (k.failure f);
    stopped = k.stopped;
    bounded = k.bounded;
  }

  shorter :
      (whole start after : List Entry)
      → whole ≡ start ++ after
      → start ≢ []
      → length after < length whole
  shorter whole [] after e h = absurd (h refl)
  shorter whole (x ∷ start) after e h = omega (arith, ap length e, length-append start after)

  -- On a valid spool whose files can be read the loop ends, within one pass more than there are unsent
  -- points. What it has taken from the front of the queue are points that a post of this loop dealt
  -- with: the server took one with the point in its body, or refused one that had nothing but the
  -- point; or the point's source has no database. Nothing is unsent where it ends as idle; where it
  -- ends as failed, one of its posts had no answer or one that neither takes nor refuses points; else
  -- it ends as the refusal of a whole chunk. The retry timer stays within its ceiling, and the spool
  -- valid.
  pub run_until_idle-IsDrained :
      (fuel k : ℕ) (t : Timer) (s : Spool)
      → IsValid s
      → IsBounded t
      → length (unsent json s) < fuel
      → (d : Drained) × (run_until_idle fuel k t s ≡ some d) × IsDrained s d
  unfolding run_until_idle after_pass
  run_until_idle-IsDrained zero k t s v b h = absurd (omega (arith, h))
  run_until_idle-IsDrained (suc fuel) k t s v b h =
      let p = post_next_chunk json configured answers k s in
      let safe = post_next_chunk-IsSafe json configured answers k s v in
      let further = λ (n : p.start ≢ []).
        let fewer = shorter (unsent json s) p.start (unsent json p.spool) safe.same n in
        run_until_idle-IsDrained fuel p.posts note_success p.spool safe.valid note_success-IsBounded
          (omega (arith, h, fewer)) in
      elim (Verdict-cases p.verdict) [
        | inl e ↦
            (_, rw (e, run_until_idle) refl, stopped_at s p t idle safe e b (λ x. cc) (λ x. cc))
        | inr (inl e) ↦ (
          _,
          rw (e, run_until_idle) refl,
          stopped_at s p (note_failure false t) chunk_failed safe e
              (note_failure-IsBounded false t b) (λ x. cc) (λ x. cc),
        )
        | inr (inr (inl e)) ↦ (
          _,
          rw (e, run_until_idle) refl,
          stopped_at s p (note_failure true t) refused_all safe e (note_failure-IsBounded true t b)
              (λ x. cc) (λ x. cc),
        )
        | inr (inr (inr (inl e))) ↦
            let (d, done, drained) = further (safe.progress (λ x. cc) (λ x. cc)) in
            (_, rw (e, run_until_idle) (rw (done, after_pass) refl), onwards s p d safe drained)
        | inr (inr (inr (inr e))) ↦
            let (d, done, drained) = further (safe.progress (λ x. cc) (λ x. cc)) in
            (_, rw (e, run_until_idle) (rw (done, after_pass) refl), onwards s p d safe drained)
      ]
