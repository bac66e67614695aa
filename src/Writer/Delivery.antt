-- ===== src/Writer/Delivery.antt =====
-- The spool of toinflux/writer.py as a queue: writes, failing writes and sends in any order.
use send_to_influx.Prelude.{
  ℕ, zero, suc, inl, inr, ◌⊎◌, take, drop, take-append-drop, ◌+◌, ◌*◌, ◌≤◌, ◌≡◌, ◌≢◌, false, refl,
  sym, ap, ◌∙◌, subst, true, none, some, List, [], ◌∷◌, ◌++◌, append_assoc, length, arith,
}
use send_to_influx.Writer.Entry.{Record, Json, Entry}
use send_to_influx.Writer.Spool.{
  Spool, synced, broken, write_entry, read_spool, consume_to, same_place, chunk_points,
}
use send_to_influx.Writer.Spool.Unsent.{entry, unsent, ends_at}
use send_to_influx.Writer.Spool.Valid.{IsValid}
use send_to_influx.Writer.Spool.Write.{write_entry-Unsent}
use send_to_influx.Writer.Spool.Broken.{UnsentOr, write_entry_broken}
use send_to_influx.Writer.Spool.Fronts.{Front, HasRead}
use send_to_influx.Writer.Spool.Read.{read_spool-HasRead}
use send_to_influx.Writer.Spool.Consume.{consume-Front}

-- What the writer does with the spool: it appends a point; it fails to, and so many bytes of the line
-- stay in the file; or it sends the oldest chunk, of which so many points are dealt with.
pub data Call : Type 0 where
  write : Record → Call
  fail : ℕ → Record → Call
  send : ℕ → Call

module _ (json : Json) where
  -- The part of `_post_next_chunk` that passes a chunk, to the end of its last entry.
  unfoldable pub pass : List Entry → Spool → Spool
  unfolding consume_to
  pass chunk s = elim (ends_at json chunk) [ none ↦ s | some (n, o) ↦ consume_to n o s ]

  -- The start of the chunk that is read, and the spool once it is passed.
  unfoldable pub send_chunk : ℕ → Spool → Spool × List Entry
  unfolding read_spool pass
  send_chunk n s = elim (read_spool (2 * length s.segments + 2) json (λ _. true) true s) [
    | none ↦ (s, [])
    | some (after, chunk) ↦ (pass (take n chunk) after, take n chunk)
  ]

  unfoldable pub call : Call → Spool → Spool × List Entry
  unfolding send_chunk write_entry
  call (write r) s = ((write_entry json true synced r s).0, [])
  call (fail left r) s = ((write_entry json true (broken left true) r s).0, [])
  call (send n) s = send_chunk n s

  -- What a call may do to a queue that may lose its oldest entries for a new one.
  abbrev pub QueueStep : Call → List Entry → List Entry → List Entry → Type 0
  QueueStep (write r) q sent after =
      (sent ≡ [])
      × (n : ℕ) × (position : ℕ) × (lost : List Entry) × (q ++ entry json n position r ∷ []
          ≡ lost ++ after)
  QueueStep (fail left r) q sent after = (sent ≡ []) × UnsentOr json r q after
  QueueStep (send n) q sent after =
      (q ≡ sent ++ after) × (length sent ≤ chunk_points) × (sent ≡ [] → (n ≡ 0) ⊎ (q ≡ []))

  abbrev pub points_of : List Entry → List Record
  points_of [] = []
  points_of (e ∷ es) = e.point ∷ points_of es

  Front-start :
      (s : Spool) (start later : List Entry) → Front json s (start ++ later) → Front json s start
  Front-start s start later f = record {
    segment = f.segment;
    others = f.others;
    offset = f.offset;
    more = later ++ f.more;
    segments_are = f.segments_are;
    pointer_is = f.pointer_is;
    items_are = f.items_are ∙ append_assoc start later f.more;
  }

  -- Passing a start of the chunk that was read takes it from the queue.
  pub pass_lem :
      (s after : Spool) (start later : List Entry)
      → HasRead json s after (start ++ later)
      → IsValid (pass start after)
        × (unsent json s ≡ start ++ unsent json (pass start after))
        × (start ≢ [] → same_place (pass start after).pointer after.pointer ≡ false)
  unfolding pass
  pass_lem s after [] later h = (h.valid, sym h.same, λ e. absurd (e refl))
  pass_lem s after (d ∷ done) later h =
      let front = Front-start after (d ∷ done) later (h.front (λ k. cc)) in
      let (n, o, e, valid, left, before, moves) = consume-Front json after d done h.valid front in
      rw (e, pass) (valid, sym h.same ∙ before ∙ ap (λ es. (d ∷ done) ++ es) (sym left), λ _. moves)

  length-take_le : (n : ℕ) (es : List Entry) → length (take n es) ≤ length es
  length-take_le zero es = omega arith
  length-take_le (suc n) [] = omega arith
  length-take_le (suc n) (e ∷ es) = let ih = length-take_le n es in omega (arith, ih)

  taken_none : (n : ℕ) (es : List Entry) → take n es ≡ [] → (n ≡ 0) ⊎ (es ≡ [])
  taken_none zero es h = inl refl
  taken_none (suc n) [] h = inr refl
  taken_none (suc n) (e ∷ es) h = cc

  send_chunk-Step :
      (n : ℕ) (s : Spool)
      → IsValid s
      → let (after, sent) = send_chunk n s in
        IsValid after × QueueStep (send n) (unsent json s) sent (unsent json after)
  unfolding send_chunk
  send_chunk-Step n s v =
      let (after, chunk, e, h) =
        read_spool-HasRead json (2 * length s.segments + 2) (λ _. true) true s (λ _. refl) v
          (omega arith) in
      let (valid, same, _) =
        pass_lem s after (take n chunk) (drop n chunk)
          (subst (HasRead json s after) (sym (take-append-drop n chunk)) h) in
      let fewer = length-take_le n chunk in
      let bounded = h.bounded in
      let empty =
        λ (z : take n chunk ≡ []). some_or (n ≡ 0) chunk (taken_none n chunk z) h.drained in
      rw (e, send_chunk) (valid, (same, omega (arith, fewer, bounded), empty))
    where
      some_or :
          (P : Type 0) (chunk : List Entry)
          → P ⊎ (chunk ≡ [])
          → (chunk ≡ [] → unsent json s ≡ [])
          → P ⊎ (unsent json s ≡ [])
      some_or P chunk (inl p) f = inl p
      some_or P chunk (inr e) f = inr (f e)

  -- On a valid spool, where segments can be created and read, every call is a step of the queue of what is
  -- unsent: a write that is synced adds one entry at the end and drops only oldest ones, a write that fails
  -- leaves the queue or adds the entry, and a send takes a start of a chunk from the front, nothing only
  -- where nothing was dealt with or unsent. The spool stays valid.
  pub call-QueueStep :
      (c : Call) (s : Spool)
      → IsValid s
      → let (after, sent) = call c s in
        IsValid after × QueueStep c (unsent json s) sent (unsent json after)
  unfolding call
  call-QueueStep (write r) s v =
      let (ok, valid, n, position, lost, same, _) = write_entry-Unsent json s r v in
      (valid, (refl, n, position, lost, same))
  call-QueueStep (fail left r) s v =
      let (ok, valid, outcome) = write_entry_broken json left s r v in (valid, (refl, outcome))
  call-QueueStep (send n) s v = send_chunk-Step n s v
