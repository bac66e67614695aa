-- ===== src/Writer/Spool/Write.antt =====
-- `_write_entry` of toinflux/writer.py, as a whole.
use send_to_influx.Prelude.{
  ℕ, ◌+◌, ◌≤◌, ◌≡◌, ◌≢◌, refl, sym, ap, ◌∙◌, subst, true, not, ◌||◌, Option, none, some, List, [],
  ◌∷◌, ◌++◌, length, Bool-cases, inl, inr, leb, arith,
}
use send_to_influx.Writer.Lines.{is_whole, ends_line, ends_line_line}
use send_to_influx.Writer.Entry.{Record, Json, Entry, encoded}
use send_to_influx.Writer.Spool.{
  Segment, Spool, with_bytes, size_of, trimmed, enforce_limit, all_sizes, start_segment, write_line,
  write_entry, synced, segment_of, append_number, segment_bytes,
}
use send_to_influx.Writer.Spool.Unsent.{entry, unsent_at, unsent_from, unsent, items_of-encoded}
use send_to_influx.Writer.Spool.Valid.{
  Ascending, Measured, PointsInto, EndsWhole, IsValid, NoneNewer, below_last,
}
use send_to_influx.Writer.Spool.Started.{trimmed-Unsent, trimmed-Measured}
use send_to_influx.Writer.Spool.Appended.{
  grown, with_bytes_last, size_of_last, Ascending-grown, Measured-grown, PointsInto-grown,
  unsent_at-grown, all_sizes-grown, is_whole-append,
}
use send_to_influx.Writer.Spool.Ready.{IsReady, start_segment-IsReady, valid-Ready, none_newer}

module _ (json : Json) where
  -- What a write leaves: the entries there were and the new one, less the oldest ones.
  pub record Wrote (r : Record) (old : List Entry) (n held limit : ℕ) (p : Option (ℕ × ℕ))
      (ss : List Segment) : Type 0 where
    pub lost : List Entry
    pub position : ℕ
    pub same : old ++ entry json n position r ∷ [] ≡ lost ++ unsent_from json p ss
    pub ascending : Ascending ss
    pub measured : Measured ss
    pub points : PointsInto p ss
    pub ends_whole : EndsWhole n ss
    pub fits : held + length (encoded json r) ≤ limit → lost ≡ []

  encoded-Whole : (r : Record) → ends_line (encoded json r) ≡ true
  unfolding encoded
  encoded-Whole r = ends_line_line (json.dumps r)

  write-Wrote :
      (limit p o : ℕ) (before : List Segment) (t : Segment) (r : Record)
      → Ascending (before ++ t ∷ [])
      → Measured (before ++ t ∷ [])
      → PointsInto (some (p, o)) (before ++ t ∷ [])
      → is_whole t.file ≡ true
      → let ss = before ++ t ∷ [] in
        let bytes = encoded json r in
        let (q, kept) =
          trimmed limit
            (some (p, o))
            (with_bytes t.number bytes (size_of t.number ss + length bytes) ss) in
        Wrote r (unsent_at json p o ss) t.number (all_sizes ss) limit q kept
  write-Wrote limit p o before t r a m h w =
      let bytes = encoded json r in
      let below = below_last before t a in
      let after = before ++ grown bytes t ∷ [] in
      let ends : EndsWhole t.number after = record {
        before = before;
        last = grown bytes t;
        split = refl;
        numbered = refl;
        whole = is_whole-append t.file bytes (encoded-Whole r);
      } in
      let points = PointsInto-grown bytes p o before t h in
      let (lost, same, into, up, nothing) =
        trimmed-Unsent json limit p o after points (Ascending-grown bytes before t a) in
      let (sizes, last) =
        trimmed-Measured limit t.number (some (p, o)) after (Measured-grown bytes before t m)
          ends in
      let added =
        unsent_at-grown json bytes p o before t h w
        ∙ ap (λ es. unsent_at json p o (before ++ t ∷ []) ++ es)
            (items_of-encoded json t.number (length t.file) r) in
      rw (size_of_last before t below, with_bytes_last bytes before t below)
        (record {
          lost = lost;
          position = length t.file + length bytes;
          same = sym added ∙ same;
          ascending = up;
          measured = sizes;
          points = into;
          ends_whole = last;
          fits = (λ (h : all_sizes (before ++ t ∷ []) + length bytes ≤ limit).
              nothing (omega (arith, h, all_sizes-grown bytes before t)));
        })

  trimmed-Wrote :
      (limit n : ℕ) (q : Option (ℕ × ℕ)) (ss : List Segment) (r : Record)
      → Ascending ss
      → Measured ss
      → PointsInto q ss
      → EndsWhole n ss
      → let bytes = encoded json r in
        let (moved, kept) = trimmed limit q (with_bytes n bytes (size_of n ss + length bytes) ss) in
        Wrote r (unsent_from json q ss) n (all_sizes ss) limit moved kept
  trimmed-Wrote limit n none ss r a m h w = absurd (never w.before (sym h ∙ w.split))
    where
      never : (us : List Segment) → [] ≢ us ++ w.last ∷ []
      never [] e = cc
      never (u ∷ us) e = cc
  trimmed-Wrote limit n (some (p, o)) ss r a m h w =
      rw (w.split, sym w.numbered)
        (write-Wrote limit p o w.before w.last r (subst Ascending w.split a)
          (subst Measured w.split m) (subst (PointsInto (some (p, o))) w.split h) w.whole)

  -- A spool after a write.
  pub record WrittenTo (r : Record) (s : Spool) (after : Spool) : Type 0 where
    pub number : ℕ
    pub wrote :
        Wrote r
          (unsent json s)
          number
          (all_sizes s.segments)
          s.limit_bytes
          after.pointer
          after.segments
    pub appends : after.append_segment ≡ some number

  write_line-Wrote :
      (s : Spool) (n : ℕ) (r : Record)
      → s.append_segment ≡ some n
      → EndsWhole n s.segments
      → Ascending s.segments
      → Measured s.segments
      → PointsInto s.pointer s.segments
      → let (after, ok) = write_line synced (encoded json r) s in WrittenTo r s after × (ok ≡ true)
  unfolding write_line enforce_limit
  write_line-Wrote s n r e w a m h =
      let number : segment_of s.append_segment ≡ n = ap segment_of e in
      (
        record {
          number = n;
          wrote = rw number (trimmed-Wrote s.limit_bytes n s.pointer s.segments r a m h w);
          appends = e;
        },
        refl,
      )

  write_line-Ready :
      (s : Spool) (r : Record) (old : List Entry) (held limit : ℕ)
      → IsReady json s
      → unsent json s ≡ old
      → all_sizes s.segments ≡ held
      → s.limit_bytes ≡ limit
      → let (after, ok) = write_line synced (encoded json r) s in
        (n : ℕ) × Wrote r old n held limit after.pointer after.segments
        × (after.append_segment ≡ some n)
        × (ok ≡ true)
  write_line-Ready s r old held limit k same sizes limits =
      let (w, ok) =
        write_line-Wrote s k.number r k.appends k.ends_whole k.ascending k.measured k.points in
      (w.number, rw⁻¹ (same, sizes, limits) w.wrote, w.appends, ok)

  write_entry-Wrote :
      (s : Spool) (r : Record)
      → IsValid s
      → let (after, ok) = write_entry json true synced r s in
        (n : ℕ) × Wrote r
          (unsent json s)
          n
          (all_sizes s.segments)
          s.limit_bytes
          after.pointer
          after.segments
        × (after.append_segment ≡ some n)
        × (ok ≡ true)
  unfolding write_entry
  write_entry-Wrote s r v =
      let starts = not s.is_open || leb segment_bytes (size_of (append_number s) s.segments) in
      let (ready, same, started, sizes, limits) =
        start_segment-IsReady json s v.ascending v.measured v.points in
      elim (Bool-cases starts) [
        | inl e ↦
            rw (e, started)
              (write_line-Ready (start_segment true s).0 r (unsent json s) (all_sizes s.segments)
                s.limit_bytes ready same sizes limits)
        | inr e ↦
            let opened : s.is_open ≡ true = ground (arith, e) in
            rw e (
              write_line-Ready s r (unsent json s) (all_sizes s.segments) s.limit_bytes
                (valid-Ready json s v opened) refl refl refl)
      ]

  IsValid-Wrote :
      (r : Record) (old : List Entry) (n held limit : ℕ) (after : Spool)
      → after.append_segment ≡ some n
      → Wrote r old n held limit after.pointer after.segments
      → IsValid after
  IsValid-Wrote r old n held limit after e w = record {
    ascending = w.ascending;
    measured = w.measured;
    points = w.points;
    appends = λ _. (n, e, w.ends_whole);
    newest =
        subst (λ a. NoneNewer a after.segments) (sym e)
          (none_newer json n after.segments w.ascending w.ends_whole);
  }

  -- A point that is written to a valid spool, where the file can be created and the write is synced,
  -- is the last unsent one; only the oldest may be gone for it, none where the sizes of the segments and
  -- the new line fit the limit; and the spool stays valid.
  pub write_entry-Unsent :
      (s : Spool) (r : Record)
      → IsValid s
      → let (after, ok) = write_entry json true synced r s in
        (ok ≡ true)
        × IsValid after
        × (n : ℕ) × (position : ℕ) × (lost : List Entry) × (unsent json s
              ++ entry json n position r ∷ []
            ≡ lost ++ unsent json after)
        × (all_sizes s.segments + length (encoded json r) ≤ s.limit_bytes → lost ≡ [])
  write_entry-Unsent s r v =
      let (n, w, e, ok) = write_entry-Wrote s r v in
      (
        ok,
        IsValid-Wrote r (unsent json s) n (all_sizes s.segments) s.limit_bytes _ e w,
        n,
        w.position,
        w.lost,
        w.same,
        w.fits,
      )
