-- ===== src/Writer/Spool/Ready.antt =====
-- A spool of toinflux/writer.py that is ready to be written to.
use send_to_influx.Prelude.{
  ℕ, ◌+◌, ◌≤◌, ◌<◌, ◌≡◌, refl, sym, subst, true, some, List, [], ◌∷◌, ◌++◌, All, max, length, arith,
}
use send_to_influx.Writer.Entry.{Json}
use send_to_influx.Writer.Spool.{Segment, Spool, highest, pointer_segment, all_sizes, start_segment}
use send_to_influx.Writer.Spool.Unsent.{unsent}
use send_to_influx.Writer.Spool.Valid.{
  Ascending, Measured, PointsInto, EndsWhole, IsValid, below_last, below_highest,
}
use send_to_influx.Writer.Spool.Started.{
  fresh, All-snoc, Ascending-fresh, EndsWhole-fresh, kept_pointer-Unsent,
}
use send_to_influx.Writer.Spool.Appended.{all_sizes-fresh}

module _ (json : Json) where
  -- A spool whose open segment is the last.
  pub record IsReady (s : Spool) : Type 0 where
    pub ascending : Ascending s.segments
    pub measured : Measured s.segments
    pub points : PointsInto s.pointer s.segments
    pub number : ℕ
    pub appends : s.append_segment ≡ some number
    pub ends_whole : EndsWhole number s.segments

  All-weaken :
      (m n : ℕ) (ss : List Segment)
      → m < n
      → All (λ s. s.number ≤ m) ss
      → All (λ s. s.number < n) ss
  All-weaken m n [] h all = tt
  All-weaken m n (s ∷ ss) h all = (omega (arith, all.0), All-weaken m n ss h all.1)

  -- A new segment is ready to be written to, and leaves what is unsent.
  pub start_segment-IsReady :
      (s : Spool)
      → Ascending s.segments
      → Measured s.segments
      → PointsInto s.pointer s.segments
      → let (started, ok) = start_segment true s in
        IsReady started
        × (unsent json started ≡ unsent json s)
        × (ok ≡ true)
        × (all_sizes started.segments ≡ all_sizes s.segments)
        × (started.limit_bytes ≡ s.limit_bytes)
  unfolding start_segment
  start_segment-IsReady s a m h =
      let n = 1 + max (highest s.segments) (max (pointer_segment s.pointer) s.stale_segment) in
      let all_below =
        All-weaken (highest s.segments) n s.segments (omega arith) (below_highest s.segments) in
      let (points, same) =
        kept_pointer-Unsent json s.pointer s.segments n h (omega arith) all_below a in
      (
        record {
          ascending = Ascending-fresh s.segments n a all_below;
          measured = All-snoc (λ t. t.size ≡ length t.file) s.segments (fresh n) m refl;
          points = points;
          number = n;
          appends = refl;
          ends_whole = EndsWhole-fresh s.segments n;
        },
        same,
        refl,
        all_sizes-fresh n s.segments,
        refl,
      )

  pub valid-Ready : (s : Spool) → IsValid s → s.is_open ≡ true → IsReady s
  valid-Ready s v opened =
      let (n, e, w) = v.appends opened in
      record {
        ascending = v.ascending;
        measured = v.measured;
        points = v.points;
        number = n;
        appends = e;
        ends_whole = w;
      }

  pub none_newer :
      (n : ℕ) (ss : List Segment) → Ascending ss → EndsWhole n ss → All (λ s. s.number ≤ n) ss
  none_newer n ss a w =
      rw (w.split, sym w.numbered)
        (up_to w.before (below_last w.before w.last (subst Ascending w.split a)))
    where
      up_to :
          (us : List Segment)
          → All (λ u. u.number < w.last.number) us
          → All (λ u. u.number ≤ w.last.number) (us ++ w.last ∷ [])
      up_to [] h = (omega arith, tt)
      up_to (u ∷ us) h = (omega (arith, h.0), up_to us h.1)
