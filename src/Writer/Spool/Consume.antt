-- ===== src/Writer/Spool/Consume.antt =====
-- Passing entries that were dealt with, as `_consume` of toinflux/writer.py does on the spool.
use send_to_influx.Prelude.{
  ℕ, ◌+◌, ◌≤◌, ◌≡◌, ◌≢◌, All, ◌<◌, [], refl, sym, ap, ◌∙◌, subst, Bool, false, not, ◌&&◌, Option,
  some, List, ◌∷◌, ◌++◌, append_assoc, length, length-append, Bool-cases, inl, inr, leb, arith,
  drop,
}
use send_to_influx.Writer.Lines.{lines_of}
use send_to_influx.Writer.Entry.{Json, Entry}
use send_to_influx.Writer.Spool.{
  Segment, Spool, has_segment, size_of, without, retire, is_segment, first_or, consume_to,
  same_place,
}
use send_to_influx.Writer.Spool.Unsent.{
  items_from, items_of_all, unsent, ends_at, items_from_end, ends_in_segment,
}
use send_to_influx.Writer.Spool.Valid.{IsValid, without-below}
use send_to_influx.Writer.Spool.Started.{==_self}
use send_to_influx.Writer.Spool.Fronts.{
  Front, items_from_past, spool, retired-IsValid, moved-IsValid, unsent_first,
}

module _ (json : Json) where
  module _ (append : Option ℕ) (opened disk locked : Bool) (stale limit : ℕ) where
    abbrev at : Option (ℕ × ℕ) → List Segment → Spool
    at p ss = spool json append opened disk locked stale limit p ss

    consume_front :
        (s : Segment) (q o : ℕ) (ss : List Segment) (more : List Entry)
        → IsValid (at (some (s.number, q)) (s ∷ ss))
        → items_from json s.number o s.file ≡ more
        → o ≤ length s.file
        → let after = consume_to s.number o (at (some (s.number, q)) (s ∷ ss)) in
          IsValid after × (unsent json after ≡ more ++ items_of_all json ss)
    unfolding consume_to retire has_segment size_of without
    consume_front s q o ss more v e inside =
        let valid = moved-IsValid json append opened disk locked stale limit s q o ss v inside in
        rw (==_self s.number)
          (elim (Bool-cases (leb s.size o && not (is_segment append s.number))) [
            | inr k ↦ rw k (valid, rw (==_self s.number) (ap (λ es. es ++ items_of_all json ss) e))
            | inl k ↦
                let other : is_segment append s.number ≡ false = ground (arith, k) in
                let past : length s.file ≤ o = ground (arith, k, v.measured.0) in
                let empty = sym e ∙ items_from_past json s.number o s.file past in
                rw (k, without-below s.number ss v.ascending.0)
                  (
                    retired-IsValid json append opened disk locked stale limit s o ss valid other,
                    unsent_first json append opened disk locked stale limit (s.number + 1) 0 ss
                        ∙ rw empty refl,
                  )
          ])

  longer : (es fs : List Entry) (e : Entry) → fs ≢ (e ∷ es) ++ fs
  longer es fs e h = absurd (omega (arith, ap length h, length-append es fs))

  module _ (append : Option ℕ) (opened disk locked : Bool) (stale limit : ℕ) where
    first_or_other :
        (p o n q : ℕ) (ss : List Segment)
        → p ≢ n
        → All (λ t. n < t.number) ss
        → same_place (some (first_or (p, o) ss)) (some (n, q)) ≡ false
    first_or_other p o n q [] h k = ground (arith, h)
    first_or_other p o n q (s ∷ ss) h k = ground (arith, k.0)

    moves_front :
        (s : Segment) (q o : ℕ) (ss : List Segment)
        → IsValid (spool json append opened disk locked stale limit (some (s.number, q)) (s ∷ ss))
        → o ≢ q
        → let before =
            spool json append opened disk locked stale limit (some (s.number, q)) (s ∷ ss) in
          same_place (consume_to s.number o before).pointer before.pointer ≡ false
    unfolding consume_to retire has_segment size_of without
    moves_front s q o ss v other =
        rw (==_self s.number)
          (elim (Bool-cases (leb s.size o && not (is_segment append s.number))) [
            | inr k ↦ rw k (ground (arith, other))
            | inl k ↦
                rw (k, without-below s.number ss v.ascending.0)
                  (first_or_other (s.number + 1) 0 s.number q ss (λ e. omega (arith, e))
                    v.ascending.0)
          ])

  Consumed : ℕ → ℕ → List Entry → Spool → Type 0
  Consumed n o left s =
      IsValid s → IsValid (consume_to n o s) × (unsent json (consume_to n o s) ≡ left)

  Moved : ℕ → ℕ → Spool → Type 0
  Moved n o s = IsValid s → same_place (consume_to n o s).pointer s.pointer ≡ false

  -- Entries at the front of the spool are passed: what is unsent is what follows them.
  pub consume-Front :
      (s : Spool) (d : Entry) (done : List Entry)
      → IsValid s
      → (f : Front json s (d ∷ done))
      → (n : ℕ) × (o : ℕ) × (ends_at json (d ∷ done) ≡ some (n, o))
        × IsValid (consume_to n o s)
        × (unsent json (consume_to n o s) ≡ f.more ++ items_of_all json f.others)
        × (unsent json s ≡ (d ∷ done) ++ (f.more ++ items_of_all json f.others))
        × (same_place (consume_to n o s).pointer s.pointer ≡ false)
  unfolding Consumed Moved
  consume-Front s d done v f =
      let n = f.segment.number in
      let here = lines_of (drop f.offset f.segment.file) in
      let left = items_of_all json f.others in
      let (o, e) = ends_in_segment json n f.offset here d done f.more f.items_are in
      let whole : s
          ≡ at s.append_segment s.is_open s.disk s.locked s.stale_segment s.limit_bytes
              (some (n, f.offset)) (f.segment ∷ f.others) =
        λ i. record s { segments = f.segments_are i; pointer = f.pointer_is i } in
      let inside = (subst IsValid whole v).points.1 refl in
      let (same, within) =
        items_from_end json n f.offset o f.segment.file here d done f.more refl inside f.items_are
          e in
      let (valid, after) =
        subst (Consumed n o (f.more ++ left)) (sym whole)
          (λ valid.
            consume_front s.append_segment s.is_open s.disk s.locked s.stale_segment s.limit_bytes
              f.segment f.offset o f.others f.more valid same within)
          v in
      let other : o ≢ f.offset = λ h.
        longer done f.more d
          (sym same ∙ ap (λ k. items_from json n k f.segment.file) h ∙ f.items_are) in
      let moves =
        subst (Moved n o) (sym whole)
          (λ valid.
            moves_front s.append_segment s.is_open s.disk s.locked s.stale_segment s.limit_bytes
              f.segment f.offset o f.others valid other)
          v in
      let before : unsent json s ≡ items_from json n f.offset f.segment.file ++ left =
        ap (unsent json) whole ∙ rw (==_self n) refl in
      (
        n,
        o,
        e,
        valid,
        after,
        before ∙ ap (λ es. es ++ left) f.items_are ∙ append_assoc (d ∷ done) f.more left,
        moves,
      )
