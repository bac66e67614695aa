-- ===== src/Writer/Spool/Broken.antt =====
-- A write to the append file of toinflux/writer.py that fails on the way.
use send_to_influx.Prelude.{
  ℕ, zero, suc, ◌+◌, ◌≤◌, ◌<◌, ◌≡◌, ◌≢◌, refl, sym, ap, ◌∙◌, subst, true, false, not, ◌||◌, Option,
  none, some, List, [], ◌∷◌, ◌++◌, append-nil, All, length, take, Bool-cases, inl, inr, ◌⊎◌, ◌==◌,
  leb, arith, Text,
}
use send_to_influx.Writer.Lines.{newline, is_whole, lines_of, ends_line}
use send_to_influx.Writer.Entry.{Record, Json, Entry, encoded, decode}
use send_to_influx.Writer.Spool.{
  Segment, Spool, with_bytes, size_of, start_segment, write_line, write_entry, abandon_segment,
  broken, segment_of, append_number, segment_bytes,
}
use send_to_influx.Writer.Spool.Unsent.{
  entry, items_of, unsent_at, unsent_from, unsent, items_of-encoded,
}
use send_to_influx.Writer.Spool.Valid.{
  Ascending, Measured, PointsInto, EndsWhole, IsValid, below_last,
}
use send_to_influx.Writer.Spool.Appended.{
  grown, with_bytes_last, size_of_last, Ascending-grown, Measured-grown, PointsInto-grown,
  unsent_at-grown,
}
use send_to_influx.Writer.Spool.Ready.{IsReady, start_segment-IsReady, valid-Ready}

abbrev HasNoNewline : Text → Type 0
HasNoNewline xs = All (λ c. (c == newline) ≡ false) xs

-- A line that is cut off is one line, and does not end in a newline.
lines_of_cut :
    (x : ℕ) (xs : Text)
    → HasNoNewline (x ∷ xs)
    → (lines_of (x ∷ xs) ≡ (x ∷ xs) ∷ []) × (ends_line (x ∷ xs) ≡ false)
unfolding lines_of ends_line
lines_of_cut x [] h = (rw h.0 refl, h.0)
lines_of_cut x (y ∷ xs) h =
    let (lines, unended) = lines_of_cut y xs h.1 in (rw (h.0, lines) refl, unended)

-- What is left of a line and its newline is all of it, or has no newline.
take_line :
    (left : ℕ) (xs : Text)
    → HasNoNewline xs
    → (take left (xs ++ newline ∷ []) ≡ xs ++ newline ∷ [])
      ⊎ HasNoNewline (take left (xs ++ newline ∷ []))
take_line zero xs h = inr tt
take_line (suc zero) [] h = inl refl
take_line (suc (suc left)) [] h = inl refl
take_line (suc left) (x ∷ xs) h = elim (take_line left xs h.1) [
  | inl e ↦ inl (ap (λ t. x ∷ t) e)
  | inr k ↦ inr (h.0, k)
]

module _ (json : Json) where
  items_of_cut : (n p : ℕ) (xs : Text) → HasNoNewline xs → items_of json n p (lines_of xs) ≡ []
  unfolding items_of decode
  items_of_cut n p [] h = unfold lines_of in refl
  items_of_cut n p (x ∷ xs) h =
      let (lines, unended) = lines_of_cut x xs h in rw lines (rw (unended, items_of) refl)

  -- The entries that a write that fails adds: none, or the one.
  items_of_left :
      (n p left : ℕ) (r : Record)
      → let added = items_of json n p (lines_of (take left (encoded json r))) in
        (added ≡ []) ⊎ ((position : ℕ) × (added ≡ entry json n position r ∷ []))
  unfolding encoded
  items_of_left n p left r = elim (take_line left (json.dumps r) (json.one_line r)) [
    | inl e ↦ inr (
      p + length (encoded json r),
      ap (λ t. items_of json n p (lines_of t)) e ∙ items_of-encoded json n p r,
    )
    | inr k ↦ inl (items_of_cut n p (take left (encoded json r)) k)
  ]

  -- What is unsent is as it was, or has the one point more.
  abbrev pub UnsentOr : Record → List Entry → List Entry → Type 0
  UnsentOr r old after =
      (after ≡ old) ⊎ ((n : ℕ) × (position : ℕ) × (after ≡ old ++ entry json n position r ∷ []))

  record Broke (r : Record) (old : List Entry) (n : ℕ) (p : Option (ℕ × ℕ)) (ss : List Segment)
      : Type 0 where
    outcome : UnsentOr r old (unsent_from json p ss)
    ascending : Ascending ss
    measured : Measured ss
    points : PointsInto p ss
    newest : All (λ s. s.number ≤ n) ss

  All-grown :
      (bytes : Text) (before : List Segment) (t : Segment)
      → All (λ s. s.number < t.number) before
      → All (λ s. s.number ≤ t.number) (before ++ grown bytes t ∷ [])
  All-grown bytes [] t h = (omega arith, tt)
  All-grown bytes (s ∷ before) t h = (omega (arith, h.0), All-grown bytes before t h.1)

  broken-Broke :
      (left p o : ℕ) (before : List Segment) (t : Segment) (r : Record)
      → Ascending (before ++ t ∷ [])
      → Measured (before ++ t ∷ [])
      → PointsInto (some (p, o)) (before ++ t ∷ [])
      → is_whole t.file ≡ true
      → let ss = before ++ t ∷ [] in
        let stays = take left (encoded json r) in
        Broke r
          (unsent_at json p o ss)
          t.number
          (some (p, o))
          (with_bytes t.number stays (size_of t.number ss + length stays) ss)
  broken-Broke left p o before t r a m h w =
      let stays = take left (encoded json r) in
      let old = unsent_at json p o (before ++ t ∷ []) in
      let below = below_last before t a in
      let same = unsent_at-grown json stays p o before t h w in
      let outcome : UnsentOr r old (unsent_at json p o (before ++ grown stays t ∷ [])) =
        elim (items_of_left t.number (length t.file) left r) [
          | inl e ↦ inl (same ∙ ap (λ es. old ++ es) e ∙ append-nil old)
          | inr (position, e) ↦ inr (t.number, position, same ∙ ap (λ es. old ++ es) e)
        ] in
      rw (size_of_last before t below, with_bytes_last stays before t below)
        (record {
          outcome = outcome;
          ascending = Ascending-grown stays before t a;
          measured = Measured-grown stays before t m;
          points = PointsInto-grown stays p o before t h;
          newest = All-grown stays before t below;
        })

  with_bytes-Broke :
      (left n : ℕ) (q : Option (ℕ × ℕ)) (ss : List Segment) (r : Record)
      → Ascending ss
      → Measured ss
      → PointsInto q ss
      → EndsWhole n ss
      → let stays = take left (encoded json r) in
        Broke r (unsent_from json q ss) n q (with_bytes n stays (size_of n ss + length stays) ss)
  with_bytes-Broke left n none ss r a m h w = absurd (never w.before (sym h ∙ w.split))
    where
      never : (us : List Segment) → [] ≢ us ++ w.last ∷ []
      never [] e = cc
      never (u ∷ us) e = cc
  with_bytes-Broke left n (some (p, o)) ss r a m h w =
      rw (w.split, sym w.numbered)
        (broken-Broke left p o w.before w.last r (subst Ascending w.split a)
          (subst Measured w.split m) (subst (PointsInto (some (p, o))) w.split h) w.whole)

  abandoned :
      (left : ℕ) (s : Spool) (r : Record) (old : List Entry)
      → IsReady json s
      → unsent json s ≡ old
      → let (after, ok) = write_line (broken left true) (encoded json r) s in
        (ok ≡ false) × IsValid after × UnsentOr r old (unsent json after)
  unfolding write_line abandon_segment
  abandoned left s r old k same =
      let number : segment_of s.append_segment ≡ k.number = ap segment_of k.appends in
      let b =
        with_bytes-Broke left k.number s.pointer s.segments r k.ascending k.measured k.points
          k.ends_whole in
      rw (number, sym same)
        (
          refl,
          record {
            ascending = b.ascending;
            measured = b.measured;
            points = b.points;
            appends = λ e. cc;
            newest = rw k.appends b.newest;
          },
          b.outcome,
        )

  -- A write that fails, on a valid spool where a segment can be created and the size of the file be read,
  -- leaves the spool valid, and what is unsent as it was or with the one point more; the caller is told.
  pub write_entry_broken :
      (left : ℕ) (s : Spool) (r : Record)
      → IsValid s
      → let (after, ok) = write_entry json true (broken left true) r s in
        (ok ≡ false) × IsValid after × UnsentOr r (unsent json s) (unsent json after)
  unfolding write_entry
  write_entry_broken left s r v =
      let starts = not s.is_open || leb segment_bytes (size_of (append_number s) s.segments) in
      let (ready, same, started, _, _) =
        start_segment-IsReady json s v.ascending v.measured v.points in
      elim (Bool-cases starts) [
        | inl e ↦ rw e (abandoned left (start_segment true s).0 r (unsent json s) ready same)
        | inr e ↦
            let opened : s.is_open ≡ true = ground (arith, e) in
            rw e (abandoned left s r (unsent json s) (valid-Ready json s v opened) refl)
      ]
