-- ===== src/Writer/Spool/Started.antt =====
-- A new segment, and the size bound, of the spool of toinflux/writer.py.
use send_to_influx.Prelude.{
  ℕ, ◌≤◌, ◌<◌, ◌≡◌, refl, sym, ap, ◌∙◌, true, false, Option, none, some, List, [], ◌∷◌, ◌++◌, All,
  append_assoc, Bool-cases, inl, inr, ◌==◌, ltb, if◌then◌else◌, arith,
}
use send_to_influx.Writer.Lines.{is_whole, lines_of}
use send_to_influx.Writer.Entry.{Json, Entry}
use send_to_influx.Writer.Spool.{
  Segment, has_segment, pointer_segment, kept_pointer, trimmed, all_sizes,
}
use send_to_influx.Writer.Spool.Unsent.{items_from, items_of, items_of_all, unsent_at, unsent_from}
use send_to_influx.Writer.Spool.Valid.{
  Ascending, Measured, PointsInto, EndsWhole, has_segment-below, All-below,
}

pub ==_self : (n : ℕ) → (n == n) ≡ true
==_self n = ground arith

abbrev pub fresh : ℕ → Segment
fresh n = record { number = n; size = 0; file = [] }

pub All-snoc :
    (P : Segment → Type 0) (ss : List Segment) (t : Segment) → All P ss → P t → All P (ss ++ t ∷ [])
All-snoc P [] t h k = (k, tt)
All-snoc P (s ∷ ss) t h k = (h.0, All-snoc P ss t h.1 k)

pub Ascending-fresh :
    (ss : List Segment) (n : ℕ)
    → Ascending ss
    → All (λ s. s.number < n) ss
    → Ascending (ss ++ fresh n ∷ [])
Ascending-fresh [] n h k = (tt, tt)
Ascending-fresh (s ∷ ss) n h k =
    (All-snoc (λ t. s.number < t.number) ss (fresh n) h.0 k.0, Ascending-fresh ss n h.1 k.1)

pub EndsWhole-fresh : (ss : List Segment) (n : ℕ) → EndsWhole n (ss ++ fresh n ∷ [])
unfolding is_whole
EndsWhole-fresh ss n = record {
  before = ss;
  last = fresh n;
  split = refl;
  numbered = refl;
  whole = refl;
}

module _ (json : Json) where
  items_of_all-fresh :
      (ss : List Segment) (n : ℕ) → items_of_all json (ss ++ fresh n ∷ []) ≡ items_of_all json ss
  unfolding items_of lines_of
  items_of_all-fresh [] n = refl
  items_of_all-fresh (s ∷ ss) n =
      ap (λ es. items_from json s.number 0 s.file ++ es) (items_of_all-fresh ss n)

  -- A new segment above all others leaves what is unsent, and a pointer that stands where it should.
  pub kept_pointer-Unsent :
      (p : Option (ℕ × ℕ)) (ss : List Segment) (n : ℕ)
      → PointsInto p ss
      → pointer_segment p < n
      → All (λ s. s.number < n) ss
      → Ascending ss
      → let kept = some (kept_pointer p (ss ++ fresh n ∷ [])) in
        PointsInto kept (ss ++ fresh n ∷ [])
        × (unsent_from json kept (ss ++ fresh n ∷ []) ≡ unsent_from json p ss)
  unfolding items_of lines_of has_segment
  kept_pointer-Unsent none [] n h b k a = ((omega arith, λ _. omega arith), rw (==_self n) refl)
  kept_pointer-Unsent none (s ∷ ss) n h b k a = cc
  kept_pointer-Unsent (some (p, o)) [] n h b k a =
      let other : (n == p) ≡ false = ground (arith, b) in
      rw other ((omega arith, λ _. omega arith), rw (==_self n) refl)
  kept_pointer-Unsent (some (p, o)) (s ∷ ss) n h b k a = elim (Bool-cases (s.number == p)) [
    | inl e ↦ rw e (
      h,
      ap (λ es. items_from json s.number (if p == s.number then o else 0) s.file ++ es)
          (items_of_all-fresh ss n),
    )
    | inr e ↦
        let below : p < s.number = ground (arith, h.0) in
        let other : (p == s.number) ≡ false = ground (arith, below) in
        let all_below =
          All-snoc (λ t. p < t.number) ss (fresh n) (All-below p s.number ss (omega arith) a.0) b in
        rw (e, has_segment-below p (ss ++ fresh n ∷ []) all_below)
          (
            (omega arith, λ _. omega arith),
            rw (==_self s.number, other)
                (ap (λ es. items_from json s.number 0 s.file ++ es) (items_of_all-fresh ss n)),
          )
  ]

  -- Dropping the oldest segments drops the oldest entries, and leaves a valid spool.
  pub trimmed-Unsent :
      (limit : ℕ) (p o : ℕ) (ss : List Segment)
      → PointsInto (some (p, o)) ss
      → Ascending ss
      → let (q, kept) = trimmed limit (some (p, o)) ss in
        (lost : List Entry) × (unsent_at json p o ss ≡ lost ++ unsent_from json q kept)
        × PointsInto q kept
        × Ascending kept
        × (all_sizes ss ≤ limit → lost ≡ [])
  unfolding trimmed
  trimmed-Unsent limit p o [] h a = ([], refl, tt, tt, λ _. refl)
  trimmed-Unsent limit p o (s ∷ []) h a = ([], refl, h, a, λ _. refl)
  trimmed-Unsent limit p o (s ∷ t ∷ ss) h a =
      elim (Bool-cases (ltb limit (all_sizes (s ∷ t ∷ ss)))) [
        | inr fits ↦ rw fits ([], refl, h, a, λ _. refl)
        | inl full ↦ rw full (elim (Bool-cases (p == s.number)) [
          | inl e ↦
              let (lost, same, points, up, _) =
                trimmed-Unsent limit t.number 0 (t ∷ ss) (omega arith, λ _. omega arith) a.1 in
              rw e (
                items_from json s.number o s.file ++ lost,
                ap (λ es. items_from json s.number o s.file ++ es)
                      (rw⁻¹ same (rw (==_self t.number) refl))
                    ∙ sym (append_assoc (items_from json s.number o s.file) lost _),
                points,
                up,
                λ (fits : all_sizes (s ∷ t ∷ ss) ≤ limit). absurd (ground (arith, full, fits)),
              )
          | inr e ↦
              let below : p < s.number = ground (arith, h.0) in
              let before : p < t.number = omega (arith, below, a.0.0) in
              let other : (p == t.number) ≡ false = ground (arith, before) in
              let (lost, same, points, up, _) =
                trimmed-Unsent limit p o (t ∷ ss) (omega arith, λ k. absurd (omega (arith, k)))
                  a.1 in
              rw e (
                items_from json s.number 0 s.file ++ lost,
                ap (λ es. items_from json s.number 0 s.file ++ es) (rw⁻¹ same (rw other refl))
                    ∙ sym (append_assoc (items_from json s.number 0 s.file) lost _),
                points,
                up,
                λ (fits : all_sizes (s ∷ t ∷ ss) ≤ limit). absurd (ground (arith, full, fits)),
              )
        ])
      ]

EndsWhole-tail :
    (n : ℕ) (s t : Segment) (ss : List Segment) → EndsWhole n (s ∷ t ∷ ss) → EndsWhole n (t ∷ ss)
EndsWhole-tail n s t ss w = from w.before w.last w.split w.numbered w.whole
  where
    from :
        (before : List Segment) (last : Segment)
        → (s ∷ t ∷ ss) ≡ before ++ last ∷ []
        → last.number ≡ n
        → is_whole last.file ≡ true
        → EndsWhole n (t ∷ ss)
    from [] last e numbered whole = cc
    from (b ∷ before) last e numbered whole = record {
      before = before;
      last = last;
      split = (ground (arith, e));
      numbered = numbered;
      whole = whole;
    }

-- What is kept has its sizes, and the same last segment.
pub trimmed-Measured :
    (limit n : ℕ) (p : Option (ℕ × ℕ)) (ss : List Segment)
    → Measured ss
    → EndsWhole n ss
    → let kept = (trimmed limit p ss).1 in Measured kept × EndsWhole n kept
unfolding trimmed
trimmed-Measured limit n p [] m w = (m, w)
trimmed-Measured limit n p (s ∷ []) m w = (m, w)
trimmed-Measured limit n p (s ∷ t ∷ ss) m w =
    let moved = if pointer_segment p == s.number then some (t.number, 0) else p in
    elim (Bool-cases (ltb limit (all_sizes (s ∷ t ∷ ss)))) [
      | inl full ↦ rw full (trimmed-Measured limit n moved (t ∷ ss) m.1 (EndsWhole-tail n s t ss w))
      | inr fits ↦ rw fits (m, w)
    ]
