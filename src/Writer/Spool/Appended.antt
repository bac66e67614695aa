-- ===== src/Writer/Spool/Appended.antt =====
-- What a write of toinflux/writer.py adds to the spool.
use send_to_influx.Prelude.{
  ℕ, ◌+◌, ◌≤◌, ◌<◌, ◌≡◌, refl, sym, ap, ◌∙◌, true, false, some, List, [], ◌∷◌, ◌++◌, All, length,
  length-append, append_assoc, append-nil, Bool-cases, inl, inr, ◌==◌, if◌then◌else◌, arith, Text,
}
use send_to_influx.Writer.Lines.{is_whole, ends_line, lines_of}
use send_to_influx.Writer.Entry.{Json}
use send_to_influx.Writer.Spool.{Segment, with_bytes, size_of, all_sizes}
use send_to_influx.Writer.Spool.Unsent.{
  items_from, items_of, items_of_all, unsent_at, items_from-append,
}
use send_to_influx.Writer.Spool.Valid.{Ascending, Measured, PointsInto}
use send_to_influx.Writer.Spool.Started.{fresh, ==_self}

pub is_whole-append : (xs ys : Text) → ends_line ys ≡ true → is_whole (xs ++ ys) ≡ true
unfolding is_whole ends_line
is_whole-append [] [] h = cc
is_whole-append [] (y ∷ ys) h = h
is_whole-append (x ∷ []) [] h = cc
is_whole-append (x ∷ []) (y ∷ ys) h = h
is_whole-append (x ∷ z ∷ xs) ys h = is_whole-append (z ∷ xs) ys h

-- A segment whose file has grown.
abbrev pub grown : Text → Segment → Segment
grown bytes t = record { number = t.number; size = t.size + length bytes; file = t.file ++ bytes }

pub with_bytes_last :
    (bytes : Text) (ss : List Segment) (t : Segment)
    → All (λ s. s.number < t.number) ss
    → with_bytes t.number bytes (t.size + length bytes) (ss ++ t ∷ []) ≡ ss ++ grown bytes t ∷ []
unfolding with_bytes
with_bytes_last bytes [] t h = rw (==_self t.number) refl
with_bytes_last bytes (s ∷ ss) t h =
    let other : (s.number == t.number) ≡ false = ground (arith, h.0) in
    rw other (ap (λ us. s ∷ us) (with_bytes_last bytes ss t h.1))

pub size_of_last :
    (ss : List Segment) (t : Segment)
    → All (λ s. s.number < t.number) ss
    → size_of t.number (ss ++ t ∷ []) ≡ t.size
unfolding size_of
size_of_last [] t h = rw (==_self t.number) refl
size_of_last (s ∷ ss) t h =
    let other : (s.number == t.number) ≡ false = ground (arith, h.0) in
    rw other (size_of_last ss t h.1)

pub Ascending-grown :
    (bytes : Text) (ss : List Segment) (t : Segment)
    → Ascending (ss ++ t ∷ [])
    → Ascending (ss ++ grown bytes t ∷ [])
Ascending-grown bytes [] t a = a
Ascending-grown bytes (s ∷ ss) t a = (above ss a.0, Ascending-grown bytes ss t a.1)
  where
    above :
        (us : List Segment)
        → All (λ u. s.number < u.number) (us ++ t ∷ [])
        → All (λ u. s.number < u.number) (us ++ grown bytes t ∷ [])
    above [] h = h
    above (u ∷ us) h = (h.0, above us h.1)

pub Measured-grown :
    (bytes : Text) (ss : List Segment) (t : Segment)
    → Measured (ss ++ t ∷ [])
    → Measured (ss ++ grown bytes t ∷ [])
Measured-grown bytes [] t m = (omega (arith, m.0, length-append t.file bytes), tt)
Measured-grown bytes (s ∷ ss) t m = (m.0, Measured-grown bytes ss t m.1)

pub PointsInto-grown :
    (bytes : Text) (p o : ℕ) (ss : List Segment) (t : Segment)
    → PointsInto (some (p, o)) (ss ++ t ∷ [])
    → PointsInto (some (p, o)) (ss ++ grown bytes t ∷ [])
PointsInto-grown bytes p o [] t h = (h.0, λ e. omega (arith, h.1 e, length-append t.file bytes))
PointsInto-grown bytes p o (s ∷ ss) t h = h

pub all_sizes-grown :
    (bytes : Text) (ss : List Segment) (t : Segment)
    → all_sizes (ss ++ grown bytes t ∷ []) ≡ all_sizes (ss ++ t ∷ []) + length bytes
unfolding all_sizes
all_sizes-grown bytes [] t = omega arith
all_sizes-grown bytes (s ∷ ss) t = omega (arith, all_sizes-grown bytes ss t)

pub all_sizes-fresh : (n : ℕ) (ss : List Segment) → all_sizes (ss ++ fresh n ∷ []) ≡ all_sizes ss
unfolding all_sizes
all_sizes-fresh n [] = refl
all_sizes-fresh n (s ∷ ss) = ap (λ k. s.size + k) (all_sizes-fresh n ss)

module _ (json : Json) (bytes : Text) where
  items_of_all-grown :
      (ss : List Segment) (t : Segment)
      → is_whole t.file ≡ true
      → items_of_all json (ss ++ grown bytes t ∷ [])
        ≡ items_of_all json (ss ++ t ∷ [])
          ++ items_of json t.number (length t.file) (lines_of bytes)
  items_of_all-grown [] t w =
      let new = items_of json t.number (length t.file) (lines_of bytes) in
      ap (λ es. es ++ []) (items_from-append json t.number 0 t.file bytes (omega arith) w)
      ∙ append-nil _
      ∙ ap (λ es. es ++ new) (sym (append-nil _))
  items_of_all-grown (s ∷ ss) t w =
      ap (λ es. items_from json s.number 0 s.file ++ es) (items_of_all-grown ss t w)
      ∙ sym (append_assoc (items_from json s.number 0 s.file) _ _)

  pub unsent_at-grown :
      (p o : ℕ) (ss : List Segment) (t : Segment)
      → PointsInto (some (p, o)) (ss ++ t ∷ [])
      → is_whole t.file ≡ true
      → unsent_at json p o (ss ++ grown bytes t ∷ [])
        ≡ unsent_at json p o (ss ++ t ∷ [])
          ++ items_of json t.number (length t.file) (lines_of bytes)
  unsent_at-grown p o [] t h w =
      let new = items_of json t.number (length t.file) (lines_of bytes) in
      let inside : (if p == t.number then o else 0) ≤ length t.file =
        elim (Bool-cases (p == t.number)) [
          | inl e ↦ rw e (h.1 (ground (arith, e)))
          | inr e ↦ rw e (omega arith)
        ] in
      ap (λ es. es ++ [])
        (items_from-append json t.number (if p == t.number then o else 0) t.file bytes inside w)
      ∙ append-nil _
      ∙ ap (λ es. es ++ new) (sym (append-nil _))
  unsent_at-grown p o (s ∷ ss) t h w =
      let here = items_from json s.number (if p == s.number then o else 0) s.file in
      ap (λ es. here ++ es) (items_of_all-grown ss t w) ∙ sym (append_assoc here _ _)
