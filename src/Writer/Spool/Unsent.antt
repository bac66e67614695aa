-- ===== src/Writer/Spool/Unsent.antt =====
-- What the spool of toinflux/writer.py still has to send, as a queue of entries.
use send_to_influx.Prelude.{
  ℕ, zero, suc, ◌+◌, ◌-◌, ◌≤◌, ◌≡◌, refl, ap, sym, ◌∙◌, Bool, true, false, Option, none, some, List,
  [], ◌∷◌, ◌++◌, length, take, drop, length-drop, Option-cases, inl, inr, ◌==◌, if◌then◌else◌,
  arith, Text,
}
use send_to_influx.Writer.Lines.{
  lines_of, lines_of-append, lines_of-drop, lines_of_line, ends_line_line, is_whole, is_whole-drop,
  total, total-lines_of, drop-append, drop-drop,
}
use send_to_influx.Writer.Entry.{Record, Json, Entry, encoded, decode}
use send_to_influx.Writer.Spool.{Segment, Spool, read_lines}

cons-injective : {A : Type 0} {a b : A} {xs ys : List A} → (a ∷ xs) ≡ (b ∷ ys) → (a ≡ b) × (xs ≡ ys)
cons-injective e = ground (arith, e)

module _ (json : Json) where
  abbrev pub entry : ℕ → ℕ → Record → Entry
  entry n after r = record { point = r; live = false; end = some (n, after); id = after }

  -- The entries of lines that begin at a position of a segment.
  unfoldable pub items_of : ℕ → ℕ → List Text → List Entry
  items_of n position [] = []
  items_of n position (raw ∷ rest) =
      let after = position + length raw in
      elim (decode json raw) [
        | none ↦ items_of n after rest
        | some r ↦ entry n after r ∷ items_of n after rest
      ]

  -- The entries of a file from an offset on.
  abbrev pub items_from : ℕ → ℕ → Text → List Entry
  items_from n offset file = items_of n offset (lines_of (drop offset file))

  abbrev pub items_of_all : List Segment → List Entry
  items_of_all [] = []
  items_of_all (s ∷ ss) = items_from s.number 0 s.file ++ items_of_all ss

  abbrev pub unsent_at : ℕ → ℕ → List Segment → List Entry
  unsent_at p o [] = []
  unsent_at p o (s ∷ ss) =
      items_from s.number (if p == s.number then o else 0) s.file ++ items_of_all ss

  -- The entries that are still to be sent, oldest first.
  abbrev pub unsent_from : Option (ℕ × ℕ) → List Segment → List Entry
  unsent_from none ss = []
  unsent_from (some (p, o)) ss = unsent_at p o ss

  abbrev pub unsent : Spool → List Entry
  unsent s = unsent_from s.pointer s.segments

  items_of-append :
      (n p : ℕ) (ls ms : List Text)
      → items_of n p (ls ++ ms) ≡ items_of n p ls ++ items_of n (p + total ls) ms
  unfolding items_of total
  items_of-append n p [] ms = let same : p ≡ p + 0 = omega arith in ap (λ q. items_of n q ms) same
  items_of-append n p (l ∷ ls) ms =
      let same : p + length l + total ls ≡ p + (length l + total ls) = omega arith in
      let ih =
        items_of-append n (p + length l) ls ms
        ∙ ap (λ q. items_of n (p + length l) ls ++ items_of n q ms) same in
      elim (Option-cases (decode json l)) [
        | inl e ↦ rw (e, items_of) ih
        | inr (r, e) ↦ rw (e, items_of) (ap (λ es. entry n (p + length l) r ∷ es) ih)
      ]

  -- Bytes at the end of a whole file leave its entries and add their own.
  pub items_from-append :
      (n o : ℕ) (file bytes : Text)
      → o ≤ length file
      → is_whole file ≡ true
      → items_from n o (file ++ bytes)
        ≡ items_from n o file ++ items_of n (length file) (lines_of bytes)
  items_from-append n o file bytes h w =
      let rest = drop o file in
      let end : o + total (lines_of rest) ≡ length file =
        omega (arith, total-lines_of rest, length-drop o file) in
      ap (λ t. items_of n o (lines_of t)) (drop-append o file bytes h)
      ∙ ap (items_of n o) (lines_of-append rest bytes (is_whole-drop o file w))
      ∙ items_of-append n o (lines_of rest) (lines_of bytes)
      ∙ ap (λ q. items_of n o (lines_of rest) ++ items_of n q (lines_of bytes)) end

  pub items_of-encoded :
      (n p : ℕ) (r : Record)
      → items_of n p (lines_of (encoded json r)) ≡ entry n (p + length (encoded json r)) r ∷ []
  unfolding items_of encoded decode
  items_of-encoded n p r =
      let line = json.dumps r in
      rw (lines_of_line line (json.one_line r))
        (rw (ends_line_line line, items_of) (rw (json.loads-dumps r, items_of) refl))

  read_lines_started :
      (room n p q : ℕ) (ls : List Text) → (read_lines json room ls n p true q).1 ≡ q
  unfolding read_lines
  read_lines_started room n p q [] = refl
  read_lines_started zero n p q (l ∷ ls) = refl
  read_lines_started (suc room) n p q (l ∷ ls) = elim (Option-cases (decode json l)) [
    | inl e ↦ rw (e, read_lines) (read_lines_started (suc room) n (p + length l) q ls)
    | inr (r, e) ↦ rw (e, read_lines) (read_lines_started room n (p + length l) q ls)
  ]

  -- The loop of a read takes the first entries.
  pub read_lines-take :
      (room n p q : ℕ) (started : Bool) (ls : List Text)
      → (read_lines json room ls n p started q).0 ≡ take room (items_of n p ls)
  unfolding read_lines items_of
  read_lines-take zero n p q started [] = refl
  read_lines-take (suc room) n p q started [] = refl
  read_lines-take zero n p q started (l ∷ ls) = refl
  read_lines-take (suc room) n p q started (l ∷ ls) = elim (Option-cases (decode json l)) [
    | inl e ↦
        rw (e, read_lines, items_of)
          (read_lines-take (suc room) n (p + length l) (if started then q else p + length l) started
            ls)
    | inr (r, e) ↦
        rw (e, read_lines, items_of)
          (ap (λ es. entry n (p + length l) r ∷ es)
            (read_lines-take room n (p + length l) q true ls))
  ]

  -- Where a read leaves the pointer, the file has the same entries as where it began.
  pub record Skipped (n p : ℕ) (file : Text) (moved : ℕ) : Type 0 where
    pub same_items : items_from n moved file ≡ items_from n p file
    pub inside : moved ≤ length file

  line_inside :
      (p : ℕ) (file l : Text) (ls : List Text)
      → total (l ∷ ls) ≡ length file - p
      → p ≤ length file
      → p + length l ≤ length file
  unfolding total
  line_inside p file l ls e h = omega (arith, e)

  items_skip :
      (n p : ℕ) (l : Text) (ls : List Text) (file : Text)
      → lines_of (drop p file) ≡ l ∷ ls
      → lines_of (drop (p + length l) file) ≡ ls
      → decode json l ≡ none
      → items_from n (p + length l) file ≡ items_from n p file
  unfolding items_of
  items_skip n p l ls file e on k = rw (e, on) (rw (k, items_of) refl)

  -- Reading a line goes on to the next.
  pub next_line :
      (p : ℕ) (file l : Text) (ls : List Text)
      → lines_of (drop p file) ≡ l ∷ ls
      → p ≤ length file
      → (lines_of (drop (p + length l) file) ≡ ls) × (p + length l ≤ length file)
  next_line p file l ls e h =
      let counted : total (l ∷ ls) ≡ length file - p =
        ap total (sym e) ∙ total-lines_of (drop p file) ∙ length-drop p file in
      (
        ap lines_of (sym (drop-drop p (length l) file)) ∙ lines_of-drop (drop p file) l ls e,
        line_inside p file l ls counted h,
      )

  pub read_lines-Skipped :
      (room n p : ℕ) (file : Text) (ls : List Text)
      → lines_of (drop p file) ≡ ls
      → p ≤ length file
      → Skipped n p file (read_lines json (suc room) ls n p false p).1
  unfolding read_lines
  read_lines-Skipped room n p file [] e h = record { same_items = refl; inside = h }
  read_lines-Skipped room n p file (l ∷ ls) e h =
      let (on, inside) = next_line p file l ls e h in
      elim (Option-cases (decode json l)) [
        | inl k ↦
            let ih = read_lines-Skipped room n (p + length l) file ls on inside in
            rw (k, read_lines)
              (record {
                same_items = ih.same_items ∙ items_skip n p l ls file e on k;
                inside = ih.inside;
              })
        | inr (r, k) ↦
            rw (k, read_lines)
              (rw (read_lines_started room n (p + length l) p ls)
                (record { same_items = refl; inside = h }))
      ]

  -- Where the last of some entries ends.
  abbrev pub ends_at : List Entry → Option (ℕ × ℕ)
  ends_at [] = none
  ends_at (e ∷ []) = e.end
  ends_at (e ∷ f ∷ es) = ends_at (f ∷ es)

  -- From the end of one of its entries on, a file has the entries that follow it.
  pub items_from_end :
      (n p o : ℕ) (file : Text) (ls : List Text) (d : Entry) (done rest : List Entry)
      → lines_of (drop p file) ≡ ls
      → p ≤ length file
      → items_of n p ls ≡ (d ∷ done) ++ rest
      → ends_at (d ∷ done) ≡ some (n, o)
      → (items_from n o file ≡ rest) × (o ≤ length file)
  unfolding items_of
  items_from_end n p o file [] d done rest e h i k = cc
  items_from_end n p o file (l ∷ ls) d [] rest e h i k =
      let (on, inside) = next_line p file l ls e h in
      elim (Option-cases (decode json l)) [
        | inl x ↦
            items_from_end n (p + length l) o file ls d [] rest on inside (rw (x, items_of) at i) k
        | inr (r, x) ↦
            let (same, after) = cons-injective (rw (x, items_of) at i) in
            let end : o ≡ p + length l = ground (arith, k, ap (λ (a : Entry). a.end) same) in
            rw end (ap (items_of n (p + length l)) on ∙ after, inside)
      ]
  items_from_end n p o file (l ∷ ls) d (f ∷ done) rest e h i k =
      let (on, inside) = next_line p file l ls e h in
      elim (Option-cases (decode json l)) [
        | inl x ↦
            items_from_end n (p + length l) o file ls d (f ∷ done) rest on inside
              (rw (x, items_of) at i) k
        | inr (r, x) ↦
            items_from_end n (p + length l) o file ls f done rest on inside
              (cons-injective (rw (x, items_of) at i)).1 k
      ]

  -- Entries of a segment end in it.
  pub ends_in_segment :
      (n p : ℕ) (ls : List Text) (d : Entry) (done rest : List Entry)
      → items_of n p ls ≡ (d ∷ done) ++ rest
      → (o : ℕ) × (ends_at (d ∷ done) ≡ some (n, o))
  unfolding items_of
  ends_in_segment n p [] d done rest i = cc
  ends_in_segment n p (l ∷ ls) d [] rest i = elim (Option-cases (decode json l)) [
    | inl x ↦ ends_in_segment n (p + length l) ls d [] rest (rw (x, items_of) at i)
    | inr (r, x) ↦
        let (same, after) = cons-injective (rw (x, items_of) at i) in
        (p + length l, sym (ap (λ (a : Entry). a.end) same))
  ]
  ends_in_segment n p (l ∷ ls) d (f ∷ done) rest i = elim (Option-cases (decode json l)) [
    | inl x ↦ ends_in_segment n (p + length l) ls d (f ∷ done) rest (rw (x, items_of) at i)
    | inr (r, x) ↦
        ends_in_segment n (p + length l) ls f done rest (cons-injective (rw (x, items_of) at i)).1
  ]
