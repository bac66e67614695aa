-- ===== src/Supervision/Beats.antt =====
-- The heartbeats in what a pipe holds, of `_read` of toinflux/supervision.py.
use send_to_influx.Prelude.{
  ℕ, ◌≡◌, refl, ap, ◌∙◌, Bool, false, List, [], ◌∷◌, ◌++◌, if◌then◌else◌, ◌==◌, Text, Bool-cases,
  inl, inr,
}

abbrev pub onto_first : ℕ → List Text × Text → List Text × Text
onto_first c ([], rest) = ([], c ∷ rest)
onto_first c (l ∷ ls, rest) = ((c ∷ l) ∷ ls, rest)

abbrev pub add_code : ℕ → List Text × Text → List Text × Text
add_code c (ls, rest) = if c == 10 then ([] ∷ ls, rest) else onto_first c (ls, rest)

-- `split("\n")` with the last part taken off: the complete lines, and what follows them.
unfoldable pub split_lines : Text → List Text × Text
split_lines [] = ([], [])
split_lines (c ∷ cs) = add_code c (split_lines cs)

-- The lines with more than white space.
unfoldable pub beats_in : (Text → Bool) → List Text → List Text
beats_in blank [] = []
beats_in blank (l ∷ ls) = let rest = beats_in blank ls in if blank l then rest else l ∷ rest

abbrev after_lines : List Text → List Text × Text → List Text × Text
after_lines ls (ms, rest) = (ls ++ ms, rest)

not_newline : (c : ℕ) (p : List Text × Text) → (c == 10) ≡ false → add_code c p ≡ onto_first c p
not_newline c (ls, rest) e = rw e refl

add_code-after_lines :
    (c : ℕ) (ys : Text) (p : List Text × Text)
    → add_code c (after_lines p.0 (split_lines (p.1 ++ ys)))
      ≡ after_lines (add_code c p).0 (split_lines ((add_code c p).1 ++ ys))
unfolding split_lines
add_code-after_lines c ys ([], rest) = elim (Bool-cases (c == 10)) [
  | inl e ↦ rw e refl
  | inr e ↦ rw e (rw e refl)
]
add_code-after_lines c ys (l ∷ ls, rest) = elim (Bool-cases (c == 10)) [
  | inl e ↦ rw e refl
  | inr e ↦ rw e refl
]

-- The text is read in two parts: what the first part leaves without its newline is read again
-- before the second part.
pub split_lines-append :
    (xs ys : Text)
    → split_lines (xs ++ ys)
      ≡ after_lines (split_lines xs).0 (split_lines ((split_lines xs).1 ++ ys))
unfolding split_lines
split_lines-append [] ys = refl
split_lines-append (c ∷ cs) ys =
    ap (add_code c) (split_lines-append cs ys) ∙ add_code-after_lines c ys (split_lines cs)

pub beats_in-append :
    (blank : Text → Bool) (ls ms : List Text)
    → beats_in blank (ls ++ ms) ≡ beats_in blank ls ++ beats_in blank ms
unfolding beats_in
beats_in-append blank [] ms = refl
beats_in-append blank (l ∷ ls) ms = elim (Bool-cases (blank l)) [
  | inl e ↦ rw e (beats_in-append blank ls ms)
  | inr e ↦ rw e (ap (λ r. l ∷ r) (beats_in-append blank ls ms))
]
