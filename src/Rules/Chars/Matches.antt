-- ===== src/Rules/Chars/Matches.antt =====
-- What the patterns of tokenise match: how long a match is, and of which characters.
use native.Mathlib.Nat.{zero-add, suc-add}
use native.Mathlib.Numerals.{add-one}
use send_to_influx.Prelude.{
  inl, inr, ℕ, zero, suc, ◌+◌, ◌≤◌, ◌≡◌, refl, Bool, true, [], ◌∷◌, ◌&&◌, ◌||◌, arith, ltb, ◌==◌,
  length, take, drop, all, length-drop, Text, Bool-cases,
}
use send_to_influx.Rules.Chars.{
  CharTable, run, is_name_start, is_name_char, name_length, number_length, fraction_length,
  exponent_length, sign_length,
}

module _ (p : ℕ → Bool) where
  run-le-length : (text : Text) → run p text ≤ length text
  unfolding run
  run-le-length [] = omega arith
  run-le-length (c ∷ cs) = ground (arith, run-le-length cs)

  all-take-run : (text : Text) → all p (take (run p text) text) ≡ true
  unfolding run
  all-take-run [] = refl
  all-take-run (c ∷ cs) = elim (Bool-cases (p c)) [
    | inl h ↦ rw (h, add-one) (rw (h, all-take-run cs))
    | inr h ↦ rw h
  ]

  all-take-add :
      (m n : ℕ) (text : Text)
      → all p (take m text) ≡ true
      → all p (take n (drop m text)) ≡ true
      → all p (take (m + n) text) ≡ true
  all-take-add zero n text h k = rw zero-add k
  all-take-add (suc m) zero [] h k = rw suc-add
  all-take-add (suc m) (suc n) [] h k = rw suc-add
  all-take-add (suc m) n (c ∷ cs) h k = rw suc-add (ground (arith, all-take-add m n cs))

  all_weaken :
      (q : ℕ → Bool) (text : Text)
      → ((c : ℕ) → p c ≡ true → q c ≡ true)
      → all p text ≡ true
      → all q text ≡ true
  all_weaken q [] w h = refl
  all_weaken q (c ∷ cs) w h = ground (arith, w c, all_weaken q cs w)

pub name_length-le-length : (text : Text) → name_length text ≤ length text
unfolding name_length is_name_char run
name_length-le-length [] = omega arith
name_length-le-length (c ∷ cs) = ground (arith, run-le-length is_name_char cs)

name_start_is_name_char : (c : ℕ) → is_name_start c ≡ true → is_name_char c ≡ true
unfolding is_name_char
name_start_is_name_char c h = ground arith

-- A name is a letter or `_`, and then letters, digits and `_`.
pub all-take-name_length : (text : Text) → all is_name_char (take (name_length text) text) ≡ true
unfolding name_length
all-take-name_length [] = refl
all-take-name_length (c ∷ cs) = elim (Bool-cases (is_name_start c)) [
  | inl h ↦
      rw (h, add-one) (ground (arith, name_start_is_name_char c h, all-take-run is_name_char cs))
  | inr h ↦ rw h
]

one-add : (n : ℕ) → 1 + n ≡ suc n
one-add n = omega arith

module _ (table : CharTable) where
  -- The characters that a number may hold.
  pub is_number_char : ℕ → Bool
  is_number_char c =
      table.is_digit c || (c == b'.' || (c == b'e' || (c == b'E' || (c == b'+' || c == b'-'))))

  digits_are_number_chars :
      (text : Text) → all is_number_char (take (run table.is_digit text) text) ≡ true
  unfolding is_number_char
  digits_are_number_chars text =
      all_weaken table.is_digit is_number_char (take (run table.is_digit text) text) (λ c h. rw h)
        (all-take-run table.is_digit text)

  fraction_length-le-length : (text : Text) → fraction_length table text ≤ length text
  unfolding fraction_length
  fraction_length-le-length [] = omega arith
  fraction_length-le-length (c ∷ cs) = ground (arith, run-le-length table.is_digit cs)

  fraction_starts :
      (c : ℕ) (cs : Text)
      → (c == b'.' && ltb 0 (run table.is_digit cs)) ≡ true
      → is_number_char c ≡ true
  unfolding is_number_char
  fraction_starts c cs h = ground arith

  all-take-fraction_length :
      (text : Text) → all is_number_char (take (fraction_length table text) text) ≡ true
  unfolding fraction_length
  all-take-fraction_length [] = refl
  all-take-fraction_length (c ∷ cs) =
      elim (Bool-cases (c == b'.' && ltb 0 (run table.is_digit cs))) [
        | inl h ↦
            rw (h, add-one) (ground (arith, fraction_starts c cs h, digits_are_number_chars cs))
        | inr h ↦ rw h
      ]

  sign_length-le-length : (text : Text) → sign_length table text ≤ length text
  unfolding sign_length
  sign_length-le-length [] = omega arith
  sign_length-le-length (c ∷ cs) = ground arith

  all-take-sign_length :
      (text : Text) → all is_number_char (take (sign_length table text) text) ≡ true
  unfolding sign_length is_number_char
  all-take-sign_length [] = refl
  all-take-sign_length (c ∷ cs) = ground arith

  exponent_length-le-length : (text : Text) → exponent_length table text ≤ length text
  unfolding exponent_length
  exponent_length-le-length [] = omega arith
  exponent_length-le-length (c ∷ cs) =
      let sign = sign_length table cs in
      ground (
        arith,
        sign_length-le-length cs,
        run-le-length table.is_digit (drop sign cs),
        length-drop sign cs,
      )

  pub number_length-le-length : (text : Text) → number_length table text ≤ length text
  unfolding number_length
  number_length-le-length text =
      let whole = run table.is_digit text in
      let fraction = fraction_length table (drop whole text) in
      ground (
        arith,
        run-le-length table.is_digit text,
        fraction_length-le-length (drop whole text),
        exponent_length-le-length (drop (whole + fraction) text),
        length-drop whole text,
        length-drop (whole + fraction) text,
      )

  exponent_starts :
      (c : ℕ) (digits : ℕ)
      → ((c == b'e' || c == b'E') && ltb 0 digits) ≡ true
      → is_number_char c ≡ true
  unfolding is_number_char
  exponent_starts c digits h = ground arith

  all-take-exponent_length :
      (text : Text) → all is_number_char (take (exponent_length table text) text) ≡ true
  unfolding exponent_length
  all-take-exponent_length [] = refl
  all-take-exponent_length (c ∷ cs) =
      let sign = sign_length table cs in
      let digits = run table.is_digit (drop sign cs) in
      elim (Bool-cases ((c == b'e' || c == b'E') && ltb 0 digits)) [
        | inl h ↦ rw h (
            all-take-add is_number_char (1 + sign) digits (c ∷ cs)
              (rw one-add (ground (arith, exponent_starts c digits h, all-take-sign_length cs)))
              (rw one-add (digits_are_number_chars (drop sign cs))))
        | inr h ↦ rw h
      ]

  -- Every character of a number is a digit, `.`, `e`, `E`, `+` or `-`.
  pub all-take-number_length :
      (text : Text) → all is_number_char (take (number_length table text) text) ≡ true
  unfolding number_length
  all-take-number_length text =
      let whole = run table.is_digit text in
      let fraction = fraction_length table (drop whole text) in
      let exponent = exponent_length table (drop (whole + fraction) text) in
      elim (Bool-cases (whole == 0)) [
        | inl h ↦ rw h
        | inr h ↦ rw h (
            all-take-add is_number_char (whole + fraction) exponent text
              (all-take-add is_number_char whole fraction text (digits_are_number_chars text)
                (all-take-fraction_length (drop whole text)))
              (all-take-exponent_length (drop (whole + fraction) text)))
      ]
