-- ===== src/Writer/Lines.antt =====
-- A file read line by line, as `readline` does, for the spool of toinflux/writer.py.
use send_to_influx.Prelude.{
  ℕ, zero, suc, ◌+◌, ◌≤◌, ◌≡◌, refl, ap, sym, ◌∙◌, Bool, true, false, List, [], ◌∷◌, ◌++◌, All,
  length, drop, Bool-cases, inl, inr, ◌==◌, if◌then◌else◌, arith, Text,
}

abbrev pub newline : ℕ
newline = 10

abbrev onto_line : ℕ → List Text → List Text
onto_line c [] = (c ∷ []) ∷ []
onto_line c (l ∷ ls) = (c ∷ l) ∷ ls

abbrev add_char : ℕ → List Text → List Text
add_char c rest = if c == newline then (c ∷ []) ∷ rest else onto_line c rest

-- The lines of a file, each with its newline; the last may have none.
unfoldable pub lines_of : Text → List Text
lines_of [] = []
lines_of (c ∷ cs) = add_char c (lines_of cs)

-- `raw.endswith(b"\n")`
unfoldable pub ends_line : Text → Bool
ends_line [] = false
ends_line (c ∷ []) = c == newline
ends_line (c ∷ d ∷ cs) = ends_line (d ∷ cs)

-- A file whose last line is not cut off.
unfoldable pub is_whole : Text → Bool
is_whole [] = true
is_whole (c ∷ cs) = ends_line (c ∷ cs)

-- The length of lines in bytes.
unfoldable pub total : List Text → ℕ
total [] = 0
total (l ∷ ls) = length l + total ls

pub drop-append : (n : ℕ) (xs ys : Text) → n ≤ length xs → drop n (xs ++ ys) ≡ drop n xs ++ ys
drop-append zero xs ys h = refl
drop-append (suc n) [] ys h = absurd (omega arith)
drop-append (suc n) (x ∷ xs) ys h = drop-append n xs ys (omega arith)

drop-nil : (n : ℕ) → drop {A = ℕ} n [] ≡ []
drop-nil zero = refl
drop-nil (suc n) = refl

pub drop-drop : (m n : ℕ) (xs : Text) → drop n (drop m xs) ≡ drop (m + n) xs
drop-drop zero n xs = let same : n ≡ 0 + n = omega arith in ap (λ k. drop k xs) same
drop-drop (suc m) n [] = drop-nil n ∙ sym (drop-nil (suc m + n))
drop-drop (suc m) n (x ∷ xs) =
    let same : suc (m + n) ≡ suc m + n = omega arith in
    drop-drop m n xs ∙ ap (λ k. drop k (x ∷ xs)) same

pub drop_all : (n : ℕ) (xs : Text) → length xs ≤ n → drop n xs ≡ []
drop_all zero [] h = refl
drop_all zero (x ∷ xs) h = absurd (omega arith)
drop_all (suc n) [] h = refl
drop_all (suc n) (x ∷ xs) h = drop_all n xs (omega arith)

pub is_whole-drop : (n : ℕ) (xs : Text) → is_whole xs ≡ true → is_whole (drop n xs) ≡ true
unfolding is_whole ends_line
is_whole-drop zero xs h = h
is_whole-drop (suc n) [] h = refl
is_whole-drop (suc n) (x ∷ []) h = is_whole-drop n [] refl
is_whole-drop (suc n) (x ∷ y ∷ xs) h = is_whole-drop n (y ∷ xs) h

lines_of-cons : (c : ℕ) (cs : Text) → lines_of (c ∷ cs) ≡ add_char c (lines_of cs)
unfolding lines_of
lines_of-cons c cs = refl

add_char-append :
    (c : ℕ) (l : Text) (ls m : List Text) → add_char c ((l ∷ ls) ++ m) ≡ add_char c (l ∷ ls) ++ m
add_char-append c l ls m = elim (Bool-cases (c == newline)) [
  | inl k ↦ rw k refl
  | inr k ↦ rw k refl
]

add_char_first :
    (c : ℕ) (rest : List Text) → (l : Text) × (ls : List Text) × (add_char c rest ≡ l ∷ ls)
add_char_first c [] = elim (Bool-cases (c == newline)) [
  | inl k ↦ (c ∷ [], [], rw k refl)
  | inr k ↦ (c ∷ [], [], rw k refl)
]
add_char_first c (l ∷ ls) = elim (Bool-cases (c == newline)) [
  | inl k ↦ (c ∷ [], l ∷ ls, rw k refl)
  | inr k ↦ (c ∷ l, ls, rw k refl)
]

-- What stands after a whole file does not change its lines.
pub lines_of-append :
    (xs ys : Text) → is_whole xs ≡ true → lines_of (xs ++ ys) ≡ lines_of xs ++ lines_of ys
unfolding is_whole ends_line
lines_of-append [] ys h = unfold lines_of in refl
lines_of-append (x ∷ []) ys h =
    lines_of-cons x ys ∙ rw (lines_of-cons x []) (rw h (unfold lines_of in refl))
lines_of-append (x ∷ y ∷ xs) ys h =
    let ih = lines_of-append (y ∷ xs) ys h in
    let (l, ls, e) = add_char_first y (lines_of xs) in
    let first = lines_of-cons y xs ∙ e in
    lines_of-cons x ((y ∷ xs) ++ ys)
    ∙ ap (add_char x) (ih ∙ rw first refl)
    ∙ add_char-append x l ls (lines_of ys)
    ∙ rw (lines_of-cons x (y ∷ xs), first) refl

after_first :
    (c : ℕ) (cs : Text) (rest : List Text) (l : Text) (ls : List Text)
    → ((k : Text) (ks : List Text) → lines_of cs ≡ k ∷ ks → lines_of (drop (length k) cs) ≡ ks)
    → lines_of cs ≡ rest
    → add_char c rest ≡ l ∷ ls
    → lines_of (drop (length l) (c ∷ cs)) ≡ ls
after_first c cs [] l ls ih e h = elim (Bool-cases (c == newline)) [
  | inl k ↦
      let same : (l ≡ c ∷ []) × (ls ≡ []) = ground (arith, (rw k at h)) in rw (same.0, same.1) e
  | inr k ↦
      let same : (l ≡ c ∷ []) × (ls ≡ []) = ground (arith, (rw k at h)) in rw (same.0, same.1) e
]
after_first c cs (m ∷ ms) l ls ih e h = elim (Bool-cases (c == newline)) [
  | inl k ↦
      let same : (l ≡ c ∷ []) × (ls ≡ m ∷ ms) = ground (arith, (rw k at h)) in rw (same.0, same.1) e
  | inr k ↦
      let same : (l ≡ c ∷ m) × (ls ≡ ms) = ground (arith, (rw k at h)) in
      rw (same.0, same.1) (ih m ms e)
]

-- The first line read, the rest of the file has the other lines.
pub lines_of-drop :
    (text l : Text) (ls : List Text) → lines_of text ≡ l ∷ ls → lines_of (drop (length l) text) ≡ ls
unfolding lines_of
lines_of-drop [] l ls h = cc
lines_of-drop (c ∷ cs) l ls h =
    after_first c cs (lines_of cs) l ls (λ k ks e. lines_of-drop cs k ks e) refl h

total-add_char : (c : ℕ) (rest : List Text) → total (add_char c rest) ≡ suc (total rest)
unfolding total
total-add_char c [] = elim (Bool-cases (c == newline)) [ inl k ↦ rw k refl | inr k ↦ rw k refl ]
total-add_char c (l ∷ ls) = elim (Bool-cases (c == newline)) [
  | inl k ↦ rw k (omega arith)
  | inr k ↦ rw k (omega arith)
]

pub total-lines_of : (xs : Text) → total (lines_of xs) ≡ length xs
unfolding lines_of total
total-lines_of [] = refl
total-lines_of (c ∷ cs) = total-add_char c (lines_of cs) ∙ ap suc (total-lines_of cs)

-- One line with its newline is one line.
pub lines_of_line :
    (xs : Text)
    → All (λ c. (c == newline) ≡ false) xs
    → lines_of (xs ++ newline ∷ []) ≡ (xs ++ newline ∷ []) ∷ []
unfolding lines_of
lines_of_line [] h = refl
lines_of_line (x ∷ xs) h = rw (h.0, lines_of_line xs h.1) refl

pub ends_line_line : (xs : Text) → ends_line (xs ++ newline ∷ []) ≡ true
unfolding ends_line
ends_line_line [] = refl
ends_line_line (x ∷ []) = refl
ends_line_line (x ∷ y ∷ xs) = ends_line_line (y ∷ xs)
