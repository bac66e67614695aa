-- ===== src/Rules/Tokens/Spelled.antt =====
-- The tokens of a rule spell it out: nothing but blanks stands between them.
use send_to_influx.Prelude.{
  inl, inr, ℕ, zero, suc, ◌+◌, ◌≤◌, ◌<◌, ◌≡◌, refl, sym, Bool, true, false, List, [], ◌∷◌, ◌++◌,
  ◌||◌, arith, ltb, ◌==◌, ltb→lt, length, length-take, length-drop, take, drop, take-append-drop,
  all, Text, codes, contains, text_eq_self, Bool-cases, if◌then◌else◌,
}
use send_to_influx.Rules.Result.{
  Result, ok, Ensures, holds, refused, Ensures-bind, Ensures-map, Ensures-ok,
}
use send_to_influx.Rules.Chars.{CharTable, is_name_char, name_length, number_length}
use send_to_influx.Rules.Chars.Matches.{
  is_number_char, name_length-le-length, number_length-le-length, all-take-name_length,
  all-take-number_length,
}
use send_to_influx.Rules.Tokens.{
  Kind, number, name, operator, open_paren, close_paren, comma, Token, Lexeme, blank, lexeme, bad,
  scan, starts_with, operator_length, operators, round, punctuation, tokenise_from, tokenise,
}

-- What a word of each kind looks like.
abbrev pub IsWord : CharTable → Kind → Text → Type 0
IsWord table number w = all (is_number_char table) w ≡ true
IsWord table name w = all is_name_char w ≡ true
IsWord table operator w = contains operators w ≡ true
IsWord table open_paren w = w ≡ codes "("
IsWord table close_paren w = w ≡ codes ")"
IsWord table comma w = w ≡ codes ","

-- `Spelled table p text tokens`: from position `p` on, the text is made of blanks and of the words
-- of the tokens, in order, each at its own offset.
pub data Spelled (table : CharTable) : ℕ → Text → List Token → Type 0 where
  end_of_text : {p : ℕ} → Spelled table p [] []
  skip :
      {p c : ℕ} {cs : Text} {ts : List Token}
      → table.is_space c ≡ true
      → Spelled table (p + 1) cs ts
      → Spelled table p (c ∷ cs) ts
  word :
      {p : ℕ} {text : Text} {ts : List Token} (t : Token) (rest : Text)
      → IsWord table t.kind t.text
      → 0 < length t.text
      → t.offset ≡ p
      → text ≡ t.text ++ rest
      → Spelled table (p + length t.text) rest ts
      → Spelled table p text (t ∷ ts)

starts_with→take :
    (w text : Text)
    → starts_with w text ≡ true
    → (take (length w) text ≡ w) × (length w ≤ length text)
unfolding starts_with
starts_with→take [] text h = (refl, omega arith)
starts_with→take (c ∷ w) [] h = ground arith
starts_with→take (c ∷ w) (d ∷ text) h = ground (arith, starts_with→take w text)

operator_length_found :
    (ops : List Text) (text : Text)
    → 0 < operator_length ops text
    → (contains ops (take (operator_length ops text) text) ≡ true)
      × (operator_length ops text ≤ length text)
unfolding operator_length contains
operator_length_found [] text h = absurd (omega arith)
operator_length_found (w ∷ ops) text h = elim (Bool-cases (starts_with w text)) [
  | inl e ↦ rw e (
      (
        rw ((starts_with→take w text e).0) (ground (arith, text_eq_self w)),
        (starts_with→take w text e).1,
      ))
  | inr e ↦
      rw e (
        let found = operator_length_found ops text (rw e at h) in
        (ground (arith, found.0), found.1))
]

-- What a round may make of a text that is not empty.
abbrev Fits : CharTable → ℕ → Text → Lexeme → Type 0
Fits table c cs blank = table.is_space c ≡ true
Fits table c cs (lexeme kind n) =
    (0 < n) × (n ≤ length (c ∷ cs)) × IsWord table kind (take n (c ∷ cs))
Fits table c cs (bad problem) = Unit

Fits-if :
    (table : CharTable) (c : ℕ) (cs : Text) (b : Bool) (x y : Lexeme)
    → (b ≡ true → Fits table c cs x)
    → (b ≡ false → Fits table c cs y)
    → Fits table c cs (if b then x else y)
Fits-if table c cs true x y hx hy = hx refl
Fits-if table c cs false x y hx hy = hy refl

punctuation-IsWord :
    (table : CharTable) (c : ℕ)
    → (c == b'(' || c == b')' || c == b',') ≡ true
    → IsWord table (punctuation c) (c ∷ [])
unfolding punctuation
punctuation-IsWord table c h = elim (Bool-cases (c == b'(')) [
  | inl e ↦ rw e (ground arith)
  | inr e ↦ rw e (elim (Bool-cases (c == b')')) [
    | inl e' ↦ rw e' (ground arith)
    | inr e' ↦ rw e' (ground arith)
  ])
]

scan-Fits : (table : CharTable) (c : ℕ) (cs : Text) → Fits table c cs (scan table c cs)
unfolding scan
scan-Fits table c cs =
    let text = c ∷ cs in
    let n = number_length table text in
    let w = name_length text in
    let o = operator_length operators text in
    Fits-if table c cs (table.is_space c) _ _ (λ e. e)
      λ _.
        Fits-if table c cs (c == b'(' || c == b')' || c == b',') _ _
          (λ e. (omega arith, omega arith, punctuation-IsWord table c e))
          λ _.
            Fits-if table c cs (ltb 0 n) _ _
              (λ e.
                Fits-if table c cs (ltb 0 (name_length (drop n text))) _ _ (λ _. tt)
                  (λ _. (
                    ltb→lt 0 n e,
                    number_length-le-length table text,
                    all-take-number_length table text,
                  )))
              λ _.
                Fits-if table c cs (ltb 0 w) _ _
                  (λ e. (ltb→lt 0 w e, name_length-le-length text, all-take-name_length text))
                  λ _.
                    Fits-if table c cs (ltb 0 o) _ _
                      (λ e.
                        let found = operator_length_found operators text (ltb→lt 0 o e) in
                        (ltb→lt 0 o e, found.1, found.0))
                      λ _. tt

round-Ensures :
    (table : CharTable) (loop : ℕ → Text → Result (List Token)) (p c : ℕ) (cs : Text) (l : Lexeme)
    → Fits table c cs l
    → ((q : ℕ) (text : Text)
        → length text ≤ length cs
        → Ensures (Spelled table q text) (loop q text))
    → Ensures (Spelled table p (c ∷ cs)) (round loop p (c ∷ cs) l)
unfolding round
round-Ensures table loop p c cs blank fits ih =
    Ensures-map (ih (p + 1) cs (omega arith)) (λ ts s. skip fits s)
round-Ensures table loop p c cs (lexeme kind n) fits ih =
    Ensures-bind (ih (p + n) (drop n (c ∷ cs)) (omega (arith, fits.0, length-drop n (c ∷ cs))))
      λ ts s. holds (
        word (record { kind = kind; text = take n (c ∷ cs); offset = p }) (drop n (c ∷ cs)) fits.2
          (rw (length-take n (c ∷ cs) fits.1) (fits.0)) refl (sym (take-append-drop n (c ∷ cs)))
          (rw (length-take n (c ∷ cs) fits.1) s))
round-Ensures table loop p c cs (bad problem) fits ih = refused

tokenise_from-Ensures :
    (table : CharTable) (fuel p : ℕ) (text : Text)
    → length text < fuel
    → Ensures (Spelled table p text) (tokenise_from table fuel p text)
unfolding tokenise_from
tokenise_from-Ensures table zero p text h = absurd (omega arith)
tokenise_from-Ensures table (suc fuel) p [] h = holds end_of_text
tokenise_from-Ensures table (suc fuel) p (c ∷ cs) h =
    round-Ensures table (tokenise_from table fuel) p c cs (scan table c cs) (scan-Fits table c cs)
      (λ q text l. tokenise_from-Ensures table fuel q text (omega arith))

pub tokenise-Ensures :
    (table : CharTable) (text : Text) → Ensures (Spelled table 0 text) (tokenise table text)
unfolding tokenise
tokenise-Ensures table text = tokenise_from-Ensures table (length text + 1) 0 text (omega arith)

-- Whatever tokenise returns spells out the whole text: from offset 0 on, the text is exactly the
-- words of the tokens in order, each at its own offset and of its own kind, with nothing but
-- blanks between them.
pub tokenise-Spelled :
    (table : CharTable) (text : Text) (tokens : List Token)
    → tokenise table text ≡ ok tokens
    → Spelled table 0 text tokens
tokenise-Spelled table text tokens h = Ensures-ok (tokenise-Ensures table text) h
