-- ===== src/Rules/Tokens.antt =====
-- `_Token`, `OPERATORS` and `tokenise` of toinflux/rules.py.
pub mod Spelled
use send_to_influx.Prelude.{
  ℕ, zero, suc, ◌+◌, Bool, true, false, List, [], ◌∷◌, ◌&&◌, ◌||◌, ltb, ◌==◌, if◌then◌else◌, length,
  take, drop, Text, codes,
}
use send_to_influx.Rules.Result.{
  SyntaxProblem, Result, ok, raised, out_of_fuel, ◌>>=◌, number_runs_into_name,
  unexpected_character,
}
use send_to_influx.Rules.Chars.{CharTable, name_length, number_length}

pub data Kind : Type 0 where
  number name operator open_paren close_paren comma : Kind

pub record Token : Type 0 where
  pub kind : Kind
  pub text : Text
  pub offset : ℕ

abbrev pub operators : List Text
operators =
    codes "<="
    ∷ codes ">="
    ∷ codes "=="
    ∷ codes "!="
    ∷ codes "<"
    ∷ codes ">"
    ∷ codes "+"
    ∷ codes "-"
    ∷ codes "*"
    ∷ codes "/"
    ∷ []

unfoldable pub starts_with : Text → Text → Bool
starts_with [] text = true
starts_with (c ∷ cs) [] = false
starts_with (c ∷ cs) (d ∷ text) = c == d && starts_with cs text

-- The first candidate that the text starts with: its length, 0 where there is none.
unfoldable pub operator_length : List Text → Text → ℕ
unfolding starts_with
operator_length [] text = 0
operator_length (candidate ∷ rest) text =
    if starts_with candidate text then length candidate else operator_length rest text

-- What one round of the loop makes of the text at its position.
pub data Lexeme : Type 0 where
  blank : Lexeme
  lexeme : Kind → ℕ → Lexeme
  bad : SyntaxProblem → Lexeme

pub punctuation : ℕ → Kind
punctuation c = if c == b'(' then open_paren else if c == b')' then close_paren else comma

unfoldable pub scan : CharTable → ℕ → Text → Lexeme
unfolding punctuation
scan table c cs =
    let text = c ∷ cs in
    let n = number_length table text in
    let w = name_length text in
    let o = operator_length operators text in
    if table.is_space c
    then blank
    else if c == b'(' || c == b')' || c == b','
    then lexeme (punctuation c) 1
    else if ltb 0 n
    then if ltb 0 (name_length (drop n text)) then bad number_runs_into_name else lexeme number n
    else if ltb 0 w
    then lexeme name w
    else if ltb 0 o
    then lexeme operator o
    else bad unexpected_character

-- One round of the loop, given the rest of the loop.
unfoldable pub round : (ℕ → Text → Result (List Token)) → ℕ → Text → Lexeme → Result (List Token)
round loop position text blank = loop (position + 1) (drop 1 text)
round loop position text (lexeme kind n) = loop (position + n) (drop n text) >>= λ tokens.
    ok (record { kind = kind; text = take n text; offset = position } ∷ tokens)
round loop position text (bad problem) = raised problem position

-- `while position < len(text)`. The fuel counts the rounds, and each round moves on.
unfoldable pub tokenise_from : CharTable → ℕ → ℕ → Text → Result (List Token)
unfolding round
tokenise_from table zero position text = out_of_fuel
tokenise_from table (suc fuel) position [] = ok []
tokenise_from table (suc fuel) position (c ∷ cs) =
    round (tokenise_from table fuel) position (c ∷ cs) (scan table c cs)

unfoldable pub tokenise : CharTable → Text → Result (List Token)
unfolding tokenise_from
tokenise table text = tokenise_from table (length text + 1) 0 text
