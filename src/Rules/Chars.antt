-- ===== src/Rules/Chars.antt =====
-- The character classes and the two patterns that tokenise in toinflux/rules.py matches with.
pub mod Matches
use send_to_influx.Prelude.{
  ℕ, ◌+◌, ◌-◌, ◌<◌, ◌≡◌, Bool, true, [], ◌∷◌, ◌&&◌, ◌||◌, leb, ltb, ◌==◌, if◌then◌else◌, drop, Text,
}

abbrev pub ascii_digit : ℕ → Bool
ascii_digit c = leb b'0' c && leb c b'9'

abbrev pub ascii_space : ℕ → Bool
ascii_space c = (leb 9 c && leb c 13) || (leb 28 c && leb c 32)

-- Python's Unicode tables: `str.isspace`, `\d` in a pattern on a str, and `int` of one digit. Below
-- 128 they are those of ASCII; above, nothing is said of them but that a digit is below ten.
pub record CharTable : Type 0 where
  pub is_space : ℕ → Bool
  pub is_digit : ℕ → Bool
  pub digit_value : ℕ → ℕ
  pub is_space_ascii : (c : ℕ) → c < 128 → is_space c ≡ ascii_space c
  pub is_digit_ascii : (c : ℕ) → c < 128 → is_digit c ≡ ascii_digit c
  pub digit_value_ascii : (c : ℕ) → ascii_digit c ≡ true → digit_value c ≡ c - b'0'
  pub digit_value_below : (c : ℕ) → is_digit c ≡ true → digit_value c < 10

-- [A-Za-z_] and [A-Za-z0-9_]
unfoldable pub is_name_start : ℕ → Bool
is_name_start c = (leb b'A' c && leb c b'Z') || (leb b'a' c && leb c b'z') || c == b'_'

unfoldable pub is_name_char : ℕ → Bool
unfolding is_name_start
is_name_char c = is_name_start c || ascii_digit c

-- How many characters at the front of a text are in a class, as `*` matches them.
unfoldable pub run : (ℕ → Bool) → Text → ℕ
run p [] = 0
run p (c ∷ cs) = let rest = run p cs in if p c then rest + 1 else 0

-- `_NAME_RE.match`: the length of the match, 0 where there is none.
unfoldable pub name_length : Text → ℕ
unfolding is_name_char run
name_length [] = 0
name_length (c ∷ cs) = if is_name_start c then run is_name_char cs + 1 else 0

module _ (table : CharTable) where
  -- (\.\d+)?
  fraction_length : Text → ℕ
  unfolding run
  fraction_length [] = 0
  fraction_length (c ∷ cs) =
      let digits = run table.is_digit cs in if c == b'.' && ltb 0 digits then digits + 1 else 0

  -- [+-]?
  sign_length : Text → ℕ
  sign_length [] = 0
  sign_length (c ∷ cs) = if c == b'+' || c == b'-' then 1 else 0

  -- ([eE][+-]?\d+)?
  exponent_length : Text → ℕ
  unfolding run sign_length
  exponent_length [] = 0
  exponent_length (c ∷ cs) =
      let sign = sign_length cs in
      let digits = run table.is_digit (drop sign cs) in
      if (c == b'e' || c == b'E') && ltb 0 digits then 1 + sign + digits else 0

  -- `_NUMBER_RE.match`: the length of the match, 0 where there is none.
  unfoldable pub number_length : Text → ℕ
  unfolding fraction_length exponent_length
  number_length text =
      let whole = run table.is_digit text in
      let fraction = fraction_length (drop whole text) in
      let exponent = exponent_length (drop (whole + fraction) text) in
      if whole == 0 then 0 else whole + fraction + exponent
