-- ===== src/Rules/Parser.antt =====
-- The methods of `_Parser` of toinflux/rules.py: recursive descent over the tokens of a rule.
pub mod Steps
pub mod Sound
pub mod Chains
use send_to_influx.Prelude.{
  ℕ, zero, suc, ◌+◌, ◌-◌, Bool, true, false, Option, none, some, List, [], ◌∷◌, ◌&&◌, ltb,
  if◌then◌else◌, Text, codes, text_eq, contains,
}
use send_to_influx.Rules.Result.{
  Result, ok, raised, out_of_fuel, ◌>>=◌, ends_unexpectedly, nests_too_deep, chained_comparison,
  expected_closing, cannot_start, operator_as_name, unknown_name, unknown_function,
  expected_closing_or_comma, wrong_arity,
}
use send_to_influx.Rules.Tokens.{Kind, Token}
use send_to_influx.Rules.Syntax.{
  Node, Arguments, no_arguments, argument, count, comparisons, keywords, Arity, function_arity,
  find_arity, takes, unary, binary, logical_not, logical, call,
}

abbrev pub max_rule_length : ℕ
max_rule_length = 2000

abbrev pub max_nesting_depth : ℕ
max_nesting_depth = 40

-- What a parser has read so far. `rest` is `tokens[position:]`; `depth` is the source's `depth`
-- plus one, which starts at 0.
pub record ParserState : Type 0 where
  pub rest : List Token
  pub depth : ℕ

abbrev pub same_kind : Kind → Kind → Bool
same_kind Kind.number Kind.number = true
same_kind Kind.name Kind.name = true
same_kind Kind.operator Kind.operator = true
same_kind Kind.open_paren Kind.open_paren = true
same_kind Kind.close_paren Kind.close_paren = true
same_kind Kind.comma Kind.comma = true
same_kind _ _ = false

-- `_at_keyword`
unfoldable pub at_keyword : Text → List Token → Bool
at_keyword keyword [] = false
at_keyword keyword (t ∷ rest) = same_kind t.kind Kind.name && text_eq t.text keyword

-- `_at_operator`
unfoldable pub at_operator : List Text → List Token → Bool
at_operator texts [] = false
at_operator texts (t ∷ rest) = same_kind t.kind Kind.operator && contains texts t.text

-- self.peek() is not None and self.peek().kind == kind
unfoldable pub at_kind : Kind → List Token → Bool
at_kind kind [] = false
at_kind kind (t ∷ rest) = same_kind t.kind kind

-- token.offset if token else len(self.text)
unfoldable pub next_offset : ℕ → List Token → ℕ
next_offset text_length [] = text_length
next_offset text_length (t ∷ rest) = t.offset

abbrev pub is_some {ℓ} : {A : Type ℓ} → Option A → Bool
is_some none = false
is_some (some a) = true

-- `take`
unfoldable pub take_token : ℕ → ParserState → Result (Token × ParserState)
take_token text_length s = elim s.rest [
  | [] ↦ raised ends_unexpectedly text_length
  | t ∷ rest ↦ ok (t, record s { rest = rest })
]

-- `_descend`: `self.depth > MAX_NESTING_DEPTH` in terms of the depth plus one.
unfoldable pub descend : ℕ → ParserState → Result ParserState
descend offset s =
    let s' = record s { depth = s.depth + 1 } in
    if ltb (max_nesting_depth + 1) (s.depth + 1) then raised nests_too_deep offset else ok s'

-- `finally: self.depth -= 1`
abbrev pub ascend : ParserState → ParserState
ascend s = record s { depth = s.depth - 1 }

module _ {F : Type 0} (float_of : Text → F) (declared : List Text) (text_length : ℕ) where
  -- The arity test of `_call`; the table has the function, or `_call` has refused it before.
  unfoldable pub check_arity :
      Option Arity → Token → Arguments F → ParserState → Result (Node F × ParserState)
  check_arity none t args s = raised unknown_function t.offset
  check_arity (some arity) t args s =
      if takes arity (count args)
      then ok (call t.text args t.offset, s)
      else raised wrong_arity t.offset

  -- The end of `_call`, from the closing bracket on.
  unfoldable pub finish_call : Token → Arguments F → ParserState → Result (Node F × ParserState)
  unfolding check_arity
  finish_call t args s = take_token text_length s >>= λ (closing, s').
      if same_kind closing.kind Kind.close_paren
      then check_arity (find_arity function_arity t.text) t args s'
      else raised expected_closing_or_comma closing.offset

  -- The end of a bracketed expression in `primary`.
  unfoldable pub finish_group : Node F → ParserState → Result (Node F × ParserState)
  finish_group node s = take_token text_length s >>= λ (closing, s').
      if same_kind closing.kind Kind.close_paren
      then ok (node, s')
      else raised expected_closing closing.offset

  -- The second half of `comparison`: the right operand is read, and another comparison is refused.
  unfoldable pub finish_comparison :
      Token → Node F → Node F → ParserState → Result (Node F × ParserState)
  finish_comparison t left right s =
      if at_operator comparisons s.rest
      then raised chained_comparison (next_offset text_length s.rest)
      else ok (binary t.text left right t.offset, s)

  -- `_name_or_call` where no bracket follows, its keyword test first.
  unfoldable pub resolve_name : Token → ParserState → Result (Node F × ParserState)
  resolve_name t s =
      if contains declared t.text
      then ok (Node.name t.text t.offset, s)
      else raised unknown_name t.offset

  -- Each call costs a unit of fuel, the rounds of the loops too.
  unfoldable mutual
    pub expression : ℕ → ParserState → Result (Node F × ParserState)
    expression zero s = out_of_fuel
    expression (suc f) s = descend (next_offset text_length s.rest) s >>= λ s₁.
        conjunction f s₁ >>= λ (node, s₂).
        or_loop f node s₂ >>= λ (result, s₃). ok (result, ascend s₃)

    pub or_loop : ℕ → Node F → ParserState → Result (Node F × ParserState)
    or_loop zero node s = out_of_fuel
    or_loop (suc f) node s =
        let more = take_token text_length s >>= λ (_, s₁).
        conjunction f s₁ >>= λ (right, s₂). or_loop f (logical (codes "or") node right) s₂ in
        if at_keyword (codes "or") s.rest then more else ok (node, s)

    pub conjunction : ℕ → ParserState → Result (Node F × ParserState)
    conjunction zero s = out_of_fuel
    conjunction (suc f) s = negation f s >>= λ (node, s₁). and_loop f node s₁

    pub and_loop : ℕ → Node F → ParserState → Result (Node F × ParserState)
    and_loop zero node s = out_of_fuel
    and_loop (suc f) node s =
        let more = take_token text_length s >>= λ (_, s₁).
        negation f s₁ >>= λ (right, s₂). and_loop f (logical (codes "and") node right) s₂ in
        if at_keyword (codes "and") s.rest then more else ok (node, s)

    pub negation : ℕ → ParserState → Result (Node F × ParserState)
    negation zero s = out_of_fuel
    negation (suc f) s =
        let inverted = take_token text_length s >>= λ (t, s₁). descend t.offset s₁ >>= λ s₂.
        negation f s₂ >>= λ (node, s₃). ok (logical_not node, ascend s₃) in
        let plain = comparison f s in if at_keyword (codes "not") s.rest then inverted else plain

    pub comparison : ℕ → ParserState → Result (Node F × ParserState)
    comparison zero s = out_of_fuel
    comparison (suc f) s = sum f s >>= λ (node, s₁).
        let compared = take_token text_length s₁ >>= λ (t, s₂).
        sum f s₂ >>= λ (right, s₃). finish_comparison t node right s₃ in
        if at_operator comparisons s₁.rest then compared else ok (node, s₁)

    pub sum : ℕ → ParserState → Result (Node F × ParserState)
    sum zero s = out_of_fuel
    sum (suc f) s = product f s >>= λ (node, s₁). sum_loop f node s₁

    pub sum_loop : ℕ → Node F → ParserState → Result (Node F × ParserState)
    sum_loop zero node s = out_of_fuel
    sum_loop (suc f) node s =
        let more = take_token text_length s >>= λ (t, s₁).
        product f s₁ >>= λ (right, s₂). sum_loop f (binary t.text node right t.offset) s₂ in
        if at_operator (codes "+" ∷ codes "-" ∷ []) s.rest then more else ok (node, s)

    pub product : ℕ → ParserState → Result (Node F × ParserState)
    product zero s = out_of_fuel
    product (suc f) s = negative f s >>= λ (node, s₁). product_loop f node s₁

    pub product_loop : ℕ → Node F → ParserState → Result (Node F × ParserState)
    product_loop zero node s = out_of_fuel
    product_loop (suc f) node s =
        let more = take_token text_length s >>= λ (t, s₁).
        negative f s₁ >>= λ (right, s₂). product_loop f (binary t.text node right t.offset) s₂ in
        if at_operator (codes "*" ∷ codes "/" ∷ []) s.rest then more else ok (node, s)

    -- `unary`
    pub negative : ℕ → ParserState → Result (Node F × ParserState)
    negative zero s = out_of_fuel
    negative (suc f) s =
        let negated = take_token text_length s >>= λ (t, s₁).
        descend t.offset s₁ >>= λ s₂. negative f s₂ >>= λ (node, s₃). ok (unary node, ascend s₃) in
        let plain = primary f s in if at_operator (codes "-" ∷ []) s.rest then negated else plain

    pub primary : ℕ → ParserState → Result (Node F × ParserState)
    primary zero s = out_of_fuel
    primary (suc f) s = take_token text_length s >>= λ (t, s₁). primary_of f t.kind t s₁

    -- The tests on the kind in `primary`.
    pub primary_of : ℕ → Kind → Token → ParserState → Result (Node F × ParserState)
    primary_of zero kind t s = out_of_fuel
    primary_of (suc f) Kind.number t s = ok (Node.number (float_of t.text), s)
    primary_of (suc f) Kind.open_paren t s = expression f s >>= λ (node, s₁). finish_group node s₁
    primary_of (suc f) Kind.name t s = name_or_call f t s
    primary_of (suc f) _ t s = raised cannot_start t.offset

    pub name_or_call : ℕ → Token → ParserState → Result (Node F × ParserState)
    name_or_call zero t s = out_of_fuel
    name_or_call (suc f) t s =
        let called = call_of f t s in
        if contains keywords t.text
        then raised operator_as_name t.offset
        else if at_kind Kind.open_paren s.rest
        then called
        else resolve_name t s

    -- `_call`
    pub call_of : ℕ → Token → ParserState → Result (Node F × ParserState)
    call_of zero t s = out_of_fuel
    call_of (suc f) t s =
        let applied = take_token text_length s >>= λ (_, s₁).
        let some_arguments = arguments f s₁ >>= λ (args, s₂). finish_call t args s₂ in
        if at_kind Kind.close_paren s₁.rest
        then finish_call t no_arguments s₁
        else some_arguments in
        if is_some (find_arity function_arity t.text)
        then applied
        else raised unknown_function t.offset

    -- The loop of `_call`, from one argument on.
    pub arguments : ℕ → ParserState → Result (Arguments F × ParserState)
    arguments zero s = out_of_fuel
    arguments (suc f) s = expression f s >>= λ (a, s₁).
        let more = take_token text_length s₁ >>= λ (_, s₂).
        arguments f s₂ >>= λ (rest, s₃). ok (argument a rest, s₃) in
        if at_kind Kind.comma s₁.rest then more else ok (argument a no_arguments, s₁)
