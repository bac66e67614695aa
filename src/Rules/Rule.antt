-- ===== src/Rules/Rule.antt =====
-- `_Parser.__init__`, `_Parser.parse`, `Rule` and `parse_rule` of toinflux/rules.py.
pub mod Accepted
pub mod Chains
use send_to_influx.Prelude.{ℕ, ◌+◌, ◌*◌, List, [], ◌∷◌, ltb, if◌then◌else◌, length, Text}
use send_to_influx.Floats.{Floats}
use send_to_influx.Rules.Result.{
  SyntaxProblem, Result, ok, raised, out_of_fuel, ◌>>=◌, too_long, empty_rule, trailing_text,
  not_text,
}
use send_to_influx.Rules.Chars.{CharTable}
use send_to_influx.Rules.Tokens.{Token, tokenise}
use send_to_influx.Rules.Syntax.{Node}
use send_to_influx.Rules.Parser.{max_rule_length, expression}
use send_to_influx.Rules.Evaluate.{Evaluated, Bindings, evaluate}

-- The argument `text` of `parse_rule`, which may be no str.
pub data RuleText : Type 0 where
  text : Text → RuleText
  no_text : RuleText

-- The argument `allowed_names`.
pub data AllowedNames : Type 0 where
  names : List Text → AllowedNames
  bare_string : Text → AllowedNames
  not_iterable : AllowedNames

pub data ConfigProblem : Type 0 where
  string_of_names names_not_iterable : ConfigProblem

pub record Rule (F : Type 0) : Type 0 where
  pub source : Text
  pub root : Node F

-- What `parse_rule` returns or raises; `starved` has no counterpart in the program.
pub data Parsed (F : Type 0) : Type 0 where
  rule : Rule F → Parsed F
  syntax_error : SyntaxProblem → ℕ → Parsed F
  config_error : ConfigProblem → Parsed F
  starved : Parsed F

-- `parse` after the first expression: nothing may be left over.
unfoldable pub finish_parse : {F : Type 0} → Node F → List Token → Result (Node F)
finish_parse node [] = ok node
finish_parse node (t ∷ rest) = raised trailing_text t.offset

module _ (fl : Floats) where
  open fl use {F, of_text}

  -- `_Parser.parse`, from its tokens.
  unfoldable pub parse_tokens : List Text → ℕ → List Token → Result (Node F)
  unfolding finish_parse
  parse_tokens declared text_length [] = raised empty_rule 0
  parse_tokens declared text_length (t ∷ ts) =
      expression of_text declared text_length (16 * length (t ∷ ts) + 9)
        (record { rest = t ∷ ts; depth = 0 })
      >>= λ (node, s). finish_parse node s.rest

  -- `_Parser(text, declared).parse()`
  unfoldable pub parse_text : CharTable → List Text → Text → Result (Node F)
  unfolding parse_tokens
  parse_text table declared t =
      if ltb max_rule_length (length t)
      then raised too_long 0
      else (tokenise table t >>= λ tokens. parse_tokens declared (length t) tokens)

  parsed : Text → Result (Node F) → Parsed F
  parsed t (ok node) = rule (record { source = t; root = node })
  parsed t (raised p offset) = syntax_error p offset
  parsed t out_of_fuel = starved

  unfoldable pub parse_rule : CharTable → RuleText → AllowedNames → Parsed F
  unfolding parsed parse_text
  parse_rule table no_text allowed = syntax_error not_text 0
  parse_rule table (text t) (bare_string s) = config_error string_of_names
  parse_rule table (text t) not_iterable = config_error names_not_iterable
  parse_rule table (text t) (names declared) = parsed t (parse_text table declared t)

  -- `Rule.evaluate`
  unfoldable pub rule_evaluate : Rule F → Bindings F → Evaluated F
  rule_evaluate r bindings = evaluate fl fl.recursion_room bindings r.root
