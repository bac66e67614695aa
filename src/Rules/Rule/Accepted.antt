-- ===== src/Rules/Rule/Accepted.antt =====
-- What `parse_rule` of toinflux/rules.py promises of every rule that it accepts.
use send_to_influx.Prelude.{
  ℕ, ◌+◌, ◌*◌, ◌≤◌, ◌≡◌, ◌≢◌, refl, List, [], ◌∷◌, arith, ltb, ltb→le, length, Text,
}
use send_to_influx.Floats.{Floats}
use send_to_influx.Rules.Result.{
  Result, ok, raised, out_of_fuel, Ensures, holds, refused, Ensures-bind, Ensures-if, Ensures-map,
  Ensures-ok, Ensures-out_of_fuel,
}
use send_to_influx.Rules.Chars.{CharTable}
use send_to_influx.Rules.Tokens.{Token}
use send_to_influx.Rules.Tokens.Spelled.{tokenise-Ensures}
use send_to_influx.Rules.Syntax.{Node, WellFormed, nesting}
use send_to_influx.Rules.Parser.{max_rule_length, max_nesting_depth}
use send_to_influx.Rules.Parser.Sound.{expression-Ensures}
use send_to_influx.Rules.Height.{height}
use send_to_influx.Rules.Evaluate.{Bindings}
use send_to_influx.Rules.Evaluate.Safe.{Covers, Safe, evaluate-Safe}
use send_to_influx.Rules.Rule.{
  RuleText, text, no_text, bare_string, not_iterable, AllowedNames, names, Rule, rule, starved,
  finish_parse, parse_tokens, parse_text, parsed, parse_rule, rule_evaluate,
}

abbrev Accepted : {F : Type 0} → List Text → Node F → Type 0
Accepted declared node = WellFormed declared node × (nesting node ≤ max_nesting_depth)

finish_parse-Ensures :
    {F : Type 0} (declared : List Text) (node : Node F) (rest : List Token)
    → Accepted declared node
    → Ensures (Accepted declared) (finish_parse node rest)
unfolding finish_parse
finish_parse-Ensures declared node [] a = holds a
finish_parse-Ensures declared node (t ∷ rest) a = refused

module _ (fl : Floats) where
  open fl use {F, of_text}

  parse_tokens-Ensures :
      (declared : List Text) (n : ℕ) (tokens : List Token)
      → Ensures (Accepted declared) (parse_tokens fl declared n tokens)
  unfolding parse_tokens
  parse_tokens-Ensures declared n [] = refused
  parse_tokens-Ensures declared n (t ∷ ts) =
      Ensures-bind
        (expression-Ensures of_text declared n (16 * length (t ∷ ts) + 9)
          (record { rest = t ∷ ts; depth = 0 }) (omega arith))
        λ (node, s) g. finish_parse-Ensures declared node s.rest (g.0.formed, omega (arith, g.1))

  parse_text-Ensures :
      (table : CharTable) (declared : List Text) (t : Text)
      → Ensures
          (λ node. Accepted declared node × (length t ≤ max_rule_length))
          (parse_text fl table declared t)
  unfolding parse_text
  parse_text-Ensures table declared t =
      Ensures-if (ltb max_rule_length (length t)) (λ _. refused)
        λ short. Ensures-bind (tokenise-Ensures table t) λ tokens _.
          Ensures-map (parse_tokens-Ensures declared (length t) tokens)
            λ node a. (a, ltb→le max_rule_length (length t) short)

  parsed-ne-starved : (t : Text) (r : Result (Node F)) → r ≢ out_of_fuel → parsed fl t r ≢ starved
  unfolding parsed
  parsed-ne-starved t (ok node) h = cc
  parsed-ne-starved t (raised p o) h = cc
  parsed-ne-starved t out_of_fuel h = absurd (h refl)

  parsed-eq-rule :
      (t : Text) (r : Result (Node F)) (whole : Rule F)
      → parsed fl t r ≡ rule whole
      → (whole.source ≡ t) × (r ≡ ok whole.root)
  unfolding parsed
  parsed-eq-rule t (ok node) whole h = ground arith
  parsed-eq-rule t (raised p o) whole h = cc
  parsed-eq-rule t out_of_fuel whole h = cc

  -- `parse_rule` always returns or raises: the fuel that the model gives the loop of tokenise and
  -- the methods of the parser is enough for every text and every collection of names.
  pub parse_rule-ne-starved :
      (table : CharTable) (t : RuleText) (allowed : AllowedNames)
      → parse_rule fl table t allowed ≢ starved
  unfolding parse_rule
  parse_rule-ne-starved table no_text allowed = cc
  parse_rule-ne-starved table (text t) (bare_string s) = cc
  parse_rule-ne-starved table (text t) not_iterable = cc
  parse_rule-ne-starved table (text t) (names declared) =
      parsed-ne-starved t (parse_text fl table declared t)
        (Ensures-out_of_fuel (parse_text-Ensures table declared t))

  -- If `parse_rule` accepts a text, then the rule keeps that text, which has 2000 characters at
  -- most; every name in its tree is declared; every call names a function of the table and has a
  -- number of arguments that the table allows; and its tree nests 40 levels deep at most.
  pub parse_rule-accepted :
      (table : CharTable) (t : Text) (declared : List Text) (r : Rule F)
      → parse_rule fl table (text t) (names declared) ≡ rule r
      → (r.source ≡ t)
        × (length t ≤ max_rule_length)
        × WellFormed declared r.root
        × (nesting r.root ≤ max_nesting_depth)
  unfolding parse_rule
  parse_rule-accepted table t declared r h =
      let inverted = parsed-eq-rule t (parse_text fl table declared t) r h in
      let a = Ensures-ok (parse_text-Ensures table declared t) inverted.1 in
      (inverted.0, a.1, a.0.0, a.0.1)

  -- If `parse_rule` accepts a rule, the table of bindings gives a value that `float` takes to every declared
  -- name, and the interpreter's stack has room for as many calls as the tree of the rule is high, then
  -- evaluating the rule returns a number or raises a RuleEvaluationError for a division by zero or for
  -- the bounds of a clamp: never for a missing value or one that is no number, and never any other
  -- exception.
  pub accepted_rule-Safe :
      (table : CharTable) (t : Text) (declared : List Text) (r : Rule F) (bindings : Bindings F)
      → parse_rule fl table (text t) (names declared) ≡ rule r
      → Covers fl declared bindings
      → height r.root ≤ fl.recursion_room
      → Safe (rule_evaluate fl r bindings)
  unfolding rule_evaluate
  accepted_rule-Safe table t declared r bindings h c b =
      evaluate-Safe fl fl.recursion_room declared bindings r.root c
        (parse_rule-accepted table t declared r h).2 b
