-- ===== src/Rules/Examples.antt =====
-- The rules of toinflux/rules.py on concrete inputs.
use send_to_influx.Prelude.{
  ◌⊎◌, ℕ, ◌-◌, ◌≡◌, ◌≢◌, ◌≤◌, ◌<◌, refl, true, false, none, some, List, [], ◌∷◌, arith, length,
  if◌then◌else◌, Text, codes, text_eq, contains, any,
}
use send_to_influx.Floats.Sample.{
  Sample, whole, below, undefined, sample_floats, is_undefined, sample_lt,
}
use send_to_influx.Rules.Result.{chained_comparison, ok}
use send_to_influx.Rules.Chars.{
  CharTable, ascii_digit, ascii_space, name_length, number_length, run,
}
use send_to_influx.Rules.Tokens.{tokenise, scan, operator_length, Kind}
use send_to_influx.Rules.Parser.Chains.{chain}
use send_to_influx.Rules.Height.{height}
use send_to_influx.Rules.Rule.Chains.{parse_tokens-chain}
use send_to_influx.Rules.Tokens.Spelled.{Spelled, tokenise-Spelled}
use send_to_influx.Rules.Syntax.{
  Node, number, name, binary, logical, call, argument, no_arguments, find_arity, takes, nesting,
  WellFormed,
}
use send_to_influx.Rules.Parser.{
  at_keyword, at_operator, at_kind, next_offset, take_token, descend, finish_call, finish_group,
  finish_comparison, resolve_name, expression, max_rule_length, max_nesting_depth,
}
use send_to_influx.Rules.Evaluate.{
  Evaluated, value, failed, numeric, Bindings, clamp_bounds, evaluate, apply_binary, apply_function,
  look_up,
}
use send_to_influx.Rules.Evaluate.Safe.{Covers, Safe}
use send_to_influx.Rules.Evaluate.Functions.{
  IsLeast, IsGreatest, Clamped, min_of_arguments, max_of_arguments, clamp_of_arguments,
}
use send_to_influx.Rules.Evaluate.Guards.{test_is_truth, and_guards_division, if_guards_division}
use send_to_influx.Rules.Rule.{
  text, names, Rule, rule, starved, syntax_error, parse_rule, parse_tokens, rule_evaluate,
}
use send_to_influx.Rules.Rule.Accepted.{
  parse_rule-ne-starved, parse_rule-accepted, accepted_rule-Safe,
}

pub digit_law : (c : ℕ) → ascii_digit c ≡ true → (if ascii_digit c then c - b'0' else 0) ≡ c - b'0'
digit_law c h = ground arith

pub digit_below : (c : ℕ) → ascii_digit c ≡ true → (if ascii_digit c then c - b'0' else 0) < 10
digit_below c h = ground arith

-- The tables of ASCII, with no blank and no digit above it.
abbrev pub ascii : CharTable
ascii = record {
  is_space = ascii_space;
  is_digit = ascii_digit;
  digit_value = λ c. if ascii_digit c then c - b'0' else 0;
  is_space_ascii = λ c h. refl;
  is_digit_ascii = λ c h. refl;
  digit_value_ascii = digit_law;
  digit_value_below = digit_below;
}

abbrev declared : List Text
declared = codes "target" ∷ codes "dew" ∷ []

-- max(target, dew + 5)
abbrev setpoint : Text
setpoint = codes "max(target, dew + 5)"

abbrev setpoint_rule : Rule Sample
setpoint_rule = record {
  source = setpoint;
  root =
      call (codes "max")
        (argument (name (codes "target") 4) (
          argument (binary (codes "+") (name (codes "dew") 12) (number (whole 5)) 16) no_arguments))
        0;
}

setpoint_parses :
    parse_rule sample_floats ascii (text setpoint) (names declared) ≡ rule setpoint_rule
unfolding parse_rule tokenise scan operator_length name_length number_length run expression
    at_keyword at_operator at_kind next_offset take_token descend finish_call finish_group
    finish_comparison resolve_name find_arity takes text_eq contains
setpoint_parses = refl

bindings : Bindings Sample
bindings i =
    if text_eq (codes "target") i
    then some (numeric (whole 20))
    else if text_eq (codes "dew") i
    then some (numeric (whole 18))
    else none

setpoint_value : rule_evaluate sample_floats setpoint_rule bindings ≡ value (whole 23)
unfolding rule_evaluate evaluate look_up bindings apply_binary apply_function text_eq contains
setpoint_value = refl

-- A comparison of a comparison is refused where the second stands.
chained :
    parse_rule sample_floats ascii (text (codes "1 < 2 < 3")) (names [])
    ≡ syntax_error chained_comparison 6
unfolding parse_rule tokenise scan operator_length name_length number_length run expression
    at_keyword at_operator at_kind next_offset take_token descend finish_call finish_group
    finish_comparison resolve_name find_arity takes text_eq contains
chained = refl

parse_rule-ne-starved_example :
    parse_rule sample_floats ascii (text setpoint) (names declared) ≢ starved
parse_rule-ne-starved_example =
    parse_rule-ne-starved sample_floats ascii (text setpoint) (names declared)

parse_rule-accepted_example :
    (setpoint_rule.source ≡ setpoint)
    × (length setpoint ≤ max_rule_length)
    × WellFormed declared setpoint_rule.root
    × (nesting setpoint_rule.root ≤ max_nesting_depth)
parse_rule-accepted_example =
    parse_rule-accepted sample_floats ascii setpoint declared setpoint_rule setpoint_parses

number_bound : (i : Text) → contains declared i ≡ true → Sample
number_bound i d = if text_eq (codes "target") i then whole 20 else whole 18

bindings-bound :
    (i : Text) (d : contains declared i ≡ true) → bindings i ≡ some (numeric (number_bound i d))
unfolding bindings number_bound contains
bindings-bound i d = ground arith

bindings-cover : Covers sample_floats declared bindings
bindings-cover = record { number_of = number_bound; bound = bindings-bound }

accepted_rule-Safe_example : Safe (rule_evaluate sample_floats setpoint_rule bindings)
accepted_rule-Safe_example =
    accepted_rule-Safe sample_floats ascii setpoint declared setpoint_rule bindings setpoint_parses
      bindings-cover (unfold height in (omega arith))

tokenise-Spelled_example : Spelled ascii 0 (codes "(1 )") (
    record { kind = Kind.open_paren; text = codes "("; offset = 0 }
    ∷ record { kind = Kind.number; text = codes "1"; offset = 1 }
    ∷ record { kind = Kind.close_paren; text = codes ")"; offset = 3 }
    ∷ [])
unfolding tokenise scan operator_length name_length number_length run
tokenise-Spelled_example =
    tokenise-Spelled ascii (codes "(1 )")
      (record { kind = Kind.open_paren; text = codes "("; offset = 0 }
        ∷ record { kind = Kind.number; text = codes "1"; offset = 1 }
        ∷ record { kind = Kind.close_paren; text = codes ")"; offset = 3 }
        ∷ [])
      refl

min_of_arguments_test :
    (any is_undefined (whole 3 ∷ undefined ∷ []) ≡ true)
      × (apply_function sample_floats (codes "min") (whole 3 ∷ undefined ∷ []) ≡ value undefined)
    ⊎ (m : Sample) × (apply_function sample_floats (codes "min") (whole 3 ∷ undefined ∷ [])
        ≡ value m)
      × IsLeast sample_floats m (whole 3 ∷ undefined ∷ [])
min_of_arguments_test = min_of_arguments sample_floats (whole 3) (undefined ∷ [])

max_of_three :
    (any is_undefined (whole 3 ∷ below 4 ∷ []) ≡ true)
      × (apply_function sample_floats (codes "max") (whole 3 ∷ below 4 ∷ []) ≡ value undefined)
    ⊎ (m : Sample) × (apply_function sample_floats (codes "max") (whole 3 ∷ below 4 ∷ []) ≡ value m)
      × IsGreatest sample_floats m (whole 3 ∷ below 4 ∷ [])
max_of_three = max_of_arguments sample_floats (whole 3) (below 4 ∷ [])

abbrev clamped : Evaluated Sample
clamped = apply_function sample_floats (codes "clamp") (whole 12 ∷ whole 3 ∷ whole 9 ∷ [])

clamp_of_arguments_test :
    (sample_lt (whole 9) (whole 3) ≡ true) × (clamped ≡ failed clamp_bounds)
    ⊎ (sample_lt (whole 9) (whole 3) ≡ false)
      × (v : Sample) × (clamped ≡ value v)
      × Clamped sample_floats (whole 12) (whole 3) (whole 9) v
clamp_of_arguments_test = clamp_of_arguments sample_floats (whole 12) (whole 3) (whole 9) refl

abbrev target_node : Node Sample
target_node = name (codes "target") 0

abbrev is_warm : Node Sample
is_warm = binary (codes ">=") target_node (number (whole 18)) 7

warm_value : evaluate sample_floats 2 bindings is_warm ≡ value (whole 1)
unfolding evaluate look_up bindings apply_binary text_eq contains
warm_value = refl

warm_is_truth : (whole 1 ≡ whole 0) ⊎ (whole 1 ≡ whole 1)
warm_is_truth =
    test_is_truth sample_floats 1 bindings is_warm (whole 1) (unfold contains text_eq in refl)
      warm_value

target_value : evaluate sample_floats 1 bindings target_node ≡ value (whole 20)
unfolding evaluate look_up bindings text_eq
target_value = refl

and_guards_division_test :
    evaluate sample_floats 3 bindings (
      logical
        (codes "and")
        (binary (codes "!=") target_node (number (whole 0)) 7)
        (binary (codes "/") target_node target_node 20))
    ≡ value (whole 1)
and_guards_division_test =
    and_guards_division sample_floats 0 bindings target_node target_node (whole 20) (whole 20) 7 20
      target_value target_value

if_guards_division_test :
    evaluate sample_floats 3 bindings (
      call
        (codes "if")
        (argument (binary (codes "==") target_node (number (whole 0)) 3) (
          argument
            (number (whole 0))
            (argument (binary (codes "/") target_node target_node 12) no_arguments)))
        0)
    ≡ value (whole 1)
unfolding evaluate
if_guards_division_test =
    if_guards_division sample_floats 0 bindings target_node (number (whole 0)) target_node
      (whole 20) (whole 20) (whole 0) 3 12 0 target_value target_value refl

-- 1+1+1
parse_tokens-chain_example :
    (node : Node Sample) × (parse_tokens sample_floats [] 5 (chain 2) ≡ ok node) × (height node ≡ 3)
parse_tokens-chain_example = parse_tokens-chain sample_floats [] 5 2
