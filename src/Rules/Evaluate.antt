-- ===== src/Rules/Evaluate.antt =====
-- The `evaluate` methods of the nodes of toinflux/rules.py.
pub mod Safe
pub mod Functions
pub mod Guards
use send_to_influx.Prelude.{
  ℕ, zero, suc, Bool, true, false, Option, none, some, List, [], ◌∷◌, any, if◌then◌else◌, Text,
  codes, text_eq, contains,
}
use send_to_influx.Floats.{Floats, le, truthy}
use send_to_influx.Rules.Syntax.{
  Node, Arguments, number, name, unary, binary, logical_not, logical, call, no_arguments, argument,
  comparisons,
}

-- The messages of RuleEvaluationError; `no_answer` is that of `_holds` in toinflux/gating.py.
pub data EvaluationProblem : Type 0 where
  no_value not_a_number : Text → EvaluationProblem
  division_by_zero : ℕ → EvaluationProblem
  clamp_bounds no_answer : EvaluationProblem

-- `failed` is a RuleEvaluationError; `crashed` is any other exception of Python, such as the
-- ValueError of an unpacking that does not fit, an OverflowError or a RecursionError.
pub data Evaluated (A : Type 0) : Type 0 where
  value : A → Evaluated A
  failed : EvaluationProblem → Evaluated A
  crashed : Evaluated A

infixl 5 ◌>>=◌
abbrev pub ◌>>=◌ : {A B : Type 0} → Evaluated A → (A → Evaluated B) → Evaluated B
value a >>= f = f a
failed p >>= f = failed p
crashed >>= f = crashed

-- A value of the table of bindings: `numeric x` for an int, a float or a bool whose `float` is `x`,
-- and `too_large` for an int that `float` raises an OverflowError for.
pub data Binding (F : Type 0) : Type 0 where
  numeric : F → Binding F
  too_large : Binding F
  other : Binding F

abbrev pub Bindings : Type 0 → Type 0
Bindings F = Text → Option (Binding F)

module _ (fl : Floats) where
  open fl use {F, zero_float, one_float, nan, add, sub, mul, div, neg, abs, lt, eq, is_nan}

  -- 1.0 if test else 0.0
  abbrev pub truth : Bool → F
  truth b = if b then one_float else zero_float

  -- `COMPARISONS[operator](left, right)`
  unfoldable pub compare_by : Text → F → F → Bool
  compare_by op l r =
      if text_eq op (codes "<")
      then lt l r
      else if text_eq op (codes "<=")
      then le fl l r
      else if text_eq op (codes ">")
      then lt r l
      else if text_eq op (codes ">=")
      then le fl r l
      else if text_eq op (codes "==")
      then eq l r
      else (if eq l r then false else true)

  -- `_Binary.evaluate` once both operands have values.
  unfoldable pub apply_binary : Text → ℕ → F → F → Evaluated F
  unfolding compare_by
  apply_binary op offset l r =
      if contains comparisons op
      then value (truth (compare_by op l r))
      else if text_eq op (codes "+")
      then value (add l r)
      else if text_eq op (codes "-")
      then value (sub l r)
      else if text_eq op (codes "*")
      then value (mul l r)
      else if eq r zero_float
      then failed (division_by_zero offset)
      else value (div l r)

  -- Python's `min` and `max` over the first item and the others: a later item replaces the one
  -- held only where it is strictly beyond it.
  unfoldable pub min_of : F → List F → F
  min_of m [] = m
  min_of m (x ∷ xs) = min_of (if lt x m then x else m) xs

  unfoldable pub max_of : F → List F → F
  max_of m [] = m
  max_of m (x ∷ xs) = max_of (if lt m x then x else m) xs

  clamp_of : F → F → F → Evaluated F
  unfolding min_of max_of
  clamp_of x lower upper =
      if lt upper lower
      then failed clamp_bounds
      else value (max_of lower (min_of x (upper ∷ []) ∷ []))

  -- `_Call.evaluate` once every argument has a value, each function in turn.
  min_call : List F → Evaluated F
  min_call [] = crashed
  min_call (x ∷ xs) = value (min_of x xs)

  max_call : List F → Evaluated F
  max_call [] = crashed
  max_call (x ∷ xs) = value (max_of x xs)

  abs_call : List F → Evaluated F
  abs_call [] = crashed
  abs_call (x ∷ xs) = value (abs x)

  clamp_call : List F → Evaluated F
  clamp_call (x ∷ lower ∷ upper ∷ []) = clamp_of x lower upper
  clamp_call _ = crashed

  unfoldable pub apply_function : Text → List F → Evaluated F
  unfolding min_call max_call abs_call clamp_call clamp_of
  apply_function f values =
      if any is_nan values
      then value nan
      else if text_eq f (codes "min")
      then min_call values
      else if text_eq f (codes "max")
      then max_call values
      else if text_eq f (codes "abs")
      then abs_call values
      else clamp_call values

  -- `_Name.evaluate`
  unfoldable pub look_up : Bindings F → Text → Evaluated F
  look_up bindings i = elim (bindings i) [
    | none ↦ failed (no_value i)
    | some b ↦ elim b [
      | numeric x ↦ value x
      | too_large ↦ crashed
      | other ↦ failed (not_a_number i)
    ]
  ]

  -- `_Logical.evaluate` after the left side: the right side is evaluated only if it is needed.
  unfoldable pub apply_logical : Text → F → Evaluated F → Evaluated F
  apply_logical op l right =
      let rest = right >>= λ r. value (truth (truthy fl r)) in
      if text_eq op (codes "and")
      then (if truthy fl l then rest else value zero_float)
      else (if truthy fl l then value one_float else rest)

  unfoldable mutual
    -- `evaluate`, where the interpreter's stack has room for so many calls of it inside each other, this one
    -- included.
    pub evaluate : ℕ → Bindings F → Node F → Evaluated F
    evaluate zero bindings node = crashed
    evaluate (suc room) bindings (number v) = value v
    evaluate (suc room) bindings (name i offset) = look_up bindings i
    evaluate (suc room) bindings (unary a) = evaluate room bindings a >>= λ x. value (neg x)
    evaluate (suc room) bindings (binary op l r offset) = evaluate room bindings l >>= λ x.
        evaluate room bindings r >>= λ y. apply_binary op offset x y
    evaluate (suc room) bindings (logical_not a) =
        evaluate room bindings a >>= λ x. value (if truthy fl x then zero_float else one_float)
    evaluate (suc room) bindings (logical op l r) =
        evaluate room bindings l >>= λ x. apply_logical op x (evaluate room bindings r)
    evaluate (suc room) bindings (call f args offset) =
        let chosen = evaluate_if room bindings args in
        let applied = evaluate_all room bindings args >>= λ values. apply_function f values in
        if text_eq f (codes "if") then chosen else applied

    -- [argument.evaluate(bindings) for argument in self.arguments]
    pub evaluate_all : ℕ → Bindings F → Arguments F → Evaluated (List F)
    evaluate_all room bindings no_arguments = value []
    evaluate_all room bindings (argument a rest) =
        evaluate room bindings a >>= λ x. evaluate_all room bindings rest >>= λ xs. value (x ∷ xs)

    -- The `if` of `_Call.evaluate`: the condition, then the branch that it selects.
    pub evaluate_if : ℕ → Bindings F → Arguments F → Evaluated F
    evaluate_if room bindings no_arguments = crashed
    evaluate_if room bindings (argument c rest) = evaluate room bindings c >>= λ x.
        let first = evaluate_first room bindings rest in
        let second = evaluate_second room bindings rest in if truthy fl x then first else second

    pub evaluate_first : ℕ → Bindings F → Arguments F → Evaluated F
    evaluate_first room bindings no_arguments = crashed
    evaluate_first room bindings (argument a rest) = evaluate room bindings a

    pub evaluate_second : ℕ → Bindings F → Arguments F → Evaluated F
    evaluate_second room bindings no_arguments = crashed
    evaluate_second room bindings (argument a rest) = evaluate_first room bindings rest
