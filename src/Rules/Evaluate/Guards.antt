-- ===== src/Rules/Evaluate/Guards.antt =====
-- Truth in toinflux/rules.py, and the rules that guard their own arithmetic.
use send_to_influx.Prelude.{
  inl, inr, ◌⊎◌, ℕ, suc, ◌≡◌, refl, Bool, true, false, arith, Bool-cases, if◌then◌else◌, Text,
  codes, text_eq, contains,
}
use send_to_influx.Floats.{Floats, truthy}
use send_to_influx.Rules.Syntax.{
  Node, number, name, unary, binary, logical_not, logical, call, no_arguments, argument,
  comparisons,
}
use send_to_influx.Rules.Evaluate.{
  Evaluated, value, failed, crashed, Bindings, apply_binary, apply_logical, compare_by, truth,
  evaluate, ◌>>=◌,
}

module _ (fl : Floats) where
  open fl use {
    F, zero_float, one_float, nan, div, eq, lt, is_nan, one_ne_zero, zero_finite, finite_not_nan,
    eq_self,
  }

  -- The nodes whose value is a truth.
  abbrev pub IsTest : Node F → Type 0
  IsTest (logical op l r) = Unit
  IsTest (logical_not a) = Unit
  IsTest (binary op l r o) = contains comparisons op ≡ true
  IsTest _ = ⊥

  zero_is_zero : eq zero_float zero_float ≡ true
  zero_is_zero = eq_self zero_float (finite_not_nan zero_float zero_finite)

  truth-cases :
      (b : Bool) (v : F) → value (truth fl b) ≡ value v → (v ≡ zero_float) ⊎ (v ≡ one_float)
  truth-cases true v h = inr (cc)
  truth-cases false v h = inl (cc)

  binary_is_truth :
      (op : Text) (o : ℕ) (l r : Evaluated F) (v : F)
      → contains comparisons op ≡ true
      → (l >>= λ x. r >>= λ y. apply_binary fl op o x y) ≡ value v
      → (v ≡ zero_float) ⊎ (v ≡ one_float)
  unfolding apply_binary
  binary_is_truth op o (value x) (value y) v t h = truth-cases (compare_by fl op x y) v (rw t at h)
  binary_is_truth op o (value x) (failed p) v t h = cc
  binary_is_truth op o (value x) crashed v t h = cc
  binary_is_truth op o (failed p) r v t h = cc
  binary_is_truth op o crashed r v t h = cc

  not_is_truth :
      (a : Evaluated F) (v : F)
      → (a >>= λ x. value (if truthy fl x then zero_float else one_float)) ≡ value v
      → (v ≡ zero_float) ⊎ (v ≡ one_float)
  not_is_truth (value x) v h = elim (Bool-cases (truthy fl x)) [
    | inl e ↦ inl (cc (rw e at h))
    | inr e ↦ inr (cc (rw e at h))
  ]
  not_is_truth (failed p) v h = cc
  not_is_truth crashed v h = cc

  logical_is_truth :
      (op : Text) (l r : Evaluated F) (v : F)
      → (l >>= λ x. apply_logical fl op x r) ≡ value v
      → (v ≡ zero_float) ⊎ (v ≡ one_float)
  unfolding apply_logical
  logical_is_truth op (value x) (value y) v h = ground arith
  logical_is_truth op (value x) (failed p) v h = ground arith
  logical_is_truth op (value x) crashed v h = ground arith
  logical_is_truth op (failed p) r v h = cc
  logical_is_truth op crashed r v h = cc

  -- A comparison, `not`, `and` or `or` that has a value has the value 0.0 or 1.0, never one of its
  -- operands.
  pub test_is_truth :
      (room : ℕ) (bindings : Bindings F) (node : Node F) (v : F)
      → IsTest node
      → evaluate fl (suc room) bindings node ≡ value v
      → (v ≡ zero_float) ⊎ (v ≡ one_float)
  unfolding evaluate
  test_is_truth room bindings (binary op l r o) v t h =
      binary_is_truth op o (evaluate fl room bindings l) (evaluate fl room bindings r) v t h
  test_is_truth room bindings (logical_not a) v t h = not_is_truth (evaluate fl room bindings a) v h
  test_is_truth room bindings (logical op l r) v t h =
      logical_is_truth op (evaluate fl room bindings l) (evaluate fl room bindings r) v h
  test_is_truth room bindings (number x) v t h = absurd t
  test_is_truth room bindings (name i o) v t h = absurd t
  test_is_truth room bindings (unary a) v t h = absurd t
  test_is_truth room bindings (call f args o) v t h = absurd t

  -- The equations of `evaluate` that a proof rewrites by.
  evaluate-number :
      (room : ℕ) (bindings : Bindings F) (v : F)
      → evaluate fl (suc room) bindings (number v) ≡ value v
  unfolding evaluate
  evaluate-number room bindings v = refl

  evaluate-binary_lem :
      (room : ℕ) (bindings : Bindings F) (op : Text) (l r : Node F) (o : ℕ)
      → evaluate fl (suc room) bindings (binary op l r o) ≡ (
          evaluate fl room bindings l >>= λ x.
          evaluate fl room bindings r >>= λ y. apply_binary fl op o x y)
  unfolding evaluate
  evaluate-binary_lem room bindings op l r o = refl

  evaluate-logical_lem :
      (room : ℕ) (bindings : Bindings F) (op : Text) (l r : Node F)
      → evaluate fl (suc room) bindings (logical op l r)
        ≡ (evaluate fl room bindings l >>= λ x. apply_logical fl op x (evaluate fl room bindings r))
  unfolding evaluate
  evaluate-logical_lem room bindings op l r = refl

  evaluate-if_lem :
      (room : ℕ) (bindings : Bindings F) (c a b : Node F) (o : ℕ)
      → evaluate fl
          (suc room)
          bindings
          (call (codes "if") (argument c (argument a (argument b no_arguments))) o)
        ≡ (evaluate fl room bindings c >>= λ x.
            if truthy fl x then evaluate fl room bindings a else evaluate fl room bindings b)
  unfolding evaluate text_eq
  evaluate-if_lem room bindings c a b o = refl

  evaluate-binary :
      (room : ℕ) (bindings : Bindings F) (op : Text) (l r : Node F) (o : ℕ) (x y : F)
      → evaluate fl room bindings l ≡ value x
      → evaluate fl room bindings r ≡ value y
      → evaluate fl (suc room) bindings (binary op l r o) ≡ apply_binary fl op o x y
  evaluate-binary room bindings op l r o x y hl hr =
      rw (evaluate-binary_lem room bindings op l r o) (rw (hl, hr))

  -- If the divisor and the dividend have values, then `d != 0 and t / d` has one too, whatever the
  -- divisor is: 0.0 where the divisor equals 0.0, and otherwise the truth of the quotient.
  pub and_guards_division :
      (room : ℕ) (bindings : Bindings F) (d t : Node F) (x y : F) (o o' : ℕ)
      → evaluate fl (suc room) bindings d ≡ value x
      → evaluate fl (suc room) bindings t ≡ value y
      → evaluate fl (suc (suc (suc room))) bindings (
          logical
            (codes "and")
            (binary (codes "!=") d (number zero_float) o)
            (binary (codes "/") t d o'))
        ≡ value (if eq x zero_float then zero_float else truth fl (truthy fl (div y x)))
  unfolding apply_binary apply_logical compare_by text_eq contains
  and_guards_division room bindings d t x y o o' hd ht = rw (evaluate-logical_lem) (
      rw
        (evaluate-binary (suc room) bindings (codes "!=") d (number zero_float) o x zero_float hd
          (evaluate-number room bindings zero_float))
        (rw (evaluate-binary (suc room) bindings (codes "/") t d o' y x ht hd)
          (elim (Bool-cases (eq x zero_float)) [
            | inl e ↦ rw e (rw zero_is_zero)
            | inr e ↦ rw e (rw one_ne_zero)
          ])))

  -- If the divisor, the dividend and the alternative have values, then `if(d == 0, a, t / d)` has
  -- one too, whatever the divisor is: that of the alternative where the divisor equals 0.0, and
  -- otherwise the quotient.
  pub if_guards_division :
      (room : ℕ) (bindings : Bindings F) (d a t : Node F) (x y z : F) (o o' o'' : ℕ)
      → evaluate fl (suc room) bindings d ≡ value x
      → evaluate fl (suc room) bindings t ≡ value y
      → evaluate fl (suc (suc room)) bindings a ≡ value z
      → evaluate fl (suc (suc (suc room))) bindings (
          call
            (codes "if")
            (argument
              (binary (codes "==") d (number zero_float) o)
              (argument a (argument (binary (codes "/") t d o') no_arguments)))
            o'')
        ≡ value (if eq x zero_float then z else div y x)
  unfolding apply_binary compare_by text_eq contains
  if_guards_division room bindings d a t x y z o o' o'' hd ht ha = rw (evaluate-if_lem) (
      rw
        (evaluate-binary (suc room) bindings (codes "==") d (number zero_float) o x zero_float hd
          (evaluate-number room bindings zero_float))
        (rw (evaluate-binary (suc room) bindings (codes "/") t d o' y x ht hd)
          (elim (Bool-cases (eq x zero_float)) [
            | inl e ↦ rw e (rw one_ne_zero ha)
            | inr e ↦ rw e (rw zero_is_zero refl)
          ])))
