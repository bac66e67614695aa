-- ===== src/Rules/Evaluate/Safe.antt =====
-- Which errors the evaluation of a well-formed node can end in.
use send_to_influx.Prelude.{
  ℕ, zero, suc, ◌≤◌, ◌≡◌, ap, refl, sym, subst, text_eq→eq, Bool, true, false, some, List, [], ◌∷◌,
  arith, any, if◌then◌else◌, length, Text, codes, text_eq, contains,
}
use send_to_influx.Floats.{Floats, truthy}
use send_to_influx.Rules.Syntax.{
  Node, Arguments, number, name, unary, binary, logical_not, logical, call, no_arguments, argument,
  count, comparisons, Callable, WellFormed, WellFormedArguments, function_arity, find_arity, takes,
}
use send_to_influx.Rules.Height.{height, height_arguments, height_positive}
use send_to_influx.Rules.Evaluate.{
  Evaluated, value, failed, division_by_zero, clamp_bounds, numeric, Bindings, look_up,
  apply_binary, apply_logical, apply_function, min_call, max_call, abs_call, clamp_call, clamp_of,
  evaluate, evaluate_all, evaluate_if, evaluate_first, evaluate_second, ◌>>=◌,
}

-- A value, or one of the two errors of arithmetic.
pub data Ends {A : Type 0} (P : A → Type 0) : Evaluated A → Type 0 where
  with_value : {a : A} → P a → Ends P (value a)
  divided : {o : ℕ} → Ends P (failed (division_by_zero o))
  clamped : Ends P (failed clamp_bounds)

abbrev pub Safe : {A : Type 0} → Evaluated A → Type 0
Safe = Ends (λ _. Unit)

module _ {A B : Type 0} {P : A → Type 0} {Q : B → Type 0} where
  Ends-bind :
      {r : Evaluated A} {f : A → Evaluated B}
      → Ends P r
      → ((a : A) → P a → Ends Q (f a))
      → Ends Q (r >>= f)
  Ends-bind (with_value {a} h) k = k a h
  Ends-bind divided k = divided
  Ends-bind clamped k = clamped

module _ {A : Type 0} {P : A → Type 0} where
  Ends-if :
      (b : Bool) {x y : Evaluated A}
      → (b ≡ true → Ends P x)
      → (b ≡ false → Ends P y)
      → Ends P (if b then x else y)
  Ends-if true hx hy = hx refl
  Ends-if false hx hy = hy refl

at_least_one : (f : Text) (n : ℕ) → Callable f n → 1 ≤ n
unfolding find_arity takes
at_least_one f n c = ground (arith, c.known, c.accepted)

only_clamp_is_left :
    (f : Text) (n : ℕ)
    → Callable f n
    → text_eq f (codes "min") ≡ false
    → text_eq f (codes "max") ≡ false
    → text_eq f (codes "abs") ≡ false
    → text_eq f (codes "if") ≡ false
    → n ≡ 3
unfolding find_arity takes
only_clamp_is_left f n c a b d e = ground (arith, c.known, c.accepted)

takes_three : (f : Text) (n : ℕ) → Callable f n → text_eq f (codes "if") ≡ true → n ≡ 3
unfolding find_arity takes text_eq
takes_three f n c e =
    let known : find_arity function_arity (codes "if") ≡ some c.arity =
      subst (λ g. find_arity function_arity g ≡ some c.arity) (text_eq→eq f (codes "if") e)
        c.known in
    ground (arith, known, c.accepted)

module _ (fl : Floats) where
  open fl use {F, is_nan, eq, lt, zero_float}

  -- Every declared name has a value that `float` takes.
  pub record Covers (declared : List Text) (bindings : Bindings F) : Type 0 where
    pub number_of : (i : Text) → contains declared i ≡ true → F
    pub bound :
        (i : Text) (d : contains declared i ≡ true) → bindings i ≡ some (numeric (number_of i d))

  look_up-Safe :
      (declared : List Text) (bindings : Bindings F) (i : Text)
      → Covers declared bindings
      → contains declared i ≡ true
      → Safe (look_up fl bindings i)
  unfolding look_up
  look_up-Safe declared bindings i c d = rw (c.bound i d, look_up) (with_value tt)

  apply_binary-Safe : (op : Text) (o : ℕ) (l r : F) → Safe (apply_binary fl op o l r)
  unfolding apply_binary
  apply_binary-Safe op o l r =
      Ends-if (contains comparisons op) (λ _. with_value tt)
        λ _.
          Ends-if (text_eq op (codes "+")) (λ _. with_value tt)
            λ _.
              Ends-if (text_eq op (codes "-")) (λ _. with_value tt)
                λ _.
                  Ends-if (text_eq op (codes "*")) (λ _. with_value tt)
                    λ _. Ends-if (eq r zero_float) (λ _. divided) (λ _. with_value tt)

  apply_logical-Safe :
      (op : Text) (l : F) (r : Evaluated F) → Safe r → Safe (apply_logical fl op l r)
  unfolding apply_logical
  apply_logical-Safe op l r s =
      let rest = Ends-bind s (λ x _. with_value tt) in
      Ends-if (text_eq op (codes "and"))
        (λ _. Ends-if (truthy fl l) (λ _. rest) (λ _. with_value tt))
        (λ _. Ends-if (truthy fl l) (λ _. with_value tt) (λ _. rest))

  clamp_of-Safe : (x lower upper : F) → Safe (clamp_of fl x lower upper)
  unfolding clamp_of
  clamp_of-Safe x lower upper = Ends-if (lt upper lower) (λ _. clamped) (λ _. with_value tt)

  min_call-Safe : (values : List F) → 1 ≤ length values → Safe (min_call fl values)
  unfolding min_call
  min_call-Safe [] h = absurd (omega arith)
  min_call-Safe (x ∷ xs) h = with_value tt

  max_call-Safe : (values : List F) → 1 ≤ length values → Safe (max_call fl values)
  unfolding max_call
  max_call-Safe [] h = absurd (omega arith)
  max_call-Safe (x ∷ xs) h = with_value tt

  abs_call-Safe : (values : List F) → 1 ≤ length values → Safe (abs_call fl values)
  unfolding abs_call
  abs_call-Safe [] h = absurd (omega arith)
  abs_call-Safe (x ∷ xs) h = with_value tt

  clamp_call-Safe : (values : List F) → length values ≡ 3 → Safe (clamp_call fl values)
  unfolding clamp_call
  clamp_call-Safe (x ∷ lower ∷ upper ∷ []) h = clamp_of-Safe x lower upper
  clamp_call-Safe [] h = absurd (omega arith)
  clamp_call-Safe (x ∷ []) h = absurd (omega arith)
  clamp_call-Safe (x ∷ y ∷ []) h = absurd (omega arith)
  clamp_call-Safe (x ∷ y ∷ z ∷ w ∷ r) h = absurd (omega arith)

  apply_function-Safe :
      (f : Text) (values : List F)
      → Callable f (length values)
      → text_eq f (codes "if") ≡ false
      → Safe (apply_function fl f values)
  unfolding apply_function
  apply_function-Safe f values c not_if =
      Ends-if (any is_nan values) (λ _. with_value tt)
        λ _.
          Ends-if (text_eq f (codes "min"))
            (λ e. min_call-Safe values (at_least_one f (length values) c))
            λ not_min.
              Ends-if (text_eq f (codes "max"))
                (λ e. max_call-Safe values (at_least_one f (length values) c))
                λ not_max.
                  Ends-if (text_eq f (codes "abs"))
                    (λ e. abs_call-Safe values (at_least_one f (length values) c))
                    λ not_abs.
                      clamp_call-Safe values
                        (only_clamp_is_left f (length values) c not_min not_max not_abs not_if)

  mutual
    unfolding evaluate height

    evaluate-Ends :
        (room : ℕ) (declared : List Text) (bindings : Bindings F) (node : Node F)
        → Covers declared bindings
        → WellFormed declared node
        → height node ≤ room
        → Safe (evaluate fl room bindings node)
    evaluate-Ends zero declared bindings node c w b =
        absurd (omega (arith, b, height_positive node))
    evaluate-Ends (suc room) declared bindings (number v) c w b = with_value tt
    evaluate-Ends (suc room) declared bindings (name i o) c w b =
        look_up-Safe declared bindings i c w
    evaluate-Ends (suc room) declared bindings (unary a) c w b =
        Ends-bind (evaluate-Ends room declared bindings a c w (omega (arith, b)))
          λ _ _. with_value tt
    evaluate-Ends (suc room) declared bindings (binary op l r o) c w b =
        Ends-bind (evaluate-Ends room declared bindings l c w.0 (omega (arith, b))) λ x _.
          Ends-bind (evaluate-Ends room declared bindings r c w.1 (omega (arith, b)))
            λ y _. apply_binary-Safe op o x y
    evaluate-Ends (suc room) declared bindings (logical_not a) c w b =
        Ends-bind (evaluate-Ends room declared bindings a c w (omega (arith, b)))
          λ _ _. with_value tt
    evaluate-Ends (suc room) declared bindings (logical op l r) c w b =
        Ends-bind (evaluate-Ends room declared bindings l c w.0 (omega (arith, b))) λ x _.
          apply_logical-Safe op x (evaluate fl room bindings r)
            (evaluate-Ends room declared bindings r c w.1 (omega (arith, b)))
    evaluate-Ends (suc room) declared bindings (call f args o) c w b =
        Ends-if (text_eq f (codes "if"))
          (λ e.
            evaluate_if-Ends room declared bindings args c w.1 (omega (arith, b))
              (takes_three f (count args) w.0 e))
          (λ e.
            Ends-bind (evaluate_all-Ends room declared bindings args c w.1 (omega (arith, b)))
              λ values l. apply_function-Safe f values (subst (Callable f) (sym l) w.0) e)

    evaluate_all-Ends :
        (room : ℕ) (declared : List Text) (bindings : Bindings F) (args : Arguments F)
        → Covers declared bindings
        → WellFormedArguments declared args
        → height_arguments args ≤ room
        → Ends (λ values. length values ≡ count args) (evaluate_all fl room bindings args)
    evaluate_all-Ends room declared bindings no_arguments c w b = with_value refl
    evaluate_all-Ends room declared bindings (argument a rest) c w b =
        Ends-bind (evaluate-Ends room declared bindings a c w.0 (omega (arith, b))) λ x _.
          Ends-bind (evaluate_all-Ends room declared bindings rest c w.1 (omega (arith, b)))
            λ xs l. with_value (ap suc l)

    evaluate_if-Ends :
        (room : ℕ) (declared : List Text) (bindings : Bindings F) (args : Arguments F)
        → Covers declared bindings
        → WellFormedArguments declared args
        → height_arguments args ≤ room
        → count args ≡ 3
        → Safe (evaluate_if fl room bindings args)
    evaluate_if-Ends room declared bindings no_arguments c w b h = absurd (omega arith)
    evaluate_if-Ends room declared bindings (argument k rest) c w b h =
        Ends-bind (evaluate-Ends room declared bindings k c w.0 (omega (arith, b))) λ x _.
          Ends-if (truthy fl x)
            (λ _.
              evaluate_first-Ends room declared bindings rest c w.1 (omega (arith, b))
                (omega arith))
            (λ _.
              evaluate_second-Ends room declared bindings rest c w.1 (omega (arith, b))
                (omega arith))

    evaluate_first-Ends :
        (room : ℕ) (declared : List Text) (bindings : Bindings F) (args : Arguments F)
        → Covers declared bindings
        → WellFormedArguments declared args
        → height_arguments args ≤ room
        → 1 ≤ count args
        → Safe (evaluate_first fl room bindings args)
    evaluate_first-Ends room declared bindings no_arguments c w b h = absurd (omega arith)
    evaluate_first-Ends room declared bindings (argument a rest) c w b h =
        evaluate-Ends room declared bindings a c w.0 (omega (arith, b))

    evaluate_second-Ends :
        (room : ℕ) (declared : List Text) (bindings : Bindings F) (args : Arguments F)
        → Covers declared bindings
        → WellFormedArguments declared args
        → height_arguments args ≤ room
        → 2 ≤ count args
        → Safe (evaluate_second fl room bindings args)
    evaluate_second-Ends room declared bindings no_arguments c w b h = absurd (omega arith)
    evaluate_second-Ends room declared bindings (argument a rest) c w b h =
        evaluate_first-Ends room declared bindings rest c w.1 (omega (arith, b)) (omega arith)

  pub evaluate-Safe :
      (room : ℕ) (declared : List Text) (bindings : Bindings F) (node : Node F)
      → Covers declared bindings
      → WellFormed declared node
      → height node ≤ room
      → Safe (evaluate fl room bindings node)
  evaluate-Safe = evaluate-Ends
