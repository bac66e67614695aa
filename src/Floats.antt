-- ===== src/Floats.antt =====
-- Python's `float`, a parameter of the model: the operations that the source uses, and what
-- IEEE 754 says of its comparisons; and how many calls of a method can be inside each other.
pub mod Sample
pub mod Order
use send_to_influx.Prelude.{ℕ, ◌≡◌, Bool, true, false, ◌||◌, Text, if◌then◌else◌}

-- `recursion_room` is how many calls of `evaluate` can be inside each other before the interpreter raises a
-- RecursionError. `a > b` and `a >= b` are `lt b a` and `le b a`, and `a != b` is the negation of `eq a b`.
pub record Floats : Type 1 where
  pub F : Type 0
  pub recursion_room : ℕ
  pub of_text : Text → F
  pub zero_float : F
  pub one_float : F
  pub nan : F
  pub add : F → F → F
  pub sub : F → F → F
  pub mul : F → F → F
  pub div : F → F → F
  pub neg : F → F
  pub abs : F → F
  pub lt : F → F → Bool
  pub eq : F → F → Bool
  pub is_nan : F → Bool
  pub is_finite : F → Bool
  pub nan_is_nan : is_nan nan ≡ true
  pub finite_not_nan : (a : F) → is_finite a ≡ true → is_nan a ≡ false
  pub zero_finite : is_finite zero_float ≡ true
  pub one_finite : is_finite one_float ≡ true
  pub one_ne_zero : eq one_float zero_float ≡ false
  pub eq_self : (a : F) → is_nan a ≡ false → eq a a ≡ true
  pub eq_sym : (a b : F) → eq a b ≡ true → eq b a ≡ true
  pub eq_trans : (a b c : F) → eq a b ≡ true → eq b c ≡ true → eq a c ≡ true
  pub lt_trans : (a b c : F) → lt a b ≡ true → lt b c ≡ true → lt a c ≡ true
  pub lt_eq : (a b c : F) → lt a b ≡ true → eq b c ≡ true → lt a c ≡ true
  pub eq_lt : (a b c : F) → eq a b ≡ true → lt b c ≡ true → lt a c ≡ true
  pub lt_asym : (a b : F) → lt a b ≡ true → lt b a ≡ false
  pub lt_not_eq : (a b : F) → lt a b ≡ true → eq a b ≡ false
  pub trichotomy :
      (a b : F) → is_nan a ≡ false → is_nan b ≡ false → (lt a b || (eq a b || lt b a)) ≡ true
  pub lt_left_nan : (a b : F) → is_nan a ≡ true → lt a b ≡ false
  pub lt_right_nan : (a b : F) → is_nan b ≡ true → lt a b ≡ false
  pub eq_nan : (a b : F) → is_nan a ≡ true → eq a b ≡ false

-- `<=`
abbrev pub le : (fl : Floats) → fl.F → fl.F → Bool
le fl a b = fl.lt a b || fl.eq a b

-- The truth of a number.
abbrev pub truthy : (fl : Floats) → fl.F → Bool
truthy fl a = if fl.eq a fl.zero_float then false else true
