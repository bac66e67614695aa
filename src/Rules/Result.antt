-- ===== src/Rules/Result.antt =====
-- The outcome of reading a rule, for tokenise and the parser of toinflux/rules.py.
use send_to_influx.Prelude.{ℕ, ◌≡◌, ◌≢◌, refl, Bool, true, false, subst, if◌then◌else◌}

-- The messages of RuleSyntaxError, in the order of the source. The values that a message
-- interpolates are not kept.
pub data SyntaxProblem : Type 0 where
  too_long empty_rule number_runs_into_name unexpected_character ends_unexpectedly : SyntaxProblem
  nests_too_deep trailing_text chained_comparison expected_closing cannot_start : SyntaxProblem
  operator_as_name unknown_name unknown_function expected_closing_or_comma : SyntaxProblem
  wrong_arity not_text : SyntaxProblem

-- `raised` is a RuleSyntaxError with its `offset`. `out_of_fuel` has no counterpart in the program.
pub data Result {ℓ} (A : Type ℓ) : Type ℓ where
  ok : A → Result A
  raised : SyntaxProblem → ℕ → Result A
  out_of_fuel : Result A

infixl 5 ◌>>=◌
abbrev pub ◌>>=◌ {ℓ κ} : {A : Type ℓ} {B : Type κ} → Result A → (A → Result B) → Result B
ok a >>= f = f a
raised p o >>= f = raised p o
out_of_fuel >>= f = out_of_fuel

-- The run kept within its fuel, and `P` holds of its value if it has one.
pub data Ensures {ℓ κ} {A : Type ℓ} (P : A → Type κ) : Result A → Type (ℓ ⊔ κ) where
  holds : {a : A} → P a → Ensures P (ok a)
  refused : {p : SyntaxProblem} {o : ℕ} → Ensures P (raised p o)

module _ {ℓ κ} {A : Type ℓ} {P : A → Type κ} where
  pub Ensures-ok : {r : Result A} {a : A} → Ensures P r → r ≡ ok a → P a
  Ensures-ok (holds h) e = subst P (cc) h
  Ensures-ok refused e = cc

  pub Ensures-out_of_fuel : {r : Result A} → Ensures P r → r ≢ out_of_fuel
  Ensures-out_of_fuel (holds h) = cc
  Ensures-out_of_fuel refused = cc

  pub Ensures-if :
      (b : Bool) {x y : Result A}
      → (b ≡ true → Ensures P x)
      → (b ≡ false → Ensures P y)
      → Ensures P (if b then x else y)
  Ensures-if true hx hy = hx refl
  Ensures-if false hx hy = hy refl

  pub Ensures-bind {ℓ' κ'} :
      {B : Type ℓ'} {Q : B → Type κ'} {r : Result A} {f : A → Result B}
      → Ensures P r
      → ((a : A) → P a → Ensures Q (f a))
      → Ensures Q (r >>= f)
  Ensures-bind (holds {a} h) k = k a h
  Ensures-bind refused k = refused

pub Ensures-map {ℓ κ κ'} :
    {A : Type ℓ} {P : A → Type κ} {Q : A → Type κ'} {r : Result A}
    → Ensures P r
    → ((a : A) → P a → Q a)
    → Ensures Q r
Ensures-map (holds {a} h) k = holds (k a h)
Ensures-map refused k = refused
