-- ===== src/Rules/Syntax.antt =====
-- The nodes of toinflux/rules.py and the table of functions.
use send_to_influx.Prelude.{
  ℕ, suc, max, ◌≡◌, Bool, true, Option, none, some, List, [], ◌∷◌, ◌&&◌, leb, if◌then◌else◌, Text,
  codes, text_eq, contains,
}

-- The classes _Number, _Name, _Unary, _Binary, _Not, _Logical and _Call over the floats `F`;
-- a number that stands alone is an offset.
mutual
  pub data Node (F : Type 0) : Type 0 where
    number : F → Node F
    name : Text → ℕ → Node F
    unary : Node F → Node F
    binary : Text → Node F → Node F → ℕ → Node F
    logical_not : Node F → Node F
    logical : Text → Node F → Node F → Node F
    call : Text → Arguments F → ℕ → Node F

  pub data Arguments (F : Type 0) : Type 0 where
    no_arguments : Arguments F
    argument : Node F → Arguments F → Arguments F

-- `len(arguments)`
abbrev pub count : {F : Type 0} → Arguments F → ℕ
count no_arguments = 0
count (argument a rest) = suc (count rest)

abbrev pub comparisons : List Text
comparisons = codes "<" ∷ codes "<=" ∷ codes ">" ∷ codes ">=" ∷ codes "==" ∷ codes "!=" ∷ []

abbrev pub keywords : List Text
keywords = codes "and" ∷ codes "or" ∷ codes "not" ∷ []

-- The fewest arguments and the most, `none` where there is no most.
abbrev pub Arity : Type 0
Arity = ℕ × Option ℕ

abbrev pub function_arity : List (Text × Arity)
function_arity =
    (codes "min", (2, none))
    ∷ (codes "max", (2, none))
    ∷ (codes "abs", (1, some 1))
    ∷ (codes "clamp", (3, some 3))
    ∷ (codes "if", (3, some 3))
    ∷ []

-- `FUNCTION_ARITY[name]`, `none` where the name is not in the table.
unfoldable pub find_arity : List (Text × Arity) → Text → Option Arity
find_arity [] f = none
find_arity ((k, a) ∷ rest) f = if text_eq f k then some a else find_arity rest f

-- not (len < minimum or (maximum is not None and len > maximum))
unfoldable pub takes : Arity → ℕ → Bool
takes (minimum, none) n = leb minimum n
takes (minimum, some maximum) n = leb minimum n && leb n maximum

-- How deep `_Parser._descend` goes for a node: brackets that only group leave no node behind.
unfoldable mutual
  pub nesting : {F : Type 0} → Node F → ℕ
  nesting (number v) = 0
  nesting (name i o) = 0
  nesting (unary a) = suc (nesting a)
  nesting (binary op l r o) = max (nesting l) (nesting r)
  nesting (logical_not a) = suc (nesting a)
  nesting (logical op l r) = max (nesting l) (nesting r)
  nesting (call f args o) = nesting_arguments args

  pub nesting_arguments : {F : Type 0} → Arguments F → ℕ
  nesting_arguments no_arguments = 0
  nesting_arguments (argument a rest) = max (suc (nesting a)) (nesting_arguments rest)

-- A call that `_Parser._call` accepts: the function is in the table and takes that many arguments.
pub record Callable (f : Text) (n : ℕ) : Type 0 where
  pub arity : Arity
  pub known : find_arity function_arity f ≡ some arity
  pub accepted : takes arity n ≡ true

-- Every name is declared and every call is callable.
abbrev mutual
  pub WellFormed : {F : Type 0} → List Text → Node F → Type 0
  WellFormed ds (number v) = Unit
  WellFormed ds (name i o) = contains ds i ≡ true
  WellFormed ds (unary a) = WellFormed ds a
  WellFormed ds (binary op l r o) = WellFormed ds l × WellFormed ds r
  WellFormed ds (logical_not a) = WellFormed ds a
  WellFormed ds (logical op l r) = WellFormed ds l × WellFormed ds r
  WellFormed ds (call f args o) = Callable f (count args) × WellFormedArguments ds args

  pub WellFormedArguments : {F : Type 0} → List Text → Arguments F → Type 0
  WellFormedArguments ds no_arguments = Unit
  WellFormedArguments ds (argument a rest) = WellFormed ds a × WellFormedArguments ds rest
