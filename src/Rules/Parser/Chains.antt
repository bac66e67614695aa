-- ===== src/Rules/Parser/Chains.antt =====
-- How high the trees grow that the loops of the parser of toinflux/rules.py build.
use send_to_influx.Prelude.{
  ℕ, zero, suc, ◌+◌, ◌*◌, ◌-◌, subst, ◌≤◌, ◌≡◌, refl, List, [], ◌∷◌, length, arith, Text, codes,
  text_eq, contains,
}
use send_to_influx.Rules.Height.{height, height_positive}
use send_to_influx.Rules.Result.{ok}
use send_to_influx.Rules.Tokens.{Kind, Token}
use send_to_influx.Rules.Syntax.{Node, binary}
use send_to_influx.Rules.Parser.{
  ParserState, at_operator, at_keyword, take_token, descend, expression, sum_loop, product,
}

abbrev plus : ℕ → Token
plus offset = record { kind = Kind.operator; text = codes "+"; offset = offset }

abbrev one : ℕ → Token
one offset = record { kind = Kind.number; text = codes "1"; offset = offset }

-- The tokens of `+1+1…` with as many signs, from an offset on.
abbrev pub signs : ℕ → ℕ → List Token
signs zero offset = []
signs (suc k) offset = plus offset ∷ one (offset + 1) ∷ signs k (offset + 2)

-- The tokens of `1+1+…+1`.
abbrev pub chain : ℕ → List Token
chain k = one 0 ∷ signs k 1

pub length-signs : (k p : ℕ) → length (signs k p) ≡ 2 * k
length-signs zero p = refl
length-signs (suc k) p = omega (arith, length-signs k (p + 2))

module _ {F : Type 0} (float_of : Text → F) (declared : List Text) (n : ℕ) where
  abbrev number_of : Node F
  number_of = Node.number (float_of (codes "1"))

  -- The parser's methods on a chain, whatever follows of it.
  abbrev at : List Token → ℕ → ParserState
  at rest depth = record { rest = rest; depth = depth }

  product-one :
      (f k offset p depth : ℕ)
      → product float_of declared n
          (suc (suc (suc (suc (suc f)))))
          (at (one offset ∷ signs k p) depth)
        ≡ ok (number_of, at (signs k p) depth)
  unfolding product take_token at_operator text_eq contains
  product-one f zero offset p depth = refl
  product-one f (suc k) offset p depth = refl

  product-enough :
      (f k offset p depth : ℕ)
      → 5 ≤ f
      → product float_of declared n f (at (one offset ∷ signs k p) depth)
        ≡ ok (number_of, at (signs k p) depth)
  product-enough f k offset p depth h =
      let five : suc (suc (suc (suc (suc (f - 5))))) ≡ f = omega arith in
      subst
        (λ m.
          product float_of declared n m (at (one offset ∷ signs k p) depth)
          ≡ ok (number_of, at (signs k p) depth))
        five (product-one (f - 5) k offset p depth)

  -- Each sign of a chain puts the tree so far below a new node.
  sum_loop-signs :
      (f k p depth : ℕ) (node : Node F)
      → k + 6 ≤ f
      → (whole : Node F) × (sum_loop float_of declared n f node (at (signs k p) depth)
          ≡ ok (whole, at [] depth))
        × (height whole ≡ k + height node)
  unfolding sum_loop take_token at_operator text_eq contains height
  sum_loop-signs zero k p depth node h = absurd (omega arith)
  sum_loop-signs (suc f) zero p depth node h = (node, refl, omega arith)
  sum_loop-signs (suc f) (suc k) p depth node h =
      let (whole, parsed, high) =
        sum_loop-signs f k (p + 2) depth (binary (codes "+") node number_of p) (omega arith) in
      (
        whole,
        rw (product-enough f k (p + 1) (p + 2) depth (omega arith)) parsed,
        omega (arith, high, height_positive node),
      )

  -- What the levels above `sum` make of a chain.
  pub expression-chain :
      (f k : ℕ)
      → k + 6 ≤ f
      → (whole : Node F) × (expression float_of declared n
            (suc (suc (suc (suc (suc f)))))
            (at (chain k) 0)
          ≡ ok (whole, at [] 0))
        × (height whole ≡ suc k)
  unfolding expression take_token at_operator at_keyword text_eq contains height descend
  expression-chain f k h =
      let (whole, parsed, high) = sum_loop-signs f k 1 1 number_of h in
      (whole, rw (product-enough f k 0 1 1 (omega arith)) (rw parsed refl), omega (arith, high))
