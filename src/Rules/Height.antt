-- ===== src/Rules/Height.antt =====
-- How deep `evaluate` of toinflux/rules.py recurses.
use Prim.Native.Nat.{max}
use send_to_influx.Prelude.{ℕ, suc, ◌≤◌, arith}
use send_to_influx.Rules.Syntax.{Node, Arguments}

-- How many calls of `evaluate` can be inside each other on a node.
unfoldable mutual
  pub height : {F : Type 0} → Node F → ℕ
  height (Node.number v) = 1
  height (Node.name i o) = 1
  height (Node.unary a) = suc (height a)
  height (Node.binary op l r o) = suc (max (height l) (height r))
  height (Node.logical_not a) = suc (height a)
  height (Node.logical op l r) = suc (max (height l) (height r))
  height (Node.call f args o) = suc (height_arguments args)

  pub height_arguments : {F : Type 0} → Arguments F → ℕ
  height_arguments Arguments.no_arguments = 0
  height_arguments (Arguments.argument a rest) = max (height a) (height_arguments rest)

pub height_positive : {F : Type 0} (node : Node F) → 1 ≤ height node
unfolding height
height_positive (Node.number v) = omega arith
height_positive (Node.name i o) = omega arith
height_positive (Node.unary a) = omega arith
height_positive (Node.binary op l r o) = omega arith
height_positive (Node.logical_not a) = omega arith
height_positive (Node.logical op l r) = omega arith
height_positive (Node.call f args o) = omega arith
