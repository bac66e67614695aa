-- ===== src/Rules/Rule/Chains.antt =====
-- The height of what `_Parser.parse` of toinflux/rules.py returns.
use send_to_influx.Prelude.{ℕ, suc, ◌+◌, ◌*◌, ◌≡◌, refl, subst, List, [], length, arith, Text}
use send_to_influx.Floats.{Floats}
use send_to_influx.Rules.Result.{ok}
use send_to_influx.Rules.Syntax.{Node}
use send_to_influx.Rules.Height.{height}
use send_to_influx.Rules.Parser.{expression}
use send_to_influx.Rules.Parser.Chains.{chain, length-signs, expression-chain}
use send_to_influx.Rules.Rule.{parse_tokens, finish_parse}

module _ (fl : Floats) where
  open fl use {F, of_text}

  -- The limit on nesting does not limit how deep `evaluate` recurses: the tokens of `1+1+…+1`, with
  -- any number of signs, are parsed, and the tree is higher than that number.
  pub parse_tokens-chain :
      (declared : List Text) (text_length k : ℕ)
      → (node : Node F) × (parse_tokens fl declared text_length (chain k) ≡ ok node)
        × (height node ≡ suc k)
  unfolding parse_tokens finish_parse
  parse_tokens-chain declared text_length k =
      let fuel = 16 * length (chain k) + 4 in
      let (node, parsed, high) =
        expression-chain of_text declared text_length fuel k (omega (arith, length-signs k 1)) in
      let enough : suc (suc (suc (suc (suc fuel)))) ≡ 16 * length (chain k) + 9 = omega arith in
      let parsed' =
        subst
          (λ m.
            expression of_text declared text_length m (record { rest = chain k; depth = 0 })
            ≡ ok (node, record { rest = []; depth = 0 }))
          enough parsed in
      (node, rw parsed' refl, high)
