-- ===== src/Rules/Parser/Steps.antt =====
-- What the single steps of the parser of toinflux/rules.py leave behind.
use send_to_influx.Prelude.{
  ℕ, suc, ◌+◌, ◌≤◌, ◌≡◌, refl, sym, ◌∙◌, Option, none, some, List, [], ◌∷◌, arith, ltb, length,
  Text, contains, ltb→le, max,
}
use send_to_influx.Rules.Result.{Ensures, holds, refused, Ensures-if, Ensures-bind}
use send_to_influx.Rules.Tokens.{Kind, Token}
use send_to_influx.Rules.Syntax.{
  Node, Arguments, Arity, function_arity, find_arity, takes, nesting, nesting_arguments, WellFormed,
  WellFormedArguments, count, binary, comparisons,
}
use send_to_influx.Rules.Parser.{
  ParserState, same_kind, at_operator, take_token, descend, check_arity, finish_call, finish_group,
  finish_comparison, resolve_name,
}

-- A method that began at `s` ends with a node that is in order, at the depth it began at.
pub record Reads {F : Type 0} (declared : List Text) (s : ParserState) (r : Node F × ParserState)
    : Type 0 where
  pub shorter : length r.1.rest ≤ length s.rest
  pub depth : r.1.depth ≡ s.depth
  pub formed : WellFormed declared r.0
  pub nested : s.depth + nesting r.0 ≤ 41

pub record ReadsArguments {F : Type 0} (declared : List Text) (s : ParserState)
    (r : Arguments F × ParserState) : Type 0 where
  pub shorter : length r.1.rest ≤ length s.rest
  pub depth : r.1.depth ≡ s.depth
  pub formed : WellFormedArguments declared r.0
  pub nested : s.depth + nesting_arguments r.0 ≤ 41

pub take_token-Ensures :
    (n : ℕ) (s : ParserState)
    → Ensures
        (λ r. (length s.rest ≡ suc (length r.1.rest)) × (r.1.depth ≡ s.depth))
        (take_token n s)
unfolding take_token
take_token-Ensures n s = go s.rest s.depth
  where
    go :
        (rest : List Token) (depth : ℕ)
        → Ensures
            (λ r. (length rest ≡ suc (length r.1.rest)) × (r.1.depth ≡ depth))
            (take_token n (record { rest = rest; depth = depth }))
    go [] depth = refused
    go (t ∷ rest) depth = holds (refl, refl)

pub descend-Ensures :
    (o : ℕ) (s : ParserState)
    → Ensures (λ s'. (s'.rest ≡ s.rest) × (s'.depth ≡ s.depth + 1) × (s'.depth ≤ 41)) (descend o s)
unfolding descend
descend-Ensures o s =
    Ensures-if (ltb 41 (s.depth + 1)) (λ _. refused)
      (λ h. holds (refl, refl, ltb→le 41 (s.depth + 1) h))

module _ {F : Type 0} (float_of : Text → F) (declared : List Text) (n : ℕ) where
  abbrev pub Good : ParserState → Node F × ParserState → Type 0
  Good = Reads declared

  abbrev pub Took : ParserState → Token × ParserState → Type 0
  Took s r = (length s.rest ≡ suc (length r.1.rest)) × (r.1.depth ≡ s.depth)

  pub check_arity-Ensures :
      (arity : Option Arity) (t : Token) (args : Arguments F) (s s' : ParserState)
      → arity ≡ find_arity function_arity t.text
      → WellFormedArguments declared args
      → s.depth + nesting_arguments args ≤ 41
      → length s'.rest ≤ length s.rest
      → s'.depth ≡ s.depth
      → Ensures (Good s) (check_arity float_of declared n arity t args s')
  unfolding check_arity nesting
  check_arity-Ensures none t args s s' e w k l d = refused
  check_arity-Ensures (some arity) t args s s' e w k l d =
      Ensures-if (takes arity (count args))
        (λ accepted. holds (record {
          shorter = l;
          depth = d;
          formed = (record { arity = arity; known = sym e; accepted = accepted }, w);
          nested = k;
        }))
        (λ _. refused)

  pub finish_call-Ensures :
      (t : Token) (args : Arguments F) (s s' : ParserState)
      → WellFormedArguments declared args
      → s.depth + nesting_arguments args ≤ 41
      → length s'.rest ≤ length s.rest
      → s'.depth ≡ s.depth
      → Ensures (Good s) (finish_call float_of declared n t args s')
  unfolding finish_call
  finish_call-Ensures t args s s' w k l d =
      Ensures-bind (take_token-Ensures n s') λ (closing, s₁) took.
        Ensures-if (same_kind closing.kind Kind.close_paren)
          (λ _.
            check_arity-Ensures (find_arity function_arity t.text) t args s s₁ refl w k
              (omega (arith, took.0)) (took.1 ∙ d))
          (λ _. refused)

  pub finish_group-Ensures :
      (node : Node F) (s s' : ParserState)
      → Good s (node, s')
      → Ensures (Good s) (finish_group float_of declared n node s')
  unfolding finish_group
  finish_group-Ensures node s s' g = Ensures-bind (take_token-Ensures n s') λ (closing, s₁) took.
      Ensures-if (same_kind closing.kind Kind.close_paren)
        (λ _. holds (record {
          shorter = omega (arith, took.0, g.shorter);
          depth = took.1 ∙ g.depth;
          formed = g.formed;
          nested = g.nested;
        }))
        (λ _. refused)

  pub finish_comparison-Ensures :
      (t : Token) (l r : Node F) (s s' : ParserState)
      → Good s (binary t.text l r t.offset, s')
      → Ensures (Good s) (finish_comparison float_of declared n t l r s')
  unfolding finish_comparison
  finish_comparison-Ensures t l r s s' g =
      Ensures-if (at_operator comparisons s'.rest) (λ _. refused) (λ _. holds g)

  pub resolve_name-Ensures :
      (t : Token) (s s' : ParserState)
      → length s'.rest ≤ length s.rest
      → s'.depth ≡ s.depth
      → s.depth ≤ 41
      → Ensures (Good s) (resolve_name float_of declared n t s')
  unfolding resolve_name nesting
  resolve_name-Ensures t s s' l d k =
      Ensures-if (contains declared t.text)
        (λ h. holds (record { shorter = l; depth = d; formed = h; nested = omega arith }))
        (λ _. refused)

  abbrev pub GoodArguments : ParserState → Arguments F × ParserState → Type 0
  GoodArguments = ReadsArguments declared

  -- What a loop starts from, and where an operator leaves it after its right operand.
  pub after_operator :
      (s s₁ s₂ s₃ : ParserState) (left right whole : Node F)
      → Good s (left, s₁)
      → (length s₁.rest ≡ suc (length s₂.rest)) × (s₂.depth ≡ s₁.depth)
      → Good s₂ (right, s₃)
      → (WellFormed declared left → WellFormed declared right → WellFormed declared whole)
      → nesting whole ≡ max (nesting left) (nesting right)
      → Good s (whole, s₃)
  after_operator s s₁ s₂ s₃ left right whole gl took gr f e = record {
    shorter = omega (arith, gl.shorter, took.0, gr.shorter);
    depth = gr.depth ∙ took.1 ∙ gl.depth;
    formed = f gl.formed gr.formed;
    nested = omega (arith, e, gl.nested, gr.nested, took.1, gl.depth);
  }
