-- ===== src/Rules/Parser/Sound.antt =====
-- What a run of the parser of toinflux/rules.py leaves behind: the induction on the fuel.
use send_to_influx.Prelude.{
  ℕ, zero, suc, ◌+◌, ◌*◌, ◌≤◌, ◌<◌, ◌≡◌, refl, ◌∙◌, ap, List, [], ◌∷◌, arith, length, Text, codes,
  contains,
}
use send_to_influx.Rules.Result.{Ensures, holds, refused, Ensures-if, Ensures-bind}
use send_to_influx.Rules.Tokens.{Kind, Token}
use send_to_influx.Rules.Syntax.{
  Node, Arguments, no_arguments, function_arity, find_arity, nesting, binary, logical, comparisons,
  keywords,
}
use send_to_influx.Rules.Parser.{
  ParserState, at_keyword, at_operator, at_kind, next_offset, expression, or_loop, conjunction,
  and_loop, negation, comparison, sum, sum_loop, product, product_loop, negative, primary,
  primary_of, name_or_call, call_of, arguments, is_some,
}
use send_to_influx.Rules.Parser.Steps.{
  Reads, ReadsArguments, take_token-Ensures, descend-Ensures, finish_call-Ensures,
  finish_group-Ensures, finish_comparison-Ensures, resolve_name-Ensures, after_operator,
}

module _ {F : Type 0} (float_of : Text → F) (declared : List Text) (n : ℕ) where
  abbrev pub Good : ParserState → Node F × ParserState → Type 0
  Good = Reads declared

  abbrev pub GoodArguments : ParserState → Arguments F × ParserState → Type 0
  GoodArguments = ReadsArguments declared

  mutual
    unfolding expression nesting

    pub expression-Ensures :
        (f : ℕ) (s : ParserState)
        → 16 * length s.rest + 8 < f
        → Ensures
            (λ r. Good s r × (s.depth + 1 + nesting r.0 ≤ 41))
            (expression float_of declared n f s)
    expression-Ensures zero s h = absurd (omega arith)
    expression-Ensures (suc f) s h = Ensures-bind (descend-Ensures (next_offset n s.rest) s) λ s₁ d.
        Ensures-bind (conjunction-Ensures f s₁ (omega (arith, ap length d.0)) d.2) λ (node, s₂) g.
          Ensures-bind
            (or_loop-Ensures f node s₁ s₂ (omega (arith, ap length d.0, g.shorter)) d.2 g)
            λ (result, s₃) g'. holds (
              record {
                shorter = omega (arith, ap length d.0, g'.shorter);
                depth = omega (arith, g'.depth, d.1);
                formed = g'.formed;
                nested = omega (arith, g'.nested, d.1);
              },
              omega (arith, g'.nested, d.1),
            )

    or_loop-Ensures :
        (f : ℕ) (node : Node F) (s s₁ : ParserState)
        → 16 * length s₁.rest + 1 < f
        → s.depth ≤ 41
        → Good s (node, s₁)
        → Ensures (Good s) (or_loop float_of declared n f node s₁)
    or_loop-Ensures zero node s s₁ h k g = absurd (omega arith)
    or_loop-Ensures (suc f) node s s₁ h k g =
        Ensures-if (at_keyword (codes "or") s₁.rest)
          (λ _. Ensures-bind (take_token-Ensures n s₁) λ (t, s₂) took.
            Ensures-bind
              (conjunction-Ensures f s₂ (omega (arith, took.0)) (omega (arith, took.1, g.depth)))
              λ (right, s₃) gr.
                or_loop-Ensures f (logical (codes "or") node right) s s₃
                  (omega (arith, took.0, gr.shorter)) k
                  (after_operator float_of declared n s s₁ s₂ s₃ node right
                    (logical (codes "or") node right) g took gr (λ l r. (l, r)) refl))
          (λ _. holds g)

    conjunction-Ensures :
        (f : ℕ) (s : ParserState)
        → 16 * length s.rest + 7 < f
        → s.depth ≤ 41
        → Ensures (Good s) (conjunction float_of declared n f s)
    conjunction-Ensures zero s h k = absurd (omega arith)
    conjunction-Ensures (suc f) s h k =
        Ensures-bind (negation-Ensures f s (omega arith) k)
          λ (node, s₁) g. and_loop-Ensures f node s s₁ (omega (arith, g.shorter)) k g

    and_loop-Ensures :
        (f : ℕ) (node : Node F) (s s₁ : ParserState)
        → 16 * length s₁.rest + 1 < f
        → s.depth ≤ 41
        → Good s (node, s₁)
        → Ensures (Good s) (and_loop float_of declared n f node s₁)
    and_loop-Ensures zero node s s₁ h k g = absurd (omega arith)
    and_loop-Ensures (suc f) node s s₁ h k g =
        Ensures-if (at_keyword (codes "and") s₁.rest)
          (λ _. Ensures-bind (take_token-Ensures n s₁) λ (t, s₂) took.
            Ensures-bind
              (negation-Ensures f s₂ (omega (arith, took.0)) (omega (arith, took.1, g.depth)))
              λ (right, s₃) gr.
                and_loop-Ensures f (logical (codes "and") node right) s s₃
                  (omega (arith, took.0, gr.shorter)) k
                  (after_operator float_of declared n s s₁ s₂ s₃ node right
                    (logical (codes "and") node right) g took gr (λ l r. (l, r)) refl))
          (λ _. holds g)

    negation-Ensures :
        (f : ℕ) (s : ParserState)
        → 16 * length s.rest + 6 < f
        → s.depth ≤ 41
        → Ensures (Good s) (negation float_of declared n f s)
    negation-Ensures zero s h k = absurd (omega arith)
    negation-Ensures (suc f) s h k =
        Ensures-if (at_keyword (codes "not") s.rest)
          (λ _. Ensures-bind (take_token-Ensures n s) λ (t, s₁) took.
            Ensures-bind (descend-Ensures t.offset s₁) λ s₂ d.
              Ensures-bind (negation-Ensures f s₂ (omega (arith, took.0, ap length d.0)) d.2)
                λ (node, s₃) g. holds (record {
                  shorter = omega (arith, took.0, ap length d.0, g.shorter);
                  depth = omega (arith, g.depth, d.1, took.1);
                  formed = g.formed;
                  nested = omega (arith, g.nested, d.1, took.1);
                }))
          (λ _. comparison-Ensures f s (omega arith) k)

    comparison-Ensures :
        (f : ℕ) (s : ParserState)
        → 16 * length s.rest + 5 < f
        → s.depth ≤ 41
        → Ensures (Good s) (comparison float_of declared n f s)
    comparison-Ensures zero s h k = absurd (omega arith)
    comparison-Ensures (suc f) s h k =
        Ensures-bind (sum-Ensures f s (omega arith) k) λ (node, s₁) g.
          Ensures-if (at_operator comparisons s₁.rest)
            (λ _. Ensures-bind (take_token-Ensures n s₁) λ (t, s₂) took.
              Ensures-bind
                (sum-Ensures f s₂ (omega (arith, took.0, g.shorter))
                  (omega (arith, took.1, g.depth)))
                λ (right, s₃) gr. finish_comparison-Ensures float_of declared n t node right s s₃ (
                  after_operator float_of declared n s s₁ s₂ s₃ node right
                    (binary t.text node right t.offset) g took gr (λ l r. (l, r)) refl))
            (λ _. holds g)

    sum-Ensures :
        (f : ℕ) (s : ParserState)
        → 16 * length s.rest + 4 < f
        → s.depth ≤ 41
        → Ensures (Good s) (sum float_of declared n f s)
    sum-Ensures zero s h k = absurd (omega arith)
    sum-Ensures (suc f) s h k =
        Ensures-bind (product-Ensures f s (omega arith) k)
          λ (node, s₁) g. sum_loop-Ensures f node s s₁ (omega (arith, g.shorter)) k g

    sum_loop-Ensures :
        (f : ℕ) (node : Node F) (s s₁ : ParserState)
        → 16 * length s₁.rest + 1 < f
        → s.depth ≤ 41
        → Good s (node, s₁)
        → Ensures (Good s) (sum_loop float_of declared n f node s₁)
    sum_loop-Ensures zero node s s₁ h k g = absurd (omega arith)
    sum_loop-Ensures (suc f) node s s₁ h k g =
        Ensures-if (at_operator (codes "+" ∷ codes "-" ∷ []) s₁.rest)
          (λ _. Ensures-bind (take_token-Ensures n s₁) λ (t, s₂) took.
            Ensures-bind
              (product-Ensures f s₂ (omega (arith, took.0)) (omega (arith, took.1, g.depth)))
              λ (right, s₃) gr.
                sum_loop-Ensures f (binary t.text node right t.offset) s s₃
                  (omega (arith, took.0, gr.shorter)) k
                  (after_operator float_of declared n s s₁ s₂ s₃ node right
                    (binary t.text node right t.offset) g took gr (λ l r. (l, r)) refl))
          (λ _. holds g)

    product-Ensures :
        (f : ℕ) (s : ParserState)
        → 16 * length s.rest + 3 < f
        → s.depth ≤ 41
        → Ensures (Good s) (product float_of declared n f s)
    product-Ensures zero s h k = absurd (omega arith)
    product-Ensures (suc f) s h k =
        Ensures-bind (negative-Ensures f s (omega arith) k)
          λ (node, s₁) g. product_loop-Ensures f node s s₁ (omega (arith, g.shorter)) k g

    product_loop-Ensures :
        (f : ℕ) (node : Node F) (s s₁ : ParserState)
        → 16 * length s₁.rest + 1 < f
        → s.depth ≤ 41
        → Good s (node, s₁)
        → Ensures (Good s) (product_loop float_of declared n f node s₁)
    product_loop-Ensures zero node s s₁ h k g = absurd (omega arith)
    product_loop-Ensures (suc f) node s s₁ h k g =
        Ensures-if (at_operator (codes "*" ∷ codes "/" ∷ []) s₁.rest)
          (λ _. Ensures-bind (take_token-Ensures n s₁) λ (t, s₂) took.
            Ensures-bind
              (negative-Ensures f s₂ (omega (arith, took.0)) (omega (arith, took.1, g.depth)))
              λ (right, s₃) gr.
                product_loop-Ensures f (binary t.text node right t.offset) s s₃
                  (omega (arith, took.0, gr.shorter)) k
                  (after_operator float_of declared n s s₁ s₂ s₃ node right
                    (binary t.text node right t.offset) g took gr (λ l r. (l, r)) refl))
          (λ _. holds g)

    negative-Ensures :
        (f : ℕ) (s : ParserState)
        → 16 * length s.rest + 2 < f
        → s.depth ≤ 41
        → Ensures (Good s) (negative float_of declared n f s)
    negative-Ensures zero s h k = absurd (omega arith)
    negative-Ensures (suc f) s h k =
        Ensures-if (at_operator (codes "-" ∷ []) s.rest)
          (λ _. Ensures-bind (take_token-Ensures n s) λ (t, s₁) took.
            Ensures-bind (descend-Ensures t.offset s₁) λ s₂ d.
              Ensures-bind (negative-Ensures f s₂ (omega (arith, took.0, ap length d.0)) d.2)
                λ (node, s₃) g. holds (record {
                  shorter = omega (arith, took.0, ap length d.0, g.shorter);
                  depth = omega (arith, g.depth, d.1, took.1);
                  formed = g.formed;
                  nested = omega (arith, g.nested, d.1, took.1);
                }))
          (λ _. primary-Ensures f s (omega arith) k)

    primary-Ensures :
        (f : ℕ) (s : ParserState)
        → 16 * length s.rest + 1 < f
        → s.depth ≤ 41
        → Ensures (Good s) (primary float_of declared n f s)
    primary-Ensures zero s h k = absurd (omega arith)
    primary-Ensures (suc f) s h k = Ensures-bind (take_token-Ensures n s) λ (t, s₁) took.
        primary_of-Ensures f t.kind t s s₁ (omega (arith, took.0)) (omega (arith, took.0)) took.1 k

    primary_of-Ensures :
        (f : ℕ) (kind : Kind) (t : Token) (s s₁ : ParserState)
        → 16 * length s₁.rest + 12 < f
        → length s₁.rest ≤ length s.rest
        → s₁.depth ≡ s.depth
        → s.depth ≤ 41
        → Ensures (Good s) (primary_of float_of declared n f kind t s₁)
    primary_of-Ensures zero kind t s s₁ h l d k = absurd (omega arith)
    primary_of-Ensures (suc f) Kind.number t s s₁ h l d k =
        holds (record { shorter = l; depth = d; formed = tt; nested = omega arith })
    primary_of-Ensures (suc f) Kind.open_paren t s s₁ h l d k =
        Ensures-bind (expression-Ensures f s₁ (omega arith)) λ (node, s₂) g.
          finish_group-Ensures float_of declared n node s s₂ (record {
            shorter = omega (arith, l, g.0.shorter);
            depth = g.0.depth ∙ d;
            formed = g.0.formed;
            nested = omega (arith, d, g.0.nested);
          })
    primary_of-Ensures (suc f) Kind.name t s s₁ h l d k =
        name_or_call-Ensures f t s s₁ (omega arith) l d k
    primary_of-Ensures (suc f) _ t s s₁ h l d k = refused

    name_or_call-Ensures :
        (f : ℕ) (t : Token) (s s₁ : ParserState)
        → 16 * length s₁.rest + 11 < f
        → length s₁.rest ≤ length s.rest
        → s₁.depth ≡ s.depth
        → s.depth ≤ 41
        → Ensures (Good s) (name_or_call float_of declared n f t s₁)
    name_or_call-Ensures zero t s s₁ h l d k = absurd (omega arith)
    name_or_call-Ensures (suc f) t s s₁ h l d k =
        Ensures-if (contains keywords t.text) (λ _. refused)
          (λ _.
            Ensures-if (at_kind Kind.open_paren s₁.rest)
              (λ _. call_of-Ensures f t s s₁ (omega arith) l d k)
              (λ _. resolve_name-Ensures float_of declared n t s s₁ l d k))

    call_of-Ensures :
        (f : ℕ) (t : Token) (s s₁ : ParserState)
        → 16 * length s₁.rest + 10 < f
        → length s₁.rest ≤ length s.rest
        → s₁.depth ≡ s.depth
        → s.depth ≤ 41
        → Ensures (Good s) (call_of float_of declared n f t s₁)
    call_of-Ensures zero t s s₁ h l d k = absurd (omega arith)
    call_of-Ensures (suc f) t s s₁ h l d k =
        Ensures-if (is_some (find_arity function_arity t.text))
          (λ _. Ensures-bind (take_token-Ensures n s₁) λ (_, s₂) took.
            Ensures-if (at_kind Kind.close_paren s₂.rest)
              (λ _.
                finish_call-Ensures float_of declared n t no_arguments s s₂ tt (omega arith)
                  (omega (arith, took.0)) (took.1 ∙ d))
              (λ _. Ensures-bind (arguments-Ensures f s₂ (omega (arith, took.0))) λ (args, s₃) g.
                finish_call-Ensures float_of declared n t args s s₃ g.formed
                  (omega (arith, g.nested, took.1, d)) (omega (arith, took.0, g.shorter))
                  (g.depth ∙ took.1 ∙ d)))
          (λ _. refused)

    arguments-Ensures :
        (f : ℕ) (s : ParserState)
        → 16 * length s.rest + 9 < f
        → Ensures (GoodArguments s) (arguments float_of declared n f s)
    arguments-Ensures zero s h = absurd (omega arith)
    arguments-Ensures (suc f) s h = Ensures-bind (expression-Ensures f s (omega arith)) λ (a, s₁) g.
        Ensures-if (at_kind Kind.comma s₁.rest)
          (λ _. Ensures-bind (take_token-Ensures n s₁) λ (_, s₂) took.
            Ensures-bind (arguments-Ensures f s₂ (omega (arith, took.0, g.0.shorter)))
              λ (rest, s₃) gs. holds (record {
                shorter = omega (arith, g.0.shorter, took.0, gs.shorter);
                depth = gs.depth ∙ took.1 ∙ g.0.depth;
                formed = (g.0.formed, gs.formed);
                nested = omega (arith, g.1, gs.nested, took.1, g.0.depth);
              }))
          (λ _. holds (record {
            shorter = g.0.shorter;
            depth = g.0.depth;
            formed = (g.0.formed, tt);
            nested = omega (arith, g.1);
          }))
