-- ===== src/Rules/Evaluate/Functions.antt =====
-- What `min`, `max` and `clamp` of toinflux/rules.py return.
use send_to_influx.Prelude.{
  inl, inr, ◌⊎◌, ◌≡◌, refl, true, false, List, [], ◌∷◌, arith, any, All, Among, Bool-cases, codes,
  text_eq,
}
use send_to_influx.Floats.{Floats, le}
use send_to_influx.Floats.Order.{le_refl, le_trans, lt→le, le_of_not_lt, not_lt_of_le}
use send_to_influx.Rules.Evaluate.{
  value, failed, clamp_bounds, min_of, max_of, min_call, max_call, clamp_call, clamp_of,
  apply_function,
}

skip_second : {A : Type 0} (a m x : A) (xs : List A) → Among a (m ∷ xs) → Among a (m ∷ x ∷ xs)
skip_second a m x xs (inl e) = inl e
skip_second a m x xs (inr h) = inr (inr h)

module _ (fl : Floats) where
  open fl use {F, lt, eq, is_nan, nan}

  -- `m` is an item and is at most (or at least) every item.
  pub record IsLeast (m : F) (values : List F) : Type 0 where
    pub among : Among m values
    pub bound : All (λ x. le fl m x ≡ true) values

  pub record IsGreatest (m : F) (values : List F) : Type 0 where
    pub among : Among m values
    pub bound : All (λ x. le fl x m ≡ true) values

  min_of-IsLeast :
      (m : F) (xs : List F)
      → is_nan m ≡ false
      → any is_nan xs ≡ false
      → IsLeast (min_of fl m xs) (m ∷ xs)
  unfolding min_of
  min_of-IsLeast m [] h k = record { among = inl refl; bound = (le_refl fl m h, tt) }
  min_of-IsLeast m (x ∷ xs) h k =
      let x_number : is_nan x ≡ false = ground arith in
      let xs_numbers : any is_nan xs ≡ false = ground arith in
      elim (Bool-cases (lt x m)) [
        | inl e ↦
            let rest = min_of-IsLeast x xs x_number xs_numbers in
            rw e (record {
              among = inr rest.among;
              bound = (le_trans fl (min_of fl x xs) x m rest.bound.0 (lt→le fl x m e), rest.bound);
            })
        | inr e ↦
            let rest = min_of-IsLeast m xs h xs_numbers in
            rw e (record {
              among = skip_second (min_of fl m xs) m x xs rest.among;
              bound = (
                rest.bound.0,
                (
                  le_trans fl (min_of fl m xs) m x rest.bound.0 (le_of_not_lt fl x m x_number h e),
                  rest.bound.1,
                ),
              );
            })
      ]

  pub max_of-IsGreatest :
      (m : F) (xs : List F)
      → is_nan m ≡ false
      → any is_nan xs ≡ false
      → IsGreatest (max_of fl m xs) (m ∷ xs)
  unfolding max_of
  max_of-IsGreatest m [] h k = record { among = inl refl; bound = (le_refl fl m h, tt) }
  max_of-IsGreatest m (x ∷ xs) h k =
      let x_number : is_nan x ≡ false = ground arith in
      let xs_numbers : any is_nan xs ≡ false = ground arith in
      elim (Bool-cases (lt m x)) [
        | inl e ↦
            let rest = max_of-IsGreatest x xs x_number xs_numbers in
            rw e (record {
              among = inr rest.among;
              bound = (le_trans fl m x (max_of fl x xs) (lt→le fl m x e) rest.bound.0, rest.bound);
            })
        | inr e ↦
            let rest = max_of-IsGreatest m xs h xs_numbers in
            rw e (record {
              among = skip_second (max_of fl m xs) m x xs rest.among;
              bound = (
                rest.bound.0,
                (
                  le_trans fl x m (max_of fl m xs) (le_of_not_lt fl m x h x_number e) rest.bound.0,
                  rest.bound.1,
                ),
              );
            })
      ]

  -- Where `min` is called with at least one value, it always returns a value: nan if an argument is
  -- nan, wherever it stands, and otherwise one of its arguments, which is at most each of them.
  pub min_of_arguments :
      (x : F) (xs : List F)
      → (any is_nan (x ∷ xs) ≡ true) × (apply_function fl (codes "min") (x ∷ xs) ≡ value nan)
        ⊎ (m : F) × (apply_function fl (codes "min") (x ∷ xs) ≡ value m) × IsLeast m (x ∷ xs)
  unfolding apply_function min_call text_eq
  min_of_arguments x xs = elim (Bool-cases (any is_nan (x ∷ xs))) [
    | inl e ↦ inl (e, rw e)
    | inr e ↦ inr (min_of fl x xs, rw e, min_of-IsLeast x xs (ground arith) (ground arith))
  ]

  -- Where `max` is called with at least one value, it always returns a value: nan if an argument is
  -- nan, wherever it stands, and otherwise one of its arguments, which is at least each of them.
  pub max_of_arguments :
      (x : F) (xs : List F)
      → (any is_nan (x ∷ xs) ≡ true) × (apply_function fl (codes "max") (x ∷ xs) ≡ value nan)
        ⊎ (m : F) × (apply_function fl (codes "max") (x ∷ xs) ≡ value m) × IsGreatest m (x ∷ xs)
  unfolding apply_function max_call text_eq
  max_of_arguments x xs = elim (Bool-cases (any is_nan (x ∷ xs))) [
    | inl e ↦ inl (e, rw e)
    | inr e ↦ inr (max_of fl x xs, rw e, max_of-IsGreatest x xs (ground arith) (ground arith))
  ]

  -- What `clamp` returns of a value and two bounds, none of them nan, with the bounds in order.
  pub record Clamped (x lower upper v : F) : Type 0 where
    pub above : le fl lower v ≡ true
    pub below : le fl v upper ≡ true
    pub kept : le fl lower x ≡ true → le fl x upper ≡ true → eq v x ≡ true

  clamp_of-Clamped :
      (x lower upper : F)
      → any is_nan (x ∷ lower ∷ upper ∷ []) ≡ false
      → lt upper lower ≡ false
      → Clamped x lower upper (max_of fl lower (min_of fl x (upper ∷ []) ∷ []))
  unfolding max_of min_of
  clamp_of-Clamped x lower upper h o =
      let x_number : is_nan x ≡ false = ground arith in
      let lower_number : is_nan lower ≡ false = ground arith in
      let upper_number : is_nan upper ≡ false = ground arith in
      let in_order = le_of_not_lt fl upper lower upper_number lower_number o in
      elim (Bool-cases (lt upper x)) [
        | inl e ↦ rw e (elim (Bool-cases (lt lower upper)) [
          | inl e' ↦ rw e' (record {
            above = lt→le fl lower upper e';
            below = le_refl fl upper upper_number;
            kept = λ _ k. ground (arith, not_lt_of_le fl x upper k);
          })
          | inr e' ↦ rw e' (record {
            above = le_refl fl lower lower_number;
            below = in_order;
            kept = λ _ k. ground (arith, not_lt_of_le fl x upper k);
          })
        ])
        | inr e ↦ rw e (elim (Bool-cases (lt lower x)) [
          | inl e' ↦ rw e' (record {
            above = lt→le fl lower x e';
            below = le_of_not_lt fl upper x upper_number x_number e;
            kept = λ _ _. fl.eq_self x x_number;
          })
          | inr e' ↦ rw e' (record {
            above = le_refl fl lower lower_number;
            below = in_order;
            kept = λ k _. ground arith;
          })
        ])
      ]

  -- `clamp` of three values, none of them nan, raises for its bounds exactly when the lower is
  -- above the upper; otherwise it returns a value between the bounds, which equals the first
  -- argument where that lies between them.
  pub clamp_of_arguments :
      (x lower upper : F)
      → any is_nan (x ∷ lower ∷ upper ∷ []) ≡ false
      → let result = apply_function fl (codes "clamp") (x ∷ lower ∷ upper ∷ []) in
        (lt upper lower ≡ true) × (result ≡ failed clamp_bounds)
        ⊎ (lt upper lower ≡ false) × (v : F) × (result ≡ value v) × Clamped x lower upper v
  unfolding apply_function clamp_call clamp_of text_eq
  clamp_of_arguments x lower upper h = elim (Bool-cases (lt upper lower)) [
    | inl e ↦ inl (e, rw h (rw e))
    | inr e ↦ inr (
      e,
      max_of fl lower (min_of fl x (upper ∷ []) ∷ []),
      rw h (rw e),
      clamp_of-Clamped x lower upper h e,
    )
  ]
