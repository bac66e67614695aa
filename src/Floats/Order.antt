-- ===== src/Floats/Order.antt =====
-- The order of the floats, from the laws of IEEE 754.
use send_to_influx.Prelude.{◌≡◌, true, false, arith}
use send_to_influx.Floats.{Floats, le}

module _ (fl : Floats) where
  open fl use {
    F, lt, eq, is_nan, lt_trans, lt_eq, eq_lt, eq_trans, lt_asym, eq_self, eq_sym, trichotomy,
    lt_left_nan, lt_right_nan, eq_nan,
  }

  pub le_refl : (a : F) → is_nan a ≡ false → le fl a a ≡ true
  le_refl a h = ground (arith, eq_self a h)

  pub le_trans : (a b c : F) → le fl a b ≡ true → le fl b c ≡ true → le fl a c ≡ true
  le_trans a b c h k = ground (arith, lt_trans a b c, lt_eq a b c, eq_lt a b c, eq_trans a b c)

  pub lt-le_trans : (a b c : F) → lt a b ≡ true → le fl b c ≡ true → lt a c ≡ true
  lt-le_trans a b c h k = ground (arith, lt_trans a b c, lt_eq a b c)

  pub le-lt_trans : (a b c : F) → le fl a b ≡ true → lt b c ≡ true → lt a c ≡ true
  le-lt_trans a b c h k = ground (arith, lt_trans a b c, eq_lt a b c)

  pub lt→le : (a b : F) → lt a b ≡ true → le fl a b ≡ true
  lt→le a b h = rw h

  -- Between numbers, not less is at least.
  pub le_of_not_lt :
      (a b : F) → is_nan a ≡ false → is_nan b ≡ false → lt a b ≡ false → le fl b a ≡ true
  le_of_not_lt a b h k n = ground (arith, trichotomy a b h k, eq_sym a b)

  pub not_lt_of_le : (a b : F) → le fl a b ≡ true → lt b a ≡ false
  not_lt_of_le a b h =
      ground (arith, lt_asym a b, lt_asym b b, lt_asym a a, eq_lt a b a, lt_eq b a b)

  -- Between numbers, not at most is above.
  pub lt_of_not_le :
      (a b : F) → is_nan a ≡ false → is_nan b ≡ false → le fl a b ≡ false → lt b a ≡ true
  lt_of_not_le a b h k n = ground (arith, trichotomy a b h k)

  pub not_le_of_lt : (a b : F) → lt a b ≡ true → le fl b a ≡ false
  not_le_of_lt a b h = ground (arith, lt_asym a b h, fl.lt_not_eq a b h, eq_sym b a)
