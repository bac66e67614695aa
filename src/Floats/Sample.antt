-- ===== src/Floats/Sample.antt =====
-- Whole numbers and one nan, as an instance of the floats: it shows that what the model assumes of
-- them can hold, and the tests run on it.
use Prim.Native.Nat.{◌/◌}
use send_to_influx.Prelude.{
  ℕ, ◌+◌, ◌-◌, ◌*◌, ◌≡◌, refl, Bool, true, false, [], ◌∷◌, ◌&&◌, ◌||◌, arith, ltb, leb, ◌==◌,
  if◌then◌else◌, Text,
}
use send_to_influx.Floats.{Floats}

-- `below n` is -(n + 1).
pub data Sample : Type 0 where
  whole below : ℕ → Sample
  undefined : Sample

-- A value is `above_zero - below_zero`.
abbrev pub above_zero : Sample → ℕ
above_zero (whole n) = n
above_zero _ = 0

abbrev pub below_zero : Sample → ℕ
below_zero (below n) = n + 1
below_zero _ = 0

abbrev pub defined : Sample → Bool
defined undefined = false
defined _ = true

abbrev difference : ℕ → ℕ → Sample
difference p m = if leb m p then whole (p - m) else below (m - p - 1)

abbrev strict : Sample → Sample → Sample → Sample
strict a b r = if defined a && defined b then r else undefined

abbrev decimal : ℕ → Text → ℕ
decimal n [] = n
decimal n (c ∷ cs) = decimal (n * 10 + (c - b'0')) cs

abbrev pub sample_lt : Sample → Sample → Bool
sample_lt a b =
    (defined a && defined b) && ltb (above_zero a + below_zero b) (above_zero b + below_zero a)

abbrev sample_eq : Sample → Sample → Bool
sample_eq a b =
    (defined a && defined b) && above_zero a + below_zero b == above_zero b + below_zero a

abbrev sample_div : Sample → Sample → Sample
sample_div a b =
    let q = (above_zero a + below_zero a) / (above_zero b + below_zero b) in
    if below_zero a == 0 && below_zero b == 0 || ltb 0 (below_zero a) && ltb 0 (below_zero b)
    then whole q
    else difference 0 q

abbrev pub is_undefined : Sample → Bool
is_undefined a = if defined a then false else true

pub sample_trichotomy :
    (a b : Sample)
    → is_undefined a ≡ false
    → is_undefined b ≡ false
    → (sample_lt a b || (sample_eq a b || sample_lt b a)) ≡ true
sample_trichotomy a b h k = ground arith

pub sample_lt_trans :
    (a b c : Sample) → sample_lt a b ≡ true → sample_lt b c ≡ true → sample_lt a c ≡ true
sample_lt_trans a b c h k = ground arith

pub sample_lt_eq :
    (a b c : Sample) → sample_lt a b ≡ true → sample_eq b c ≡ true → sample_lt a c ≡ true
sample_lt_eq a b c h k = ground arith

pub sample_eq_lt :
    (a b c : Sample) → sample_eq a b ≡ true → sample_lt b c ≡ true → sample_lt a c ≡ true
sample_eq_lt a b c h k = ground arith

pub sample_eq_trans :
    (a b c : Sample) → sample_eq a b ≡ true → sample_eq b c ≡ true → sample_eq a c ≡ true
sample_eq_trans a b c h k = ground arith

pub sample_eq_self : (a : Sample) → is_undefined a ≡ false → sample_eq a a ≡ true
sample_eq_self a h = ground arith

pub sample_eq_sym : (a b : Sample) → sample_eq a b ≡ true → sample_eq b a ≡ true
sample_eq_sym a b h = ground arith

pub sample_lt_asym : (a b : Sample) → sample_lt a b ≡ true → sample_lt b a ≡ false
sample_lt_asym a b h = ground arith

pub sample_lt_not_eq : (a b : Sample) → sample_lt a b ≡ true → sample_eq a b ≡ false
sample_lt_not_eq a b h = ground arith

pub sample_lt_left : (a b : Sample) → is_undefined a ≡ true → sample_lt a b ≡ false
sample_lt_left a b h = ground arith

pub sample_lt_right : (a b : Sample) → is_undefined b ≡ true → sample_lt a b ≡ false
sample_lt_right a b h = ground arith

pub sample_eq_left : (a b : Sample) → is_undefined a ≡ true → sample_eq a b ≡ false
sample_eq_left a b h = ground arith

pub sample_finite : (a : Sample) → defined a ≡ true → is_undefined a ≡ false
sample_finite a h = ground arith

abbrev pub sample_floats : Floats
sample_floats = record {
  F = Sample;
  of_text = λ t. whole (decimal 0 t);
  zero_float = whole 0;
  one_float = whole 1;
  nan = undefined;
  add = λ a b. strict a b (difference (above_zero a + above_zero b) (below_zero a + below_zero b));
  sub = λ a b. strict a b (difference (above_zero a + below_zero b) (below_zero a + above_zero b));
  mul = λ a b. strict a b (
      difference (above_zero a * above_zero b + below_zero a * below_zero b)
        (above_zero a * below_zero b + below_zero a * above_zero b));
  div = λ a b. strict a b (sample_div a b);
  neg = λ a. strict a a (difference (below_zero a) (above_zero a));
  abs = λ a. strict a a (whole (above_zero a + below_zero a));
  lt = sample_lt;
  eq = sample_eq;
  recursion_room = 900;
  is_nan = is_undefined;
  is_finite = defined;
  nan_is_nan = refl;
  finite_not_nan = sample_finite;
  zero_finite = refl;
  one_finite = refl;
  one_ne_zero = refl;
  eq_self = sample_eq_self;
  eq_sym = sample_eq_sym;
  eq_trans = sample_eq_trans;
  lt_trans = sample_lt_trans;
  lt_eq = sample_lt_eq;
  eq_lt = sample_eq_lt;
  lt_asym = sample_lt_asym;
  lt_not_eq = sample_lt_not_eq;
  trichotomy = sample_trichotomy;
  lt_left_nan = sample_lt_left;
  lt_right_nan = sample_lt_right;
  eq_nan = sample_eq_left;
}
