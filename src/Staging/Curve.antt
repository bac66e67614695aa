-- ===== src/Staging/Curve.antt =====
-- `dwell_level`, `_fits`, `_same_state` and `_level_along` of toinflux/staging.py: the level that a
-- dwell's states stand for on a curve.
use send_to_influx.Prelude.{
  ℕ, Bool, false, ◌&&◌, ◌||◌, Option, none, some, List, [], ◌∷◌, ◌++◌, all, any, length,
  if◌then◌else◌, Text, codes, contains, get,
}
use send_to_influx.Floats.{Floats, le}
use send_to_influx.Controls.{State, value}
use send_to_influx.Rules.Evaluate.{min_of, max_of}
use send_to_influx.Staging.{States, Stage, Ladder, rungs, state_eq}

module _ (fl : Floats) (sum : List fl.F → fl.F) (of_count : ℕ → fl.F) where
  open fl use {F, lt, eq, add, sub, mul, div, neg, zero_float, one_float, is_finite, of_text}

  abbrev on_curve : F
  on_curve = of_text (codes "1e-9")

  abbrev shares_agree : F
  shares_agree = of_text (codes "1e-6")

  -- `math.isclose` with no relative tolerance.
  unfoldable pub is_close : F → F → Bool
  is_close a b = eq a b || ((is_finite a && is_finite b) && le fl (fl.abs (sub b a)) on_curve)

  -- `_same_state`; none is a device that a rung does not have.
  unfoldable pub same_state : State F → Option (State F) → Bool
  unfolding is_close
  same_state s none = false
  same_state (value a) (some (value b)) = is_close a b
  same_state s (some t) = state_eq fl s t

  abbrev and_share : F → Option (List F) → Option (List F)
  and_share share none = none
  and_share share (some shares) = some (share ∷ shares)

  -- min(max(share, 0.0), 1.0)
  abbrev clip : F → F
  clip share =
      let raised = if lt share zero_float then zero_float else share in
      if lt one_float raised then one_float else raised

  -- One driven device in the loop of `_level_along`, given the rest of the loop.
  unfoldable pub driven_share :
      State F → Option (State F) → Option (State F) → Option (List F) → Option (List F)
  unfolding is_close
  driven_share (value x) (some (value low)) (some (value high)) rest =
      let share = div (sub x low) (sub high low) in
      if eq high low
      then if is_close x low then rest else none
      else if le fl (neg on_curve) share && le fl share (add one_float on_curve)
      then and_share (clip share) rest
      else none
  driven_share s low high rest = rest

  -- The loop of `_level_along`: none where the stretch is ruled out.
  unfoldable pub shares_along : Stage fl → Stage fl → List Text → States fl → Option (List F)
  unfolding same_state driven_share
  shares_along lower upper driven [] = some []
  shares_along lower upper driven ((device, state) ∷ rest) =
      let more = shares_along lower upper driven rest in
      let low = get device lower.states in
      let high = get device upper.states in
      if contains driven device
      then driven_share state low high more
      else if same_state state low && same_state state high
      then more
      else none

  -- `_level_along`: the level, and whether the devices agree on it.
  unfoldable pub placed : Stage fl → Stage fl → Option (List F) → Option (F × Bool)
  placed lower upper none = none
  placed lower upper (some []) = none
  placed lower upper (some (x ∷ xs)) =
      if eq upper.level lower.level
      then none
      else some (
        add lower.level
            (div (mul (sub upper.level lower.level) (sum (x ∷ xs))) (of_count (length (x ∷ xs)))),
        le fl (sub (max_of fl x xs) (min_of fl x xs)) shares_agree,
      )

  unfoldable pub level_along : Stage fl → Stage fl → Stage fl → List Text → Option (F × Bool)
  unfolding shares_along placed
  level_along stage lower upper driven =
      placed lower upper (shares_along lower upper driven stage.states)

  -- The first loop of `_fits`.
  unfoldable pub rung_fits : Stage fl → List (Stage fl) → List F
  unfolding same_state
  rung_fits stage [] = []
  rung_fits stage (rung ∷ rest) =
      let later = rung_fits stage rest in
      if all (λ (device, state). same_state state (get device rung.states)) stage.states
      then rung.level ∷ later
      else later

  abbrev sorted_out : Option (F × Bool) → List F × List F → List F × List F
  sorted_out none (exact, approximate) = (exact, approximate)
  sorted_out (some (level, agreed)) (exact, approximate) =
      if agreed then (level ∷ exact, approximate) else (exact, level ∷ approximate)

  -- The second loop of `_fits`, over the adjacent rungs.
  unfoldable pub stretch_fits : Stage fl → List Text → Stage fl → List (Stage fl) → List F × List F
  unfolding level_along
  stretch_fits stage driven lower [] = ([], [])
  stretch_fits stage driven lower (upper ∷ rest) =
      sorted_out (level_along stage lower upper driven) (stretch_fits stage driven upper rest)

  -- `_fits`: the exact levels and the approximate ones.
  unfoldable pub fits : Stage fl → Ladder fl → List Text → List F × List F
  unfolding rung_fits stretch_fits
  fits stage curve driven =
      let (exact, approximate) = stretch_fits stage driven curve.first curve.others in
      (rung_fits stage (rungs fl curve) ++ exact, approximate)

  -- The first of the levels that are nearest to a reference.
  unfoldable pub nearest : F → F → List F → F
  nearest reference best [] = best
  nearest reference best (level ∷ rest) =
      nearest reference
        (if lt (fl.abs (sub level reference)) (fl.abs (sub best reference)) then level else best)
        rest

  abbrev or_else_list : List F → List F → List F
  or_else_list [] other = other
  or_else_list (x ∷ xs) other = x ∷ xs

  abbrev nearest_of : F → F → List F → F
  nearest_of own reference [] = own
  nearest_of own reference (x ∷ xs) = nearest reference x xs

  abbrev or_own : Option F → F → F
  or_own none own = own
  or_own (some near) own = near

  -- `dwell_level`; without a driven device no state's device is driven.
  unfoldable pub dwell_level : Stage fl → Ladder fl → List Text → Option F → F
  unfolding fits nearest
  dwell_level stage curve driven near =
      let (exact, approximate) = fits stage curve driven in
      if any (λ (device, state). contains driven device) stage.states
      then nearest_of stage.level (or_own near stage.level) (or_else_list exact approximate)
      else stage.level
