-- ===== src/Staging/Plan.antt =====
-- `interpolated`, `_minimum_transition` and `plan_window` of toinflux/staging.py: how a cycle window
-- is split between rungs.
pub mod Kept
pub mod Held
use send_to_influx.Prelude.{
  Bool, false, not, ◌&&◌, ◌||◌, Option, none, some, List, [], ◌∷◌, all, length, ◌==◌, ℕ,
  if◌then◌else◌, Text, codes, contains, get, put,
}
use send_to_influx.Floats.{Floats, le}
use send_to_influx.Controls.{State, switch, value}
use send_to_influx.Rules.Evaluate.{max_of}
use send_to_influx.Staging.{
  Level, numeric, not_numeric, bad_window, bad_demand, Planned, ok, config_error, rule_failed,
  ◌>>=◌, States, Stage, Ladder, Bracket, landing, between, bracket, state_eq,
}
use send_to_influx.Staging.Curve.{dwell_level}

-- `sum` and the float of a `len` are parameters.
module _ (fl : Floats) (sum : List fl.F → fl.F) (of_count : ℕ → fl.F) where
  open fl use {F, lt, eq, add, sub, mul, div, zero_float, one_float, is_finite}

  pub record Dwell : Type 0 where
    pub stage : Stage fl
    pub seconds : F
    pub level : F

  -- The value of a bool or a number in arithmetic.
  abbrev pub as_number : State F → F
  as_number (switch b) = if b then one_float else zero_float
  as_number (value x) = x

  -- The loop of `interpolated`, from the share on.
  unfoldable pub interpolated_at : F → Stage fl → Stage fl → List Text → List (Text × F)
  interpolated_at share lower upper [] = []
  interpolated_at share lower upper (d ∷ driven) =
      let rest = interpolated_at share lower upper driven in
      elim (get d lower.states) [
        | none ↦ rest
        | some low ↦ elim (get d upper.states) [
          | none ↦ rest
          | some high ↦
              let l = as_number low in (d, add l (mul (sub (as_number high) l) share)) ∷ rest
        ]
      ]

  unfoldable pub interpolated : Stage fl → Stage fl → F → List Text → List (Text × F)
  unfolding interpolated_at
  interpolated lower upper demand driven =
      let span = sub upper.level lower.level in
      interpolated_at (if eq span zero_float then zero_float else div (sub demand lower.level) span)
        lower upper driven

  -- {**states, **values}
  unfoldable pub merged : List (Text × F) → States fl → States fl
  merged [] states = states
  merged ((d, x) ∷ values) states = merged values (put d (value x) states)

  -- `_holding`
  unfoldable pub holding : Stage fl → List (Text × F) → Stage fl
  unfolding merged
  holding stage [] = stage
  holding stage (v ∷ values) = record stage { states = merged (v ∷ values) stage.states }

  -- `rung.states.get(name) == state`
  unfoldable pub has_state : Stage fl → Text × State F → Bool
  has_state rung (name, state) = elim (get name rung.states) [
    | none ↦ false
    | some s ↦ state_eq fl s state
  ]

  -- `==` on two dicts of states.
  unfoldable pub same_states : Stage fl → Stage fl → Bool
  unfolding has_state
  same_states a b = length a.states == length b.states && all (has_state b) a.states

  -- The minimums of the devices that change, `changing` of `_minimum_transition`.
  unfoldable pub minimums : Stage fl → (Text → F) → List Text → States fl → List F
  unfolding has_state
  minimums lower minimum driven [] = []
  minimums lower minimum driven ((name, state) ∷ rest) =
      let others = minimums lower minimum driven rest in
      if not (contains driven name) && not (has_state lower (name, state))
      then minimum name ∷ others
      else others

  -- `max(values, default=0.0)`
  unfoldable pub longest : List F → F
  longest [] = zero_float
  longest (x ∷ xs) = max_of fl x xs

  -- `_minimum_transition`
  unfoldable pub minimum_transition : Stage fl → Stage fl → (Text → F) → List Text → F
  unfolding minimums longest
  minimum_transition lower upper minimum driven =
      longest (minimums lower minimum driven upper.states)

  -- `plan_window` where the demand lies between two rungs.
  unfoldable pub split_window :
      Ladder fl
      → F
      → F
      → (Text → F)
      → List Text
      → List (Text × F)
      → Stage fl
      → Stage fl
      → List Dwell
  split_window curve demand cycle minimum driven held lower upper =
      let share = div (sub demand lower.level) (sub upper.level lower.level) in
      let upper_seconds = mul cycle share in
      let lower_seconds = sub cycle upper_seconds in
      let shortest = minimum_transition lower upper minimum driven in
      let nearer = if le fl (fl.of_text (codes "0.5")) share then upper else lower in
      let at_lower = holding lower held in
      let at_upper = holding upper held in
      if lt lower_seconds shortest || lt upper_seconds shortest
      then record { stage = holding nearer held; seconds = cycle; level = nearer.level } ∷ []
      else if same_states at_lower at_upper
      then record {
        stage = at_lower;
        seconds = cycle;
        level = dwell_level fl sum of_count at_lower curve driven (some demand);
      }
        ∷ []
      else record { stage = at_lower; seconds = lower_seconds; level = lower.level }
        ∷ record { stage = at_upper; seconds = upper_seconds; level = upper.level }
        ∷ []

  -- The pair that `bracket` returns.
  abbrev pub ends : Bracket fl → Stage fl × Stage fl
  ends (landing r) = (r, r)
  ends (between lower upper) = (lower, upper)

  -- `curve or ladder`
  abbrev pub curve_or : Option (Ladder fl) → Ladder fl → Ladder fl
  curve_or none ladder = ladder
  curve_or (some curve) ladder = curve

  unfoldable pub plan_between :
      Ladder fl → F → F → (Text → F) → List Text → List (Text × F) → Bracket fl → List Dwell
  unfolding split_window
  plan_between curve demand cycle minimum driven held (landing r) =
      let stage = holding r held in
      record {
        stage = stage;
        seconds = cycle;
        level = dwell_level fl sum of_count stage curve driven (some demand);
      }
      ∷ []
  plan_between curve demand cycle minimum driven held (between lower upper) =
      split_window curve demand cycle minimum driven held lower upper

  window_of : Level F → Planned F
  window_of not_numeric = config_error bad_window
  window_of (numeric x) =
      if not (is_finite x) || le fl x zero_float then config_error bad_window else ok x

  demand_of : Level F → Planned F
  demand_of not_numeric = rule_failed bad_demand
  demand_of (numeric x) = if is_finite x then ok x else rule_failed bad_demand

  -- `plan_window`
  unfoldable pub plan_window :
      Ladder fl
      → Level F
      → Level F
      → (Text → F)
      → List Text
      → Option (Ladder fl)
      → Planned (List Dwell)
  unfolding window_of demand_of plan_between
  plan_window ladder demand cycle minimum driven curve = window_of cycle >>= λ c.
      demand_of demand >>= λ d.
      let (lower, upper) = ends (bracket fl (curve_or curve ladder) d) in
      ok (
        plan_between (curve_or curve ladder) d c minimum driven (interpolated lower upper d driven)
          (bracket fl ladder d))
