-- ===== src/Staging.antt =====
-- `Stage`, `build_ladder`, `bracket`, `cap_ladder` and `reachable_ladder` of toinflux/staging.py.
pub mod Sorted
pub mod Landing
pub mod Ties
pub mod Caps
pub mod Curve
pub mod Plan
pub mod Pinned
use send_to_influx.Prelude.{
  ℕ, suc, Bool, true, false, not, ◌&&◌, ◌||◌, Option, none, some, List, [], ◌∷◌, all, ltb,
  if◌then◌else◌, Text, get,
}
use send_to_influx.Floats.{Floats, le}
use send_to_influx.Controls.{State, switch, value}

-- A `level` of a document or the value of a rule: `numeric` for an int or a float that is no bool.
pub data Level (F : Type 0) : Type 0 where
  numeric : F → Level F
  not_numeric : Level F

pub data Problem : Type 0 where
  empty_ladder bad_window : Problem
  bad_level : ℕ → Problem
  bad_cap bad_demand : Problem

-- `config_error` is a ConfigError and `rule_failed` a RuleEvaluationError.
pub data Planned (A : Type 0) : Type 0 where
  ok : A → Planned A
  config_error rule_failed : Problem → Planned A

infixl 5 ◌>>=◌
abbrev pub ◌>>=◌ : {A B : Type 0} → Planned A → (A → Planned B) → Planned B
ok a >>= f = f a
config_error p >>= f = config_error p
rule_failed p >>= f = rule_failed p

module _ (fl : Floats) where
  open fl use {F, lt, eq, is_finite}

  abbrev pub States : Type 0
  States = List (Text × State F)

  pub record Stage : Type 0 where
    pub level : F
    pub declared : ℕ
    pub states : States

  -- A ladder is a tuple that is not empty: `ladder[0]` and the others.
  pub record Ladder : Type 0 where
    pub first : Stage
    pub others : List Stage

  abbrev pub rungs : Ladder → List Stage
  rungs l = l.first ∷ l.others

  -- An entry of `output.stages`.
  pub record StageEntry : Type 0 where
    pub level : Level F
    pub states : States

  -- `_finite_level`
  unfoldable pub finite_level : Level F → ℕ → Planned F
  finite_level not_numeric index = config_error (bad_level index)
  finite_level (numeric x) index = if is_finite x then ok x else config_error (bad_level index)

  -- The comprehension of `build_ladder`, from an index on.
  unfoldable pub stages_from : ℕ → List StageEntry → Planned (List Stage)
  unfolding finite_level
  stages_from index [] = ok []
  stages_from index (e ∷ es) = finite_level e.level index >>= λ level.
      stages_from (suc index) es >>= λ rest.
      ok (record { level = level; declared = index; states = e.states } ∷ rest)

  -- The order of the keys `(rung.level, rung.declared)`.
  unfoldable pub before : Stage → Stage → Bool
  before a b = lt a.level b.level || (eq a.level b.level && ltb a.declared b.declared)

  -- `sorted` by that key.
  unfoldable pub insert_stage : Stage → List Stage → List Stage
  insert_stage s [] = s ∷ []
  insert_stage s (t ∷ ts) = if before t s then t ∷ insert_stage s ts else s ∷ t ∷ ts

  unfoldable pub sort_stages : List Stage → List Stage
  unfolding insert_stage
  sort_stages [] = []
  sort_stages (s ∷ ss) = insert_stage s (sort_stages ss)

  unfoldable pub as_ladder : List Stage → Planned Ladder
  as_ladder [] = config_error empty_ladder
  as_ladder (s ∷ ss) = ok (record { first = s; others = ss })

  unfoldable pub build_ladder : List StageEntry → Planned Ladder
  build_ladder entries = stages_from 0 entries >>= λ stages. as_ladder (sort_stages stages)

  -- `ladder[-1]`
  unfoldable pub last_of : Stage → List Stage → Stage
  last_of s [] = s
  last_of s (t ∷ ts) = last_of t ts

  -- What `bracket` returns: one rung twice, or two rungs.
  pub data Bracket : Type 0 where
    landing : Stage → Bracket
    between : Stage → Stage → Bracket

  -- The loop of `bracket`; `top` is `ladder[-1]`.
  unfoldable pub bracket_from : Stage → Stage → F → List Stage → Bracket
  bracket_from top lower demand [] = between lower top
  bracket_from top lower demand (rung ∷ rest) =
      let onward =
        bracket_from top (if lt lower.level rung.level then rung else lower) demand rest in
      if eq rung.level demand
      then landing rung
      else if lt demand rung.level
      then between lower rung
      else onward

  unfoldable pub bracket : Ladder → F → Bracket
  unfolding last_of bracket_from
  bracket ladder demand =
      let top = last_of ladder.first ladder.others in
      if le fl demand ladder.first.level
      then landing ladder.first
      else if le fl top.level demand
      then landing top
      else bracket_from top ladder.first demand (rungs ladder)

  -- The rungs that a test keeps.
  unfoldable pub keep : (Stage → Bool) → List Stage → List Stage
  keep p [] = []
  keep p (s ∷ ss) = let rest = keep p ss in if p s then s ∷ rest else rest

  -- `allowed or ladder[:1]` and `available or ladder`: what is left, or else a ladder.
  unfoldable pub or_else : List Stage → Ladder → Ladder
  or_else [] ladder = ladder
  or_else (s ∷ ss) ladder = record { first = s; others = ss }

  -- `cap_ladder`; none is no cap.
  unfoldable pub cap_ladder : Ladder → Option (Level F) → Planned Ladder
  unfolding or_else
  cap_ladder ladder none = ok ladder
  cap_ladder ladder (some not_numeric) = rule_failed bad_cap
  cap_ladder ladder (some (numeric cap)) =
      if is_finite cap
      then ok (
          or_else (keep (λ rung. le fl rung.level cap) (rungs ladder))
            (record { first = ladder.first; others = [] }))
      else rule_failed bad_cap

  -- `==` on commanded states; a bool is the number that it is.
  unfoldable pub state_eq : State F → State F → Bool
  state_eq (switch a) (switch b) = if a then b else not b
  state_eq (value x) (value y) = eq x y
  state_eq (switch a) (value y) = eq (if a then fl.one_float else fl.zero_float) y
  state_eq (value x) (switch b) = eq x (if b then fl.one_float else fl.zero_float)

  -- `rung.states.get(device) == states[device]`, for a device in `states`.
  unfoldable pub stays : Stage → States → Text → Bool
  unfolding state_eq
  stays rung states device = elim (get device states) [
    | none ↦ true
    | some held ↦ elim (get device rung.states) [ none ↦ false | some s ↦ state_eq s held ]
  ]

  unfoldable pub reachable_ladder : Ladder → List Text → States → Ladder
  unfolding or_else
  reachable_ladder ladder [] states = ladder
  reachable_ladder ladder (d ∷ ds) states =
      or_else (keep (λ rung. all (stays rung states) (d ∷ ds)) (rungs ladder)) ladder
