-- ===== src/Staging/Pinned.antt =====
-- `pinned_plan` and `_carried` of toinflux/staging.py: a plan whose driven devices keep the values
-- that they already hold.
use send_to_influx.Prelude.{
  ℕ, ◌≡◌, refl, Bool, ◌&&◌, ◌||◌, some, List, [], ◌∷◌, any, if◌then◌else◌, Text, codes, get,
  Distinct,
}
use send_to_influx.Floats.{Floats, le}
use send_to_influx.Staging.{Stage, Ladder}
use send_to_influx.Staging.Curve.{fits, dwell_level}
use send_to_influx.Staging.Plan.{Dwell, merged}
use send_to_influx.Staging.Plan.Held.{held_or, get-merged}

module _ (fl : Floats) (sum : List fl.F → fl.F) (of_count : ℕ → fl.F) where
  open fl use {F, eq, mul, sub, abs, is_finite, of_text}

  -- `math.isclose` with both tolerances at 1e-9.
  unfoldable pub is_nearly : F → F → Bool
  is_nearly a b =
      let tolerance = of_text (codes "1e-9") in
      let apart = abs (sub b a) in
      eq a b
      || ((is_finite a && is_finite b)
          && ((le fl apart (abs (mul tolerance b)) || le fl apart (abs (mul tolerance a)))
              || le fl apart tolerance))

  -- `_carried`
  unfoldable pub carried : Stage fl → Ladder fl → List Text → F → Bool
  unfolding is_nearly
  carried stage curve driven level =
      any (λ fit. is_nearly fit level) (fits fl sum of_count stage curve driven).0

  -- One dwell in the loop of `pinned_plan`. Every dwell of a plan has its level.
  unfoldable pub pinned_dwell :
      List (Text × F) → Ladder fl → List Text → Dwell fl sum of_count → Dwell fl sum of_count
  unfolding carried
  pinned_dwell pinned curve driven dwell =
      let stage : Stage fl = record {
        level = dwell.stage.level;
        declared = dwell.stage.declared;
        states = merged fl sum of_count pinned dwell.stage.states;
      } in
      record {
        stage = stage;
        seconds = dwell.seconds;
        level =
            if carried dwell.stage curve driven dwell.level
            then dwell_level fl sum of_count stage curve driven (some dwell.level)
            else dwell.level;
      }

  -- The loop of `pinned_plan`.
  unfoldable pub pinned_dwells :
      List (Text × F)
      → Ladder fl
      → List Text
      → List (Dwell fl sum of_count)
      → List (Dwell fl sum of_count)
  unfolding pinned_dwell
  pinned_dwells pinned curve driven [] = []
  pinned_dwells pinned curve driven (dwell ∷ plan) =
      pinned_dwell pinned curve driven dwell ∷ pinned_dwells pinned curve driven plan

  unfoldable pub pinned_plan :
      List (Dwell fl sum of_count)
      → List (Text × F)
      → Ladder fl
      → List Text
      → List (Dwell fl sum of_count)
  unfolding pinned_dwells
  pinned_plan plan [] curve driven = plan
  pinned_plan plan (p ∷ pinned) curve driven = pinned_dwells (p ∷ pinned) curve driven plan

  -- The same stretches of time, in which a pinned device is at its value and every other one as it
  -- was planned.
  abbrev pub IsPinned :
      List (Text × F) → List (Dwell fl sum of_count) → List (Dwell fl sum of_count) → Type 0
  IsPinned pinned [] [] = Unit
  IsPinned pinned (a ∷ plan) (b ∷ result) =
      (b.seconds ≡ a.seconds)
      × ((name : Text)
          → get name b.stage.states
            ≡ held_or fl sum of_count (get name pinned) (get name a.stage.states))
      × IsPinned pinned plan result
  IsPinned pinned _ _ = ⊥

  pinned_dwells-IsPinned :
      (pinned : List (Text × F)) (curve : Ladder fl) (driven : List Text)
      (plan : List (Dwell fl sum of_count))
      → Distinct pinned
      → IsPinned pinned plan (pinned_dwells pinned curve driven plan)
  unfolding pinned_dwells
  pinned_dwells-IsPinned pinned curve driven [] u = tt
  pinned_dwells-IsPinned pinned curve driven (a ∷ plan) u = (
    refl,
    (λ name. get-merged fl sum of_count pinned a.stage.states name u),
    pinned_dwells-IsPinned pinned curve driven plan u,
  )

  unpinned : (plan : List (Dwell fl sum of_count)) → IsPinned [] plan plan
  unfolding get
  unpinned [] = tt
  unpinned (a ∷ plan) = (refl, (λ name. refl), unpinned plan)

  -- A pinned plan has the dwells of the plan, each as long as it was, and in each a pinned device is
  -- commanded to the value it keeps and every other device to what was planned.
  pub pinned_plan-IsPinned :
      (plan : List (Dwell fl sum of_count)) (pinned : List (Text × F)) (curve : Ladder fl)
      (driven : List Text)
      → Distinct pinned
      → IsPinned pinned plan (pinned_plan plan pinned curve driven)
  unfolding pinned_plan
  pinned_plan-IsPinned plan [] curve driven u = unpinned plan
  pinned_plan-IsPinned plan (p ∷ pinned) curve driven u =
      pinned_dwells-IsPinned (p ∷ pinned) curve driven plan u
