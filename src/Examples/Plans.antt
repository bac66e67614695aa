-- ===== src/Examples/Plans.antt =====
-- `plan_window` of toinflux/staging.py on concrete inputs.
use send_to_influx.Prelude.{
  ◌≡◌, refl, true, false, none, some, List, [], ◌∷◌, Text, codes, text_eq, Distinct, get,
}
use send_to_influx.Floats.Sample.{Sample, whole, sample_floats}
use send_to_influx.Controls.{State, switch}
use send_to_influx.Staging.{numeric, ok, Ladder, bracket}
use send_to_influx.Staging.Plan.{Dwell, interpolated, ends, plan_window, holding}
use send_to_influx.Staging.Plan.Kept.{PlanOf, plan_window-PlanOf}
use send_to_influx.Staging.Pinned.{pinned_plan, IsPinned, pinned_plan-IsPinned}
use send_to_influx.Staging.Plan.Held.{holding-get}

abbrev sum_of : List Sample → Sample
sum_of [] = whole 0
sum_of (x ∷ xs) = sample_floats.add x (sum_of xs)

abbrev minimum : Text → Sample
minimum name = whole 0

-- A fan that is switched, and a lamp that is driven.
abbrev fan_and_lamp : Ladder sample_floats
fan_and_lamp = record {
  first = record {
    level = whole 0;
    declared = 0;
    states = (codes "fan", switch false) ∷ (codes "lamp", State.value (whole 0)) ∷ [];
  };
  others =
      record {
        level = whole 100;
        declared = 1;
        states = (codes "fan", switch true) ∷ (codes "lamp", State.value (whole 80)) ∷ [];
      }
      ∷ [];
}

plan_window-PlanOf_example :
    let (lower, upper) =
      ends sample_floats sum_of whole (bracket sample_floats fan_and_lamp (whole 40)) in
    (dwells : List (Dwell sample_floats sum_of whole)) × (plan_window sample_floats sum_of whole
        fan_and_lamp
        (numeric (whole 40))
        (numeric (whole 900))
        minimum
        (codes "lamp" ∷ [])
        none
      ≡ ok dwells)
    × PlanOf sample_floats sum_of whole lower upper
        (interpolated sample_floats sum_of whole lower upper (whole 40) (codes "lamp" ∷ []))
        (whole 900)
        (codes "lamp" ∷ [])
        minimum
        dwells
plan_window-PlanOf_example =
    plan_window-PlanOf sample_floats sum_of whole fan_and_lamp (whole 40) (whole 900) minimum
      (codes "lamp" ∷ []) none refl refl refl (λ name. refl)

abbrev held : List (Text × Sample)
held = (codes "lamp", whole 32) ∷ []

held-Distinct : Distinct held
unfolding get text_eq
held-Distinct = (refl, tt)

holding-get_test :
    get (codes "lamp") (holding sample_floats sum_of whole fan_and_lamp.first held).states
    ≡ some (State.value (whole 32))
unfolding get text_eq
holding-get_test =
    holding-get sample_floats sum_of whole fan_and_lamp.first held (codes "lamp") held-Distinct

abbrev planned : List (Dwell sample_floats sum_of whole)
planned = record { stage = fan_and_lamp.first; seconds = whole 900; level = whole 0 } ∷ []

pinned_plan-IsPinned_example :
    IsPinned sample_floats sum_of whole held planned
      (pinned_plan sample_floats sum_of whole planned held fan_and_lamp (codes "lamp" ∷ []))
pinned_plan-IsPinned_example =
    pinned_plan-IsPinned sample_floats sum_of whole planned held fan_and_lamp (codes "lamp" ∷ [])
      held-Distinct
