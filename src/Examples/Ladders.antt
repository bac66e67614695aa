-- ===== src/Examples/Ladders.antt =====
-- toinflux/staging.py on concrete inputs.
use send_to_influx.Prelude.{ℕ, ◌≡◌, refl, Bool, true, false, some, List, [], ◌∷◌, arith, codes}
use mathlib.Core.List.{Perm}
use send_to_influx.Floats.{le}
use send_to_influx.Floats.Sample.{whole, sample_floats}
use send_to_influx.Controls.{switch}
use send_to_influx.Staging.{
  numeric, ok, Stage, States, Ladder, rungs, StageEntry, stages_from, before, build_ladder, landing,
  bracket, cap_ladder, keep, sort_stages, as_ladder,
}
use send_to_influx.Staging.Sorted.{Sorted, build_ladder-Sorted}
use send_to_influx.Staging.Landing.{BracketOf, bracket-BracketOf}
use send_to_influx.Staging.Ties.{EarliestWins, top_tie_lands_on_latest}
use send_to_influx.Staging.Caps.{Filtered, lowest, cap_ladder-Filtered}

abbrev set_to : Bool → Bool → States sample_floats
set_to far near = (codes "far", switch far) ∷ (codes "near", switch near) ∷ []

-- Two heaters of 750 each; the far one is declared first. The document's order is not the ladder's.
abbrev entries : List (StageEntry sample_floats)
entries =
    record { level = numeric (whole 750); states = set_to true false }
    ∷ record { level = numeric (whole 0); states = set_to false false }
    ∷ record { level = numeric (whole 750); states = set_to false true }
    ∷ []

abbrev rung : ℕ → ℕ → Bool → Bool → Stage sample_floats
rung level declared far near = record {
  level = whole level;
  declared = declared;
  states = set_to far near;
}

abbrev heaters : Ladder sample_floats
heaters = record {
  first = rung 0 1 false false;
  others = rung 750 0 true false ∷ rung 750 2 false true ∷ [];
}

heaters_built : build_ladder sample_floats entries ≡ ok heaters
unfolding build_ladder stages_from sort_stages as_ladder before
heaters_built = refl

build_ladder-Sorted_example :
    (stages : List (Stage sample_floats)) × (stages_from sample_floats 0 entries ≡ ok stages)
    × Perm (rungs sample_floats heaters) stages
    × Sorted sample_floats (rungs sample_floats heaters)
build_ladder-Sorted_example = build_ladder-Sorted sample_floats entries heaters heaters_built

heaters-Sorted : Sorted sample_floats (rungs sample_floats heaters)
heaters-Sorted = (build_ladder-Sorted sample_floats entries heaters heaters_built).3

-- Half of what both heaters give, and more than they give.
bracket-BracketOf_example :
    BracketOf sample_floats heaters (whole 400) (bracket sample_floats heaters (whole 400))
bracket-BracketOf_example =
    bracket-BracketOf sample_floats heaters (whole 400) heaters-Sorted (refl, (refl, (refl, tt)))
      refl

top_tie_lands_on_latest_example :
    (bracket sample_floats heaters (whole 900) ≡ landing (rung 750 2 false true))
    × ¬ EarliestWins sample_floats heaters (bracket sample_floats heaters (whole 900))
top_tie_lands_on_latest_example =
    top_tie_lands_on_latest sample_floats (rung 0 1 false false) (rung 750 0 true false)
      (rung 750 2 false true) [] (whole 900) refl (omega arith) refl refl

-- A cap of 400 leaves the rung where both are off.
abbrev capped : Ladder sample_floats
capped = record { first = rung 0 1 false false; others = [] }

heaters_cut : cap_ladder sample_floats heaters (some (numeric (whole 400))) ≡ ok capped
unfolding cap_ladder keep
heaters_cut = refl

cap_ladder-Filtered_example :
    Filtered sample_floats
      (λ r. le sample_floats r.level (whole 400))
      heaters
      (lowest sample_floats heaters)
      capped
cap_ladder-Filtered_example =
    cap_ladder-Filtered sample_floats heaters capped (whole 400) heaters_cut
