-- ===== src/Staging/Plan/Kept.antt =====
-- What `plan_window` of toinflux/staging.py plans.
use send_to_influx.Prelude.{
  inl, inr, ◌⊎◌, ℕ, ◌≡◌, refl, Bool, true, false, not, ◌&&◌, ◌||◌, Option, List, [], ◌∷◌, All, any,
  Bool-cases, if◌then◌else◌, arith, Text, codes, contains,
}
use send_to_influx.Floats.{Floats, le}
use send_to_influx.Floats.Order.{lt-le_trans}
use send_to_influx.Controls.{State}
use send_to_influx.Rules.Evaluate.{max_of}
use send_to_influx.Rules.Evaluate.Functions.{max_of-IsGreatest}
use send_to_influx.Staging.{numeric, ok, States, Stage, Ladder, Bracket, landing, between, bracket}
use send_to_influx.Staging.Plan.{
  Dwell, interpolated, holding, has_state, same_states, minimums, longest, minimum_transition,
  split_window, ends, curve_or, plan_between, plan_window, window_of, demand_of,
}

module _ (fl : Floats) (sum : List fl.F → fl.F) (of_count : ℕ → fl.F) where
  open fl use {F, lt, is_nan, is_finite, zero_float}

  -- A device that is switched between two rungs.
  abbrev pub Switches : Stage fl → List Text → Text × State F → Type 0
  Switches lower driven (name, state) =
      (not (contains driven name) && not (has_state fl sum of_count lower (name, state))) ≡ true

  -- No device that is switched has a minimum above a number of seconds.
  abbrev pub Spaced : Stage fl → Stage fl → List Text → (Text → F) → F → Type 0
  Spaced lower upper driven minimum seconds =
      All (λ (name, state). Switches lower driven (name, state) → lt seconds (minimum name) ≡ false)
        upper.states

  -- One dwell: one of the two rungs, with the driven devices at their values, for the whole window.
  pub record Whole (lower upper : Stage fl) (held : List (Text × F)) (cycle : F)
      (a : Dwell fl sum of_count) : Type 0 where
    pub window : a.seconds ≡ cycle
    pub rung :
        (a.stage ≡ holding fl sum of_count lower held)
        ⊎ (a.stage ≡ holding fl sum of_count upper held)

  -- Two dwells that share the window: the lower rung and then the upper, whose commands differ, each
  -- for at least the minimum of every device that is switched between them.
  pub record Split (lower upper : Stage fl) (held : List (Text × F)) (driven : List Text)
      (cycle : F) (minimum : Text → F) (a b : Dwell fl sum of_count) : Type 0 where
    pub lower_first : a.stage ≡ holding fl sum of_count lower held
    pub upper_second : b.stage ≡ holding fl sum of_count upper held
    pub differ : same_states fl sum of_count a.stage b.stage ≡ false
    pub fills : a.seconds ≡ fl.sub cycle b.seconds
    pub lower_spaced : Spaced lower upper driven minimum a.seconds
    pub upper_spaced : Spaced lower upper driven minimum b.seconds

  abbrev pub PlanOf :
      Stage fl
      → Stage fl
      → List (Text × F)
      → F
      → List Text
      → (Text → F)
      → List (Dwell fl sum of_count)
      → Type 0
  PlanOf lower upper held cycle driven minimum (a ∷ []) = Whole lower upper held cycle a
  PlanOf lower upper held cycle driven minimum (a ∷ b ∷ []) =
      Split lower upper held driven cycle minimum a b
  PlanOf lower upper held cycle driven minimum _ = ⊥

  All-lt_of_le :
      (seconds top : F) (xs : List F)
      → lt seconds top ≡ false
      → All (λ x. le fl x top ≡ true) xs
      → All (λ x. lt seconds x ≡ false) xs
  All-lt_of_le seconds top [] h all = tt
  All-lt_of_le seconds top (x ∷ xs) h all =
      (ground (arith, h, all.0, lt-le_trans fl seconds x top), All-lt_of_le seconds top xs h all.1)

  longest-All :
      (seconds : F) (xs : List F)
      → any is_nan xs ≡ false
      → lt seconds (longest fl sum of_count xs) ≡ false
      → All (λ x. lt seconds x ≡ false) xs
  unfolding longest
  longest-All seconds [] n h = tt
  longest-All seconds (x ∷ xs) n h =
      All-lt_of_le seconds (max_of fl x xs) (x ∷ xs) h
        (max_of-IsGreatest fl x xs (ground arith) (ground arith)).bound

  minimums-any_nan :
      (lower : Stage fl) (minimum : Text → F) (driven : List Text) (states : States fl)
      → ((name : Text) → is_nan (minimum name) ≡ false)
      → any is_nan (minimums fl sum of_count lower minimum driven states) ≡ false
  unfolding minimums
  minimums-any_nan lower minimum driven [] n = refl
  minimums-any_nan lower minimum driven ((name, state) ∷ rest) n =
      let ih = minimums-any_nan lower minimum driven rest n in
      elim (Bool-cases
        (not (contains driven name) && not (has_state fl sum of_count lower (name, state)))) [
          | inl e ↦ rw e (rw (n name) ih)
          | inr e ↦ rw e ih
        ]

  minimums-Spaced :
      (seconds : F) (lower : Stage fl) (minimum : Text → F) (driven : List Text)
      (states : States fl)
      → All (λ x. lt seconds x ≡ false) (minimums fl sum of_count lower minimum driven states)
      → All
          (λ (name, state). Switches lower driven (name, state) → lt seconds (minimum name) ≡ false)
          states
  unfolding minimums
  minimums-Spaced seconds lower minimum driven [] h = tt
  minimums-Spaced seconds lower minimum driven ((name, state) ∷ rest) h =
      elim (Bool-cases
        (not (contains driven name) && not (has_state fl sum of_count lower (name, state)))) [
          | inl e ↦
              let h' = rw e at h in
              ((λ _. h'.0), minimums-Spaced seconds lower minimum driven rest h'.1)
          | inr e ↦ ((λ k. cc), minimums-Spaced seconds lower minimum driven rest (rw e at h))
        ]

  minimum_transition-Spaced :
      (seconds : F) (lower upper : Stage fl) (minimum : Text → F) (driven : List Text)
      → ((name : Text) → is_nan (minimum name) ≡ false)
      → lt seconds (minimum_transition fl sum of_count lower upper minimum driven) ≡ false
      → Spaced lower upper driven minimum seconds
  unfolding minimum_transition
  minimum_transition-Spaced seconds lower upper minimum driven n h =
      minimums-Spaced seconds lower minimum driven upper.states (
        longest-All seconds (minimums fl sum of_count lower minimum driven upper.states)
          (minimums-any_nan lower minimum driven upper.states n) h)

  neither : (a b : Bool) → (a || b) ≡ false → (a ≡ false) × (b ≡ false)
  neither a b h = ground arith

  held_rung :
      (lower upper : Stage fl) (held : List (Text × F)) (near_upper : Bool)
      → let a = holding fl sum of_count (if near_upper then upper else lower) held in
        (a ≡ holding fl sum of_count lower held) ⊎ (a ≡ holding fl sum of_count upper held)
  held_rung lower upper held true = inr refl
  held_rung lower upper held false = inl refl

  split_window-PlanOf :
      (curve : Ladder fl) (demand cycle : F) (minimum : Text → F) (driven : List Text)
      (held : List (Text × F)) (lower upper : Stage fl)
      → ((name : Text) → is_nan (minimum name) ≡ false)
      → PlanOf lower upper held cycle driven minimum
          (split_window fl sum of_count curve demand cycle minimum driven held lower upper)
  unfolding split_window
  split_window-PlanOf curve demand cycle minimum driven held lower upper n =
      let share = fl.div (fl.sub demand lower.level) (fl.sub upper.level lower.level) in
      let upper_seconds = fl.mul cycle share in
      let lower_seconds = fl.sub cycle upper_seconds in
      let shortest = minimum_transition fl sum of_count lower upper minimum driven in
      elim (Bool-cases (lt lower_seconds shortest || lt upper_seconds shortest)) [
        | inl short ↦ rw short (record {
          window = refl;
          rung = held_rung lower upper held (le fl (fl.of_text (codes "0.5")) share);
        })
        | inr long ↦
            rw long
              (elim (Bool-cases (
                same_states fl sum of_count (holding fl sum of_count lower held)
                  (holding fl sum of_count upper held))) [
                    | inl same ↦ rw same (record { window = refl; rung = inl refl })
                    | inr differ ↦ rw differ (record {
                      lower_first = refl;
                      upper_second = refl;
                      differ = differ;
                      fills = refl;
                      lower_spaced =
                          minimum_transition-Spaced lower_seconds lower upper minimum driven n
                            (neither (lt lower_seconds shortest) (lt upper_seconds shortest)
                              long).0;
                      upper_spaced =
                          minimum_transition-Spaced upper_seconds lower upper minimum driven n
                            (neither (lt lower_seconds shortest) (lt upper_seconds shortest)
                              long).1;
                    })
                  ])
      ]

  plan_between-PlanOf :
      (curve : Ladder fl) (demand cycle : F) (minimum : Text → F) (driven : List Text)
      (held : List (Text × F)) (found : Bracket fl)
      → ((name : Text) → is_nan (minimum name) ≡ false)
      → let (lower, upper) = ends fl sum of_count found in
        PlanOf lower upper held cycle driven minimum
          (plan_between fl sum of_count curve demand cycle minimum driven held found)
  unfolding plan_between
  plan_between-PlanOf curve demand cycle minimum driven held (landing r) n = record {
    window = refl;
    rung = inl refl;
  }
  plan_between-PlanOf curve demand cycle minimum driven held (between lower upper) n =
      split_window-PlanOf curve demand cycle minimum driven held lower upper n

  window_accepted :
      (cycle : F)
      → is_finite cycle ≡ true
      → le fl cycle zero_float ≡ false
      → window_of fl sum of_count (numeric cycle) ≡ ok cycle
  unfolding window_of
  window_accepted cycle h k = rw (h, k) refl

  demand_accepted :
      (demand : F)
      → is_finite demand ≡ true
      → demand_of fl sum of_count (numeric demand) ≡ ok demand
  unfolding demand_of
  demand_accepted demand h = rw h refl

  -- For a positive finite window and a finite demand, with minimums that are numbers, `plan_window`
  -- returns a plan: one dwell for the whole window at one of the two rungs that `bracket` returns, or
  -- two dwells that share the window, the lower of these rungs and then the upper, whose commands
  -- differ. In a plan of two, no device that is switched between the rungs has a minimum longer than
  -- either dwell. The driven devices hold one set of values throughout, read off the curve.
  pub plan_window-PlanOf :
      (ladder : Ladder fl) (demand cycle : F) (minimum : Text → F) (driven : List Text)
      (curve : Option (Ladder fl))
      → is_finite cycle ≡ true
      → le fl cycle zero_float ≡ false
      → is_finite demand ≡ true
      → ((name : Text) → is_nan (minimum name) ≡ false)
      → let (low, high) =
          ends fl sum of_count (bracket fl (curve_or fl sum of_count curve ladder) demand) in
        let (lower, upper) = ends fl sum of_count (bracket fl ladder demand) in
        (dwells : List (Dwell fl sum of_count)) × (plan_window fl sum of_count ladder
            (numeric demand)
            (numeric cycle)
            minimum
            driven
            curve
          ≡ ok dwells)
        × PlanOf lower upper
            (interpolated fl sum of_count low high demand driven)
            cycle
            driven
            minimum
            dwells
  unfolding plan_window
  plan_window-PlanOf ladder demand cycle minimum driven curve hc positive hd n =
      let whole = curve_or fl sum of_count curve ladder in
      let (low, high) = ends fl sum of_count (bracket fl whole demand) in
      let held = interpolated fl sum of_count low high demand driven in
      (
        plan_between fl sum of_count whole demand cycle minimum driven held
            (bracket fl ladder demand),
        rw (window_accepted cycle hc positive) (rw (demand_accepted demand hd) refl),
        plan_between-PlanOf whole demand cycle minimum driven held (bracket fl ladder demand) n,
      )
