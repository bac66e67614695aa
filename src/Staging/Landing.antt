-- ===== src/Staging/Landing.antt =====
-- Which rungs `bracket` of toinflux/staging.py returns.
use send_to_influx.Prelude.{
  ◌≡◌, refl, sym, ◌∙◌, subst, false≢true, Bool, true, false, ◌||◌, List, [], ◌∷◌, All, Bool-cases,
  inl, inr, ◌⊎◌, arith,
}
use send_to_influx.Floats.{Floats, le}
use send_to_influx.Floats.Order.{le_refl, le_trans, lt→le, lt_of_not_le, le_of_not_lt}
use send_to_influx.Prelude.{Among}
use send_to_influx.Staging.{
  Stage, Ladder, rungs, before, last_of, Bracket, landing, between, bracket_from, bracket,
}
use send_to_influx.Staging.Sorted.{Sorted}

module _ (fl : Floats) where
  open fl use {F, lt, eq, is_nan, trichotomy, lt_asym}

  -- The two rungs a demand lies strictly between, with no rung's level strictly between them.
  pub record Surrounds (all_rungs : List (Stage fl)) (demand : F) (lower upper : Stage fl)
      : Type 0 where
    pub lower_among : Among lower all_rungs
    pub upper_among : Among upper all_rungs
    pub above_lower : lt lower.level demand ≡ true
    pub below_upper : lt demand upper.level ≡ true
    pub adjacent :
        All (λ r. (le fl r.level lower.level || le fl upper.level r.level) ≡ true) all_rungs

  -- The one rung a demand lands on: at its level, or at an end of the ladder that it is at or beyond.
  abbrev pub Lands : Ladder fl → F → Stage fl → Type 0
  Lands ladder demand r =
      Among r (rungs fl ladder)
      × ((eq r.level demand ≡ true)
          ⊎ ((r ≡ ladder.first) × (le fl demand r.level ≡ true))
          ⊎ ((r ≡ last_of fl ladder.first ladder.others) × (le fl r.level demand ≡ true)))

  abbrev pub BracketOf : Ladder fl → F → Bracket fl → Type 0
  BracketOf ladder demand (landing r) = Lands ladder demand r
  BracketOf ladder demand (between lower upper) = Surrounds (rungs fl ladder) demand lower upper

  pub All-Among :
      (P : Stage fl → Type 0) (a : Stage fl) (xs : List (Stage fl)) → All P xs → Among a xs → P a
  All-Among P a [] h m = absurd m
  All-Among P a (x ∷ xs) h (inl e) = subst P (sym e) h.0
  All-Among P a (x ∷ xs) h (inr m) = All-Among P a xs h.1 m

  last_of-Among : (s : Stage fl) (ss : List (Stage fl)) → Among (last_of fl s ss) (s ∷ ss)
  unfolding last_of
  last_of-Among s [] = inl refl
  last_of-Among s (t ∷ ts) = inr (last_of-Among t ts)

  -- The rungs that the loop has passed, latest first, before those that are left.
  abbrev rev_onto : List (Stage fl) → List (Stage fl) → List (Stage fl)
  rev_onto [] rest = rest
  rev_onto (s ∷ seen) rest = rev_onto seen (s ∷ rest)

  All-rev_onto :
      (Q : Stage fl → Type 0) (seen rest : List (Stage fl))
      → All Q seen
      → All Q rest
      → All Q (rev_onto seen rest)
  All-rev_onto Q [] rest h k = k
  All-rev_onto Q (s ∷ seen) rest h k = All-rev_onto Q seen (s ∷ rest) h.1 (h.0, k)

  Among-rev_onto :
      (r : Stage fl) (seen rest : List (Stage fl)) → Among r rest → Among r (rev_onto seen rest)
  Among-rev_onto r [] rest h = h
  Among-rev_onto r (s ∷ seen) rest h = Among-rev_onto r seen (s ∷ rest) (inr h)

  before→le : (a b : Stage fl) → before fl a b ≡ true → le fl a.level b.level ≡ true
  unfolding before
  before→le a b h = ground arith

  All-adjacent_seen :
      (lower upper : Stage fl) (seen : List (Stage fl))
      → All (λ r. le fl r.level lower.level ≡ true) seen
      → All (λ r. (le fl r.level lower.level || le fl upper.level r.level) ≡ true) seen
  All-adjacent_seen lower upper [] h = tt
  All-adjacent_seen lower upper (r ∷ seen) h = (rw (h.0), All-adjacent_seen lower upper seen h.1)

  or_right : (a b : Bool) → b ≡ true → (a || b) ≡ true
  or_right a b h = ground arith

  All-adjacent_rest :
      (lower upper : Stage fl) (rest : List (Stage fl))
      → All (λ r. before fl upper r ≡ true) rest
      → All (λ r. (le fl r.level lower.level || le fl upper.level r.level) ≡ true) rest
  All-adjacent_rest lower upper [] h = tt
  All-adjacent_rest lower upper (r ∷ rest) h = (
    or_right (le fl r.level lower.level) (le fl upper.level r.level) (before→le upper r h.0),
    All-adjacent_rest lower upper rest h.1,
  )

  All-le_weaken :
      (a b : F) (seen : List (Stage fl))
      → le fl a b ≡ true
      → All (λ r. le fl r.level a ≡ true) seen
      → All (λ r. le fl r.level b ≡ true) seen
  All-le_weaken a b [] h all = tt
  All-le_weaken a b (r ∷ seen) h all =
      (le_trans fl r.level a b all.0 h, All-le_weaken a b seen h all.1)

  -- What the loop holds on to: a rung below the demand, at or above all that it has passed, with
  -- the top of the ladder, which is above the demand, still to come.
  record Holds (top lower : Stage fl) (demand : F) (seen rest : List (Stage fl)) : Type 0 where
    lower_among : Among lower (rev_onto seen rest)
    lower_below : lt lower.level demand ≡ true
    passed : All (λ r. le fl r.level lower.level ≡ true) seen
    top_ahead : Among top rest
    top_above : lt demand top.level ≡ true
    sorted : Sorted fl rest
    numbers : All (λ r. is_nan r.level ≡ false) rest

  surrounded :
      (top lower rung : Stage fl) (demand : F) (seen rest : List (Stage fl))
      → Holds top lower demand seen (rung ∷ rest)
      → lt demand rung.level ≡ true
      → Surrounds (rev_onto seen (rung ∷ rest)) demand lower rung
  surrounded top lower rung demand seen rest h above = record {
    lower_among = h.lower_among;
    upper_among = Among-rev_onto rung seen (rung ∷ rest) (inl refl);
    above_lower = h.lower_below;
    below_upper = above;
    adjacent =
        All-rev_onto (λ r. (le fl r.level lower.level || le fl rung.level r.level) ≡ true) seen
          (rung ∷ rest) (All-adjacent_seen lower rung seen h.passed)
          (
            or_right (le fl rung.level lower.level) (le fl rung.level rung.level)
                (le_refl fl rung.level h.numbers.0),
            All-adjacent_rest lower rung rest h.sorted.0,
          );
  }

  below_demand :
      (rung : Stage fl) (demand : F)
      → is_nan demand ≡ false
      → is_nan rung.level ≡ false
      → eq rung.level demand ≡ false
      → lt demand rung.level ≡ false
      → lt rung.level demand ≡ true
  below_demand rung demand nd nr h k = ground (arith, trichotomy rung.level demand nr nd)

  still_ahead :
      (top rung : Stage fl) (demand : F) (rest : List (Stage fl))
      → lt rung.level demand ≡ true
      → lt demand top.level ≡ true
      → Among top (rung ∷ rest)
      → Among top rest
  still_ahead top rung demand rest below above (inl e) = absurd (
      false≢true (
        sym (lt_asym rung.level demand below)
        ∙ subst (λ (s : Stage fl). lt demand s.level ≡ true) e above))
  still_ahead top rung demand rest below above (inr h) = h

  advanced :
      (top lower rung : Stage fl) (demand : F) (seen rest : List (Stage fl))
      → Holds top lower demand seen (rung ∷ rest)
      → lt rung.level demand ≡ true
      → lt lower.level rung.level ≡ true
      → Holds top rung demand (rung ∷ seen) rest
  advanced top lower rung demand seen rest h below up = record {
    lower_among = Among-rev_onto rung seen (rung ∷ rest) (inl refl);
    lower_below = below;
    passed = (
      le_refl fl rung.level h.numbers.0,
      All-le_weaken lower.level rung.level seen (lt→le fl lower.level rung.level up) h.passed,
    );
    top_ahead = still_ahead top rung demand rest below h.top_above h.top_ahead;
    top_above = h.top_above;
    sorted = h.sorted.1;
    numbers = h.numbers.1;
  }

  kept :
      (top lower rung : Stage fl) (demand : F) (seen rest : List (Stage fl))
      → Holds top lower demand seen (rung ∷ rest)
      → lt rung.level demand ≡ true
      → is_nan lower.level ≡ false
      → lt lower.level rung.level ≡ false
      → Holds top lower demand (rung ∷ seen) rest
  kept top lower rung demand seen rest h below nl level = record {
    lower_among = h.lower_among;
    lower_below = h.lower_below;
    passed = (le_of_not_lt fl lower.level rung.level nl h.numbers.0 level, h.passed);
    top_ahead = still_ahead top rung demand rest below h.top_above h.top_ahead;
    top_above = h.top_above;
    sorted = h.sorted.1;
    numbers = h.numbers.1;
  }

  bracket_from-BracketOf :
      (ladder : Ladder fl) (top lower : Stage fl) (demand : F) (seen rest : List (Stage fl))
      → is_nan demand ≡ false
      → is_nan lower.level ≡ false
      → rev_onto seen rest ≡ rungs fl ladder
      → Holds top lower demand seen rest
      → BracketOf ladder demand (bracket_from fl top lower demand rest)
  unfolding bracket_from
  bracket_from-BracketOf ladder top lower demand seen [] nd nl e h = absurd h.top_ahead
  bracket_from-BracketOf ladder top lower demand seen (rung ∷ rest) nd nl e h =
      elim (Bool-cases (eq rung.level demand)) [
        | inl at ↦
            rw at (subst (Among rung) e (Among-rev_onto rung seen (rung ∷ rest) (inl refl)), inl at)
        | inr not_at ↦ rw not_at (elim (Bool-cases (lt demand rung.level)) [
          | inl above ↦ rw above (
              subst (λ all_rungs. Surrounds all_rungs demand lower rung) e
                (surrounded top lower rung demand seen rest h above))
          | inr not_above ↦ rw not_above (
              let below = below_demand rung demand nd h.numbers.0 not_at not_above in
              elim (Bool-cases (lt lower.level rung.level)) [
                | inl up ↦ rw up (
                    bracket_from-BracketOf ladder top rung demand (rung ∷ seen) rest nd h.numbers.0
                      e (advanced top lower rung demand seen rest h below up))
                | inr level ↦ rw level (
                    bracket_from-BracketOf ladder top lower demand (rung ∷ seen) rest nd nl e
                      (kept top lower rung demand seen rest h below nl level))
              ])
        ])
      ]

  -- On a ladder in order, with numbers for its levels, and at a demand that is a number, `bracket`
  -- returns either two rungs of the ladder with the demand strictly between their levels and no
  -- rung's level strictly between those, or one rung: one at the demand's level, the first where the
  -- demand is at most its level, or the last where the demand is at least its level.
  pub bracket-BracketOf :
      (ladder : Ladder fl) (demand : F)
      → Sorted fl (rungs fl ladder)
      → All (λ r. is_nan r.level ≡ false) (rungs fl ladder)
      → is_nan demand ≡ false
      → BracketOf ladder demand (bracket fl ladder demand)
  unfolding bracket
  bracket-BracketOf ladder demand sorted numbers nd =
      let top = last_of fl ladder.first ladder.others in
      let top_among = last_of-Among ladder.first ladder.others in
      elim (Bool-cases (le fl demand ladder.first.level)) [
        | inl low ↦ rw low (inl refl, inr (inl (refl, low)))
        | inr above_first ↦ rw above_first (elim (Bool-cases (le fl top.level demand)) [
          | inl high ↦ rw high (top_among, inr (inr (refl, high)))
          | inr below_top ↦ rw below_top (
              bracket_from-BracketOf ladder top ladder.first demand [] (rungs fl ladder) nd
                numbers.0 refl
                (record {
                  lower_among = inl refl;
                  lower_below = lt_of_not_le fl demand ladder.first.level nd numbers.0 above_first;
                  passed = tt;
                  top_ahead = top_among;
                  top_above =
                      lt_of_not_le fl top.level demand
                        (All-Among (λ r. is_nan r.level ≡ false) top (rungs fl ladder) numbers
                          top_among)
                        nd below_top;
                  sorted = sorted;
                  numbers = numbers;
                }))
        ])
      ]
