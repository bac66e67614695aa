-- ===== src/Staging/Ties.antt =====
-- What `bracket` of toinflux/staging.py returns where rungs share the highest level.
use send_to_influx.Prelude.{
  ◌<◌, ◌≤◌, ◌≡◌, refl, subst, true, List, [], ◌∷◌, ◌++◌, All, inl, inr, arith,
}
use send_to_influx.Floats.{Floats, le}
use send_to_influx.Floats.Order.{lt-le_trans, not_le_of_lt}
use send_to_influx.Prelude.{Among}
use send_to_influx.Staging.{Stage, Ladder, rungs, last_of, Bracket, landing, between, bracket}
use send_to_influx.Staging.Landing.{All-Among}

module _ (fl : Floats) where
  open fl use {F, lt, eq}

  -- "Where several rungs share the level being landed on, the earliest declared wins."
  abbrev pub EarliestWins : Ladder fl → Bracket fl → Type 0
  EarliestWins ladder (landing r) =
      All (λ s. eq s.level r.level ≡ true → r.declared ≤ s.declared) (rungs fl ladder)
  EarliestWins ladder (between lower upper) = Unit

  last_of-append : (s a b : Stage fl) (ms : List (Stage fl)) → last_of fl s (ms ++ a ∷ b ∷ []) ≡ b
  unfolding last_of
  last_of-append s a b [] = refl
  last_of-append s a b (m ∷ ms) = last_of-append m a b ms

  Among-append : (a : Stage fl) (xs ys : List (Stage fl)) → Among a (xs ++ a ∷ ys)
  Among-append a [] ys = inl refl
  Among-append a (x ∷ xs) ys = inr (Among-append a xs ys)

  latest_loses :
      (first a b : Stage fl) (ms : List (Stage fl))
      → eq a.level b.level ≡ true
      → a.declared < b.declared
      → ¬ EarliestWins (record { first = first; others = ms ++ a ∷ b ∷ [] }) (landing b)
  latest_loses first a b ms tie later wins =
      let at_a =
        All-Among fl (λ s. eq s.level b.level ≡ true → b.declared ≤ s.declared) a
          (first ∷ (ms ++ a ∷ b ∷ [])) wins (inr (Among-append a ms (b ∷ []))) tie in
      absurd (omega (arith, at_a))

  -- That is not so at the top: of two rungs that share the highest level, the later declared one is
  -- returned for every demand at or above that level, where the ladder begins below it.
  pub top_tie_lands_on_latest :
      (first a b : Stage fl) (ms : List (Stage fl)) (demand : F)
      → eq a.level b.level ≡ true
      → a.declared < b.declared
      → lt first.level b.level ≡ true
      → le fl b.level demand ≡ true
      → let ladder : Ladder fl = record { first = first; others = ms ++ a ∷ b ∷ [] } in
        (bracket fl ladder demand ≡ landing b) × ¬ EarliestWins ladder (bracket fl ladder demand)
  unfolding bracket
  top_tie_lands_on_latest first a b ms demand tie later below high =
      let ladder : Ladder fl = record { first = first; others = ms ++ a ∷ b ∷ [] } in
      let not_low =
        not_le_of_lt fl first.level demand (lt-le_trans fl first.level b.level demand below high) in
      let lands : bracket fl ladder demand ≡ landing b = rw not_low (rw last_of-append (rw high)) in
      (lands, λ wins. latest_loses first a b ms tie later (subst (EarliestWins ladder) lands wins))
