-- ===== src/Staging/Caps.antt =====
-- What `cap_ladder` and `reachable_ladder` of toinflux/staging.py leave of a ladder.
use send_to_influx.Prelude.{
  ◌≡◌, ◌↔◌, refl, none, get, sym, subst, Bool, true, false, some, List, [], ◌∷◌, All, Bool-cases,
  inl, inr, ◌⊎◌, Text,
}
use send_to_influx.Floats.{Floats, le}
use send_to_influx.Controls.{State}
use send_to_influx.Staging.{
  numeric, Planned, ok, Stage, state_eq, Ladder, rungs, keep, or_else, cap_ladder, States,
}

ok-injective : {A : Type 0} {a b : A} → Planned.ok a ≡ ok b → a ≡ b
ok-injective h = cc

module _ (fl : Floats) where
  open fl use {F}

  -- What a test leaves of a ladder: the rungs that pass it, or, where none does, `fallback`.
  abbrev pub Filtered : (Stage fl → Bool) → Ladder fl → Ladder fl → Ladder fl → Type 0
  Filtered p ladder fallback result =
      (rungs fl result ≡ keep fl p (rungs fl ladder)) × All (λ r. p r ≡ true) (rungs fl result)
      ⊎ (result ≡ fallback) × All (λ r. p r ≡ false) (rungs fl ladder)

  keep-passes : (p : Stage fl → Bool) (ss : List (Stage fl)) → All (λ r. p r ≡ true) (keep fl p ss)
  unfolding keep
  keep-passes p [] = tt
  keep-passes p (s ∷ ss) = elim (Bool-cases (p s)) [
    | inl e ↦ rw e (e, keep-passes p ss)
    | inr e ↦ rw e (keep-passes p ss)
  ]

  keep_nothing :
      (p : Stage fl → Bool) (ss : List (Stage fl)) → keep fl p ss ≡ [] → All (λ r. p r ≡ false) ss
  unfolding keep
  keep_nothing p [] h = tt
  keep_nothing p (s ∷ ss) h = elim (Bool-cases (p s)) [
    | inl e ↦ cc (rw e at h)
    | inr e ↦ (e, keep_nothing p ss (rw e at h))
  ]

  or_else-Filtered :
      (p : Stage fl → Bool) (ladder fallback : Ladder fl) (kept : List (Stage fl))
      → keep fl p (rungs fl ladder) ≡ kept
      → Filtered p ladder fallback (or_else fl kept fallback)
  unfolding or_else
  or_else-Filtered p ladder fallback [] e = inr (refl, keep_nothing p (rungs fl ladder) e)
  or_else-Filtered p ladder fallback (s ∷ ss) e =
      inl (sym e, subst (All (λ r. p r ≡ true)) e (keep-passes p (rungs fl ladder)))

  -- The rung that a cap leaves where it forbids every rung.
  abbrev pub lowest : Ladder fl → Ladder fl
  lowest ladder = record { first = ladder.first; others = [] }

  -- A finite cap leaves exactly the rungs whose level is at most the cap, so that no rung above it is
  -- commanded; only where it forbids every rung does it leave the lowest one.
  pub cap_ladder-Filtered :
      (ladder result : Ladder fl) (cap : F)
      → cap_ladder fl ladder (some (numeric cap)) ≡ ok result
      → Filtered (λ r. le fl r.level cap) ladder (lowest ladder) result
  unfolding cap_ladder
  cap_ladder-Filtered ladder result cap h = elim (Bool-cases (fl.is_finite cap)) [
    | inl e ↦
        let p : Stage fl → Bool = λ r. le fl r.level cap in
        subst (Filtered p ladder (lowest ladder)) (ok-injective (rw e at h))
          (or_else-Filtered p ladder (lowest ladder) (keep fl p (rungs fl ladder)) refl)
    | inr e ↦ cc (rw e at h)
  ]

  -- The rung commands the device to the state that it is known to be in, or its state is not known.
  abbrev pub Stays : Stage fl → States fl → Text → Type 0
  Stays r states device =
      (get device states ≡ none)
      ⊎ ((held : State F) × ((s : State F) × ((get device states ≡ some held)
              × ((get device r.states ≡ some s) × (state_eq fl s held ≡ true)))))

  -- The test that picks rungs holds of those, and only those, that keep every device.
  abbrev pub Picks : (Stage fl → Bool) → List Text → States fl → Type 0
  Picks p ds states = (r : Stage fl) → (p r ≡ true) ↔ All (Stays r states) ds
