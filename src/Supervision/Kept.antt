-- ===== src/Supervision/Kept.antt =====
-- Each operation of toinflux/supervision.py on one child takes the phase it has to the phase that
-- it leaves it in.
pub mod Ended
pub mod Started
use send_to_influx.Prelude.{
  ℕ, ◌≡◌, ◌⊎◌, refl, ◌∙◌, Bool, true, false, ◌||◌, not, Bool-cases, Option-cases, inl, inr, Option,
  none, some, List, [], ◌∷◌, ◌++◌, Text, text_eq_self,
}
use send_to_influx.Controls.Actuators.{Document}
use send_to_influx.Supervision.{
  Child, Effect, exited, World, Done, documents_for, usable_control, make_safe, terminate, still,
}
use send_to_influx.Supervision.Phases.{
  phase_after, phase_after-append, phase_of, About, covered, resting, running,
}

-- A child that an operation leaves: its name is kept, what was done is about it, and leads from its
-- phase to the new one.
pub record Kept {F : Type 0} (same : Document F → Document F → Bool) (c : Child F) (d : Done F)
    : Type 0 where
  pub name_kept : d.child.name ≡ c.name
  pub about_it : About c.name d.effects
  pub phases : phase_after same c.name d.effects (phase_of c) ≡ some (phase_of d.child)

pub List-cases :
    {A : Type 0} (xs : List A) → (xs ≡ []) ⊎ ((x : A) × ((ys : List A) × (xs ≡ x ∷ ys)))
List-cases [] = inl refl
List-cases (x ∷ xs) = inr (x, (xs, refl))

module _ {F : Type 0} (same : Document F → Document F → Bool)
    (same_self : (d : Document F) → same d d ≡ true) where
  pub documents_for-covers :
      (w : World F) (name : Text) (own : Option (Document F))
      → covered same own (documents_for same w name own) ≡ true
  unfolding documents_for
  documents_for-covers w name none = refl
  documents_for-covers w name (some d) =
      elim (Bool-cases (not (w.path_ok name) || not (w.stored name))) [
        | inl e ↦ rw e (rw (same_self d))
        | inr e ↦ rw e (elim (Option-cases (usable_control w name)) [
          | inl n ↦ rw n (rw (same_self d))
          | inr (x, n) ↦ rw n (elim (Bool-cases (same x d || false)) [
            | inl m ↦ rw m (rw (same_self d))
            | inr m ↦ rw m (rw (same_self d))
          ])
        ])
      ]

  pub still-Kept : (c : Child F) → Kept same c (still c)
  unfolding phase_after
  still-Kept c = record { name_kept = refl; about_it = tt; phases = refl }

  -- The effects of an end: after what was done while it ran, the devices are made safe.
  pub end-resting :
      (w : World F) (name : Text) (own : Option (Document F))
      → phase_after same name (exited name ∷ make_safe same w name own) (running own) ≡ some resting
  unfolding phase_after make_safe
  end-resting w name own = rw (text_eq_self name) (rw (documents_for-covers w name own))

  pub terminate-running :
      (w : World F) (c : Child F)
      → phase_after same c.name (terminate w c) (running c.document) ≡ some (running c.document)
  unfolding phase_after terminate
  terminate-running w c = elim (Bool-cases (w.obeys c.name)) [
    | inl e ↦ rw (e, text_eq_self c.name)
    | inr e ↦ rw (e, text_eq_self c.name)
  ]

  pub terminate-About : (w : World F) (c : Child F) → About c.name (terminate w c)
  unfolding terminate
  terminate-About w c = elim (Bool-cases (w.obeys c.name)) [
    | inl e ↦ rw e (refl, tt)
    | inr e ↦ rw e (refl, (refl, tt))
  ]

  pub ended-after :
      (w : World F) (c : Child F)
      → phase_after same c.name
          (terminate w c ++ exited c.name ∷ make_safe same w c.name c.document)
          (running c.document)
        ≡ some resting
  ended-after w c =
      phase_after-append same c.name (terminate w c)
        (exited c.name ∷ make_safe same w c.name c.document) (running c.document)
        (running c.document) (terminate-running w c)
      ∙ end-resting w c.name c.document

  pub About-append :
      (name : Text) (es fs : List (Effect F))
      → About name es
      → About name fs
      → About name (es ++ fs)
  About-append name [] fs a b = b
  About-append name (e ∷ es) fs a b = (a.0, About-append name es fs a.1 b)

  pub stop-phases :
      (w : World F) (c : Child F) (pid : ℕ)
      → c.process ≡ some pid
      → phase_after same c.name
          (terminate w c ++ exited c.name ∷ make_safe same w c.name c.document)
          (phase_of c)
        ≡ some resting
  unfolding terminate
  stop-phases w c pid r = rw r (ended-after w c)
