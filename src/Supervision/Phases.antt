-- ===== src/Supervision/Phases.antt =====
-- What may be done to one control after another, as the supervisor of toinflux/supervision.py does
-- it: a process is started where there is none, and a process that has ended is followed by making
-- its devices safe.
use send_to_influx.Prelude.{
  ◌≡◌, refl, Bool-cases, Option-cases, inl, inr, Bool, true, false, Option, none, some, List, [],
  ◌∷◌, ◌++◌, any, if◌then◌else◌, Text, text_eq, All, arith,
}
use send_to_influx.Controls.Actuators.{Document}
use send_to_influx.Supervision.{
  Child, Effect, spawned, terminated, killed, exited, made_safe, forgotten,
}

-- A control rests, runs from a document, or has ended with devices that may be on.
pub data Phase (F : Type 0) : Type 0 where
  resting : Phase F
  running hot : Option (Document F) → Phase F

module _ {F : Type 0} where
  abbrev pub about : Effect F → Text
  about (spawned name pid d) = name
  about (terminated name) = name
  about (killed name) = name
  about (exited name) = name
  about (made_safe name ds) = name
  about (forgotten name) = name

  -- The phase of a control that the supervisor has as a child.
  abbrev pub phase_of : Child F → Phase F
  phase_of c = elim c.process [ none ↦ resting | some pid ↦ running c.document ]

  abbrev pub About : Text → List (Effect F) → Type 0
  About name es = All (λ e. about e ≡ name) es

module _ {F : Type 0} (same : Document F → Document F → Bool) where
  -- The devices of the document, where there is one, are among those made safe.
  abbrev pub covered : Option (Document F) → List (Document F) → Bool
  covered none ds = true
  covered (some d) ds = any (same d) ds

  -- The phase after an effect on the control, none where it may not be.
  abbrev pub advance : Effect F → Phase F → Option (Phase F)
  advance (spawned name pid d) resting = some (running d)
  advance (terminated name) (running d) = some (running d)
  advance (killed name) (running d) = some (running d)
  advance (exited name) (running d) = some (hot d)
  advance (made_safe name ds) resting = some resting
  advance (made_safe name ds) (hot d) = if covered d ds then some resting else none
  advance (forgotten name) resting = some resting
  advance _ _ = none

  -- The phase of a control after a trace, none where something in it may not be.
  unfoldable pub phase_after : Text → List (Effect F) → Phase F → Option (Phase F)
  phase_after name [] p = some p
  phase_after name (e ∷ es) p =
      if text_eq (about e) name
      then elim (advance e p) [ none ↦ none | some q ↦ phase_after name es q ]
      else phase_after name es p

  pub phase_after-append :
      (name : Text) (es fs : List (Effect F)) (p q : Phase F)
      → phase_after name es p ≡ some q
      → phase_after name (es ++ fs) p ≡ phase_after name fs q
  unfolding phase_after
  phase_after-append name [] fs p q h = ground arith
  phase_after-append name (e ∷ es) fs p q h = elim (Bool-cases (text_eq (about e) name)) [
    | inl k ↦ elim (Option-cases (advance e p)) [
      | inl none_is ↦ ground (arith, rw (k, none_is) at h)
      | inr (r, is) ↦ rw k (rw is (phase_after-append name es fs r q (rw (k, is) at h)))
    ]
    | inr k ↦ rw k (phase_after-append name es fs p q (rw k at h))
  ]

  -- The effects on one control leave the others as they are.
  pub phase_after-others :
      (name other : Text) (es : List (Effect F)) (p : Phase F)
      → About other es
      → text_eq other name ≡ false
      → phase_after name es p ≡ some p
  unfolding phase_after
  phase_after-others name other [] p a h = refl
  phase_after-others name other (e ∷ es) p a h =
      rw a.0 (rw h (phase_after-others name other es p a.1 h))
