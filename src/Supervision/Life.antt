-- ===== src/Supervision/Life.antt =====
-- A supervisor of toinflux/supervision.py from where it is made to its end.
use send_to_influx.Prelude.{
  ℕ, ◌≡◌, refl, sym, ◌∙◌, ap, subst, Bool, true, false, Bool-cases, inl, inr, Option, none, some,
  List, [], ◌∷◌, Text, text_eq, contains, All, arith,
}
use send_to_influx.Floats.{Floats}
use send_to_influx.Controls.Actuators.{Document, Actuator}
use send_to_influx.Supervision.{Child, World}
use send_to_influx.Supervision.Turns.{find}
use send_to_influx.Supervision.Passes.{Pass, run_controls, new_child}
use send_to_influx.Supervision.Phases.{phase_after, resting, running}
use send_to_influx.Supervision.Lawful.{Once, phase_in, phase_in-here, phase_in-there}
use send_to_influx.Supervision.Requests.{NoRepeats}
use send_to_influx.Supervision.Safety.{run_controls-phases}
use send_to_influx.Supervision.Taken.{
  first_children, first_children_lem, first_children-Separate, Fresh,
}

module _ (fl : Floats) (blank : Text → Bool) (same : Document fl.F → Document fl.F → Bool)
    (backoff : ℕ → fl.F) (lower : Text → Text) (by_repr : List Actuator → List Actuator) where
  open fl use {F}

  -- The children have names of the list, each once where the list has.
  record NamedOnce (names : List Text) (cs : List (Child F)) : Type 0 where
    absent : (n : Text) → contains names n ≡ false → find n cs ≡ none
    once : NoRepeats names → Once cs

  passed_over-NamedOnce :
      (name : Text) (names : List Text) (cs : List (Child F))
      → NamedOnce names cs
      → NamedOnce (name ∷ names) cs
  unfolding contains
  passed_over-NamedOnce name names cs k = record {
    absent = λ n h. k.absent n (ground (arith, h));
    once = λ d. k.once d.1;
  }

  taken-NamedOnce :
      (name : Text) (d : Option (Document F)) (seconds : F) (names : List Text)
      (cs : List (Child F))
      → NamedOnce names cs
      → NamedOnce (name ∷ names) (new_child fl blank same backoff name d seconds ∷ cs)
  unfolding contains find
  taken-NamedOnce name d seconds names cs k = record {
    absent = λ n h. elim (Bool-cases (text_eq name n)) [
      | inl e ↦ ground (arith, e, h)
      | inr e ↦ rw e (k.absent n (ground (arith, e, h)))
    ];
    once = λ o. (k.absent name o.0, k.once o.1);
  }

  first_children-NamedOnce :
      (w : World F) (names : List Text) (cs : List (Child F))
      → first_children fl blank same backoff lower by_repr w names ≡ some cs
      → NamedOnce names cs
  unfolding find
  first_children-NamedOnce w names cs h =
      elim (first_children_lem fl blank same backoff lower by_repr
        (λ claimed ns ds. NamedOnce ns ds)
        (λ claimed. record { absent = λ n k. refl; once = λ o. tt })
        (λ claimed n ns ds k. passed_over-NamedOnce n ns ds k)
        (λ claimed n ns d seconds ds e x k. taken-NamedOnce n (some d) seconds ns ds k) w names cs
        h) [
          | inl k ↦ k
          | inr e ↦
              subst (NamedOnce names) (sym e) (record { absent = λ n k. refl; once = λ o. tt })
        ]

  Fresh-resting :
      (cs : List (Child F)) (name : Text)
      → All (Fresh fl blank same backoff lower by_repr) cs
      → phase_in name cs ≡ resting
  unfolding find
  Fresh-resting [] name f = refl
  Fresh-resting (c ∷ cs) name f = elim (Bool-cases (text_eq c.name name)) [
    | inl e ↦
        phase_in-here name c cs e
        ∙ ap (λ p. elim p [ none ↦ resting | some pid ↦ running c.document ]) f.0.0
    | inr e ↦ phase_in-there name c cs e ∙ Fresh-resting cs name f.1
  ]

  -- A supervisor that is made for different names and run, through as many passes as there may be,
  -- to its end leaves every control at rest: every process that it started has ended, with the
  -- devices of the document it was started from made safe after it.
  pub first_children-phases :
      (same_self : (d : Document F) → same d d ≡ true) (w : World F) (names : List Text)
      (cs : List (Child F)) (starting ending : Text → World F) (ps : List (Pass F × List Text))
      (name : Text)
      → NoRepeats names
      → first_children fl blank same backoff lower by_repr w names ≡ some cs
      → phase_after same name
          (run_controls fl blank same backoff starting ps ending cs).effects
          resting
        ≡ some resting
  first_children-phases same_self w names cs starting ending ps name d h =
      run_controls-phases fl blank same backoff same_self starting ending ps cs name
        ((first_children-NamedOnce w names cs h).once d)
        (Fresh-resting cs name
          (first_children-Separate fl blank same backoff lower by_repr w names cs h).0)
