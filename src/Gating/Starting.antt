-- ===== src/Gating/Starting.antt =====
-- What `Gate.starting_state` of toinflux/gating.py answers, beside what `decide` commands.
use send_to_influx.Prelude.{
  ◌≡◌, ◌≢◌, refl, sym, ◌∙◌, ap, true, false, none, some, Text, Option-cases, inl, inr,
}
use send_to_influx.Floats.{Floats}
use send_to_influx.Rules.Chars.{CharTable}
use send_to_influx.Rules.Evaluate.{Evaluated, Bindings}
use send_to_influx.Controls.{Setting}
use send_to_influx.Schedule.{Calendar, ok, require_aware, is_inside}
use send_to_influx.Gating.{
  Gate, Decision, answer, closed_edge, outside_period, closing_state, starting_state, decide,
  assess, assess_inside,
}
use send_to_influx.Gating.Edges.{closing, decide-closing}

module _ (fl : Floats) (cal : Calendar) (table : CharTable) (text_of : Setting fl.F → Text) where
  open cal use {Moment, is_aware}

  aware_passes :
      (moment : Moment) → is_aware moment ≡ true → require_aware fl cal table text_of moment ≡ ok tt
  unfolding require_aware
  aware_passes moment a = rw (a, require_aware) refl

  assess_outside :
      (g : Gate fl cal table text_of) (bindings : Evaluated (Bindings fl.F)) (moment : Moment)
      → g.enabled ≡ true
      → is_inside fl cal table text_of g.period moment ≡ ok false
      → assess fl cal table text_of g bindings moment ≡ answer (some outside_period)
  unfolding assess assess_inside
  assess_outside g bindings moment e o = rw (e, o, assess, assess_inside) refl

  without_period : (moment : Moment) → is_inside fl cal table text_of none moment ≢ ok false
  unfolding is_inside
  without_period moment h = cc

  starting_outside :
      (g : Gate fl cal table text_of) (moment : Moment)
      → is_aware moment ≡ true
      → is_inside fl cal table text_of g.period moment ≡ ok false
      → starting_state fl cal table text_of g moment ≡ ok (closing_state fl cal table text_of g)
  unfolding starting_state closing_state
  starting_outside g moment a o = elim (Option-cases g.period) [
    | inl n ↦
        absurd
          (without_period moment (ap (λ q. is_inside fl cal table text_of q moment) (sym n) ∙ o))
    | inr (p, n) ↦
        let outside = ap (λ q. is_inside fl cal table text_of q moment) (sym n) ∙ o in
        rw (aware_passes moment a, n, starting_state, closing_state) (rw outside refl)
  ]

  -- At an aware moment outside the active period of an enabled control, a gate that acted last closes, and what it
  -- commands is what a control that starts at that moment asks for: a restart does not undo the end of a window.
  pub starting_state-decide :
      (g : Gate fl cal table text_of) (bindings : Evaluated (Bindings fl.F)) (moment : Moment)
      → is_aware moment ≡ true
      → g.enabled ≡ true
      → is_inside fl cal table text_of g.period moment ≡ ok false
      → g.acting ≡ some true
      → (d : Decision fl.F) × ((decide fl cal table text_of g bindings moment ≡ (g, answer d))
          × ((d.edge ≡ some closed_edge)
              × ((s : Setting fl.F) × ((d.apply ≡ some s)
                    × (starting_state fl cal table text_of g moment ≡ ok s)))))
  starting_state-decide g bindings moment a e o h = (
    closing fl cal table text_of g outside_period,
    (
      decide-closing fl cal table text_of g bindings moment h
          (aware_passes moment a, outside_period, assess_outside g bindings moment e o),
      (refl, (closing_state fl cal table text_of g, (refl, starting_outside g moment a o))),
    ),
  )
