-- ===== src/Gating/Edges.antt =====
-- The closing edge of `Gate` in toinflux/gating.py: it is reported again until its command has been applied.
use send_to_influx.Prelude.{
  inl, inr, ◌⊎◌, ◌≡◌, refl, true, false, Option, none, some, List, [], ◌∷◌, All, arith, Text,
}
use send_to_influx.Floats.{Floats}
use send_to_influx.Rules.Chars.{CharTable}
use send_to_influx.Rules.Evaluate.{Evaluated, Bindings}
use send_to_influx.Controls.{Setting}
use send_to_influx.Schedule.{Calendar, Outcome, ok, refused, require_aware, is_inside}
use send_to_influx.Gating.{
  Reason, closed_edge, Decision, Answer, answer, config_error, rule_failed, rule_crashed, assess,
  assess_inside, closing_state, conclude, decide, after_check,
}
use send_to_influx.Gating.Reports.{Gates}

module _ (fl : Floats) (cal : Calendar) (table : CharTable) (text_of : Setting fl.F → Text) where
  open fl use {F}
  open cal use {Moment}

  -- A cycle whose decision is a closing one.
  abbrev pub ClosingCycle : Gates fl cal table text_of → Evaluated (Bindings F) × Moment → Type 0
  ClosingCycle g (bindings, moment) =
      (require_aware fl cal table text_of moment ≡ ok tt)
      × (r : Reason) × (assess fl cal table text_of g bindings moment ≡ answer (some r))

  -- The decisions of consecutive cycles between which the gate's owner does nothing.
  unfoldable pub cycles :
      Gates fl cal table text_of
      → List (Evaluated (Bindings F) × Moment)
      → Gates fl cal table text_of × List (Answer (Decision F))
  cycles g [] = (g, [])
  cycles g ((bindings, moment) ∷ rest) =
      let (g', a) = decide fl cal table text_of g bindings moment in
      let (g'', more) = cycles g' rest in (g'', a ∷ more)

  abbrev pub IsClosing : Gates fl cal table text_of → Answer (Decision F) → Type 0
  IsClosing g (answer d) =
      (d.edge ≡ some closed_edge) × (d.apply ≡ some (closing_state fl cal table text_of g))
  IsClosing g _ = ⊥

  abbrev pub closing : Gates fl cal table text_of → Reason → Decision F
  closing g r = record {
    actuating = false;
    reason = some r;
    edge = some closed_edge;
    apply = some (closing_state fl cal table text_of g);
  }

  conclude-closing :
      (g : Gates fl cal table text_of) (r : Reason)
      → g.acting ≡ some true
      → conclude fl cal table text_of g (answer (some r)) ≡ (g, answer (closing g r))
  unfolding conclude
  conclude-closing g r h = ground arith

  after_check-closing :
      (o : Outcome (Unit {0})) (g : Gates fl cal table text_of) (a : Answer (Option Reason))
      (r : Reason)
      → o ≡ ok tt
      → a ≡ answer (some r)
      → g.acting ≡ some true
      → after_check fl cal table text_of o g a ≡ (g, answer (closing g r))
  unfolding after_check
  after_check-closing o g a r ho ha h = rw (ho, after_check) (rw ha (conclude-closing g r h))

  pub decide-closing :
      (g : Gates fl cal table text_of) (bindings : Evaluated (Bindings F)) (moment : Moment)
      → g.acting ≡ some true
      → (c : ClosingCycle g (bindings, moment))
      → decide fl cal table text_of g bindings moment ≡ (g, answer (closing g c.1))
  unfolding decide
  decide-closing g bindings moment h c =
      after_check-closing (require_aware fl cal table text_of moment) g
        (assess fl cal table text_of g bindings moment) c.1 c.0 c.2 h

  -- A closing edge is not lost: while the gate last acted and its owner does not report the command
  -- applied, every one of any number of cycles in which the control should not act reports the
  -- closing edge again, with the same command.
  pub repeated_until_applied :
      (g : Gates fl cal table text_of) (later : List (Evaluated (Bindings F) × Moment))
      → g.acting ≡ some true
      → All (ClosingCycle g) later
      → ((cycles g later).0 ≡ g) × All (IsClosing g) (cycles g later).1
  unfolding cycles
  repeated_until_applied g [] h all = (refl, tt)
  repeated_until_applied g ((bindings, moment) ∷ rest) h all =
      let ih = repeated_until_applied g rest h all.1 in
      rw (decide-closing g bindings moment h all.0) (ih.0, ((refl, refl), ih.1))

  abbrev pub Raised : Answer (Decision F) → Type 0
  Raised (answer d) = ⊥
  Raised _ = Unit

  after_check-Raised :
      (o : Outcome (Unit {0})) (g g' : Gates fl cal table text_of) (a : Answer (Option Reason))
      (r : Answer (Decision F))
      → after_check fl cal table text_of o g a ≡ (g', r)
      → Raised r
      → g' ≡ g
  unfolding after_check conclude
  after_check-Raised o g g' a (answer d) h raised = absurd raised
  after_check-Raised (refused p) g g' a _ h raised = ground arith
  after_check-Raised (ok u) g g' (config_error p) _ h raised = ground arith
  after_check-Raised (ok u) g g' (rule_failed p) _ h raised = ground arith
  after_check-Raised (ok u) g g' rule_crashed _ h raised = ground arith
  after_check-Raised (ok u) g g' (answer none) _ h raised = ground arith
  after_check-Raised (ok u) g g' (answer (some x)) _ h raised = ground arith

  -- A cycle that raises leaves the gate as it was.
  pub raising_changes_nothing :
      (g g' : Gates fl cal table text_of) (bindings : Evaluated (Bindings F)) (moment : Moment)
      (a : Answer (Decision F))
      → decide fl cal table text_of g bindings moment ≡ (g', a)
      → Raised a
      → g' ≡ g
  unfolding decide
  raising_changes_nothing g g' bindings moment a h r =
      after_check-Raised (require_aware fl cal table text_of moment) g g'
        (assess fl cal table text_of g bindings moment) a h r

  -- The sensors are not asked in vain: the answer of a control that is disabled or outside its
  -- active period does not depend on the bindings, nor on whether they could be read at all.
  pub bindings_are_not_read :
      (g : Gates fl cal table text_of) (bindings others : Evaluated (Bindings F)) (moment : Moment)
      → (g.enabled ≡ false) ⊎ (is_inside fl cal table text_of g.period moment ≡ ok false)
      → decide fl cal table text_of g bindings moment ≡ decide fl cal table text_of g others moment
  unfolding decide assess assess_inside
  bindings_are_not_read g bindings others moment (inl h) = rw h
  bindings_are_not_read g bindings others moment (inr h) = rw (h, assess_inside)
