-- ===== src/Gating/Reports.antt =====
-- What `Gate.decide` of toinflux/gating.py reports of a cycle.
use send_to_influx.Prelude.{
  inl, inr, ◌≢◌, ◌↔◌, ◌≡◌, refl, sym, ◌∙◌, ap, subst, Bool, Bool-cases, false≢true, if◌then◌else◌,
  true, false, Option, none, some, arith, Text,
}
use send_to_influx.Floats.{Floats, truthy}
use send_to_influx.Rules.Chars.{CharTable}
use send_to_influx.Rules.Evaluate.{Evaluated, no_answer, value, failed, crashed, Bindings}
use send_to_influx.Rules.Rule.{Rule, rule_evaluate}
use send_to_influx.Controls.{Setting}
use send_to_influx.Schedule.{Calendar, Outcome, ok, refused, require_aware, is_inside}
use send_to_influx.Gating.{
  Reason, disabled, outside_period, rule_is_false, assess_rule, rule_assessment, holds, opened,
  closed_edge, Decision, Answer, answer, config_error, rule_failed, rule_crashed, Gate, assess,
  assess_inside, closing_state, conclude, decide, after_check, is_none,
}

module _ (fl : Floats) (cal : Calendar) (table : CharTable) (text_of : Setting fl.F → Text) where
  open fl use {F}
  open cal use {Moment}

  abbrev pub Gates : Type 0
  Gates = Gate fl cal table text_of

  -- A rule that has been read gives a finite number that is not zero.
  abbrev pub RuleHolds : Option (Rule F) → Evaluated (Bindings F) → Type 0
  RuleHolds none bindings = Unit
  RuleHolds (some rule) bindings =
      (b : Bindings F) × ((bindings ≡ value b)
        × ((x : F) × ((rule_evaluate fl rule b ≡ value x)
              × ((fl.is_finite x ≡ true) × (truthy fl x ≡ true)))))

  -- The three conditions: the control is enabled, the moment lies in its active period, and its rule holds.
  abbrev pub MayAct : Gates → Evaluated (Bindings F) → Moment → Type 0
  MayAct g bindings moment =
      (g.enabled ≡ true)
      × ((is_inside fl cal table text_of g.period moment ≡ ok true)
          × RuleHolds g.enable_when bindings)

  -- What a decision says of its cycle.
  pub record Reports (g : Gates) (bindings : Evaluated (Bindings F)) (moment : Moment) (g' : Gates)
      (d : Decision F) : Type 0 where
    pub acts : (d.actuating ≡ true) ↔ MayAct g bindings moment
    pub off : (d.reason ≡ some disabled) ↔ (g.enabled ≡ false)
    pub out :
        (d.reason ≡ some outside_period)
        ↔ (g.enabled ≡ true) × (is_inside fl cal table text_of g.period moment ≡ ok false)
    pub opens : (d.edge ≡ some opened) ↔ (g.acting ≡ some false) × (d.actuating ≡ true)
    pub closes : (d.edge ≡ some closed_edge) ↔ (g.acting ≡ some true) × (d.actuating ≡ false)
    pub commands : d.edge ≡ some closed_edge → d.apply ≡ some (closing_state fl cal table text_of g)
    pub no_command : d.edge ≢ some closed_edge → d.apply ≡ none
    pub remembered : d.edge ≢ some closed_edge → g' ≡ record g { acting = some d.actuating }
    pub not_consumed : d.edge ≡ some closed_edge → g' ≡ g

  -- What a decision makes of the assessment.
  record Concludes (g : Gates) (a : Answer (Option Reason)) (g' : Gates) (d : Decision F)
      : Type 0 where
    assessed : (r : Option Reason) × (a ≡ answer r) × ((d.actuating ≡ is_none r) × (d.reason ≡ r))
    opens : (d.edge ≡ some opened) ↔ (g.acting ≡ some false) × (d.actuating ≡ true)
    closes : (d.edge ≡ some closed_edge) ↔ (g.acting ≡ some true) × (d.actuating ≡ false)
    commands : d.edge ≡ some closed_edge → d.apply ≡ some (closing_state fl cal table text_of g)
    no_command : d.edge ≢ some closed_edge → d.apply ≡ none
    remembered : d.edge ≢ some closed_edge → g' ≡ record g { acting = some d.actuating }
    not_consumed : d.edge ≡ some closed_edge → g' ≡ g

  conclude-Concludes :
      (g g' : Gates) (a : Answer (Option Reason)) (d : Decision F)
      → conclude fl cal table text_of g a ≡ (g', answer d)
      → Concludes g a g' d
  unfolding conclude
  conclude-Concludes g g' (config_error p) d h = ground arith
  conclude-Concludes g g' (rule_failed p) d h = ground arith
  conclude-Concludes g g' rule_crashed d h = ground arith
  conclude-Concludes g g' (answer none) d h = ground arith
  conclude-Concludes g g' (answer (some r)) d h = ground arith

  after_check-Concludes :
      (o : Outcome (Unit {0})) (g g' : Gates) (a : Answer (Option Reason)) (d : Decision F)
      → after_check fl cal table text_of o g a ≡ (g', answer d)
      → Concludes g a g' d
  unfolding after_check
  after_check-Concludes (refused p) g g' a d h = ground arith
  after_check-Concludes (ok u) g g' a d h = conclude-Concludes g g' a d h

  -- What an assessment says.
  record Assesses (g : Gates) (bindings : Evaluated (Bindings F)) (moment : Moment)
      (r : Option Reason) : Type 0 where
    acts : (r ≡ none) ↔ MayAct g bindings moment
    off : (r ≡ some disabled) ↔ (g.enabled ≡ false)
    out :
        (r ≡ some outside_period)
        ↔ (g.enabled ≡ true) × (is_inside fl cal table text_of g.period moment ≡ ok false)

  -- What is known of the reason that the rule leaves.
  RuleSays : Option Reason → Type 0 → Type 0
  RuleSays r P = ((r ≡ none) ↔ P) × ((r ≢ some disabled) × (r ≢ some outside_period))

  it_holds : {P : Type 0} (r : Option Reason) → P → Answer.answer none ≡ answer r → RuleSays r P
  unfolding RuleSays
  it_holds r p h = ((λ _. p, λ _. cc), (λ k. cc, λ k. cc))

  it_fails :
      {P : Type 0} (r : Option Reason)
      → ¬ P
      → Answer.answer (some rule_is_false) ≡ answer r
      → RuleSays r P
  unfolding RuleSays
  it_fails r never h = ((λ k. absurd (some_none r h k), λ p. absurd (never p)), (λ k. cc, λ k. cc))
    where
      some_none : (q : Option Reason) → Answer.answer (some rule_is_false) ≡ answer q → q ≢ none
      some_none q h k = cc

  Good : Evaluated F → Type 0
  Good e = (x : F) × ((e ≡ value x) × ((fl.is_finite x ≡ true) × (truthy fl x ≡ true)))

  same_value : (x y : F) → Evaluated.value x ≡ value y → x ≡ y
  same_value x y h = cc

  finite-RuleSays :
      (x : F) (r : Option Reason)
      → rule_assessment fl cal table text_of
          (if fl.is_finite x then value (truthy fl x) else failed no_answer)
        ≡ answer r
      → RuleSays r (Good (value x))
  unfolding rule_assessment Good
  finite-RuleSays x r h = elim (Bool-cases (fl.is_finite x)) [
    | inl f ↦ elim (Bool-cases (truthy fl x)) [
      | inl t ↦ it_holds r (x, (refl, (f, t))) (rw (f, t, rule_assessment) at h)
      | inr t ↦
          it_fails r
            (λ (g : Good (value x)).
              false≢true (sym t ∙ ap (truthy fl) (same_value x g.0 g.1.0) ∙ g.1.1.1))
            (rw (f, t, rule_assessment) at h)
    ]
    | inr f ↦ cc (rw (f, rule_assessment) at h)
  ]

  evaluated-RuleSays :
      (e : Evaluated F) (r : Option Reason)
      → rule_assessment fl cal table text_of (elim e [
        | value x ↦ if fl.is_finite x then value (truthy fl x) else failed no_answer
        | failed problem ↦ failed problem
        | crashed ↦ crashed
      ])
        ≡ answer r
      → RuleSays r (Good e)
  unfolding rule_assessment
  evaluated-RuleSays (value x) r h = finite-RuleSays x r h
  evaluated-RuleSays (failed p) r h = cc
  evaluated-RuleSays crashed r h = cc

  rule-RuleHolds :
      (rule : Option (Rule F)) (bindings : Evaluated (Bindings F)) (r : Option Reason)
      → assess_rule fl cal table text_of rule bindings ≡ answer r
      → RuleSays r (RuleHolds rule bindings)
  unfolding assess_rule holds RuleSays Good
  rule-RuleHolds none bindings r h = it_holds r tt h
  rule-RuleHolds (some rule) (failed p) r h = cc
  rule-RuleHolds (some rule) crashed r h = cc
  rule-RuleHolds (some rule) (value b) r h =
      let says = evaluated-RuleSays (rule_evaluate fl rule b) r h in
      (
        (
          λ e. (b, (refl, says.0.0 e)),
          λ p.
              says.0.1 (
                subst (λ c. Good (rule_evaluate fl rule c)) (sym (same_bindings b p.0 p.1.0))
                  p.1.1),
        ),
        says.1,
      )
    where
      same_bindings : (c d : Bindings F) → Evaluated.value c ≡ value d → c ≡ d
      same_bindings c d k = cc

  inside-Assesses :
      (g : Gates) (bindings : Evaluated (Bindings F)) (moment : Moment) (o : Outcome Bool)
      (r : Option Reason)
      → g.enabled ≡ true
      → is_inside fl cal table text_of g.period moment ≡ o
      → assess_inside fl cal table text_of o g.enable_when bindings ≡ answer r
      → Assesses g bindings moment r
  unfolding assess_inside RuleSays
  inside-Assesses g bindings moment (refused p) r e i h = cc
  inside-Assesses g bindings moment (ok true) r e i h =
      let says = rule-RuleHolds g.enable_when bindings r h in
      record {
        acts = ((λ n. (e, (i, says.0.0 n))), λ m. says.0.1 m.1.1);
        off = ((λ k. absurd (says.1.0 k)), λ k. absurd (false≢true (sym k ∙ e)));
        out = ((λ k. absurd (says.1.1 k)), λ k. absurd (ok_false (sym k.1 ∙ i)));
      }
    where
      ok_false : Outcome.ok false ≢ ok true
      ok_false k = cc
  inside-Assesses g bindings moment (ok false) r e i h = record {
    acts = ((λ n. absurd (not_none r h n)), λ m. absurd (ok_true (sym m.1.0 ∙ i)));
    off = ((λ k. absurd (not_disabled r h k)), λ k. absurd (false≢true (sym k ∙ e)));
    out = ((λ k. (e, i)), λ k. is_outside r h);
  }
    where
      ok_true : Outcome.ok true ≢ ok false
      ok_true k = cc

      not_none : (q : Option Reason) → Answer.answer (some outside_period) ≡ answer q → q ≢ none
      not_none q h k = cc

      not_disabled :
          (q : Option Reason) → Answer.answer (some outside_period) ≡ answer q → q ≢ some disabled
      not_disabled q h k = cc

      is_outside :
          (q : Option Reason)
          → Answer.answer (some outside_period) ≡ answer q
          → q ≡ some outside_period
      is_outside q h = cc

  disabled-Assesses :
      (g : Gates) (bindings : Evaluated (Bindings F)) (moment : Moment) (r : Option Reason)
      → g.enabled ≡ false
      → Answer.answer (some disabled) ≡ answer r
      → Assesses g bindings moment r
  disabled-Assesses g bindings moment r e h = record {
    acts = ((λ n. absurd (not_none r h n)), λ m. absurd (false≢true (sym e ∙ m.0)));
    off = ((λ k. e), λ k. is_off r h);
    out = ((λ k. absurd (not_out r h k)), λ k. absurd (false≢true (sym e ∙ k.0)));
  }
    where
      not_none : (q : Option Reason) → Answer.answer (some disabled) ≡ answer q → q ≢ none
      not_none q h k = cc

      not_out :
          (q : Option Reason) → Answer.answer (some disabled) ≡ answer q → q ≢ some outside_period
      not_out q h k = cc

      is_off : (q : Option Reason) → Answer.answer (some disabled) ≡ answer q → q ≡ some disabled
      is_off q h = cc

  assess-Assesses :
      (g : Gates) (bindings : Evaluated (Bindings F)) (moment : Moment) (r : Option Reason)
      → assess fl cal table text_of g bindings moment ≡ answer r
      → Assesses g bindings moment r
  unfolding assess
  assess-Assesses g bindings moment r h = elim (Bool-cases g.enabled) [
    | inl e ↦
        inside-Assesses g bindings moment (is_inside fl cal table text_of g.period moment) r e refl
          (sym (
              ap
                (λ b.
                  if b
                  then assess_inside fl cal table text_of
                      (is_inside fl cal table text_of g.period moment) g.enable_when bindings
                  else answer (some disabled))
                e)
            ∙ h)
    | inr e ↦ disabled-Assesses g bindings moment r e (
        sym (
          ap
            (λ b.
              if b
              then assess_inside fl cal table text_of
                  (is_inside fl cal table text_of g.period moment) g.enable_when bindings
              else answer (some disabled))
            e)
        ∙ h)
  ]

  none_is : (r : Option Reason) → is_none r ≡ true → r ≡ none
  none_is none h = refl
  none_is (some x) h = absurd (false≢true h)

  -- Every decision of `decide` is right about its cycle: it actuates exactly when the control is enabled, the moment is in its active
  -- period, and its rule, where it has one, gives a finite number that is not zero; the reason is that it is disabled,
  -- or out of its period, exactly where it is. It reports an opening exactly when the gate was last closed and now acts, and a
  -- closing exactly when it last acted and now does not; it carries a command, the closing state,
  -- exactly on a closing; and the gate remembers the answer, except on a closing, which leaves the
  -- gate as it was.
  pub decide-Reports :
      (g g' : Gates) (bindings : Evaluated (Bindings F)) (moment : Moment) (d : Decision F)
      → decide fl cal table text_of g bindings moment ≡ (g', answer d)
      → Reports g bindings moment g' d
  unfolding decide
  decide-Reports g g' bindings moment d h =
      let c =
        after_check-Concludes (require_aware fl cal table text_of moment) g g'
          (assess fl cal table text_of g bindings moment) d h in
      let (r, answered, says) = c.assessed in
      let acting = says.0 in
      let reason = says.1 in
      let a = assess-Assesses g bindings moment r answered in
      record {
        acts =
            ((λ e. a.acts.0 (none_is r (sym acting ∙ e))), λ m. acting ∙ ap is_none (a.acts.1 m));
        off = ((λ e. a.off.0 (sym reason ∙ e)), (λ e. reason ∙ a.off.1 e));
        out = ((λ e. a.out.0 (sym reason ∙ e)), (λ e. reason ∙ a.out.1 e));
        opens = c.opens;
        closes = c.closes;
        commands = c.commands;
        no_command = c.no_command;
        remembered = c.remembered;
        not_consumed = c.not_consumed;
      }
