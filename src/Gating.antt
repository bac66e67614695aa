-- ===== src/Gating.antt =====
-- `Decision`, `Gate` and `_holds` of toinflux/gating.py: whether a control acts this cycle.
pub mod Edges
pub mod Reports
pub mod Guard
pub mod Starting
use send_to_influx.Prelude.{Bool, true, false, Option, none, some, List, if◌then◌else◌, Text}
use send_to_influx.Floats.{Floats, truthy}
use send_to_influx.Rules.Chars.{CharTable}
use send_to_influx.Rules.Evaluate.{
  EvaluationProblem, no_answer, Evaluated, value, failed, crashed, Bindings,
}
use send_to_influx.Rules.Rule.{Rule, Parsed, RuleText, names, parse_rule, rule_evaluate}
use send_to_influx.Rules.Rule
use send_to_influx.Controls.{Setting, missing, null, flag, text, safe_state_problem}
use send_to_influx.Schedule.{
  Calendar, ConfigProblem, Outcome, ok, refused, bad_state, enabled_not_a_flag, bad_rule,
  PeriodSection, ActivePeriod, parse_active_period, require_aware, is_inside, default_state, ◌>>=◌,
}

-- Which of the three conditions closed.
pub data Reason : Type 0 where
  disabled outside_period rule_is_false : Reason

pub data Edge : Type 0 where
  opened closed_edge : Edge

pub record Decision (F : Type 0) : Type 0 where
  pub actuating : Bool
  pub reason : Option Reason
  pub edge : Option Edge
  pub apply : Option (Setting F)

-- What `decide` returns or raises.
pub data Answer (A : Type 0) : Type 0 where
  answer : A → Answer A
  config_error : ConfigProblem → Answer A
  rule_failed : EvaluationProblem → Answer A
  rule_crashed : Answer A

abbrev pub same_flag : Bool → Bool → Bool
same_flag true b = b
same_flag false b = if b then false else true

abbrev pub is_none {ℓ} : {A : Type ℓ} → Option A → Bool
is_none none = true
is_none (some a) = false

-- was is None or was == acting
abbrev pub unchanged : Option Bool → Bool → Bool
unchanged none acting = true
unchanged (some was) acting = same_flag was acting

-- The parts of a control document that a gate reads.
pub record GateDocument (F : Type 0) : Type 0 where
  pub enabled : Setting F
  pub active_period : PeriodSection F
  pub timezone : Setting F
  pub safe_state : Setting F
  pub enable_when : Setting F
  pub rule_names : List Text

-- `_holds`: a rule that gives no finite number has no answer. (A rule's value is a float, never a
-- bool.)
unfoldable pub holds : (fl : Floats) → Rule fl.F → Bindings fl.F → Evaluated Bool
holds fl rule bindings = elim (rule_evaluate fl rule bindings) [
  | value x ↦ if fl.is_finite x then value (truthy fl x) else failed no_answer
  | failed problem ↦ failed problem
  | crashed ↦ crashed
]

module _ (fl : Floats) (cal : Calendar) (table : CharTable) (text_of : Setting fl.F → Text) where
  open fl use {F}
  open cal use {Moment}

  abbrev pub Period : Type 0
  Period = ActivePeriod fl cal table text_of

  -- `acting` is `_acting`: none before the first cycle.
  pub record Gate : Type 0 where
    pub enabled : Bool
    pub period : Option Period
    pub safe_state : Setting F
    pub enable_when : Option (Rule F)
    pub acting : Option Bool

  enabled_flag : Setting F → Outcome Bool
  enabled_flag missing = ok true
  enabled_flag (flag b) = ok b
  enabled_flag s = refused enabled_not_a_flag

  accepted_state : Setting F → Outcome (Setting F)
  accepted_state s = elim (safe_state_problem fl s) [
    | none ↦ ok s
    | some problem ↦ refused bad_state
  ]

  accepted_rule : Parsed F → Outcome (Option (Rule F))
  accepted_rule (Parsed.rule r) = ok (some r)
  accepted_rule p = refused bad_rule

  gate_rule : Setting F → List Text → Outcome (Option (Rule F))
  unfolding accepted_rule
  gate_rule missing declared = ok none
  gate_rule null declared = ok none
  gate_rule s declared =
      accepted_rule (parse_rule fl table (RuleText.text (text_of s)) (names declared))

  -- `Gate.__init__`
  unfoldable pub new_gate : GateDocument F → Outcome Gate
  unfolding enabled_flag accepted_state gate_rule
  new_gate d = enabled_flag d.enabled >>= λ enabled.
      parse_active_period fl cal table text_of d.active_period d.timezone >>= λ period.
      accepted_state (default_state fl cal table text_of d.safe_state) >>= λ safe_state.
      gate_rule d.enable_when d.rule_names >>= λ enable_when. ok (record {
        enabled = enabled;
        period = period;
        safe_state = safe_state;
        enable_when = enable_when;
        acting = none;
      })

  -- The result of `_assess`: none where the control acts, and otherwise why it does not.
  abbrev pub Assessment : Type 0
  Assessment = Answer (Option Reason)

  rule_assessment : Evaluated Bool → Assessment
  rule_assessment (value true) = answer none
  rule_assessment (value false) = answer (some rule_is_false)
  rule_assessment (failed problem) = rule_failed problem
  rule_assessment crashed = rule_crashed

  -- The third condition of `_assess`. Resolving the bindings may raise.
  assess_rule : Option (Rule F) → Evaluated (Bindings F) → Assessment
  unfolding rule_assessment
  assess_rule none bindings = answer none
  assess_rule (some rule) (value bindings) = rule_assessment (holds fl rule bindings)
  assess_rule (some rule) (failed problem) = rule_failed problem
  assess_rule (some rule) crashed = rule_crashed

  assess_inside : Outcome Bool → Option (Rule F) → Evaluated (Bindings F) → Assessment
  unfolding assess_rule
  assess_inside (refused problem) rule bindings = config_error problem
  assess_inside (ok inside) rule bindings =
      if inside then assess_rule rule bindings else answer (some outside_period)

  -- `_assess`
  unfoldable pub assess : Gate → Evaluated (Bindings F) → Moment → Assessment
  unfolding assess_inside
  assess g bindings moment =
      if g.enabled
      then assess_inside (is_inside fl cal table text_of g.period moment) g.enable_when bindings
      else answer (some disabled)

  -- `closing_state`
  unfoldable pub closing_state : Gate → Setting F
  closing_state g = elim g.period [ none ↦ g.safe_state | some p ↦ p.end_state ]

  -- `decide` after the assessment.
  unfoldable pub conclude : Gate → Assessment → Gate × Answer (Decision F)
  conclude g (config_error problem) = (g, config_error problem)
  conclude g (rule_failed problem) = (g, rule_failed problem)
  conclude g rule_crashed = (g, rule_crashed)
  conclude g (answer reason) =
      let acting = is_none reason in
      if unchanged g.acting acting
      then (
        record g { acting = some acting },
        answer (record { actuating = acting; reason = reason; edge = none; apply = none }),
      )
      else if acting
      then (
        record g { acting = some acting },
        answer (record { actuating = true; reason = none; edge = some opened; apply = none }),
      )
      else (
        g,
        answer (record {
          actuating = false;
          reason = reason;
          edge = some closed_edge;
          apply = some (closing_state g);
        }),
      )

  -- `require_aware` comes first in `decide`, and what it raises changes nothing.
  after_check : Outcome (Unit {0}) → Gate → Assessment → Gate × Answer (Decision F)
  after_check (refused problem) g assessment = (g, config_error problem)
  after_check (ok _) g assessment = conclude g assessment

  -- `decide`
  unfoldable pub decide : Gate → Evaluated (Bindings F) → Moment → Gate × Answer (Decision F)
  unfolding after_check
  decide g bindings moment =
      after_check (require_aware fl cal table text_of moment) g (assess g bindings moment)

  -- `closed`
  unfoldable pub closed : Gate → Gate
  closed g = record g { acting = some false }

  -- `starting_state`
  unfoldable pub starting_state : Gate → Moment → Outcome (Setting F)
  starting_state g moment = require_aware fl cal table text_of moment >>= λ _. elim g.period [
    | none ↦ ok g.safe_state
    | some p ↦ is_inside fl cal table text_of (some p) moment >>= λ inside.
        ok (if inside then g.safe_state else p.end_state)
  ]
