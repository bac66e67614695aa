-- ===== src/Examples/Gates.antt =====
-- toinflux/schedule.py and toinflux/gating.py on concrete inputs.
use Prim.Native.Nat.{◌%◌}
use send_to_influx.Prelude.{
  inr, ltb, ℕ, ◌*◌, ◌≡◌, ◌<◌, refl, Bool, true, false, not, Option, none, some, List, [], ◌∷◌, All,
  arith, if◌then◌else◌, Text, codes, text_eq,
}
use send_to_influx.Floats.Sample.{Sample, whole, sample_floats}
use send_to_influx.Rules.Evaluate.{Evaluated, value, crashed, Bindings}
use send_to_influx.Rules.Examples.{ascii}
use send_to_influx.Controls.{
  Setting, missing, text, unenergised, energised, spec, State, switch, safe_state_problem,
  parameter_of,
}
use send_to_influx.Schedule.{
  Calendar, ok, PeriodSection, period, naive_moment, ActivePeriod, clock_time, parse_active_period,
  is_within, is_inside, require_aware, control_zone,
}
use send_to_influx.Schedule.Window.{
  IsSound, windows_are_complements, time_until, is_within-time_until, parse_active_period-IsSound,
}
use send_to_influx.Gating.{
  Gate, Decision, answer, closed_edge, outside_period, config_error, assess, decide, conclude,
  closing_state,
}
use send_to_influx.Gating.{starting_state}
use send_to_influx.Gating.Starting.{starting_state-decide}
use send_to_influx.Gating.Reports.{Reports, decide-Reports}
use send_to_influx.Gating.Edges.{
  cycles, IsClosing, repeated_until_applied, raising_changes_nothing, bindings_are_not_read,
}
use send_to_influx.Gating.Guard.{
  Prepared, Devices, Commands, commands_for, DeviceGuard, new_guard, each, off_command,
}
use send_to_influx.Gating.Guard.Safe.{names_of, IsOff, commands_for-names, unenergised-IsOff}
use send_to_influx.Gating.Guard.Once.{stopping, exiting, all_issued, new_guard_acts_once}

-- Moments are microseconds since midnight, or naive; there is one zone, an hour ahead.
abbrev day_length : ℕ
day_length = 86_400_000_000

pub below_day :
    (z : Option (Unit {0})) (m : Option ℕ)
    → (elim m [ none ↦ 0 | some t ↦ t % day_length ]) < day_length
below_day z none = omega arith
below_day z (some t) = omega arith

abbrev clock : Calendar
clock = record {
  Moment = Option ℕ;
  Zone = Unit {0};
  find_zone = λ name. if text_eq name (codes "UTC") then some tt else none;
  is_aware = λ m. elim m [ none ↦ false | some t ↦ true ];
  local_time = λ z m. elim m [ none ↦ 0 | some t ↦ t % day_length ];
  local_time_below_day = below_day;
}

abbrev text_of : Setting Sample → Text
text_of (text t) = t
text_of s = []

abbrev Period : Type 0
Period = ActivePeriod sample_floats clock ascii text_of

abbrev hour : ℕ
hour = 3_600_000_000

-- 23:35 to 05:25, energised at the end of the window.
abbrev night : PeriodSection Sample
night = period (text (codes "23:35")) (text (codes "05:25")) (text energised)

abbrev night_period : Period
night_period = record {
  start = 84_900_000_000;
  end = 19_500_000_000;
  end_state = text energised;
  zone = none;
}

night_parses :
    parse_active_period sample_floats clock ascii text_of night missing ≡ ok (some night_period)
unfolding parse_active_period clock_time safe_state_problem control_zone
    send_to_influx.Prelude.contains text_eq
night_parses = refl

night_wraps : is_within sample_floats clock ascii text_of (23 * hour) (5 * hour) (2 * hour) ≡ true
unfolding is_within
night_wraps = refl

windows_are_complements_test :
    is_within sample_floats clock ascii text_of (23 * hour) (5 * hour) (2 * hour)
    ≡ not (is_within sample_floats clock ascii text_of (5 * hour) (23 * hour) (2 * hour))
windows_are_complements_test =
    windows_are_complements sample_floats clock ascii text_of (23 * hour) (5 * hour) (2 * hour)
      (omega arith)

-- Two o'clock at night is in the window from 23:00 to 05:00: it comes three hours after the start.
is_within-time_until_example :
    is_within sample_floats clock ascii text_of (23 * hour) (5 * hour) (2 * hour)
    ≡ ltb
        (time_until sample_floats clock ascii text_of (23 * hour) (2 * hour))
        (time_until sample_floats clock ascii text_of (23 * hour) (5 * hour))
is_within-time_until_example =
    is_within-time_until sample_floats clock ascii text_of (23 * hour) (5 * hour) (2 * hour)
      (omega arith) (omega arith) (omega arith) (omega arith)

parse_active_period-IsSound_test : IsSound sample_floats clock ascii text_of night_period
parse_active_period-IsSound_test =
    parse_active_period-IsSound sample_floats clock ascii text_of night missing night_period
      night_parses

-- A gate of that period, whose control acted in the last cycle.
abbrev acting_gate : Gate sample_floats clock ascii text_of
acting_gate = record {
  enabled = true;
  period = some night_period;
  safe_state = text unenergised;
  enable_when = none;
  acting = some true;
}

abbrev closing_decision : Decision Sample
closing_decision = record {
  actuating = false;
  reason = some outside_period;
  edge = some closed_edge;
  apply = some (text energised);
}

abbrev no_bindings : Evaluated (Bindings Sample)
no_bindings = value (λ name. none)

morning_is_aware : require_aware sample_floats clock ascii text_of (some (7 * hour)) ≡ ok tt
unfolding require_aware
morning_is_aware = refl

morning_is_outside :
    assess sample_floats clock ascii text_of acting_gate no_bindings (some (7 * hour))
    ≡ answer (some outside_period)
unfolding assess is_inside require_aware
morning_is_outside = refl

morning_closes :
    decide sample_floats clock ascii text_of acting_gate no_bindings (some (7 * hour))
    ≡ (acting_gate, answer closing_decision)
unfolding decide conclude closing_state assess is_inside require_aware
morning_closes = refl

decide-Reports_example :
    Reports sample_floats clock ascii text_of acting_gate no_bindings
      (some (7 * hour))
      acting_gate
      closing_decision
decide-Reports_example =
    decide-Reports sample_floats clock ascii text_of acting_gate acting_gate no_bindings
      (some (7 * hour)) closing_decision morning_closes

abbrev two_mornings : List (Evaluated (Bindings Sample) × Option ℕ)
two_mornings = (no_bindings, some (7 * hour)) ∷ (crashed, some (8 * hour)) ∷ []

late_morning_is_outside :
    assess sample_floats clock ascii text_of acting_gate crashed (some (8 * hour))
    ≡ answer (some outside_period)
unfolding assess is_inside require_aware
late_morning_is_outside = refl

late_morning_is_aware : require_aware sample_floats clock ascii text_of (some (8 * hour)) ≡ ok tt
unfolding require_aware
late_morning_is_aware = refl

repeated_until_applied_example :
    let (gate, answers) = cycles sample_floats clock ascii text_of acting_gate two_mornings in
    (gate ≡ acting_gate) × All (IsClosing sample_floats clock ascii text_of acting_gate) answers
repeated_until_applied_example =
    repeated_until_applied sample_floats clock ascii text_of acting_gate two_mornings refl (
      (morning_is_aware, outside_period, morning_is_outside),
      ((late_morning_is_aware, outside_period, late_morning_is_outside), tt),
    )

abbrev after_naive_moment : Gate sample_floats clock ascii text_of
after_naive_moment = (decide sample_floats clock ascii text_of acting_gate no_bindings none).0

naive_moment_raises :
    decide sample_floats clock ascii text_of acting_gate no_bindings none
    ≡ (after_naive_moment, config_error naive_moment)
unfolding decide require_aware
naive_moment_raises = refl

naive_moment_leaves_gate : after_naive_moment ≡ acting_gate
naive_moment_leaves_gate =
    raising_changes_nothing sample_floats clock ascii text_of acting_gate after_naive_moment
      no_bindings none (config_error naive_moment) naive_moment_raises tt

morning_is_not_inside :
    is_inside sample_floats clock ascii text_of (some night_period) (some (7 * hour)) ≡ ok false
unfolding is_inside require_aware
morning_is_not_inside = refl

crash_is_not_seen :
    decide sample_floats clock ascii text_of acting_gate no_bindings (some (7 * hour))
    ≡ decide sample_floats clock ascii text_of acting_gate crashed (some (7 * hour))
crash_is_not_seen =
    bindings_are_not_read sample_floats clock ascii text_of acting_gate no_bindings crashed
      (some (7 * hour)) (inr morning_is_not_inside)

-- A relay and a heater that is driven in per cent.
abbrev is_blank : Text → Bool
is_blank t = text_eq t []

abbrev appliances : Devices sample_floats is_blank
appliances = (codes "relay", spec missing) ∷ (codes "heater", spec (text (codes "power_pct"))) ∷ []

abbrev both_off : Commands sample_floats is_blank
both_off = (codes "relay", switch false) ∷ (codes "heater", State.value (whole 0)) ∷ []

off_is_prepared :
    commands_for sample_floats is_blank (text unenergised) appliances ≡ Prepared.ok (some both_off)
unfolding commands_for each off_command parameter_of text_eq
off_is_prepared = refl

commands_for-names_test : names_of both_off ≡ codes "relay" ∷ codes "heater" ∷ []
commands_for-names_test =
    commands_for-names sample_floats is_blank (text unenergised) appliances both_off off_is_prepared

unenergised-IsOff_test :
    (cs : Commands sample_floats is_blank) × (commands_for sample_floats is_blank
        (text unenergised)
        appliances
      ≡ Prepared.ok (some cs))
    × All (IsOff sample_floats is_blank) cs
    × (names_of cs ≡ codes "relay" ∷ codes "heater" ∷ [])
unenergised-IsOff_test = unenergised-IsOff sample_floats is_blank appliances

abbrev guarding : DeviceGuard sample_floats is_blank
guarding = record {
  safe_state = text unenergised;
  devices = appliances;
  commands = some both_off;
  stopped = false;
  registered = true;
}

guard_starts : new_guard sample_floats is_blank (text unenergised) appliances ≡ Prepared.ok guarding
unfolding new_guard commands_for each off_command parameter_of text_eq
guard_starts = refl

-- It is stopped, stopped again, and the process ends.
new_guard_acts_once_example :
    (commands_for sample_floats is_blank (text unenergised) appliances
      ≡ Prepared.ok (some both_off))
    × (all_issued sample_floats is_blank guarding (stopping ∷ stopping ∷ exiting ∷ [])
        ≡ both_off ∷ [])
new_guard_acts_once_example =
    new_guard_acts_once sample_floats is_blank (text unenergised) appliances guarding stopping
      (stopping ∷ exiting ∷ []) guard_starts

-- At seven the night is over: what a start asks for then is what the gate that acted commands.
starting_state-decide_example :
    (d : Decision Sample) × ((decide sample_floats clock ascii text_of acting_gate no_bindings
          (some (7 * hour))
        ≡ (acting_gate, answer d))
      × ((d.edge ≡ some closed_edge)
          × ((s : Setting Sample) × ((d.apply ≡ some s)
                × (starting_state sample_floats clock ascii text_of acting_gate (some (7 * hour))
                    ≡ ok s)))))
unfolding is_inside require_aware
starting_state-decide_example =
    starting_state-decide sample_floats clock ascii text_of acting_gate no_bindings
      (some (7 * hour)) refl refl refl refl
