-- ===== src/Schedule.antt =====
-- toinflux/schedule.py: the active period of a control.

pub mod Window
use send_to_influx.Prelude.{
  ℕ, ◌+◌, ◌*◌, ◌<◌, Bool, true, ◌&&◌, ◌||◌, Option, none, some, [], ◌∷◌, ltb, leb, ◌==◌,
  if◌then◌else◌, Text,
}
use send_to_influx.Floats.{Floats}
use send_to_influx.Rules.Chars.{CharTable}
use send_to_influx.Controls.{Setting, missing, null, text, unenergised, safe_state_problem}

-- Python's datetime and zoneinfo: aware moments, the zones of this machine, and the local time of a
-- moment, in microseconds of its day. No zone is the machine's own local time.
pub record Calendar : Type 1 where
  pub Moment : Type 0
  pub Zone : Type 0
  pub find_zone : Text → Option Zone
  pub is_aware : Moment → Bool
  pub local_time : Option Zone → Moment → ℕ
  pub local_time_below_day : (z : Option Zone) (m : Moment) → local_time z m < 86_400_000_000

-- The ConfigErrors of the schedule and of the gate.
pub data ConfigProblem : Type 0 where
  period_not_a_mapping bad_clock_time same_times bad_state unknown_zone : ConfigProblem
  naive_moment enabled_not_a_flag bad_rule : ConfigProblem

pub data Outcome (A : Type 0) : Type 0 where
  ok : A → Outcome A
  refused : ConfigProblem → Outcome A

infixl 5 ◌>>=◌
abbrev pub ◌>>=◌ : {A B : Type 0} → Outcome A → (A → Outcome B) → Outcome B
ok a >>= f = f a
refused p >>= f = refused p

-- `datetime.time(hour, minute)`, in microseconds of the day.
abbrev pub time_of : ℕ → ℕ → ℕ
time_of hour minute = (hour * 60 + minute) * 60_000_000

-- The five characters of CLOCK_TIME_PATTERN: ([01]\d|2[0-3]):[0-5]\d
unfoldable pub is_clock_time : CharTable → ℕ → ℕ → ℕ → ℕ → ℕ → Bool
is_clock_time table a b colon c d =
    (((a == b'0' || a == b'1') && table.is_digit b) || (a == b'2' && (leb b'0' b && leb b b'3')))
    && (colon == b':' && ((leb b'0' c && leb c b'5') && table.is_digit d))

-- `_clock_time`
unfoldable pub clock_time : {F : Type 0} → CharTable → Setting F → Outcome ℕ
unfolding is_clock_time
clock_time table (text (a ∷ b ∷ colon ∷ c ∷ d ∷ [])) =
    let v = table.digit_value in
    if is_clock_time table a b colon c d
    then ok (time_of (v a * 10 + v b) (v c * 10 + v d))
    else refused bad_clock_time
clock_time table _ = refused bad_clock_time

-- The `active_period` of a document.
pub data PeriodSection (F : Type 0) : Type 0 where
  no_period : PeriodSection F
  not_a_mapping : PeriodSection F
  period : Setting F → Setting F → Setting F → PeriodSection F

module _ (fl : Floats) (cal : Calendar) (table : CharTable) (text_of : Setting fl.F → Text) where
  open fl use {F}
  open cal use {Moment, Zone, find_zone, is_aware, local_time}

  pub record ActivePeriod : Type 0 where
    pub start : ℕ
    pub end : ℕ
    pub end_state : Setting F
    pub zone : Option Zone

  -- `period.get("end_state", SAFE_STATE_UNENERGISED)`
  abbrev pub default_state : Setting F → Setting F
  default_state missing = text unenergised
  default_state s = s

  zone_called : Setting F → Option Zone → Outcome (Option Zone)
  zone_called name none = refused unknown_zone
  zone_called name (some z) = ok (some z)

  -- `control_zone`; `str` of a value that is no text is a parameter.
  unfoldable pub control_zone : Setting F → Outcome (Option Zone)
  unfolding zone_called
  control_zone missing = ok none
  control_zone null = ok none
  control_zone name = zone_called name (find_zone (text_of name))

  make_period : ℕ → ℕ → Setting F → Setting F → Outcome (Option ActivePeriod)
  make_period start end end_state timezone =
      if start == end then refused same_times else elim (safe_state_problem fl end_state) [
        | some problem ↦ refused bad_state
        | none ↦ control_zone timezone >>= λ zone.
            ok (some (record { start = start; end = end; end_state = end_state; zone = zone }))
      ]

  -- `parse_active_period`, from the `active_period` and the `timezone` of the document.
  unfoldable pub parse_active_period : PeriodSection F → Setting F → Outcome (Option ActivePeriod)
  unfolding make_period
  parse_active_period no_period timezone = ok none
  parse_active_period not_a_mapping timezone = refused period_not_a_mapping
  parse_active_period (period from to end_state) timezone = clock_time table from >>= λ start.
      clock_time table to >>= λ end. make_period start end (default_state end_state) timezone

  -- `require_aware`
  unfoldable pub require_aware : Moment → Outcome (Unit {0})
  require_aware moment = if is_aware moment then ok tt else refused naive_moment

  -- The comparison of `is_inside`: the end is not in the window, and an end before the start wraps
  -- midnight.
  unfoldable pub is_within : ℕ → ℕ → ℕ → Bool
  is_within start end local =
      if ltb start end then leb start local && ltb local end else leb start local || ltb local end

  unfoldable pub is_inside : Option ActivePeriod → Moment → Outcome Bool
  unfolding is_within
  is_inside none moment = ok true
  is_inside (some p) moment =
      require_aware moment >>= λ _. ok (is_within p.start p.end (local_time p.zone moment))
