-- ===== src/Schedule/Window.antt =====
-- What the active period of toinflux/schedule.py accepts, and when it is open.
use Prim.Native.Nat.{◌%◌}
use send_to_influx.Prelude.{
  inl, inr, ◌≢◌, ℕ, ◌+◌, ◌*◌, ◌<◌, ◌≡◌, refl, true, not, ◌&&◌, ◌||◌, none, some, [], ◌∷◌, leb, ltb,
  ◌-◌, ◌≤◌, ◌==◌, Bool-cases, Option-cases, arith, Text,
}
use send_to_influx.Floats.{Floats}
use send_to_influx.Rules.Chars.{CharTable}
use send_to_influx.Controls.{Setting, text, safe_state_problem}
use send_to_influx.Schedule.{
  Calendar, Outcome, ok, refused, time_of, is_clock_time, clock_time, PeriodSection, no_period,
  not_a_mapping, period, ActivePeriod, default_state, control_zone, make_period,
  parse_active_period, is_within, ◌>>=◌,
}

abbrev pub day : ℕ
day = 86_400_000_000

hour_below :
    (table : CharTable) (a b : ℕ)
    → (((a == b'0' || a == b'1') && table.is_digit b) || (a == b'2' && (leb b'0' b && leb b b'3')))
      ≡ true
    → table.digit_value a * 10 + table.digit_value b < 24
hour_below table a b h =
    ground (arith, table.digit_value_ascii a, table.digit_value_ascii b, table.digit_value_below b)

minute_below :
    (table : CharTable) (c d : ℕ)
    → ((leb b'0' c && leb c b'5') && table.is_digit d) ≡ true
    → table.digit_value c * 10 + table.digit_value d < 60
minute_below table c d h = ground (arith, table.digit_value_ascii c, table.digit_value_below d)

digits_below_day :
    (table : CharTable) (a b colon c d : ℕ)
    → is_clock_time table a b colon c d ≡ true
    → let v = table.digit_value in time_of (v a * 10 + v b) (v c * 10 + v d) < day
unfolding is_clock_time
digits_below_day table a b colon c d h =
    omega (arith, hour_below table a b (ground arith), minute_below table c d (ground arith))

-- Where a step and what follows it succeed, the step did.
pub >>=-eq-ok :
    {A B : Type 0} (first : Outcome A) (k : A → Outcome B) {y : B}
    → (first >>= k) ≡ ok y
    → (x : A) × (first ≡ ok x) × (k x ≡ ok y)
>>=-eq-ok (ok x) k e = (x, refl, e)
>>=-eq-ok (refused p) k e = cc

module _ (fl : Floats) (cal : Calendar) (table : CharTable) (text_of : Setting fl.F → Text) where
  -- Every time of day lies in exactly one of the window from `start` to `end` and the window from
  -- `end` to `start`, where the two differ: a window that wraps midnight is the complement of the
  -- window between its ends.
  pub windows_are_complements :
      (start end local : ℕ)
      → start ≢ end
      → is_within fl cal table text_of start end local
        ≡ not (is_within fl cal table text_of end start local)
  unfolding is_within
  windows_are_complements start end local h = ground arith

  -- How long after `start` the clock next shows `t`.
  abbrev pub time_until : ℕ → ℕ → ℕ
  time_until start t = (t + (day - start)) % day

  time_until_later : (start t : ℕ) → t < day → start ≤ t → time_until start t ≡ t - start
  time_until_later start t h k = omega (arith, h, k)

  time_until_earlier :
      (start t : ℕ) → start < day → t < start → time_until start t ≡ t + (day - start)
  time_until_earlier start t h k = omega (arith, h, k)

  -- Of two different times of a day, a time of day lies in the window from the first to the second exactly where the
  -- clock, going on from the start, shows it before it shows the end: whether the window wraps midnight or not.
  pub is_within-time_until :
      (start end local : ℕ)
      → start < day
      → end < day
      → local < day
      → start ≢ end
      → is_within fl cal table text_of start end local
        ≡ ltb (time_until start local) (time_until start end)
  unfolding is_within
  is_within-time_until start end local s e l d = elim (Bool-cases (leb start local)) [
    | inl a ↦ elim (Bool-cases (leb start end)) [
      | inl b ↦
          rw
            (
              time_until_later start local l (ground (arith, a)),
              time_until_later start end e (ground (arith, b)),
            )
            (ground (arith, a, b, d))
      | inr b ↦
          rw
            (
              time_until_later start local l (ground (arith, a)),
              time_until_earlier start end s (ground (arith, b)),
            )
            (ground (arith, a, b, d, l))
    ]
    | inr a ↦ elim (Bool-cases (leb start end)) [
      | inl b ↦
          rw
            (
              time_until_earlier start local s (ground (arith, a)),
              time_until_later start end e (ground (arith, b)),
            )
            (ground (arith, a, b, d, e))
      | inr b ↦
          rw
            (
              time_until_earlier start local s (ground (arith, a)),
              time_until_earlier start end s (ground (arith, b)),
            )
            (ground (arith, a, b, d))
    ]
  ]

  -- Of a period that the document declares and that is accepted: the two times differ and are times
  -- of a day, and the end state, `unenergised` where the document names none, is one that the
  -- validator has no problem with.
  pub record IsSound (p : ActivePeriod fl cal table text_of) : Type 0 where
    pub differs : p.start ≢ p.end
    pub start_below : p.start < day
    pub end_below : p.end < day
    pub usable : safe_state_problem fl p.end_state ≡ none

  clock_time_found : {n : ℕ} (t : ℕ) → n < day → Outcome.ok n ≡ ok t → t < day
  clock_time_found t l h = ground arith

  clock_time-below : (s : Setting fl.F) (t : ℕ) → clock_time table s ≡ ok t → t < day
  unfolding clock_time
  clock_time-below (text (a ∷ b ∷ colon ∷ c ∷ d ∷ [])) t h =
      elim (Bool-cases (is_clock_time table a b colon c d)) [
        | inl e ↦ clock_time_found t (digits_below_day table a b colon c d e) (rw e at h)
        | inr e ↦ cc (rw e at h)
      ]
  clock_time-below s t h = cc

  make_period-IsSound :
      (start end : ℕ) (end_state timezone : Setting fl.F) (p : ActivePeriod fl cal table text_of)
      → start < day
      → end < day
      → make_period fl cal table text_of start end end_state timezone ≡ ok (some p)
      → IsSound p
  unfolding make_period
  make_period-IsSound start end end_state timezone p hs he h = elim (Bool-cases (start == end)) [
    | inl e ↦ cc (rw e at h)
    | inr e ↦ elim (Option-cases (safe_state_problem fl end_state)) [
      | inr (problem, k) ↦ cc (rw (e, k) at h)
      | inl k ↦
          let (zone, hz, h') =
            >>=-eq-ok (control_zone fl cal table text_of timezone) _ (rw (e, k) at h) in
          let same : p ≡ record { start = start; end = end; end_state = end_state; zone = zone } =
            ground arith in
          rw same (record { differs = ground arith; start_below = hs; end_below = he; usable = k })
    ]
  ]

  -- A period that `parse_active_period` returns is sound.
  pub parse_active_period-IsSound :
      (section : PeriodSection fl.F) (timezone : Setting fl.F)
      (p : ActivePeriod fl cal table text_of)
      → parse_active_period fl cal table text_of section timezone ≡ ok (some p)
      → IsSound p
  unfolding parse_active_period
  parse_active_period-IsSound no_period timezone p h = cc
  parse_active_period-IsSound not_a_mapping timezone p h = cc
  parse_active_period-IsSound (period from to end_state) timezone p h =
      let (start, hs, h') = >>=-eq-ok (clock_time table from) _ h in
      let (end, he, h'') = >>=-eq-ok (clock_time table to) _ h' in
      make_period-IsSound start end (default_state fl cal table text_of end_state) timezone p
        (clock_time-below from start hs) (clock_time-below to end he) h''
