-- ===== src/Gating/Guard.antt =====
-- `commands_for` and `DeviceGuard` of toinflux/gating.py: the states that devices are put in when a
-- control starts, stops acting or ends.
pub mod Safe
pub mod Once
use send_to_influx.Prelude.{
  Bool, true, false, ◌||◌, not, Option, none, some, List, [], ◌∷◌, if◌then◌else◌, Text, codes,
  text_eq,
}
use send_to_influx.Floats.{Floats}
use send_to_influx.Controls.{
  Setting, text, number, State, switch, value, DeviceSpec, parameter_of, unenergised, energised,
  leave_unchanged,
}

-- The ConfigErrors of `commands_for`.
pub data CommandProblem : Type 0 where
  bad_value unknown_state no_full_scale : CommandProblem

pub data Prepared (A : Type 0) : Type 0 where
  ok : A → Prepared A
  refused : CommandProblem → Prepared A

infixl 5 ◌>>=◌
abbrev pub ◌>>=◌ : {A B : Type 0} → Prepared A → (A → Prepared B) → Prepared B
ok a >>= f = f a
refused p >>= f = refused p

-- `parameter.endswith(suffix)`
unfoldable pub ends_with : Text → Text → Bool
ends_with suffix [] = text_eq suffix []
ends_with suffix (c ∷ cs) = text_eq suffix (c ∷ cs) || ends_with suffix cs

-- `blank` is the emptiness of `strip`, a method of Python's str.
module _ (fl : Floats) (blank : Text → Bool) where
  open fl use {F, of_text, zero_float, lt, is_finite}

  -- The devices section: each name with its declaration.
  abbrev pub Devices : Type 0
  Devices = List (Text × DeviceSpec F)

  abbrev pub Commands : Type 0
  Commands = List (Text × State F)

  -- `static_full_scale`
  unfoldable pub static_full_scale : Text → Option F
  unfolding ends_with
  static_full_scale parameter =
      if ends_with (codes "_pct") parameter then some (of_text (codes "100")) else none

  abbrev full_of : Option F → Prepared (State F)
  full_of none = refused no_full_scale
  full_of (some x) = ok (value x)

  -- What one device is set to for a number, for `unenergised` and for `energised` (`_full` where it
  -- is driven).
  unfoldable pub number_command : F → DeviceSpec F → State F
  number_command x d = elim (parameter_of blank d) [
    | none ↦ switch (lt zero_float x)
    | some p ↦ value x
  ]

  unfoldable pub off_command : DeviceSpec F → State F
  off_command d = elim (parameter_of blank d) [ none ↦ switch false | some p ↦ value zero_float ]

  unfoldable pub on_command : DeviceSpec F → Prepared (State F)
  on_command d = elim (parameter_of blank d) [
    | none ↦ ok (switch true)
    | some p ↦ full_of (static_full_scale p)
  ]

  -- {name: … for name in names}
  unfoldable pub each : (DeviceSpec F → State F) → Devices → Commands
  each f [] = []
  each f ((name, d) ∷ rest) = (name, f d) ∷ each f rest

  unfoldable pub each_or_refused : (DeviceSpec F → Prepared (State F)) → Devices → Prepared Commands
  each_or_refused f [] = ok []
  each_or_refused f ((name, d) ∷ rest) =
      f d >>= λ s. each_or_refused f rest >>= λ others. ok ((name, s) ∷ others)

  -- `commands_for`: none is the instruction to touch nothing.
  unfoldable pub commands_for : Setting F → Devices → Prepared (Option Commands)
  commands_for (number x) devices =
      if not (is_finite x) || lt x zero_float
      then refused bad_value
      else ok (some (each (number_command x) devices))
  commands_for (text t) devices =
      if text_eq t leave_unchanged
      then ok none
      else if text_eq t unenergised
      then ok (some (each off_command devices))
      else if text_eq t energised
      then (each_or_refused on_command devices >>= λ commands. ok (some commands))
      else refused unknown_state
  commands_for state devices = refused unknown_state

  -- `registered` is whether the exit handler is in place.
  pub record DeviceGuard : Type 0 where
    pub safe_state : Setting F
    pub devices : Devices
    pub commands : Option Commands
    pub stopped : Bool
    pub registered : Bool

  -- `DeviceGuard.__init__`
  unfoldable pub new_guard : Setting F → Devices → Prepared DeviceGuard
  new_guard safe_state devices = commands_for safe_state devices >>= λ commands. ok (record {
    safe_state = safe_state;
    devices = devices;
    commands = commands;
    stopped = false;
    registered = true;
  })

  -- The commands that `assert_starting_state` hands on: `state` is the caller's choice, and none the
  -- guard's own safe state.
  unfoldable pub assert_starting_state :
      DeviceGuard → Option (Setting F) → Prepared (Option Commands)
  assert_starting_state g none = commands_for g.safe_state g.devices
  assert_starting_state g (some state) = commands_for state g.devices

  abbrev pub issued : Option Commands → List Commands
  issued none = []
  issued (some commands) = commands ∷ []

  -- `stop`, with the commands that it hands on. What they raise is caught and logged.
  unfoldable pub stop : DeviceGuard → DeviceGuard × List Commands
  stop g =
      if g.stopped
      then (g, [])
      else (record g { stopped = true; registered = false }, issued g.commands)

  -- `close`
  unfoldable pub close : DeviceGuard → DeviceGuard
  close g = record g { stopped = true; registered = false }

  -- The interpreter runs `_at_exit` if it is registered.
  unfoldable pub at_exit : DeviceGuard → DeviceGuard × List Commands
  unfolding stop
  at_exit g = if g.registered then stop g else (g, [])
