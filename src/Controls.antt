-- ===== src/Controls.antt =====
-- The values of a control document, and the helpers of toinflux/controls.py that the schedule and
-- the gate use.
pub mod Actuators
pub mod Clashes
use send_to_influx.Prelude.{
  Bool, false, Option, none, some, List, [], ◌∷◌, if◌then◌else◌, Text, codes, contains,
}
use send_to_influx.Floats.{Floats}

-- A value of a document: `missing` where the key is not there, `number` for an int or a float that is
-- no bool, `null` for None, and `other` for a list or a mapping.
pub data Setting (F : Type 0) : Type 0 where
  missing : Setting F
  null : Setting F
  text : Text → Setting F
  flag : Bool → Setting F
  number : F → Setting F
  other : Setting F

-- What a device is commanded to: a switch, or the value of a driven device.
pub data State (F : Type 0) : Type 0 where
  switch : Bool → State F
  value : F → State F

-- The declaration of a device: a mapping with its `parameter`, or no mapping.
pub data DeviceSpec (F : Type 0) : Type 0 where
  spec : Setting F → DeviceSpec F
  no_mapping : DeviceSpec F

abbrev pub unenergised : Text
unenergised = codes "unenergised"

abbrev pub energised : Text
energised = codes "energised"

abbrev pub leave_unchanged : Text
leave_unchanged = codes "leave_unchanged"

abbrev pub built_in_safe_states : List Text
built_in_safe_states = unenergised ∷ energised ∷ leave_unchanged ∷ []

pub data StateProblem : Type 0 where
  below_zero not_a_state : StateProblem

module _ (fl : Floats) where
  open fl use {F, lt, zero_float, is_finite}

  -- `_is_number`
  unfoldable pub is_number : Setting F → Bool
  is_number (number x) = is_finite x
  is_number _ = false

  -- `value not in BUILT_IN_SAFE_STATES`, where the value is no usable number.
  unfoldable pub name_problem : Setting F → Option StateProblem
  name_problem (text t) = if contains built_in_safe_states t then none else some not_a_state
  name_problem _ = some not_a_state

  unfoldable pub safe_state_problem : Setting F → Option StateProblem
  unfolding is_number name_problem
  safe_state_problem (number x) =
      if is_finite x then (if lt x zero_float then some below_zero else none) else some not_a_state
  safe_state_problem s = name_problem s

-- The part of `parameter_devices` for one device: its parameter, if it is driven by one. `strip` is
-- not empty where some character is no blank.
unfoldable pub parameter_of : {F : Type 0} → (Text → Bool) → DeviceSpec F → Option Text
parameter_of blank (spec (text p)) = if blank p then none else some p
parameter_of blank _ = none
