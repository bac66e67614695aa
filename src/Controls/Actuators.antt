-- ===== src/Controls/Actuators.antt =====
-- Which devices a control document owns, of toinflux/controls.py.
use send_to_influx.Prelude.{
  Bool, true, false, not, ◌&&◌, ◌||◌, Option, none, some, List, [], ◌∷◌, if◌then◌else◌, Text,
  text_eq,
}
use send_to_influx.Controls.{Setting, missing, flag, DeviceSpec}

-- An entry of `devices`: its name, what it names at the far end, each none where the key is not
-- there or holds null, and the declaration that its commands depend on.
pub record DeviceEntry (F : Type 0) : Type 0 where
  pub name : Text
  pub source : Option Text
  pub instance_name : Option Text
  pub device : Option Text
  pub declared : DeviceSpec F

-- What the supervisor reads of a control document that is valid.
pub record Document (F : Type 0) : Type 0 where
  pub enabled : Setting F
  pub safe_state : Setting F
  pub entries : List (DeviceEntry F)
  pub output_is_mapping : Bool
  pub cycle_seconds : Setting F

pub record Actuator : Type 0 where
  pub source : Text
  pub instance_name : Option Text
  pub device : Text

unfoldable pub same_option : Option Text → Option Text → Bool
same_option none none = true
same_option (some a) (some b) = text_eq a b
same_option none (some b) = false
same_option (some a) none = false

-- `actuators_may_be_one`
unfoldable pub actuators_may_be_one : Actuator → Actuator → Bool
unfolding same_option
actuators_may_be_one a b =
    if not (text_eq a.source b.source) || not (text_eq a.device b.device)
    then false
    else elim a.instance_name [
      | none ↦ true
      | some i ↦ elim b.instance_name [ none ↦ true | some j ↦ text_eq i j ]
    ]

-- `==` on identities, by which a set holds each once.
unfoldable pub same_actuator : Actuator → Actuator → Bool
unfolding same_option
same_actuator a b =
    text_eq a.source b.source
    && same_option a.instance_name b.instance_name
    && text_eq a.device b.device

-- `control_is_enabled` of a document that is a mapping.
unfoldable pub control_is_enabled : {F : Type 0} → Document F → Bool
control_is_enabled d = elim d.enabled [ missing ↦ true | flag b ↦ b | _ ↦ false ]

-- `lower` is a method of Python's str.
module _ (lower : Text → Text) where
  -- `actuator_identity`
  unfoldable pub actuator_identity : {F : Type 0} → DeviceEntry F → Option Actuator
  actuator_identity e = elim e.source [
    | none ↦ none
    | some source ↦ elim e.device [
      | none ↦ none
      | some device ↦
          some (record { source = lower source; instance_name = e.instance_name; device = device })
    ]
  ]

  unfoldable pub add_identity : Option Actuator → List Actuator → List Actuator
  unfolding same_actuator
  add_identity none bs = bs
  add_identity (some a) [] = a ∷ []
  add_identity (some a) (b ∷ bs) =
      let rest = add_identity (some a) bs in if same_actuator a b then b ∷ bs else b ∷ rest

  -- `actuators_owned`, as a list without duplicates.
  unfoldable pub owned_by : {F : Type 0} → List (DeviceEntry F) → List Actuator
  unfolding actuator_identity add_identity
  owned_by [] = []
  owned_by (e ∷ es) = add_identity (actuator_identity e) (owned_by es)

  abbrev pub actuators_owned : {F : Type 0} → Document F → List Actuator
  actuators_owned d = owned_by d.entries
