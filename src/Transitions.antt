-- ===== src/Transitions.antt =====
-- `TransitionLog` of toinflux/transitions.py: when each device of a control last changed, and the
-- loop's own memory.
pub mod Recorded
pub mod Resumed
pub mod Loaded
use send_to_influx.Prelude.{
  Bool, true, false, not, ◌&&◌, Option, none, some, List, [], ◌∷◌, if◌then◌else◌, Text, codes,
  text_eq, get, put,
}
use send_to_influx.Floats.{Floats, le}
use send_to_influx.Controls.{State, switch, value}

-- A value in the stored file. `huge` is an int that no float holds.
pub data Stored (F : Type 0) : Type 0 where
  null : Stored F
  flag : Bool → Stored F
  number : F → Stored F
  huge : Stored F
  text : Text → Stored F
  other : Stored F

-- The identity of a device: the pairs of its declaration.
abbrev pub Identity : Type 0
Identity = List (Text × Text)

-- A stored identity before it is read: none or null, a list, or anything else. An item that is no
-- list of two texts is `other_item`.
pub data Item : Type 0 where
  item : Text → Text → Item
  other_item : Item

pub data StoredIdentity : Type 0 where
  no_identity : StoredIdentity
  items : List Item → StoredIdentity
  other_identity : StoredIdentity

abbrev pub and_more : Text × Text → Option Identity → Option Identity
and_more p none = none
and_more p (some ps) = some (p ∷ ps)

unfoldable pub read_items : List Item → Option Identity
read_items [] = some []
read_items (item k v ∷ rest) = and_more (k, v) (read_items rest)
read_items (other_item ∷ rest) = none

-- `_usable_identity`
unfoldable pub usable_identity : StoredIdentity → Option Identity
usable_identity no_identity = none
usable_identity (items l) = read_items l
usable_identity other_identity = none

-- `==` on identities, of which None is one.
unfoldable pub pairs_eq : Identity → Identity → Bool
pairs_eq [] [] = true
pairs_eq [] ((k, v) ∷ q) = false
pairs_eq ((k, v) ∷ p) [] = false
pairs_eq ((k, v) ∷ p) ((k', v') ∷ q) = (text_eq k k' && text_eq v v') && pairs_eq p q

unfoldable pub identity_eq : Option Identity → Option Identity → Bool
identity_eq none none = true
identity_eq (some p) (some q) = pairs_eq p q
identity_eq _ _ = false

module _ (fl : Floats) where
  open fl use {F, lt, eq, sub, zero_float, one_float, is_finite}

  -- `usable_number`
  unfoldable pub usable_number : Stored F → Option F
  usable_number (number x) = if is_finite x then some x else none
  usable_number _ = none

  -- An entry of the file. `forced` is the truth of its value.
  pub record StoredEntry : Type 0 where
    pub state : Stored F
    pub at : Stored F
    pub identity : StoredIdentity
    pub forced : Bool

  -- An entry of the log; `identity` is its `for`.
  pub record LogEntry : Type 0 where
    pub state : Stored F
    pub at : F
    pub identity : Option Identity
    pub forced : Bool

  abbrev pub Entries : Type 0
  Entries = List (Text × LogEntry)

  abbrev usable_entry : Option StoredEntry → Option LogEntry
  usable_entry none = none
  usable_entry (some e) = elim (usable_number e.at) [
    | none ↦ none
    | some at ↦ some (record {
      state = e.state;
      at = at;
      identity = usable_identity e.identity;
      forced = e.forced;
    })
  ]

  abbrev with_entry : Text → Option LogEntry → Entries → Entries
  with_entry device none rest = rest
  with_entry device (some e) rest = (device, e) ∷ rest

  -- `_usable_entries`: none is an entry that is no mapping.
  unfoldable pub usable_entries : List (Text × Option StoredEntry) → Entries
  usable_entries [] = []
  usable_entries ((device, e) ∷ rest) = with_entry device (usable_entry e) (usable_entries rest)

  -- `max(0.0, x)`
  abbrev pub clamped : F → F
  clamped x = if lt zero_float x then x else zero_float

  -- `elapsed`, at a moment in epoch seconds.
  unfoldable pub elapsed : Entries → Text → F → Option F
  elapsed entries device moment = elim (get device entries) [
    | none ↦ none
    | some e ↦ some (clamped (sub moment e.at))
  ]

  -- `released`
  unfoldable pub released : Entries → Text → Bool
  released entries device = elim (get device entries) [ none ↦ false | some e ↦ e.forced ]

  -- `entry.get("for")`, of an empty entry where there is none.
  abbrev pub known_identity : Option LogEntry → Option Identity
  known_identity none = none
  known_identity (some e) = e.identity

  -- `identities is not None and entry.get("for") != identities.get(device)`
  unfoldable pub is_other_device : Option (List (Text × Identity)) → Entries → Text → Bool
  is_other_device none entries device = false
  is_other_device (some identities) entries device =
      not (identity_eq (known_identity (get device entries)) (get device identities))

  -- The body of the loop of `frozen`.
  unfoldable pub is_held : Entries → (Text → F) → F → Option (List (Text × Identity)) → Text → Bool
  is_held entries minimum moment identities device =
      if is_other_device identities entries device
      then false
      else elim (elapsed entries device moment) [
        | none ↦ false
        | some t ↦ if released entries device then false else lt t (minimum device)
      ]

  -- `frozen`
  unfoldable pub frozen :
      Entries → (Text → F) → List Text → F → Option (List (Text × Identity)) → List Text
  frozen entries minimum [] moment identities = []
  frozen entries minimum (d ∷ ds) moment identities =
      let held = frozen entries minimum ds moment identities in
      if is_held entries minimum moment identities d then d ∷ held else held

  abbrev pub as_stored : State F → Stored F
  as_stored (switch b) = flag b
  as_stored (value x) = number x

  -- `entry.get("state") == state`; a bool is the number that it is.
  unfoldable pub stored_eq : Stored F → State F → Bool
  stored_eq (flag a) (switch b) = if a then b else not b
  stored_eq (number x) (value y) = eq x y
  stored_eq (flag a) (value y) = eq (if a then one_float else zero_float) y
  stored_eq (number x) (switch b) = eq x (if b then one_float else zero_float)
  stored_eq _ _ = false

  -- What `record` makes of the entry of one device, and whether that is a change.
  unfoldable pub noted : F → Bool → State F → Option Identity → Option LogEntry → LogEntry × Bool
  noted moment forced state identity none =
      (record { state = as_stored state; at = moment; identity = identity; forced = forced }, true)
  noted moment forced state identity (some e) =
      if stored_eq e.state state && identity_eq e.identity identity
      then if e.forced && not forced then (record e { forced = false }, true) else (e, false)
      else (
        record { state = as_stored state; at = moment; identity = identity; forced = forced },
        true,
      )

  -- The loop of `record`: the entries, and whether the file is written.
  unfoldable pub record_all :
      F → Bool → List (Text × Identity) → List (Text × State F) → Entries → Entries × Bool
  record_all moment forced identities [] entries = (entries, false)
  record_all moment forced identities ((device, state) ∷ rest) entries =
      let (e, changed) = noted moment forced state (get device identities) (get device entries) in
      let (entries', later) =
        record_all moment forced identities rest
          (if changed then put device e entries else entries) in
      (entries', if changed then true else later)

  abbrev or_empty : Option (List (Text × Identity)) → List (Text × Identity)
  or_empty none = []
  or_empty (some identities) = identities

  -- `record`
  unfoldable pub record_commands :
      Entries → List (Text × State F) → F → Bool → Option (List (Text × Identity)) → Entries × Bool
  unfolding record_all
  record_commands entries commands moment forced identities =
      record_all moment forced (or_empty identities) commands entries

  -- The loop's stored memory, `_pid`.
  abbrev pub Memory : Type 0
  Memory = List (Text × Stored F)

  abbrev usable : Option (Stored F) → Option F
  usable none = none
  usable (some s) = usable_number s

  abbrev pub is_text : Option (Stored F) → Text → Bool
  is_text (some (text a)) b = text_eq a b
  is_text _ b = false

  -- `loop_state`: the memory, where it may be resumed from.
  unfoldable pub loop_state : Memory → Text → F → F → Option Memory
  loop_state memory fingerprint max_age moment =
      if is_text (get (codes "fingerprint") memory) fingerprint
      then elim (usable (get (codes "at") memory)) [
        | none ↦ none
        | some at ↦ elim (usable (get (codes "integral") memory)) [
          | none ↦ none
          | some i ↦
              if le fl zero_float (sub moment at) && le fl (sub moment at) max_age
              then some memory
              else none
        ]
      ]
      else none

  -- `loop_age`
  unfoldable pub loop_age : Memory → F → Option F
  loop_age memory moment = elim (usable (get (codes "at") memory)) [
    | none ↦ none
    | some at ↦ some (clamped (sub moment at))
  ]

  -- `record_loop`
  unfoldable pub record_loop : Memory → Text → F → Memory
  record_loop state fingerprint moment =
      put (codes "at") (number moment) (put (codes "fingerprint") (text fingerprint) state)
