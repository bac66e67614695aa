-- ===== src/Examples/Logs.antt =====
-- toinflux/transitions.py on concrete inputs.
use send_to_influx.Prelude.{
  ◌≡◌, refl, true, false, ◌&&◌, Option, none, some, List, [], ◌∷◌, if◌then◌else◌, Text, codes,
  text_eq, Distinct, get, contains,
}
use send_to_influx.Floats.Sample.{Sample, whole, sample_floats}
use send_to_influx.Controls.{State, switch}
use send_to_influx.Transitions.{
  Stored, Identity, LogEntry, Entries, Memory, record_commands, frozen, loop_state, record_loop,
  StoredEntry, StoredIdentity, Item, usable_entries, usable_identity, usable_number, stored_eq,
}
use send_to_influx.Transitions.Recorded.{record_commands_again, record_commands-frozen, Moves}
use send_to_influx.Transitions.Loaded.{usable_entries-keeps}
use send_to_influx.Transitions.Resumed.{Resumable, loop_state-record_loop, loop_state-Resumable}

abbrev relay : Text
relay = codes "relay"

abbrev lamp : Text
lamp = codes "lamp"

abbrev identities : List (Text × Identity)
identities =
    (relay, (codes "source", codes "hue") ∷ []) ∷ (lamp, (codes "source", codes "zigbee") ∷ []) ∷ []

-- The relay was switched off at 100.
abbrev entries : Entries sample_floats
entries =
    (
      relay,
      record {
        state = Stored.flag false;
        at = whole 100;
        identity = some ((codes "source", codes "hue") ∷ []);
        forced = false;
      },
    )
    ∷ []

abbrev commands : List (Text × State Sample)
commands = (relay, switch true) ∷ (lamp, State.value (whole 40)) ∷ []

distinct : Distinct commands
unfolding get text_eq
distinct = (refl, (refl, tt))

relay_commanded : get relay commands ≡ some (switch true)
unfolding get text_eq
relay_commanded = refl

record_commands_again_test :
    let first =
      (record_commands sample_floats entries commands (whole 500) true (some identities)).0 in
    let second =
      (record_commands sample_floats first commands (whole 600) false (some identities)).0 in
    (e : LogEntry sample_floats) × (get relay first ≡ some e)
    × (get relay second ≡ some (record e { forced = e.forced && false }))
record_commands_again_test =
    record_commands_again sample_floats entries commands (some identities) (whole 500) (whole 600)
      true false relay (switch true) distinct relay_commanded tt

abbrev minimum : Text → Sample
minimum d = whole 300

relay_declared : contains (lamp ∷ relay ∷ []) relay ≡ true
unfolding contains text_eq
relay_declared = refl

relay-Moves : Moves sample_floats (get relay entries) (switch true) (get relay identities)
unfolding get text_eq stored_eq
relay-Moves = refl

-- The relay is switched on at 500 and asked about at 600.
record_commands-frozen_example :
    contains
      (frozen sample_floats
        (record_commands sample_floats entries commands (whole 500) false (some identities)).0
        minimum
        (lamp ∷ relay ∷ [])
        (whole 600)
        (some identities))
      relay
    ≡ true
record_commands-frozen_example =
    record_commands-frozen sample_floats entries commands identities (whole 500) (whole 600) false
      minimum (lamp ∷ relay ∷ []) relay (switch true) distinct relay_commanded relay_declared
      relay-Moves

-- A file with a moment that is no number, and with an identity that is no list of pairs.
abbrev damaged : List (Text × Option (StoredEntry sample_floats))
damaged =
    (
      lamp,
      some (record {
        state = Stored.flag true;
        at = Stored.huge;
        identity = StoredIdentity.no_identity;
        forced = false;
      }),
    )
    ∷ (codes "pump", none)
    ∷ (
      relay,
      some (record {
        state = Stored.flag true;
        at = Stored.number (whole 100);
        identity = StoredIdentity.items (Item.other_item ∷ []);
        forced = false;
      }),
    )
    ∷ []

relay_stored :
    get relay damaged
    ≡ some (
        some (record {
          state = Stored.flag true;
          at = Stored.number (whole 100);
          identity = StoredIdentity.items (Item.other_item ∷ []);
          forced = false;
        }))
unfolding get text_eq
relay_stored = refl

relay_is_usable : usable_number sample_floats (Stored.number (whole 100)) ≡ some (whole 100)
unfolding usable_number
relay_is_usable = refl

usable_entries-keeps_test :
    get relay (usable_entries sample_floats damaged)
    ≡ some (record {
      state = Stored.flag true;
      at = whole 100;
      identity = usable_identity (StoredIdentity.items (Item.other_item ∷ []));
      forced = false;
    })
usable_entries-keeps_test =
    usable_entries-keeps sample_floats damaged relay
      (record {
        state = Stored.flag true;
        at = Stored.number (whole 100);
        identity = StoredIdentity.items (Item.other_item ∷ []);
        forced = false;
      })
      (whole 100) relay_stored relay_is_usable

abbrev memory : Memory sample_floats
memory = (codes "integral", Stored.number (whole 7)) ∷ []

integral_stored : get (codes "integral") memory ≡ some (Stored.number (whole 7))
unfolding get text_eq
integral_stored = refl

loop_state-record_loop_example :
    let stored = record_loop sample_floats memory (codes "tuning") (whole 500) in
    loop_state sample_floats stored (codes "tuning") (whole 900) (whole 600)
    ≡ (if text_eq (codes "tuning") (codes "tuning") && true then some stored else none)
loop_state-record_loop_example =
    loop_state-record_loop sample_floats memory (codes "tuning") (codes "tuning") (whole 7)
      (whole 500) (whole 600) (whole 900) integral_stored refl refl

abbrev old_memory : Memory sample_floats
old_memory =
    (codes "integral", Stored.number (whole 7))
    ∷ (codes "fingerprint", Stored.text (codes "tuning"))
    ∷ (codes "at", Stored.number (whole 500))
    ∷ []

memory_resumes :
    loop_state sample_floats old_memory (codes "tuning") (whole 900) (whole 600) ≡ some old_memory
unfolding loop_state usable_number get text_eq
memory_resumes = refl

loop_state-Resumable_example :
    (old_memory ≡ old_memory)
    × Resumable sample_floats old_memory (codes "tuning") (whole 900) (whole 600)
loop_state-Resumable_example =
    loop_state-Resumable sample_floats old_memory old_memory (codes "tuning") (whole 900)
      (whole 600) memory_resumes
