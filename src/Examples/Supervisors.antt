-- ===== src/Examples/Supervisors.antt =====
-- The supervisor of toinflux/supervision.py on concrete inputs.
use send_to_influx.Prelude.{
  ℕ, ◌+◌, ◌*◌, ◌≡◌, ◌↔◌, refl, inl, Bool, true, false, ◌&&◌, leb, none, some, List, [], ◌∷◌, ◌++◌,
  if◌then◌else◌, Text, codes, text_eq, text_eq_self, contains, All, arith,
}
use Prim.Native.Nat.{min, ◌^◌}
use send_to_influx.Floats.Sample.{Sample, whole, sample_floats}
use send_to_influx.Controls.{Setting, missing, flag, number, spec}
use send_to_influx.Controls.Actuators.{
  Document, control_is_enabled, owned_by, DeviceEntry, Actuator,
}
use send_to_influx.Controls.Clashes.{
  shared_actuator_problems, shared_actuator_problems-FreeInTurn, FreeInTurn, all_claims,
}
use send_to_influx.Supervision.{Child, World, hear, spawned, made_safe, exited}
use send_to_influx.Supervision.Outcomes.{poll_reloads_each}
use send_to_influx.Supervision.Reports.{reload_names}
use send_to_influx.Supervision.Passes.{new_child, Pass, poll, passes, run_controls, start_all}
use send_to_influx.Supervision.Turns.{find}
use send_to_influx.Supervision.Phases.{phase_after, resting, running}
use send_to_influx.Supervision.Lawful.{phase_in, Once}
use send_to_influx.Supervision.Safety.{passes-phases, run_controls-phases}
use send_to_influx.Supervision.Watched.{AllWatched}
use send_to_influx.Supervision.Watched.Always.{passes-start_all-AllWatched}
use send_to_influx.Supervision.Chunks.{hear-append}
use send_to_influx.Supervision.Backoff.{
  get_backoff_delay, get_backoff_delay_lem, backoff_base_seconds, backoff_max_seconds,
}
use send_to_influx.Gating.Guard.{Commands, ok}
use send_to_influx.Gating.Guard.Safe.{IsOff, names_of}
use send_to_influx.Supervision.{safe_commands}
use send_to_influx.Supervision.SafeCommands.{safe_commands-IsOff}
use send_to_influx.Supervision.Life.{first_children-phases}
use send_to_influx.Supervision.Taken.{first_children, first_children-Separate, Fresh, Separate}
use send_to_influx.Supervision.Requests.{
  Supervisor, stop_all, stop_all-stop_all, request_reload, teardown, over, NoRepeats,
}

abbrev heater : DeviceEntry Sample
heater = record {
  name = codes "heater";
  source = some (codes "Hue");
  instance_name = none;
  device = some (codes "plug");
  declared = spec missing;
}

-- The same plug, on the bridge that the other entry leaves out.
abbrev fan : DeviceEntry Sample
fan = record {
  name = codes "fan";
  source = some (codes "hue");
  instance_name = some (codes "attic");
  device = some (codes "plug");
  declared = spec missing;
}

abbrev document_of : Setting Sample → DeviceEntry Sample → Document Sample
document_of enabled entry = record {
  enabled = enabled;
  safe_state = missing;
  entries = entry ∷ [];
  output_is_mapping = true;
  cycle_seconds = number (whole 60);
}

abbrev porch_document : Document Sample
porch_document = document_of missing heater

abbrev attic_document : Document Sample
attic_document = document_of (flag true) fan

abbrev same_names : List (DeviceEntry Sample) → List (DeviceEntry Sample) → Bool
same_names [] [] = true
same_names (d ∷ ds) (e ∷ es) = text_eq d.name e.name && same_names ds es
same_names _ _ = false

abbrev same_devices : Document Sample → Document Sample → Bool
same_devices a b = same_names a.entries b.entries

same_names_self : (ds : List (DeviceEntry Sample)) → same_names ds ds ≡ true
same_names_self [] = refl
same_names_self (d ∷ ds) = ground (arith, text_eq_self d.name, same_names_self ds)

same_devices_self : (d : Document Sample) → same_devices d d ≡ true
same_devices_self d = same_names_self d.entries

abbrev is_empty_text : Text → Bool
is_empty_text [] = true
is_empty_text (c ∷ cs) = false

abbrev wait_for : ℕ → Sample
wait_for failures = whole (get_backoff_delay failures backoff_base_seconds backoff_max_seconds)

abbrev porch : Text
porch = codes "porch"

abbrev attic : Text
attic = codes "attic"

abbrev world_at : ℕ → Text → World Sample
world_at now chunk = record {
  now = whole now;
  settings = some (codes "hue" ∷ []);
  path_ok = λ name. true;
  stored = λ name. true;
  document = λ name. if text_eq name porch then some porch_document else some attic_document;
  pipe = some 5;
  process = λ name. some (now + 100);
  obeys = λ name. true;
  chunk = λ name. chunk;
}

abbrev porch_child : Child Sample
porch_child =
    new_child sample_floats is_empty_text same_devices wait_for porch (some porch_document)
      (whole 180)

-- At 10 the pipe is at its end, and at 20 a process is started again and a changed document asks
-- for another.
abbrev death : Pass Sample
death = record {
  reloading = λ name. record {
    reading = world_at 10 [];
    ending = world_at 10 [];
    starting = world_at 10 [];
  };
  ready = porch ∷ [];
  hearing = λ name. world_at 10 [];
  moment = whole 10;
  checking = λ name. world_at 10 [];
}

abbrev change : Pass Sample
change = record {
  reloading = λ name. record {
    reading = world_at 20 [];
    ending = world_at 20 [];
    starting = world_at 20 [];
  };
  ready = [];
  hearing = λ name. world_at 20 [];
  moment = whole 20;
  checking = λ name. world_at 20 [];
}

abbrev two_passes : List (Pass Sample × List Text)
two_passes = (death, []) ∷ (change, porch ∷ porch ∷ []) ∷ []

abbrev started_at_1 : List (Child Sample)
started_at_1 =
    (start_all sample_floats is_empty_text same_devices wait_for (λ name. world_at 1 [])
      (porch_child ∷ [])).children

-- The process dies and its devices are made safe; two requests for its changed document start it
-- once.
passes_test :
    (passes sample_floats is_empty_text same_devices wait_for two_passes started_at_1).effects
    ≡ exited porch
      ∷ made_safe porch (porch_document ∷ [])
      ∷ spawned porch 120 (some porch_document)
      ∷ []
unfolding passes start_all text_eq get_backoff_delay contains control_is_enabled
passes_test = refl

passes-phases_example :
    (phase_after same_devices porch
        (passes sample_floats is_empty_text same_devices wait_for two_passes started_at_1).effects
        (running (some porch_document))
      ≡ some (
          phase_in porch
            (passes sample_floats is_empty_text same_devices wait_for two_passes
              started_at_1).children))
    × Once
        (passes sample_floats is_empty_text same_devices wait_for two_passes started_at_1).children
unfolding start_all find text_eq
passes-phases_example =
    passes-phases sample_floats is_empty_text same_devices wait_for same_devices_self two_passes
      started_at_1 porch (refl, tt)

run_controls-phases_test :
    phase_after same_devices porch
      (run_controls sample_floats is_empty_text same_devices wait_for
        (λ name. world_at 1 [])
        two_passes
        (λ name. world_at 30 [])
        (porch_child ∷ [])).effects
      resting
    ≡ some resting
unfolding find text_eq
run_controls-phases_test =
    run_controls-phases sample_floats is_empty_text same_devices wait_for same_devices_self
      (λ name. world_at 1 []) (λ name. world_at 30 []) two_passes (porch_child ∷ []) porch
      (refl, tt) refl

passes-start_all-AllWatched_example :
    AllWatched
      (passes sample_floats is_empty_text same_devices wait_for two_passes started_at_1).children
passes-start_all-AllWatched_example =
    passes-start_all-AllWatched sample_floats is_empty_text same_devices wait_for same_devices_self
      (λ name. world_at 1 []) two_passes (porch_child ∷ []) (refl, tt)

-- A beat of which the first chunk has no newline.
hear-append_example :
    let first =
      hear sample_floats is_empty_text same_devices wait_for (whole 7) (codes "be") porch_child in
    let second =
      hear sample_floats is_empty_text same_devices wait_for
        (whole 7)
        (codes "at\nbe")
        first.child in
    let both =
      hear sample_floats is_empty_text same_devices wait_for
        (whole 7)
        (codes "be" ++ codes "at\nbe")
        porch_child in
    (second.child ≡ both.child) × (first.events ++ second.events ≡ both.events)
hear-append_example =
    hear-append sample_floats is_empty_text same_devices wait_for (whole 7) (codes "be")
      (codes "at\nbe") porch_child

get_backoff_delay_lem_example : get_backoff_delay 3 5 300 ≡ min (5 * 2 ^ 2) 300
get_backoff_delay_lem_example = get_backoff_delay_lem 3 5 300 (omega arith)

abbrev ascii_lower : Text → Text
ascii_lower [] = []
ascii_lower (c ∷ cs) = (if leb 65 c && leb c 90 then c + 32 else c) ∷ ascii_lower cs

abbrev as_given : List Actuator → List Actuator
as_given actuators = actuators

abbrev both_controls : List (Text × Document Sample)
both_controls = (attic, attic_document) ∷ (porch, porch_document) ∷ []

shared_actuator_problems-FreeInTurn_example :
    (shared_actuator_problems ascii_lower as_given both_controls ≡ [])
    ↔ FreeInTurn [] (all_claims ascii_lower as_given both_controls)
shared_actuator_problems-FreeInTurn_example =
    shared_actuator_problems-FreeInTurn ascii_lower as_given both_controls

abbrev attic_only : List (Child Sample)
attic_only =
    new_child sample_floats is_empty_text same_devices wait_for attic (some attic_document)
      (whole 180)
    ∷ []

first_children_test :
    first_children sample_floats is_empty_text same_devices wait_for ascii_lower as_given
      (world_at 1 [])
      (attic ∷ porch ∷ [])
    ≡ some attic_only
unfolding first_children text_eq control_is_enabled owned_by
first_children_test = refl

-- The document of the porch may name the plug of the attic, so it is not taken.
first_children-Separate_example :
    All (Fresh sample_floats is_empty_text same_devices wait_for ascii_lower as_given) attic_only
    × Separate sample_floats is_empty_text same_devices wait_for ascii_lower as_given attic_only
first_children-Separate_example =
    first_children-Separate sample_floats is_empty_text same_devices wait_for ascii_lower as_given
      (world_at 1 []) (attic ∷ porch ∷ []) attic_only first_children_test

abbrev supervisor : Supervisor Sample
supervisor = record {
  children = porch_child ∷ [];
  requests = [];
  stopped = false;
  finished = false;
}

stop_all-stop_all_example :
    let first =
      (stop_all sample_floats is_empty_text same_devices wait_for
        (λ name. world_at 30 [])
        supervisor).0 in
    (stop_all sample_floats is_empty_text same_devices wait_for (λ name. world_at 31 []) first
      ≡ (first, []))
    × ((request_reload porch first ≡ first) × (supervisor.stopped ≡ false → teardown first ≡ over))
stop_all-stop_all_example =
    stop_all-stop_all sample_floats is_empty_text same_devices wait_for (λ name. world_at 30 [])
      (λ name. world_at 31 []) supervisor porch

poll_reloads_each_example :
    let names =
      reload_names
        (poll sample_floats is_empty_text same_devices wait_for change
          (porch ∷ attic ∷ porch ∷ [])
          attic_only).events in
    let more =
      reload_names
        (poll sample_floats is_empty_text same_devices wait_for change
          ((porch ∷ attic ∷ porch ∷ []) ++ attic ∷ [])
          attic_only).events in
    (contains names attic ≡ contains (porch ∷ attic ∷ porch ∷ []) attic)
    × (NoRepeats names
        × (more
            ≡ names ++ (if contains (porch ∷ attic ∷ porch ∷ []) attic then [] else attic ∷ [])))
unfolding find
poll_reloads_each_example =
    poll_reloads_each sample_floats is_empty_text same_devices wait_for same_devices_self change
      (porch ∷ attic ∷ porch ∷ []) attic_only attic (refl, tt)

first_children-phases_example :
    phase_after same_devices attic
      (run_controls sample_floats is_empty_text same_devices wait_for
        (λ name. world_at 1 [])
        two_passes
        (λ name. world_at 30 [])
        attic_only).effects
      resting
    ≡ some resting
unfolding text_eq contains
first_children-phases_example =
    first_children-phases sample_floats is_empty_text same_devices wait_for ascii_lower as_given
      same_devices_self (world_at 1 []) (attic ∷ porch ∷ []) attic_only (λ name. world_at 1 [])
      (λ name. world_at 30 []) two_passes attic (refl, (refl, tt)) first_children_test

safe_commands-IsOff_example :
    (cs : Commands sample_floats is_empty_text) × ((safe_commands sample_floats is_empty_text
          same_devices wait_for porch_document
        ≡ ok (some cs))
      × (All (IsOff sample_floats is_empty_text) cs × (names_of cs ≡ codes "heater" ∷ [])))
safe_commands-IsOff_example =
    safe_commands-IsOff sample_floats is_empty_text same_devices wait_for porch_document (inl refl)
