-- ===== src/Supervision.antt =====
-- The supervisor of control processes, toinflux/supervision.py: one control's process.
pub mod Backoff
pub mod Beats
pub mod Chunks
pub mod Kept
pub mod Lawful
pub mod Life
pub mod Names
pub mod Phases
pub mod Passes
pub mod Reloads
pub mod Requests
pub mod Outcomes
pub mod Reports
pub mod SafeCommands
pub mod Safety
pub mod Taken
pub mod Turns
pub mod Watched
use send_to_influx.Prelude.{
  ℕ, ◌+◌, Bool, true, false, not, ◌&&◌, ◌||◌, Option, none, some, List, [], ◌∷◌, ◌++◌, any,
  if◌then◌else◌, Text, codes,
}
use send_to_influx.Floats.{Floats, le}
use send_to_influx.Controls.{Setting, missing, number, text, unenergised}
use send_to_influx.Controls.Actuators.{Document, DeviceEntry}
use send_to_influx.Gating.Guard.{Devices, Commands, Prepared, commands_for}
use send_to_influx.Supervision.Beats.{split_lines, beats_in}

-- `Child`; `process` is the pid and `beats` the descriptor.
pub record Child (F : Type 0) : Type 0 where
  pub name : Text
  pub document : Option (Document F)
  pub process : Option ℕ
  pub beats : Option ℕ
  pub pending : Text
  pub started_at : F
  pub last_beat : F
  pub failures : ℕ
  pub restart_at : Option F
  pub stall : F
  pub enabled : List Text

pub data EventKind : Type 0 where
  started beat died stalled start_failed reloaded dropped disabled reload_failed : EventKind

-- `Event`, without its detail.
pub record Reported : Type 0 where
  pub kind : EventKind
  pub name : Text

-- What is done to the world outside: a process is started for a document, is told to end, is
-- killed, has ended; a control's devices are made safe from documents, as far as they can be (a
-- failure of it is logged); a control's log of transitions is removed.
pub data Effect (F : Type 0) : Type 0 where
  spawned : Text → ℕ → Option (Document F) → Effect F
  terminated : Text → Effect F
  killed : Text → Effect F
  exited : Text → Effect F
  made_safe : Text → List (Document F) → Effect F
  forgotten : Text → Effect F

-- What the world answers in one operation: the clock; the enabled sources, where the settings can
-- be read; of a control, whether its name is a usable one, whether its document is stored, and the
-- document, where it is valid; the read end of a pipe and the pid of a process, where there is one
-- to be had; whether a process that is told to end does in time; and what a pipe holds, decoded,
-- nothing at its end or where reading it fails.
pub record World (F : Type 0) : Type 0 where
  pub now : F
  pub settings : Option (List Text)
  pub path_ok : Text → Bool
  pub stored : Text → Bool
  pub document : Text → Option (Document F)
  pub pipe : Option ℕ
  pub process : Text → Option ℕ
  pub obeys : Text → Bool
  pub chunk : Text → Text

-- What an operation on a child comes to.
pub record Done (F : Type 0) : Type 0 where
  pub child : Child F
  pub effects : List (Effect F)
  pub events : List Reported

abbrev pub beat_events : Text → List Text → List Reported
beat_events name [] = []
beat_events name (l ∷ ls) = record { kind = beat; name = name } ∷ beat_events name ls

module _ {F : Type 0} where
  abbrev pub as_list : Option (Document F) → List (Document F)
  as_list none = []
  as_list (some d) = d ∷ []

  -- `_usable_control`, none where it raises.
  unfoldable pub usable_control : World F → Text → Option (Document F)
  usable_control w name = elim w.settings [ none ↦ none | some sources ↦ w.document name ]

  -- `_terminate`
  unfoldable pub terminate : World F → Child F → List (Effect F)
  terminate w c =
      if w.obeys c.name then terminated c.name ∷ [] else terminated c.name ∷ killed c.name ∷ []

  -- `_release`
  abbrev pub release : Child F → Child F
  release c = record c { process = none; beats = none }

  abbrev pub is_running : Child F → Bool
  is_running c = elim c.process [ none ↦ false | some pid ↦ true ]

  -- Nothing is done.
  abbrev pub still : Child F → Done F
  still c = record { child = c; effects = []; events = [] }

-- `same` is `==` on documents.
module _ {F : Type 0} (same : Document F → Document F → Bool) where
  -- `_documents_for`, given the document that the child was started from.
  unfoldable pub documents_for : World F → Text → Option (Document F) → List (Document F)
  unfolding usable_control
  documents_for w name own =
      let documents = as_list own in
      if not (w.path_ok name) || not (w.stored name)
      then documents
      else elim (usable_control w name) [
        | none ↦ documents
        | some d ↦ if any (same d) documents then documents else documents ++ d ∷ []
      ]

  -- `make_safe`
  unfoldable pub make_safe : World F → Text → Option (Document F) → List (Effect F)
  unfolding documents_for
  make_safe w name own = made_safe name (documents_for w name own) ∷ []

-- `same` is `==` on documents, `blank` the emptiness of `strip`, and `backoff` the delay in seconds
-- after so many failures.
module _ (fl : Floats) (blank : Text → Bool) (same : Document fl.F → Document fl.F → Bool)
    (backoff : ℕ → fl.F) where
  open fl use {F, lt, add, sub, mul, zero_float, of_text, is_finite}

  abbrev pub minimum_stall : F
  minimum_stall = of_text (codes "30")

  -- `stall_seconds`, none where it raises ConfigError.
  unfoldable pub stall_seconds : Document F → Option F
  stall_seconds d =
      let window = λ (cycle : F).
        let silence = mul (of_text (codes "3")) cycle in
        if lt minimum_stall silence then silence else minimum_stall in
      if not d.output_is_mapping then none else elim d.cycle_seconds [
        | missing ↦ some (window (of_text (codes "900")))
        | number cycle ↦
            if is_finite cycle && lt zero_float cycle then some (window cycle) else none
        | _ ↦ none
      ]

  abbrev pub safe_of : Setting F → Setting F
  safe_of missing = text unenergised
  safe_of s = s

  unfoldable pub devices_of : List (DeviceEntry F) → Devices fl blank
  devices_of [] = []
  devices_of (e ∷ es) = (e.name, e.declared) ∷ devices_of es

  -- What `make_safe` commands for a document; a ConfigError is logged.
  unfoldable pub safe_commands : Document F → Prepared (Option (Commands fl blank))
  unfolding devices_of commands_for
  safe_commands d = commands_for fl blank (safe_of d.safe_state) (devices_of d.entries)

  -- `_refresh`
  unfoldable pub refresh : World F → Child F → Child F
  unfolding stall_seconds
  refresh w c = elim (w.document c.name) [
    | none ↦ c
    | some d ↦ elim (stall_seconds d) [
      | none ↦ c
      | some seconds ↦ record c { document = some d; stall = seconds }
    ]
  ]

  -- `start`: the child, what it does, and whether it does not raise.
  unfoldable pub start_child : World F → Child F → Done F × Bool
  unfolding refresh
  start_child w c = elim w.settings [
    | none ↦ (record { child = c; effects = []; events = [] }, false)
    | some sources ↦
        let fresh = record (refresh w c) { enabled = sources } in
        elim w.pipe [
          | none ↦ (record { child = fresh; effects = []; events = [] }, false)
          | some descriptor ↦ elim (w.process c.name) [
            | none ↦ (record { child = fresh; effects = []; events = [] }, false)
            | some pid ↦ (
              record {
                child = record fresh {
                  process = some pid;
                  beats = some descriptor;
                  pending = [];
                  started_at = w.now;
                  last_beat = w.now;
                  restart_at = none;
                };
                effects = spawned c.name pid fresh.document ∷ [];
                events = record { kind = started; name = c.name } ∷ [];
              },
              true,
            )
          ]
        ]
  ]

  -- The failures of a child and the time of its next start, after one more failure.
  abbrev pub failed_once : F → Child F → Child F
  failed_once now c = record c {
    failures = c.failures + 1;
    restart_at = some (add now (backoff (c.failures + 1)));
  }

  -- `_restart`
  unfoldable pub restart : World F → Child F → Done F
  unfolding start_child
  restart w c =
      let (done, ok) = start_child w c in
      if ok then done else record {
        child = failed_once w.now done.child;
        effects = done.effects;
        events = record { kind = start_failed; name = c.name } ∷ [];
      }

  -- `_reap`
  unfoldable pub reap : World F → EventKind → Child F → Done F
  unfolding make_safe
  reap w kind c = record {
    child = failed_once w.now (release c);
    effects = exited c.name ∷ make_safe same w c.name c.document;
    events = record { kind = kind; name = c.name } ∷ [];
  }

  -- `_kill`
  unfoldable pub kill : World F → Child F → Done F
  unfolding terminate reap
  kill w c = let done = reap w stalled c in record done { effects = terminate w c ++ done.effects }

  -- `_stop`
  unfoldable pub stop_child : World F → Child F → Done F
  unfolding terminate make_safe
  stop_child w c = record {
    child = release c;
    effects = terminate w c ++ exited c.name ∷ make_safe same w c.name c.document;
    events = [];
  }

  -- `_read` of a chunk that is not empty.
  unfoldable pub hear : F → Text → Child F → Done F
  unfolding split_lines beats_in
  hear now chunk c =
      let (lines, rest) = split_lines (c.pending ++ chunk) in
      let heard = record c { pending = rest; last_beat = now; failures = 0 } in
      elim (beats_in blank lines) [
        | [] ↦ record { child = record c { pending = rest }; effects = []; events = [] }
        | b ∷ bs ↦ record { child = heard; effects = []; events = beat_events c.name (b ∷ bs) }
      ]

  -- `_read`
  unfoldable pub read : World F → Child F → Done F
  unfolding reap hear
  read w c = elim (w.chunk c.name) [ [] ↦ reap w died c | x ∷ xs ↦ hear w.now (x ∷ xs) c ]

  -- The body of the loop of `poll` over the children, at the moment it took before.
  unfoldable pub check_child : F → World F → Child F → Done F
  unfolding kill restart
  check_child now w c =
      if is_running c
      then (if lt c.stall (sub now c.last_beat) then kill w c else still c)
      else elim c.restart_at [
        | none ↦ still c
        | some due ↦ if le fl due now then restart w c else still c
      ]
