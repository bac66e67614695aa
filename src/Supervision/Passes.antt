-- ===== src/Supervision/Passes.antt =====
-- The supervisor of toinflux/supervision.py over all its controls: what is applied of a changed
-- document, the passes, the start and the end.
use send_to_influx.Prelude.{
  ℕ, Bool, not, Option, none, some, List, [], ◌∷◌, ◌++◌, if◌then◌else◌, Text,
}
use send_to_influx.Floats.{Floats}
use send_to_influx.Controls.Actuators.{Document, control_is_enabled}
use send_to_influx.Supervision.{
  Child, reloaded, dropped, disabled, reload_failed, exited, terminated, killed, forgotten, World,
  Done, minimum_stall, usable_control, make_safe, restart, release, stop_child, read, check_child,
  is_running, still,
}
use send_to_influx.Supervision.Turns.{
  Turn, find, forget_child, each_child, only, then_turn, report, for_each, once_each,
}

-- What a reload finds: as it reads the document, as it ends the process, and as it starts the next.
pub record Reading (F : Type 0) : Type 0 where
  pub reading : World F
  pub ending : World F
  pub starting : World F

-- What a pass finds: what each reload does; the controls whose pipes are readable, and what each
-- reading finds; the moment it takes, and what each child is found in.
pub record Pass (F : Type 0) : Type 0 where
  pub reloading : Text → Reading F
  pub ready : List Text
  pub hearing : Text → World F
  pub moment : F
  pub checking : Text → World F

-- `same`, `blank` and `backoff` as before.
module _ (fl : Floats) (blank : Text → Bool) (same : Document fl.F → Document fl.F → Bool)
    (backoff : ℕ → fl.F) where
  open fl use {F, zero_float}

  -- A child as it is made from a name.
  abbrev pub new_child : Text → Option (Document F) → F → Child F
  new_child name document stall = record {
    name = name;
    document = document;
    process = none;
    beats = none;
    pending = [];
    started_at = zero_float;
    last_beat = zero_float;
    failures = 0;
    restart_at = none;
    stall = stall;
    enabled = [];
  }

  -- The end of a child that is known, before it is forgotten.
  unfoldable pub let_go : World F → Child F → Done F
  unfolding stop_child make_safe
  let_go w c =
      if is_running c
      then stop_child fl blank same backoff w c
      else record { child = c; effects = make_safe same w c.name c.document; events = [] }

  -- `_disable`
  unfoldable pub disable : World F → Text → List (Child F) → Turn F
  unfolding find forget_child each_child let_go
  disable w name children = elim (find name children) [
    | none ↦ report disabled name children
    | some c ↦
        let t = each_child (only name (let_go w)) children in
        record {
          children = forget_child name t.children;
          effects = t.effects;
          events = record { kind = disabled; name = name } ∷ [];
        }
  ]

  -- `_drop`
  unfoldable pub drop_control : World F → Text → List (Child F) → Turn F
  unfolding find forget_child each_child let_go
  drop_control w name children = elim (find name children) [
    | none ↦ report dropped name children
    | some c ↦
        let t = each_child (only name (let_go w)) children in
        record {
          children = forget_child name t.children;
          effects = t.effects ++ forgotten name ∷ [];
          events = record { kind = dropped; name = name } ∷ [];
        }
  ]

  -- The child of `_reload` from where it is known on: it is stopped where it runs, and started.
  unfoldable pub start_over : Reading F → Child F → Done F
  unfolding stop_child restart
  start_over r c =
      let over = if is_running c then stop_child fl blank same backoff r.ending c else still c in
      let next =
        restart fl blank same backoff r.starting
          (record over.child { failures = 0; restart_at = some r.starting.now }) in
      record {
        child = next.child;
        effects = over.effects ++ next.effects;
        events = record { kind = reloaded; name = c.name } ∷ next.events;
      }

  -- `_reload`
  unfoldable pub reload : Reading F → Text → List (Child F) → Turn F
  unfolding drop_control usable_control disable start_over find each_child
  reload r name children =
      let w = r.reading in
      if not (w.path_ok name)
      then report reload_failed name children
      else if not (w.stored name)
      then drop_control r.ending name children
      else elim (usable_control w name) [
        | none ↦ report reload_failed name children
        | some d ↦
            if not (control_is_enabled d)
            then disable r.ending name children
            else elim (find name children) [
              | some c ↦ each_child (only name (start_over r)) children
              | none ↦
                  let fresh = new_child name none (minimum_stall fl blank same backoff) in
                  each_child (only name (start_over r)) (children ++ fresh ∷ [])
            ]
      ]

  -- A pipe that is readable is that of a running child.
  unfoldable pub hear_ready : World F → Child F → Done F
  unfolding read
  hear_ready w c = if is_running c then read fl blank same backoff w c else still c

  -- `poll`, with the names that `_apply_reload_requests` takes from the queue.
  unfoldable pub poll : Pass F → List Text → List (Child F) → Turn F
  unfolding once_each for_each reload each_child hear_ready check_child
  poll p requests children =
      then_turn
        (then_turn
          (for_each (λ name. reload (p.reloading name) name) (once_each [] requests) children)
          (for_each (λ name. each_child (only name (hear_ready (p.hearing name)))) p.ready))
        (each_child (λ c. check_child fl blank same backoff p.moment (p.checking c.name) c))

  -- `start_all`
  unfoldable pub start_all : (Text → World F) → List (Child F) → Turn F
  unfolding each_child restart
  start_all ws =
      each_child
        (λ c. if is_running c then still c else restart fl blank same backoff (ws c.name) c)

  -- The second loop of `stop_all` for a child.
  unfoldable pub finish : World F → Child F → Done F
  unfolding make_safe
  finish w c =
      if is_running c
      then record {
        child = release c;
        effects =
            (if w.obeys c.name then [] else killed c.name ∷ [])
            ++ exited c.name ∷ make_safe same w c.name c.document;
        events = [];
      }
      else still c

  -- The first loop of `stop_all` for a child.
  abbrev pub signal_child : Child F → Done F
  signal_child c =
      if is_running c
      then record { child = c; effects = terminated c.name ∷ []; events = [] }
      else still c

  -- The loops of `stop_all`.
  unfoldable pub end_all : (Text → World F) → List (Child F) → Turn F
  unfolding each_child finish
  end_all ws children =
      then_turn (each_child signal_child children) (each_child (λ c. finish (ws c.name) c))

  -- One pass after the other.
  unfoldable pub passes : List (Pass F × List Text) → List (Child F) → Turn F
  unfolding poll
  passes [] children = record { children = children; effects = []; events = [] }
  passes ((p, requests) ∷ rest) children = then_turn (poll p requests children) (passes rest)

  -- `run`
  abbrev pub run_controls :
      (Text → World F) → List (Pass F × List Text) → (Text → World F) → List (Child F) → Turn F
  run_controls starting ps ending children =
      then_turn (then_turn (start_all starting children) (passes ps)) (end_all ending)
