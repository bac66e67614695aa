-- ===== src/Gating/Guard/Once.antt =====
-- The exit half of `DeviceGuard` in toinflux/gating.py acts at most once.
use send_to_influx.Prelude.{
  ◌≡◌, refl, Bool, true, false, Option, List, [], ◌∷◌, ◌++◌, append-nil, arith, Text,
}
use send_to_influx.Floats.{Floats}
use send_to_influx.Controls.{Setting}
use send_to_influx.Gating.Guard.{
  Commands, DeviceGuard, Devices, ok, issued, stop, close, at_exit, new_guard, commands_for,
}
use send_to_influx.Gating.Guard.Safe.{>>=-eq-ok}

-- What may happen to a guard after its control has started.
pub data Event : Type 0 where
  stopping closing exiting : Event

module _ (fl : Floats) (blank : Text → Bool) where
  -- The guard after one event, and the commands that were handed on.
  after : DeviceGuard fl blank → Event → DeviceGuard fl blank × List (Commands fl blank)
  unfolding stop close at_exit
  after g stopping = stop fl blank g
  after g closing = (close fl blank g, [])
  after g exiting = at_exit fl blank g

  unfoldable pub all_issued : DeviceGuard fl blank → List Event → List (Commands fl blank)
  unfolding after
  all_issued g [] = []
  all_issued g (e ∷ es) = (after g e).1 ++ all_issued (after g e).0 es

  abbrev pub first_issue : Option (Commands fl blank) → Event → List (Commands fl blank)
  first_issue commands closing = []
  first_issue commands e = issued fl blank commands

  stop_again : (g : DeviceGuard fl blank) → g.stopped ≡ true → stop fl blank g ≡ (g, [])
  unfolding stop
  stop_again g h = rw h

  exit_again : (g : DeviceGuard fl blank) → g.stopped ≡ true → at_exit fl blank g ≡ (g, [])
  unfolding at_exit
  exit_again g h = ground arith

  close-stopped : (g : DeviceGuard fl blank) → (close fl blank g).stopped ≡ true
  unfolding close
  close-stopped g = refl

  stopped_issues_nothing :
      (g : DeviceGuard fl blank) (es : List Event) → g.stopped ≡ true → all_issued g es ≡ []
  unfolding all_issued
  stopped_issues_nothing g [] h = refl
  stopped_issues_nothing g (stopping ∷ es) h = rw (stop_again g h) (stopped_issues_nothing g es h)
  stopped_issues_nothing g (closing ∷ es) h =
      stopped_issues_nothing (close fl blank g) es (close-stopped g)
  stopped_issues_nothing g (exiting ∷ es) h = rw (exit_again g h) (stopped_issues_nothing g es h)

  fresh_issues_once :
      (g : DeviceGuard fl blank) (e : Event) (es : List Event)
      → g.stopped ≡ false
      → g.registered ≡ true
      → all_issued g (e ∷ es) ≡ first_issue g.commands e
  unfolding all_issued stop close at_exit
  fresh_issues_once g stopping es h r = rw h (
      rw (stopped_issues_nothing (record g { stopped = true; registered = false }) es refl)
        (append-nil (issued fl blank g.commands)))
  fresh_issues_once g closing es h r =
      stopped_issues_nothing (record g { stopped = true; registered = false }) es refl
  fresh_issues_once g exiting es h r =
      rw (r, h)
        (rw (stopped_issues_nothing (record g { stopped = true; registered = false }) es refl)
          (append-nil (issued fl blank g.commands)))

  -- A new guard, whatever happens to it afterwards and in whatever order, hands its safe-state
  -- commands on exactly once, at the first stop or exit, and never if it was closed before that or
  -- if its safe state leaves the devices alone.
  pub new_guard_acts_once :
      (s : Setting fl.F) (ds : Devices fl blank) (g : DeviceGuard fl blank) (e : Event)
      (es : List Event)
      → new_guard fl blank s ds ≡ ok g
      → (commands_for fl blank s ds ≡ ok g.commands)
        × (all_issued g (e ∷ es) ≡ first_issue g.commands e)
  unfolding new_guard
  new_guard_acts_once s ds g e es h =
      let (commands, hc, h') = >>=-eq-ok (commands_for fl blank s ds) _ h in
      let kept : g.commands ≡ commands = ground arith in
      (rw kept hc, fresh_issues_once g e es (ground arith) (ground arith))
