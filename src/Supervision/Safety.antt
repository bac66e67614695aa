-- ===== src/Supervision/Safety.antt =====
-- The life of a supervisor, `run` of toinflux/supervision.py: the start of all controls, the
-- passes, and their end.
use send_to_influx.Prelude.{
  ℕ, ◌≡◌, refl, sym, ◌∙◌, ap, subst, Bool, true, false, Bool-cases, Option-cases, inl, inr, none,
  some, List, [], ◌∷◌, if◌then◌else◌, Text, text_eq,
}
use send_to_influx.Floats.{Floats}
use send_to_influx.Controls.Actuators.{Document}
use send_to_influx.Supervision.{Child, World, is_running, still, restart}
use send_to_influx.Supervision.Passes.{Pass, poll, start_all, finish, end_all, passes, run_controls}
use send_to_influx.Supervision.Turns.{find, each_child, once_each}
use send_to_influx.Supervision.Phases.{phase_after, phase_of, resting}
use send_to_influx.Supervision.Kept.{Kept, still-Kept}
use send_to_influx.Supervision.Kept.Ended.{hear_ready-Kept, finish-Kept, signal_child-Kept}
use send_to_influx.Supervision.Kept.Started.{check_child-Kept, restart-Kept}
use send_to_influx.Supervision.Lawful.{
  Once, Lawful, phase_in, phase_in-here, phase_in-there, each_child-Lawful, then_turn-Lawful,
  for_each-Lawful, only-Kept,
}
use send_to_influx.Supervision.Reloads.{reload-Lawful}

module _ (fl : Floats) (blank : Text → Bool) (same : Document fl.F → Document fl.F → Bool)
    (backoff : ℕ → fl.F) (same_self : (d : Document fl.F) → same d d ≡ true) where
  open fl use {F}

  poll-Lawful :
      (p : Pass F) (requests : List Text) (cs : List (Child F))
      → Once cs
      → Lawful same cs (poll fl blank same backoff p requests cs)
  unfolding poll
  poll-Lawful p requests cs o =
      then_turn-Lawful same cs _ _
        (then_turn-Lawful same cs _ _
          (for_each-Lawful same _
            (λ name ds q.
              reload-Lawful fl blank same backoff same_self (p.reloading name) name ds q)
            (once_each [] requests) cs o)
          (λ ds q.
            for_each-Lawful same _
              (λ name es s.
                each_child-Lawful same _
                  (only-Kept same name _
                    (λ c. hear_ready-Kept fl blank same backoff same_self (p.hearing name) c)
                    same_self)
                  es s)
              p.ready ds q))
        (λ ds q.
          each_child-Lawful same _
            (λ c. check_child-Kept fl blank same backoff same_self p.moment (p.checking c.name) c)
            ds q)

  start_all-Lawful :
      (ws : Text → World F) (cs : List (Child F))
      → Once cs
      → Lawful same cs (start_all fl blank same backoff ws cs)
  unfolding start_all
  start_all-Lawful ws cs o =
      each_child-Lawful same _
        (λ c. elim (Option-cases c.process) [
          | inl p ↦
              subst (λ d. Kept same c d)
                (sym (
                  ap (λ b. if b then still c else restart fl blank same backoff (ws c.name) c)
                    (ap (λ q. elim q [ none ↦ false | some n ↦ true ]) p)))
                (restart-Kept fl blank same backoff same_self (ws c.name) c p)
          | inr (pid, p) ↦
              subst (λ d. Kept same c d)
                (sym (
                  ap (λ b. if b then still c else restart fl blank same backoff (ws c.name) c)
                    (ap (λ q. elim q [ none ↦ false | some n ↦ true ]) p)))
                (still-Kept same same_self c)
        ])
        cs o

  end_all-Lawful :
      (ws : Text → World F) (cs : List (Child F))
      → Once cs
      → Lawful same cs (end_all fl blank same backoff ws cs)
  unfolding end_all
  end_all-Lawful ws cs o =
      then_turn-Lawful same cs _ _
        (each_child-Lawful same _ (λ c. signal_child-Kept fl blank same backoff same_self c) cs o)
        (λ ds q.
          each_child-Lawful same _ (λ c. finish-Kept fl blank same backoff same_self (ws c.name) c)
            ds q)

  passes-Lawful :
      (ps : List (Pass F × List Text)) (cs : List (Child F))
      → Once cs
      → Lawful same cs (passes fl blank same backoff ps cs)
  unfolding passes phase_after
  passes-Lawful [] cs o = record { once_left = o; led = λ n. refl }
  passes-Lawful ((p, requests) ∷ ps) cs o =
      then_turn-Lawful same cs _ _ (poll-Lawful p requests cs o) (λ ds q. passes-Lawful ps ds q)

  finished-resting :
      (w : World F) (c : Child F) → phase_of (finish fl blank same backoff w c).child ≡ resting
  unfolding finish
  finished-resting w c = elim (Option-cases c.process) [
    | inl p ↦ rw (p, finish, is_running) refl
    | inr (pid, p) ↦ rw (p, finish, is_running) refl
  ]

  all-resting :
      (ws : Text → World F) (name : Text) (cs : List (Child F))
      → phase_in name (each_child (λ c. finish fl blank same backoff (ws c.name) c) cs).children
        ≡ resting
  unfolding each_child find
  all-resting ws name [] = refl
  all-resting ws name (c ∷ cs) =
      let d = (finish fl blank same backoff (ws c.name) c).child in
      let rest = (each_child (λ c. finish fl blank same backoff (ws c.name) c) cs).children in
      elim (Bool-cases (text_eq d.name name)) [
        | inl e ↦ phase_in-here name d rest e ∙ finished-resting (ws c.name) c
        | inr e ↦ phase_in-there name d rest e ∙ all-resting ws name cs
      ]

  -- Where every name is there once, as many passes as there may be, with any requests and any
  -- world, take each control from the phase it has to the one it is left in, and every name is
  -- there once still: a process is started only where none runs, is told to end and ends only where
  -- it runs, and after its end, before anything else is done to the control, the devices of the
  -- document it was started from are made safe.
  pub passes-phases :
      (ps : List (Pass F × List Text)) (cs : List (Child F)) (name : Text)
      → Once cs
      → (phase_after same name (passes fl blank same backoff ps cs).effects (phase_in name cs)
          ≡ some (phase_in name (passes fl blank same backoff ps cs).children))
        × Once (passes fl blank same backoff ps cs).children
  passes-phases ps cs name o = let l = passes-Lawful ps cs o in (l.led name, l.once_left)

  run_controls-resting :
      (starting ending : Text → World F) (ps : List (Pass F × List Text)) (cs : List (Child F))
      (name : Text)
      → phase_in name (run_controls fl blank same backoff starting ps ending cs).children ≡ resting
  unfolding end_all
  run_controls-resting starting ending ps cs name = all-resting ending name _

  -- From a start where every name is there once and a control rests, the whole of `run` leaves it
  -- at rest: in all that is done to it, each process that was started has ended, with the devices
  -- of its document made safe after it.
  pub run_controls-phases :
      (starting ending : Text → World F) (ps : List (Pass F × List Text)) (cs : List (Child F))
      (name : Text)
      → Once cs
      → phase_in name cs ≡ resting
      → phase_after same name
          (run_controls fl blank same backoff starting ps ending cs).effects
          resting
        ≡ some resting
  run_controls-phases starting ending ps cs name o r =
      let l =
        then_turn-Lawful same cs _ _
          (then_turn-Lawful same cs _ _ (start_all-Lawful starting cs o)
            (λ ds q. passes-Lawful ps ds q))
          (λ ds q. end_all-Lawful ending ds q) in
      ap (phase_after same name (run_controls fl blank same backoff starting ps ending cs).effects)
        (sym r)
      ∙ l.led name
      ∙ ap some (run_controls-resting starting ending ps cs name)
