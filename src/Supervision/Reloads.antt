-- ===== src/Supervision/Reloads.antt =====
-- A reload of toinflux/supervision.py takes every control from the phase that it has to the next
-- one.
use send_to_influx.Prelude.{
  ℕ, ◌≡◌, refl, sym, ◌∙◌, ap, subst, Bool, true, not, Bool-cases, Option-cases, inl, inr, none,
  some, List, [], ◌∷◌, ◌++◌, if◌then◌else◌, Text, text_eq, text_eq→eq,
}
use send_to_influx.Floats.{Floats}
use send_to_influx.Controls.Actuators.{Document, control_is_enabled}
use send_to_influx.Supervision.{
  Child, Reported, forgotten, World, disabled, dropped, reload_failed, usable_control, is_running,
  still, stop_child,
}
use send_to_influx.Supervision.Passes.{Reading, let_go, disable, drop_control, start_over, reload}
use send_to_influx.Supervision.Turns.{Turn, find, forget_child, each_child, only}
use send_to_influx.Supervision.Phases.{phase_after, phase_after-append, phase_of, Phase, resting}
use send_to_influx.Supervision.Kept.Ended.{let_go-Kept}
use send_to_influx.Supervision.Kept.Started.{start_over-Kept}
use send_to_influx.Supervision.Lawful.{
  Once, Lawful, phase_in, phase_in-here, phase_in-there, each_child-Lawful, only-Kept,
  report-Lawful,
}
use send_to_influx.Supervision.Names.{
  append-Once, append-phase_in, forget_child-Once, forget_child-phase_in,
}

module _ (fl : Floats) (blank : Text → Bool) (same : Document fl.F → Document fl.F → Bool)
    (backoff : ℕ → fl.F) (same_self : (d : Document fl.F) → same d d ≡ true) where
  open fl use {F}

  forgotten-after :
      (n name : Text) (p : Phase F)
      → (text_eq name n ≡ true → p ≡ resting)
      → phase_after same n (forgotten name ∷ []) p ≡ some p
  unfolding phase_after
  forgotten-after n name p h = elim (Bool-cases (text_eq name n)) [
    | inl e ↦ rw e (rw (h e) refl)
    | inr e ↦ rw e refl
  ]

  let_go-resting :
      (w : World F) (c : Child F) → phase_of (let_go fl blank same backoff w c).child ≡ resting
  unfolding let_go stop_child
  let_go-resting w c = elim (Option-cases c.process) [
    | inl p ↦ rw (p, let_go, is_running) refl
    | inr (pid, p) ↦ rw (p, let_go, is_running) refl
  ]

  -- After it, the child of the name rests.
  only-resting :
      (w : World F) (name : Text) (cs : List (Child F))
      → phase_in name (each_child (only name (let_go fl blank same backoff w)) cs).children
        ≡ resting
  unfolding each_child find
  only-resting w name [] = refl
  only-resting w name (c ∷ cs) =
      let f = only name (let_go fl blank same backoff w) in
      let keeps =
        only-Kept same name (let_go fl blank same backoff w)
          (let_go-Kept fl blank same backoff same_self w) same_self in
      elim (Bool-cases (text_eq c.name name)) [
        | inl e ↦
            phase_in-here name (f c).child (each_child f cs).children
              (ap (λ n. text_eq n name) (keeps c).name_kept ∙ e)
            ∙ ap (λ b. phase_of (if b then let_go fl blank same backoff w c else still c).child) e
            ∙ let_go-resting w c
        | inr e ↦
            phase_in-there name (f c).child (each_child f cs).children
              (ap (λ n. text_eq n name) (keeps c).name_kept ∙ e)
            ∙ only-resting w name cs
      ]

  -- A known child is stopped, or made safe where it rests, and forgotten.
  forget-Lawful :
      (w : World F) (name : Text) (cs : List (Child F)) (events : List Reported)
      → Once cs
      → Lawful same cs (record {
        children =
            forget_child name (each_child (only name (let_go fl blank same backoff w)) cs).children;
        effects = (each_child (only name (let_go fl blank same backoff w)) cs).effects;
        events = events;
      })
  forget-Lawful w name cs events o =
      let f = only name (let_go fl blank same backoff w) in
      let t = each_child f cs in
      let l =
        each_child-Lawful same f
          (only-Kept same name (let_go fl blank same backoff w)
            (let_go-Kept fl blank same backoff same_self w) same_self)
          cs o in
      record {
        once_left = forget_child-Once name t.children l.once_left;
        led = λ n.
            l.led n
            ∙ ap some (
                sym (forget_child-phase_in n name t.children l.once_left (only-resting w name cs)));
      }

  forgotten-Lawful :
      (name : Text) (cs : List (Child F)) (t : Turn F) (events : List Reported)
      → Lawful same cs t
      → phase_in name t.children ≡ resting
      → Lawful same cs (record {
        children = t.children;
        effects = t.effects ++ forgotten name ∷ [];
        events = events;
      })
  forgotten-Lawful name cs t events l r = record {
    once_left = l.once_left;
    led = λ n.
        phase_after-append same n t.effects (forgotten name ∷ []) (phase_in n cs)
          (phase_in n t.children) (l.led n)
        ∙ forgotten-after n name (phase_in n t.children)
            (λ e. ap (λ m. phase_in m t.children) (sym (text_eq→eq name n e)) ∙ r);
  }

  disable-Lawful :
      (w : World F) (name : Text) (cs : List (Child F))
      → Once cs
      → Lawful same cs (disable fl blank same backoff w name cs)
  unfolding disable
  disable-Lawful w name cs o = elim (Option-cases (find name cs)) [
    | inl e ↦ rw (e, disable) (report-Lawful same disabled name cs o)
    | inr (c, e) ↦ rw (e, disable) (forget-Lawful w name cs _ o)
  ]

  -- The log of transitions goes after the end of the process.
  drop_control-Lawful :
      (w : World F) (name : Text) (cs : List (Child F))
      → Once cs
      → Lawful same cs (drop_control fl blank same backoff w name cs)
  unfolding drop_control
  drop_control-Lawful w name cs o = elim (Option-cases (find name cs)) [
    | inl e ↦ rw (e, drop_control) (report-Lawful same dropped name cs o)
    | inr (c, e) ↦
        rw (e, drop_control)
          (let t = each_child (only name (let_go fl blank same backoff w)) cs in
            let l = forget-Lawful w name cs [] o in
            forgotten-Lawful name cs
              (record { children = forget_child name t.children; effects = t.effects; events = [] })
              _ l
              (forget_child-phase_in name name t.children
                  (each_child-Lawful same (only name (let_go fl blank same backoff w))
                    (only-Kept same name (let_go fl blank same backoff w)
                      (let_go-Kept fl blank same backoff same_self w) same_self)
                    cs o).once_left
                  (only-resting w name cs)
                ∙ only-resting w name cs))
  ]

  over-Lawful :
      (r : Reading F) (name : Text) (cs : List (Child F))
      → Once cs
      → Lawful same cs (each_child (only name (start_over fl blank same backoff r)) cs)
  over-Lawful r name cs o =
      each_child-Lawful same (only name (start_over fl blank same backoff r))
        (only-Kept same name (start_over fl blank same backoff r)
          (start_over-Kept fl blank same backoff same_self r) same_self)
        cs o

  -- A new child rests until it is started.
  taken_on-Lawful :
      (r : Reading F) (name : Text) (cs : List (Child F)) (fresh : Child F)
      → fresh.name ≡ name
      → fresh.process ≡ none
      → find name cs ≡ none
      → Once cs
      → Lawful same cs
          (each_child (only name (start_over fl blank same backoff r)) (cs ++ fresh ∷ []))
  taken_on-Lawful r name cs fresh n p h o =
      let l =
        over-Lawful r name (cs ++ fresh ∷ [])
          (append-Once fresh cs (subst (λ m. find m cs ≡ none) (sym n) h) o) in
      record {
        once_left = l.once_left;
        led = λ m.
            ap
              (phase_after same m
                (each_child (only name (start_over fl blank same backoff r))
                  (cs ++ fresh ∷ [])).effects)
              (sym (append-phase_in m fresh cs p))
            ∙ l.led m;
      }

  pub reload-Lawful :
      (r : Reading F) (name : Text) (cs : List (Child F))
      → Once cs
      → Lawful same cs (reload fl blank same backoff r name cs)
  unfolding reload
  reload-Lawful r name cs o =
      let w = r.reading in
      elim (Bool-cases (not (w.path_ok name))) [
        | inl a ↦ rw (a, reload) (report-Lawful same reload_failed name cs o)
        | inr a ↦ elim (Bool-cases (not (w.stored name))) [
          | inl b ↦ rw (a, b, reload) (drop_control-Lawful r.ending name cs o)
          | inr b ↦ elim (Option-cases (usable_control w name)) [
            | inl u ↦ rw (a, b, u, reload) (report-Lawful same reload_failed name cs o)
            | inr (d, u) ↦ elim (Bool-cases (not (control_is_enabled d))) [
              | inl e ↦ rw (a, b, u, e, reload) (disable-Lawful r.ending name cs o)
              | inr e ↦ elim (Option-cases (find name cs)) [
                | inl f ↦ rw (a, b, u, e, f, reload) (taken_on-Lawful r name cs _ refl refl f o)
                | inr (c, f) ↦ rw (a, b, u, e, f, reload) (over-Lawful r name cs o)
              ]
            ]
          ]
        ]
      ]
