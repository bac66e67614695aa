-- ===== src/Supervision/Outcomes.antt =====
-- What the reloads of a pass report: `_apply_reload_requests` of toinflux/supervision.py.
use send_to_influx.Prelude.{
  ℕ, ◌≡◌, refl, sym, ◌∙◌, ap, subst, Bool, true, false, Bool-cases, Option-cases, inl, inr, Option,
  none, some, List, [], ◌∷◌, ◌++◌, if◌then◌else◌, Text, text_eq_self, contains,
}
use send_to_influx.Floats.{Floats, le}
use send_to_influx.Controls.Actuators.{Document, control_is_enabled}
use send_to_influx.Supervision.{
  Child, World, Done, beat_events, usable_control, is_running, still, start_child, restart, reap,
  kill, hear, read, check_child,
}
use send_to_influx.Supervision.Passes.{
  Reading, Pass, disable, drop_control, start_over, reload, hear_ready, poll,
}
use send_to_influx.Supervision.Turns.{find, each_child, only, then_turn, for_each, once_each}
use send_to_influx.Supervision.Lawful.{Once}
use send_to_influx.Supervision.Names.{append-Once}
use send_to_influx.Supervision.Reloads.{reload-Lawful}
use send_to_influx.Supervision.Beats.{split_lines, beats_in}
use send_to_influx.Supervision.Kept.{List-cases}
use send_to_influx.Supervision.Requests.{NoRepeats, once_each_queue}
use send_to_influx.Supervision.Reports.{
  reload_names, reload_names-append, each_child_quiet, for_each_quiet, then_turn_quiet, only_quiet,
  known_names, find-last,
}

module _ (fl : Floats) (blank : Text → Bool) (same : Document fl.F → Document fl.F → Bool)
    (backoff : ℕ → fl.F) where
  open fl use {F, lt, sub}

  start_quiet :
      (w : World F) (c : Child F)
      → reload_names (start_child fl blank same backoff w c).0.events ≡ []
  unfolding start_child reload_names
  start_quiet w c = elim (Option-cases w.settings) [
    | inl e ↦ rw (e, start_child) refl
    | inr (sources, e) ↦ elim (Option-cases w.pipe) [
      | inl p ↦ rw (e, start_child, p) refl
      | inr (descriptor, p) ↦ elim (Option-cases (w.process c.name)) [
        | inl q ↦ rw (e, start_child, p, q) refl
        | inr (pid, q) ↦ rw (e, start_child, p, q) refl
      ]
    ]
  ]

  restart_quiet :
      (w : World F) (c : Child F) → reload_names (restart fl blank same backoff w c).events ≡ []
  unfolding restart reload_names
  restart_quiet w c = elim (Bool-cases (start_child fl blank same backoff w c).1) [
    | inl e ↦ rw e (start_quiet w c)
    | inr e ↦ rw e refl
  ]

  beats_quiet : (name : Text) (ls : List Text) → reload_names (beat_events name ls) ≡ []
  unfolding reload_names
  beats_quiet name [] = refl
  beats_quiet name (l ∷ ls) = beats_quiet name ls

  heard_quiet :
      (now : F) (chunk : Text) (c : Child F)
      → reload_names (hear fl blank same backoff now chunk c).events ≡ []
  unfolding hear reload_names
  heard_quiet now chunk c =
      elim (List-cases (beats_in blank (split_lines (c.pending ++ chunk)).0)) [
        | inl e ↦ rw (e, hear) refl
        | inr (b, (bs, e)) ↦ rw (e, hear) (beats_quiet c.name (b ∷ bs))
      ]

  read_quiet :
      (w : World F) (c : Child F) → reload_names (read fl blank same backoff w c).events ≡ []
  unfolding read reap reload_names
  read_quiet w c = elim (List-cases (w.chunk c.name)) [
    | inl e ↦ rw (e, read) refl
    | inr (x, (xs, e)) ↦ rw (e, read) (heard_quiet w.now (x ∷ xs) c)
  ]

  hear_ready_quiet :
      (w : World F) (c : Child F) → reload_names (hear_ready fl blank same backoff w c).events ≡ []
  unfolding hear_ready reload_names
  hear_ready_quiet w c = elim (Bool-cases (is_running c)) [
    | inl e ↦
        ap (λ b. reload_names (if b then read fl blank same backoff w c else still c).events) e
        ∙ read_quiet w c
    | inr e ↦
        ap (λ b. reload_names (if b then read fl blank same backoff w c else still c).events) e
  ]

  late_quiet :
      (b : Bool) (w : World F) (c : Child F)
      → reload_names (if b then kill fl blank same backoff w c else still c).events ≡ []
  unfolding kill reap reload_names
  late_quiet true w c = refl
  late_quiet false w c = refl

  due_quiet :
      (b : Bool) (w : World F) (c : Child F)
      → reload_names (if b then restart fl blank same backoff w c else still c).events ≡ []
  unfolding reload_names
  due_quiet true w c = restart_quiet w c
  due_quiet false w c = refl

  waiting_quiet :
      (due : Option F) (now : F) (w : World F) (c : Child F)
      → reload_names
          (elim due as (λ _. Done F) [
            | none ↦ still c
            | some at ↦ if le fl at now then restart fl blank same backoff w c else still c
          ]).events
        ≡ []
  unfolding reload_names
  waiting_quiet none now w c = refl
  waiting_quiet (some at) now w c = due_quiet (le fl at now) w c

  check_quiet :
      (now : F) (w : World F) (c : Child F)
      → reload_names (check_child fl blank same backoff now w c).events ≡ []
  unfolding check_child
  check_quiet now w c = elim (Bool-cases (is_running c)) [
    | inl e ↦ rw (e, check_child) (late_quiet (lt c.stall (sub now c.last_beat)) w c)
    | inr e ↦ rw (e, check_child) (waiting_quiet c.restart_at now w c)
  ]

  start_over_names :
      (r : Reading F) (c : Child F)
      → reload_names (start_over fl blank same backoff r c).events ≡ c.name ∷ []
  unfolding start_over reload_names
  start_over_names r c = ap (λ ns. c.name ∷ ns) (restart_quiet r.starting _)

  disable_names :
      (w : World F) (name : Text) (cs : List (Child F))
      → reload_names (disable fl blank same backoff w name cs).events ≡ name ∷ []
  unfolding disable reload_names
  disable_names w name cs = elim (Option-cases (find name cs)) [
    | inl f ↦ rw (f, disable) refl
    | inr (c, f) ↦ rw (f, disable) refl
  ]

  drop_names :
      (w : World F) (name : Text) (cs : List (Child F))
      → reload_names (drop_control fl blank same backoff w name cs).events ≡ name ∷ []
  unfolding drop_control reload_names
  drop_names w name cs = elim (Option-cases (find name cs)) [
    | inl f ↦ rw (f, drop_control) refl
    | inr (c, f) ↦ rw (f, drop_control) refl
  ]

  -- A reload says once, of the control it is asked for, how it ended.
  reload-names :
      (r : Reading F) (name : Text) (cs : List (Child F))
      → Once cs
      → reload_names (reload fl blank same backoff r name cs).events ≡ name ∷ []
  unfolding reload reload_names
  reload-names r name cs o = elim (Bool-cases (r.reading.path_ok name)) [
    | inr p ↦ rw (p, reload) refl
    | inl p ↦ elim (Bool-cases (r.reading.stored name)) [
      | inr s ↦ rw (p, reload, s) (drop_names r.ending name cs)
      | inl s ↦ elim (Option-cases (usable_control r.reading name)) [
        | inl u ↦ rw (p, reload, s, u) refl
        | inr (d, u) ↦ elim (Bool-cases (control_is_enabled d)) [
          | inr n ↦ rw (p, reload, s, u, n) (disable_names r.ending name cs)
          | inl n ↦ elim (Option-cases (find name cs)) [
            | inl f ↦
                rw (p, reload, s, u, n, f)
                  (known_names name (start_over fl blank same backoff r) (start_over_names r) _ _
                    (append-Once _ cs f o) (find-last name _ cs (text_eq_self name) f))
            | inr (c, f) ↦
                rw (p, reload, s, u, n, f)
                  (known_names name (start_over fl blank same backoff r) (start_over_names r) cs c o
                    f)
          ]
        ]
      ]
    ]
  ]

  hearing_quiet :
      (p : Pass F) (cs : List (Child F))
      → reload_names
          (for_each
            (λ name. each_child (only name (hear_ready fl blank same backoff (p.hearing name))))
            p.ready
            cs).events
        ≡ []
  hearing_quiet p cs =
      for_each_quiet
        (λ name. each_child (only name (hear_ready fl blank same backoff (p.hearing name))))
        (λ name ds.
          let f = hear_ready fl blank same backoff (p.hearing name) in
          each_child_quiet (only name f) (only_quiet name f (hear_ready_quiet (p.hearing name))) ds)
        p.ready cs

  module _ (same_self : (d : Document F) → same d d ≡ true) where
    reloading-names :
        (p : Pass F) (names : List Text) (cs : List (Child F))
        → Once cs
        → reload_names
            (for_each
              (λ name. reload fl blank same backoff (p.reloading name) name)
              names
              cs).events
          ≡ names
    unfolding for_each reload_names
    reloading-names p [] cs o = refl
    reloading-names p (name ∷ names) cs o =
        let first = reload fl blank same backoff (p.reloading name) name cs in
        let l = reload-Lawful fl blank same backoff same_self (p.reloading name) name cs o in
        reload_names-append first.events _
        ∙ ap
            (λ ns.
              ns
              ++ reload_names
                  (for_each (λ n. reload fl blank same backoff (p.reloading n) n) names
                    first.children).events)
            (reload-names (p.reloading name) name cs o)
        ∙ ap (λ ns. name ∷ ns) (reloading-names p names first.children l.once_left)

    poll-names :
        (p : Pass F) (requests : List Text) (cs : List (Child F))
        → Once cs
        → reload_names (poll fl blank same backoff p requests cs).events ≡ once_each [] requests
    unfolding poll
    poll-names p requests cs o =
        let names = once_each [] requests in
        let reloads =
          for_each (λ name. reload fl blank same backoff (p.reloading name) name) names cs in
        let hearing =
          for_each
            (λ name. each_child (only name (hear_ready fl blank same backoff (p.hearing name))))
            p.ready in
        let checks : Child F → Done F =
          λ c. check_child fl blank same backoff p.moment (p.checking c.name) c in
        then_turn_quiet (then_turn reloads hearing) (each_child checks) names
          (then_turn_quiet reloads hearing names (reloading-names p names cs o) (hearing_quiet p))
          (each_child_quiet checks (λ c. check_quiet p.moment (p.checking c.name) c))

    -- Where every control is there once, the reloads of a pass are those that the queue of requests
    -- names, whatever it finds: a name is among those whose reload ended just where it was in the
    -- queue, and no name is there twice. They come in the order of the requests: with one request
    -- more its name comes last, unless it was in the queue already.
    pub poll_reloads_each :
        (p : Pass F) (requests : List Text) (cs : List (Child F)) (name : Text)
        → Once cs
        → let names = reload_names (poll fl blank same backoff p requests cs).events in
          let more =
            reload_names (poll fl blank same backoff p (requests ++ name ∷ []) cs).events in
          (contains names name ≡ contains requests name)
          × (NoRepeats names × (more ≡ names ++ (if contains requests name then [] else name ∷ [])))
    poll_reloads_each p requests cs name o =
        let (same_names, (no_repeats, last)) = once_each_queue requests name in
        let back = poll-names p requests cs o in
        (
          ap (λ ns. contains ns name) back ∙ same_names,
          (
            subst NoRepeats (sym back) no_repeats,
            poll-names p (requests ++ name ∷ []) cs o
                ∙ last
                ∙ ap (λ ns. ns ++ (if contains requests name then [] else name ∷ [])) (sym back),
          ),
        )
