-- ===== src/Supervision/Watched/Always.antt =====
-- Every operation of the supervisor of toinflux/supervision.py leaves its children watched.
use send_to_influx.Prelude.{
  ℕ, ◌≡◌, refl, ◌∙◌, ap, Bool, true, false, not, Bool-cases, Option-cases, inl, inr, none, some,
  List, [], ◌∷◌, ◌++◌, if◌then◌else◌, Text, All,
}
use send_to_influx.Floats.{Floats, le}
use send_to_influx.Controls.Actuators.{Document, control_is_enabled}
use send_to_influx.Supervision.{
  Child, World, is_running, still, failed_once, start_child, restart, reap, kill, hear, read,
  check_child, refresh, usable_control,
}
use send_to_influx.Supervision.Beats.{beats_in, split_lines}
use send_to_influx.Supervision.Passes.{
  Pass, Reading, let_go, disable, drop_control, start_over, reload, hear_ready, poll, start_all,
  passes,
}
use send_to_influx.Supervision.Turns.{find, each_child, once_each}
use send_to_influx.Supervision.Kept.{List-cases}
use send_to_influx.Supervision.Kept.Ended.{let_go-Kept}
use send_to_influx.Supervision.Kept.Started.{refresh-process, halt-resting}
use send_to_influx.Supervision.Watched.{
  watched, AllWatched, Watches, each_child-AllWatched, only-Watches, for_each-AllWatched,
  forget_child-AllWatched, taken_on-AllWatched,
}

module _ (fl : Floats) (blank : Text → Bool) (same : Document fl.F → Document fl.F → Bool)
    (backoff : ℕ → fl.F) (same_self : (d : Document fl.F) → same d d ≡ true) where
  open fl use {F}

  failed_once-watched :
      (now : F) (c : Child F)
      → c.process ≡ none
      → watched (failed_once fl blank same backoff now c) ≡ true
  failed_once-watched now c p = rw p refl

  restart-watched :
      (w : World F) (c : Child F)
      → c.process ≡ none
      → watched (restart fl blank same backoff w c).child ≡ true
  unfolding restart start_child
  restart-watched w c r =
      let p = refresh-process fl blank same backoff same_self w c ∙ r in
      elim (Option-cases w.settings) [
        | inl e ↦ rw (e, start_child) (failed_once-watched w.now c r)
        | inr (sources, e) ↦
            rw (e, start_child)
              (elim (Option-cases w.pipe) [
                | inl f ↦
                    rw (f, start_child)
                      (failed_once-watched w.now
                        (record (refresh fl blank same backoff w c) { enabled = sources }) p)
                | inr (descriptor, f) ↦
                    rw (f, start_child)
                      (elim (Option-cases (w.process c.name)) [
                        | inl g ↦
                            rw (g, start_child)
                              (failed_once-watched w.now
                                (record (refresh fl blank same backoff w c) { enabled = sources })
                                p)
                        | inr (pid, g) ↦ rw (g, start_child) refl
                      ])
              ])
      ]

  start_over-watched :
      (r : Reading F) (c : Child F) → watched (start_over fl blank same backoff r c).child ≡ true
  unfolding start_over
  start_over-watched r c =
      restart-watched r.starting _ (halt-resting fl blank same backoff same_self r.ending c)

  hear-watched :
      (now : F) (chunk : Text) (c : Child F)
      → watched (hear fl blank same backoff now chunk c).child ≡ watched c
  unfolding hear
  hear-watched now chunk c =
      elim (List-cases (beats_in blank (split_lines (c.pending ++ chunk)).0)) [
        | inl e ↦ rw (e, hear) refl
        | inr (b, (bs, e)) ↦ rw (e, hear) refl
      ]

  hear_ready-Watches : (w : World F) → Watches (hear_ready fl blank same backoff w)
  unfolding hear_ready read reap
  hear_ready-Watches w c a = elim (Bool-cases (is_running c)) [
    | inl e ↦
        ap (λ b. watched (if b then read fl blank same backoff w c else still c).child) e
        ∙ elim (List-cases (w.chunk c.name)) [
          | inl k ↦ rw (k, read) refl
          | inr (x, (xs, k)) ↦ rw (k, read) (hear-watched w.now (x ∷ xs) c ∙ a)
        ]
    | inr e ↦ ap (λ b. watched (if b then read fl blank same backoff w c else still c).child) e ∙ a
  ]

  check_child-Watches : (now : F) (w : World F) → Watches (check_child fl blank same backoff now w)
  unfolding check_child kill reap
  check_child-Watches now w c a = elim (Option-cases c.process) [
    | inl p ↦ elim (Option-cases c.restart_at) [
      | inl e ↦
          let q : check_child fl blank same backoff now w c ≡ still c =
            simp (p, is_running, e, check_child) in
          ap (λ d. watched d.child) q ∙ a
      | inr (due, e) ↦ elim (Bool-cases (le fl due now)) [
        | inl h ↦
            let q : check_child fl blank same backoff now w c ≡ restart fl blank same backoff w c =
              simp (p, is_running, e, h, check_child) in
            ap (λ d. watched d.child) q ∙ restart-watched w c p
        | inr h ↦
            let q : check_child fl blank same backoff now w c ≡ still c =
              simp (p, is_running, e, h, check_child) in
            ap (λ d. watched d.child) q ∙ a
      ]
    ]
    | inr (pid, p) ↦ elim (Bool-cases (fl.lt c.stall (fl.sub now c.last_beat))) [
      | inl h ↦ rw (p, h, check_child) refl
      | inr h ↦
          let q : check_child fl blank same backoff now w c ≡ still c =
            simp (p, is_running, h, check_child) in
          ap (λ d. watched d.child) q ∙ a
    ]
  ]

  reload-AllWatched :
      (r : Reading F) (name : Text) (cs : List (Child F))
      → AllWatched cs
      → AllWatched (reload fl blank same backoff r name cs).children
  unfolding reload disable drop_control
  reload-AllWatched r name cs a =
      let w = r.reading in
      let gone =
        forget_child-AllWatched name (let_go fl blank same backoff r.ending) cs
          (λ c. (let_go-Kept fl blank same backoff same_self r.ending c).name_kept) a in
      elim (Bool-cases (not (w.path_ok name))) [
        | inl b ↦ rw (b, reload) a
        | inr b ↦ elim (Bool-cases (not (w.stored name))) [
          | inl d ↦ elim (Option-cases (find name cs)) [
            | inl f ↦ rw (b, d, f, reload, drop_control) a
            | inr (c, f) ↦ rw (b, d, f, reload, drop_control) gone
          ]
          | inr d ↦ elim (Option-cases (usable_control w name)) [
            | inl u ↦ rw (b, d, u, reload) a
            | inr (doc, u) ↦ elim (Bool-cases (not (control_is_enabled doc))) [
              | inl e ↦ elim (Option-cases (find name cs)) [
                | inl f ↦ rw (b, d, u, e, f, reload, disable) a
                | inr (c, f) ↦ rw (b, d, u, e, f, reload, disable) gone
              ]
              | inr e ↦ elim (Option-cases (find name cs)) [
                | inl f ↦
                    rw (b, d, u, e, f, reload)
                      (taken_on-AllWatched name _ _ cs (start_over-watched r) refl a)
                | inr (c, f) ↦
                    rw (b, d, u, e, f, reload)
                      (each_child-AllWatched _ (only-Watches name _ (λ x y. start_over-watched r x))
                        cs a)
              ]
            ]
          ]
        ]
      ]

  poll-AllWatched :
      (p : Pass F) (requests : List Text) (cs : List (Child F))
      → AllWatched cs
      → AllWatched (poll fl blank same backoff p requests cs).children
  unfolding poll
  poll-AllWatched p requests cs a =
      each_child-AllWatched _ (λ c. check_child-Watches p.moment (p.checking c.name) c) _
        (for_each-AllWatched _
          (λ name ds.
            each_child-AllWatched _ (only-Watches name _ (hear_ready-Watches (p.hearing name))) ds)
          p.ready _
          (for_each-AllWatched _ (λ name. reload-AllWatched (p.reloading name) name)
            (once_each [] requests) cs a))

  passes-AllWatched :
      (ps : List (Pass F × List Text)) (cs : List (Child F))
      → AllWatched cs
      → AllWatched (passes fl blank same backoff ps cs).children
  unfolding passes
  passes-AllWatched [] cs a = a
  passes-AllWatched ((p, requests) ∷ ps) cs a =
      passes-AllWatched ps _ (poll-AllWatched p requests cs a)

  start_all-AllWatched :
      (ws : Text → World F) (cs : List (Child F))
      → All (λ c. c.process ≡ none) cs
      → AllWatched (start_all fl blank same backoff ws cs).children
  unfolding start_all each_child
  start_all-AllWatched ws [] r = tt
  start_all-AllWatched ws (c ∷ cs) r = (
    ap (λ b. watched (if b then still c else restart fl blank same backoff (ws c.name) c).child)
          (ap (λ q. elim q [ none ↦ false | some n ↦ true ]) r.0)
        ∙ restart-watched (ws c.name) c r.0,
    start_all-AllWatched ws cs r.1,
  )

  -- From children that all rest, after `start_all` and as many passes as there may be, with any
  -- requests and whatever fails in the world, each child runs with its pipe open or has a time of
  -- its next start.
  pub passes-start_all-AllWatched :
      (starting : Text → World F) (ps : List (Pass F × List Text)) (cs : List (Child F))
      → All (λ c. c.process ≡ none) cs
      → AllWatched
          (passes fl blank same backoff ps
            (start_all fl blank same backoff starting cs).children).children
  passes-start_all-AllWatched starting ps cs r =
      passes-AllWatched ps _ (start_all-AllWatched starting cs r)
