-- ===== src/Supervision/Kept/Started.antt =====
-- The operations of toinflux/supervision.py that start a process keep to the phases.
use send_to_influx.Prelude.{
  ℕ, ◌≡◌, refl, sym, ◌∙◌, subst, Bool, true, Bool-cases, Option-cases, inl, inr, Option, none, some,
  List, [], ◌∷◌, ◌++◌, if◌then◌else◌, Text, text_eq_self,
}
use send_to_influx.Floats.{Floats, le}
use send_to_influx.Controls.Actuators.{Document}
use send_to_influx.Supervision.{
  Child, Reported, stall_seconds, spawned, World, Done, is_running, start_child, restart,
  stop_child, refresh, check_child, still,
}
use send_to_influx.Supervision.Passes.{start_over, Reading}
use send_to_influx.Supervision.Phases.{phase_after, phase_after-append, phase_of, About, running}
use send_to_influx.Supervision.Kept.{Kept, still-Kept, About-append}
use send_to_influx.Supervision.Kept.Ended.{stop_child-Kept, kill-Kept}

module _ (fl : Floats) (blank : Text → Bool) (same : Document fl.F → Document fl.F → Bool)
    (backoff : ℕ → fl.F) (same_self : (d : Document fl.F) → same d d ≡ true) where
  open fl use {F}

  refresh-name : (w : World F) (c : Child F) → (refresh fl blank same backoff w c).name ≡ c.name
  unfolding refresh
  refresh-name w c = elim (Option-cases (w.document c.name)) [
    | inl e ↦ rw (e, refresh) refl
    | inr (d, e) ↦
        rw (e, refresh)
          (elim (Option-cases (stall_seconds fl blank same backoff d)) [
            | inl f ↦ rw (f, refresh) refl
            | inr (t, f) ↦ rw (f, refresh) refl
          ])
  ]

  pub refresh-process :
      (w : World F) (c : Child F) → (refresh fl blank same backoff w c).process ≡ c.process
  unfolding refresh
  refresh-process w c = elim (Option-cases (w.document c.name)) [
    | inl e ↦ rw (e, refresh) refl
    | inr (d, e) ↦
        rw (e, refresh)
          (elim (Option-cases (stall_seconds fl blank same backoff d)) [
            | inl f ↦ rw (f, refresh) refl
            | inr (t, f) ↦ rw (f, refresh) refl
          ])
  ]

  spawned-running :
      (c : Child F) (name : Text) (pid : ℕ) (d : Option (Document F))
      → c.process ≡ none
      → phase_after same name (spawned name pid d ∷ []) (phase_of c) ≡ some (running d)
  unfolding phase_after
  spawned-running c name pid d r = rw (text_eq_self name) (rw r refl)

  idle-Kept :
      (c e : Child F) (events : List Reported)
      → e.name ≡ c.name
      → c.process ≡ none
      → e.process ≡ none
      → Kept same c (record { child = e; effects = []; events = events })
  unfolding phase_after
  idle-Kept c e events n p q = record { name_kept = n; about_it = tt; phases = rw p (rw q refl) }

  pub restart-Kept :
      (w : World F) (c : Child F)
      → c.process ≡ none
      → Kept same c (restart fl blank same backoff w c)
  unfolding restart start_child phase_after
  restart-Kept w c r =
      let n = refresh-name w c in
      let p = refresh-process w c ∙ r in
      elim (Option-cases w.settings) [
        | inl e ↦ rw (e, start_child) (idle-Kept c _ _ refl r r)
        | inr (sources, e) ↦
            rw (e, start_child)
              (elim (Option-cases w.pipe) [
                | inl f ↦ rw (f, start_child) (idle-Kept c _ _ n r p)
                | inr (descriptor, f) ↦
                    rw (f, start_child)
                      (elim (Option-cases (w.process c.name)) [
                        | inl g ↦ rw (g, start_child) (idle-Kept c _ _ n r p)
                        | inr (pid, g) ↦
                            rw (g, start_child)
                              (record {
                                name_kept = n;
                                about_it = (refl, tt);
                                phases = spawned-running c c.name pid _ r;
                              })
                      ])
              ])
      ]

  pub check_child-Kept :
      (now : F) (w : World F) (c : Child F)
      → Kept same c (check_child fl blank same backoff now w c)
  unfolding check_child
  check_child-Kept now w c = elim (Option-cases c.process) [
    | inl p ↦ elim (Option-cases c.restart_at) [
      | inl e ↦
          subst (λ d. Kept same c d) (sym (simp (p, is_running, e, check_child)))
            (still-Kept same same_self c)
      | inr (due, e) ↦ elim (Bool-cases (le fl due now)) [
        | inl h ↦
            subst (λ d. Kept same c d) (sym (simp (p, is_running, e, h, check_child)))
              (restart-Kept w c p)
        | inr h ↦
            subst (λ d. Kept same c d) (sym (simp (p, is_running, e, h, check_child)))
              (still-Kept same same_self c)
      ]
    ]
    | inr (pid, p) ↦ elim (Bool-cases (fl.lt c.stall (fl.sub now c.last_beat))) [
      | inl h ↦
          subst (λ d. Kept same c d) (sym (simp (p, is_running, h, check_child)))
            (kill-Kept fl blank same backoff same_self w c pid p)
      | inr h ↦
          subst (λ d. Kept same c d) (sym (simp (p, is_running, h, check_child)))
            (still-Kept same same_self c)
    ]
  ]

  -- An operation after another.
  pub then-Kept :
      (c : Child F) (d : Done F) (e : Done F) (events : List Reported)
      → Kept same c d
      → Kept same d.child e
      → Kept same c (record { child = e.child; effects = d.effects ++ e.effects; events = events })
  then-Kept c d e events k l = record {
    name_kept = l.name_kept ∙ k.name_kept;
    about_it =
        About-append same same_self c.name d.effects e.effects k.about_it
          (subst (λ n. About n e.effects) k.name_kept l.about_it);
    phases =
        phase_after-append same c.name d.effects e.effects (phase_of c) (phase_of d.child) k.phases
        ∙ subst (λ n. phase_after same n e.effects (phase_of d.child) ≡ some (phase_of e.child))
            k.name_kept l.phases;
  }

  halt-Kept :
      (w : World F) (c : Child F)
      → Kept same c (if is_running c then stop_child fl blank same backoff w c else still c)
  halt-Kept w c = elim (Option-cases c.process) [
    | inl p ↦ subst (λ d. Kept same c d) (sym (simp (p, is_running))) (still-Kept same same_self c)
    | inr (pid, p) ↦
        subst (λ d. Kept same c d) (sym (simp (p, is_running)))
          (stop_child-Kept fl blank same backoff same_self w c pid p)
  ]

  pub halt-resting :
      (w : World F) (c : Child F)
      → (if is_running c then stop_child fl blank same backoff w c else still c).child.process
        ≡ none
  unfolding stop_child
  halt-resting w c = elim (Option-cases c.process) [
    | inl p ↦ rw (p, is_running) refl
    | inr (pid, p) ↦ rw (p, is_running) refl
  ]

  pub start_over-Kept :
      (r : Reading F) (c : Child F) → Kept same c (start_over fl blank same backoff r c)
  unfolding start_over
  start_over-Kept r c =
      let over = if is_running c then stop_child fl blank same backoff r.ending c else still c in
      let k = halt-Kept r.ending c in
      let fresh = record over.child { failures = 0; restart_at = some r.starting.now } in
      then-Kept c (record over { child = fresh }) (restart fl blank same backoff r.starting fresh) _
        (record { name_kept = k.name_kept; about_it = k.about_it; phases = k.phases })
        (restart-Kept r.starting fresh (halt-resting r.ending c))
