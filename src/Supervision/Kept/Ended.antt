-- ===== src/Supervision/Kept/Ended.antt =====
-- The operations of toinflux/supervision.py that hear a process, end it or let go of it keep to the
-- phases.
use send_to_influx.Prelude.{
  ℕ, ◌≡◌, refl, sym, ◌∙◌, ap, subst, Bool, true, Bool-cases, Option-cases, inl, inr, none, some,
  List, [], ◌∷◌, ◌++◌, Text, text_eq_self,
}
use send_to_influx.Floats.{Floats}
use send_to_influx.Controls.Actuators.{Document}
use send_to_influx.Supervision.{
  Child, Reported, Effect, exited, killed, terminated, release, World, make_safe, is_running,
  terminate, reap, kill, stop_child, hear, read, died, EventKind,
}
use send_to_influx.Supervision.Beats.{beats_in, split_lines}
use send_to_influx.Supervision.Passes.{let_go, hear_ready, finish, signal_child}
use send_to_influx.Supervision.Phases.{
  phase_after, phase_after-append, phase_of, About, resting, running,
}
use send_to_influx.Supervision.Kept.{
  Kept, List-cases, still-Kept, end-resting, terminate-About, About-append, stop-phases,
}

module _ (fl : Floats) (blank : Text → Bool) (same : Document fl.F → Document fl.F → Bool)
    (backoff : ℕ → fl.F) (same_self : (d : Document fl.F) → same d d ≡ true) where
  open fl use {F}

  pub stop_child-Kept :
      (w : World F) (c : Child F) (pid : ℕ)
      → c.process ≡ some pid
      → Kept same c (stop_child fl blank same backoff w c)
  unfolding stop_child make_safe
  stop_child-Kept w c pid r = record {
    name_kept = refl;
    about_it =
        About-append same same_self c.name (terminate w c) _ (terminate-About same same_self w c)
          (refl, (refl, tt));
    phases = stop-phases same same_self w c pid r;
  }

  pub kill-Kept :
      (w : World F) (c : Child F) (pid : ℕ)
      → c.process ≡ some pid
      → Kept same c (kill fl blank same backoff w c)
  unfolding kill reap make_safe
  kill-Kept w c pid r = record {
    name_kept = refl;
    about_it =
        About-append same same_self c.name (terminate w c) _ (terminate-About same same_self w c)
          (refl, (refl, tt));
    phases = stop-phases same same_self w c pid r;
  }

  pub reap-Kept :
      (w : World F) (k : EventKind) (c : Child F) (pid : ℕ)
      → c.process ≡ some pid
      → Kept same c (reap fl blank same backoff w k c)
  unfolding reap make_safe
  reap-Kept w k c pid r = record {
    name_kept = refl;
    about_it = (refl, (refl, tt));
    phases = rw r (end-resting same same_self w c.name c.document);
  }

  calm-Kept :
      (c e : Child F) (events : List Reported)
      → e.name ≡ c.name
      → phase_of e ≡ phase_of c
      → Kept same c (record { child = e; effects = []; events = events })
  unfolding phase_after
  calm-Kept c e events n p = record { name_kept = n; about_it = tt; phases = ap some (sym p) }

  hear-Kept :
      (now : F) (chunk : Text) (c : Child F) → Kept same c (hear fl blank same backoff now chunk c)
  unfolding hear
  hear-Kept now chunk c = elim (List-cases (beats_in blank (split_lines (c.pending ++ chunk)).0)) [
    | inl e ↦ rw (e, hear) (calm-Kept c _ _ refl refl)
    | inr (b, (bs, e)) ↦ rw (e, hear) (calm-Kept c _ _ refl refl)
  ]

  pub read-Kept :
      (w : World F) (c : Child F) (pid : ℕ)
      → c.process ≡ some pid
      → Kept same c (read fl blank same backoff w c)
  unfolding read hear
  read-Kept w c pid r = elim (List-cases (w.chunk c.name)) [
    | inl e ↦ rw (e, read) (reap-Kept w died c pid r)
    | inr (x, (xs, e)) ↦ rw (e, read) (hear-Kept w.now (x ∷ xs) c)
  ]

  safe-Kept :
      (w : World F) (c : Child F)
      → c.process ≡ none
      → Kept same c
          (record { child = c; effects = make_safe same w c.name c.document; events = [] })
  unfolding phase_after make_safe
  safe-Kept w c p = record {
    name_kept = refl;
    about_it = (refl, tt);
    phases = rw (text_eq_self c.name) (rw p refl);
  }

  pub let_go-Kept : (w : World F) (c : Child F) → Kept same c (let_go fl blank same backoff w c)
  unfolding let_go
  let_go-Kept w c = elim (Option-cases c.process) [
    | inl p ↦ subst (λ d. Kept same c d) (sym (simp (p, is_running, let_go))) (safe-Kept w c p)
    | inr (pid, p) ↦
        subst (λ d. Kept same c d) (sym (simp (p, is_running, let_go))) (stop_child-Kept w c pid p)
  ]

  pub hear_ready-Kept :
      (w : World F) (c : Child F) → Kept same c (hear_ready fl blank same backoff w c)
  unfolding hear_ready
  hear_ready-Kept w c = elim (Option-cases c.process) [
    | inl p ↦
        subst (λ d. Kept same c d) (sym (simp (p, is_running, hear_ready)))
          (still-Kept same same_self c)
    | inr (pid, p) ↦
        subst (λ d. Kept same c d) (sym (simp (p, is_running, hear_ready))) (read-Kept w c pid p)
  ]

  -- What a reload does before it starts the child.

  told-Kept :
      (c : Child F) (pid : ℕ)
      → c.process ≡ some pid
      → Kept same c (record { child = c; effects = terminated c.name ∷ []; events = [] })
  unfolding phase_after
  told-Kept c pid p = record {
    name_kept = refl;
    about_it = (refl, tt);
    phases = rw (text_eq_self c.name) (rw p refl);
  }

  pub signal_child-Kept : (c : Child F) → Kept same c (signal_child fl blank same backoff c)
  signal_child-Kept c = elim (Option-cases c.process) [
    | inl p ↦ subst (λ d. Kept same c d) (sym (simp (p, is_running))) (still-Kept same same_self c)
    | inr (pid, p) ↦ subst (λ d. Kept same c d) (sym (simp (p, is_running))) (told-Kept c pid p)
  ]

  finished-Kept :
      (w : World F) (c : Child F) (pid : ℕ) (es : List (Effect F))
      → c.process ≡ some pid
      → About c.name es
      → phase_after same c.name es (running c.document) ≡ some (running c.document)
      → Kept same c (record {
        child = release c;
        effects = es ++ exited c.name ∷ make_safe same w c.name c.document;
        events = [];
      })
  unfolding make_safe
  finished-Kept w c pid es p a h = record {
    name_kept = refl;
    about_it = About-append same same_self c.name es _ a (refl, (refl, tt));
    phases =
        ap
          (λ o.
            phase_after same c.name (es ++ exited c.name ∷ make_safe same w c.name c.document)
              (elim o [ none ↦ resting | some n ↦ running c.document ]))
          p
        ∙ phase_after-append same c.name es (exited c.name ∷ make_safe same w c.name c.document)
            (running c.document) (running c.document) h
        ∙ end-resting same same_self w c.name c.document;
  }

  pub finish-Kept : (w : World F) (c : Child F) → Kept same c (finish fl blank same backoff w c)
  unfolding finish phase_after
  finish-Kept w c = elim (Option-cases c.process) [
    | inl p ↦
        subst (λ d. Kept same c d) (sym (simp (p, is_running, finish)))
          (still-Kept same same_self c)
    | inr (pid, p) ↦ elim (Bool-cases (w.obeys c.name)) [
      | inl o ↦
          subst (λ d. Kept same c d) (sym (simp (p, o, is_running, finish)))
            (finished-Kept w c pid [] p tt refl)
      | inr o ↦
          subst (λ d. Kept same c d) (sym (simp (p, o, is_running, finish)))
            (finished-Kept w c pid (killed c.name ∷ []) p (refl, tt)
              (rw (text_eq_self c.name) refl))
    ]
  ]
