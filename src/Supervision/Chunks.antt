-- ===== src/Supervision/Chunks.antt =====
-- What a pipe of toinflux/supervision.py holds is heard alike in one read and in two.
use send_to_influx.Prelude.{
  ℕ, ◌≡◌, refl, sym, ◌∙◌, ap, append_assoc, Bool, List, [], ◌∷◌, ◌++◌, inl, inr, Text,
}
use send_to_influx.Floats.{Floats}
use send_to_influx.Controls.Actuators.{Document}
use send_to_influx.Supervision.{Child, Done, beat, hear, beat_events}
use send_to_influx.Supervision.Beats.{split_lines, beats_in, split_lines-append, beats_in-append}
use send_to_influx.Supervision.Kept.{List-cases}

module _ (fl : Floats) (blank : Text → Bool) (same : Document fl.F → Document fl.F → Bool)
    (backoff : ℕ → fl.F) where
  open fl use {F}

  -- What hearing the beats `bs` does, with so much left over.
  heard : F → Child F → Text → List Text → Done F
  heard now c rest [] = record { child = record c { pending = rest }; effects = []; events = [] }
  heard now c rest (b ∷ bs) = record {
    child = record c { pending = rest; last_beat = now; failures = 0 };
    effects = [];
    events = beat_events c.name (b ∷ bs);
  }

  hear-heard :
      (now : F) (chunk : Text) (c : Child F)
      → hear fl blank same backoff now chunk c
        ≡ heard now c
            (split_lines (c.pending ++ chunk)).1
            (beats_in blank (split_lines (c.pending ++ chunk)).0)
  unfolding hear heard
  hear-heard now chunk c = elim (List-cases (beats_in blank (split_lines (c.pending ++ chunk)).0)) [
    | inl e ↦ rw (e, hear) refl
    | inr (b, (bs, e)) ↦ rw (e, hear) refl
  ]

  beat_events-append :
      (name : Text) (bs ds : List Text)
      → beat_events name (bs ++ ds) ≡ beat_events name bs ++ beat_events name ds
  beat_events-append name [] ds = refl
  beat_events-append name (b ∷ bs) ds =
      ap (λ r. record { kind = beat; name = name } ∷ r) (beat_events-append name bs ds)

  heard-append :
      (now : F) (c : Child F) (rest later : Text) (bs ds : List Text)
      → (heard now (heard now c rest bs).child later ds).child
        ≡ (heard now c later (bs ++ ds)).child
  unfolding heard
  heard-append now c rest later [] [] = refl
  heard-append now c rest later [] (d ∷ ds) = refl
  heard-append now c rest later (b ∷ bs) [] = refl
  heard-append now c rest later (b ∷ bs) (d ∷ ds) = refl

  heard-name :
      (now : F) (c : Child F) (rest : Text) (bs : List Text)
      → (heard now c rest bs).child.name ≡ c.name
  unfolding heard
  heard-name now c rest [] = refl
  heard-name now c rest (b ∷ bs) = refl

  heard-pending :
      (now : F) (c : Child F) (rest : Text) (bs : List Text)
      → (heard now c rest bs).child.pending ≡ rest
  unfolding heard
  heard-pending now c rest [] = refl
  heard-pending now c rest (b ∷ bs) = refl

  heard-events :
      (now : F) (c : Child F) (rest : Text) (bs : List Text)
      → (heard now c rest bs).events ≡ beat_events c.name bs
  unfolding heard
  heard-events now c rest [] = refl
  heard-events now c rest (b ∷ bs) = refl

  -- What is heard of two chunks, one after the other, in what the first leaves.
  then_heard :
      (now : F) (chunk : Text) (c : Child F) (rest : Text) (bs : List Text)
      → hear fl blank same backoff now chunk (heard now c rest bs).child
        ≡ heard now
            (heard now c rest bs).child
            (split_lines (rest ++ chunk)).1
            (beats_in blank (split_lines (rest ++ chunk)).0)
  then_heard now chunk c rest bs =
      let d = (heard now c rest bs).child in
      hear-heard now chunk d
      ∙ ap
          (λ r.
            heard now d (split_lines (r ++ chunk)).1 (beats_in blank (split_lines (r ++ chunk)).0))
          (heard-pending now c rest bs)

  heard_both :
      (now : F) (a b : Text) (c : Child F)
      → let p = split_lines (c.pending ++ a) in
        let q = split_lines (p.1 ++ b) in
        hear fl blank same backoff now (a ++ b) c
        ≡ heard now c q.1 (beats_in blank p.0 ++ beats_in blank q.0)
  heard_both now a b c =
      let p = split_lines (c.pending ++ a) in
      let q = split_lines (p.1 ++ b) in
      hear-heard now (a ++ b) c
      ∙ ap (λ (r : List Text × Text). heard now c r.1 (beats_in blank r.0))
          (ap split_lines (sym (append_assoc c.pending a b))
            ∙ split_lines-append (c.pending ++ a) b)
      ∙ ap (heard now c q.1) (beats_in-append blank p.0 q.0)

  -- Two chunks of text that are heard one after the other, at one moment, leave the child as one
  -- chunk with both does, and report the same beats in the same order: a beat counts once its
  -- newline is there, wherever the chunks are cut.
  pub hear-append :
      (now : F) (a b : Text) (c : Child F)
      → let first = hear fl blank same backoff now a c in
        let second = hear fl blank same backoff now b first.child in
        let both = hear fl blank same backoff now (a ++ b) c in
        (second.child ≡ both.child) × (first.events ++ second.events ≡ both.events)
  hear-append now a b c =
      let p = split_lines (c.pending ++ a) in
      let q = split_lines (p.1 ++ b) in
      let bs = beats_in blank p.0 in
      let ds = beats_in blank q.0 in
      let one = hear-heard now a c in
      let two =
        ap (λ (d : Done F). hear fl blank same backoff now b d.child) one
        ∙ then_heard now b c p.1 bs in
      let both = heard_both now a b c in
      (
        ap (λ (d : Done F). d.child) two
            ∙ heard-append now c p.1 q.1 bs ds
            ∙ ap (λ (d : Done F). d.child) (sym both),
        ap
              (λ es.
                es
                ++ (hear fl blank same backoff now b
                    (hear fl blank same backoff now a c).child).events)
              (ap (λ (d : Done F). d.events) one ∙ heard-events now c p.1 bs)
            ∙ ap (λ es. beat_events c.name bs ++ es)
                (ap (λ (d : Done F). d.events) two
                  ∙ heard-events now _ q.1 ds
                  ∙ ap (λ n. beat_events n ds) (heard-name now c p.1 bs))
            ∙ sym (beat_events-append c.name bs ds)
            ∙ sym (ap (λ (d : Done F). d.events) both ∙ heard-events now c q.1 (bs ++ ds)),
      )
