-- ===== src/Writer/Posting/Whole.antt =====
-- Where no post of toinflux/writer.py fails for want of the server, all of a chunk is passed.
use send_to_influx.Prelude.{
  ℕ, ◌+◌, ◌≡◌, refl, sym, ap, ◌∙◌, Bool, true, false, Option, List, [], ◌∷◌, ◌++◌, All, Bool-cases,
  inl, inr, ◌⊎◌, Text, false≢true,
}
use send_to_influx.Writer.Entry.{Entry}
use send_to_influx.Writer.Posting.{
  Status, accepted, not_accepted, is_point_rejection, source_of, by_database, joined, RunOutcome,
  sent, refused, failed, joint, is_failed, is_handled, handled_start, send_each, send_run,
  post_groups,
}
use send_to_influx.Writer.Posting.Groups.{flat, add_entries-flat, self_handled, handled_start_whole}

pub Status-cases : (s : Status) → (s ≡ accepted) ⊎ ((code : Option ℕ) × (s ≡ not_accepted code))
Status-cases accepted = inl refl
Status-cases (not_accepted code) = inr (code, refl)

module _ (configured : Text → Bool) (answers : ℕ → Text → Text → Status) where
  send_each_whole :
      (source : Text) (k : ℕ) (es : List Entry)
      → is_failed (send_each configured answers source k es).outcome ≡ false
      → (send_each configured answers source k es).done ≡ es
  unfolding send_each
  send_each_whole source k [] h = refl
  send_each_whole source k (e ∷ es) h = elim (Status-cases (answers k source e.point.line)) [
    | inl a ↦
        rw (a, send_each)
          (ap (λ fs. e ∷ fs) (send_each_whole source (k + 1) es (rw (a, send_each) at h)))
    | inr (code, a) ↦ elim (Bool-cases (is_point_rejection code)) [
      | inl r ↦
          rw (a, send_each, r)
            (ap (λ fs. e ∷ fs) (send_each_whole source (k + 1) es (rw (a, send_each, r) at h)))
      | inr r ↦ absurd (false≢true (sym (rw (a, send_each, r) at h)))
    ]
  ]

  send_run_whole :
      (k : ℕ) (g : List Entry)
      → is_failed (send_run configured answers k g).outcome ≡ false
      → (send_run configured answers k g).done ≡ g
  unfolding send_run
  send_run_whole k g h =
      let source = source_of g in
      elim (Bool-cases (configured source)) [
        | inr c ↦ rw c refl
        | inl c ↦ elim (Status-cases (answers k source (joined g))) [
          | inl a ↦ rw (c, a) refl
          | inr (code, a) ↦ elim (Bool-cases (is_point_rejection code)) [
            | inl r ↦ rw (c, a, r) (send_each_whole source (k + 1) g (rw (c, a, r) at h))
            | inr r ↦ absurd (false≢true (sym (rw (c, a, r) at h)))
          ]
        ]
      ]

  joint_failed :
      (o p : RunOutcome) → is_failed o ≡ false → is_failed (joint o p) ≡ false → is_failed p ≡ false
  joint_failed o sent h k = refl
  joint_failed o refused h k = refl
  joint_failed sent failed h k = k
  joint_failed refused failed h k = k
  joint_failed failed failed h k = k

  post_groups_whole :
      (k : ℕ) (gs : List (List Entry))
      → is_failed (post_groups configured answers k gs).outcome ≡ false
      → (post_groups configured answers k gs).done ≡ flat gs
  unfolding post_groups
  post_groups_whole k [] h = refl
  post_groups_whole k (g ∷ gs) h =
      let first = send_run configured answers k g in
      let rest = post_groups configured answers first.posts gs in
      elim (Bool-cases (is_failed first.outcome)) [
        | inl f ↦ absurd (false≢true (sym (rw f at h) ∙ f))
        | inr f ↦
            let onwards = joint_failed first.outcome rest.outcome f (rw f at h) in
            rw f (
              ap (λ es. es ++ rest.done) (send_run_whole k g f)
              ∙ ap (λ es. g ++ es) (post_groups_whole first.posts gs onwards))
      ]

  pub whole_chunk :
      (k : ℕ) (chunk : List Entry)
      → is_failed (post_groups configured answers k (by_database chunk)).outcome ≡ false
      → handled_start (post_groups configured answers k (by_database chunk)).done chunk ≡ chunk
  unfolding by_database is_handled
  whole_chunk k chunk h =
      rw (post_groups_whole k (by_database chunk) h) (
        handled_start_whole (flat (by_database chunk)) chunk (in_groups chunk (self_handled chunk)))
    where
      in_groups :
          (es : List Entry)
          → All (λ e. is_handled chunk e ≡ true) es
          → All (λ e. is_handled (flat (by_database chunk)) e ≡ true) es
      in_groups [] all = tt
      in_groups (e ∷ es) all = (add_entries-flat [] chunk e ∙ all.0, in_groups es all.1)
