-- ===== src/Writer/Posting/Unanswered.antt =====
-- When posting a chunk fails in toinflux/writer.py.
use send_to_influx.Prelude.{
  ℕ, ◌+◌, ◌≡◌, refl, sym, Among, ◌++◌, Bool, true, false, Option, List, [], ◌∷◌, Bool-cases, inl,
  inr, Text, false≢true,
}
use send_to_influx.Writer.Entry.{Entry}
use send_to_influx.Writer.Posting.{
  Status, Post, not_accepted, is_point_rejection, source_of, by_database, joined, RunOutcome, sent,
  refused, failed, joint, is_failed, send_each, send_run, post_groups, post_chunk,
}
use send_to_influx.Writer.Posting.Whole.{Status-cases}

module _ (configured : Text → Bool) (answers : ℕ → Text → Text → Status) where
  -- One of the posts came back with no answer, or with one that neither takes its points nor refuses them.
  abbrev pub Unanswered : List Post → Type 0
  Unanswered made =
      (m : Post) × (Among m made
        × ((code : Option ℕ) × ((m.answer ≡ not_accepted code)
              × (is_point_rejection code ≡ false))))

  later_Unanswered : (m : Post) (made : List Post) → Unanswered made → Unanswered (m ∷ made)
  later_Unanswered m made (n, (i, rest)) = (n, (inr i, rest))

  later_is_in : (m : Post) (ms ns : List Post) → Among m ns → Among m (ms ++ ns)
  later_is_in m [] ns i = i
  later_is_in m (x ∷ ms) ns i = inr (later_is_in m ms ns i)

  pub behind_Unanswered : (ms ns : List Post) → Unanswered ns → Unanswered (ms ++ ns)
  behind_Unanswered ms ns (n, (i, rest)) = (n, (later_is_in n ms ns i, rest))

  send_each-Unanswered :
      (source : Text) (k : ℕ) (es : List Entry)
      → is_failed (send_each configured answers source k es).outcome ≡ true
      → Unanswered (send_each configured answers source k es).made
  unfolding send_each
  send_each-Unanswered source k [] h = absurd (false≢true h)
  send_each-Unanswered source k (e ∷ es) h = elim (Status-cases (answers k source e.point.line)) [
    | inl a ↦
        rw (a, send_each)
          (later_Unanswered _ _ (send_each-Unanswered source (k + 1) es (rw (a, send_each) at h)))
    | inr (code, a) ↦ elim (Bool-cases (is_point_rejection code)) [
      | inl r ↦
          rw (a, send_each, r)
            (later_Unanswered _ _
              (send_each-Unanswered source (k + 1) es (rw (a, send_each, r) at h)))
      | inr r ↦ rw (a, send_each, r) (_, (inl refl, (code, (a, r))))
    ]
  ]

  send_run-Unanswered :
      (k : ℕ) (g : List Entry)
      → is_failed (send_run configured answers k g).outcome ≡ true
      → Unanswered (send_run configured answers k g).made
  unfolding send_run
  send_run-Unanswered k g h =
      let source = source_of g in
      elim (Bool-cases (configured source)) [
        | inr c ↦ absurd (false≢true (rw c at h))
        | inl c ↦ elim (Status-cases (answers k source (joined g))) [
          | inl a ↦ absurd (false≢true (rw (c, a) at h))
          | inr (code, a) ↦ elim (Bool-cases (is_point_rejection code)) [
            | inl r ↦
                rw (c, a, r)
                  (later_Unanswered _ _ (send_each-Unanswered source (k + 1) g (rw (c, a, r) at h)))
            | inr r ↦ rw (c, a, r) (_, (inl refl, (code, (a, r))))
          ]
        ]
      ]

  joint_fails :
      (o p : RunOutcome) → is_failed o ≡ false → is_failed (joint o p) ≡ true → is_failed p ≡ true
  joint_fails sent sent h k = k
  joint_fails refused sent h k = k
  joint_fails failed sent h k = absurd (false≢true (sym h))
  joint_fails sent refused h k = k
  joint_fails refused refused h k = k
  joint_fails failed refused h k = absurd (false≢true (sym h))
  joint_fails o failed h k = refl

  post_groups-Unanswered :
      (k : ℕ) (gs : List (List Entry))
      → is_failed (post_groups configured answers k gs).outcome ≡ true
      → Unanswered (post_groups configured answers k gs).made
  unfolding post_groups
  post_groups-Unanswered k [] h = absurd (false≢true h)
  post_groups-Unanswered k (g ∷ gs) h =
      let first = send_run configured answers k g in
      elim (Bool-cases (is_failed first.outcome)) [
        | inl f ↦ rw f (send_run-Unanswered k g f)
        | inr f ↦
            let rest = post_groups configured answers first.posts gs in
            rw f (
              behind_Unanswered first.made rest.made (
                post_groups-Unanswered first.posts gs
                  (joint_fails first.outcome rest.outcome f (rw f at h))))
      ]

  pub post_chunk-Unanswered :
      (k : ℕ) (chunk : List Entry)
      → is_failed (post_chunk configured answers k chunk).1.outcome ≡ true
      → Unanswered (post_chunk configured answers k chunk).1.made
  unfolding post_chunk
  post_chunk-Unanswered k chunk h = post_groups-Unanswered k (by_database chunk) h
