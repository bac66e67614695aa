-- ===== src/Writer/Posting/Dealt.antt =====
-- What is passed of a chunk that toinflux/writer.py has posted.
use send_to_influx.Prelude.{
  ℕ, ◌+◌, ◌≡◌, refl, ap, ◌∙◌, subst, Among, Within, Bool, true, false, ◌&&◌, Option, List, [], ◌∷◌,
  ◌++◌, All, Bool-cases, inl, inr, ◌==◌, if◌then◌else◌, arith, Text,
}
use send_to_influx.Writer.Entry.{Entry}
use send_to_influx.Writer.Posting.{
  Status, Post, accepted, not_accepted, is_point_rejection, source_of, by_database, joined,
  is_failed, is_live, is_handled, handled_start, send_each, send_run, post_groups, post_chunk,
}
use send_to_influx.Writer.Posting.Groups.{
  IsUniform, All-append, add_entries-IsUniform, add_entries-All, start_prefix,
}
use send_to_influx.Writer.Posting.Whole.{Status-cases, whole_chunk}

-- In the chunk an object has its id for itself.
abbrev pub HasOwnIds : List Entry → Type 0
HasOwnIds chunk = (d e : Entry) → Among d chunk → Among e chunk → d.id ≡ e.id → d ≡ e

module _ (configured : Text → Bool) (answers : ℕ → Text → Text → Status) where
  -- The server answered the post as it is said to, and for no other post.
  abbrev pub IsTrue : Post → Type 0
  IsTrue m = m.answer ≡ answers m.number m.source (joined m.entries)

  -- An entry that need not be posted again after these posts: its source has no database, or the server took one
  -- of them with the entry in its body, or refused one that had nothing else.
  pub data Dealt (made : List Post) (e : Entry) : Type 0 where
    unconfigured : configured e.point.source ≡ false → Dealt made e
    taken_with : (m : Post) → Among m made → m.answer ≡ accepted → Among e m.entries → Dealt made e
    refused_alone :
        (m : Post) (code : Option ℕ)
        → Among m made
        → m.answer ≡ not_accepted code
        → is_point_rejection code ≡ true
        → m.entries ≡ e ∷ []
        → Dealt made e

  -- The posts of a part are among all of them.
  Dealt-Within :
      (made more : List Post) (e : Entry) → Within made more → Dealt made e → Dealt more e
  Dealt-Within made more e w (unconfigured c) = unconfigured c
  Dealt-Within made more e w (taken_with m i a k) = taken_with m (w m i) a k
  Dealt-Within made more e w (refused_alone m code i a r k) = refused_alone m code (w m i) a r k

  every-Within :
      (made more : List Post) (es : List Entry)
      → Within made more
      → All (Dealt made) es
      → All (Dealt more) es
  every-Within made more [] w h = tt
  every-Within made more (e ∷ es) w h =
      (Dealt-Within made more e w h.0, every-Within made more es w h.1)

  send_each-Dealt :
      (source : Text) (k : ℕ) (es : List Entry)
      → let posted = send_each configured answers source k es in
        All (Dealt posted.made) posted.done × All IsTrue posted.made
  unfolding send_each joined
  send_each-Dealt source k [] = (tt, tt)
  send_each-Dealt source k (e ∷ es) =
      let ih = send_each-Dealt source (k + 1) es in
      elim (Status-cases (answers k source e.point.line)) [
        | inl a ↦
            rw (a, send_each)
              (
                (taken_with _ (inl refl) a (inl refl), every-Within _ _ _ (λ m i. inr i) ih.0),
                (refl, ih.1),
              )
        | inr (code, a) ↦ elim (Bool-cases (is_point_rejection code)) [
          | inl r ↦
              rw (a, send_each, r)
                (
                  (
                    refused_alone _ code (inl refl) a r refl,
                    every-Within _ _ _ (λ m i. inr i) ih.0,
                  ),
                  (refl, ih.1),
                )
          | inr r ↦ rw (a, send_each, r) (tt, (refl, tt))
        ]
      ]

  -- Of a list, each entry in its own right.
  each_Dealt :
      (made : List Post) (es : List Entry)
      → ((e : Entry) → Among e es → Dealt made e)
      → All (Dealt made) es
  each_Dealt made [] f = tt
  each_Dealt made (e ∷ es) f = (f e (inl refl), each_Dealt made es (λ x i. f x (inr i)))

  unconfigured-Dealt :
      (made : List Post) (source : Text) (es : List Entry)
      → All (λ e. e.point.source ≡ source) es
      → configured source ≡ false
      → All (Dealt made) es
  unconfigured-Dealt made source [] h c = tt
  unconfigured-Dealt made source (e ∷ es) h c =
      (unconfigured (ap configured h.0 ∙ c), unconfigured-Dealt made source es h.1 c)

  send_run-Dealt :
      (k : ℕ) (g : List Entry)
      → IsUniform g
      → let posted = send_run configured answers k g in
        All (Dealt posted.made) posted.done × All IsTrue posted.made
  unfolding send_run
  send_run-Dealt k g h =
      let source = source_of g in
      elim (Bool-cases (configured source)) [
        | inr c ↦ rw c (unconfigured-Dealt [] source g h c, tt)
        | inl c ↦ elim (Status-cases (answers k source (joined g))) [
          | inl a ↦ rw (c, a) (each_Dealt _ g (λ e i. taken_with _ (inl refl) a i), (refl, tt))
          | inr (code, a) ↦ elim (Bool-cases (is_point_rejection code)) [
            | inl r ↦
                let each = send_each-Dealt source (k + 1) g in
                rw (c, a, r) (every-Within _ _ _ (λ m i. inr i) each.0, (refl, each.1))
            | inr r ↦ rw (c, a, r) (tt, (refl, tt))
          ]
        ]
      ]

  -- What holds of the entries of a run holds of those that are done with.
  send_each-All :
      (P : Entry → Type 0) (source : Text) (k : ℕ) (es : List Entry)
      → All P es
      → All P (send_each configured answers source k es).done
  unfolding send_each
  send_each-All P source k [] h = tt
  send_each-All P source k (e ∷ es) h =
      let ih = send_each-All P source (k + 1) es h.1 in
      elim (Status-cases (answers k source e.point.line)) [
        | inl a ↦ rw (a, send_each) (h.0, ih)
        | inr (code, a) ↦ elim (Bool-cases (is_point_rejection code)) [
          | inl r ↦ rw (a, send_each, r) (h.0, ih)
          | inr r ↦ rw (a, send_each, r) tt
        ]
      ]

  send_run-All :
      (P : Entry → Type 0) (k : ℕ) (g : List Entry)
      → All P g
      → All P (send_run configured answers k g).done
  unfolding send_run
  send_run-All P k g h =
      let source = source_of g in
      elim (Bool-cases (configured source)) [
        | inr c ↦ rw c h
        | inl c ↦ elim (Status-cases (answers k source (joined g))) [
          | inl a ↦ rw (c, a) h
          | inr (code, a) ↦ elim (Bool-cases (is_point_rejection code)) [
            | inl r ↦ rw (c, a, r) (send_each-All P source (k + 1) g h)
            | inr r ↦ rw (c, a, r) tt
          ]
        ]
      ]

  post_groups-All :
      (P : Entry → Type 0) (k : ℕ) (gs : List (List Entry))
      → All (All P) gs
      → All P (post_groups configured answers k gs).done
  unfolding post_groups
  post_groups-All P k [] h = tt
  post_groups-All P k (g ∷ gs) h =
      let first = send_run configured answers k g in
      elim (Bool-cases (is_failed first.outcome)) [
        | inl f ↦ rw f (send_run-All P k g h.0)
        | inr f ↦ rw f (
            All-append P first.done _ (send_run-All P k g h.0)
              (post_groups-All P first.posts gs h.1))
      ]

  All-posts : (P : Post → Type 0) (ms ns : List Post) → All P ms → All P ns → All P (ms ++ ns)
  All-posts P [] ns h k = k
  All-posts P (m ∷ ms) ns h k = (h.0, All-posts P ms ns h.1 k)

  in_front : (ms ns : List Post) → Within ms (ms ++ ns)
  in_front [] ns x i = elim i [ ]
  in_front (m ∷ ms) ns x (inl e) = inl e
  in_front (m ∷ ms) ns x (inr i) = inr (in_front ms ns x i)

  behind : (ms ns : List Post) → Within ns (ms ++ ns)
  behind [] ns x i = i
  behind (m ∷ ms) ns x i = inr (behind ms ns x i)

  -- What two lots of posts have dealt with, both have.
  pub joined-Dealt :
      (ms ns : List Post) (es fs : List Entry)
      → All (Dealt ms) es
      → All (Dealt ns) fs
      → All (Dealt (ms ++ ns)) (es ++ fs)
  joined-Dealt ms ns es fs h k =
      All-append (Dealt (ms ++ ns)) es fs (every-Within ms (ms ++ ns) es (in_front ms ns) h)
        (every-Within ns (ms ++ ns) fs (behind ms ns) k)

  pub joined-IsTrue : (ms ns : List Post) → All IsTrue ms → All IsTrue ns → All IsTrue (ms ++ ns)
  joined-IsTrue ms ns h k = All-posts IsTrue ms ns h k

  post_groups-Dealt :
      (k : ℕ) (gs : List (List Entry))
      → All IsUniform gs
      → let posted = post_groups configured answers k gs in
        All (Dealt posted.made) posted.done × All IsTrue posted.made
  unfolding post_groups
  post_groups-Dealt k [] h = (tt, tt)
  post_groups-Dealt k (g ∷ gs) h =
      let first = send_run configured answers k g in
      let rest = post_groups configured answers first.posts gs in
      let one = send_run-Dealt k g h.0 in
      elim (Bool-cases (is_failed first.outcome)) [
        | inl f ↦ rw f one
        | inr f ↦
            let more = post_groups-Dealt first.posts gs h.1 in
            rw f (
              joined-Dealt first.made rest.made first.done rest.done one.0 more.0,
              joined-IsTrue first.made rest.made one.1 more.1,
            )
      ]

  find-Dealt :
      (made : List Post) (chunk done : List Entry) (e : Entry)
      → HasOwnIds chunk
      → Among e chunk
      → All (λ d. Among d chunk) done
      → All (Dealt made) done
      → is_handled done e ≡ true
      → Dealt made e
  unfolding is_handled
  find-Dealt made chunk [] e u i a h k = cc
  find-Dealt made chunk (d ∷ done) e u i a h k = elim (Bool-cases (d.id == e.id)) [
    | inl q ↦ subst (Dealt made) (u d e a.0 i (ground (arith, q))) h.0
    | inr q ↦ find-Dealt made chunk done e u i a.1 h.1 (rw q at k)
  ]

  start-Dealt :
      (made : List Post) (chunk done es : List Entry)
      → HasOwnIds chunk
      → All (λ e. Among e chunk) es
      → All (λ d. Among d chunk) done
      → All (Dealt made) done
      → All (Dealt made) (handled_start done es)
  unfolding handled_start
  start-Dealt made chunk done [] u i a h = tt
  start-Dealt made chunk done (e ∷ es) u i a h = elim (Bool-cases (is_handled done e)) [
    | inl k ↦
        rw k (find-Dealt made chunk done e u i.0 a h k, start-Dealt made chunk done es u i.1 a h)
    | inr k ↦ rw k tt
  ]

  each-Among : (es chunk : List Entry) → Within es chunk → All (λ e. Among e chunk) es
  each-Among [] chunk w = tt
  each-Among (e ∷ es) chunk w = (w e (inl refl), each-Among es chunk (λ x i. w x (inr i)))

  by_database-Among :
      (k : ℕ) (chunk : List Entry)
      → All (λ d. Among d chunk) (post_groups configured answers k (by_database chunk)).done
  unfolding by_database
  by_database-Among k chunk =
      post_groups-All (λ d. Among d chunk) k (by_database chunk)
        (add_entries-All (λ d. Among d chunk) [] chunk tt (each-Among chunk chunk (λ x i. i)))

  by_database-Dealt :
      (k : ℕ) (chunk : List Entry)
      → let posted = post_groups configured answers k (by_database chunk) in
        All (Dealt posted.made) posted.done × All IsTrue posted.made
  unfolding by_database
  by_database-Dealt k chunk =
      post_groups-Dealt k (by_database chunk) (add_entries-IsUniform [] chunk tt)

  -- Of a chunk that is not live, the start that is passed has only entries that the posts dealt with, and is
  -- all of it where no post fails for want of the server.
  pub post_chunk-Dealt :
      (k : ℕ) (chunk : List Entry)
      → is_live chunk ≡ false
      → HasOwnIds chunk
      → let (start, posted) = post_chunk configured answers k chunk in
        All (Dealt posted.made) start
        × All IsTrue posted.made
        × ((later : List Entry) × (chunk ≡ start ++ later))
        × (is_failed posted.outcome ≡ false → start ≡ chunk)
  unfolding post_chunk
  post_chunk-Dealt k chunk buffered unique =
      let posted = post_groups configured answers k (by_database chunk) in
      let kept : (if is_failed posted.outcome && is_live chunk then chunk else posted.done)
          ≡ posted.done =
        elim (Bool-cases (is_failed posted.outcome)) [
          | inl f ↦ rw (f, buffered) refl
          | inr f ↦ rw f refl
        ] in
      let dealt = by_database-Dealt k chunk in
      rw kept (
        start-Dealt posted.made chunk posted.done chunk unique (each-Among chunk chunk (λ x i. i))
            (by_database-Among k chunk) dealt.0,
        dealt.1,
        start_prefix posted.done chunk,
        λ (h : is_failed posted.outcome ≡ false). whole_chunk configured answers k chunk h,
      )
