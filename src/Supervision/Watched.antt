-- ===== src/Supervision/Watched.antt =====
-- No control is left alone by the supervisor of toinflux/supervision.py: each child runs with its
-- pipe open, or has a time of its next start.
pub mod Always
use send_to_influx.Prelude.{
  ◌≡◌, sym, ◌∙◌, ap, subst, Bool, true, false, Bool-cases, inl, inr, Option, none, some, List, [],
  ◌∷◌, ◌++◌, if◌then◌else◌, Text, text_eq, text_eq_self, All,
}
use send_to_influx.Supervision.{Child, Done, still}
use send_to_influx.Supervision.Turns.{Turn, forget_child, each_child, only, for_each}

abbrev pub is_there {ℓ} : {A : Type ℓ} → Option A → Bool
is_there none = false
is_there (some a) = true

module _ {F : Type 0} where
  abbrev pub watched : Child F → Bool
  watched c = elim c.process [ none ↦ is_there c.restart_at | some pid ↦ is_there c.beats ]

  abbrev pub AllWatched : List (Child F) → Type 0
  AllWatched cs = All (λ c. watched c ≡ true) cs

  abbrev pub Watches : (Child F → Done F) → Type 0
  Watches f = (c : Child F) → watched c ≡ true → watched (f c).child ≡ true

  pub each_child-AllWatched :
      (f : Child F → Done F)
      → Watches f
      → (cs : List (Child F)) → AllWatched cs
      → AllWatched (each_child f cs).children
  unfolding each_child
  each_child-AllWatched f m [] a = tt
  each_child-AllWatched f m (c ∷ cs) a = (m c a.0, each_child-AllWatched f m cs a.1)

  pub only-Watches : (name : Text) (f : Child F → Done F) → Watches f → Watches (only name f)
  only-Watches name f m c a = elim (Bool-cases (text_eq c.name name)) [
    | inl e ↦ ap (λ b. watched (if b then f c else still c).child) e ∙ m c a
    | inr e ↦ ap (λ b. watched (if b then f c else still c).child) e ∙ a
  ]

  pub for_each-AllWatched :
      (g : Text → List (Child F) → Turn F)
      → ((name : Text) (ds : List (Child F)) → AllWatched ds → AllWatched (g name ds).children)
      → (names : List Text) (cs : List (Child F)) → AllWatched cs
      → AllWatched (for_each g names cs).children
  unfolding for_each
  for_each-AllWatched g m [] cs a = a
  for_each-AllWatched g m (n ∷ ns) cs a = for_each-AllWatched g m ns (g n cs).children (m n cs a)

  pub only-name :
      (name : Text) (f : Child F → Done F) (c : Child F)
      → ((d : Child F) → (f d).child.name ≡ d.name)
      → (only name f c).child.name ≡ c.name
  only-name name f c k = elim (Bool-cases (text_eq c.name name)) [
    | inl e ↦ ap (λ b. (if b then f c else still c).child.name) e ∙ k c
    | inr e ↦ ap (λ b. (if b then f c else still c).child.name) e
  ]

  -- Where the child of the name is forgotten, it need not be watched.
  pub forget_child-AllWatched :
      (name : Text) (f : Child F → Done F) (cs : List (Child F))
      → ((c : Child F) → (f c).child.name ≡ c.name)
      → AllWatched cs
      → AllWatched (forget_child name (each_child (only name f) cs).children)
  unfolding forget_child each_child
  forget_child-AllWatched name f [] k a = tt
  forget_child-AllWatched name f (c ∷ cs) k a =
      let rest = forget_child-AllWatched name f cs k a.1 in
      let later = (each_child (only name f) cs).children in
      let kept = ap (λ n. text_eq n name) (only-name name f c k) in
      elim (Bool-cases (text_eq c.name name)) [
        | inl e ↦
            subst AllWatched
              (sym (
                ap
                  (λ b.
                    if b
                    then forget_child name later
                    else (only name f c).child ∷ forget_child name later)
                  (kept ∙ e)))
              rest
        | inr e ↦
            subst AllWatched
              (sym (
                ap
                  (λ b.
                    if b
                    then forget_child name later
                    else (only name f c).child ∷ forget_child name later)
                  (kept ∙ e)))
              (ap (λ b. watched (if b then f c else still c).child) e ∙ a.0, rest)
      ]

  -- A child that is taken on need not be watched before it is started.
  pub taken_on-AllWatched :
      (name : Text) (f : Child F → Done F) (fresh : Child F) (cs : List (Child F))
      → ((c : Child F) → watched (f c).child ≡ true)
      → fresh.name ≡ name
      → AllWatched cs
      → AllWatched (each_child (only name f) (cs ++ fresh ∷ [])).children
  unfolding each_child
  taken_on-AllWatched name f fresh [] m n a = (
    ap (λ b. watched (if b then f fresh else still fresh).child)
          (ap (λ x. text_eq x name) n ∙ text_eq_self name)
        ∙ m fresh,
    tt,
  )
  taken_on-AllWatched name f fresh (c ∷ cs) m n a =
      (only-Watches name f (λ d b. m d) c a.0, taken_on-AllWatched name f fresh cs m n a.1)
