-- ===== src/Supervision/Taken.antt =====
-- The controls that a new supervisor takes, `Supervisor.__init__` of toinflux/supervision.py.
use send_to_influx.Prelude.{
  ℕ, ◌≡◌, ◌⊎◌, refl, sym, subst, Bool, true, false, not, Bool-cases, Option-cases, inl, inr, Option,
  none, some, List, [], ◌∷◌, ◌++◌, if◌then◌else◌, any, Text, All, arith,
}
use send_to_influx.Floats.{Floats}
use send_to_influx.Controls.Actuators.{
  Document, Actuator, actuators_may_be_one, control_is_enabled, actuators_owned,
}
use send_to_influx.Supervision.{Child, World, stall_seconds}
use send_to_influx.Supervision.Passes.{new_child}

module _ (fl : Floats) (blank : Text → Bool) (same : Document fl.F → Document fl.F → Bool)
    (backoff : ℕ → fl.F) (lower : Text → Text) (by_repr : List Actuator → List Actuator) where
  open fl use {F}

  -- What a document owns, in the order in which it is compared.
  abbrev pub mine_of : Document F → List Actuator
  mine_of d = by_repr (actuators_owned lower d)

  unfoldable pub clashes : List Actuator → List Actuator → Bool
  unfolding actuators_may_be_one
  clashes mine claimed = any (λ ours. any (actuators_may_be_one ours) claimed) mine

  -- The loop over the names, in their order, with what is claimed; none where it raises.
  unfoldable pub take_on : World F → List Actuator → List Text → Option (List (Child F))
  unfolding clashes stall_seconds
  take_on w claimed [] = some []
  take_on w claimed (name ∷ names) =
      let skipped = take_on w claimed names in
      elim (w.document name) [
        | none ↦ skipped
        | some d ↦
            let next = take_on w (claimed ++ mine_of d) names in
            if not (control_is_enabled d)
            then skipped
            else if clashes (mine_of d) claimed
            then skipped
            else elim (stall_seconds fl blank same backoff d) [
              | none ↦ none
              | some seconds ↦ elim next [
                | none ↦ none
                | some cs ↦ some (new_child fl blank same backoff name (some d) seconds ∷ cs)
              ]
            ]
      ]

  -- `Supervisor.__init__`: the children for the names, which are sorted.
  unfoldable pub first_children : World F → List Text → Option (List (Child F))
  unfolding take_on
  first_children w [] = some []
  first_children w (name ∷ names) = elim w.settings [
    | none ↦ some []
    | some sources ↦ take_on w [] (name ∷ names)
  ]

  abbrev pub NoneShared : List Actuator → List Actuator → Type 0
  NoneShared mine theirs = All (λ a. All (λ b. actuators_may_be_one a b ≡ false) theirs) mine

  abbrev pub owned_by_child : Child F → List Actuator
  owned_by_child c = elim c.document [ none ↦ [] | some d ↦ mine_of d ]

  -- A child for an enabled document, which does not run.
  abbrev pub Fresh : Child F → Type 0
  Fresh c =
      (c.process ≡ none)
      × ((d : Document F) × ((c.document ≡ some d) × (control_is_enabled d ≡ true)))

  -- No child commands what may be an actuator of another.
  abbrev pub Separate : List (Child F) → Type 0
  Separate [] = Unit
  Separate (c ∷ cs) = All (λ d. NoneShared (owned_by_child d) (owned_by_child c)) cs × Separate cs

  any-Free :
      (a : Actuator) (bs : List Actuator)
      → any (actuators_may_be_one a) bs ≡ false
      → All (λ b. actuators_may_be_one a b ≡ false) bs
  any-Free a [] h = tt
  any-Free a (b ∷ bs) h = elim (Bool-cases (actuators_may_be_one a b)) [
    | inl e ↦ ground (arith, rw e at h)
    | inr e ↦ (e, any-Free a bs (rw e at h))
  ]

  clashes-NoneShared :
      (mine theirs : List Actuator) → clashes mine theirs ≡ false → NoneShared mine theirs
  unfolding clashes
  clashes-NoneShared [] theirs h = tt
  clashes-NoneShared (a ∷ mine) theirs h = elim (Bool-cases (any (actuators_may_be_one a) theirs)) [
    | inl e ↦ ground (arith, rw e at h)
    | inr e ↦ (any-Free a theirs e, clashes-NoneShared mine theirs (rw e at h))
  ]

  in_parts : {A : Type 0} (P : A → Type 0) (xs ys : List A) → All P (xs ++ ys) → All P xs × All P ys
  in_parts P [] ys a = (tt, a)
  in_parts P (x ∷ xs) ys a = let rest = in_parts P xs ys a.1 in ((a.0, rest.0), rest.1)

  NoneShared-parts :
      (mine xs ys : List Actuator)
      → NoneShared mine (xs ++ ys)
      → NoneShared mine xs × NoneShared mine ys
  NoneShared-parts [] xs ys a = (tt, tt)
  NoneShared-parts (m ∷ mine) xs ys a =
      let here = in_parts _ xs ys a.0 in
      let rest = NoneShared-parts mine xs ys a.1 in ((here.0, rest.0), (here.1, rest.1))

  -- What the loop gives beside what is claimed.
  Taken : List Actuator → List (Child F) → Type 0
  Taken claimed cs =
      All Fresh cs × (Separate cs × All (λ c. NoneShared (owned_by_child c) claimed) cs)

  later-Taken :
      (claimed mine : List Actuator) (cs : List (Child F))
      → All (λ c. NoneShared (owned_by_child c) (claimed ++ mine)) cs
      → All (λ c. NoneShared (owned_by_child c) claimed) cs
        × All (λ c. NoneShared (owned_by_child c) mine) cs
  later-Taken claimed mine [] a = (tt, tt)
  later-Taken claimed mine (c ∷ cs) a =
      let here = NoneShared-parts (owned_by_child c) claimed mine a.0 in
      let rest = later-Taken claimed mine cs a.1 in ((here.0, rest.0), (here.1, rest.1))

  not-not : (b : Bool) → not b ≡ false → b ≡ true
  not-not true h = refl
  not-not false h = ground (arith, h)

  some_is : {A : Type 0} (a b : A) → some a ≡ some b → a ≡ b
  some_is a b h = ground (arith, h)

  -- What holds at the end of the names, and with one more name that is passed over or taken, holds
  -- of every result of the loop.
  module _ (P : List Actuator → List Text → List (Child F) → Type 0)
      (at_end : (claimed : List Actuator) → P claimed [] [])
      (passed_over : (claimed : List Actuator) (name : Text) (names : List Text)
          (cs : List (Child F))
        → P claimed names cs
        → P claimed (name ∷ names) cs)
      (taken : (claimed : List Actuator) (name : Text) (names : List Text) (d : Document F)
          (seconds : F) (ds : List (Child F))
        → control_is_enabled d ≡ true
        → clashes (mine_of d) claimed ≡ false
        → P (claimed ++ mine_of d) names ds
        → P claimed (name ∷ names) (new_child fl blank same backoff name (some d) seconds ∷ ds))
      (w : World F) where
    take_one :
        (name : Text) (names : List Text) (claimed : List Actuator) (cs : List (Child F))
        → ((more : List Actuator) (ds : List (Child F))
            → take_on w more names ≡ some ds
            → P more names ds)
        → take_on w claimed (name ∷ names) ≡ some cs
        → P claimed (name ∷ names) cs
    unfolding take_on
    take_one name names claimed cs later h =
        let over = λ (k : take_on w claimed names ≡ some cs).
          passed_over claimed name names cs (later claimed cs k) in
        elim (Option-cases (w.document name)) [
          | inl e ↦ over (rw (e, take_on) at h)
          | inr (d, e) ↦ elim (Bool-cases (not (control_is_enabled d))) [
            | inl k ↦ over (rw (e, k, take_on) at h)
            | inr k ↦ elim (Bool-cases (clashes (mine_of d) claimed)) [
              | inl x ↦ over (rw (e, k, x, take_on) at h)
              | inr x ↦ elim (Option-cases (stall_seconds fl blank same backoff d)) [
                | inl t ↦ ground (arith, rw (e, k, x, t, take_on) at h)
                | inr (seconds, t) ↦ elim (Option-cases (take_on w (claimed ++ mine_of d) names)) [
                  | inl n ↦ ground (arith, rw (e, k, x, t, n, take_on) at h)
                  | inr (ds, n) ↦
                      subst (P claimed (name ∷ names))
                        (some_is _ cs (rw (e, k, x, t, n, take_on) at h))
                        (taken claimed name names d seconds ds (not-not (control_is_enabled d) k) x
                          (later (claimed ++ mine_of d) ds n))
                ]
              ]
            ]
          ]
        ]

    pub take_on_lem :
        (names : List Text) (claimed : List Actuator) (cs : List (Child F))
        → take_on w claimed names ≡ some cs
        → P claimed names cs
    unfolding take_on
    take_on_lem [] claimed cs h = subst (P claimed []) (some_is [] cs h) (at_end claimed)
    take_on_lem (name ∷ names) claimed cs h =
        take_one name names claimed cs (λ more ds k. take_on_lem names more ds k) h

    -- So it holds of the children of a new supervisor too.
    pub first_children_lem :
        (names : List Text) (cs : List (Child F))
        → first_children w names ≡ some cs
        → (P [] names cs) ⊎ (cs ≡ [])
    unfolding first_children
    first_children_lem [] cs h = inr (sym (some_is [] cs h))
    first_children_lem (name ∷ names) cs h = elim (Option-cases w.settings) [
      | inl e ↦ inr (sym (some_is [] cs (rw (e, first_children) at h)))
      | inr (sources, e) ↦ inl (take_on_lem (name ∷ names) [] cs (rw (e, first_children) at h))
    ]

  one_more-Taken :
      (claimed : List Actuator) (name : Text) (d : Document F) (seconds : F) (ds : List (Child F))
      → control_is_enabled d ≡ true
      → clashes (mine_of d) claimed ≡ false
      → Taken (claimed ++ mine_of d) ds
      → Taken claimed (new_child fl blank same backoff name (some d) seconds ∷ ds)
  unfolding Taken
  one_more-Taken claimed name d seconds ds k x t =
      let split = later-Taken claimed (mine_of d) ds t.1.1 in
      (
        ((refl, (d, (refl, k))), t.0),
        ((split.1, t.1.0), (clashes-NoneShared (mine_of d) claimed x, split.0)),
      )

  -- Where a supervisor is made, its children rest, each with a document that is enabled, and no
  -- child commands an actuator that may be one of another child's.
  pub first_children-Separate :
      (w : World F) (names : List Text) (cs : List (Child F))
      → first_children w names ≡ some cs
      → All Fresh cs × Separate cs
  unfolding Taken
  first_children-Separate w names cs h =
      elim (first_children_lem (λ claimed ns ds. Taken claimed ds) (λ claimed. (tt, (tt, tt)))
        (λ claimed n ns ds t. t)
        (λ claimed n ns d seconds ds k x t. one_more-Taken claimed n d seconds ds k x t) w names cs
        h) [
          | inl t ↦ (t.0, t.1.0)
          | inr e ↦ subst (λ es. All Fresh es × Separate es) (sym e) (tt, tt)
        ]
