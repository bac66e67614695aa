-- ===== src/Supervision/Names.antt =====
-- A child that is taken on or forgotten, in the mapping of names of toinflux/supervision.py.
use send_to_influx.Prelude.{
  ◌≡◌, refl, sym, ◌∙◌, ap, subst, true, false, false≢true, Bool-cases, inl, inr, none, some, List,
  [], ◌∷◌, ◌++◌, if◌then◌else◌, Text, text_eq, text_eq→eq, text_eq_self, arith,
}
use send_to_influx.Supervision.{Child}
use send_to_influx.Supervision.Turns.{find, forget_child}
use send_to_influx.Supervision.Phases.{resting}
use send_to_influx.Supervision.Lawful.{Once, phase_or, phase_in, phase_in-here, phase_in-there}

other_order : (a b : Text) → text_eq a b ≡ false → text_eq b a ≡ false
other_order a b h = elim (Bool-cases (text_eq b a)) [
  | inl e ↦ absurd (false≢true (sym h ∙ ap (λ n. text_eq a n) (text_eq→eq b a e) ∙ text_eq_self a))
  | inr e ↦ e
]

module _ {F : Type 0} where
  find_beyond :
      (name : Text) (c : Child F) (cs : List (Child F))
      → text_eq c.name name ≡ false
      → find name (c ∷ cs) ≡ find name cs
  unfolding find
  find_beyond name c cs e = ap (λ b. if b then some c else find name cs) e

  find_absent :
      (name : Text) (c : Child F) (cs : List (Child F))
      → find name (c ∷ cs) ≡ none
      → (text_eq c.name name ≡ false) × (find name cs ≡ none)
  unfolding find
  find_absent name c cs h = elim (Bool-cases (text_eq c.name name)) [
    | inl e ↦ ground (arith, rw e at h)
    | inr e ↦ (e, rw e at h)
  ]

  find-append :
      (name : Text) (cs ds : List (Child F))
      → find name cs ≡ none
      → find name (cs ++ ds) ≡ find name ds
  find-append name [] ds h = refl
  find-append name (c ∷ cs) ds h =
      let a = find_absent name c cs h in
      find_beyond name c (cs ++ ds) a.0 ∙ find-append name cs ds a.1

  -- A child is taken on under a name that is not there.
  pub append-Once :
      (fresh : Child F) (cs : List (Child F))
      → find fresh.name cs ≡ none
      → Once cs
      → Once (cs ++ fresh ∷ [])
  unfolding find
  append-Once fresh [] h o = (refl, tt)
  append-Once fresh (c ∷ cs) h o =
      let a = find_absent fresh.name c cs h in
      (
        find-append c.name cs (fresh ∷ []) o.0
            ∙ find_beyond c.name fresh [] (other_order c.name fresh.name a.0),
        append-Once fresh cs a.1 o.1,
      )

  -- Where it rests, the phases are what they were.
  pub append-phase_in :
      (name : Text) (fresh : Child F) (cs : List (Child F))
      → fresh.process ≡ none
      → phase_in name (cs ++ fresh ∷ []) ≡ phase_in name cs
  unfolding find
  append-phase_in name fresh [] r = elim (Bool-cases (text_eq fresh.name name)) [
    | inl e ↦ phase_in-here name fresh [] e ∙ rw r refl
    | inr e ↦ phase_in-there name fresh [] e
  ]
  append-phase_in name fresh (c ∷ cs) r = elim (Bool-cases (text_eq c.name name)) [
    | inl e ↦ phase_in-here name c (cs ++ fresh ∷ []) e ∙ sym (phase_in-here name c cs e)
    | inr e ↦
        phase_in-there name c (cs ++ fresh ∷ []) e
        ∙ append-phase_in name fresh cs r
        ∙ sym (phase_in-there name c cs e)
  ]

  without_here :
      (name : Text) (c : Child F) (cs : List (Child F))
      → text_eq c.name name ≡ true
      → forget_child name (c ∷ cs) ≡ forget_child name cs
  unfolding forget_child
  without_here name c cs e =
      ap (λ b. if b then forget_child name cs else c ∷ forget_child name cs) e

  without_there :
      (name : Text) (c : Child F) (cs : List (Child F))
      → text_eq c.name name ≡ false
      → forget_child name (c ∷ cs) ≡ c ∷ forget_child name cs
  unfolding forget_child
  without_there name c cs e =
      ap (λ b. if b then forget_child name cs else c ∷ forget_child name cs) e

  -- What was not there is not there after another is forgotten.
  find-forget_child :
      (name other : Text) (cs : List (Child F))
      → find name cs ≡ none
      → find name (forget_child other cs) ≡ none
  unfolding forget_child find
  find-forget_child name other [] h = refl
  find-forget_child name other (c ∷ cs) h =
      let a = find_absent name c cs h in
      let rest = find-forget_child name other cs a.1 in
      elim (Bool-cases (text_eq c.name other)) [
        | inl e ↦ ap (find name) (without_here other c cs e) ∙ rest
        | inr e ↦
            ap (find name) (without_there other c cs e)
            ∙ find_beyond name c (forget_child other cs) a.0
            ∙ rest
      ]

  pub forget_child-Once :
      (name : Text) (cs : List (Child F)) → Once cs → Once (forget_child name cs)
  unfolding forget_child
  forget_child-Once name [] o = tt
  forget_child-Once name (c ∷ cs) o =
      let rest = forget_child-Once name cs o.1 in
      elim (Bool-cases (text_eq c.name name)) [
        | inl e ↦ subst Once (sym (without_here name c cs e)) rest
        | inr e ↦
            subst Once (sym (without_there name c cs e))
              (find-forget_child c.name name cs o.0, rest)
      ]

  without_absent :
      (name : Text) (cs : List (Child F)) → find name cs ≡ none → forget_child name cs ≡ cs
  unfolding forget_child
  without_absent name [] h = refl
  without_absent name (c ∷ cs) h =
      let a = find_absent name c cs h in
      without_there name c cs a.0 ∙ ap (λ ds. c ∷ ds) (without_absent name cs a.1)

  -- Where the forgotten child rests, the phases are what they were.
  pub forget_child-phase_in :
      (name other : Text) (cs : List (Child F))
      → Once cs
      → phase_in other cs ≡ resting
      → phase_in name (forget_child other cs) ≡ phase_in name cs
  unfolding forget_child
  forget_child-phase_in name other [] o r = refl
  forget_child-phase_in name other (c ∷ cs) o r = elim (Bool-cases (text_eq c.name other)) [
    | inl e ↦
        let gone = subst (λ n. find n cs ≡ none) (text_eq→eq c.name other e) o.0 in
        ap (phase_in name) (without_here other c cs e ∙ without_absent other cs gone)
        ∙ elim (Bool-cases (text_eq c.name name)) [
          | inl k ↦
              let same_name = text_eq→eq c.name name k in
              ap phase_or (subst (λ n. find n cs ≡ none) same_name o.0)
              ∙ sym (phase_in-here name c cs k ∙ sym (phase_in-here other c cs e) ∙ r)
          | inr k ↦ sym (phase_in-there name c cs k)
        ]
    | inr e ↦ elim (Bool-cases (text_eq c.name name)) [
      | inl k ↦
          ap (phase_in name) (without_there other c cs e)
          ∙ phase_in-here name c (forget_child other cs) k
          ∙ sym (phase_in-here name c cs k)
      | inr k ↦
          ap (phase_in name) (without_there other c cs e)
          ∙ phase_in-there name c (forget_child other cs) k
          ∙ forget_child-phase_in name other cs o.1 (sym (phase_in-there other c cs e) ∙ r)
          ∙ sym (phase_in-there name c cs k)
    ]
  ]
