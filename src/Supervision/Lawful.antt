-- ===== src/Supervision/Lawful.antt =====
-- The operations of toinflux/supervision.py over all children take every control from the phase
-- that it has to the phase that they leave it in.
use send_to_influx.Prelude.{
  ◌≡◌, refl, sym, ◌∙◌, ap, subst, Bool, true, false, Bool-cases, inl, inr, Option, none, some, List,
  [], ◌∷◌, ◌++◌, if◌then◌else◌, Text, text_eq, text_eq→eq, arith,
}
use send_to_influx.Controls.Actuators.{Document}
use send_to_influx.Supervision.{Child, EventKind, Done, still}
use send_to_influx.Supervision.Turns.{Turn, find, each_child, only, then_turn, for_each, report}
use send_to_influx.Supervision.Phases.{
  phase_after, phase_after-append, phase_after-others, phase_of, Phase, resting,
}
use send_to_influx.Supervision.Kept.{Kept, still-Kept}

module _ {F : Type 0} where
  -- Every name at most once, as in a mapping.
  abbrev pub Once : List (Child F) → Type 0
  Once [] = Unit
  Once (c ∷ cs) = (find c.name cs ≡ none) × Once cs

  abbrev pub phase_or : Option (Child F) → Phase F
  phase_or none = resting
  phase_or (some c) = phase_of c

  -- The phase of a control: it rests where it is no child.
  abbrev pub phase_in : Text → List (Child F) → Phase F
  phase_in name cs = phase_or (find name cs)

  pub phase_in-here :
      (name : Text) (c : Child F) (cs : List (Child F))
      → text_eq c.name name ≡ true
      → phase_in name (c ∷ cs) ≡ phase_of c
  unfolding find
  phase_in-here name c cs e = ap phase_or (ap (λ b. if b then some c else find name cs) e)

  pub phase_in-there :
      (name : Text) (c : Child F) (cs : List (Child F))
      → text_eq c.name name ≡ false
      → phase_in name (c ∷ cs) ≡ phase_in name cs
  unfolding find
  phase_in-there name c cs e = ap phase_or (ap (λ b. if b then some c else find name cs) e)

-- After a turn every name is there once still, and what was done leads each control to its new
-- phase.
pub record Lawful {F : Type 0} (same : Document F → Document F → Bool) (cs : List (Child F))
    (t : Turn F) : Type 0 where
  pub once_left : Once t.children
  pub led :
      (name : Text)
      → phase_after same name t.effects (phase_in name cs) ≡ some (phase_in name t.children)

module _ {F : Type 0} (same : Document F → Document F → Bool) (f : Child F → Done F)
    (keeps : (c : Child F) → Kept same c (f c)) where
  find-each_child :
      (name : Text) (cs : List (Child F))
      → find name cs ≡ none
      → find name (each_child f cs).children ≡ none
  unfolding find each_child
  find-each_child name [] h = refl
  find-each_child name (c ∷ cs) h = elim (Bool-cases (text_eq c.name name)) [
    | inl e ↦ ground (arith, rw e at h)
    | inr e ↦ rw ((keeps c).name_kept, e) (find-each_child name cs (rw e at h))
  ]

  absent-phase_after :
      (name : Text) (cs : List (Child F)) (p : Phase F)
      → find name cs ≡ none
      → phase_after same name (each_child f cs).effects p ≡ some p
  unfolding find each_child phase_after
  absent-phase_after name [] p h = refl
  absent-phase_after name (c ∷ cs) p h = elim (Bool-cases (text_eq c.name name)) [
    | inl e ↦ ground (arith, rw e at h)
    | inr e ↦
        phase_after-append same name (f c).effects (each_child f cs).effects p p
          (phase_after-others same name c.name (f c).effects p (keeps c).about_it e)
        ∙ absent-phase_after name cs p (rw e at h)
  ]

  each_child-Once : (cs : List (Child F)) → Once cs → Once (each_child f cs).children
  unfolding each_child
  each_child-Once [] o = tt
  each_child-Once (c ∷ cs) o =
      (rw (keeps c).name_kept (find-each_child c.name cs o.0), each_child-Once cs o.1)

  each_child-led :
      (name : Text) (cs : List (Child F))
      → Once cs
      → phase_after same name (each_child f cs).effects (phase_in name cs)
        ≡ some (phase_in name (each_child f cs).children)
  unfolding find each_child phase_after
  each_child-led name [] o = refl
  each_child-led name (c ∷ cs) o = elim (Bool-cases (text_eq c.name name)) [
    | inl e ↦
        let k = keeps c in
        let later = each_child f cs in
        let same_name = text_eq→eq c.name name e in
        ap (λ p. phase_after same name ((f c).effects ++ later.effects) p)
          (phase_in-here name c cs e)
        ∙ phase_after-append same name (f c).effects later.effects (phase_of c)
            (phase_of (f c).child)
            (subst
              (λ n. phase_after same n (f c).effects (phase_of c) ≡ some (phase_of (f c).child))
              same_name k.phases)
        ∙ absent-phase_after name cs (phase_of (f c).child)
            (subst (λ n. find n cs ≡ none) same_name o.0)
        ∙ ap some (
            sym (
              phase_in-here name (f c).child later.children
                (ap (λ n. text_eq n name) k.name_kept ∙ e)))
    | inr e ↦
        let k = keeps c in
        let later = each_child f cs in
        ap (λ p. phase_after same name ((f c).effects ++ later.effects) p)
          (phase_in-there name c cs e)
        ∙ phase_after-append same name (f c).effects later.effects (phase_in name cs)
            (phase_in name cs)
            (phase_after-others same name c.name (f c).effects (phase_in name cs) k.about_it e)
        ∙ each_child-led name cs o.1
        ∙ ap some (
            sym (
              phase_in-there name (f c).child later.children
                (ap (λ n. text_eq n name) k.name_kept ∙ e)))
  ]

  pub each_child-Lawful : (cs : List (Child F)) → Once cs → Lawful same cs (each_child f cs)
  each_child-Lawful cs o = record {
    once_left = each_child-Once cs o;
    led = λ name. each_child-led name cs o;
  }

module _ {F : Type 0} (same : Document F → Document F → Bool) where
  pub report-Lawful :
      (kind : EventKind) (name : Text) (cs : List (Child F))
      → Once cs
      → Lawful same cs (report kind name cs)
  unfolding phase_after
  report-Lawful kind name cs o = record { once_left = o; led = λ n. refl }

  pub then_turn-Lawful :
      (cs : List (Child F)) (t : Turn F) (g : List (Child F) → Turn F)
      → Lawful same cs t
      → ((ds : List (Child F)) → Once ds → Lawful same ds (g ds))
      → Lawful same cs (then_turn t g)
  then_turn-Lawful cs t g l m = record {
    once_left = (m t.children l.once_left).once_left;
    led = λ name.
        phase_after-append same name t.effects (g t.children).effects (phase_in name cs)
          (phase_in name t.children) (l.led name)
        ∙ (m t.children l.once_left).led name;
  }

  pub for_each-Lawful :
      (g : Text → List (Child F) → Turn F)
      → ((name : Text) (ds : List (Child F)) → Once ds → Lawful same ds (g name ds))
      → (names : List Text) (cs : List (Child F)) → Once cs
      → Lawful same cs (for_each g names cs)
  unfolding for_each phase_after
  for_each-Lawful g m [] cs o = record { once_left = o; led = λ n. refl }
  for_each-Lawful g m (name ∷ names) cs o =
      then_turn-Lawful cs (g name cs) (for_each g names) (m name cs o)
        (λ ds p. for_each-Lawful g m names ds p)

  pub only-Kept :
      (name : Text) (f : Child F → Done F)
      → ((c : Child F) → Kept same c (f c))
      → (same_self : (d : Document F) → same d d ≡ true) → (c : Child F)
      → Kept same c (only name f c)
  only-Kept name f k same_self c = elim (Bool-cases (text_eq c.name name)) [
    | inl e ↦ subst (λ d. Kept same c d) (sym (ap (λ b. if b then f c else still c) e)) (k c)
    | inr e ↦
        subst (λ d. Kept same c d) (sym (ap (λ b. if b then f c else still c) e))
          (still-Kept same same_self c)
  ]
