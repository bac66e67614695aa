-- ===== src/Supervision/Reports.antt =====
-- Which controls the reports of toinflux/supervision.py say were reloaded, and what loops over the
-- children report.
use send_to_influx.Prelude.{
  ◌≡◌, refl, ◌∙◌, ap, subst, Bool, true, false, Bool-cases, inl, inr, none, some, List, [], ◌∷◌,
  ◌++◌, if◌then◌else◌, Text, text_eq, text_eq→eq, append-nil, arith,
}
use send_to_influx.Supervision.{
  Child, EventKind, Reported, reloaded, dropped, disabled, reload_failed, Done,
}
use send_to_influx.Supervision.Turns.{Turn, find, each_child, only, then_turn, for_each}
use send_to_influx.Supervision.Lawful.{Once}

-- The events that say how a reload ended.
abbrev pub ends_reload : EventKind → Bool
ends_reload reloaded = true
ends_reload dropped = true
ends_reload disabled = true
ends_reload reload_failed = true
ends_reload kind = false

-- The names of the controls whose reload ended, in the order of the reports.
unfoldable pub reload_names : List Reported → List Text
reload_names [] = []
reload_names (r ∷ rs) =
    let later = reload_names rs in if ends_reload r.kind then r.name ∷ later else later

pub reload_names-append :
    (rs ss : List Reported) → reload_names (rs ++ ss) ≡ reload_names rs ++ reload_names ss
unfolding reload_names
reload_names-append [] ss = refl
reload_names-append (r ∷ rs) ss = elim (Bool-cases (ends_reload r.kind)) [
  | inl e ↦ rw e (ap (λ ns. r.name ∷ ns) (reload_names-append rs ss))
  | inr e ↦ rw e (reload_names-append rs ss)
]

pub then_quiet :
    (rs ss : List Reported) (ns : List Text)
    → reload_names rs ≡ ns
    → reload_names ss ≡ []
    → reload_names (rs ++ ss) ≡ ns
then_quiet rs ss ns h k =
    reload_names-append rs ss
    ∙ ap (λ xs. xs ++ reload_names ss) h
    ∙ ap (λ ys. ns ++ ys) k
    ∙ append-nil ns

pub quiet_then :
    (rs ss : List Reported) (ns : List Text)
    → reload_names rs ≡ []
    → reload_names ss ≡ ns
    → reload_names (rs ++ ss) ≡ ns
quiet_then rs ss ns h k = reload_names-append rs ss ∙ ap (λ xs. xs ++ reload_names ss) h ∙ k

module _ {F : Type 0} where
  -- A loop over children none of which ends a reload.
  pub each_child_quiet :
      (f : Child F → Done F)
      → ((c : Child F) → reload_names (f c).events ≡ [])
      → (cs : List (Child F)) → reload_names (each_child f cs).events ≡ []
  unfolding each_child reload_names
  each_child_quiet f q [] = refl
  each_child_quiet f q (c ∷ cs) = quiet_then (f c).events _ [] (q c) (each_child_quiet f q cs)

  pub for_each_quiet :
      (g : Text → List (Child F) → Turn F)
      → ((name : Text) (cs : List (Child F)) → reload_names (g name cs).events ≡ [])
      → (names : List Text) (cs : List (Child F)) → reload_names (for_each g names cs).events ≡ []
  unfolding for_each reload_names
  for_each_quiet g q [] cs = refl
  for_each_quiet g q (name ∷ names) cs =
      let first = g name cs in
      quiet_then first.events (for_each g names first.children).events [] (q name cs)
        (for_each_quiet g q names first.children)

  pub then_turn_quiet :
      (t : Turn F) (g : List (Child F) → Turn F) (ns : List Text)
      → reload_names t.events ≡ ns
      → ((cs : List (Child F)) → reload_names (g cs).events ≡ [])
      → reload_names (then_turn t g).events ≡ ns
  then_turn_quiet t g ns h k = then_quiet t.events (g t.children).events ns h (k t.children)

  pub only_quiet :
      (name : Text) (f : Child F → Done F)
      → ((c : Child F) → reload_names (f c).events ≡ [])
      → (c : Child F) → reload_names (only name f c).events ≡ []
  unfolding reload_names
  only_quiet name f q c = elim (Bool-cases (text_eq c.name name)) [
    | inl e ↦ rw e (q c)
    | inr e ↦ rw e refl
  ]

  -- The operation on a child that is known by no other name.
  absent_quiet :
      (name : Text) (f : Child F → Done F) (cs : List (Child F))
      → find name cs ≡ none
      → reload_names (each_child (only name f) cs).events ≡ []
  unfolding each_child reload_names find
  absent_quiet name f [] h = refl
  absent_quiet name f (c ∷ cs) h = elim (Bool-cases (text_eq c.name name)) [
    | inl e ↦ ground (arith, rw e at h)
    | inr e ↦ rw e (absent_quiet name f cs (rw e at h))
  ]

  pub known_names :
      (name : Text) (f : Child F → Done F)
      → ((c : Child F) → reload_names (f c).events ≡ c.name ∷ [])
      → (cs : List (Child F)) (d : Child F) → Once cs
      → find name cs ≡ some d
      → reload_names (each_child (only name f) cs).events ≡ name ∷ []
  unfolding each_child find
  known_names name f g [] d o h = ground (arith, h)
  known_names name f g (c ∷ cs) d o h = elim (Bool-cases (text_eq c.name name)) [
    | inl e ↦
        let same_name = text_eq→eq c.name name e in
        rw e (
          then_quiet (f c).events _ (name ∷ []) (g c ∙ ap (λ n. n ∷ []) same_name)
            (absent_quiet name f cs (subst (λ n. find n cs ≡ none) same_name o.0)))
    | inr e ↦ rw e (known_names name f g cs d o.1 (rw e at h))
  ]

  pub find-last :
      (name : Text) (fresh : Child F) (cs : List (Child F))
      → text_eq fresh.name name ≡ true
      → find name cs ≡ none
      → find name (cs ++ fresh ∷ []) ≡ some fresh
  unfolding find
  find-last name fresh [] e h = rw e refl
  find-last name fresh (c ∷ cs) e h = elim (Bool-cases (text_eq c.name name)) [
    | inl k ↦ ground (arith, rw k at h)
    | inr k ↦ rw k (find-last name fresh cs e (rw k at h))
  ]
