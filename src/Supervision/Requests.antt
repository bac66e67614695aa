-- ===== src/Supervision/Requests.antt =====
-- The requests to reload a control and the end of a supervisor, of toinflux/supervision.py.
use send_to_influx.Prelude.{
  ℕ, ◌≡◌, refl, sym, ◌∙◌, ap, Bool, true, false, false≢true, ◌&&◌, ◌||◌, Bool-cases, inl, inr, List,
  [], ◌∷◌, ◌++◌, if◌then◌else◌, Text, text_eq, text_eq→eq, text_eq_self, contains, arith,
}
use send_to_influx.Floats.{Floats}
use send_to_influx.Controls.Actuators.{Document}
use send_to_influx.Supervision.{Child, Effect, World}
use send_to_influx.Supervision.Passes.{Pass, poll, end_all}
use send_to_influx.Supervision.Turns.{once_each}

-- `Supervisor`: `requests` is the queue `_reload_requests`.
pub record Supervisor (F : Type 0) : Type 0 where
  pub children : List (Child F)
  pub requests : List Text
  pub stopped : Bool
  pub finished : Bool

pub data Teardown : Type 0 where
  not_begun under_way over : Teardown

module _ {F : Type 0} where
  -- `request_reload`
  unfoldable pub request_reload : Text → Supervisor F → Supervisor F
  request_reload name s = if s.stopped then s else record s { requests = s.requests ++ name ∷ [] }

  -- `teardown`
  unfoldable pub teardown : Supervisor F → Teardown
  teardown s = if s.stopped then (if s.finished then over else under_way) else not_begun

module _ (fl : Floats) (blank : Text → Bool) (same : Document fl.F → Document fl.F → Bool)
    (backoff : ℕ → fl.F) where
  open fl use {F}

  -- `poll` takes the whole queue.
  unfoldable pub pass_once : Pass F → Supervisor F → Supervisor F × List (Effect F)
  unfolding poll
  pass_once p s =
      let t = poll fl blank same backoff p s.requests s.children in
      (record s { children = t.children; requests = [] }, t.effects)

  -- `stop_all`
  unfoldable pub stop_all : (Text → World F) → Supervisor F → Supervisor F × List (Effect F)
  unfolding end_all
  stop_all ws s =
      let t = end_all fl blank same backoff ws s.children in
      if s.stopped
      then (s, [])
      else (record s { children = t.children; stopped = true; finished = true }, t.effects)

  stopped_already :
      (ws : Text → World F) (s : Supervisor F) → s.stopped ≡ true → stop_all ws s ≡ (s, [])
  unfolding stop_all
  stopped_already ws s e =
      let t = end_all fl blank same backoff ws s.children in
      ap
        (λ b.
          if b
          then (s, [])
          else (record s { children = t.children; stopped = true; finished = true }, t.effects))
        e

  -- After one call of `stop_all` another does nothing, whatever the world is then, and a request to
  -- reload is not taken; where the first call was the one that stopped it, the end is over.
  pub stop_all-stop_all :
      (ws vs : Text → World F) (s : Supervisor F) (name : Text)
      → (stop_all vs (stop_all ws s).0 ≡ ((stop_all ws s).0, []))
        × ((request_reload name (stop_all ws s).0 ≡ (stop_all ws s).0)
            × (s.stopped ≡ false → teardown (stop_all ws s).0 ≡ over))
  unfolding stop_all request_reload teardown
  stop_all-stop_all ws vs s name = elim (Bool-cases s.stopped) [
    | inl e ↦
        let q = stopped_already ws s e in
        (
          ap (λ (r : Supervisor F × List (Effect F)). stop_all vs r.0) q
              ∙ stopped_already vs s e
              ∙ ap (λ (r : Supervisor F × List (Effect F)). (r.0, [])) (sym q),
          (
            ap (λ (r : Supervisor F × List (Effect F)). request_reload name r.0) q
                ∙ ap (λ b. if b then s else record s { requests = s.requests ++ name ∷ [] }) e
                ∙ ap (λ (r : Supervisor F × List (Effect F)). r.0) (sym q),
            λ h. absurd (false≢true (sym h ∙ e)),
          ),
        )
    | inr e ↦ rw (e, stop_all) (refl, (refl, λ h. refl))
  ]

contains-append :
    (xs ys : List Text) (n : Text) → contains (xs ++ ys) n ≡ (contains xs n || contains ys n)
unfolding contains
contains-append [] ys n = refl
contains-append (x ∷ xs) ys n = ground (arith, contains-append xs ys n)

seen_again :
    (seen : List Text) (m n : Text)
    → contains seen m ≡ true
    → text_eq m n ≡ true
    → contains seen n ≡ true
seen_again seen m n e t = ap (contains seen) (sym (text_eq→eq m n t)) ∙ e

kept_or_seen :
    (seen ns : List Text) (n : Text)
    → (contains seen n || contains (once_each seen ns) n) ≡ (contains seen n || contains ns n)
unfolding once_each contains
kept_or_seen seen [] n = refl
kept_or_seen seen (m ∷ ns) n = elim (Bool-cases (contains seen m)) [
  | inl e ↦
      rw (e, once_each)
        (elim (Bool-cases (text_eq m n)) [
          | inl t ↦ rw (seen_again seen m n e t) refl
          | inr t ↦ rw t (kept_or_seen seen ns n)
        ])
  | inr e ↦
      rw (e, once_each)
        (ground (arith, kept_or_seen (seen ++ m ∷ []) ns n, contains-append seen (m ∷ []) n))
]

-- What is kept was not seen.
kept_new :
    (seen ns : List Text) (n : Text) → (contains seen n && contains (once_each seen ns) n) ≡ false
unfolding once_each contains
kept_new seen [] n = ground arith
kept_new seen (m ∷ ns) n = elim (Bool-cases (contains seen m)) [
  | inl e ↦ rw (e, once_each) (kept_new seen ns n)
  | inr e ↦
      rw (e, once_each)
        (elim (Bool-cases (text_eq m n)) [
          | inl t ↦ rw t (
              let no : contains seen n ≡ false = ap (contains seen) (sym (text_eq→eq m n t)) ∙ e in
              rw no refl)
          | inr t ↦
              rw t
                (ground (arith, t, kept_new (seen ++ m ∷ []) ns n, contains-append seen (m ∷ []) n))
        ])
]

-- Every name at most once.
abbrev pub NoRepeats : List Text → Type 0
NoRepeats [] = Unit
NoRepeats (n ∷ ns) = (contains ns n ≡ false) × NoRepeats ns

once_each-NoRepeats : (seen ns : List Text) → NoRepeats (once_each seen ns)
unfolding once_each contains
once_each-NoRepeats seen [] = tt
once_each-NoRepeats seen (m ∷ ns) = elim (Bool-cases (contains seen m)) [
  | inl e ↦ rw (e, once_each) (once_each-NoRepeats seen ns)
  | inr e ↦
      rw (e, once_each)
        (
          ground (
            arith,
            kept_new (seen ++ m ∷ []) ns m,
            contains-append seen (m ∷ []) m,
            text_eq_self m,
          ),
          once_each-NoRepeats (seen ++ m ∷ []) ns,
        )
]

seen_or_waiting :
    (seen ns : List Text) (m n : Text)
    → contains seen m ≡ true
    → (contains seen n || contains ns n) ≡ (contains seen n || contains (m ∷ ns) n)
unfolding contains
seen_or_waiting seen ns m n e = elim (Bool-cases (text_eq m n)) [
  | inl t ↦ rw (seen_again seen m n e t) refl
  | inr t ↦ rw t refl
]

-- One request more.
once_each-append :
    (seen ns : List Text) (n : Text)
    → once_each seen (ns ++ n ∷ [])
      ≡ once_each seen ns ++ (if contains seen n || contains ns n then [] else n ∷ [])
unfolding once_each contains
once_each-append seen [] n = elim (Bool-cases (contains seen n)) [
  | inl e ↦ rw (e, once_each) refl
  | inr e ↦ rw (e, once_each) refl
]
once_each-append seen (m ∷ ns) n = elim (Bool-cases (contains seen m)) [
  | inl e ↦
      rw (e, once_each)
        (once_each-append seen ns n
          ∙ ap (λ b. once_each seen ns ++ (if b then [] else n ∷ []))
              (seen_or_waiting seen ns m n e))
  | inr e ↦
      rw (e, once_each)
        (ap (λ ms. m ∷ ms)
          (once_each-append (seen ++ m ∷ []) ns n
            ∙ ap (λ b. once_each (seen ++ m ∷ []) ns ++ (if b then [] else n ∷ []))
                (ground (arith, contains-append seen (m ∷ []) n))))
]

-- Each name once, where it came first: one more adds its name at the end, unless it is there.
pub once_each_queue :
    (requests : List Text) (name : Text)
    → (contains (once_each [] requests) name ≡ contains requests name)
      × (NoRepeats (once_each [] requests)
          × (once_each [] (requests ++ name ∷ [])
              ≡ once_each [] requests ++ (if contains requests name then [] else name ∷ [])))
unfolding contains
once_each_queue requests name = (
  kept_or_seen [] requests name,
  (once_each-NoRepeats [] requests, once_each-append [] requests name),
)
