-- ===== src/Supervision/Turns.antt =====
-- Loops of toinflux/supervision.py over the children, with what they do and report.
use send_to_influx.Prelude.{
  Option, none, some, List, [], ◌∷◌, ◌++◌, if◌then◌else◌, Text, text_eq, contains,
}
use send_to_influx.Supervision.{Child, EventKind, Reported, Effect, Done, still}

-- The children that are left, what was done, and what was reported.
pub record Turn (F : Type 0) : Type 0 where
  pub children : List (Child F)
  pub effects : List (Effect F)
  pub events : List Reported

module _ {F : Type 0} where
  unfoldable pub find : Text → List (Child F) → Option (Child F)
  find name [] = none
  find name (c ∷ cs) = if text_eq c.name name then some c else find name cs

  -- `del self.children[name]`
  unfoldable pub forget_child : Text → List (Child F) → List (Child F)
  forget_child name [] = []
  forget_child name (c ∷ cs) =
      let rest = forget_child name cs in if text_eq c.name name then rest else c ∷ rest

  -- A loop over the children.
  unfoldable pub each_child : (Child F → Done F) → List (Child F) → Turn F
  each_child f [] = record { children = []; effects = []; events = [] }
  each_child f (c ∷ cs) =
      let done = f c in
      let later = each_child f cs in
      record {
        children = done.child ∷ later.children;
        effects = done.effects ++ later.effects;
        events = done.events ++ later.events;
      }

  -- An operation on the child of a name.
  abbrev pub only : Text → (Child F → Done F) → Child F → Done F
  only name f c = if text_eq c.name name then f c else still c

  abbrev pub then_turn : Turn F → (List (Child F) → Turn F) → Turn F
  then_turn t f =
      let later = f t.children in
      record {
        children = later.children;
        effects = t.effects ++ later.effects;
        events = t.events ++ later.events;
      }

  abbrev pub report : EventKind → Text → List (Child F) → Turn F
  report kind name children = record {
    children = children;
    effects = [];
    events = record { kind = kind; name = name } ∷ [];
  }

  -- One after the other, for every name.
  unfoldable pub for_each : (Text → List (Child F) → Turn F) → List Text → List (Child F) → Turn F
  for_each f [] children = record { children = children; effects = []; events = [] }
  for_each f (name ∷ names) children = then_turn (f name children) (for_each f names)

-- A name once, where it came first.
unfoldable pub once_each : List Text → List Text → List Text
once_each seen [] = []
once_each seen (n ∷ ns) =
    let fresh = once_each (seen ++ n ∷ []) ns in
    let rest = once_each seen ns in if contains seen n then rest else n ∷ fresh
