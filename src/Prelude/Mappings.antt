-- ===== src/Prelude/Mappings.antt =====
-- Python's dict from names as an association list.
use mathlib.Core.Path.{◌≡◌}
use mathlib.Core.Bool.{false}
use mathlib.Core.Option.{Option, none, some}
use mathlib.Core.Logic.{inl, inr}
use mathlib.Core.List.{List, [], ◌∷◌}
use send_to_influx.Prelude.Tests.{if◌then◌else◌, Bool-cases}
use send_to_influx.Prelude.Texts.{Text, text_eq, text_eq_self, text_eq→eq}

-- `dict.get`
unfoldable pub get : {A : Type 0} → Text → List (Text × A) → Option A
get name [] = none
get name ((n, a) ∷ rest) = if text_eq n name then some a else get name rest

-- `mapping[name] = a`: a name that is there keeps its place.
unfoldable pub put : {A : Type 0} → Text → A → List (Text × A) → List (Text × A)
put name a [] = (name, a) ∷ []
put name a ((n, b) ∷ rest) =
    let later = put name a rest in if text_eq n name then (n, a) ∷ rest else (n, b) ∷ later

-- A dict has every key once.
abbrev pub Distinct : {A : Type 0} → List (Text × A) → Type 0
Distinct [] = Unit
Distinct ((name, a) ∷ rest) = (get name rest ≡ none) × Distinct rest

module _ {A : Type 0} where
  pub get-put : (name : Text) (a : A) (xs : List (Text × A)) → get name (put name a xs) ≡ some a
  unfolding get put
  get-put name a [] = rw (text_eq_self name)
  get-put name a ((n, b) ∷ rest) = elim (Bool-cases (text_eq n name)) [
    | inl e ↦ rw e (rw e)
    | inr e ↦ rw e (rw e (get-put name a rest))
  ]

  pub get-put_other :
      (name other : Text) (a : A) (xs : List (Text × A))
      → text_eq name other ≡ false
      → get other (put name a xs) ≡ get other xs
  unfolding get put
  get-put_other name other a [] h = rw h
  get-put_other name other a ((n, b) ∷ rest) h = elim (Bool-cases (text_eq n name)) [
    | inl e ↦ rw e (rw (text_eq→eq n name e) (rw h))
    | inr e ↦ rw e (elim (Bool-cases (text_eq n other)) [
      | inl e' ↦ rw e'
      | inr e' ↦ rw e' (get-put_other name other a rest h)
    ])
  ]
