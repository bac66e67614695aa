-- ===== src/Staging/Plan/Held.antt =====
-- What `_holding` of toinflux/staging.py commands.
use send_to_influx.Prelude.{
  inl, inr, ◌≡◌, refl, ap, ◌∙◌, Option, none, some, List, [], ◌∷◌, Bool-cases, Text, text_eq,
  text_eq→eq, ℕ, Distinct, get, put, get-put, get-put_other,
}
use send_to_influx.Floats.{Floats}
use send_to_influx.Controls.{State, value}
use send_to_influx.Staging.{States, Stage}
use send_to_influx.Staging.Plan.{merged, holding}

module _ (fl : Floats) (sum : List fl.F → fl.F) (of_count : ℕ → fl.F) where
  open fl use {F}

  -- The value that a device is held at, or else what it had.
  abbrev pub held_or : Option F → Option (State F) → Option (State F)
  held_or none before = before
  held_or (some x) before = some (value x)

  pub get-merged :
      (values : List (Text × F)) (states : States fl) (name : Text)
      → Distinct values
      → get name (merged fl sum of_count values states)
        ≡ held_or (get name values) (get name states)
  unfolding merged get
  get-merged [] states name u = refl
  get-merged ((d, x) ∷ values) states name u =
      let ih = get-merged values (put d (value x) states) name u.1 in
      elim (Bool-cases (text_eq d name)) [
        | inl e ↦
            let same = text_eq→eq d name e in
            let unheld : get name values ≡ none = rw same at u.0 in
            let stored : get name (put d (value x) states) ≡ some (value x) =
              rw same (get-put name (value x) states) in
            rw e (ih ∙ rw unheld stored)
        | inr e ↦
            rw e (ih ∙ ap (held_or (get name values)) (get-put_other d name (value x) states e))
      ]

  -- A held rung commands every device with a value to that value, and every other device as the rung
  -- declares.
  pub holding-get :
      (stage : Stage fl) (values : List (Text × F)) (name : Text)
      → Distinct values
      → get name (holding fl sum of_count stage values).states
        ≡ held_or (get name values) (get name stage.states)
  unfolding holding get
  holding-get stage [] name u = refl
  holding-get stage (v ∷ values) name u = get-merged (v ∷ values) stage.states name u
