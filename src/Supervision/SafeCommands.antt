-- ===== src/Supervision/SafeCommands.antt =====
-- What the supervisor of toinflux/supervision.py commands to make the devices of a document safe.
use send_to_influx.Prelude.{
  ℕ, ◌≡◌, ◌⊎◌, refl, ◌∙◌, ap, inl, inr, Bool, some, List, [], ◌∷◌, Text, All,
}
use send_to_influx.Floats.{Floats}
use send_to_influx.Controls.{Setting, missing, text, unenergised}
use send_to_influx.Controls.Actuators.{Document, DeviceEntry}
use send_to_influx.Gating.Guard.{Commands, ok, commands_for}
use send_to_influx.Gating.Guard.Safe.{IsOff, names_of, unenergised-IsOff}
use send_to_influx.Supervision.{safe_of, devices_of, safe_commands}

module _ (fl : Floats) (blank : Text → Bool) (same : Document fl.F → Document fl.F → Bool)
    (backoff : ℕ → fl.F) where
  open fl use {F}

  abbrev pub entry_names : List (DeviceEntry F) → List Text
  entry_names [] = []
  entry_names (e ∷ es) = e.name ∷ entry_names es

  devices_of-names :
      (es : List (DeviceEntry F)) → names_of (devices_of fl blank same backoff es) ≡ entry_names es
  unfolding devices_of
  devices_of-names [] = refl
  devices_of-names (e ∷ es) = ap (λ ns. e.name ∷ ns) (devices_of-names es)

  safe_of_default :
      (s : Setting F)
      → (s ≡ missing) ⊎ (s ≡ text unenergised)
      → safe_of fl blank same backoff s ≡ text unenergised
  safe_of_default s (inl e) = ap (safe_of fl blank same backoff) e
  safe_of_default s (inr e) = ap (safe_of fl blank same backoff) e

  -- Where a document names no safe state, or the state `unenergised`, making it safe is not refused and
  -- commands every device of it off, each once and in the order of its section.
  pub safe_commands-IsOff :
      (d : Document F)
      → (d.safe_state ≡ missing) ⊎ (d.safe_state ≡ text unenergised)
      → (cs : Commands fl blank) × ((safe_commands fl blank same backoff d ≡ ok (some cs))
          × (All (IsOff fl blank) cs × (names_of cs ≡ entry_names d.entries)))
  unfolding safe_commands
  safe_commands-IsOff d h =
      let (cs, prepared, off, named) =
        unenergised-IsOff fl blank (devices_of fl blank same backoff d.entries) in
      (
        cs,
        (
          ap (λ s. commands_for fl blank s (devices_of fl blank same backoff d.entries))
                (safe_of_default d.safe_state h)
              ∙ prepared,
          (off, named ∙ devices_of-names d.entries),
        ),
      )
