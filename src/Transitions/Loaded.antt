-- ===== src/Transitions/Loaded.antt =====
-- What `_usable_entries` of toinflux/transitions.py keeps of a damaged file.
use send_to_influx.Prelude.{
  arith, inl, inr, ◌≡◌, refl, false, Option, none, some, List, [], ◌∷◌, Bool-cases, Text, text_eq,
  get,
}
use send_to_influx.Floats.{Floats}
use send_to_influx.Transitions.{
  usable_number, usable_identity, StoredEntry, LogEntry, Entries, usable_entries, usable_entry,
  with_entry,
}

module _ (fl : Floats) where
  open fl use {F, is_finite}

  -- An entry without the device.
  get-with_entry_other :
      (name d : Text) (o : Option (LogEntry fl)) (rest : Entries fl)
      → text_eq name d ≡ false
      → get d (with_entry fl name o rest) ≡ get d rest
  unfolding get
  get-with_entry_other name d none rest h = refl
  get-with_entry_other name d (some e) rest h = rw h refl

  -- Damage is confined to where it happens: whatever else the file holds, the entry of a device with
  -- a finite moment is kept with its state, its moment and its mark, and its identity as far as that
  -- is usable.
  pub usable_entries-keeps :
      (stored : List (Text × Option (StoredEntry fl))) (d : Text) (e : StoredEntry fl) (at : F)
      → get d stored ≡ some (some e)
      → usable_number fl e.at ≡ some at
      → get d (usable_entries fl stored)
        ≡ some (record {
          state = e.state;
          at = at;
          identity = usable_identity e.identity;
          forced = e.forced;
        })
  unfolding usable_entries get
  usable_entries-keeps [] d e at h k = cc
  usable_entries-keeps ((name, o) ∷ rest) d e at h k = elim (Bool-cases (text_eq name d)) [
    | inl same ↦
        let this : o ≡ some e = ground (arith, (rw same at h)) in
        rw this (rw (k, usable_entry) (rw same refl))
    | inr another ↦
        rw (get-with_entry_other name d (usable_entry fl o) (usable_entries fl rest) another)
          (usable_entries-keeps rest d e at (rw another at h) k)
  ]
