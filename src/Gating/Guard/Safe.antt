-- ===== src/Gating/Guard/Safe.antt =====
-- What `commands_for` of toinflux/gating.py commands.
use send_to_influx.Prelude.{
  inl, inr, ◌≡◌, refl, ap, Bool, false, some, List, [], ◌∷◌, All, Bool-cases, Option-cases, arith,
  Text, text_eq, not, ◌||◌,
}
use send_to_influx.Floats.{Floats}
use send_to_influx.Controls.{
  Setting, text, number, State, switch, value, DeviceSpec, parameter_of, unenergised, energised,
  leave_unchanged,
}
use send_to_influx.Gating.Guard.{
  Commands, Devices, Prepared, ok, refused, each, each_or_refused, number_command, off_command,
  on_command, commands_for, ◌>>=◌,
}

abbrev pub names_of : {A : Type 0} → List (Text × A) → List Text
names_of [] = []
names_of ((name, a) ∷ rest) = name ∷ names_of rest

-- Where a step and what follows it succeed, the step did.
pub >>=-eq-ok :
    {A B : Type 0} (first : Prepared A) (k : A → Prepared B) {y : B}
    → (first >>= k) ≡ ok y
    → (x : A) × (first ≡ ok x) × (k x ≡ ok y)
>>=-eq-ok (ok x) k e = (x, refl, e)
>>=-eq-ok (refused p) k e = cc

module _ (fl : Floats) (blank : Text → Bool) where
  open fl use {F, zero_float}

  -- A state that energises nothing.
  abbrev pub IsOff : Text × State F → Type 0
  IsOff (name, switch b) = b ≡ false
  IsOff (name, value x) = x ≡ zero_float

  each-names :
      (f : DeviceSpec F → State F) (ds : Devices fl blank)
      → names_of (each fl blank f ds) ≡ names_of ds
  unfolding each
  each-names f [] = refl
  each-names f ((name, d) ∷ rest) = ap (λ ns. name ∷ ns) (each-names f rest)

  each_or_refused-names :
      (f : DeviceSpec F → Prepared (State F)) (ds : Devices fl blank) (cs : Commands fl blank)
      → each_or_refused fl blank f ds ≡ ok cs
      → names_of cs ≡ names_of ds
  unfolding each_or_refused
  each_or_refused-names f [] cs h = ground arith
  each_or_refused-names f ((name, d) ∷ rest) cs h =
      let (s, hs, h') = >>=-eq-ok (f d) _ h in
      let (others, ho, h'') = >>=-eq-ok (each_or_refused fl blank f rest) _ h' in
      let same : cs ≡ (name, s) ∷ others = ground arith in
      rw same (ap (λ ns. name ∷ ns) (each_or_refused-names f rest others ho))

  off_command-IsOff : (name : Text) (d : DeviceSpec F) → IsOff (name, off_command fl blank d)
  unfolding off_command
  off_command-IsOff name d = elim (Option-cases (parameter_of blank d)) [
    | inl e ↦ rw (e, off_command) refl
    | inr (p, e) ↦ rw (e, off_command) refl
  ]

  each-IsOff : (ds : Devices fl blank) → All IsOff (each fl blank (off_command fl blank) ds)
  unfolding each
  each-IsOff [] = tt
  each-IsOff ((name, d) ∷ rest) = (off_command-IsOff name d, each-IsOff rest)

  prepared_names :
      {ns : List Text} (cs' cs : Commands fl blank)
      → names_of cs' ≡ ns
      → Prepared.ok (some cs') ≡ ok (some cs)
      → names_of cs ≡ ns
  prepared_names cs' cs e h = ground arith

  -- Whatever state is asked for, the commands that are prepared name exactly the control's devices,
  -- in the order of its section.
  pub commands_for-names :
      (s : Setting F) (ds : Devices fl blank) (cs : Commands fl blank)
      → commands_for fl blank s ds ≡ ok (some cs)
      → names_of cs ≡ names_of ds
  unfolding commands_for
  commands_for-names (number x) ds cs h =
      elim (Bool-cases (not (fl.is_finite x) || fl.lt x zero_float)) [
        | inl e ↦ cc (rw e at h)
        | inr e ↦ prepared_names _ cs (each-names (number_command fl blank x) ds) (rw e at h)
      ]
  commands_for-names (text t) ds cs h = elim (Bool-cases (text_eq t leave_unchanged)) [
    | inl e ↦ cc (rw e at h)
    | inr e ↦ elim (Bool-cases (text_eq t unenergised)) [
      | inl e' ↦ prepared_names _ cs (each-names (off_command fl blank) ds) (rw (e, e') at h)
      | inr e' ↦ elim (Bool-cases (text_eq t energised)) [
        | inl e'' ↦
            let (others, ho, h') =
              >>=-eq-ok (each_or_refused fl blank (on_command fl blank) ds) _
                (rw (e, e', e'') at h) in
            prepared_names others cs (each_or_refused-names (on_command fl blank) ds others ho) h'
        | inr e'' ↦ cc (rw (e, e', e'') at h)
      ]
    ]
  ]
  commands_for-names s ds cs h = cc

  -- `unenergised` commands every device of the control off, a switch to false and a driven device to
  -- zero: whatever the devices are, nothing is energised and nothing is refused.
  pub unenergised-IsOff :
      (ds : Devices fl blank)
      → (cs : Commands fl blank) × (commands_for fl blank (text unenergised) ds ≡ ok (some cs))
        × All IsOff cs
        × (names_of cs ≡ names_of ds)
  unfolding commands_for text_eq
  unenergised-IsOff ds = (
    each fl blank (off_command fl blank) ds,
    refl,
    each-IsOff ds,
    each-names (off_command fl blank) ds,
  )
