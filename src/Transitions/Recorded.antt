-- ===== src/Transitions/Recorded.antt =====
-- What `record` of toinflux/transitions.py leaves in the log, and what `frozen` makes of it.
use send_to_influx.Prelude.{
  inl, inr, ◌≡◌, refl, sym, ap, ◌∙◌, Bool, true, false, not, ◌&&◌, Option, none, some, List, [],
  ◌∷◌, Bool-cases, if◌then◌else◌, arith, Text, text_eq, text_eq_self, text_eq→eq, Distinct,
  contains, get, put, get-put, get-put_other,
}
use send_to_influx.Floats.{Floats}
use send_to_influx.Controls.{State, switch, value}
use send_to_influx.Transitions.{
  Identity, pairs_eq, identity_eq, LogEntry, Entries, clamped, elapsed, released, is_other_device,
  is_held, frozen, as_stored, stored_eq, or_empty, noted, record_all, record_commands,
}

pairs_eq_self : (p : Identity) → pairs_eq p p ≡ true
unfolding pairs_eq
pairs_eq_self [] = refl
pairs_eq_self ((k, v) ∷ p) = rw (text_eq_self k, text_eq_self v) (pairs_eq_self p)

identity_eq_self : (o : Option Identity) → identity_eq o o ≡ true
unfolding identity_eq
identity_eq_self none = refl
identity_eq_self (some p) = pairs_eq_self p

module _ (fl : Floats) where
  open fl use {F, lt, eq, sub, is_nan}

  noted_unchanged :
      (moment : F) (forced : Bool) (s : State F) (identity : Option Identity)
      (o : Option (LogEntry fl))
      → (noted fl moment forced s identity o).1 ≡ false
      → o ≡ some (noted fl moment forced s identity o).0
  unfolding noted
  noted_unchanged moment forced s identity none h = cc
  noted_unchanged moment forced s identity (some e) h = ground arith

  -- The entries after one command.
  abbrev after_one : F → Bool → List (Text × Identity) → Text → State F → Entries fl → Entries fl
  after_one moment forced ids d s entries =
      let (e, changed) = noted fl moment forced s (get d ids) (get d entries) in
      if changed then put d e entries else entries

  get-after_one :
      (moment : F) (forced : Bool) (ids : List (Text × Identity)) (d : Text) (s : State F)
      (entries : Entries fl)
      → get d (after_one moment forced ids d s entries)
        ≡ some (noted fl moment forced s (get d ids) (get d entries)).0
  get-after_one moment forced ids d s entries =
      elim (Bool-cases (noted fl moment forced s (get d ids) (get d entries)).1) [
        | inl e ↦ rw e (get-put d (noted fl moment forced s (get d ids) (get d entries)).0 entries)
        | inr e ↦ rw e (noted_unchanged moment forced s (get d ids) (get d entries) e)
      ]

  get-after_one_other :
      (moment : F) (forced : Bool) (ids : List (Text × Identity)) (d other : Text) (s : State F)
      (entries : Entries fl)
      → text_eq d other ≡ false
      → get other (after_one moment forced ids d s entries) ≡ get other entries
  get-after_one_other moment forced ids d other s entries h =
      let n = noted fl moment forced s (get d ids) (get d entries) in
      elim (Bool-cases n.1) [
        | inl e ↦ rw e (get-put_other d other n.0 entries h)
        | inr e ↦ rw e refl
      ]

  get-record_all_other :
      (moment : F) (forced : Bool) (ids : List (Text × Identity)) (commands : List (Text × State F))
      (entries : Entries fl) (d : Text)
      → get d commands ≡ none
      → get d (record_all fl moment forced ids commands entries).0 ≡ get d entries
  unfolding record_all get
  get-record_all_other moment forced ids [] entries d h = refl
  get-record_all_other moment forced ids ((n, s) ∷ rest) entries d h =
      elim (Bool-cases (text_eq n d)) [
        | inl e ↦ cc (rw e at h)
        | inr e ↦
            get-record_all_other moment forced ids rest (after_one moment forced ids n s entries) d
              (rw e at h)
            ∙ get-after_one_other moment forced ids n d s entries e
      ]

  get-record_all :
      (moment : F) (forced : Bool) (ids : List (Text × Identity)) (commands : List (Text × State F))
      (entries : Entries fl) (d : Text) (s : State F)
      → Distinct commands
      → get d commands ≡ some s
      → get d (record_all fl moment forced ids commands entries).0
        ≡ some (noted fl moment forced s (get d ids) (get d entries)).0
  unfolding record_all get
  get-record_all moment forced ids [] entries d s u h = cc
  get-record_all moment forced ids ((n, s') ∷ rest) entries d s u h =
      elim (Bool-cases (text_eq n d)) [
        | inl e ↦
            let same = text_eq→eq n d e in
            let same_state : s' ≡ s = ground (arith, (rw e at h)) in
            rw (same, same_state)
              (get-record_all_other moment forced ids rest (after_one moment forced ids d s entries)
                  d (rw same at u.0)
                ∙ get-after_one moment forced ids d s entries)
        | inr e ↦
            get-record_all moment forced ids rest (after_one moment forced ids n s' entries) d s u.1
              (rw e at h)
            ∙ ap (λ o. some (noted fl moment forced s (get d ids) o).0)
                (get-after_one_other moment forced ids n d s' entries e)
      ]

  -- A command that changes what is recorded of a device: it has no entry, or its state or its
  -- identity is another.
  abbrev pub Moves : Option (LogEntry fl) → State F → Option Identity → Type 0
  Moves none s identity = Unit
  Moves (some e) s identity = (stored_eq fl e.state s && identity_eq e.identity identity) ≡ false

  noted_move :
      (moment : F) (forced : Bool) (s : State F) (identity : Option Identity)
      (o : Option (LogEntry fl))
      → Moves o s identity
      → (noted fl moment forced s identity o).0
        ≡ record { state = as_stored fl s; at = moment; identity = identity; forced = forced }
  unfolding noted
  noted_move moment forced s identity none h = refl
  noted_move moment forced s identity (some e) h = rw h refl

  abbrev Matches : LogEntry fl → State F → Option Identity → Type 0
  Matches e s identity = (stored_eq fl e.state s && identity_eq e.identity identity) ≡ true

  noted-Matches :
      (moment : F) (forced : Bool) (s : State F) (identity : Option Identity)
      (o : Option (LogEntry fl))
      → stored_eq fl (as_stored fl s) s ≡ true
      → Matches (noted fl moment forced s identity o).0 s identity
  unfolding noted
  noted-Matches moment forced s identity none h = rw (h, identity_eq_self identity) refl
  noted-Matches moment forced s identity (some e) h =
      elim (Bool-cases (stored_eq fl e.state s && identity_eq e.identity identity)) [
        | inr k ↦ rw k (rw (h, identity_eq_self identity) refl)
        | inl k ↦
            rw k (elim (Bool-cases (e.forced && not forced)) [ inl l ↦ rw l k | inr l ↦ rw l k ])
      ]

  noted_again :
      (later : F) (again : Bool) (s : State F) (identity : Option Identity) (e : LogEntry fl)
      → Matches e s identity
      → (noted fl later again s identity (some e)).0 ≡ record e { forced = e.forced && again }
  unfolding noted
  noted_again later again s identity e h = rw h (ground arith)

  -- Values that a device can be commanded to are numbers.
  abbrev pub IsCommand : State F → Type 0
  IsCommand (switch b) = Unit
  IsCommand (value x) = is_nan x ≡ false

  stored_eq-as_stored : (s : State F) → IsCommand s → stored_eq fl (as_stored fl s) s ≡ true
  unfolding stored_eq
  stored_eq-as_stored (switch true) h = refl
  stored_eq-as_stored (switch false) h = refl
  stored_eq-as_stored (value x) h = fl.eq_self x h

  -- Commanding the same states again, at any later moment and in whatever role, does not restart the
  -- clock of any commanded device: its entry keeps its state, its moment and its identity. The mark
  -- of a safe state stays only if the repetition is one too.
  pub record_commands_again :
      (entries : Entries fl) (commands : List (Text × State F))
      (ids : Option (List (Text × Identity))) (moment later : F) (forced again : Bool) (d : Text)
      (s : State F)
      → Distinct commands
      → get d commands ≡ some s
      → IsCommand s
      → let first = (record_commands fl entries commands moment forced ids).0 in
        let second = (record_commands fl first commands later again ids).0 in
        (e : LogEntry fl) × (get d first ≡ some e)
        × (get d second ≡ some (record e { forced = e.forced && again }))
  unfolding record_commands
  record_commands_again entries commands ids moment later forced again d s u h c =
      let ids' = or_empty fl ids in
      let first = (record_all fl moment forced ids' commands entries).0 in
      let e = (noted fl moment forced s (get d ids') (get d entries)).0 in
      let got = get-record_all moment forced ids' commands entries d s u h in
      (
        e,
        got,
        get-record_all later again ids' commands first d s u h
            ∙ rw got (
                ap some (
                  noted_again later again s (get d ids') e (
                    noted-Matches moment forced s (get d ids') (get d entries)
                      (stored_eq-as_stored s c)))),
      )

  contains-frozen :
      (entries : Entries fl) (minimum : Text → F) (ds : List Text) (moment : F)
      (ids : Option (List (Text × Identity))) (d : Text)
      → contains (frozen fl entries minimum ds moment ids) d
        ≡ (contains ds d && is_held fl entries minimum moment ids d)
  unfolding frozen contains
  contains-frozen entries minimum [] moment ids d = refl
  contains-frozen entries minimum (x ∷ ds) moment ids d =
      let ih = contains-frozen entries minimum ds moment ids d in
      elim (Bool-cases (is_held fl entries minimum moment ids x)) [
        | inl held ↦ rw held (elim (Bool-cases (text_eq x d)) [
          | inl e ↦
              rw e
                (sym (ap (is_held fl entries minimum moment ids) (sym (text_eq→eq x d e)) ∙ held))
          | inr e ↦ rw e ih
        ])
        | inr free ↦ rw free (elim (Bool-cases (text_eq x d)) [
          | inl e ↦
              let not_held : is_held fl entries minimum moment ids d ≡ false =
                ap (is_held fl entries minimum moment ids) (sym (text_eq→eq x d e)) ∙ free in
              rw e (ih ∙ rw not_held (ground arith))
          | inr e ↦ rw e ih
        ])
      ]

  is_held_of :
      (entries : Entries fl) (minimum : Text → F) (later : F) (ids : List (Text × Identity))
      (d : Text) (s : State F) (moment : F) (forced : Bool)
      → get d entries
        ≡ some
            (record { state = as_stored fl s; at = moment; identity = get d ids; forced = forced })
      → is_held fl entries minimum later (some ids) d
        ≡ (not forced && lt (clamped fl (sub later moment)) (minimum d))
  unfolding is_held is_other_device elapsed released
  is_held_of entries minimum later ids d s moment forced h =
      rw h (rw (identity_eq_self (get d ids)) (ground arith))

  -- The minimum of a device is kept: a device that a control decision has moved is frozen, at any
  -- later question about the same device, exactly while less time than its minimum has passed since
  -- the moment of that command. A device that a safe state has moved is not frozen at all.
  pub record_commands-frozen :
      (entries : Entries fl) (commands : List (Text × State F)) (ids : List (Text × Identity))
      (moment later : F) (forced : Bool) (minimum : Text → F) (ds : List Text) (d : Text)
      (s : State F)
      → Distinct commands
      → get d commands ≡ some s
      → contains ds d ≡ true
      → Moves (get d entries) s (get d ids)
      → contains
          (frozen fl
            (record_commands fl entries commands moment forced (some ids)).0
            minimum
            ds
            later
            (some ids))
          d
        ≡ (not forced && lt (clamped fl (sub later moment)) (minimum d))
  unfolding record_commands
  record_commands-frozen entries commands ids moment later forced minimum ds d s u h among moves =
      contains-frozen (record_all fl moment forced ids commands entries).0 minimum ds later
        (some ids) d
      ∙ rw among (
          is_held_of (record_all fl moment forced ids commands entries).0 minimum later ids d s
            moment forced
            (get-record_all moment forced ids commands entries d s u h
              ∙ ap some (noted_move moment forced s (get d ids) (get d entries) moves)))
