-- ===== src/Transitions/Resumed.antt =====
-- When `loop_state` of toinflux/transitions.py hands back the loop's memory.
use send_to_influx.Prelude.{
  inl, inr, ◌≡◌, refl, Bool, true, ◌&&◌, Option, none, some, Bool-cases, Option-cases,
  if◌then◌else◌, arith, Text, codes, text_eq, get, put, get-put, get-put_other,
}
use send_to_influx.Floats.{Floats, le}
use send_to_influx.Transitions.{
  Stored, number, text, usable_number, Memory, is_text, loop_state, record_loop, usable,
}

module _ (fl : Floats) where
  open fl use {F, sub, is_finite, zero_float}

  get-record_loop_at :
      (state : Memory fl) (fingerprint : Text) (moment : F)
      → get (codes "at") (record_loop fl state fingerprint moment) ≡ some (number moment)
  unfolding record_loop
  get-record_loop_at state fingerprint moment =
      get-put (codes "at") (number moment) (put (codes "fingerprint") (text fingerprint) state)

  get-record_loop_fingerprint :
      (state : Memory fl) (fingerprint : Text) (moment : F)
      → get (codes "fingerprint") (record_loop fl state fingerprint moment)
        ≡ some (text fingerprint)
  unfolding record_loop text_eq
  get-record_loop_fingerprint state fingerprint moment =
      rw
        (get-put_other (codes "at") (codes "fingerprint") (Stored.number moment)
          (put (codes "fingerprint") (text fingerprint) state) refl)
        (get-put (codes "fingerprint") (text fingerprint) state)

  get-record_loop_integral :
      (state : Memory fl) (fingerprint : Text) (moment : F)
      → get (codes "integral") (record_loop fl state fingerprint moment)
        ≡ get (codes "integral") state
  unfolding record_loop text_eq
  get-record_loop_integral state fingerprint moment =
      rw
        (get-put_other (codes "at") (codes "integral") (Stored.number moment)
          (put (codes "fingerprint") (text fingerprint) state) refl)
        (get-put_other (codes "fingerprint") (codes "integral") (text fingerprint) state refl)

  -- What `record_loop` writes at a finite moment, with a finite integral, `loop_state` hands back
  -- unchanged exactly when it is asked with the same fingerprint, at a moment that is not before the
  -- one of the writing and at most the greatest age after it.
  pub loop_state-record_loop :
      (state : Memory fl) (written asked : Text) (integral moment later max_age : F)
      → get (codes "integral") state ≡ some (number integral)
      → is_finite integral ≡ true
      → is_finite moment ≡ true
      → let memory = record_loop fl state written moment in
        let age = sub later moment in
        loop_state fl memory asked max_age later ≡ (
          if text_eq written asked && (le fl zero_float age && le fl age max_age)
          then some memory
          else none)
  unfolding loop_state usable_number
  loop_state-record_loop state written asked integral moment later max_age hi fi fm =
      rw (get-record_loop_at state written moment, get-record_loop_fingerprint state written moment)
        (rw (fm, get-record_loop_integral state written moment)
          (rw hi (
            rw fi (elim (Bool-cases (text_eq written asked)) [
              | inl e ↦ rw e refl
              | inr e ↦ rw e refl
            ]))))

  -- What `loop_state` may hand back: the memory as it is stored, with the fingerprint asked for, and
  -- with a finite integral and a finite moment that is neither in the future nor too long ago.
  pub record Resumable (memory : Memory fl) (fingerprint : Text) (max_age now : F) : Type 0 where
    pub integral : F
    pub moment : F
    pub integral_stored : get (codes "integral") memory ≡ some (number integral)
    pub moment_stored : get (codes "at") memory ≡ some (number moment)
    pub integral_finite : is_finite integral ≡ true
    pub moment_finite : is_finite moment ≡ true
    pub not_ahead : le fl zero_float (sub now moment) ≡ true
    pub not_stale : le fl (sub now moment) max_age ≡ true
    pub same_tuning : is_text fl (get (codes "fingerprint") memory) fingerprint ≡ true

  usable-eq-some :
      (o : Option (Stored F)) (x : F)
      → usable fl o ≡ some x
      → (o ≡ some (number x)) × (is_finite x ≡ true)
  unfolding usable_number
  usable-eq-some none x h = cc
  usable-eq-some (some (number y)) x h = ground arith
  usable-eq-some (some s) x h = cc

  resumed_inside :
      (a b : Bool) (m r : Memory fl)
      → (if a && b then some m else none) ≡ some r
      → (r ≡ m) × (a ≡ true) × (b ≡ true)
  resumed_inside a b m r h = ground arith

  -- Whatever the file held, a memory that `loop_state` hands back is the one that is stored, and it
  -- may be resumed from.
  pub loop_state-Resumable :
      (memory resumed : Memory fl) (fingerprint : Text) (max_age now : F)
      → loop_state fl memory fingerprint max_age now ≡ some resumed
      → (resumed ≡ memory) × Resumable memory fingerprint max_age now
  unfolding loop_state
  loop_state-Resumable memory resumed fingerprint max_age now h =
      elim (Bool-cases (is_text fl (get (codes "fingerprint") memory) fingerprint)) [
        | inr e ↦ cc (rw e at h)
        | inl e ↦ elim (Option-cases (usable fl (get (codes "at") memory))) [
          | inl k ↦ cc (rw (e, k) at h)
          | inr (at, k) ↦ elim (Option-cases (usable fl (get (codes "integral") memory))) [
            | inl l ↦ cc (rw (e, k, l) at h)
            | inr (i, l) ↦
                let h' = rw (e, k, l) at h in
                let found_at = usable-eq-some (get (codes "at") memory) at k in
                let found = usable-eq-some (get (codes "integral") memory) i l in
                let (same, ahead, stale) =
                  resumed_inside (le fl zero_float (sub now at)) (le fl (sub now at) max_age) memory
                    resumed h' in
                (
                  same,
                  record {
                    integral = i;
                    moment = at;
                    integral_stored = found.0;
                    moment_stored = found_at.0;
                    integral_finite = found.1;
                    moment_finite = found_at.1;
                    not_ahead = ahead;
                    not_stale = stale;
                    same_tuning = e;
                  },
                )
          ]
        ]
      ]
