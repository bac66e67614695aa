-- ===== src/Writer/Spool/Read.antt =====
-- `_read_spool` of toinflux/writer.py.
use send_to_influx.Prelude.{
  ℕ, zero, suc, ◌+◌, ◌*◌, ◌≤◌, ◌<◌, ◌≡◌, refl, sym, ◌∙◌, Bool, true, Option, none, some, List, [],
  ◌∷◌, length, Bool-cases, inl, inr, ◌==◌, arith,
}
use send_to_influx.Writer.Entry.{Json, Entry}
use send_to_influx.Writer.Spool.{Segment, Spool, Round, found, again, read_round, read_spool}
use send_to_influx.Writer.Spool.Valid.{IsValid}
use send_to_influx.Writer.Spool.Fronts.{rounds, HasRead}
use send_to_influx.Writer.Spool.Rounds.{RoundOf, round-Read}

module _ (json : Json) where
  read_spool-round :
      (fuel : ℕ) (readable : ℕ → Bool) (creates : Bool) (s : Spool)
      → ((n : ℕ) → readable n ≡ true)
      → IsValid s
      → rounds s.pointer s.segments < fuel
      → (after : Spool) × (chunk : List Entry) × (read_spool fuel json readable creates s
          ≡ some (after, chunk))
        × HasRead json s after chunk
  unfolding read_spool
  read_spool-round zero readable creates s reads v h = absurd (omega (arith, h))
  read_spool-round (suc fuel) readable creates s reads v h =
      go (λ next valid fewer. read_spool-round fuel readable creates next reads valid fewer)
        (read_round json readable creates s) refl
        (round-Read json s.append_segment s.is_open s.disk s.locked s.stale_segment s.limit_bytes
          readable creates s.pointer s.segments reads v)
    where
      go :
          ((next : Spool)
            → IsValid next
            → rounds next.pointer next.segments < fuel
            → (after : Spool) × (chunk : List Entry) × (read_spool fuel json readable creates next
                ≡ some (after, chunk))
              × HasRead json next after chunk)
          → (r : Round) → read_round json readable creates s ≡ r
          → RoundOf json s r
          → (after : Spool) × (chunk : List Entry) × (read_spool (suc fuel) json readable creates s
              ≡ some (after, chunk))
            × HasRead json s after chunk
      go further (found after chunk) e x = (after, chunk, rw (e, read_spool) refl, x)
      go further (again next) e (valid, same, fewer) =
          let (after, chunk, k, x) = further next valid (omega (arith, h, fewer)) in
          (
            after,
            chunk,
            rw (e, read_spool) k,
            record {
              valid = x.valid;
              same = x.same ∙ same;
              rest = x.rest;
              first = sym same ∙ x.first;
              bounded = x.bounded;
              drained = (λ (z : chunk ≡ []). sym same ∙ x.drained z);
              front = x.front;
            },
          )

  rounds_bound : (p : Option (ℕ × ℕ)) (ss : List Segment) → rounds p ss ≤ 1 + 2 * length ss
  rounds_bound p [] = omega arith
  rounds_bound none (s ∷ ss) = omega arith
  rounds_bound (some (p, o)) (s ∷ ss) = elim (Bool-cases (p == s.number)) [
    | inl e ↦ rw e (omega arith)
    | inr e ↦ rw e (omega arith)
  ]

  -- A read of a valid spool whose files can be read ends, within two rounds a segment and two more.
  -- It takes a chunk from the front of what is unsent, empty only where nothing is, and changes
  -- neither what is unsent nor the validity.
  pub read_spool-HasRead :
      (fuel : ℕ) (readable : ℕ → Bool) (creates : Bool) (s : Spool)
      → ((n : ℕ) → readable n ≡ true)
      → IsValid s
      → 2 * length s.segments + 2 ≤ fuel
      → (after : Spool) × (chunk : List Entry) × (read_spool fuel json readable creates s
          ≡ some (after, chunk))
        × HasRead json s after chunk
  read_spool-HasRead fuel readable creates s reads v h =
      let bound = rounds_bound s.pointer s.segments in
      read_spool-round fuel readable creates s reads v (omega (arith, h, bound))
