-- ===== src/Writer/Spool/Valid.antt =====
-- What holds of the spool of toinflux/writer.py between its operations.
use send_to_influx.Prelude.{
  ℕ, ◌≤◌, ◌<◌, ◌≡◌, refl, ap, true, false, Option, none, some, List, [], ◌∷◌, ◌++◌, All, max,
  length, ◌==◌, arith,
}
use send_to_influx.Writer.Lines.{is_whole}
use send_to_influx.Writer.Spool.{Segment, Spool, has_segment, without, highest}

-- The numbers go up.
abbrev pub Ascending : List Segment → Type 0
Ascending [] = Unit
Ascending (s ∷ ss) = All (λ t. s.number < t.number) ss × Ascending ss

-- The recorded size of each file is its length.
abbrev pub Measured : List Segment → Type 0
Measured ss = All (λ s. s.size ≡ length s.file) ss

-- The pointer stands in the first segment, or before it.
abbrev pub PointsInto : Option (ℕ × ℕ) → List Segment → Type 0
PointsInto none ss = ss ≡ []
PointsInto (some (p, o)) [] = Unit
PointsInto (some (p, o)) (s ∷ ss) = (p ≤ s.number) × (p ≡ s.number → o ≤ length s.file)

-- The last segment has a number, and its last line is not cut off.
pub record EndsWhole (n : ℕ) (ss : List Segment) : Type 0 where
  pub before : List Segment
  pub last : Segment
  pub split : ss ≡ before ++ last ∷ []
  pub numbered : last.number ≡ n
  pub whole : is_whole last.file ≡ true

-- No segment is newer than the one appended to.
abbrev pub NoneNewer : Option ℕ → List Segment → Type 0
NoneNewer none ss = Unit
NoneNewer (some n) ss = All (λ s. s.number ≤ n) ss

pub record IsValid (s : Spool) : Type 0 where
  pub ascending : Ascending s.segments
  pub measured : Measured s.segments
  pub points : PointsInto s.pointer s.segments
  pub appends : s.is_open ≡ true → (n : ℕ) × (s.append_segment ≡ some n) × EndsWhole n s.segments
  pub newest : NoneNewer s.append_segment s.segments

pub below_highest : (ss : List Segment) → All (λ s. s.number ≤ highest ss) ss
unfolding highest
below_highest [] = tt
below_highest (s ∷ ss) = (omega arith, weaken ss (highest ss) (below_highest ss))
  where
    weaken :
        (ts : List Segment) (m : ℕ)
        → All (λ t. t.number ≤ m) ts
        → All (λ t. t.number ≤ max s.number m) ts
    weaken [] m h = tt
    weaken (t ∷ ts) m h = (omega (arith, h.0), weaken ts m h.1)

-- What is below every number is not one of them.
pub has_segment-below :
    (n : ℕ) (ss : List Segment) → All (λ t. n < t.number) ss → has_segment n ss ≡ false
unfolding has_segment
has_segment-below n [] h = refl
has_segment-below n (s ∷ ss) h =
    let other : (s.number == n) ≡ false = ground (arith, h.0) in
    rw other (has_segment-below n ss h.1)

pub without-below : (n : ℕ) (ss : List Segment) → All (λ t. n < t.number) ss → without n ss ≡ ss
unfolding without
without-below n [] h = refl
without-below n (s ∷ ss) h =
    let other : (s.number == n) ≡ false = ground (arith, h.0) in
    rw other (ap (λ ts. s ∷ ts) (without-below n ss h.1))

-- Every number is below the last.
pub below_last :
    (ss : List Segment) (t : Segment) → Ascending (ss ++ t ∷ []) → All (λ s. s.number < t.number) ss
below_last [] t a = tt
below_last (s ∷ ss) t a = (last_of ss a.0, below_last ss t a.1)
  where
    last_of :
        (us : List Segment) → All (λ u. s.number < u.number) (us ++ t ∷ []) → s.number < t.number
    last_of [] h = h.0
    last_of (u ∷ us) h = last_of us h.1

pub All-below :
    (m n : ℕ) (ss : List Segment) → m ≤ n → All (λ t. n < t.number) ss → All (λ t. m < t.number) ss
All-below m n [] h all = tt
All-below m n (s ∷ ss) h all = (omega (arith, all.0), All-below m n ss h all.1)
