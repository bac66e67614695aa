-- ===== src/Staging/Sorted.antt =====
-- The ladder that `build_ladder` of toinflux/staging.py returns is in order.
use mathlib.Core.List.{Perm}
use mathlib.Core.List.Perm
use send_to_influx.Prelude.{
  ℕ, suc, ◌≤◌, ◌≡◌, ◌≢◌, refl, sym, subst, true, false, List, [], ◌∷◌, All, Bool-cases, inl, inr,
  arith,
}
use send_to_influx.Floats.{Floats}
use send_to_influx.Staging.{
  Level, numeric, not_numeric, Planned, ok, config_error, rule_failed, Stage, Ladder, rungs,
  StageEntry, finite_level, stages_from, before, insert_stage, sort_stages, as_ladder, build_ladder,
  ◌>>=◌,
}

-- Where a step and what follows it succeed, the step did.
pub >>=-eq-ok :
    {A B : Type 0} (first : Planned A) (k : A → Planned B) {y : B}
    → (first >>= k) ≡ ok y
    → (x : A) × (first ≡ ok x) × (k x ≡ ok y)
>>=-eq-ok (ok x) k e = (x, refl, e)
>>=-eq-ok (config_error p) k e = cc
>>=-eq-ok (rule_failed p) k e = cc

module _ (fl : Floats) where
  open fl use {
    F, lt, eq, is_nan, is_finite, lt_trans, lt_eq, eq_lt, eq_trans, eq_sym, trichotomy,
    finite_not_nan,
  }

  -- Each stage comes before every later one, by level and then by declaration.
  abbrev pub Sorted : List (Stage fl) → Type 0
  Sorted [] = Unit
  Sorted (s ∷ ss) = All (λ t. before fl s t ≡ true) ss × Sorted ss

  -- Two stages that the order tells apart.
  record Apart (s t : Stage fl) : Type 0 where
    left : is_nan s.level ≡ false
    right : is_nan t.level ≡ false
    differ : s.declared ≢ t.declared

  abbrev AllApart : List (Stage fl) → Type 0
  AllApart [] = Unit
  AllApart (s ∷ ss) = All (Apart s) ss × AllApart ss

  before_trans :
      (a b c : Stage fl) → before fl a b ≡ true → before fl b c ≡ true → before fl a c ≡ true
  unfolding before
  before_trans a b c h k = ground (
    arith,
    lt_trans a.level b.level c.level,
    lt_eq a.level b.level c.level,
    eq_lt a.level b.level c.level,
    eq_trans a.level b.level c.level,
  )

  before_total : (s t : Stage fl) → Apart s t → before fl t s ≡ false → before fl s t ≡ true
  unfolding before
  before_total s t p h =
      ground (arith, trichotomy s.level t.level p.left p.right, eq_sym s.level t.level)

  All-insert_stage :
      (P : Stage fl → Type 0) (s : Stage fl) (ts : List (Stage fl))
      → P s
      → All P ts
      → All P (insert_stage fl s ts)
  unfolding insert_stage
  All-insert_stage P s [] p all = (p, tt)
  All-insert_stage P s (t ∷ ts) p all = elim (Bool-cases (before fl t s)) [
    | inl e ↦ rw e (all.0, All-insert_stage P s ts p all.1)
    | inr e ↦ rw e (p, all)
  ]

  All-sort_stages :
      (P : Stage fl → Type 0) (ss : List (Stage fl)) → All P ss → All P (sort_stages fl ss)
  unfolding sort_stages
  All-sort_stages P [] all = tt
  All-sort_stages P (s ∷ ss) all =
      All-insert_stage P s (sort_stages fl ss) all.0 (All-sort_stages P ss all.1)

  All-before_trans :
      (s t : Stage fl) (ts : List (Stage fl))
      → before fl s t ≡ true
      → All (λ u. before fl t u ≡ true) ts
      → All (λ u. before fl s u ≡ true) ts
  All-before_trans s t [] h all = tt
  All-before_trans s t (u ∷ us) h all =
      (before_trans s t u h all.0, All-before_trans s t us h all.1)

  insert_stage-Sorted :
      (s : Stage fl) (ts : List (Stage fl))
      → All (Apart s) ts
      → Sorted ts
      → Sorted (insert_stage fl s ts)
  unfolding insert_stage
  insert_stage-Sorted s [] apart sorted = (tt, tt)
  insert_stage-Sorted s (t ∷ ts) apart sorted = elim (Bool-cases (before fl t s)) [
    | inl e ↦ rw e (
      All-insert_stage (λ u. before fl t u ≡ true) s ts e sorted.0,
      insert_stage-Sorted s ts apart.1 sorted.1,
    )
    | inr e ↦
        let first = before_total s t apart.0 e in
        rw e ((first, All-before_trans s t ts first sorted.0), sorted)
  ]

  sort_stages-Sorted : (ss : List (Stage fl)) → AllApart ss → Sorted (sort_stages fl ss)
  unfolding sort_stages
  sort_stages-Sorted [] apart = tt
  sort_stages-Sorted (s ∷ ss) apart =
      insert_stage-Sorted s (sort_stages fl ss) (All-sort_stages (Apart s) ss apart.0)
        (sort_stages-Sorted ss apart.1)

  insert_stage-perm : (s : Stage fl) (ts : List (Stage fl)) → Perm (insert_stage fl s ts) (s ∷ ts)
  unfolding insert_stage
  insert_stage-perm s [] = Perm.refl (s ∷ [])
  insert_stage-perm s (t ∷ ts) = elim (Bool-cases (before fl t s)) [
    | inl e ↦ rw e (Perm.trans (Perm.cons t (insert_stage-perm s ts)) (Perm.swap s t ts))
    | inr e ↦ rw e (Perm.refl (s ∷ t ∷ ts))
  ]

  sort_stages-perm : (ss : List (Stage fl)) → Perm (sort_stages fl ss) ss
  unfolding sort_stages
  sort_stages-perm [] = Perm.refl []
  sort_stages-perm (s ∷ ss) =
      Perm.trans (insert_stage-perm s (sort_stages fl ss)) (Perm.cons s (sort_stages-perm ss))

  -- What the comprehension gives a stage: a level that is a number, and its position.
  abbrev FromPosition : ℕ → Stage fl → Type 0
  FromPosition n s = (n ≤ s.declared) × (is_finite s.level ≡ true)

  All-FromPosition_weaken :
      (n m : ℕ) (ss : List (Stage fl)) → m ≤ n → All (FromPosition n) ss → All (FromPosition m) ss
  All-FromPosition_weaken n m [] h all = tt
  All-FromPosition_weaken n m (s ∷ ss) h all =
      ((omega (arith, all.0.0), all.0.1), All-FromPosition_weaken n m ss h all.1)

  All-Apart :
      (s : Stage fl) (ss : List (Stage fl))
      → is_finite s.level ≡ true
      → All (FromPosition (suc s.declared)) ss
      → All (Apart s) ss
  All-Apart s [] h all = tt
  All-Apart s (t ∷ ts) h all = (
    record {
      left = finite_not_nan s.level h;
      right = finite_not_nan t.level all.0.1;
      differ = omega (arith, all.0.0);
    },
    All-Apart s ts h all.1,
  )

  finite_level-IsFinite :
      (l : Level F) (n : ℕ) (x : F) → finite_level fl l n ≡ ok x → is_finite x ≡ true
  unfolding finite_level
  finite_level-IsFinite not_numeric n x h = cc
  finite_level-IsFinite (numeric y) n x h = ground arith

  stages_from-Apart :
      (n : ℕ) (es : List (StageEntry fl)) (ss : List (Stage fl))
      → stages_from fl n es ≡ ok ss
      → All (FromPosition n) ss × AllApart ss
  unfolding stages_from
  stages_from-Apart n [] [] h = (tt, tt)
  stages_from-Apart n [] (s ∷ ss) h = ground arith
  stages_from-Apart n (e ∷ es) ss h =
      let (x, hx, h') = >>=-eq-ok (finite_level fl e.level n) _ h in
      let (rest, hr, h'') = >>=-eq-ok (stages_from fl (suc n) es) _ h' in
      let s : Stage fl = record { level = x; declared = n; states = e.states } in
      let same : ss ≡ s ∷ rest = ground arith in
      let finite = finite_level-IsFinite e.level n x hx in
      let ih = stages_from-Apart (suc n) es rest hr in
      rw same (
        ((omega arith, finite), All-FromPosition_weaken (suc n) n rest (omega arith) ih.0),
        (All-Apart s rest finite ih.0, ih.1),
      )

  as_ladder-rungs :
      (ss : List (Stage fl)) (ladder : Ladder fl)
      → as_ladder fl ss ≡ ok ladder
      → rungs fl ladder ≡ ss
  unfolding as_ladder
  as_ladder-rungs [] ladder h = cc
  as_ladder-rungs (s ∷ ss) ladder h = ground arith

  -- If `build_ladder` returns a ladder, then its rungs are the stages of the document, each with its
  -- finite level and its position, every one of them exactly as often as it was declared, and each
  -- rung comes before every later one: by level, and among equal levels by declaration.
  pub build_ladder-Sorted :
      (entries : List (StageEntry fl)) (ladder : Ladder fl)
      → build_ladder fl entries ≡ ok ladder
      → (stages : List (Stage fl)) × (stages_from fl 0 entries ≡ ok stages)
        × Perm (rungs fl ladder) stages
        × Sorted (rungs fl ladder)
  unfolding build_ladder
  build_ladder-Sorted entries ladder h =
      let (stages, hs, h') = >>=-eq-ok (stages_from fl 0 entries) _ h in
      let same = as_ladder-rungs (sort_stages fl stages) ladder h' in
      (
        stages,
        hs,
        rw same (sort_stages-perm stages),
        subst Sorted (sym same)
            (sort_stages-Sorted stages (stages_from-Apart 0 entries stages hs).1),
      )
