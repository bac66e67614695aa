-- ===== src/Controls/Clashes.antt =====
-- One enabled control per actuator: `shared_actuator_problems` of toinflux/controls.py.
use send_to_influx.Prelude.{
  ◌≡◌, ◌↔◌, refl, sym, ◌∙◌, ap, subst, true, false, Bool-cases, Option-cases, inl, inr, Option,
  none, some, List, [], ◌∷◌, ◌++◌, append-nil, append_assoc, if◌then◌else◌, Text, All, arith,
}
use send_to_influx.Controls.{Setting, missing, null, text, flag, number, other}
use send_to_influx.Controls.Actuators.{
  Document, Actuator, actuators_may_be_one, control_is_enabled, actuators_owned,
}

-- An actuator that the control of the name commands.
abbrev pub Claim : Type 0
Claim = Text × Actuator

-- The first claim that may be on the actuator.
unfoldable pub owner_of : Actuator → List Claim → Option Text
unfolding actuators_may_be_one
owner_of a [] = none
owner_of a ((who, held) ∷ claimed) =
    let rest = owner_of a claimed in if actuators_may_be_one a held then some who else rest

-- A pair that clashes: the owner, the other control and the actuator.
abbrev pub ClashProblem : Type 0
ClashProblem = Text × (Text × Actuator)

-- The loop over the actuators of one control: the problems, and what is claimed then.
unfoldable pub claim_all : Text → List Actuator → List Claim → List ClashProblem × List Claim
unfolding owner_of
claim_all name [] claimed = ([], claimed)
claim_all name (a ∷ rest_of) claimed =
    let kept = claim_all name rest_of claimed in
    let taken = claim_all name rest_of (claimed ++ (name, a) ∷ []) in
    elim (owner_of a claimed) [ none ↦ taken | some owner ↦ ((owner, (name, a)) ∷ kept.0, kept.1) ]

abbrev pub named : Text → List Actuator → List Claim
named name [] = []
named name (a ∷ rest_of) = (name, a) ∷ named name rest_of

-- The actuator may be none of those claimed.
abbrev pub Free : Actuator → List Claim → Type 0
Free a claimed = All (λ c. actuators_may_be_one a c.1 ≡ false) claimed

-- No claim may be on the actuator of one before it.
abbrev pub FreeInTurn : List Claim → List Claim → Type 0
FreeInTurn before [] = Unit
FreeInTurn before (c ∷ cs) = Free c.1 before × FreeInTurn (before ++ c ∷ []) cs

none_owns : (a : Actuator) (claimed : List Claim) → owner_of a claimed ≡ none → Free a claimed
unfolding owner_of
none_owns a [] h = tt
none_owns a ((who, held) ∷ claimed) h = elim (Bool-cases (actuators_may_be_one a held)) [
  | inl e ↦ ground (arith, rw e at h)
  | inr e ↦ (e, none_owns a claimed (rw e at h))
]

owner_of-Free : (a : Actuator) (claimed : List Claim) → Free a claimed → owner_of a claimed ≡ none
unfolding owner_of
owner_of-Free a [] f = refl
owner_of-Free a ((who, held) ∷ claimed) f = rw f.0 (owner_of-Free a claimed f.1)

FreeInTurn-append :
    (before cs ds : List Claim)
    → FreeInTurn before cs
    → FreeInTurn (before ++ cs) ds
    → FreeInTurn before (cs ++ ds)
FreeInTurn-append before [] ds f g = subst (λ b. FreeInTurn b ds) (append-nil before) g
FreeInTurn-append before (c ∷ cs) ds f g = (
  f.0,
  FreeInTurn-append (before ++ c ∷ []) cs ds f.1
      (subst (λ b. FreeInTurn b ds) (sym (append_assoc before (c ∷ []) cs)) g),
)

in_two :
    (before cs ds : List Claim)
    → FreeInTurn before (cs ++ ds)
    → FreeInTurn before cs × FreeInTurn (before ++ cs) ds
in_two before [] ds f = (tt, subst (λ b. FreeInTurn b ds) (sym (append-nil before)) f)
in_two before (c ∷ cs) ds f =
    let rest = in_two (before ++ c ∷ []) cs ds f.1 in
    ((f.0, rest.0), subst (λ b. FreeInTurn b ds) (append_assoc before (c ∷ []) cs) rest.1)

without_problem :
    (name : Text) (xs : List Actuator) (claimed : List Claim)
    → (claim_all name xs claimed).0 ≡ []
    → FreeInTurn claimed (named name xs)
      × ((claim_all name xs claimed).1 ≡ claimed ++ named name xs)
unfolding claim_all
without_problem name [] claimed h = (tt, sym (append-nil claimed))
without_problem name (a ∷ xs) claimed h = elim (Option-cases (owner_of a claimed)) [
  | inl e ↦
      let rest = without_problem name xs (claimed ++ (name, a) ∷ []) (rw (e, claim_all) at h) in
      rw (e, claim_all)
        (
          (none_owns a claimed e, rest.0),
          rest.1 ∙ append_assoc claimed ((name, a) ∷ []) (named name xs),
        )
  | inr (owner, e) ↦ ground (arith, rw (e, claim_all) at h)
]

claim_all-Free :
    (name : Text) (xs : List Actuator) (claimed : List Claim)
    → FreeInTurn claimed (named name xs)
    → ((claim_all name xs claimed).0 ≡ [])
      × ((claim_all name xs claimed).1 ≡ claimed ++ named name xs)
unfolding claim_all
claim_all-Free name [] claimed f = (refl, sym (append-nil claimed))
claim_all-Free name (a ∷ xs) claimed f =
    let rest = claim_all-Free name xs (claimed ++ (name, a) ∷ []) f.1 in
    rw (owner_of-Free a claimed f.0, claim_all)
      (rest.0, rest.1 ∙ append_assoc claimed ((name, a) ∷ []) (named name xs))

both_empty : {A : Type 0} (xs ys : List A) → xs ++ ys ≡ [] → (xs ≡ []) × (ys ≡ [])
both_empty [] ys h = (refl, h)
both_empty (x ∷ xs) ys h = ground (arith, h)

-- What a control claims, where it is enabled.
abbrev pub where_enabled : {F : Type 0} → Setting F → List Claim → List Claim
where_enabled missing claims = claims
where_enabled (flag true) claims = claims
where_enabled (flag false) claims = []
where_enabled null claims = []
where_enabled (text t) claims = []
where_enabled (number x) claims = []
where_enabled other claims = []

named_where :
    {F : Type 0} (s : Setting F) (name : Text) (xs : List Actuator)
    → where_enabled s (named name xs)
      ≡ named name (if elim s [ missing ↦ true | flag b ↦ b | _ ↦ false ] then xs else [])
named_where missing name xs = refl
named_where (flag true) name xs = refl
named_where (flag false) name xs = refl
named_where null name xs = refl
named_where (text t) name xs = refl
named_where (number x) name xs = refl
named_where other name xs = refl

-- `lower` is a method of Python's str, and `by_repr` sorts by the texts of Python's repr.
module _ {F : Type 0} (lower : Text → Text) (by_repr : List Actuator → List Actuator) where
  -- What an enabled control claims, and one that is not, nothing.
  unfoldable pub claims_of : Document F → List Actuator
  unfolding control_is_enabled
  claims_of d = if control_is_enabled d then by_repr (actuators_owned lower d) else []

  -- `shared_actuator_problems` of the documents in the order of their names, with what is claimed
  -- before.
  unfoldable pub problems_after : List Claim → List (Text × Document F) → List ClashProblem
  unfolding claims_of claim_all
  problems_after claimed [] = []
  problems_after claimed ((name, d) ∷ ds) =
      let (problems, later) = claim_all name (claims_of d) claimed in
      problems ++ problems_after later ds

  abbrev pub shared_actuator_problems : List (Text × Document F) → List ClashProblem
  shared_actuator_problems ds = problems_after [] ds

  -- Every claim of the documents whose control is enabled, in order: where the document leaves `enabled`
  -- out, or has true there.
  unfoldable pub all_claims : List (Text × Document F) → List Claim
  all_claims [] = []
  all_claims ((name, d) ∷ ds) =
      where_enabled d.enabled (named name (by_repr (actuators_owned lower d))) ++ all_claims ds

  named-claims_of :
      (name : Text) (d : Document F)
      → where_enabled d.enabled (named name (by_repr (actuators_owned lower d)))
        ≡ named name (claims_of d)
  unfolding claims_of control_is_enabled
  named-claims_of name d = named_where d.enabled name (by_repr (actuators_owned lower d))

  no_problems :
      (claimed : List Claim) (ds : List (Text × Document F))
      → problems_after claimed ds ≡ []
      → FreeInTurn claimed (all_claims ds)
  unfolding problems_after all_claims
  no_problems claimed [] h = tt
  no_problems claimed ((name, d) ∷ ds) h =
      let parts = both_empty (claim_all name (claims_of d) claimed).0 _ h in
      let mine = without_problem name (claims_of d) claimed parts.0 in
      let whole = FreeInTurn-append claimed (named name (claims_of d)) (all_claims ds) mine.0 (
        no_problems (claimed ++ named name (claims_of d)) ds
          (ap (λ c. problems_after c ds) (sym mine.1) ∙ parts.1)) in
      subst (λ cs. FreeInTurn claimed (cs ++ all_claims ds)) (sym (named-claims_of name d)) whole

  problems-Free :
      (claimed : List Claim) (ds : List (Text × Document F))
      → FreeInTurn claimed (all_claims ds)
      → problems_after claimed ds ≡ []
  unfolding problems_after all_claims
  problems-Free claimed [] f = refl
  problems-Free claimed ((name, d) ∷ ds) f =
      let whole =
        subst (λ cs. FreeInTurn claimed (cs ++ all_claims ds)) (named-claims_of name d) f in
      let parts = in_two claimed (named name (claims_of d)) (all_claims ds) whole in
      let mine = claim_all-Free name (claims_of d) claimed parts.0 in
      rw (mine.0, mine.1) (problems-Free (claimed ++ named name (claims_of d)) ds parts.1)

  -- There is no problem just where no claim of an enabled control may be on the actuator of a claim
  -- of an enabled control before it, be it the same control or another; a control is enabled where its document
  -- leaves `enabled` out or has true there.
  pub shared_actuator_problems-FreeInTurn :
      (ds : List (Text × Document F))
      → (shared_actuator_problems ds ≡ []) ↔ FreeInTurn [] (all_claims ds)
  shared_actuator_problems-FreeInTurn ds = (no_problems [] ds, problems-Free [] ds)
