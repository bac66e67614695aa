-- ===== src/Writer/Posting/Groups.antt =====
-- The groups of a chunk, and its start that was handled, in toinflux/writer.py.
use send_to_influx.Prelude.{
  ◌≡◌, refl, sym, ap, ◌∙◌, true, ◌||◌, List, [], ◌∷◌, ◌++◌, All, Bool-cases, inl, inr, ◌==◌, arith,
  text_eq, text_eq→eq,
}
use send_to_influx.Writer.Entry.{Entry}
use send_to_influx.Writer.Posting.{source_of, add_entry, add_entries, is_handled, handled_start}

-- Every entry of a group has the source of the first.
abbrev pub IsUniform : List Entry → Type 0
IsUniform g = All (λ e. e.point.source ≡ source_of g) g

pub All-append : (P : Entry → Type 0) (es fs : List Entry) → All P es → All P fs → All P (es ++ fs)
All-append P [] fs h k = k
All-append P (e ∷ es) fs h k = (h.0, All-append P es fs h.1 k)

grown-IsUniform :
    (g : List Entry) (e : Entry)
    → IsUniform g
    → source_of g ≡ e.point.source
    → IsUniform (g ++ e ∷ [])
unfolding source_of
grown-IsUniform [] e h same = (refl, tt)
grown-IsUniform (x ∷ xs) e h same =
    All-append (λ f. f.point.source ≡ x.point.source) (x ∷ xs) (e ∷ []) h (sym same, tt)

add_entry-IsUniform :
    (e : Entry) (gs : List (List Entry)) → All IsUniform gs → All IsUniform (add_entry e gs)
unfolding add_entry
add_entry-IsUniform e [] h = ((unfold source_of in (refl, tt)), tt)
add_entry-IsUniform e (g ∷ gs) h = elim (Bool-cases (text_eq (source_of g) e.point.source)) [
  | inl k ↦ rw k (grown-IsUniform g e h.0 (text_eq→eq (source_of g) e.point.source k), h.1)
  | inr k ↦ rw k (h.0, add_entry-IsUniform e gs h.1)
]

pub add_entries-IsUniform :
    (gs : List (List Entry)) (es : List Entry)
    → All IsUniform gs
    → All IsUniform (add_entries gs es)
unfolding add_entries
add_entries-IsUniform gs [] h = h
add_entries-IsUniform gs (e ∷ es) h =
    add_entries-IsUniform (add_entry e gs) es (add_entry-IsUniform e gs h)

abbrev pub flat : List (List Entry) → List Entry
flat [] = []
flat (g ∷ gs) = g ++ flat gs

pub is_handled-append :
    (xs ys : List Entry) (e : Entry)
    → is_handled (xs ++ ys) e ≡ (is_handled xs e || is_handled ys e)
unfolding is_handled
is_handled-append [] ys e = refl
is_handled-append (x ∷ xs) ys e = ground (arith, is_handled-append xs ys e)

add_entry-flat :
    (f : Entry) (gs : List (List Entry)) (e : Entry)
    → is_handled (flat (add_entry f gs)) e ≡ (is_handled (flat gs) e || f.id == e.id)
unfolding add_entry is_handled
add_entry-flat f [] e = ground arith
add_entry-flat f (g ∷ gs) e = elim (Bool-cases (text_eq (source_of g) f.point.source)) [
  | inl k ↦
      rw
        (
          k,
          is_handled-append (g ++ f ∷ []) (flat gs) e,
          is_handled-append g (f ∷ []) e,
          is_handled-append g (flat gs) e,
        )
        (ground arith)
  | inr k ↦
      rw
        (
          k,
          is_handled-append g (flat (add_entry f gs)) e,
          is_handled-append g (flat gs) e,
          add_entry-flat f gs e,
        )
        (ground arith)
]

pub add_entries-flat :
    (gs : List (List Entry)) (es : List Entry) (e : Entry)
    → is_handled (flat (add_entries gs es)) e ≡ (is_handled (flat gs) e || is_handled es e)
unfolding add_entries is_handled
add_entries-flat gs [] e = ground arith
add_entries-flat gs (f ∷ es) e =
    add_entries-flat (add_entry f gs) es e ∙ rw (add_entry-flat f gs e) (ground arith)

-- What is handled of a list of itself.
pub self_handled : (es : List Entry) → All (λ e. is_handled es e ≡ true) es
unfolding is_handled
self_handled [] = tt
self_handled (x ∷ es) = (ground arith, weaken es (self_handled es))
  where
    weaken :
        (fs : List Entry)
        → All (λ e. is_handled es e ≡ true) fs
        → All (λ e. (x.id == e.id || is_handled es e) ≡ true) fs
    weaken [] h = tt
    weaken (f ∷ fs) h = (ground (arith, h.0), weaken fs h.1)

pub handled_start_whole :
    (done chunk : List Entry)
    → All (λ e. is_handled done e ≡ true) chunk
    → handled_start done chunk ≡ chunk
unfolding handled_start
handled_start_whole done [] h = refl
handled_start_whole done (e ∷ es) h = rw h.0 (ap (λ fs. e ∷ fs) (handled_start_whole done es h.1))

-- The start that was dealt with is a start.
pub start_prefix :
    (done chunk : List Entry) → (later : List Entry) × (chunk ≡ handled_start done chunk ++ later)
unfolding handled_start
start_prefix done [] = ([], refl)
start_prefix done (e ∷ es) =
    let (later, same) = start_prefix done es in
    elim (Bool-cases (is_handled done e)) [
      | inl k ↦ (later, rw k (ap (λ fs. e ∷ fs) same))
      | inr k ↦ (e ∷ es, rw k refl)
    ]

-- What holds of every entry of a chunk holds of every entry of its groups.
add_entry-All :
    (P : Entry → Type 0) (e : Entry) (gs : List (List Entry))
    → P e
    → All (All P) gs
    → All (All P) (add_entry e gs)
unfolding add_entry
add_entry-All P e [] p h = ((p, tt), tt)
add_entry-All P e (g ∷ gs) p h = elim (Bool-cases (text_eq (source_of g) e.point.source)) [
  | inl k ↦ rw k (All-append P g (e ∷ []) h.0 (p, tt), h.1)
  | inr k ↦ rw k (h.0, add_entry-All P e gs p h.1)
]

pub add_entries-All :
    (P : Entry → Type 0) (gs : List (List Entry)) (es : List Entry)
    → All (All P) gs
    → All P es
    → All (All P) (add_entries gs es)
unfolding add_entries
add_entries-All P gs [] h a = h
add_entries-All P gs (e ∷ es) h a =
    add_entries-All P (add_entry e gs) es (add_entry-All P e gs a.0 h) a.1
