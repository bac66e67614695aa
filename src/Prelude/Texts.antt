-- ===== src/Prelude/Texts.antt =====
-- Python's `str` as the list of its code points.
use Prim.Native.Char.{code}
use Prim.Native.Nat.{ℕ}
use Prim.Native.String.{String}
use mathlib.Core.Path.{◌≡◌, refl}
use mathlib.Core.Bool.{Bool, true, false, ◌&&◌, ◌||◌}
use mathlib.Core.List.{List, [], ◌∷◌}
use native.Mathlib.Omega.{arith}
use send_to_influx.Prelude.Tests.{◌==◌}

abbrev pub Text : Type 0
Text = List ℕ

abbrev pub codes : String → Text
codes String.[] = []
codes (String.◌∷◌ c s) = code c ∷ codes s

-- `==` on texts.
unfoldable pub text_eq : Text → Text → Bool
text_eq [] [] = true
text_eq [] (y ∷ ys) = false
text_eq (x ∷ xs) [] = false
text_eq (x ∷ xs) (y ∷ ys) = x == y && text_eq xs ys

pub text_eq→eq : (a b : Text) → text_eq a b ≡ true → a ≡ b
unfolding text_eq
text_eq→eq [] [] h = refl
text_eq→eq [] (y ∷ ys) h = ground arith
text_eq→eq (x ∷ xs) [] h = ground arith
text_eq→eq (x ∷ xs) (y ∷ ys) h = ground (arith, text_eq→eq xs ys)

pub text_eq_self : (a : Text) → text_eq a a ≡ true
unfolding text_eq
text_eq_self [] = refl
text_eq_self (x ∷ xs) = ground (arith, text_eq_self xs)

-- `in` on a collection of texts.
unfoldable pub contains : List Text → Text → Bool
contains [] a = false
contains (x ∷ xs) a = text_eq x a || contains xs a
