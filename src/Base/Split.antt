-- ===== src/Base/Split.antt =====
-- strings.Split at one byte.
use Prim.Native.Nat.{ℕ}
use mathlib.Core.Path.{◌≡◌, refl}
use mathlib.Core.Bool.{Bool, true, ◌&&◌, not}
use mathlib.Core.List.{List, [], ◌∷◌, ◌++◌}
use native.Mathlib.Omega.{arith}
use patrabahok.Base.Tests.{◌==◌, if◌then◌else◌}
use patrabahok.Base.Text.{Text}

unfoldable pub prepend : ℕ → List Text → List Text
prepend c [] = (c ∷ []) ∷ []
prepend c (part ∷ parts) = (c ∷ part) ∷ parts

-- The parts between the separators.
unfoldable pub split_on : ℕ → Text → List Text
unfolding prepend
split_on c [] = [] ∷ []
split_on c (x ∷ s) = let rest = split_on c s in if x == c then [] ∷ rest else prepend x rest

abbrev pub has_none : ℕ → Text → Bool
has_none c [] = true
has_none c (x ∷ s) = not (x == c) && has_none c s

pub split_on-append :
    (c : ℕ) (s t : Text) → has_none c s ≡ true → split_on c (s ++ c ∷ t) ≡ s ∷ split_on c t
unfolding split_on
split_on-append c [] t h = ground arith
split_on-append c (x ∷ s) t h = ground (arith, split_on-append c s t)

pub split_on_plain : (c : ℕ) (s : Text) → has_none c s ≡ true → split_on c s ≡ s ∷ []
unfolding split_on
split_on_plain c [] h = refl
split_on_plain c (x ∷ s) h = ground (arith, split_on_plain c s)

pub has_none-append :
    (c : ℕ) (s t : Text) → has_none c s ≡ true → has_none c t ≡ true → has_none c (s ++ t) ≡ true
has_none-append c [] t h k = k
has_none-append c (x ∷ s) t h k = ground (arith, has_none-append c s t)
