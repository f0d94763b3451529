-- ===== src/Base/Trim.antt =====
-- Laws of trimming at the end.
use patrabahok.Base.Text.{Text, trim_right, is_empty}
use mathlib.Core.Path.{◌≡◌, refl}
use mathlib.Core.Bool.{Bool, true, false}
use mathlib.Core.List.{[], ◌∷◌, ◌++◌}
use Prim.Native.Nat.{ℕ}
use native.Mathlib.Omega.{arith}

append-nonempty : (s t : Text) → is_empty t ≡ false → is_empty (s ++ t) ≡ false
append-nonempty [] t h = h
append-nonempty (x ∷ s) t h = refl

module _ (p : ℕ → Bool) where
  -- Only the last part is trimmed, if something of it is left.
  pub trim_right-append :
      (s t : Text) → is_empty (trim_right p t) ≡ false → trim_right p (s ++ t) ≡ s ++ trim_right p t
  unfolding trim_right
  trim_right-append [] t h = refl
  trim_right-append (x ∷ s) t h =
      rw (trim_right-append s t h) (rw (append-nonempty s (trim_right p t) h) (ground arith))

  -- A byte to trim at the very end goes.
  pub trim_right-last :
      (v : Text) (c : ℕ) → p c ≡ true → trim_right p (v ++ c ∷ []) ≡ trim_right p v
  unfolding trim_right
  trim_right-last [] c h = rw h
  trim_right-last (x ∷ v) c h = rw (trim_right-last v c h)
