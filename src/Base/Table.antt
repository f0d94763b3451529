-- ===== src/Base/Table.antt =====
-- Tables as lists of rows, and what the SQL statements of the source do to them.
use Prim.Native.Nat.{ℕ, ◌+◌}
use mathlib.Core.Path.{◌≡◌, refl, subst}
use mathlib.Core.Bool.{Bool, true, false, ◌||◌}
use mathlib.Core.Option.{Option, none, some}
use mathlib.Core.Logic.{inl, inr}
use mathlib.Core.List.{List, [], ◌∷◌, ◌++◌}
use native.Mathlib.Omega.{arith}
use patrabahok.Base.Tests.{if◌then◌else◌, Bool-cases}
use patrabahok.Base.Lists.{All, any}

module _ {ℓ} {A : Type ℓ} where
  -- SELECT … WHERE p
  unfoldable pub rows_where : (A → Bool) → List A → List A
  rows_where p [] = []
  rows_where p (r ∷ rs) = let rest = rows_where p rs in if p r then r ∷ rest else rest

  -- SELECT … WHERE p, the first row; `none` is sql.ErrNoRows.
  unfoldable pub row_where : (A → Bool) → List A → Option A
  row_where p [] = none
  row_where p (r ∷ rs) = if p r then some r else row_where p rs

  -- DELETE … WHERE p
  unfoldable pub delete_where : (A → Bool) → List A → List A
  delete_where p [] = []
  delete_where p (r ∷ rs) = let rest = delete_where p rs in if p r then rest else r ∷ rest

  -- UPDATE … SET f WHERE p
  unfoldable pub update_where : (A → Bool) → (A → A) → List A → List A
  update_where p f [] = []
  update_where p f (r ∷ rs) = (if p r then f r else r) ∷ update_where p f rs

  -- SELECT COUNT(*) … WHERE p
  unfoldable pub count_where : (A → Bool) → List A → ℕ
  count_where p [] = 0
  count_where p (r ∷ rs) = (if p r then 1 else 0) + count_where p rs

  -- ORDER BY, for the strict order `lt`; rows that tie keep their order.
  unfoldable pub insert_by : (A → A → Bool) → A → List A → List A
  insert_by lt r [] = r ∷ []
  insert_by lt r (s ∷ rs) =
      let later = s ∷ insert_by lt r rs in if lt s r then later else r ∷ s ∷ rs

  unfoldable pub order_by : (A → A → Bool) → List A → List A
  unfolding insert_by
  order_by lt [] = []
  order_by lt (r ∷ rs) = insert_by lt r (order_by lt rs)

  -- LIMIT n OFFSET k is `take n (drop k …)` of Lists.

  pub any-append : (p : A → Bool) (rs ss : List A) → any p (rs ++ ss) ≡ (any p rs || any p ss)
  any-append p [] ss = refl
  any-append p (r ∷ rs) ss = ground (arith, any-append p rs ss)

  -- A row is found exactly when one fits.
  pub row_where-none : (p : A → Bool) (rs : List A) → row_where p rs ≡ none → any p rs ≡ false
  unfolding row_where
  row_where-none p [] h = refl
  row_where-none p (r ∷ rs) h = ground (arith, row_where-none p rs)

  pub row_where-some :
      (p : A → Bool) (rs : List A) (r : A)
      → row_where p rs ≡ some r
      → (p r ≡ true) × (any p rs ≡ true)
  unfolding row_where
  row_where-some p [] r h = cc
  row_where-some p (s ∷ rs) r h = elim (Bool-cases (p s)) [
    | inl hit ↦ let same : s ≡ r = ground arith in (subst (λ t. p t ≡ true) same hit, rw hit)
    | inr miss ↦
        let (fits, found) = row_where-some p rs r (ground arith) in (fits, rw (miss, found))
  ]

  pub row_where-append :
      (p : A → Bool) (rs ss : List A) → any p rs ≡ false → row_where p (rs ++ ss) ≡ row_where p ss
  unfolding row_where
  row_where-append p [] ss h = refl
  row_where-append p (r ∷ rs) ss h = ground (arith, row_where-append p rs ss)

  pub any-delete_where :
      (p q : A → Bool) (rs : List A) → any q rs ≡ false → any q (delete_where p rs) ≡ false
  unfolding delete_where
  any-delete_where p q [] h = refl
  any-delete_where p q (r ∷ rs) h = ground (arith, any-delete_where p q rs)

  pub any-delete_where_self : (p : A → Bool) (rs : List A) → any p (delete_where p rs) ≡ false
  unfolding delete_where
  any-delete_where_self p [] = refl
  any-delete_where_self p (r ∷ rs) = ground (arith, any-delete_where_self p rs)

module _ {ℓ κ} {A : Type ℓ} (P : A → Type κ) where
  pub All-delete_where : (p : A → Bool) (rs : List A) → All P rs → All P (delete_where p rs)
  unfolding delete_where
  All-delete_where p [] h = tt
  All-delete_where p (r ∷ rs) (k, h) = elim (Bool-cases (p r)) [
    | inl e ↦ rw e (All-delete_where p rs h)
    | inr e ↦ rw e (k, All-delete_where p rs h)
  ]

  pub All-update_where :
      (p : A → Bool) (f : A → A)
      → ((r : A) → P r → P (f r))
      → (rs : List A) → All P rs
      → All P (update_where p f rs)
  unfolding update_where
  All-update_where p f step [] h = tt
  All-update_where p f step (r ∷ rs) (k, h) = elim (Bool-cases (p r)) [
    | inl e ↦ rw e (step r k, All-update_where p f step rs h)
    | inr e ↦ rw e (k, All-update_where p f step rs h)
  ]

  pub All-row_where :
      (p : A → Bool) (rs : List A) (r : A) → All P rs → row_where p rs ≡ some r → P r
  unfolding row_where
  All-row_where p [] r h e = cc
  All-row_where p (s ∷ rs) r (k, h) e = elim (Bool-cases (p s)) [
    | inl hit ↦ let same : s ≡ r = ground arith in subst P same k
    | inr miss ↦ All-row_where p rs r h (ground arith)
  ]
