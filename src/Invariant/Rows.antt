-- ===== src/Invariant/Rows.antt =====
-- Laws of tests over rows that were appended, deleted or updated.
use patrabahok.Base.{
  inr, inl, ◌≡◌, refl, ◌∙◌, Bool, true, false, ◌&&◌, List, [], ◌∷◌, ◌++◌, arith, All, any,
  Bool-cases,
}
use patrabahok.Base.Table.{delete_where, update_where, any-append}

module _ {ℓ} {A : Type ℓ} where
  pub any-append_left : (p : A → Bool) (xs ys : List A) → any p xs ≡ true → any p (xs ++ ys) ≡ true
  any-append_left p xs ys h = any-append p xs ys ∙ (rw h refl)

  -- A row that fits `p` survives a deletion that spares all that fit `e`.
  pub any-delete_where_apart :
      (p d e : A → Bool) (xs : List A)
      → ((x : A) → p x ≡ true → e x ≡ true)
      → any (λ x. d x && e x) xs ≡ false
      → any p xs ≡ true
      → any p (delete_where d xs) ≡ true
  unfolding delete_where
  any-delete_where_apart p d e [] k n h = cc
  any-delete_where_apart p d e (x ∷ xs) k n h = elim (Bool-cases (p x)) [
    | inl hit ↦ let spared : d x ≡ false = ground (arith, k x hit) in rw spared (rw hit refl)
    | inr miss ↦
        let later = any-delete_where_apart p d e xs k (ground arith) (ground arith) in
        elim (Bool-cases (d x)) [ inl gone ↦ rw gone later | inr stays ↦ rw (stays, miss) later ]
  ]

  -- A test that an update does not change.
  pub any-update_where :
      (p q : A → Bool) (f : A → A) (xs : List A)
      → ((x : A) → p (f x) ≡ p x)
      → any p (update_where q f xs) ≡ any p xs
  unfolding update_where
  any-update_where p q f [] k = refl
  any-update_where p q f (x ∷ xs) k = elim (Bool-cases (q x)) [
    | inl hit ↦ rw hit (rw (k x, any-update_where p q f xs k) refl)
    | inr miss ↦ rw miss (rw (any-update_where p q f xs k) refl)
  ]

module _ {ℓ κ} {A : Type ℓ} (P Q : A → Type κ) where
  -- What survives a deletion satisfied P and was not deleted.
  pub All-delete_where_kept :
      (d : A → Bool) (xs : List A)
      → ((x : A) → P x → d x ≡ false → Q x)
      → All P xs
      → All Q (delete_where d xs)
  unfolding delete_where
  All-delete_where_kept d [] k h = tt
  All-delete_where_kept d (x ∷ xs) k (p, h) = elim (Bool-cases (d x)) [
    | inl gone ↦ rw gone (All-delete_where_kept d xs k h)
    | inr stays ↦ rw stays (k x p stays, All-delete_where_kept d xs k h)
  ]

  -- What no row fits, no row of the list fits.
  pub All-of_any :
      (q : A → Bool) (xs : List A)
      → ((x : A) → P x → q x ≡ false → Q x)
      → any q xs ≡ false
      → All P xs
      → All Q xs
  All-of_any q [] k n h = tt
  All-of_any q (x ∷ xs) k n (p, h) = (k x p (ground arith), All-of_any q xs k (ground arith) h)
