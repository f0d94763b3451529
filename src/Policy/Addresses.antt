-- ===== src/Policy/Addresses.antt =====
-- The addresses that the policy compares: lowered, and without a tag.
use patrabahok.Base.{
  take-append, suc, none, All-append_left, some, ℕ, ◌≡◌, ◌≢◌, refl, ap, ◌∙◌, [], ◌∷◌, ◌++◌, arith,
  All, length, take,
}
use patrabahok.Base.Text.{Text, to_lower, trim_space, index_byte}
use patrabahok.Address.Shape.{cut-append}
use patrabahok.Policy.{strip_tag, normalize}

index_byte-append :
    (b : ℕ) (u v : Text) → All (λ c. c ≢ b) u → index_byte b (u ++ b ∷ v) ≡ some (length u)
unfolding index_byte
index_byte-append b [] v h = ground arith
index_byte-append b (c ∷ u) v (k, h) = rw (index_byte-append b u v h) (ground arith)

index_byte-none : (b : ℕ) (u : Text) → All (λ c. c ≢ b) u → index_byte b u ≡ none
unfolding index_byte
index_byte-none b [] h = refl
index_byte-none b (c ∷ u) (k, h) = rw (index_byte-none b u h) (ground arith)

strip_at : (l : Text) (i : ℕ) → index_byte b'+' l ≡ some (suc i) → strip_tag l ≡ take (suc i) l
unfolding strip_tag
strip_at l i e = rw (e, strip_tag) (ground arith)

-- A tag behind a name that is not empty is dropped.
strip_tag-append :
    (c : ℕ) (u tag : Text) → All (λ x. x ≢ b'+') (c ∷ u) → strip_tag ((c ∷ u) ++ b'+' ∷ tag) ≡ c ∷ u
strip_tag-append c u tag h =
    (strip_at ((c ∷ u) ++ b'+' ∷ tag) (length u) (index_byte-append b'+' (c ∷ u) tag h))
    ∙ take-append (c ∷ u) (b'+' ∷ tag)

strip_tag-plain : (u : Text) → All (λ x. x ≢ b'+') u → strip_tag u ≡ u
unfolding strip_tag
strip_tag-plain u h = rw (index_byte-none b'+' u h, strip_tag)

normalize-split :
    (a l d : Text)
    → to_lower (trim_space a) ≡ l ++ b'@' ∷ d
    → All (λ c. c ≢ b'@') l
    → normalize a ≡ strip_tag l ++ b'@' ∷ d
unfolding normalize
normalize-split a l d e h = rw e (rw (cut-append b'@' l d h) refl)

-- An address with a tag behind a name that is not empty and holds no plus sign, and the address
-- without the tag, are both read as the lowered name at the lowered domain, whatever blanks
-- surround them.
pub normalize_tagged :
    (a b : Text) (c : ℕ) (u tag d : Text)
    → to_lower (trim_space a) ≡ ((c ∷ u) ++ b'+' ∷ tag) ++ b'@' ∷ d
    → to_lower (trim_space b) ≡ (c ∷ u) ++ b'@' ∷ d
    → All (λ x. x ≢ b'@') ((c ∷ u) ++ b'+' ∷ tag)
    → All (λ x. x ≢ b'+') (c ∷ u)
    → (normalize a ≡ (c ∷ u) ++ b'@' ∷ d) × (normalize b ≡ (c ∷ u) ++ b'@' ∷ d)
normalize_tagged a b c u tag d ea eb at plus =
    let left = All-append_left (λ x. x ≢ b'@') (c ∷ u) (b'+' ∷ tag) at in
    (
      normalize-split a ((c ∷ u) ++ b'+' ∷ tag) d ea at
          ∙ ap (λ t. t ++ b'@' ∷ d) (strip_tag-append c u tag plus),
      normalize-split b (c ∷ u) d eb left ∙ ap (λ t. t ++ b'@' ∷ d) (strip_tag-plain (c ∷ u) plus),
    )
