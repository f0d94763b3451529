-- ===== src/Db/Like.antt =====
-- LIKE of MariaDB under the collation of the tables, and escapeLike of cli/internal/mailbox/groups.go.
use patrabahok.Base.{
  inr, inl, Bool-cases, ℕ, ◌≡◌, refl, ap, ◌∙◌, Bool, true, false, ◌&&◌, ◌||◌, List, [], ◌∷◌, ◌++◌,
  if◌then◌else◌, any, ◌==◌, arith,
}
use patrabahok.Base.Text.{Text}
use patrabahok.Db.{Env, same}

-- The ends of a text, itself included.
unfoldable pub tails : Text → List Text
tails [] = [] ∷ []
tails (c ∷ s) = (c ∷ s) ∷ tails s

-- strings.NewReplacer(`\`, `\\`, `%`, `\%`, `_`, `\_`)
unfoldable pub escape_like : Text → Text
escape_like [] = []
escape_like (c ∷ s) =
    let rest = escape_like s in
    if c == b'\\' || c == b'%' || c == b'_' then b'\\' ∷ c ∷ rest else c ∷ rest

module _ ⦃env : Env⦄ where
  abbrev pub same_byte : ℕ → ℕ → Bool
  same_byte c d = same (c ∷ []) (d ∷ [])

  -- What one byte of a pattern asks of the text, `rest` being the match with what follows it.
  abbrev literally : ℕ → (Text → Bool) → Text → Bool
  literally c rest [] = false
  literally c rest (d ∷ s) = same_byte c d && rest s

  abbrev skip_one : (Text → Bool) → Text → Bool
  skip_one rest [] = false
  skip_one rest (d ∷ s) = rest s

  -- `_` stands for one byte, `%` for any number, and a backslash takes the next byte as it is.
  unfoldable pub like : Text → Text → Bool
  like [] [] = true
  like [] (d ∷ s) = false
  like (c ∷ []) s =
      if c == b'%'
      then any (like []) (tails s)
      else if c == b'_'
      then skip_one (like []) s
      else literally c (like []) s
  like (c ∷ e ∷ p) s =
      if c == b'%'
      then any (like (e ∷ p)) (tails s)
      else if c == b'_'
      then skip_one (like (e ∷ p)) s
      else if c == b'\\'
      then literally e (like p) s
      else literally c (like (e ∷ p)) s

  -- The text starts with these bytes, each under the collation.
  unfoldable pub starts_with : Text → Text → Bool
  starts_with [] s = true
  starts_with (c ∷ q) [] = false
  starts_with (c ∷ q) (d ∷ s) = same_byte c d && starts_with q s

module _ ⦃env : Env⦄ where
  any-tails_end : (s : Text) → any (like []) (tails s) ≡ true
  unfolding like tails
  any-tails_end [] = refl
  any-tails_end (c ∷ s) = any-tails_end s

  like-any : (p s : Text) → like (b'%' ∷ p) s ≡ any (like p) (tails s)
  unfolding like tails
  like-any [] s = refl
  like-any (c ∷ p) s = refl

  like-escaped : (c : ℕ) (p s : Text) → like (b'\\' ∷ c ∷ p) s ≡ literally c (like p) s
  unfolding like
  like-escaped c p s = refl

  like-literal :
      (c : ℕ) (p s : Text)
      → (c == b'\\' || c == b'%' || c == b'_') ≡ false
      → like (c ∷ p) s ≡ literally c (like p) s
  unfolding like
  like-literal c [] s h = ground arith
  like-literal c (e ∷ p) s h = ground arith

  step :
      (c : ℕ) (q : Text)
      → ((s : Text) → like (escape_like q ++ b'%' ∷ []) s ≡ starts_with q s)
      → (s : Text) → literally c (like (escape_like q ++ b'%' ∷ [])) s ≡ starts_with (c ∷ q) s
  unfolding starts_with
  step c q h [] = refl
  step c q h (d ∷ s) = ap (λ b. same_byte c d && b) (h s)

  like-escape_like : (q s : Text) → like (escape_like q ++ b'%' ∷ []) s ≡ starts_with q s
  unfolding escape_like starts_with
  like-escape_like [] s = like-any [] s ∙ any-tails_end s
  like-escape_like (c ∷ q) s = elim (Bool-cases (c == b'\\' || c == b'%' || c == b'_')) [
    | inl e ↦ rw (e, like-escaped) (step c q (like-escape_like q) s)
    | inr e ↦ rw (e, like-literal c _ s e) (step c q (like-escape_like q) s)
  ]

  any_same : (p r : Text → Bool) (xs : List Text) → ((x : Text) → p x ≡ r x) → any p xs ≡ any r xs
  any_same p r [] h = refl
  any_same p r (x ∷ xs) h = rw (h x, any_same p r xs h) refl

  -- A search for an escaped query finds exactly the texts that hold the query itself somewhere,
  -- whatever of "%", "_" and backslashes stands in it.
  pub like-finds_query :
      (q s : Text) → like (b'%' ∷ escape_like q ++ b'%' ∷ []) s ≡ any (starts_with q) (tails s)
  like-finds_query q s = like-any _ s ∙ any_same _ _ (tails s) (λ x. like-escape_like q x)
