-- ===== src/Regex/Only.antt =====
-- Which bytes a matching text can hold.
use patrabahok.Base.{◌++◌, [], ◌∷◌, ℕ, ◌≡◌, sym, ap, ◌∙◌, subst, true, inl, inr, All, All-append}
use patrabahok.Base.Text.{Text}
use patrabahok.Regex.{Regex, empty, epsilon, one, seq, alt, star, Repeats, stop, more, Lang}

module _ (P : ℕ → Type 0) where
  -- Every class of the pattern lies within `P`.
  abbrev pub HasOnly : Regex → Type 0
  HasOnly empty = Unit
  HasOnly epsilon = Unit
  HasOnly (one p) = (c : ℕ) → p c ≡ true → P c
  HasOnly (seq a b) = HasOnly a × HasOnly b
  HasOnly (alt a b) = HasOnly a × HasOnly b
  HasOnly (star a) = HasOnly a

  Repeats-All :
      (L : Text → Type 0) → ((u : Text) → L u → All P u) → {s : Text} → Repeats L s → All P s
  Repeats-All L each (stop e) = subst (All P) (sym e) tt
  Repeats-All L each (more u v e k rest) =
      subst (All P) (sym e) (All-append P u v (each u k) (Repeats-All L each rest))

  pub Lang-All : (r : Regex) (s : Text) → HasOnly r → Lang r s → All P s
  Lang-All empty s o h = absurd h
  Lang-All epsilon s o h = subst (All P) (sym h) tt
  Lang-All (one p) s o (c, e, hit) = subst (All P) (sym e) (o c hit, tt)
  Lang-All (seq a b) s (oa, ob) (u, v, e, k, l) =
      subst (All P) (sym e) (All-append P u v (Lang-All a u oa k) (Lang-All b v ob l))
  Lang-All (alt a b) s (oa, ob) (inl h) = Lang-All a s oa h
  Lang-All (alt a b) s (oa, ob) (inr h) = Lang-All b s ob h
  Lang-All (star a) s o h = Repeats-All (Lang a) (λ u k. Lang-All a u o k) h

  -- The pattern begins with a byte in `P`, so it matches no empty text.
  abbrev pub Starts : Regex → Type 0
  Starts empty = Unit
  Starts epsilon = ⊥
  Starts (one p) = (c : ℕ) → p c ≡ true → P c
  Starts (seq a b) = Starts a
  Starts (alt a b) = Starts a × Starts b
  Starts (star a) = ⊥

  pub Lang-head :
      (r : Regex) (s : Text) → Starts r → Lang r s → (c : ℕ) × (t : Text) × (s ≡ c ∷ t) × P c
  Lang-head empty s o h = absurd h
  Lang-head epsilon s o h = absurd o
  Lang-head (one p) s o (c, e, hit) = (c, [], e, o c hit)
  Lang-head (seq a b) s o (u, v, e, k, l) =
      let (c, t, e', h) = Lang-head a u o k in (c, t ++ v, e ∙ ap (λ (w : Text). w ++ v) e', h)
  Lang-head (alt a b) s (oa, ob) (inl h) = Lang-head a s oa h
  Lang-head (alt a b) s (oa, ob) (inr h) = Lang-head b s ob h
  Lang-head (star a) s o h = absurd o
