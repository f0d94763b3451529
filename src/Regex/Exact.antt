-- ===== src/Regex/Exact.antt =====
-- The matcher accepts exactly the language of the pattern.
use patrabahok.Base.{
  ℕ, ◌≡◌, refl, sym, ap, ◌∙◌, subst, true, inl, inr, ◌↔◌, [], ◌∷◌, ◌++◌, arith, Bool-cases, &&_true,
}
use patrabahok.Base.Text.{Text}
use patrabahok.Regex.{
  Regex, empty, epsilon, one, seq, alt, star, nullable, seq_of, alt_of, after, match_string,
  Repeats, stop, more, Lang,
}

nullable_sound : (r : Regex) → nullable r ≡ true → Lang r []
unfolding nullable
nullable_sound empty h = cc
nullable_sound epsilon h = refl
nullable_sound (one p) h = cc
nullable_sound (seq a b) h =
    let (ha, hb) = &&_true (nullable a) (nullable b) h in
    ([], [], refl, nullable_sound a ha, nullable_sound b hb)
nullable_sound (alt a b) h = elim (Bool-cases (nullable a)) [
  | inl e ↦ inl (nullable_sound a e)
  | inr e ↦ inr (nullable_sound b (ground arith))
]
nullable_sound (star a) h = stop refl

Lang-seq_of : (a b : Regex) (s : Text) → Lang (seq_of a b) s → Lang (seq a b) s
unfolding seq_of
Lang-seq_of empty b s h = absurd h
Lang-seq_of epsilon b s h = ([], s, refl, refl, h)
Lang-seq_of _ b s h = h

Lang-alt_of : (a b : Regex) (s : Text) → Lang (alt_of a b) s → Lang (alt a b) s
unfolding alt_of
Lang-alt_of empty b s h = inr h
Lang-alt_of epsilon empty s h = inl h
Lang-alt_of (one p) empty s h = inl h
Lang-alt_of (seq a b) empty s h = inl h
Lang-alt_of (alt a b) empty s h = inl h
Lang-alt_of (star a) empty s h = inl h
Lang-alt_of _ _ s h = h

-- The first part of a sequence takes the byte.
seq_first :
    (c : ℕ) (a b : Regex) (s : Text)
    → ((u : Text) → Lang (after c a) u → Lang a (c ∷ u))
    → Lang (seq_of (after c a) b) s
    → Lang (seq a b) (c ∷ s)
seq_first c a b s ih h =
    let (u, v, e, k, l) = Lang-seq_of (after c a) b s h in (c ∷ u, v, ap (λ t. c ∷ t) e, ih u k, l)

after_sound : (c : ℕ) (r : Regex) (s : Text) → Lang (after c r) s → Lang r (c ∷ s)
unfolding after
after_sound c empty s h = absurd h
after_sound c epsilon s h = absurd h
after_sound c (one p) s h = elim (Bool-cases (p c)) [
  | inl e ↦ let f : s ≡ [] = (rw e at h) in (c, ap (λ t. c ∷ t) f, e)
  | inr e ↦ absurd (rw e at h)
]
after_sound c (seq a b) s h = elim (Bool-cases (nullable a)) [
  | inl e ↦ elim (Lang-alt_of (seq_of (after c a) b) (after c b) s (rw e at h)) [
    | inl k ↦ seq_first c a b s (after_sound c a) k
    | inr k ↦ ([], c ∷ s, refl, nullable_sound a e, after_sound c b s k)
  ]
  | inr e ↦ seq_first c a b s (after_sound c a) (rw e at h)
]
after_sound c (alt a b) s h = elim (Lang-alt_of (after c a) (after c b) s h) [
  | inl k ↦ inl (after_sound c a s k)
  | inr k ↦ inr (after_sound c b s k)
]
after_sound c (star a) s h =
    let (u, v, e, k, rest) = Lang-seq_of (after c a) (star a) s h in
    more (c ∷ u) v (ap (λ t. c ∷ t) e) (after_sound c a u k) rest

match_sound : (r : Regex) (s : Text) → match_string r s ≡ true → Lang r s
unfolding match_string
match_sound r [] h = nullable_sound r h
match_sound r (c ∷ s) h = after_sound c r s (match_sound (after c r) s h)

-- Two texts that join to nothing are empty.
append-eq-nil : (u v : Text) → [] ≡ u ++ v → (u ≡ []) × (v ≡ [])
append-eq-nil [] v e = (refl, sym e)
append-eq-nil (x ∷ u) v e = cc

nullable_complete : (r : Regex) → Lang r [] → nullable r ≡ true
unfolding nullable
nullable_complete empty h = absurd h
nullable_complete epsilon h = refl
nullable_complete (one p) (c, e, f) = cc
nullable_complete (seq a b) (u, v, e, k, l) =
    let (eu, ev) = append-eq-nil u v e in
    let ka : Lang a [] = subst (Lang a) eu k in
    let lb : Lang b [] = subst (Lang b) ev l in rw (nullable_complete a ka, nullable_complete b lb)
nullable_complete (alt a b) (inl h) = rw (nullable_complete a h)
nullable_complete (alt a b) (inr h) = ground (arith, nullable_complete b h)
nullable_complete (star a) h = refl

seq_of-Lang : (a b : Regex) (s : Text) → Lang (seq a b) s → Lang (seq_of a b) s
unfolding seq_of
seq_of-Lang empty b s (u, v, e, k, l) = absurd k
seq_of-Lang epsilon b s (u, v, e, k, l) = subst (Lang b) (sym (e ∙ ap (λ (t : Text). t ++ v) k)) l
seq_of-Lang _ b s h = h

alt_of-Lang : (a b : Regex) (s : Text) → Lang (alt a b) s → Lang (alt_of a b) s
unfolding alt_of
alt_of-Lang empty b s (inl h) = absurd h
alt_of-Lang empty b s (inr h) = h
alt_of-Lang epsilon empty s (inl h) = h
alt_of-Lang epsilon empty s (inr h) = absurd h
alt_of-Lang (one p) empty s (inl h) = h
alt_of-Lang (one p) empty s (inr h) = absurd h
alt_of-Lang (seq a b) empty s (inl h) = h
alt_of-Lang (seq a b) empty s (inr h) = absurd h
alt_of-Lang (alt a b) empty s (inl h) = h
alt_of-Lang (alt a b) empty s (inr h) = absurd h
alt_of-Lang (star a) empty s (inl h) = h
alt_of-Lang (star a) empty s (inr h) = absurd h
alt_of-Lang _ _ s h = h

-- A repetition that is not empty starts with a part that is not.
Repeats-head :
    (P : Text → Type 0) (c : ℕ) (s : Text) {t : Text}
    → Repeats P t
    → t ≡ c ∷ s
    → (u : Text) × (v : Text) × (s ≡ u ++ v) × P (c ∷ u) × Repeats P v
Repeats-head P c s (stop e) q = absurd (cc)
Repeats-head P c s (more [] v e p rest) q = Repeats-head P c s rest (sym e ∙ q)
Repeats-head P c s (more (d ∷ u) v e p rest) q =
    let same : d ≡ c = (cc) in (u, v, (cc), subst (λ x. P (x ∷ u)) same p, rest)

after_complete : (c : ℕ) (r : Regex) (s : Text) → Lang r (c ∷ s) → Lang (after c r) s
unfolding after
after_complete c empty s h = h
after_complete c epsilon s h = absurd (cc)
after_complete c (one p) s (d, e, f) =
    let same : d ≡ c = (cc) in
    let hit : p c ≡ true = subst (λ x. p x ≡ true) same f in
    let nothing : s ≡ [] = (cc) in rw hit nothing
after_complete c (seq a b) s ([], v, e, k, l) = rw (nullable_complete a k) (
    alt_of-Lang (seq_of (after c a) b) (after c b) s
      (inr (after_complete c b s (subst (Lang b) (sym e) l))))
after_complete c (seq a b) s (d ∷ u, v, e, k, l) =
    let same : d ≡ c = (cc) in
    let cut : s ≡ u ++ v = (cc) in
    let first : Lang (seq_of (after c a) b) s =
      seq_of-Lang (after c a) b s
        (u, v, cut, after_complete c a u (subst (λ x. Lang a (x ∷ u)) same k), l) in
    elim (Bool-cases (nullable a)) [
      | inl n ↦ rw n (alt_of-Lang (seq_of (after c a) b) (after c b) s (inl first))
      | inr n ↦ rw n first
    ]
after_complete c (alt a b) s (inl h) =
    alt_of-Lang (after c a) (after c b) s (inl (after_complete c a s h))
after_complete c (alt a b) s (inr h) =
    alt_of-Lang (after c a) (after c b) s (inr (after_complete c b s h))
after_complete c (star a) s h =
    let (u, v, e, k, rest) = Repeats-head (Lang a) c s h refl in
    seq_of-Lang (after c a) (star a) s (u, v, e, after_complete c a u k, rest)

match_complete : (r : Regex) (s : Text) → Lang r s → match_string r s ≡ true
unfolding match_string
match_complete r [] h = nullable_complete r h
match_complete r (c ∷ s) h = match_complete (after c r) s (after_complete c r s h)

-- A text matches exactly when it is in the language of the pattern.
pub match_string_iff : (r : Regex) (s : Text) → (match_string r s ≡ true) ↔ Lang r s
match_string_iff r s = (match_sound r s, match_complete r s)
