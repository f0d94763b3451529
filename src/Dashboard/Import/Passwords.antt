-- ===== src/Dashboard/Import/Passwords.antt =====
-- The passwords that the import makes up: generatePassword of handlers_users.go.
use patrabahok.Base.{
  ◌∙◌, ap, ℕ, zero, suc, ◌<◌, ◌≡◌, refl, Bool, true, ◌&&◌, not, [], ◌∷◌, any, ltb, ◌==◌, length,
  All, All-of_all, arith,
}
use patrabahok.Base.Text.{Text, codes, rune_count}
use patrabahok.Address.{Result, ok, err, panic}
use patrabahok.Db.{Env, State, random, attempt, ◌>>=◌}
use patrabahok.Db.Rules.{
  Runs, Runs-pure, Runs-fail, Runs-seq, Runs-attempt-bind, Runs_mono, Runs-call,
}
use patrabahok.Mailboxes.{validate_password}
use patrabahok.Dashboard.Import.{alphabet, letter_at, drawn_letter, draw_letters, generate_password}

-- What crypto/rand says of rand.Int.
abbrev pub IsBelow : (ℕ → Text → ℕ) → Type 0
IsBelow rand_int = (max : ℕ) (bytes : Text) → 0 < max → rand_int max bytes < max

abbrev pub is_lookalike : ℕ → Bool
is_lookalike c = any (λ x. x == c) (codes "0O1lI")

-- A letter of the alphabet, none that looks like another, and a byte of ASCII.
abbrev pub is_readable : ℕ → Bool
is_readable c = any (λ x. x == c) alphabet && (not (is_lookalike c) && ltb c 128)

letter_at-All : (P : ℕ → Type 0) (n : ℕ) (s : Text) → n < length s → All P s → P (letter_at n s)
unfolding letter_at
letter_at-All P n [] h ps = absurd (omega (arith, h))
letter_at-All P zero (c ∷ s) h (p, ps) = p
letter_at-All P (suc n) (c ∷ s) h (p, ps) = letter_at-All P n s (omega (arith, h)) ps

rune_count-ascii : (s : Text) → All (λ c. is_readable c ≡ true) s → rune_count s ≡ length s
unfolding rune_count
rune_count-ascii [] h = refl
rune_count-ascii (c ∷ s) (p, h) = ground (arith, rune_count-ascii s h)

Readable : ℕ → Result Text → State → Type 0
Readable n (ok p) t = (length p ≡ n) × All (λ c. is_readable c ≡ true) p
Readable n (err e) t = e ≡ panic

ReadableLetter : Result ℕ → State → Type 0
ReadableLetter (ok c) t = is_readable c ≡ true
ReadableLetter (err e) t = e ≡ panic

-- A password of 14 such letters, which is valid.
abbrev pub Generated : Result Text → State → Type 0
Generated (ok p) t =
    (length p ≡ 14) × All (λ c. is_readable c ≡ true) p × (validate_password p ≡ ok tt)
Generated (err e) t = e ≡ panic

module _ ⦃env : Env⦄ (rand_int : ℕ → Text → ℕ) (below : IsBelow rand_int) where
  drawn_letter-Readable :
      (s : State) → Runs s (attempt random >>= drawn_letter rand_int) ReadableLetter
  unfolding drawn_letter random ReadableLetter
  drawn_letter-Readable s = Runs-attempt-bind ReadableLetter random (drawn_letter rand_int) (
      Runs-call _ _ _ (Runs-fail ReadableLetter panic refl) (
        Runs-pure ReadableLetter _ (
          letter_at-All (λ c. is_readable c ≡ true) _ alphabet (below _ _ (omega arith))
            (All-of_all is_readable alphabet refl))))

  draw_letters-Readable : (n : ℕ) (s : State) → Runs s (draw_letters rand_int n) (Readable n)
  unfolding draw_letters Readable ReadableLetter
  draw_letters-Readable zero s = Runs-pure (Readable zero) [] (refl, tt)
  draw_letters-Readable (suc n) s =
      Runs-seq ReadableLetter (Readable (suc n)) _ _ (drawn_letter-Readable s) (λ e t h. h)
        (λ c t h.
          Runs-seq (Readable n) (Readable (suc n)) _ _ (draw_letters-Readable n t) (λ e u k. k)
            (λ p u k. Runs-pure (Readable (suc n)) (c ∷ p) (ap suc k.0, (h, k.1))))

  readable_is_valid :
      (p : Text) → length p ≡ 14 → rune_count p ≡ length p → validate_password p ≡ ok tt
  unfolding validate_password
  readable_is_valid p h k = rw (k ∙ h) refl

  Readable-Generated : (r : Result Text) (t : State) → Readable 14 r t → Generated r t
  unfolding Readable
  Readable-Generated (ok p) t (n, h) = (n, h, readable_is_valid p n (rune_count-ascii p h))
  Readable-Generated (err e) t h = h

  -- If rand.Int gives numbers below its bound, a password that is generated has 14 letters, all
  -- of the alphabet and of ASCII and none of 0, O, 1, l and I, and it is a valid password;
  -- generating one fails only by a panic.
  pub generate_password-Generated : (s : State) → Runs s (generate_password rand_int) Generated
  unfolding generate_password
  generate_password-Generated s = Runs_mono Readable-Generated (draw_letters-Readable 14 s)
