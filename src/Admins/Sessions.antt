-- ===== src/Admins/Sessions.antt =====
-- Which sessions of cli/internal/adminauth/adminauth.go are live.
use patrabahok.Base.{
  ◌+◌, ◌<◌, ◌⊎◌, inl, inr, ltb, take, ◌++◌, ◌∙◌, ap, inr, subst, inl, Bool-cases, ℕ, ◌≡◌, refl,
  Bool, true, false, ◌&&◌, Option, none, some, List, [], ◌∷◌, any, arith, ◌==◌,
}
use patrabahok.Base.Text.{Text, text_eq_refl}
use patrabahok.Base.Table.{
  row_where, row_where-some, row_where-append, delete_where, any-delete_where_self,
  any-delete_where,
}
use patrabahok.Address.{Result, ok, err, other, database}
use patrabahok.Db.{Env, State, AdminRow, SessionRow, same}
use patrabahok.Db.Rules.{
  Runs, Then, Runs-pure, Runs-bind, Runs-random-bind, Runs-exec, Runs-exec-bind,
  Runs-refuse_if-bind, Runs-attempt-bind,
}
use patrabahok.Passwords.{hash_admin_password}
use patrabahok.Admins.{
  Argon2, admin_with_id, session_user, is_live, belongs_to, delete_sessions_of, change_password,
  insert_session, hash_session_token, session_ttl, open_session, generate_token, time_now,
  delete_expired, create_session,
}
use patrabahok.Keys.{hex}

module _ {ℓ} {A : Type ℓ} where
  row_where-any :
      (p q : A → Bool) (rs : List A) (r : A)
      → any p rs ≡ false
      → row_where q rs ≡ some r
      → p r ≡ false
  unfolding row_where
  row_where-any p q [] r h e = cc
  row_where-any p q (s ∷ rs) r h e = elim (Bool-cases (q s)) [
    | inl hit ↦ let found : s ≡ r = ground arith in subst (λ t. p t ≡ false) found (ground arith)
    | inr miss ↦ row_where-any p q rs r (ground arith) (ground arith)
  ]

  row_where_first : (p : A → Bool) (r : A) → p r ≡ true → row_where p (r ∷ []) ≡ some r
  unfolding row_where
  row_where_first p r h = rw h refl

module _ ⦃env : Env⦄ where
  found_from :
      (s : State) (o : Option SessionRow) (u : AdminRow)
      → elim o [ none ↦ none | some x ↦ admin_with_id x.admin_user_id s ] ≡ some u
      → (x : SessionRow) × (o ≡ some x) × (admin_with_id x.admin_user_id s ≡ some u)
  found_from s none u e = cc
  found_from s (some x) u e = (x, refl, e)

  session_user_found :
      (hash : Text) (s : State) (u : AdminRow)
      → session_user hash s ≡ some u
      → (x : SessionRow) × (row_where (is_live hash s) s.sessions ≡ some x)
        × (admin_with_id x.admin_user_id s ≡ some u)
  unfolding session_user
  session_user_found hash s u e = found_from s (row_where (is_live hash s) s.sessions) u e

  not_of_name :
      (username : Text) (s : State) (id : ℕ) (u : AdminRow)
      → any (λ v. v.id == id && same v.username username) s.admins ≡ false
      → admin_with_id id s ≡ some u
      → same u.username username ≡ false
  unfolding admin_with_id
  not_of_name username s id u h e =
      let (matches, _) = row_where-some (λ v. v.id == id) s.admins u e in
      let other_name =
        row_where-any (λ v. v.id == id && same v.username username) (λ v. v.id == id) s.admins u h
          e in
      ground arith

  abbrev pub NoSessionOf : Text → State → Type 0
  NoSessionOf username t =
      (hash : Text) (u : AdminRow) → session_user hash t ≡ some u → same u.username username ≡ false

  delete_sessions_of-NoSessionOf :
      (username : Text) (s : State) → NoSessionOf username (delete_sessions_of username s).1
  unfolding delete_sessions_of belongs_to
  delete_sessions_of-NoSessionOf username s hash u e =
      let t = (delete_sessions_of username s).1 in
      let (x, live, holder) = session_user_found hash t u e in
      let gone = any-delete_where_self (belongs_to username s) s.sessions in
      let foreign = row_where-any (belongs_to username s) (is_live hash t) t.sessions x gone live in
      not_of_name username t x.admin_user_id u foreign holder

  abbrev pub SignedOut : Text → State → Result (Unit {0}) → State → Type 0
  SignedOut username s (ok _) t = NoSessionOf username t
  SignedOut username s (err e) t = t.sessions ≡ s.sessions

  -- Whatever calls fail, after a change of password that succeeds no session finds an account
  -- with that name; a change that fails leaves the sessions as they were.
  pub change_password-SignedOut :
      (argon : Argon2) (username new_password : Text) (s : State)
      → Runs s (change_password argon username new_password) (SignedOut username s)
  unfolding change_password hash_admin_password
  change_password-SignedOut argon username new_password s =
      let Q = SignedOut username s in
      Runs-bind Q _ _ (
        Runs-random-bind (Then Q _) _ refl (
          Runs-pure (Then Q _) _ (
            Runs-exec-bind Q _ _ refl (
              Runs-refuse_if-bind Q _ other _ (λ _. refl)
                (λ _.
                  Runs-exec Q (delete_sessions_of username) refl
                    (delete_sessions_of-NoSessionOf username _))))))

  no_live :
      (hash : Text) (s : State) (xs : List SessionRow)
      → any (λ x. same x.token_hash hash) xs ≡ false
      → any (is_live hash s) xs ≡ false
  unfolding is_live
  no_live hash s [] h = refl
  no_live hash s (x ∷ xs) h = ground (arith, no_live hash s xs)

  live_row :
      (row : SessionRow) (s : State)
      → s.now < row.expires_at
      → any (λ v. v.id == row.admin_user_id) s.admins ≡ true
      → is_live row.token_hash s row ≡ true
  unfolding is_live same
  live_row row s later there = rw (text_eq_refl, there) (ground arith)

  opened :
      (row : SessionRow) (s : State) (u : AdminRow)
      → any (λ x. same x.token_hash row.token_hash) s.sessions ≡ false
      → admin_with_id row.admin_user_id s ≡ some u
      → s.now < row.expires_at
      → ((insert_session row s).0 ≡ true)
        × (session_user row.token_hash (insert_session row s).1 ≡ some u)
  unfolding insert_session session_user admin_with_id
  opened row s u fresh holder later =
      let (_, there) = row_where-some (λ v. v.id == row.admin_user_id) s.admins u holder in
      let t = record s { sessions = s.sessions ++ row ∷ [] } in
      let found =
        row_where-append (is_live row.token_hash t) s.sessions (row ∷ [])
          (no_live row.token_hash t s.sessions fresh)
        ∙ row_where_first (is_live row.token_hash t) row (live_row row t later there) in
      rw (fresh, there) (refl, rw (session_user, found) holder)

  abbrev pub SignedIn : AdminRow → State → Result (Text × ℕ) → State → Type 0
  SignedIn u s (ok (token, expires)) t =
      (session_user (hash_session_token token) t ≡ some u) × (expires ≡ s.now + session_ttl)
  SignedIn u s (err e) t =
      (t.sessions ≡ s.sessions)
      ⊎ (t.sessions ≡ delete_where (λ x. ltb x.expires_at s.now) s.sessions)

  abbrev pub next_session_token : State → Text
  next_session_token s = hex (take 32 (s.entropy s.draws))

  abbrev session_row : ℕ → Text → Text → State → SessionRow
  session_row user_id ip user_agent t = record {
    admin_user_id = user_id;
    token_hash = hash_session_token (next_session_token t);
    expires_at = t.now + session_ttl;
    ip_address = ip;
    user_agent = user_agent;
  }

  open_session-SignedIn :
      (user_id : ℕ) (ip user_agent : Text) (s t : State) (u : AdminRow)
      → admin_with_id user_id t ≡ some u
      → any (λ x. same x.token_hash (hash_session_token (next_session_token t))) t.sessions ≡ false
      → t.now ≡ s.now
      → ((t.sessions ≡ s.sessions)
          ⊎ (t.sessions ≡ delete_where (λ x. ltb x.expires_at s.now) s.sessions))
      → Runs t (open_session user_id ip user_agent) (SignedIn u s)
  unfolding open_session generate_token time_now admin_with_id
  open_session-SignedIn user_id ip user_agent s t u holder fresh same_time kept =
      let Q = SignedIn u s in
      let row = session_row user_id ip user_agent t in
      let (stored, found) =
        opened row (record t { draws = t.draws + 1 }) u fresh holder (omega arith) in
      Runs-bind Q _ _ (
        Runs-random-bind (Then Q _) _ kept (
          Runs-pure (Then Q _) (next_session_token t) (
            Runs-bind Q time_now _ (record {
              at = λ fs. Runs-exec-bind Q (insert_session row) _ kept (
                  Runs-refuse_if-bind Q _ database _ (λ bad. absurd (ground (arith, stored)))
                    (λ _.
                      Runs-pure Q (next_session_token t, t.now + session_ttl)
                        (found, ap (λ n. n + session_ttl) same_time)));
            }))))

  -- If an account has the id and the token that the random source gives has the hash of no
  -- session yet, then whatever calls fail, the hash of the token that is returned finds the
  -- account, with an expiry seven days ahead; a failure leaves the sessions as they were, or
  -- without the expired ones.
  pub create_session-SignedIn :
      (user_id : ℕ) (ip user_agent : Text) (s : State) (u : AdminRow)
      → admin_with_id user_id s ≡ some u
      → any (λ x. same x.token_hash (hash_session_token (next_session_token s))) s.sessions ≡ false
      → Runs s (create_session user_id ip user_agent) (SignedIn u s)
  unfolding create_session delete_expired admin_with_id
  create_session-SignedIn user_id ip user_agent s u holder fresh =
      Runs-attempt-bind (SignedIn u s) _ _ (
        Runs-exec _ _
          (open_session-SignedIn user_id ip user_agent s s u holder fresh refl (inl refl))
          (open_session-SignedIn user_id ip user_agent s _ u holder
            (any-delete_where _ _ s.sessions fresh) refl (inr refl)))
