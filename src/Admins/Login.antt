-- ===== src/Admins/Login.antt =====
-- Signing in after a change of password, by cli/internal/adminauth/adminauth.go.
use patrabahok.Base.{
  ◌≡◌, ◌≢◌, refl, ap, ◌∙◌, inl, inr, true, false, not, ◌&&◌, Option, none, some, List, [], ◌∷◌,
  take, ◌==◌, arith, Bool-cases,
}
use patrabahok.Base.Text.{Text, text_eq, text_eq_iff}
use patrabahok.Base.Base64.{IsBytes}
use patrabahok.Base.Table.{row_where, update_where, count_where}
use patrabahok.Address.{Result, ok, err, other}
use patrabahok.Db.{Env, State, AdminRow, same, ◌>>◌}
use patrabahok.Db.Rules.{
  Runs-seq, Runs, Then, Runs-pure, Runs-bind, Runs-random-bind, Runs-exec, Runs-exec-bind,
  Runs-query-bind, Runs-refuse_if-bind, Runs-attempt-bind,
}
use patrabahok.Passwords.{Argon2, encoded_hash, hash_admin_password, salt_len, verify_password}
use patrabahok.Passwords.RoundTrip.{IsArgon2, key_of, verify_password-encoded_hash}
use patrabahok.Admins.{
  AdminUser, admin_user, admin_named, admitted, authenticated, authenticate, change_password,
  update_password, delete_sessions_of,
}

module _ ⦃env : Env⦄ where
  -- Where a hash changes, the account with the name is there, and has the new one.
  found-update :
      (username hash : Text) (us : List AdminRow)
      → (count_where (λ u. same u.username username && not (text_eq u.password_hash hash)) us == 0)
        ≡ false
      → (u : AdminRow) × (row_where
            (λ v. same v.username username)
            (update_where
              (λ v. same v.username username)
              (λ v. record v { password_hash = hash })
              us)
          ≡ some u)
        × (same u.username username ≡ true)
        × (u.password_hash ≡ hash)
  unfolding row_where update_where count_where
  found-update username hash [] h = cc
  found-update username hash (v ∷ us) h = elim (Bool-cases (same v.username username)) [
    | inl hit ↦ (record v { password_hash = hash }, rw hit (rw hit refl), hit, refl)
    | inr miss ↦
        let (u, found, named, hashed) = found-update username hash us (ground arith) in
        (u, rw miss (rw miss found), named, hashed)
  ]

  -- The answer to a password, for the salt of the last hash.
  abbrev pub SignsIn :
      Argon2 → Text → Text → Text → Text → Result (Option AdminUser) → State → Type 0
  SignsIn argon salt username new p (ok (some u)) t =
      (same u.username username ≡ true) × (key_of argon salt p ≡ key_of argon salt new)
  SignsIn argon salt username new p (ok none) t = key_of argon salt p ≢ key_of argon salt new
  SignsIn argon salt username new p (err e) t = Unit {0}

  authenticated-SignsIn :
      (argon : Argon2) (salt username new p : Text) (u : AdminRow) (s : State)
      → IsArgon2 argon
      → IsBytes salt
      → same u.username username ≡ true
      → u.password_hash ≡ encoded_hash argon new salt
      → Runs s (authenticated argon p (some u)) (SignsIn argon salt username new p)
  unfolding authenticated admitted admin_user
  authenticated-SignsIn argon salt username new p u s promised bytes named hashed =
      let Q = SignsIn argon salt username new p in
      let checked =
        ap (verify_password argon p) hashed
        ∙ verify_password-encoded_hash argon promised salt bytes p new in
      let keys = text_eq_iff (key_of argon salt p) (key_of argon salt new) in
      elim (Bool-cases (text_eq (key_of argon salt p) (key_of argon salt new))) [
        | inl right ↦
            let ok_true = checked ∙ ap some right in
            rw (authenticated, ok_true)
              (Runs-attempt-bind Q _ _ (
                Runs-exec _ _ (Runs-pure Q _ (named, keys.0 right))
                  (Runs-pure Q _ (named, keys.0 right))))
        | inr wrong ↦
            let ok_false = checked ∙ ap some wrong in
            rw (authenticated, ok_false) (Runs-pure Q none (λ e. let right = keys.1 e in cc))
      ]

  abbrev Rehashed : Text → Text → Result (Unit {0}) → State → Type 0
  Rehashed username hash (ok _) t =
      (u : AdminRow) × (admin_named username t ≡ some u)
      × (same u.username username ≡ true)
      × (u.password_hash ≡ hash)
  Rehashed username hash (err e) t = Unit {0}

  change_password-Rehashed :
      (argon : Argon2) (username new : Text) (s : State)
      → Runs s
          (change_password argon username new)
          (Rehashed username (encoded_hash argon new (take salt_len (s.entropy s.draws))))
  unfolding change_password hash_admin_password update_password delete_sessions_of admin_named
  change_password-Rehashed argon username new s =
      let hash = encoded_hash argon new (take salt_len (s.entropy s.draws)) in
      let Q = Rehashed username hash in
      Runs-bind Q _ _ (
        Runs-random-bind (Then Q _) _ tt (
          Runs-pure (Then Q _) hash (
            Runs-exec-bind Q (update_password username hash) _ tt (
              Runs-refuse_if-bind Q _ other _ (λ _. tt)
                (λ there.
                  Runs-exec Q (delete_sessions_of username) tt
                    (found-update username hash s.admins there))))))

  -- If argon2 gives keys of the length that is asked for and its version is an int, and the salt
  -- that is drawn consists of bytes, then whatever calls fail, behind a change of password a
  -- password that is accepted signs in an account with that name and has the key of the new
  -- password for the drawn salt, and a password that is not accepted has another key.
  pub change_password-SignsIn :
      (argon : Argon2) (username new p : Text) (s : State)
      → IsArgon2 argon
      → IsBytes (take salt_len (s.entropy s.draws))
      → Runs s
          (change_password argon username new >> authenticate argon username p)
          (SignsIn argon (take salt_len (s.entropy s.draws)) username new p)
  unfolding authenticate
  change_password-SignsIn argon username new p s promised bytes =
      let salt = take salt_len (s.entropy s.draws) in
      let Q = SignsIn argon salt username new p in
      let R = Rehashed username (encoded_hash argon new salt) in
      Runs-seq R Q (change_password argon username new) _
        (change_password-Rehashed argon username new s) (λ e t h. tt)
        (λ a t (u, found, named, hashed).
          Runs-query-bind Q (admin_named username) (authenticated argon p) tt (
            rw found
              (authenticated-SignsIn argon salt username new p u t promised bytes named hashed)))
