-- ===== src/Aside.antt =====
-- The calls on accounts, sessions, tokens, keys and the audit log, in cli/internal/adminauth,
-- apitoken, apikey and auditlog: they keep every property of the tables of domains, mailboxes,
-- aliases, groups and members.
use patrabahok.Base.{
  arith, ◌≡◌, refl, Bool, true, false, Option, none, some, ℕ, List, if◌then◌else◌, Bool-cases, inl,
  inr,
}
use patrabahok.Base.Text.{Text, is_empty}
use patrabahok.Address.{Error}
use patrabahok.Db.{
  ◌>>=◌, refuse_if, Env, State, DomainRow, AdminRow, SessionRow, KeyRow, exec, random,
}
use patrabahok.Db.Keeps.{
  Keeps, Keeps-pure, Keeps-fail, Keeps-query, Keeps-exec, Keeps-random, Keeps-refuse_if, Keeps-bind,
  Keeps-attempt,
}
use patrabahok.Db.Answers.{Answers, pure-Answers, attempt-Answers}
use patrabahok.Passwords.{Argon2, hash_admin_password}
use patrabahok.Admins.{
  time_now, delete_expired, insert_admin, create_user, list_users, delete_admin, delete_admin_user,
  update_password, delete_sessions_of, change_password, mark_login, admitted, authenticated,
  authenticate, generate_token, insert_session, open_session, create_session, verify_session,
  revoke_session, delete_session,
}
use patrabahok.Keys.{upsert_key, generate_for, generate, list_keys, delete_key}
use patrabahok.Keys.Tokens.{generate_plaintext, insert_token, create, list_tokens, delete_token}
use patrabahok.Audit.{insert_entry, log_change}

-- The tables of the mail server are the same.
abbrev pub SameMail : State → State → Type 0
SameMail s t =
    (t.domains ≡ s.domains)
    × (t.users ≡ s.users)
    × (t.aliases ≡ s.aliases)
    × (t.groups ≡ s.groups)
    × (t.members ≡ s.members)

same_mail : (s : State) → SameMail s s
same_mail s = (refl, refl, refl, refl, refl)

if-SameMail :
    {A : Type 0} (s : State) (b : Bool) (p q : A × State)
    → SameMail s p.1
    → SameMail s q.1
    → SameMail s (if b then p else q).1
if-SameMail s true p q h k = h
if-SameMail s false p q h k = k

module _ ⦃env : Env⦄ (P : State → Type 0) (aside : (s t : State) → SameMail s t → P s → P t) where
  exec_aside-Keeps :
      {A : Type 0} (f : State → A × State) → ((s : State) → SameMail s (f s).1) → Keeps P (exec f)
  exec_aside-Keeps f k = Keeps-exec P f (λ s h. aside s (f s).1 (k s) h)

  random-Keeps : Keeps P random
  random-Keeps = Keeps-random P (λ s h. aside s _ (same_mail s) h)

  -- What counts or tests the rows it changes, and refuses where there is none.
  checked-Keeps :
      {A : Type 0} (f : State → A × State) (b : A → Bool) (e : Error)
      → ((s : State) → SameMail s (f s).1)
      → Keeps P (exec f >>= λ a. refuse_if (b a) e)
  checked-Keeps f b e k = Keeps-bind P _ _ (exec_aside-Keeps f k) (λ a. Keeps-refuse_if P (b a) e)

  pub log_change-Answers :
      (actor action target detail ip : Text) → Answers P (log_change actor action target detail ip)
  unfolding log_change insert_entry
  log_change-Answers actor action target detail ip =
      attempt-Answers P _ _ (exec_aside-Keeps _ same_mail) (λ a. pure-Answers P _)

  hash_admin_password-Keeps :
      (argon : Argon2) (password : Text) → Keeps P (hash_admin_password argon password)
  unfolding hash_admin_password
  hash_admin_password-Keeps argon password = Keeps-bind P _ _ random-Keeps (λ a. Keeps-pure P _)

  insert_admin-SameMail :
      (username hash : Text) (s : State) → SameMail s (insert_admin username hash s).1
  unfolding insert_admin
  insert_admin-SameMail username hash s = if-SameMail s _ _ _ (same_mail s) (same_mail s)

  pub create_user-Keeps :
      (argon : Argon2) (username password : Text) → Keeps P (create_user argon username password)
  unfolding create_user
  create_user-Keeps argon username password =
      Keeps-bind P _ _ (hash_admin_password-Keeps argon password)
        (λ hash. checked-Keeps _ _ _ (insert_admin-SameMail username hash))

  pub list_users-Keeps : Keeps P list_users
  unfolding list_users
  list_users-Keeps = Keeps-query P _

  pub delete_admin_user-Keeps : (username : Text) → Keeps P (delete_admin_user username)
  unfolding delete_admin_user delete_admin
  delete_admin_user-Keeps username = checked-Keeps _ _ _ same_mail

  pub change_password-Keeps :
      (argon : Argon2) (username password : Text)
      → Keeps P (change_password argon username password)
  unfolding change_password update_password delete_sessions_of
  change_password-Keeps argon username password =
      Keeps-bind P _ _ (hash_admin_password-Keeps argon password) (λ hash.
        Keeps-bind P _ _ (exec_aside-Keeps _ same_mail)
          (λ n. Keeps-bind P _ _ (Keeps-refuse_if P _ _) (λ _. exec_aside-Keeps _ same_mail)))

  admitted-Keeps : (u : AdminRow) (o : Option Bool) → Keeps P (admitted u o)
  unfolding admitted mark_login
  admitted-Keeps u none = Keeps-pure P _
  admitted-Keeps u (some false) = Keeps-pure P _
  admitted-Keeps u (some true) =
      Keeps-bind P _ _ (Keeps-attempt P _ (exec_aside-Keeps _ same_mail)) (λ a. Keeps-pure P _)

  authenticated-Keeps :
      (argon : Argon2) (password : Text) (o : Option AdminRow)
      → Keeps P (authenticated argon password o)
  unfolding authenticated
  authenticated-Keeps argon password none = Keeps-pure P _
  authenticated-Keeps argon password (some u) = admitted-Keeps u _

  pub authenticate-Keeps :
      (argon : Argon2) (username password : Text) → Keeps P (authenticate argon username password)
  unfolding authenticate
  authenticate-Keeps argon username password =
      Keeps-bind P _ _ (Keeps-query P _) (λ found. authenticated-Keeps argon password found)

  insert_session-SameMail : (row : SessionRow) (s : State) → SameMail s (insert_session row s).1
  unfolding insert_session
  insert_session-SameMail row s = ground arith

  generate_token-Keeps : Keeps P generate_token
  unfolding generate_token
  generate_token-Keeps = Keeps-bind P _ _ random-Keeps (λ a. Keeps-pure P _)

  time_now-Keeps : Keeps P time_now
  unfolding time_now
  time_now-Keeps s h = record { at = λ fs. h }

  open_session-Keeps : (id : ℕ) (ip agent : Text) → Keeps P (open_session id ip agent)
  unfolding open_session
  open_session-Keeps id ip agent = Keeps-bind P _ _ generate_token-Keeps (λ token.
      Keeps-bind P _ _ time_now-Keeps (λ now.
        Keeps-bind P _ _ (exec_aside-Keeps _ (insert_session-SameMail _))
          (λ a. Keeps-bind P _ _ (Keeps-refuse_if P _ _) (λ _. Keeps-pure P _))))

  pub create_session-Keeps : (id : ℕ) (ip agent : Text) → Keeps P (create_session id ip agent)
  unfolding create_session delete_expired
  create_session-Keeps id ip agent =
      Keeps-bind P _ _ (Keeps-attempt P _ (exec_aside-Keeps _ same_mail))
        (λ a. open_session-Keeps id ip agent)

  pub verify_session-Keeps : (token : Text) → Keeps P (verify_session token)
  unfolding verify_session
  verify_session-Keeps token = elim (Bool-cases (is_empty token)) [
    | inl e ↦ rw e (Keeps-pure P _)
    | inr e ↦ rw e (Keeps-bind P _ _ (Keeps-query P _) (λ a. Keeps-pure P _))
  ]

  pub revoke_session-Keeps : (token : Text) → Keeps P (revoke_session token)
  unfolding revoke_session delete_session
  revoke_session-Keeps token = exec_aside-Keeps _ same_mail

  insert_token-SameMail :
      (name hash scopes : Text) (s : State) → SameMail s (insert_token name hash scopes s).1
  unfolding insert_token
  insert_token-SameMail name hash scopes s = if-SameMail s _ _ _ (same_mail s) (same_mail s)

  generate_plaintext-Keeps : Keeps P generate_plaintext
  unfolding generate_plaintext
  generate_plaintext-Keeps = Keeps-bind P _ _ random-Keeps (λ a. Keeps-pure P _)

  pub create-Keeps : (name : Text) (scopes : List Text) → Keeps P (create name scopes)
  unfolding create
  create-Keeps name scopes = Keeps-bind P _ _ (Keeps-refuse_if P _ _) (λ _.
      Keeps-bind P _ _ generate_plaintext-Keeps (λ plaintext.
        Keeps-bind P _ _ (exec_aside-Keeps _ (insert_token-SameMail _ _ _))
          (λ a. Keeps-bind P _ _ (Keeps-refuse_if P _ _) (λ _. Keeps-pure P _))))

  pub list_tokens-Keeps : Keeps P list_tokens
  unfolding list_tokens
  list_tokens-Keeps = Keeps-query P _

  pub revoke_token-Keeps : (name : Text) → Keeps P (patrabahok.Keys.Tokens.revoke name)
  unfolding patrabahok.Keys.Tokens.revoke delete_token
  revoke_token-Keeps name = checked-Keeps _ _ _ same_mail

  upsert_key-SameMail : (row : KeyRow) (s : State) → SameMail s (upsert_key row s).1
  unfolding upsert_key
  upsert_key-SameMail row s = ground arith

  generate_for-Keeps : (o : Option DomainRow) → Keeps P (generate_for o)
  unfolding generate_for
  generate_for-Keeps none = Keeps-fail P _
  generate_for-Keeps (some d) = Keeps-bind P _ _ random-Keeps (λ drawn.
      Keeps-bind P _ _ (exec_aside-Keeps _ (λ s. upsert_key-SameMail _ s))
        (λ a. Keeps-bind P _ _ (Keeps-refuse_if P _ _) (λ _. Keeps-pure P _)))

  pub generate-Keeps : (domain : Text) → Keeps P (generate domain)
  unfolding generate
  generate-Keeps domain = Keeps-bind P _ _ (Keeps-query P _) (λ found. generate_for-Keeps found)

  pub list_keys-Keeps : Keeps P list_keys
  unfolding list_keys
  list_keys-Keeps = Keeps-query P _

  pub revoke_key-Keeps : (domain : Text) → Keeps P (patrabahok.Keys.revoke domain)
  unfolding patrabahok.Keys.revoke delete_key
  revoke_key-Keeps domain = checked-Keeps _ _ _ same_mail
