-- ===== src/Admins.antt =====
-- cli/internal/adminauth/adminauth.go: the accounts of the dashboard and their sessions.
pub mod Sessions
pub mod Login
use patrabahok.Base.{
  ℕ, ◌+◌, ◌*◌, ◌/◌, ◌%◌, Bool, true, false, ◌&&◌, not, Option, none, some, List, [], ◌∷◌, ◌++◌, map,
  if◌then◌else◌, any, ltb, ◌==◌, take,
}
use patrabahok.Base.Text.{Text, codes, itoa, text_eq, text_lt, is_empty}
use patrabahok.Base.Table.{row_where, delete_where, update_where, count_where, order_by}
use patrabahok.Address.{ok, other, database, exists}
use patrabahok.Crypt.{byte_at}
use patrabahok.Db.{
  Env, State, AdminRow, SessionRow, M, pure, ◌>>=◌, ◌>>◌, exec, query, refuse_if, attempt, random,
  same,
}
use patrabahok.Keys.{hex}
use patrabahok.Passwords.{Argon2, hash_admin_password, verify_password}

pub record AdminUser : Type 0 where
  pub id : ℕ
  pub username : Text

-- 7 * 24 * time.Hour, in seconds
abbrev pub session_ttl : ℕ
session_ttl = 7 * 24 * 3600

unfoldable pub admin_user : AdminRow → AdminUser
admin_user u = record { id = u.id; username = u.username }

unfoldable pub admin_with_id : ℕ → State → Option AdminRow
admin_with_id id s = row_where (λ u. u.id == id) s.admins

-- time.Now()
unfoldable pub time_now : M ℕ
time_now w = (ok w.state.now, w)

-- DELETE FROM admin_sessions WHERE expires_at < NOW()
unfoldable pub delete_expired : State → Unit {0} × State
delete_expired s =
    (tt, record s { sessions = delete_where (λ x. ltb x.expires_at s.now) s.sessions })

module _ ⦃env : Env⦄ where
  -- INSERT INTO admin_users; false if the name is taken.
  unfoldable pub insert_admin : Text → Text → State → Bool × State
  insert_admin username hash s =
      if any (λ u. same u.username username) s.admins then (false, s) else (
        true,
        record s {
          admins =
              s.admins
              ++ record {
                id = s.next_admin;
                username = username;
                password_hash = hash;
                last_login_at = none;
              }
                ∷ [];
          next_admin = s.next_admin + 1;
        },
      )

  unfoldable pub create_user : Argon2 → Text → Text → M (Unit {0})
  unfolding hash_admin_password insert_admin
  create_user argon username password = do
    hash ← hash_admin_password argon password
    inserted ← exec (insert_admin username hash)
    refuse_if (not inserted) exists

  unfoldable pub list_users : M (List AdminUser)
  unfolding admin_user
  list_users = query (λ s.
      map admin_user
        (order_by (λ a b. text_lt (env.weight a.username) (env.weight b.username)) s.admins))

  unfoldable pub count_users : M ℕ
  count_users = query (λ s. count_where (λ u. true) s.admins)

  -- The session is one of an account with this name.
  unfoldable pub belongs_to : Text → State → SessionRow → Bool
  belongs_to username s x = any (λ u. u.id == x.admin_user_id && same u.username username) s.admins

  -- The sessions go with their account, by the foreign key.
  unfoldable pub delete_admin : Text → State → ℕ × State
  unfolding belongs_to
  delete_admin username s = (
    count_where (λ u. same u.username username) s.admins,
    record s {
      admins = delete_where (λ u. same u.username username) s.admins;
      sessions = delete_where (belongs_to username s) s.sessions;
    },
  )

  unfoldable pub delete_admin_user : Text → M (Unit {0})
  unfolding delete_admin
  delete_admin_user username = do n ← exec (delete_admin username); refuse_if (n == 0) other

  -- The rows that change are counted, not those that match.
  unfoldable pub update_password : Text → Text → State → ℕ × State
  update_password username hash s = (
    count_where (λ u. same u.username username && not (text_eq u.password_hash hash)) s.admins,
    record s {
      admins =
          update_where (λ u. same u.username username) (λ u. record u { password_hash = hash })
            s.admins;
    },
  )

  unfoldable pub delete_sessions_of : Text → State → Unit {0} × State
  unfolding belongs_to
  delete_sessions_of username s =
      (tt, record s { sessions = delete_where (belongs_to username s) s.sessions })

  unfoldable pub change_password : Argon2 → Text → Text → M (Unit {0})
  unfolding hash_admin_password update_password delete_sessions_of
  change_password argon username new_password = do
    hash ← hash_admin_password argon new_password
    n ← exec (update_password username hash)
    refuse_if (n == 0) other
    exec (delete_sessions_of username)

  unfoldable pub admin_named : Text → State → Option AdminRow
  admin_named username s = row_where (λ u. same u.username username) s.admins

  unfoldable pub mark_login : ℕ → State → Unit {0} × State
  mark_login id s = (
    tt,
    record s {
      admins =
          update_where (λ u. u.id == id) (λ u. record u { last_login_at = some s.now }) s.admins;
    },
  )

  -- Only a password that is known to be right signs in: an error of the check is a wrong password.
  unfoldable pub admitted : AdminRow → Option Bool → M (Option AdminUser)
  unfolding mark_login admin_user
  admitted u none = pure none
  admitted u (some false) = pure none
  admitted u (some true) = do marked ← attempt (exec (mark_login u.id)); pure (some (admin_user u))

  -- `none` is ErrInvalidCredentials. The check against a dummy hash only takes its time.
  unfoldable pub authenticated : Argon2 → Text → Option AdminRow → M (Option AdminUser)
  unfolding admitted
  authenticated argon password none = pure none
  authenticated argon password (some u) =
      admitted u (verify_password argon password u.password_hash)

  unfoldable pub authenticate : Argon2 → Text → Text → M (Option AdminUser)
  unfolding authenticated admin_named verify_password
  authenticate argon username password = do
    found ← query (admin_named username)
    authenticated argon password found

  unfoldable pub generate_token : M Text
  generate_token = do drawn ← random; pure (hex (take 32 drawn))

  unfoldable pub hash_session_token : Text → Text
  hash_session_token token = hex (env.sha256 token)

  -- INSERT INTO admin_sessions; false if the hash is taken or there is no such account.
  unfoldable pub insert_session : SessionRow → State → Bool × State
  insert_session row s =
      if any (λ x. same x.token_hash row.token_hash) s.sessions
      then (false, s)
      else if any (λ u. u.id == row.admin_user_id) s.admins
      then (true, record s { sessions = s.sessions ++ row ∷ [] })
      else (false, s)

  -- CreateSession behind its clean-up.
  unfoldable pub open_session : ℕ → Text → Text → M (Text × ℕ)
  unfolding generate_token hash_session_token insert_session time_now
  open_session user_id ip user_agent = do
    token ← generate_token
    now ← time_now
    inserted ← exec (
        insert_session (record {
          admin_user_id = user_id;
          token_hash = hash_session_token token;
          expires_at = now + session_ttl;
          ip_address = ip;
          user_agent = user_agent;
        }))
    refuse_if (not inserted) database
    pure (token, now + session_ttl)

  unfoldable pub create_session : ℕ → Text → Text → M (Text × ℕ)
  unfolding delete_expired open_session
  create_session user_id ip user_agent = do
    cleaned ← attempt (exec delete_expired)
    open_session user_id ip user_agent

  -- The join of admin_sessions with admin_users.
  unfoldable pub is_live : Text → State → SessionRow → Bool
  is_live hash s x =
      same x.token_hash hash
      && (ltb s.now x.expires_at && any (λ u. u.id == x.admin_user_id) s.admins)

  unfoldable pub session_user : Text → State → Option AdminRow
  unfolding is_live admin_with_id
  session_user hash s = elim (row_where (is_live hash s) s.sessions) [
    | none ↦ none
    | some x ↦ admin_with_id x.admin_user_id s
  ]

  -- `none` is ErrInvalidSession.
  unfoldable pub verify_session : Text → M (Option AdminUser)
  unfolding session_user admin_user hash_session_token
  verify_session token = if is_empty token then pure none else do
    found ← query (session_user (hash_session_token token))
    pure (elim found [ none ↦ none | some u ↦ some (admin_user u) ])

  unfoldable pub delete_session : Text → State → Unit {0} × State
  delete_session hash s =
      (tt, record s { sessions = delete_where (λ x. same x.token_hash hash) s.sessions })

  unfoldable pub revoke_session : Text → M (Unit {0})
  unfolding delete_session hash_session_token
  revoke_session token = exec (delete_session (hash_session_token token))
