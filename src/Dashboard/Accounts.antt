-- ===== src/Dashboard/Accounts.antt =====
-- Signing in and out, and the accounts, tokens and keys: handlers_auth.go, handlers_settings.go,
-- handlers_admin.go, handlers_tokens.go and the API keys of handlers_domain.go of cli/internal/webui.
use patrabahok.Base.{
  ℕ, Bool, true, false, not, Option, none, some, List, [], ◌∷◌, ◌++◌, if◌then◌else◌, any, ltb,
  length,
}
use patrabahok.Base.Text.{Text, codes, text_eq, is_empty, trim_space}
use patrabahok.Base.Split.{split_on}
use patrabahok.Address.{Result, ok, err}
use patrabahok.Db.{Env, DomainRow, M, pure, ◌>>=◌, ◌>>◌, attempt}
use patrabahok.Passwords.{Argon2}
use patrabahok.Admins.{
  AdminUser, create_user, list_users, delete_admin_user, change_password, authenticate,
  create_session, revoke_session, verify_session,
}
use patrabahok.Keys.Tokens.{TokenInfo, create, list_tokens, join_commas}
use patrabahok.Keys.{generate, list_keys}
use patrabahok.Domains
use patrabahok.Mailboxes.Search.{domain_stats_all}
use patrabahok.Aliases.{catch_all_get}
use patrabahok.Dashboard.{
  View, home, signed_out, done, failed, login_page, tokens_page, key_card, admins_page, fail_status,
  bad_request, show, change, with_form, Visitor, record_act, recorded, Incoming,
}

pub record Credential : Type 0 where
  pub username : Text
  pub password : Text

pub record NewPassword : Type 0 where
  pub current : Text
  pub next : Text
  pub confirm : Text

pub record TokenForm : Type 0 where
  pub name : Text
  pub scopes : Text

-- The scopes that are named between commas.
unfoldable pub named_scopes : List Text → List Text
named_scopes [] = []
named_scopes (s ∷ ss) =
    let rest = named_scopes ss in if is_empty (trim_space s) then rest else trim_space s ∷ rest

unfoldable pub form_scopes : Text → List Text
unfolding named_scopes
form_scopes raw =
    if is_empty (trim_space raw) then [] else named_scopes (split_on b',' (trim_space raw))

-- A domain with this very name.
unfoldable pub is_listed : Text → List DomainRow → Bool
is_listed name domains = any (λ d. text_eq d.name name) domains

module _ ⦃env : Env⦄ where
  unfoldable pub login_form_for : Result (Option AdminUser) → M View
  login_form_for (ok (some user)) = show (home none)
  login_form_for (ok none) = show (login_page 200)
  login_form_for (err e) = show (login_page 200)

  unfoldable pub handle_login_form : Option Text → M View
  unfolding login_form_for
  handle_login_form none = show (login_page 200)
  handle_login_form (some token) = attempt (verify_session token) >>= login_form_for

  unfoldable pub started : Result (Text × ℕ) → M View
  started (ok (token, expires)) = show (home (some token))
  started (err e) = show (login_page 500)

  unfoldable pub log_in : Incoming → Result (Option AdminUser) → M View
  unfolding started
  log_in req (err e) = show (login_page 401)
  log_in req (ok none) = show (login_page 401)
  log_in req (ok (some user)) =
      attempt (create_session user.id req.remote_addr req.user_agent) >>= started

  unfoldable pub handle_login : Argon2 → Incoming → Option Credential → M View
  unfolding log_in
  handle_login argon req none = show (login_page 400)
  handle_login argon req (some c) =
      attempt (authenticate argon c.username c.password) >>= log_in req

  unfoldable pub handle_logout : Option Text → M View
  handle_logout none = show signed_out
  handle_logout (some token) = do revoked ← attempt (revoke_session token); show signed_out

  module _ (v : Visitor) where
    -- The new session, whose failure is dropped; the change stands.
    unfoldable pub renewed_cookie : Result (Text × ℕ) → M View
    unfolding record_act
    renewed_cookie r =
        record_act v (codes "admin.password.change") v.user.username
          (codes "all other sessions signed out")
        >> show (done (elim r [ ok p ↦ some p.0 | err e ↦ none ]))

    unfoldable pub set_password : Argon2 → Text → Text → Result (Option AdminUser) → M View
    unfolding change renewed_cookie
    set_password argon next agent (err e) = show (failed 400)
    set_password argon next agent (ok none) = show (failed 400)
    set_password argon next agent (ok (some user)) =
        change (change_password argon v.user.username next) fail_status
          (λ changed. attempt (create_session v.user.id v.remote_addr agent) >>= renewed_cookie)

    unfoldable pub handle_settings_password : Argon2 → Text → Option NewPassword → M View
    unfolding with_form set_password
    handle_settings_password argon agent form = with_form form (λ f.
        if ltb (length f.next) 8
        then show (failed 400)
        else if not (text_eq f.next f.confirm)
        then show (failed 400)
        else (attempt (authenticate argon v.user.username f.current)
            >>= set_password argon f.next agent))

    unfoldable pub handle_admins : M View
    unfolding change
    handle_admins = change list_users fail_status (λ list. show (admins_page list))

    unfoldable pub handle_admin_add : Argon2 → Option Credential → M View
    unfolding with_form change recorded
    handle_admin_add argon form = with_form form (λ f.
        if ltb (length f.password) 8
        then show (failed 400)
        else change (create_user argon (trim_space f.username) f.password) bad_request
            (λ added. recorded v (codes "admin.create") (trim_space f.username) []))

    unfoldable pub handle_admin_delete : Text → M View
    unfolding change recorded
    handle_admin_delete target =
        if text_eq target v.user.username
        then show (failed 400)
        else change (delete_admin_user target) bad_request
            (λ gone. recorded v (codes "admin.delete") target [])

    abbrev pub server_failure : patrabahok.Address.Error → ℕ
    server_failure e = 500

    unfoldable pub handle_tokens : M View
    unfolding change
    handle_tokens = change list_tokens server_failure (λ list. show (tokens_page list none))

    -- The list behind a creation; where it cannot be read it is empty.
    unfoldable pub with_new_token : Text → Result (List TokenInfo) → M View
    with_new_token token (ok list) = show (tokens_page list (some token))
    with_new_token token (err e) = show (tokens_page [] (some token))

    unfoldable pub token_created : List TokenInfo → TokenForm → Result Text → M View
    unfolding record_act with_new_token form_scopes
    token_created list f (err e) = show (tokens_page list none)
    token_created list f (ok token) =
        record_act v (codes "token.create") f.name
          (codes "scopes=" ++ join_commas (form_scopes f.scopes))
        >> (attempt list_tokens >>= with_new_token token)

    unfoldable pub handle_token_add : Option TokenForm → M View
    unfolding with_form change token_created
    handle_token_add form = with_form form (λ f.
        change list_tokens server_failure
          (λ list. attempt (create f.name (form_scopes f.scopes)) >>= token_created list f))

    unfoldable pub handle_token_delete : Text → M View
    unfolding change record_act handle_tokens
    handle_token_delete name =
        change (patrabahok.Keys.Tokens.revoke name) bad_request
          (λ gone. record_act v (codes "token.revoke") name [] >> handle_tokens)

    -- domainPageData, of which only counts whether there is the page.
    unfoldable pub domain_page : Text → M Bool
    unfolding is_listed
    domain_page name = do
      domains ← patrabahok.Domains.domain_list
      stats ← domain_stats_all
      keys ← list_keys
      elim (is_listed name domains) [
        | true ↦ do catch_all ← catch_all_get name; pure true
        | false ↦ pure false
      ]

    unfoldable pub respond_key_card : Text → Option Text → M View
    unfolding change domain_page
    respond_key_card name key =
        change (domain_page name) fail_status
          (λ there. if there then show (key_card key) else show (failed 404))

    unfoldable pub handle_key_generate : Text → M View
    unfolding change record_act respond_key_card
    handle_key_generate name =
        change (generate name) bad_request (λ key.
          record_act v (codes "apikey.generate") name [] >> respond_key_card name (some key))

    unfoldable pub handle_key_revoke : Text → M View
    unfolding change record_act respond_key_card
    handle_key_revoke name =
        change (patrabahok.Keys.revoke name) bad_request
          (λ gone. record_act v (codes "apikey.revoke") name [] >> respond_key_card name none)
