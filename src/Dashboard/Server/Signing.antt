-- ===== src/Dashboard/Server/Signing.antt =====
-- Signing in, the accounts, tokens and keys of the dashboard always answer, and keep what depends on
-- the tables of the mail server only.
use patrabahok.Base.{Bool, true, false, Option, none, some, List, ℕ, ltb, not, length}
use patrabahok.Base.Text.{Text, text_eq}
use patrabahok.Address.{Result, ok, err}
use patrabahok.Db.{Env, State, pure, ◌>>=◌}
use patrabahok.Db.Keeps.{Keeps, Keeps-pure, Keeps-query, Keeps-bind}
use patrabahok.Db.Answers.{Answers, pure-Answers, attempt-Answers, if-Answers, bind-Answers}
use patrabahok.Passwords.{Argon2}
use patrabahok.Admins.{AdminUser}
use patrabahok.Keys.Tokens.{TokenInfo}
use patrabahok.Reads.{domain_list-Keeps}
use patrabahok.Mailboxes.Search.{domain_stats_all}
use patrabahok.Aliases.{catch_all_get}
use patrabahok.Aside.{
  SameMail, create_user-Keeps, list_users-Keeps, delete_admin_user-Keeps, change_password-Keeps,
  authenticate-Keeps, create_session-Keeps, verify_session-Keeps, revoke_session-Keeps,
  create-Keeps, list_tokens-Keeps, revoke_token-Keeps, generate-Keeps, list_keys-Keeps,
  revoke_key-Keeps,
}
use patrabahok.Dashboard.{failed, Visitor, Incoming}
use patrabahok.Dashboard.Accounts.{
  Credential, NewPassword, TokenForm, login_form_for, handle_login_form, started, log_in,
  handle_login, handle_logout, renewed_cookie, set_password, handle_settings_password,
  handle_admins, handle_admin_add, handle_admin_delete, handle_tokens, with_new_token,
  token_created, handle_token_add, handle_token_delete, domain_page, is_listed, respond_key_card,
  handle_key_generate, handle_key_revoke,
}
use patrabahok.Dashboard.Server.Parts.{
  change-Answers, with_form-Answers, record_act-Answers, recorded-Answers,
}

module _ ⦃env : Env⦄ (P : State → Type 0) (aside : (s t : State) → SameMail s t → P s → P t) where
  login_form_for-Answers : (r : Result (Option AdminUser)) → Answers P (login_form_for r)
  unfolding login_form_for
  login_form_for-Answers (ok (some u)) = pure-Answers P _
  login_form_for-Answers (ok none) = pure-Answers P _
  login_form_for-Answers (err e) = pure-Answers P _

  pub handle_login_form-Answers : (cookie : Option Text) → Answers P (handle_login_form cookie)
  unfolding handle_login_form
  handle_login_form-Answers none = pure-Answers P _
  handle_login_form-Answers (some token) =
      attempt-Answers P _ _ (verify_session-Keeps P aside token) login_form_for-Answers

  started-Answers : (r : Result (Text × ℕ)) → Answers P (started r)
  unfolding started
  started-Answers (ok p) = pure-Answers P _
  started-Answers (err e) = pure-Answers P _

  log_in-Answers : (req : Incoming) (r : Result (Option AdminUser)) → Answers P (log_in req r)
  unfolding log_in
  log_in-Answers req (err e) = pure-Answers P _
  log_in-Answers req (ok none) = pure-Answers P _
  log_in-Answers req (ok (some u)) =
      attempt-Answers P _ _ (create_session-Keeps P aside _ _ _) started-Answers

  pub handle_login-Answers :
      (argon : Argon2) (req : Incoming) (form : Option Credential)
      → Answers P (handle_login argon req form)
  unfolding handle_login
  handle_login-Answers argon req none = pure-Answers P _
  handle_login-Answers argon req (some c) =
      attempt-Answers P _ _ (authenticate-Keeps P aside argon _ _) (log_in-Answers req)

  pub handle_logout-Answers : (cookie : Option Text) → Answers P (handle_logout cookie)
  unfolding handle_logout
  handle_logout-Answers none = pure-Answers P _
  handle_logout-Answers (some token) =
      attempt-Answers P _ _ (revoke_session-Keeps P aside token) (λ r. pure-Answers P _)

  renewed_cookie-Answers : (v : Visitor) (r : Result (Text × ℕ)) → Answers P (renewed_cookie v r)
  unfolding renewed_cookie
  renewed_cookie-Answers v r =
      bind-Answers P _ _ (record_act-Answers P aside v _ _ _) (λ a. pure-Answers P _)

  set_password-Answers :
      (v : Visitor) (argon : Argon2) (next agent : Text) (r : Result (Option AdminUser))
      → Answers P (set_password v argon next agent r)
  unfolding set_password
  set_password-Answers v argon next agent (err e) = pure-Answers P _
  set_password-Answers v argon next agent (ok none) = pure-Answers P _
  set_password-Answers v argon next agent (ok (some u)) =
      change-Answers P _ _ _ (change_password-Keeps P aside argon _ _)
        (λ _. attempt-Answers P _ _ (create_session-Keeps P aside _ _ _) (renewed_cookie-Answers v))

  pub handle_settings_password-Answers :
      (v : Visitor) (argon : Argon2) (agent : Text) (form : Option NewPassword)
      → Answers P (handle_settings_password v argon agent form)
  unfolding handle_settings_password
  handle_settings_password-Answers v argon agent form = with_form-Answers P form _ (λ f.
      if-Answers P (ltb (length f.next) 8) _ _ (pure-Answers P (failed 400)) (
        if-Answers P (not (text_eq f.next f.confirm)) _ _ (pure-Answers P (failed 400)) (
          attempt-Answers P _ _ (authenticate-Keeps P aside argon v.user.username f.current)
            (set_password-Answers v argon f.next agent))))

  pub handle_admins-Answers : (v : Visitor) → Answers P (handle_admins v)
  unfolding handle_admins
  handle_admins-Answers v =
      change-Answers P _ _ _ (list_users-Keeps P aside) (λ list. pure-Answers P _)

  pub handle_admin_add-Answers :
      (v : Visitor) (argon : Argon2) (form : Option Credential)
      → Answers P (handle_admin_add v argon form)
  unfolding handle_admin_add
  handle_admin_add-Answers v argon form = with_form-Answers P form _ (λ f.
      if-Answers P (ltb (length f.password) 8) _ _ (pure-Answers P (failed 400)) (
        change-Answers P _ _ _ (create_user-Keeps P aside argon _ _)
          (λ _. recorded-Answers P aside v _ _ _)))

  pub handle_admin_delete-Answers :
      (v : Visitor) (target : Text) → Answers P (handle_admin_delete v target)
  unfolding handle_admin_delete
  handle_admin_delete-Answers v target = if-Answers P _ _ _ (pure-Answers P _) (
      change-Answers P _ _ _ (delete_admin_user-Keeps P aside target)
        (λ _. recorded-Answers P aside v _ _ _))

  pub handle_tokens-Answers : (v : Visitor) → Answers P (handle_tokens v)
  unfolding handle_tokens
  handle_tokens-Answers v =
      change-Answers P _ _ _ (list_tokens-Keeps P aside) (λ list. pure-Answers P _)

  with_new_token-Answers :
      (v : Visitor) (token : Text) (r : Result (List TokenInfo))
      → Answers P (with_new_token v token r)
  unfolding with_new_token
  with_new_token-Answers v token (ok list) = pure-Answers P _
  with_new_token-Answers v token (err e) = pure-Answers P _

  token_created-Answers :
      (v : Visitor) (list : List TokenInfo) (f : TokenForm) (r : Result Text)
      → Answers P (token_created v list f r)
  unfolding token_created
  token_created-Answers v list f (err e) = pure-Answers P _
  token_created-Answers v list f (ok token) =
      bind-Answers P _ _ (record_act-Answers P aside v _ _ _)
        (λ _. attempt-Answers P _ _ (list_tokens-Keeps P aside) (with_new_token-Answers v token))

  pub handle_token_add-Answers :
      (v : Visitor) (form : Option TokenForm) → Answers P (handle_token_add v form)
  unfolding handle_token_add
  handle_token_add-Answers v form = with_form-Answers P form _ (λ f.
      change-Answers P _ _ _ (list_tokens-Keeps P aside)
        (λ list. attempt-Answers P _ _ (create-Keeps P aside _ _) (token_created-Answers v list f)))

  pub handle_token_delete-Answers :
      (v : Visitor) (name : Text) → Answers P (handle_token_delete v name)
  unfolding handle_token_delete
  handle_token_delete-Answers v name =
      change-Answers P _ _ _ (revoke_token-Keeps P aside name) (λ _.
        bind-Answers P _ _ (record_act-Answers P aside v _ _ _) (λ _. handle_tokens-Answers v))

  shown-Keeps :
      (v : Visitor) (name : Text) (there : Bool)
      → Keeps P
          (elim there [ true ↦ do catch_all ← catch_all_get name; pure true | false ↦ pure false ])
  unfolding catch_all_get
  shown-Keeps v name true =
      Keeps-bind P _ _ (Keeps-bind P _ _ (Keeps-query P _) (λ a. Keeps-pure P _))
        (λ a. Keeps-pure P _)
  shown-Keeps v name false = Keeps-pure P _

  domain_page-Keeps : (v : Visitor) (name : Text) → Keeps P (domain_page v name)
  unfolding domain_page domain_stats_all
  domain_page-Keeps v name = Keeps-bind P _ _ (domain_list-Keeps P) (λ domains.
      Keeps-bind P _ _ (Keeps-query P _) (λ stats.
        Keeps-bind P _ _ (list_keys-Keeps P aside)
          (λ keys. shown-Keeps v name (is_listed name domains))))

  respond_key_card-Answers :
      (v : Visitor) (name : Text) (key : Option Text) → Answers P (respond_key_card v name key)
  unfolding respond_key_card
  respond_key_card-Answers v name key =
      change-Answers P _ _ _ (domain_page-Keeps v name)
        (λ there. if-Answers P there _ _ (pure-Answers P _) (pure-Answers P _))

  pub handle_key_generate-Answers :
      (v : Visitor) (name : Text) → Answers P (handle_key_generate v name)
  unfolding handle_key_generate
  handle_key_generate-Answers v name = change-Answers P _ _ _ (generate-Keeps P aside name) (λ key.
      bind-Answers P _ _ (record_act-Answers P aside v _ _ _)
        (λ _. respond_key_card-Answers v name _))

  pub handle_key_revoke-Answers : (v : Visitor) (name : Text) → Answers P (handle_key_revoke v name)
  unfolding handle_key_revoke
  handle_key_revoke-Answers v name = change-Answers P _ _ _ (revoke_key-Keeps P aside name) (λ _.
      bind-Answers P _ _ (record_act-Answers P aside v _ _ _)
        (λ _. respond_key_card-Answers v name _))
