-- ===== src/Dashboard/Server.antt =====
-- The routes of cli/internal/webui/server.go that are modelled, behind the checks of the dashboard.
pub mod Changes
pub mod Guarded
pub mod Tables
pub mod Parts
pub mod Signing
use patrabahok.Base.{Bool, true, false, Option}
use patrabahok.Base.Text.{Text}
use patrabahok.Base.Int.{ℤ}
use patrabahok.Db.{Env, M}
use patrabahok.Passwords.{Argon2}
use patrabahok.Dashboard.{View, Visitor, Incoming, UrlHost, secure, require_auth}
use patrabahok.Dashboard.Accounts.{
  handle_key_revoke, handle_key_generate, handle_token_delete, handle_token_add,
  handle_admin_delete, handle_admin_add, handle_settings_password, handle_login_form, handle_tokens,
  handle_logout, handle_login, handle_admins, Credential, NewPassword, TokenForm,
}
use patrabahok.Dashboard.Users.{
  handle_alias_delete, handle_alias_create, handle_user_delete, handle_user_group_remove,
  handle_user_group_add, handle_user_alias_remove, handle_user_alias_add, handle_user_forward_clear,
  handle_user_forward, handle_user_status, handle_user_quota, handle_user_password,
  handle_user_profile, handle_user_create, handle_aliases_page, UserForm, AliasForm,
}
use patrabahok.Dashboard.Groups.{
  handle_domain_catch_all, handle_domain_delete, handle_domain_new, handle_group_member_remove,
  handle_group_member_role, handle_group_members_add, handle_group_drop, handle_group_save,
  handle_group_new, handle_groups_page, GroupForm,
}

-- The actions of a visitor who is signed in, with their path values and forms.
pub data Action : Type 0 where
  show_admins show_tokens : Action
  show_aliases show_groups : Text → Text → Action
  change_own_password : Option NewPassword → Action
  add_admin : Option Credential → Action
  delete_admin : Text → Action
  add_token : Option TokenForm → Action
  delete_token generate_key revoke_key : Text → Action
  create_user : Option UserForm → Action
  rename_user reset_password set_quota set_status : Text → Text → Action
  forward_user add_user_alias add_user_group : Text → Text → Text → Action
  clear_forward delete_user : Text → Action
  remove_user_alias remove_user_group : Text → Text → Action
  create_alias : Option AliasForm → Action
  delete_alias : Text → Text → Action
  create_group : Option GroupForm → Action
  save_group : Text → Option GroupForm → Action
  drop_group : Text → Action
  add_group_members set_member_role : Text → Text → Text → Action
  remove_group_member : Text → Text → Action
  add_domain : Option Text → Action
  delete_domain : Text → Text → Action
  set_catch_all : Text → Text → Text → Action

-- The routes with the method GET.
unfoldable pub is_safe_action : Action → Bool
is_safe_action show_admins = true
is_safe_action show_tokens = true
is_safe_action (show_aliases domain q) = true
is_safe_action (show_groups domain q) = true
is_safe_action _ = false

pub data Page : Type 0 where
  login_form : Page
  login : Option Credential → Page
  logout : Page
  signed_in : Action → Page

unfoldable pub is_safe_page : Page → Bool
unfolding is_safe_action
is_safe_page login_form = true
is_safe_page (login c) = false
is_safe_page logout = false
is_safe_page (signed_in action) = is_safe_action action

module _ ⦃env : Env⦄ (argon : Argon2) (show_bytes : ℤ → Text) where
  unfoldable pub act : Text → Action → Visitor → M View
  act agent show_admins v = handle_admins v
  act agent show_tokens v = handle_tokens v
  act agent (show_aliases domain q) v = handle_aliases_page v domain q
  act agent (show_groups domain q) v = handle_groups_page v domain q
  act agent (change_own_password form) v = handle_settings_password v argon agent form
  act agent (add_admin form) v = handle_admin_add v argon form
  act agent (delete_admin name) v = handle_admin_delete v name
  act agent (add_token form) v = handle_token_add v form
  act agent (delete_token name) v = handle_token_delete v name
  act agent (generate_key name) v = handle_key_generate v name
  act agent (revoke_key name) v = handle_key_revoke v name
  act agent (create_user form) v = handle_user_create show_bytes v form
  act agent (rename_user email name) v = handle_user_profile show_bytes v email name
  act agent (reset_password email password) v = handle_user_password show_bytes v email password
  act agent (set_quota email quota) v = handle_user_quota show_bytes v email quota
  act agent (set_status email enabled) v = handle_user_status show_bytes v email enabled
  act agent (forward_user email to keep) v = handle_user_forward show_bytes v email to keep
  act agent (clear_forward email) v = handle_user_forward_clear show_bytes v email
  act agent (add_user_alias email local domain) v =
      handle_user_alias_add show_bytes v email local domain
  act agent (remove_user_alias email source) v = handle_user_alias_remove show_bytes v email source
  act agent (add_user_group email name role) v = handle_user_group_add show_bytes v email name role
  act agent (remove_user_group email name) v = handle_user_group_remove show_bytes v email name
  act agent (delete_user email) v = handle_user_delete show_bytes v email
  act agent (create_alias form) v = handle_alias_create v form
  act agent (delete_alias source destination) v = handle_alias_delete v source destination
  act agent (create_group form) v = handle_group_new v form
  act agent (save_group email form) v = handle_group_save v email form
  act agent (drop_group email) v = handle_group_drop v email
  act agent (add_group_members email list role) v = handle_group_members_add v email list role
  act agent (set_member_role email member role) v = handle_group_member_role v email member role
  act agent (remove_group_member email member) v = handle_group_member_remove v email member
  act agent (add_domain form) v = handle_domain_new v form
  act agent (delete_domain name confirm) v = handle_domain_delete v name confirm
  act agent (set_catch_all name to enabled) v = handle_domain_catch_all v name to enabled

  unfoldable pub open_page : Incoming → Page → M View
  unfolding act require_auth handle_login handle_logout handle_login_form
  open_page req login_form = handle_login_form req.cookie
  open_page req (login form) = handle_login argon req form
  open_page req logout = handle_logout req.cookie
  open_page req (signed_in action) = require_auth req (act req.user_agent action)

  -- ServeHTTP of the listener, of a request that a route takes.
  unfoldable pub serve_page : UrlHost → Incoming → Page → M View
  unfolding secure open_page is_safe_page
  serve_page url_host req page = secure url_host (is_safe_page page) req (open_page req page)
