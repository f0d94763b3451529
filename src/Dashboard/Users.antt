-- ===== src/Dashboard/Users.antt =====
-- Mailboxes and aliases: handlers_users.go and handlers_alias.go of cli/internal/webui.
use patrabahok.Base.{
  Bool, true, false, ◌||◌, Option, none, some, List, [], ◌∷◌, ◌++◌, if◌then◌else◌,
}
use patrabahok.Base.Text.{Text, codes, is_empty, to_lower, trim_space, contains, text_eq}
use patrabahok.Base.Table.{rows_where}
use patrabahok.Base.Int.{ℤ}
use patrabahok.Quota.{parse_quota}
use patrabahok.Db.{Env, M, lift}
use patrabahok.Domains.{Kind, user, group, alias, address_kind}
use patrabahok.Mailboxes.{validate_password, mailbox_create}
use patrabahok.Mailboxes.Change.{
  mailbox_get, mailbox_remove, mailbox_passwd, mailbox_set_quota, mailbox_set_name,
  mailbox_set_enabled,
}
use patrabahok.Aliases.{Alias, alias_add, alias_list, alias_remove, forward_set, forward_clear}
use patrabahok.Groups.{role_member}
use patrabahok.Groups.Members.{MemberResult, group_add_members, group_remove_member}
use patrabahok.Dashboard.{
  View, failed, aliases_page, fail_status, bad_request, show, change, with_form, form_address,
  arrow, Visitor, recorded,
}

pub record UserForm : Type 0 where
  pub local : Text
  pub domain : Text
  pub name : Text
  pub password : Text
  pub quota : Text

pub record AliasForm : Type 0 where
  pub local : Text
  pub domain : Text
  pub destination : Text

-- The query is empty or stands in the source or in the destination.
unfoldable pub mentions : Text → Alias → Bool
mentions q a = is_empty q || (contains q a.source || contains q a.destination)

abbrev pub is_one : Text → Bool
is_one value = text_eq value (codes "1")

unfoldable pub refused_result : List MemberResult → Bool
refused_result (r ∷ []) = if r.added then false else true
refused_result _ = false

-- `show_bytes` is humanizeBytes, which prints a number of bytes for the audit log.
module _ ⦃env : Env⦄ (show_bytes : ℤ → Text) (v : Visitor) where
  unfoldable pub handle_user_create : Option UserForm → M View
  unfolding with_form change recorded form_address
  handle_user_create form = with_form form (λ f.
      let email = form_address f.local f.domain in
      change (lift (validate_password f.password)) fail_status (λ valid.
        change (lift (parse_quota (trim_space f.quota))) bad_request (λ quota.
          change (mailbox_create email f.password (trim_space f.name) quota) fail_status (λ created.
            recorded v (codes "user.create") email (codes "quota=" ++ show_bytes quota)))))

  unfoldable pub handle_user_profile : Text → Text → M View
  unfolding change recorded
  handle_user_profile email name =
      change (mailbox_set_name email (trim_space name)) fail_status
        (λ set. recorded v (codes "user.rename") email (trim_space name))

  unfoldable pub handle_user_password : Text → Text → M View
  unfolding change recorded
  handle_user_password email password =
      change (lift (validate_password password)) fail_status (λ valid.
        change (mailbox_passwd email password) fail_status
          (λ set. recorded v (codes "user.password.reset") email []))

  unfoldable pub handle_user_quota : Text → Text → M View
  unfolding change recorded
  handle_user_quota email text = change (lift (parse_quota (trim_space text))) bad_request (λ quota.
      change (mailbox_set_quota email quota) fail_status
        (λ set. recorded v (codes "user.quota") email (show_bytes quota)))

  unfoldable pub handle_user_status : Text → Text → M View
  unfolding change recorded
  handle_user_status email enabled =
      change (mailbox_set_enabled email (is_one enabled)) fail_status (λ set.
        recorded v (if is_one enabled then codes "user.restore" else codes "user.suspend") email [])

  unfoldable pub handle_user_forward : Text → Text → Text → M View
  unfolding change recorded
  handle_user_forward email destination keep =
      change (forward_set email (trim_space destination) (is_one keep)) fail_status
        (λ set. recorded v (codes "user.forward.set") email (trim_space destination))

  unfoldable pub handle_user_forward_clear : Text → M View
  unfolding change recorded
  handle_user_forward_clear email =
      change (forward_clear email) fail_status
        (λ cleared. recorded v (codes "user.forward.clear") email [])

  unfoldable pub alias_unless_taken : Text → Text → Option Kind → M View
  unfolding change recorded
  alias_unless_taken email source (some user) = show (failed 409)
  alias_unless_taken email source (some group) = show (failed 409)
  alias_unless_taken email source (some alias) =
      change (alias_add source email) fail_status
        (λ added. recorded v (codes "alias.add") source (arrow ++ email))
  alias_unless_taken email source none =
      change (alias_add source email) fail_status
        (λ added. recorded v (codes "alias.add") source (arrow ++ email))

  unfoldable pub handle_user_alias_add : Text → Text → Text → M View
  unfolding change alias_unless_taken form_address
  handle_user_alias_add email local domain =
      let source = form_address local domain in
      change (address_kind source) fail_status (alias_unless_taken email source)

  unfoldable pub handle_user_alias_remove : Text → Text → M View
  unfolding change recorded
  handle_user_alias_remove email source =
      change (alias_remove source email) fail_status
        (λ removed. recorded v (codes "alias.remove") source (arrow ++ email))

  unfoldable pub handle_user_group_add : Text → Text → Text → M View
  unfolding change recorded refused_result
  handle_user_group_add email group_name role =
      let r = if is_empty (trim_space role) then role_member else trim_space role in
      change (group_add_members (trim_space group_name) (email ∷ []) r) fail_status (λ results.
        if refused_result results
        then show (failed 400)
        else recorded v (codes "group.members.add") (trim_space group_name)
            (email ++ (codes " (" ++ (r ++ codes ")"))))

  unfoldable pub handle_user_group_remove : Text → Text → M View
  unfolding change recorded
  handle_user_group_remove email group_name =
      change (group_remove_member group_name email) fail_status
        (λ removed. recorded v (codes "group.members.remove") group_name email)

  unfoldable pub handle_user_delete : Text → M View
  unfolding change recorded
  handle_user_delete email = change (mailbox_get email) fail_status (λ m.
      change (mailbox_remove email) fail_status
        (λ removed. recorded v (codes "user.delete") email []))

module _ ⦃env : Env⦄ (v : Visitor) where
  unfoldable pub handle_aliases_page : Text → Text → M View
  unfolding change mentions
  handle_aliases_page domain q = change (alias_list domain) fail_status (λ list.
      change patrabahok.Domains.domain_list fail_status
        (λ domains. show (aliases_page (rows_where (mentions (to_lower (trim_space q))) list))))

  unfoldable pub handle_alias_create : Option AliasForm → M View
  unfolding with_form change recorded form_address
  handle_alias_create form = with_form form (λ f.
      let source = form_address f.local f.domain in
      let destination = to_lower (trim_space f.destination) in
      change (alias_add source destination) fail_status
        (λ added. recorded v (codes "alias.add") source (arrow ++ destination)))

  unfoldable pub handle_alias_delete : Text → Text → M View
  unfolding change recorded
  handle_alias_delete source destination =
      change (alias_remove source destination) fail_status
        (λ removed. recorded v (codes "alias.remove") source (arrow ++ destination))
