-- ===== src/LocalApi/Handlers.antt =====
-- The handlers of the local API: cli/internal/api/handlers.go and groups.go. Those that call out to
-- certificates, keys and the queue are left out.
use patrabahok.Base.{if◌then◌else◌, Bool, ℕ, ◌^◌, ◌&&◌, not, Option, List}
use patrabahok.Base.Text.{Text, codes, is_empty}
use patrabahok.Base.Int.{ℤ, pos, is_positive}
use patrabahok.Address.{Result, ok, err}
use patrabahok.Quota.{parse_quota}
use patrabahok.Db.{Env, M}
use patrabahok.Mailboxes.{mailbox_add}
use patrabahok.Mailboxes.Change.{mailbox_remove, mailbox_passwd, mailbox_set_quota}
use patrabahok.Aliases.{Alias, alias_add, alias_remove}
use patrabahok.Domains.{domain_add, domain_remove}
use patrabahok.Groups.{
  GroupSettings, group_create, group_get, group_delete, post_organization, role_member,
}
use patrabahok.Groups.Members.{group_members, group_add_members, group_remove_member}
use patrabahok.LocalApi.{
  Reply, no_content, text_field, one_alias, one_group, member_results, reply, deny, status_for_err,
  try, server_error, with_body,
}

-- The body of a new mailbox, and of a change of its quota.
pub record NewMailbox : Type 0 where
  pub email : Text
  pub password : Text
  pub quota_bytes : ℤ

pub record NewQuota : Type 0 where
  pub quota_bytes : ℤ
  pub quota : Text

pub record NewGroup : Type 0 where
  pub email : Text
  pub name : Text
  pub description : Text
  pub post_policy : Text
  pub allow_external : Bool

pub record NewMembers : Type 0 where
  pub members : List Text
  pub role : Text

abbrev pub or_text : Text → Text → Text
or_text default t = if is_empty t then default else t

unfoldable pub new_group_settings : NewGroup → GroupSettings
new_group_settings b = record {
  name = or_text b.email b.name;
  description = b.description;
  post_policy = or_text post_organization b.post_policy;
  allow_external = b.allow_external;
}

-- A quota that is not positive is 1G.
unfoldable pub quota_or_gigabyte : ℤ → ℤ
quota_or_gigabyte q = if is_positive q then q else pos (2 ^ 30)

-- quota_bytes, or else the parsed text
unfoldable pub chosen_quota : NewQuota → Result ℤ
chosen_quota b =
    if not (is_positive b.quota_bytes) && not (is_empty b.quota)
    then parse_quota b.quota
    else ok b.quota_bytes

unfoldable pub with_parsed : Result ℤ → (ℤ → M Reply) → M Reply
with_parsed (ok q) k = k q
with_parsed (err e) k = deny 400

module _ ⦃env : Env⦄ where
  unfoldable pub handle_domain_list : M Reply
  unfolding try
  handle_domain_list =
      try patrabahok.Domains.domain_list server_error
        (λ list. reply 200 (patrabahok.LocalApi.Payload.domain_list list))

  unfoldable pub handle_domain_add : Option Text → M Reply
  unfolding with_body try
  handle_domain_add body = with_body body (λ name.
      try (domain_add name) status_for_err (λ done. reply 201 (text_field (codes "name") name)))

  unfoldable pub handle_domain_remove : Text → M Reply
  unfolding try
  handle_domain_remove name = try (domain_remove name) status_for_err (λ done. reply 204 no_content)

  unfoldable pub handle_mailboxes : Text → M Reply
  unfolding try
  handle_mailboxes domain =
      try (patrabahok.Mailboxes.Change.mailbox_list domain) server_error
        (λ list. reply 200 (patrabahok.LocalApi.Payload.mailbox_list list))

  unfoldable pub handle_mailbox_add : Option NewMailbox → M Reply
  unfolding with_body try quota_or_gigabyte
  handle_mailbox_add body = with_body body (λ b.
      try (mailbox_add b.email b.password (quota_or_gigabyte b.quota_bytes)) status_for_err
        (λ done. reply 201 (text_field (codes "email") b.email)))

  unfoldable pub handle_mailbox_remove : Text → M Reply
  unfolding try
  handle_mailbox_remove email =
      try (mailbox_remove email) status_for_err (λ done. reply 204 no_content)

  unfoldable pub handle_mailbox_passwd : Text → Option Text → M Reply
  unfolding with_body try
  handle_mailbox_passwd email body = with_body body (λ password.
      try (mailbox_passwd email password) status_for_err (λ done. reply 204 no_content))

  unfoldable pub handle_quota : Text → Option NewQuota → M Reply
  unfolding with_body try with_parsed chosen_quota
  handle_quota email body = with_body body (λ b.
      with_parsed (chosen_quota b)
        (λ q. try (mailbox_set_quota email q) status_for_err (λ done. reply 204 no_content)))

  unfoldable pub handle_aliases : Text → M Reply
  unfolding try
  handle_aliases domain =
      try (patrabahok.Aliases.alias_list domain) server_error
        (λ list. reply 200 (patrabahok.LocalApi.Payload.alias_list list))

  unfoldable pub handle_alias_add : Option Alias → M Reply
  unfolding with_body try
  handle_alias_add body =
      with_body body (λ b.
        try (alias_add b.source b.destination) status_for_err (λ done. reply 201 (one_alias b)))

  unfoldable pub handle_alias_remove : Option Alias → M Reply
  unfolding with_body try
  handle_alias_remove body =
      with_body body (λ b.
        try (alias_remove b.source b.destination) status_for_err (λ done. reply 204 no_content))

  unfoldable pub handle_groups : Text → Text → M Reply
  unfolding try
  handle_groups domain q =
      try (patrabahok.Groups.Search.group_list domain q) server_error
        (λ list. reply 200 (patrabahok.LocalApi.Payload.group_list list))

  unfoldable pub handle_group_get_email : ℕ → Text → M Reply
  unfolding try
  handle_group_get_email status email =
      try (group_get email) status_for_err (λ g.
        try (group_members email) server_error (λ members. reply status (one_group g members)))

  unfoldable pub handle_new_group : Option NewGroup → M Reply
  unfolding with_body try new_group_settings handle_group_get_email
  handle_new_group body = with_body body (λ b.
      try (group_create b.email (new_group_settings b)) status_for_err
        (λ done. handle_group_get_email 201 b.email))

  unfoldable pub handle_group_remove : Text → M Reply
  unfolding try
  handle_group_remove email = try (group_delete email) status_for_err (λ done. reply 204 no_content)

  unfoldable pub handle_new_members : Text → Option NewMembers → M Reply
  unfolding with_body try
  handle_new_members email body = with_body body (λ b.
      try (group_add_members email b.members (or_text role_member b.role)) status_for_err
        (λ results. reply 200 (member_results results)))

  unfoldable pub handle_member_remove : Text → Text → M Reply
  unfolding try
  handle_member_remove email member =
      try (group_remove_member email member) status_for_err (λ done. reply 204 no_content)
