-- ===== src/LocalApi/Server.antt =====
-- The routes of cli/internal/api/handlers.go and groups.go, each behind its scope.
pub mod Scopes
pub mod Tables
use patrabahok.Base.{Option}
use patrabahok.Base.Text.{Text, codes}
use patrabahok.Db.{Env, M}
use patrabahok.Aliases.{Alias}
use patrabahok.LocalApi.{Reply, require_scope}
use patrabahok.LocalApi.Handlers.{
  handle_member_remove, handle_new_members, handle_group_remove, handle_group_get_email,
  handle_new_group, handle_groups, handle_alias_remove, handle_alias_add, handle_aliases,
  handle_quota, handle_mailbox_passwd, handle_mailbox_remove, handle_mailbox_add, handle_mailboxes,
  handle_domain_remove, NewMembers, handle_domain_add, NewGroup, handle_domain_list, NewQuota,
  NewMailbox,
}

-- An endpoint with its path and query values and its body.
pub data Route : Type 0 where
  domains : Route
  domain_add : Option Text → Route
  domain_remove : Text → Route
  mailboxes : Text → Route
  mailbox_add : Option NewMailbox → Route
  mailbox_remove : Text → Route
  mailbox_passwd : Text → Option Text → Route
  mailbox_quota : Text → Option NewQuota → Route
  aliases : Text → Route
  alias_add alias_remove : Option Alias → Route
  groups : Text → Text → Route
  group_create : Option NewGroup → Route
  group_get group_delete : Text → Route
  group_add_members : Text → Option NewMembers → Route
  group_remove_member : Text → Text → Route

unfoldable pub scope_of : Route → Text
scope_of domains = codes "domain"
scope_of (domain_add body) = codes "domain"
scope_of (domain_remove name) = codes "domain"
scope_of (mailboxes domain) = codes "mailbox"
scope_of (mailbox_add body) = codes "mailbox"
scope_of (mailbox_remove email) = codes "mailbox"
scope_of (mailbox_passwd email body) = codes "mailbox"
scope_of (mailbox_quota email body) = codes "mailbox"
scope_of (aliases domain) = codes "alias"
scope_of (alias_add body) = codes "alias"
scope_of (alias_remove body) = codes "alias"
scope_of (groups domain q) = codes "group"
scope_of (group_create body) = codes "group"
scope_of (group_get email) = codes "group"
scope_of (group_delete email) = codes "group"
scope_of (group_add_members email body) = codes "group"
scope_of (group_remove_member email member) = codes "group"

module _ ⦃env : Env⦄ where
  unfoldable pub run_route : Route → M Reply
  run_route domains = handle_domain_list
  run_route (domain_add body) = handle_domain_add body
  run_route (domain_remove name) = handle_domain_remove name
  run_route (mailboxes domain) = handle_mailboxes domain
  run_route (mailbox_add body) = handle_mailbox_add body
  run_route (mailbox_remove email) = handle_mailbox_remove email
  run_route (mailbox_passwd email body) = handle_mailbox_passwd email body
  run_route (mailbox_quota email body) = handle_quota email body
  run_route (aliases domain) = handle_aliases domain
  run_route (alias_add body) = handle_alias_add body
  run_route (alias_remove body) = handle_alias_remove body
  run_route (groups domain q) = handle_groups domain q
  run_route (group_create body) = handle_new_group body
  run_route (group_get email) = handle_group_get_email 200 email
  run_route (group_delete email) = handle_group_remove email
  run_route (group_add_members email body) = handle_new_members email body
  run_route (group_remove_member email member) = handle_member_remove email member

  unfoldable pub serve_route : Text → Route → M Reply
  unfolding require_scope run_route scope_of
  serve_route authorization route = require_scope (scope_of route) authorization (run_route route)
