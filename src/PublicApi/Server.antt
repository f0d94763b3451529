-- ===== src/PublicApi/Server.antt =====
-- The routes of cli/internal/publicapi: every endpoint, behind the check of its key.
pub mod Outcome
pub mod Handled
pub mod Served
pub mod Refusal
pub mod Isolation
use patrabahok.Base.{Option, Bool}
use patrabahok.Base.Text.{Text}
use patrabahok.Db.{Env, M}
use patrabahok.PublicApi.{Response, Credentials, Caller, auth}
use patrabahok.PublicApi.Handlers.{
  MailboxBody, AliasBody, handle_mailbox_list, handle_mailbox_create, handle_mailbox_get,
  handle_mailbox_delete, handle_mailbox_password, handle_mailbox_name, handle_mailbox_quota,
  handle_mailbox_status, handle_alias_list, handle_alias_create, handle_alias_delete,
}
use patrabahok.PublicApi.GroupHandlers.{
  GroupBody, GroupPatch, MembersBody, ForwardBody, handle_group_list, handle_group_create,
  handle_group_get, handle_group_update, handle_group_delete, handle_group_add_members,
  handle_group_remove_member, handle_forward_set, handle_forward_clear,
}

-- An endpoint with its path values and its body.
pub data Endpoint : Type 0 where
  mailbox_list : Endpoint
  mailbox_create : Option MailboxBody → Endpoint
  mailbox_get mailbox_delete : Text → Endpoint
  mailbox_password mailbox_name mailbox_quota : Text → Option Text → Endpoint
  mailbox_status : Text → Option (Option Bool) → Endpoint
  alias_list : Endpoint
  alias_create alias_delete : Option AliasBody → Endpoint
  group_list : Endpoint
  group_create : Option GroupBody → Endpoint
  group_get group_delete : Text → Endpoint
  group_update : Text → Option GroupPatch → Endpoint
  group_add_members : Text → Option MembersBody → Endpoint
  group_remove_member : Text → Text → Endpoint
  forward_set : Text → Option ForwardBody → Endpoint
  forward_clear : Text → Endpoint

module _ ⦃env : Env⦄ where
  unfoldable pub handle : Endpoint → Caller → M Response
  handle mailbox_list c = handle_mailbox_list c
  handle (mailbox_create body) c = handle_mailbox_create c body
  handle (mailbox_get username) c = handle_mailbox_get c username
  handle (mailbox_delete username) c = handle_mailbox_delete c username
  handle (mailbox_password username body) c = handle_mailbox_password c username body
  handle (mailbox_name username body) c = handle_mailbox_name c username body
  handle (mailbox_quota username body) c = handle_mailbox_quota c username body
  handle (mailbox_status username body) c = handle_mailbox_status c username body
  handle alias_list c = handle_alias_list c
  handle (alias_create body) c = handle_alias_create c body
  handle (alias_delete body) c = handle_alias_delete c body
  handle group_list c = handle_group_list c
  handle (group_create body) c = handle_group_create c body
  handle (group_get name) c = handle_group_get c name
  handle (group_update name body) c = handle_group_update c name body
  handle (group_delete name) c = handle_group_delete c name
  handle (group_add_members name body) c = handle_group_add_members c name body
  handle (group_remove_member name member) c = handle_group_remove_member c name member
  handle (forward_set username body) c = handle_forward_set c username body
  handle (forward_clear username) c = handle_forward_clear c username

  -- ServeHTTP, of a request that a route takes.
  unfoldable pub serve : Credentials → Endpoint → M Response
  unfolding handle auth
  serve c endpoint = auth c (handle endpoint)
