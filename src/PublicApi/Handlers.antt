-- ===== src/PublicApi/Handlers.antt =====
-- The handlers of cli/internal/publicapi/publicapi.go: mailboxes and aliases.
use patrabahok.Base.{ℕ, Bool, ◌||◌, not, Option, none, some, map, if◌then◌else◌}
use patrabahok.Base.Text.{Text, codes, to_lower, trim_space, is_empty}
use patrabahok.Base.Int.{ℤ, is_positive}
use patrabahok.Address.{Result, ok, err, validate_email}
use patrabahok.Quota.{parse_quota}
use patrabahok.Db.{Env, M}
use patrabahok.Mailboxes.{mailbox_create}
use patrabahok.Mailboxes.Change.{
  mailbox_list, mailbox_get, mailbox_remove, mailbox_passwd, mailbox_set_name, mailbox_set_quota,
  mailbox_set_enabled,
}
use patrabahok.Aliases.{alias_add, alias_list, alias_remove}
use patrabahok.PublicApi.{
  Response, no_content, one_mailbox, many_mailboxes, one_alias, many_aliases, respond, refuse,
  on_success, decoded, at_address, valid_password, valid_name, view_of, Caller,
}

pub record MailboxBody : Type 0 where
  pub username : Text
  pub password : Text
  pub name : Text
  pub quota : Text

pub record AliasBody : Type 0 where
  pub source : Text
  pub destination : Text

-- `err != nil || quota <= 0`
unfoldable pub with_quota : Result ℤ → (ℤ → M Response) → M Response
with_quota (err e) k = refuse 400
with_quota (ok q) k = if not (is_positive q) then refuse 400 else k q

module _ ⦃env : Env⦄ (caller : Caller) where
  unfoldable pub respond_mailbox : ℕ → Text → M Response
  unfolding on_success view_of
  respond_mailbox status email =
      on_success (mailbox_get email) (λ m. respond status (one_mailbox (view_of m)))

  unfoldable pub handle_mailbox_list : M Response
  unfolding on_success view_of
  handle_mailbox_list =
      on_success (mailbox_list caller.domain) (λ ms. respond 200 (many_mailboxes (map view_of ms)))

  unfoldable pub handle_mailbox_create : Option MailboxBody → M Response
  unfolding decoded at_address with_quota on_success respond_mailbox
  handle_mailbox_create body = decoded body (λ b. at_address caller.domain b.username (λ email.
      if not (valid_password b.password) || not (valid_name b.name)
      then refuse 400
      else with_quota (parse_quota (if is_empty b.quota then codes "1G" else b.quota)) (λ quota.
        on_success (mailbox_create email b.password (trim_space b.name) quota)
          (λ done. respond_mailbox 201 email))))

  unfoldable pub handle_mailbox_get : Text → M Response
  unfolding at_address respond_mailbox
  handle_mailbox_get username =
      at_address caller.domain username (λ email. respond_mailbox 200 email)

  unfoldable pub handle_mailbox_delete : Text → M Response
  unfolding at_address on_success
  handle_mailbox_delete username = at_address caller.domain username (λ email.
      on_success (mailbox_get email)
        (λ m. on_success (mailbox_remove email) (λ done. respond 204 no_content)))

  unfoldable pub handle_mailbox_password : Text → Option Text → M Response
  unfolding at_address decoded on_success respond_mailbox
  handle_mailbox_password username body = at_address caller.domain username (λ email.
      decoded body (λ password.
        if not (valid_password password)
        then refuse 400
        else on_success (mailbox_passwd email password) (λ done. respond_mailbox 200 email)))

  unfoldable pub handle_mailbox_name : Text → Option Text → M Response
  unfolding at_address decoded on_success respond_mailbox
  handle_mailbox_name username body = at_address caller.domain username (λ email.
      decoded body (λ name.
        if not (valid_name name)
        then refuse 400
        else on_success (mailbox_set_name email (trim_space name))
            (λ done. respond_mailbox 200 email)))

  unfoldable pub handle_mailbox_quota : Text → Option Text → M Response
  unfolding at_address decoded with_quota on_success respond_mailbox
  handle_mailbox_quota username body = at_address caller.domain username (λ email.
      decoded body (λ quota.
        if is_empty quota
        then refuse 400
        else with_quota (parse_quota quota) (λ bytes.
          on_success (mailbox_set_quota email bytes) (λ done. respond_mailbox 200 email))))

  -- The body's `enabled` may be missing.
  unfoldable pub handle_mailbox_status : Text → Option (Option Bool) → M Response
  unfolding at_address decoded on_success respond_mailbox
  handle_mailbox_status username body = at_address caller.domain username (λ email.
      decoded body (λ field. decoded field (λ enabled.
        on_success (mailbox_set_enabled email enabled) (λ done. respond_mailbox 200 email))))

  unfoldable pub handle_alias_list : M Response
  unfolding on_success
  handle_alias_list =
      on_success (alias_list caller.domain) (λ list. respond 200 (many_aliases list))

  unfoldable pub checked_destination : Text → Option Text
  checked_destination destination =
      let lowered = to_lower (trim_space destination) in
      elim (validate_email lowered) [ err e ↦ none | ok a ↦ some lowered ]

  unfoldable pub alias_from_body : Option AliasBody → (Text → Text → M Response) → M Response
  unfolding at_address decoded checked_destination
  alias_from_body body k = decoded body (λ b.
      at_address caller.domain b.source (λ source.
        decoded (checked_destination b.destination) (λ destination. k source destination)))

  unfoldable pub handle_alias_create : Option AliasBody → M Response
  unfolding alias_from_body on_success
  handle_alias_create body = alias_from_body body (λ source destination.
      on_success (alias_add source destination)
        (λ done. respond 201 (one_alias (record { source = source; destination = destination }))))

  unfoldable pub handle_alias_delete : Option AliasBody → M Response
  unfolding alias_from_body on_success
  handle_alias_delete body = alias_from_body body (λ source destination.
      on_success (alias_remove source destination) (λ done. respond 204 no_content))
