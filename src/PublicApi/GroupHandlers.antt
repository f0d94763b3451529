-- ===== src/PublicApi/GroupHandlers.antt =====
-- cli/internal/publicapi/groups.go: the handlers of groups and forwards.
use patrabahok.Base.{
  ◌-◌, ℕ, Bool, true, ◌||◌, Option, none, some, List, [], ◌++◌, if◌then◌else◌, ltb, ◌==◌, length,
}
use patrabahok.Base.Text.{Text, codes, to_lower, trim_space, is_empty}
use patrabahok.Base.Table.{count_where}
use patrabahok.Db.{Env, M, ◌>>◌}
use patrabahok.Mailboxes.Change.{mailbox_get}
use patrabahok.Aliases.{forward_set, forward_clear}
use patrabahok.Groups.{
  Group, GroupSettings, group_create, group_get, group_delete, post_organization, role_member,
}
use patrabahok.Groups.Members.{
  MemberResult, group_members, group_update, group_add_members, group_remove_member,
}
use patrabahok.Groups.Search.{group_list}
use patrabahok.Audit.{log_change}
use patrabahok.PublicApi.{
  Response, no_content, one_group, many_groups, member_results, one_forward, respond, refuse,
  on_success, decoded, at_address, plural, Caller, client_ip,
}

pub record GroupBody : Type 0 where
  pub name : Text
  pub display_name : Text
  pub description : Text
  pub post_policy : Text
  pub allow_external : Bool

-- The body of an update: a field that is not sent is `none`.
pub record GroupPatch : Type 0 where
  pub display_name : Option Text
  pub description : Option Text
  pub post_policy : Option Text
  pub allow_external : Option Bool

pub record MembersBody : Type 0 where
  pub members : List Text
  pub role : Text

pub record ForwardBody : Type 0 where
  pub destination : Text
  pub keep_copy : Option Bool

abbrev pub sent_or : {A : Type 0} → A → Option A → A
sent_or old none = old
sent_or old (some new) = new

-- body.settings(), with the two defaults of a creation
unfoldable pub create_settings : GroupBody → GroupSettings
create_settings b = record {
  name = if is_empty b.display_name then to_lower (trim_space b.name) else b.display_name;
  description = b.description;
  post_policy = if is_empty b.post_policy then post_organization else b.post_policy;
  allow_external = b.allow_external;
}

-- The body is decoded into a value that holds the group's current settings.
unfoldable pub update_settings : Group → GroupPatch → GroupSettings
update_settings g p = record {
  name = sent_or g.name p.display_name;
  description = sent_or g.description p.description;
  post_policy = sent_or g.post_policy p.post_policy;
  allow_external = sent_or g.allow_external p.allow_external;
}

module _ ⦃env : Env⦄ (caller : Caller) where
  -- s.record
  unfoldable pub record_change : Text → Text → Text → M (Unit {0})
  record_change action target detail =
      log_change (codes "apikey:" ++ caller.domain) action target detail
        (client_ip caller.remote_addr)

  unfoldable pub respond_group : ℕ → Text → M Response
  unfolding on_success
  respond_group status email =
      on_success (group_get email)
        (λ g. on_success (group_members email) (λ members. respond status (one_group g members)))

  unfoldable pub handle_group_list : M Response
  unfolding on_success
  handle_group_list =
      on_success (group_list caller.domain []) (λ list. respond 200 (many_groups list))

  unfoldable pub handle_group_create : Option GroupBody → M Response
  unfolding decoded at_address on_success record_change respond_group create_settings
  handle_group_create body = decoded body (λ b. at_address caller.domain b.name (λ email.
      on_success (group_create email (create_settings b))
        (λ done. record_change (codes "group.create") email [] >> respond_group 201 email)))

  unfoldable pub handle_group_get : Text → M Response
  unfolding at_address respond_group
  handle_group_get name = at_address caller.domain name (λ email. respond_group 200 email)

  unfoldable pub handle_group_update : Text → Option GroupPatch → M Response
  unfolding at_address decoded on_success record_change respond_group update_settings
  handle_group_update name body = at_address caller.domain name (λ email.
      on_success (group_get email) (λ g. decoded body (λ p.
        on_success (group_update email (update_settings g p)) (λ done.
          record_change (codes "group.update") email
            (codes "post_policy=" ++ (update_settings g p).post_policy)
          >> respond_group 200 email))))

  unfoldable pub handle_group_delete : Text → M Response
  unfolding at_address on_success record_change
  handle_group_delete name = at_address caller.domain name (λ email.
      on_success (group_delete email)
        (λ done. record_change (codes "group.delete") email [] >> respond 204 no_content))

  unfoldable pub added_count : List MemberResult → ℕ
  added_count results = count_where (λ r. r.added) results

  unfoldable pub handle_group_add_members : Text → Option MembersBody → M Response
  unfolding at_address decoded on_success record_change added_count
  handle_group_add_members name body = at_address caller.domain name (λ email. decoded body (λ b.
      if length b.members == 0 || ltb 1000 (length b.members)
      then refuse 400
      else on_success
          (group_add_members email b.members (if is_empty b.role then role_member else b.role))
          (λ results.
            record_change (codes "group.members.add") email
              (plural (added_count results) (codes "member"))
            >> respond 200 (
                member_results results (added_count results)
                  (length results - added_count results)))))

  unfoldable pub handle_group_remove_member : Text → Text → M Response
  unfolding at_address on_success record_change
  handle_group_remove_member name member = at_address caller.domain name (λ email.
      on_success (group_remove_member email (to_lower member)) (λ done.
        record_change (codes "group.members.remove") email (to_lower member)
        >> respond 204 no_content))

  unfoldable pub handle_forward_set : Text → Option ForwardBody → M Response
  unfolding at_address decoded on_success record_change
  handle_forward_set username body = at_address caller.domain username (λ email. decoded body (λ b.
      let keep = sent_or true b.keep_copy in
      on_success (forward_set email b.destination keep) (λ done.
        record_change (codes "user.forward.set") email b.destination
        >> respond 200 (
            one_forward
              (record { destination = to_lower (trim_space b.destination); keep_copy = keep })))))

  unfoldable pub handle_forward_clear : Text → M Response
  unfolding at_address on_success record_change
  handle_forward_clear username = at_address caller.domain username (λ email.
      on_success (mailbox_get email) (λ m.
        on_success (forward_clear email)
          (λ done. record_change (codes "user.forward.clear") email [] >> respond 204 no_content)))
