-- ===== src/PublicApi/Server/Served.antt =====
-- Every request is answered, and keeps what the operations of the store keep on the domain of its key.
use patrabahok.Base.{ℕ, ◌≡◌, true, ◌||◌, Option, [], ◌++◌, ltb, ◌==◌, length}
use patrabahok.Base.Text.{Text, codes, to_lower, equal_fold}
use patrabahok.Db.{Env, State, M, ◌>>◌}
use patrabahok.Db.Rules.{Runs-bind, Runs-attempt-bind, Runs-pure, Runs_mono, Then}
use patrabahok.Db.Keeps.{Keeps-exec}
use patrabahok.Mailboxes.Change.{}
use patrabahok.Keys.{mark_key}
use patrabahok.Audit.{log_change}
use patrabahok.PublicApi.{Response, Credentials, Caller, client_ip}
use patrabahok.PublicApi.Handlers.{handle_mailbox_list, handle_mailbox_get, handle_alias_list}
use patrabahok.PublicApi.GroupHandlers.{
  GroupBody, GroupPatch, MembersBody, ForwardBody, create_settings, update_settings, record_change,
  respond_group, handle_group_list, handle_group_create, handle_group_get, handle_group_update,
  handle_group_delete, handle_group_add_members, handle_group_remove_member, handle_forward_set,
  handle_forward_clear,
}
use patrabahok.PublicApi.Store.{StoreKeeps}
use patrabahok.PublicApi.Server.{Endpoint, handle, serve}
use patrabahok.Db.Answers.{Answers, Answered, if-Answers}
use patrabahok.PublicApi.Server.Outcome.{
  respond-Answers, on_success-Answers, decoded-Answers, at_address-Answers, auth-Answers,
}
use patrabahok.Reads.{
  alias_list-Keeps, group_get-Keeps, group_list-Keeps, group_members-Keeps, mailbox_get-Keeps,
  mailbox_list-Keeps,
}
use patrabahok.PublicApi.Server.Handled.{
  alias_create-Answers, alias_delete-Answers, create-Answers, delete-Answers, name-Answers,
  password-Answers, quota-Answers, respond_mailbox-Answers, status-Answers,
}

module _ ⦃env : Env⦄ (P : State → Type 0) (caller : Caller)
    (keeps : StoreKeeps P caller.domain) where
  -- An answer behind an entry of the audit log, whose failure is dropped.
  logged-Answers :
      (action target detail : Text) (m : M Response)
      → Answers P m
      → Answers P (record_change caller action target detail >> m)
  unfolding record_change log_change
  logged-Answers action target detail m next s h =
      Runs-bind (Answered P) _ (λ _. m)
        (Runs-attempt-bind (Then (Answered P) (λ _. m)) _ _ (
          Runs_mono (λ r t p. Runs-pure (Then (Answered P) (λ _. m)) tt (next t p))
            (Keeps-exec P _
              (keeps.note (codes "apikey:" ++ caller.domain) action target detail
                (client_ip caller.remote_addr))
              s h)))

  respond_group-Answers :
      (status : ℕ) (email : Text) → Answers P (respond_group caller status email)
  unfolding respond_group
  respond_group-Answers status email =
      on_success-Answers P _ _ (group_get-Keeps P email)
        (λ g. on_success-Answers P _ _ (group_members-Keeps P email) (λ ms. respond-Answers P _ _))

  group_create-Answers : (body : Option GroupBody) → Answers P (handle_group_create caller body)
  unfolding handle_group_create
  group_create-Answers body = decoded-Answers P body _ (λ b. at_address-Answers P _ b.name _ (λ e w.
      on_success-Answers P _ _ (keeps.create_group e (create_settings b) w)
        (λ _. logged-Answers _ _ _ _ (respond_group-Answers 201 e))))

  group_update-Answers :
      (name : Text) (body : Option GroupPatch) → Answers P (handle_group_update caller name body)
  unfolding handle_group_update
  group_update-Answers name body = at_address-Answers P _ name _ (λ e w.
      on_success-Answers P _ _ (group_get-Keeps P e) (λ g. decoded-Answers P body _ (λ p.
        on_success-Answers P _ _ (keeps.update_group e (update_settings g p) w)
          (λ _. logged-Answers _ _ _ _ (respond_group-Answers 200 e)))))

  group_delete-Answers : (name : Text) → Answers P (handle_group_delete caller name)
  unfolding handle_group_delete
  group_delete-Answers name = at_address-Answers P _ name _ (λ e w.
      on_success-Answers P _ _ (keeps.delete_group e w)
        (λ _. logged-Answers _ _ _ _ (respond-Answers P _ _)))

  add_members-Answers :
      (name : Text) (body : Option MembersBody)
      → Answers P (handle_group_add_members caller name body)
  unfolding handle_group_add_members
  add_members-Answers name body = at_address-Answers P _ name _ (λ e w.
      decoded-Answers P body _ (λ b.
        if-Answers P (length b.members == 0 || ltb 1000 (length b.members)) _ _
          (respond-Answers P _ _)
          (on_success-Answers P _ _ (keeps.add_members e b.members _ w)
            (λ _. logged-Answers _ _ _ _ (respond-Answers P _ _)))))

  remove_member-Answers :
      (name member : Text) → Answers P (handle_group_remove_member caller name member)
  unfolding handle_group_remove_member
  remove_member-Answers name member = at_address-Answers P _ name _ (λ e w.
      on_success-Answers P _ _ (keeps.remove_member e (to_lower member) w)
        (λ _. logged-Answers _ _ _ _ (respond-Answers P _ _)))

  forward_set-Answers :
      (username : Text) (body : Option ForwardBody)
      → Answers P (handle_forward_set caller username body)
  unfolding handle_forward_set
  forward_set-Answers username body = at_address-Answers P _ username _ (λ e w.
      decoded-Answers P body _ (λ b.
        on_success-Answers P _ _ (keeps.set_forward e b.destination _ w)
          (λ _. logged-Answers _ _ _ _ (respond-Answers P _ _))))

  forward_clear-Answers : (username : Text) → Answers P (handle_forward_clear caller username)
  unfolding handle_forward_clear
  forward_clear-Answers username = at_address-Answers P _ username _ (λ e w.
      on_success-Answers P _ _ (mailbox_get-Keeps P e) (λ _.
        on_success-Answers P _ _ (keeps.clear_forward e w)
          (λ _. logged-Answers _ _ _ _ (respond-Answers P _ _))))

  pub handle-Answers : (endpoint : Endpoint) → Answers P (handle endpoint caller)
  unfolding handle handle_mailbox_list handle_mailbox_get handle_alias_list handle_group_list
      handle_group_get
  handle-Answers Endpoint.mailbox_list =
      on_success-Answers P _ _ (mailbox_list-Keeps P caller.domain) (λ _. respond-Answers P _ _)
  handle-Answers (Endpoint.mailbox_create body) = create-Answers P caller keeps body
  handle-Answers (Endpoint.mailbox_get username) =
      at_address-Answers P _ username _ (λ e w. respond_mailbox-Answers P caller keeps 200 e)
  handle-Answers (Endpoint.mailbox_delete username) = delete-Answers P caller keeps username
  handle-Answers (Endpoint.mailbox_password username body) =
      password-Answers P caller keeps username body
  handle-Answers (Endpoint.mailbox_name username body) = name-Answers P caller keeps username body
  handle-Answers (Endpoint.mailbox_quota username body) = quota-Answers P caller keeps username body
  handle-Answers (Endpoint.mailbox_status username body) =
      status-Answers P caller keeps username body
  handle-Answers Endpoint.alias_list =
      on_success-Answers P _ _ (alias_list-Keeps P caller.domain) (λ _. respond-Answers P _ _)
  handle-Answers (Endpoint.alias_create body) = alias_create-Answers P caller keeps body
  handle-Answers (Endpoint.alias_delete body) = alias_delete-Answers P caller keeps body
  handle-Answers Endpoint.group_list =
      on_success-Answers P _ _ (group_list-Keeps P caller.domain []) (λ _. respond-Answers P _ _)
  handle-Answers (Endpoint.group_create body) = group_create-Answers body
  handle-Answers (Endpoint.group_get name) =
      at_address-Answers P _ name _ (λ e w. respond_group-Answers 200 e)
  handle-Answers (Endpoint.group_delete name) = group_delete-Answers name
  handle-Answers (Endpoint.group_update name body) = group_update-Answers name body
  handle-Answers (Endpoint.group_add_members name body) = add_members-Answers name body
  handle-Answers (Endpoint.group_remove_member name member) = remove_member-Answers name member
  handle-Answers (Endpoint.forward_set username body) = forward_set-Answers username body
  handle-Answers (Endpoint.forward_clear username) = forward_clear-Answers username

-- A request is answered, and what the operations keep on every domain that is named as the path
-- names it, the request keeps.
pub serve-Answers :
    ⦃env : Env⦄ (P : State → Type 0) (c : Credentials) (endpoint : Endpoint)
    → ((domain : Text) → equal_fold domain (to_lower c.path_domain) ≡ true → StoreKeeps P domain)
    → ((id : ℕ) (s : State) → P s → P (mark_key id s).1)
    → Answers P (serve c endpoint)
unfolding serve
serve-Answers P c endpoint keeps mark =
    auth-Answers P c _ mark
      (λ caller here. handle-Answers P caller (keeps caller.domain here) endpoint)
