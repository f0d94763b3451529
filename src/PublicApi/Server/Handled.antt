-- ===== src/PublicApi/Server/Handled.antt =====
-- The handlers of mailboxes and aliases answer, and keep what the operations of the store keep on
-- their domain.
use patrabahok.Reads.{mailbox_get-Keeps}
use patrabahok.Base.{ℕ, Bool, ◌||◌, not, Option, if◌then◌else◌}
use patrabahok.Base.Text.{Text, codes, trim_space, is_empty}
use patrabahok.Quota.{parse_quota}
use patrabahok.Db.{Env, State, M}
use patrabahok.Db.Keeps.{Keeps}
use patrabahok.Mailboxes.Change.{}
use patrabahok.PublicApi.{error_message, Response, Caller, on_success, valid_password, valid_name}
use patrabahok.PublicApi.Handlers.{
  MailboxBody, AliasBody, respond_mailbox, alias_from_body, handle_mailbox_create,
  handle_mailbox_delete, handle_mailbox_password, handle_mailbox_name, handle_mailbox_quota,
  handle_mailbox_status, handle_alias_create, handle_alias_delete,
}
use patrabahok.PublicApi.GroupHandlers.{}
use patrabahok.PublicApi.Store.{StoreKeeps, Within}
use patrabahok.Db.Answers.{Answers, if-Answers}
use patrabahok.PublicApi.Server.Outcome.{
  respond-Answers, on_success-Answers, decoded-Answers, with_quota-Answers, at_address-Answers,
}

module _ ⦃env : Env⦄ (P : State → Type 0) (caller : Caller)
    (keeps : StoreKeeps P caller.domain) where
  pub respond_mailbox-Answers :
      (status : ℕ) (email : Text) → Answers P (respond_mailbox caller status email)
  unfolding respond_mailbox
  respond_mailbox-Answers status email =
      on_success-Answers P _ _ (mailbox_get-Keeps P email) (λ m. respond-Answers P _ _)

  -- An operation, and then the mailbox that it changed.
  pub changed-Answers :
      (status : ℕ) (email : Text) (m : M (Unit {0}))
      → Keeps P m
      → Answers P (on_success m (λ done. respond_mailbox caller status email))
  changed-Answers status email m keep =
      on_success-Answers P m _ keep (λ _. respond_mailbox-Answers status email)

  pub create-Answers : (body : Option MailboxBody) → Answers P (handle_mailbox_create caller body)
  unfolding handle_mailbox_create
  create-Answers body = decoded-Answers P body _ (λ b. at_address-Answers P _ b.username _ (λ e w.
      if-Answers P (not (valid_password b.password) || not (valid_name b.name)) _ _
        (respond-Answers P 400 error_message)
        (with_quota-Answers P (parse_quota (if is_empty b.quota then codes "1G" else b.quota)) _
          (λ q. changed-Answers 201 e _ (keeps.create e b.password (trim_space b.name) q w)))))

  pub delete-Answers : (username : Text) → Answers P (handle_mailbox_delete caller username)
  unfolding handle_mailbox_delete
  delete-Answers username = at_address-Answers P _ username _ (λ e w.
      on_success-Answers P _ _ (mailbox_get-Keeps P e)
        (λ _. on_success-Answers P _ _ (keeps.remove e w) (λ _. respond-Answers P _ _)))

  pub password-Answers :
      (username : Text) (body : Option Text)
      → Answers P (handle_mailbox_password caller username body)
  unfolding handle_mailbox_password
  password-Answers username body = at_address-Answers P _ username _ (λ e w.
      decoded-Answers P body _ (λ p.
        if-Answers P (not (valid_password p)) _ _ (respond-Answers P _ _)
          (changed-Answers 200 e _ (keeps.passwd e p w))))

  pub name-Answers :
      (username : Text) (body : Option Text) → Answers P (handle_mailbox_name caller username body)
  unfolding handle_mailbox_name
  name-Answers username body = at_address-Answers P _ username _ (λ e w.
      decoded-Answers P body _ (λ n.
        if-Answers P (not (valid_name n)) _ _ (respond-Answers P _ _)
          (changed-Answers 200 e _ (keeps.set_name e (trim_space n) w))))

  pub quota-Answers :
      (username : Text) (body : Option Text) → Answers P (handle_mailbox_quota caller username body)
  unfolding handle_mailbox_quota
  quota-Answers username body = at_address-Answers P _ username _ (λ e w.
      decoded-Answers P body _ (λ q. if-Answers P (is_empty q) _ _ (respond-Answers P _ _) (
        with_quota-Answers P (parse_quota q) _
          (λ bytes. changed-Answers 200 e _ (keeps.set_quota e bytes w)))))

  pub status-Answers :
      (username : Text) (body : Option (Option Bool))
      → Answers P (handle_mailbox_status caller username body)
  unfolding handle_mailbox_status
  status-Answers username body = at_address-Answers P _ username _ (λ e w.
      decoded-Answers P body _ (λ field.
        decoded-Answers P field _ (λ b. changed-Answers 200 e _ (keeps.set_enabled e b w))))

  pub alias_from_body-Answers :
      (body : Option AliasBody) (k : Text → Text → M Response)
      → ((e d : Text) → Within caller.domain e → Answers P (k e d))
      → Answers P (alias_from_body caller body k)
  unfolding alias_from_body
  alias_from_body-Answers body k next =
      decoded-Answers P body _
        (λ b. at_address-Answers P _ b.source _ (λ e w. decoded-Answers P _ _ (λ d. next e d w)))

  pub alias_create-Answers : (body : Option AliasBody) → Answers P (handle_alias_create caller body)
  unfolding handle_alias_create
  alias_create-Answers body =
      alias_from_body-Answers body _
        (λ e d w. on_success-Answers P _ _ (keeps.add_alias e d w) (λ _. respond-Answers P _ _))

  pub alias_delete-Answers : (body : Option AliasBody) → Answers P (handle_alias_delete caller body)
  unfolding handle_alias_delete
  alias_delete-Answers body =
      alias_from_body-Answers body _
        (λ e d w. on_success-Answers P _ _ (keeps.remove_alias e d w) (λ _. respond-Answers P _ _))
