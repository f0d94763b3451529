-- ===== src/Dashboard/Server/Tables.antt =====
-- From valid tables the dashboard answers every request and leaves valid tables.
use patrabahok.Base.{◌||◌, ◌==◌, ltb, length, not}
use patrabahok.Base.Text.{Text, text_eq, trim_space}
use patrabahok.Base.Int.{ℤ}
use patrabahok.Db.{Env, State}
use patrabahok.Db.Rules.{Runs}
use patrabahok.Db.Keeps.{Keeps-lift, Keeps-query}
use patrabahok.Db.Answers.{Answers, Answered, pure-Answers, if-Answers}
use patrabahok.Passwords.{Argon2}
use patrabahok.Domains.{address_kind}
use patrabahok.Reads.{domain_list-Keeps, alias_list-Keeps, group_list-Keeps, mailbox_get-Keeps}
use patrabahok.Invariant.{IsValid}
use patrabahok.Invariant.Operations.{
  domain_add-Valid, domain_remove-Valid, mailbox_create-Valid, mailbox_remove-Valid,
  mailbox_passwd-Valid, mailbox_set_quota-Valid, mailbox_set_name-Valid, mailbox_set_enabled-Valid,
}
use patrabahok.Invariant.Operations.Routes.{
  alias_add-Valid, alias_remove-Valid, forward_set-Valid, forward_clear-Valid, catch_all_set-Valid,
}
use patrabahok.Invariant.Operations.Members.{
  group_update-Valid, group_remove_member-Valid, group_set_member_role-Valid,
  group_add_members-Valid,
}
use patrabahok.Invariant.Operations.Groups.{group_create-Valid, group_delete-Valid}
use patrabahok.Dashboard.{failed, Visitor, Incoming, UrlHost, form_address}
use patrabahok.Dashboard.Users.{
  is_one, refused_result, handle_user_create, handle_user_profile, handle_user_password,
  handle_user_quota, handle_user_status, handle_user_forward, handle_user_forward_clear,
  handle_user_alias_add, handle_user_alias_remove, handle_user_group_add, handle_user_group_remove,
  handle_user_delete, handle_aliases_page, handle_alias_create, handle_alias_delete,
}
use patrabahok.Dashboard.Groups.{
  handle_groups_page, handle_group_new, handle_group_save, handle_group_drop,
  handle_group_members_add, split_addresses, handle_group_member_role, handle_group_member_remove,
  handle_domain_new, handle_domain_delete, handle_domain_catch_all, group_settings_from_form,
}
use patrabahok.Dashboard.Server.{Action, Page, act, open_page, serve_page}
use patrabahok.Dashboard.Server.Parts.{
  IsValid-other, change-Answers, with_form-Answers, secure-Answers, require_auth-Answers,
}
use patrabahok.Dashboard.Server.Signing.{
  handle_login_form-Answers, handle_login-Answers, handle_logout-Answers,
  handle_settings_password-Answers, handle_admins-Answers, handle_admin_add-Answers,
  handle_admin_delete-Answers, handle_tokens-Answers, handle_token_add-Answers,
  handle_token_delete-Answers, handle_key_generate-Answers, handle_key_revoke-Answers,
}
use patrabahok.Dashboard.Server.Changes.{
  written-Answers, written_down-Answers, alias_unless_taken-Answers, members_added-Answers,
}

module _ ⦃env : Env⦄ where
  module _ (argon : Argon2) (show_bytes : ℤ → Text) where
    act-Answers :
        (agent : Text) (action : Action) (v : Visitor)
        → Answers IsValid (act argon show_bytes agent action v)
    unfolding act handle_user_create handle_user_profile handle_user_password handle_user_quota
        handle_user_status handle_user_forward handle_user_forward_clear handle_user_alias_add
        handle_user_alias_remove handle_user_group_add handle_user_group_remove handle_user_delete
        handle_aliases_page handle_alias_create handle_alias_delete handle_groups_page
        handle_group_new handle_group_save handle_group_drop handle_group_members_add
        handle_group_member_role handle_group_member_remove handle_domain_new handle_domain_delete
        handle_domain_catch_all address_kind
    act-Answers agent Action.show_admins v = handle_admins-Answers IsValid IsValid-other v
    act-Answers agent Action.show_tokens v = handle_tokens-Answers IsValid IsValid-other v
    act-Answers agent (Action.show_aliases domain q) v =
        change-Answers IsValid _ _ _ (alias_list-Keeps IsValid domain) (λ list.
          change-Answers IsValid _ _ _ (domain_list-Keeps IsValid)
            (λ domains. pure-Answers IsValid _))
    act-Answers agent (Action.show_groups domain q) v =
        change-Answers IsValid _ _ _ (group_list-Keeps IsValid domain _) (λ list.
          change-Answers IsValid _ _ _ (domain_list-Keeps IsValid)
            (λ domains. pure-Answers IsValid _))
    act-Answers agent (Action.change_own_password form) v =
        handle_settings_password-Answers IsValid IsValid-other v argon agent form
    act-Answers agent (Action.add_admin form) v =
        handle_admin_add-Answers IsValid IsValid-other v argon form
    act-Answers agent (Action.delete_admin name) v =
        handle_admin_delete-Answers IsValid IsValid-other v name
    act-Answers agent (Action.add_token form) v =
        handle_token_add-Answers IsValid IsValid-other v form
    act-Answers agent (Action.delete_token name) v =
        handle_token_delete-Answers IsValid IsValid-other v name
    act-Answers agent (Action.generate_key name) v =
        handle_key_generate-Answers IsValid IsValid-other v name
    act-Answers agent (Action.revoke_key name) v =
        handle_key_revoke-Answers IsValid IsValid-other v name
    act-Answers agent (Action.create_user form) v = with_form-Answers IsValid form _ (λ f.
        change-Answers IsValid _ _ _ (Keeps-lift IsValid _) (λ valid.
          change-Answers IsValid _ _ _ (Keeps-lift IsValid _) (λ quota.
            written_down-Answers _ _ v _ _ _ (λ s h.
              mailbox_create-Valid (form_address f.local f.domain) f.password (trim_space f.name)
                quota h))))
    act-Answers agent (Action.rename_user email name) v =
        written_down-Answers _ _ v _ _ _ (λ s h. mailbox_set_name-Valid email (trim_space name) h)
    act-Answers agent (Action.reset_password email password) v =
        change-Answers IsValid _ _ _ (Keeps-lift IsValid _)
          (λ valid. written_down-Answers _ _ v _ _ _ (λ s h. mailbox_passwd-Valid email password h))
    act-Answers agent (Action.set_quota email quota) v =
        change-Answers IsValid _ _ _ (Keeps-lift IsValid _)
          (λ q. written_down-Answers _ _ v _ _ _ (λ s h. mailbox_set_quota-Valid email q h))
    act-Answers agent (Action.set_status email enabled) v =
        written_down-Answers _ _ v _ _ _ (λ s h. mailbox_set_enabled-Valid email (is_one enabled) h)
    act-Answers agent (Action.forward_user email to keep) v =
        written_down-Answers _ _ v _ _ _
          (λ s h. forward_set-Valid email (trim_space to) (is_one keep) h)
    act-Answers agent (Action.clear_forward email) v =
        written_down-Answers _ _ v _ _ _ (λ s h. forward_clear-Valid email h)
    act-Answers agent (Action.add_user_alias email local domain) v =
        change-Answers IsValid _ _ _ (Keeps-query IsValid _)
          (alias_unless_taken-Answers show_bytes v email _)
    act-Answers agent (Action.remove_user_alias email source) v =
        written_down-Answers _ _ v _ _ _ (λ s h. alias_remove-Valid source email h)
    act-Answers agent (Action.add_user_group email name role) v =
        change-Answers IsValid _ _ _ (λ s h. group_add_members-Valid (trim_space name) _ _ h)
          (λ results.
            if-Answers IsValid (refused_result results) _ _ (pure-Answers IsValid _)
              (written-Answers v _ _ _))
    act-Answers agent (Action.remove_user_group email name) v =
        written_down-Answers _ _ v _ _ _ (λ s h. group_remove_member-Valid name email h)
    act-Answers agent (Action.delete_user email) v =
        change-Answers IsValid _ _ _ (mailbox_get-Keeps IsValid email)
          (λ m. written_down-Answers _ _ v _ _ _ (λ s h. mailbox_remove-Valid email h))
    act-Answers agent (Action.create_alias form) v =
        with_form-Answers IsValid form _
          (λ f. written_down-Answers _ _ v _ _ _ (λ s h. alias_add-Valid _ _ h))
    act-Answers agent (Action.delete_alias source destination) v =
        written_down-Answers _ _ v _ _ _ (λ s h. alias_remove-Valid source destination h)
    act-Answers agent (Action.create_group form) v = with_form-Answers IsValid form _ (λ f.
        written_down-Answers _ _ v _ _ _ (λ s h.
          group_create-Valid (form_address f.local f.domain) (group_settings_from_form f) h))
    act-Answers agent (Action.save_group email form) v = with_form-Answers IsValid form _ (λ f.
        written_down-Answers _ _ v _ _ _
          (λ s h. group_update-Valid email (group_settings_from_form f) h))
    act-Answers agent (Action.drop_group email) v =
        written_down-Answers _ _ v _ _ _ (λ s h. group_delete-Valid email h)
    act-Answers agent (Action.add_group_members email list role) v =
        if-Answers IsValid
          (length (split_addresses list) == 0 || ltb 2000 (length (split_addresses list))) _ _
          (pure-Answers IsValid (failed 400))
          (change-Answers IsValid _ _ _ (λ s h. group_add_members-Valid email _ _ h)
            (members_added-Answers v email _))
    act-Answers agent (Action.set_member_role email member role) v =
        written_down-Answers _ _ v _ _ _
          (λ s h. group_set_member_role-Valid email member (trim_space role) h)
    act-Answers agent (Action.remove_group_member email member) v =
        written_down-Answers _ _ v _ _ _ (λ s h. group_remove_member-Valid email member h)
    act-Answers agent (Action.add_domain form) v =
        with_form-Answers IsValid form _
          (λ name. written_down-Answers _ _ v _ _ _ (λ s h. domain_add-Valid _ h))
    act-Answers agent (Action.delete_domain name confirm) v =
        if-Answers IsValid (not (text_eq (trim_space confirm) name)) _ _
          (pure-Answers IsValid (failed 400))
          (written_down-Answers _ _ v _ _ _ (λ s h. domain_remove-Valid name h))
    act-Answers agent (Action.set_catch_all name to enabled) v =
        change-Answers IsValid _ _ _ (λ s h. catch_all_set-Valid name _ h)
          (λ _. if-Answers IsValid _ _ _ (written-Answers v _ _ _) (written-Answers v _ _ _))

    open_page-Answers :
        (req : Incoming) (page : Page) → Answers IsValid (open_page argon show_bytes req page)
    unfolding open_page
    open_page-Answers req Page.login_form =
        handle_login_form-Answers IsValid IsValid-other req.cookie
    open_page-Answers req (Page.login form) =
        handle_login-Answers IsValid IsValid-other argon req form
    open_page-Answers req Page.logout = handle_logout-Answers IsValid IsValid-other req.cookie
    open_page-Answers req (Page.signed_in action) =
        require_auth-Answers IsValid IsValid-other req _ (act-Answers req.user_agent action)

  pub serve_page-IsValid :
      (argon : Argon2) (show_bytes : ℤ → Text) (url_host : UrlHost) (s : State) (req : Incoming)
      (page : Page)
      → IsValid s
      → Runs s (serve_page argon show_bytes url_host req page) (Answered IsValid)
  unfolding serve_page
  serve_page-IsValid argon show_bytes url_host s req page h =
      secure-Answers IsValid url_host _ req _ (open_page-Answers argon show_bytes req page) s h
