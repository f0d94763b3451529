-- ===== src/LocalApi/Server/Tables.antt =====
-- From valid tables the local API answers every request and leaves valid tables.
use patrabahok.Invariant.Operations.Members.{group_remove_member-Valid, group_add_members-Valid}
use patrabahok.Invariant.Operations.Groups.{group_delete-Valid, group_create-Valid}
use patrabahok.Invariant.Operations.Routes.{alias_remove-Valid, alias_add-Valid}
use patrabahok.Invariant.Operations.{
  mailbox_set_quota-Valid, mailbox_passwd-Valid, mailbox_remove-Valid, mailbox_add-Valid,
  domain_remove-Valid, domain_add-Valid,
}
use patrabahok.Db.Rules.{Runs}
use patrabahok.Reads.{
  group_list-Keeps, alias_list-Keeps, mailbox_list-Keeps, domain_list-Keeps, group_members-Keeps,
  group_get-Keeps,
}
use patrabahok.Base.Int.{ℤ}
use patrabahok.Base.{refl, inr, inl, not, Bool-cases, ℕ, Option, none, some}
use patrabahok.Base.Text.{trim_prefix, trim_space, is_empty, has_prefix, Text}
use patrabahok.Db.{pure, TokenRow, Env, State, M}
use patrabahok.Db.Answers.{Answers, Answered, pure-Answers, attempt-Answers, if-Answers}
use patrabahok.Db.Keeps.{Keeps, Keeps-pure, Keeps-query, Keeps-bind, Keeps-attempt, Keeps-exec}
use patrabahok.Invariant.{IsValid-aside, IsValid}
use patrabahok.LocalApi.{
  bearer, err, ok, Result, Error, Reply, try, reply_or, with_body, admit_token, require_scope,
}
use patrabahok.LocalApi.Handlers.{
  new_group_settings, chosen_quota, handle_member_remove, handle_new_members, handle_group_remove,
  handle_new_group, handle_groups, handle_alias_remove, handle_alias_add, handle_aliases,
  handle_quota, handle_mailbox_passwd, handle_mailbox_remove, handle_mailbox_add, handle_mailboxes,
  handle_domain_remove, handle_domain_add, handle_group_get_email, handle_domain_list, with_parsed,
}
use patrabahok.LocalApi.Server.{Route, run_route, serve_route, scope_of}
use patrabahok.Keys.Tokens.{has_scope, TokenInfo, verify, verified, mark_token}

module _ (P : State → Type 0) where
  reply_or-Answers :
      {A : Type 0} (status : Error → ℕ) (k : A → M Reply)
      → ((a : A) → Answers P (k a))
      → (r : Result A) → Answers P (reply_or status k r)
  unfolding reply_or
  reply_or-Answers status k next (ok a) = next a
  reply_or-Answers status k next (err e) = pure-Answers P _

  try-Answers :
      {A : Type 0} (m : M A) (status : Error → ℕ) (k : A → M Reply)
      → Keeps P m
      → ((a : A) → Answers P (k a))
      → Answers P (try m status k)
  unfolding try
  try-Answers m status k keep next = attempt-Answers P m _ keep (reply_or-Answers status k next)

  with_body-Answers :
      {A : Type 0} (o : Option A) (k : A → M Reply)
      → ((a : A) → Answers P (k a))
      → Answers P (with_body o k)
  unfolding with_body
  with_body-Answers none k next = pure-Answers P _
  with_body-Answers (some a) k next = next a

  with_parsed-Answers :
      (r : Result ℤ) (k : ℤ → M Reply) → ((q : ℤ) → Answers P (k q)) → Answers P (with_parsed r k)
  unfolding with_parsed
  with_parsed-Answers (ok q) k next = next q
  with_parsed-Answers (err e) k next = pure-Answers P _

  verified-Keeps :
      ⦃env : Env⦄ (found : Option TokenRow)
      → ((id : ℕ) (s : State) → P s → P (mark_token id s).1)
      → Keeps P (verified found)
  unfolding verified
  verified-Keeps none mark = Keeps-pure P _
  verified-Keeps (some t) mark =
      Keeps-bind P _ _ (Keeps-attempt P _ (Keeps-exec P _ (mark t.id))) (λ a. Keeps-pure P _)

  verify-Keeps :
      ⦃env : Env⦄ (key : Text)
      → ((id : ℕ) (s : State) → P s → P (mark_token id s).1)
      → Keeps P (verify key)
  unfolding verify
  verify-Keeps key mark = elim (Bool-cases (is_empty key)) [
    | inl e ↦ rw e (Keeps-pure P _)
    | inr e ↦ rw e (Keeps-bind P _ _ (Keeps-query P _) (λ a. verified-Keeps a mark))
  ]

  admit_token-Answers :
      ⦃env : Env⦄ (scope : Text) (h : M Reply)
      → Answers P h
      → (r : Result (Option TokenInfo)) → Answers P (admit_token scope h r)
  unfolding admit_token
  admit_token-Answers scope h next (err e) = pure-Answers P _
  admit_token-Answers scope h next (ok none) = pure-Answers P _
  admit_token-Answers scope h next (ok (some token)) =
      if-Answers P (not (has_scope token.scopes scope)) _ _ (pure-Answers P _) next

  require_scope-Answers :
      ⦃env : Env⦄ (scope authorization : Text) (h : M Reply)
      → ((id : ℕ) (s : State) → P s → P (mark_token id s).1)
      → Answers P h
      → Answers P (require_scope scope authorization h)
  unfolding require_scope
  require_scope-Answers scope authorization h mark next =
      if-Answers P (not (has_prefix bearer authorization)) _ _ (pure-Answers P _) (
        attempt-Answers P (verify (trim_space (trim_prefix bearer authorization))) _
          (verify-Keeps _ mark) (admit_token-Answers scope h next))

module _ ⦃env : Env⦄ where
  done-Answers :
      {A : Type 0} (m : M A) (status : Error → ℕ) (answer : A → Reply)
      → Keeps IsValid m
      → Answers IsValid (try m status (λ a. pure (answer a)))
  done-Answers m status answer keep =
      try-Answers IsValid m status _ keep (λ a. pure-Answers IsValid _)

  group_get_email-Answers :
      (status : ℕ) (email : Text) → Answers IsValid (handle_group_get_email status email)
  unfolding handle_group_get_email
  group_get_email-Answers status email =
      try-Answers IsValid _ _ _ (group_get-Keeps IsValid email)
        (λ g. done-Answers _ _ _ (group_members-Keeps IsValid email))

  run_route-Answers : (route : Route) → Answers IsValid (run_route route)
  unfolding run_route handle_domain_list handle_domain_add handle_domain_remove handle_mailboxes
      handle_mailbox_add handle_mailbox_remove handle_mailbox_passwd handle_quota handle_aliases
      handle_alias_add handle_alias_remove handle_groups handle_new_group handle_group_remove
      handle_new_members handle_member_remove
  run_route-Answers Route.domains = done-Answers _ _ _ (domain_list-Keeps IsValid)
  run_route-Answers (Route.domain_add body) =
      with_body-Answers IsValid body _ (λ b. done-Answers _ _ _ (λ s h. domain_add-Valid b h))
  run_route-Answers (Route.domain_remove name) =
      done-Answers _ _ _ (λ s h. domain_remove-Valid name h)
  run_route-Answers (Route.mailboxes domain) =
      done-Answers _ _ _ (mailbox_list-Keeps IsValid domain)
  run_route-Answers (Route.mailbox_add body) =
      with_body-Answers IsValid body _
        (λ b. done-Answers _ _ _ (λ s h. mailbox_add-Valid b.email b.password _ h))
  run_route-Answers (Route.mailbox_remove email) =
      done-Answers _ _ _ (λ s h. mailbox_remove-Valid email h)
  run_route-Answers (Route.mailbox_passwd email body) =
      with_body-Answers IsValid body _
        (λ b. done-Answers _ _ _ (λ s h. mailbox_passwd-Valid email b h))
  run_route-Answers (Route.mailbox_quota email body) = with_body-Answers IsValid body _ (λ b.
      with_parsed-Answers IsValid (chosen_quota b) _
        (λ q. done-Answers _ _ _ (λ s h. mailbox_set_quota-Valid email q h)))
  run_route-Answers (Route.aliases domain) = done-Answers _ _ _ (alias_list-Keeps IsValid domain)
  run_route-Answers (Route.alias_add body) =
      with_body-Answers IsValid body _
        (λ b. done-Answers _ _ _ (λ s h. alias_add-Valid b.source b.destination h))
  run_route-Answers (Route.alias_remove body) =
      with_body-Answers IsValid body _
        (λ b. done-Answers _ _ _ (λ s h. alias_remove-Valid b.source b.destination h))
  run_route-Answers (Route.groups domain q) = done-Answers _ _ _ (group_list-Keeps IsValid domain q)
  run_route-Answers (Route.group_create body) = with_body-Answers IsValid body _ (λ b.
      try-Answers IsValid _ _ _ (λ s h. group_create-Valid b.email (new_group_settings b) h)
        (λ _. group_get_email-Answers 201 b.email))
  run_route-Answers (Route.group_get email) = group_get_email-Answers 200 email
  run_route-Answers (Route.group_delete email) =
      done-Answers _ _ _ (λ s h. group_delete-Valid email h)
  run_route-Answers (Route.group_add_members email body) =
      with_body-Answers IsValid body _
        (λ b. done-Answers _ _ _ (λ s h. group_add_members-Valid email b.members _ h))
  run_route-Answers (Route.group_remove_member email member) =
      done-Answers _ _ _ (λ s h. group_remove_member-Valid email member h)

  mark-IsValid : (id : ℕ) (t : State) → IsValid t → IsValid (mark_token id t).1
  unfolding mark_token
  mark-IsValid id t h = IsValid-aside _ _ refl refl refl refl refl h

  -- From valid tables every request to the local API is answered and leaves valid tables,
  -- whatever token comes with it and whatever calls fail.
  pub serve_route-IsValid :
      (s : State) (authorization : Text) (route : Route)
      → IsValid s
      → Runs s (serve_route authorization route) (Answered IsValid)
  unfolding serve_route
  serve_route-IsValid s authorization route h =
      require_scope-Answers IsValid (scope_of route) authorization (run_route route) mark-IsValid
        (run_route-Answers route) s h
