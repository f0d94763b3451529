-- ===== src/Mailboxes/Change.antt =====
-- Reading, changing and removing mailboxes: the other operations of
-- cli/internal/mailbox/mailbox.go on virtual_users.
use patrabahok.Base.{
  ℕ, Bool, true, false, ◌&&◌, not, Option, none, some, List, map, if◌then◌else◌, any, ltb, ◌==◌,
  length,
}
use patrabahok.Base.Text.{Text, text_eq, text_lt, is_empty}
use patrabahok.Base.Table.{rows_where, row_where, delete_where, update_where, count_where, order_by}
use patrabahok.Base.Int.{ℤ, is_positive, int_eq}
use patrabahok.Address.{not_found, invalid, validate_email, split_email}
use patrabahok.Address.Paths.{mailbox_dir}
use patrabahok.Db.{
  Env, State, UserRow, M, pure, fail, lift, ◌>>=◌, ◌>>◌, exec, query, disk, refuse_if, same,
}
use patrabahok.Mailboxes.{Mailbox, full_view, list_view, remove_all, hash_password}

module _ ⦃env : Env⦄ where
  unfoldable pub select_mailboxes : Text → State → List Mailbox
  select_mailboxes domain s =
      let listed =
        if is_empty domain
        then s.users
        else rows_where (λ u. any (λ d. d.id == u.domain_id && same d.name domain) s.domains)
            s.users in
      map list_view (order_by (λ a b. text_lt (env.weight a.email) (env.weight b.email)) listed)

  unfoldable pub mailbox_list : Text → M (List Mailbox)
  mailbox_list domain = query (select_mailboxes domain)

  unfoldable pub find_user : Text → State → Option UserRow
  find_user email s = row_where (λ u. same u.email email) s.users

  unfoldable pub mailbox_or_missing : Option UserRow → M Mailbox
  mailbox_or_missing none = fail not_found
  mailbox_or_missing (some u) = pure (full_view u)

  unfoldable pub mailbox_get : Text → M Mailbox
  unfolding mailbox_or_missing find_user
  mailbox_get email = do
    lift (validate_email email)
    found ← query (find_user email)
    mailbox_or_missing found

  -- DELETE FROM virtual_users; a forward goes with its mailbox.
  unfoldable pub delete_user : Text → State → Unit {0} × State
  delete_user email s = (
    tt,
    record s {
      users = delete_where (λ u. same u.email email) s.users;
      forwards =
          delete_where (λ f. any (λ u. same u.email email && same u.email f.email) s.users)
            s.forwards;
    },
  )

  unfoldable pub delete_memberships : Text → State → Unit {0} × State
  delete_memberships email s =
      (tt, record s { members = delete_where (λ m. same m.member email) s.members })

  unfoldable pub mailbox_remove : Text → M (Unit {0})
  mailbox_remove email = do
    (local, domain) ← lift (split_email email)
    exec (delete_user email)
    exec (delete_memberships email)
    disk (remove_all (mailbox_dir domain local))

  -- UPDATE virtual_users SET … WHERE email = ?: the rows that it changes are counted, and one that
  -- holds the new value already is not.
  unfoldable pub update_user : Text → (UserRow → Bool) → (UserRow → UserRow) → State → ℕ × State
  update_user email keeps change s = (
    count_where (λ u. same u.email email && not (keeps u)) s.users,
    record s { users = update_where (λ u. same u.email email) change s.users },
  )

  unfoldable pub mailbox_passwd : Text → Text → M (Unit {0})
  mailbox_passwd email password = do
    lift (validate_email email)
    hash ← hash_password password
    n ← exec (update_user email (λ u. text_eq u.password hash) (λ u. record u { password = hash }))
    refuse_if (n == 0) not_found

  -- `if n == 0 { if _, err := MailboxGet(…) … }`
  unfoldable pub recheck : ℕ → Text → M (Unit {0})
  recheck n email = if n == 0 then (do m ← mailbox_get email; pure tt) else pure tt

  unfoldable pub update_mailbox : Text → (UserRow → Bool) → (UserRow → UserRow) → M (Unit {0})
  unfolding recheck
  update_mailbox email keeps change = do n ← exec (update_user email keeps change); recheck n email

  unfoldable pub mailbox_set_quota : Text → ℤ → M (Unit {0})
  mailbox_set_quota email quota = do
    lift (validate_email email)
    refuse_if (not (is_positive quota)) invalid
    update_mailbox email (λ u. int_eq u.quota_bytes quota) (λ u. record u { quota_bytes = quota })

  unfoldable pub mailbox_set_name : Text → Text → M (Unit {0})
  mailbox_set_name email name = do
    lift (validate_email email)
    refuse_if (ltb 255 (length name)) invalid
    update_mailbox email (λ u. text_eq u.display_name name) (λ u. record u { display_name = name })

  unfoldable pub bool_eq : Bool → Bool → Bool
  bool_eq true b = b
  bool_eq false b = not b

  unfoldable pub mailbox_set_enabled : Text → Bool → M (Unit {0})
  mailbox_set_enabled email enabled = do
    lift (validate_email email)
    update_mailbox email (λ u. bool_eq u.enabled enabled) (λ u. record u { enabled = enabled })
