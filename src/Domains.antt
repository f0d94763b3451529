-- ===== src/Domains.antt =====
-- The domain operations of cli/internal/mailbox/mailbox.go, and the address namespace that its
-- mailboxes, aliases and groups share (AddressKind of groups.go).
use patrabahok.Base.{
  ℕ, ◌+◌, Bool, ◌&&◌, Option, none, some, List, [], ◌∷◌, ◌++◌, if◌then◌else◌, any, ltb, ◌==◌,
}
use patrabahok.Base.Text.{Text, text_lt, to_lower}
use patrabahok.Base.Table.{row_where, delete_where, count_where, order_by}
use patrabahok.Address.{not_found, exists, validate_domain}
use patrabahok.Db.{
  Env, State, DomainRow, M, pure, fail, lift, ◌>>=◌, ◌>>◌, exec, query, disk, refuse_if, same,
}

module _ ⦃env : Env⦄ where
  -- INSERT IGNORE INTO virtual_domains
  unfoldable pub insert_domain : Text → State → Unit {0} × State
  insert_domain name s = if any (λ d. same d.name name) s.domains then (tt, s) else (
    tt,
    record s {
      domains = s.domains ++ record { id = s.next_domain; name = name } ∷ [];
      next_domain = s.next_domain + 1;
    },
  )

  -- The generation of DKIM keys and DNS records is a call that succeeds or fails; the files that it
  -- writes are no part of the state.
  unfoldable pub domain_add : Text → M (Unit {0})
  domain_add name = do lift (validate_domain name); exec (insert_domain name); disk (λ s. s)

  unfoldable pub domain_list : M (List DomainRow)
  domain_list =
      query (λ s. order_by (λ a b. text_lt (env.weight a.name) (env.weight b.name)) s.domains)

  unfoldable pub id_or_missing : Option DomainRow → M ℕ
  id_or_missing none = fail not_found
  id_or_missing (some d) = pure d.id

  unfoldable pub find_domain : Text → State → Option DomainRow
  find_domain name s = row_where (λ d. same d.name name) s.domains

  unfoldable pub domain_id : Text → M ℕ
  unfolding id_or_missing find_domain
  domain_id name = do found ← query (find_domain name); id_or_missing found

  -- The rows of the domain, and what the foreign keys delete with them.
  unfoldable pub is_doomed : Text → State → ℕ → Bool
  is_doomed name s id = any (λ d. same d.name name && d.id == id) s.domains

  unfoldable pub delete_domain : Text → State → Unit {0} × State
  unfolding is_doomed
  delete_domain name s = (
    tt,
    record s {
      domains = delete_where (λ d. same d.name name) s.domains;
      users = delete_where (λ u. is_doomed name s u.domain_id) s.users;
      aliases = delete_where (λ a. is_doomed name s a.domain_id) s.aliases;
      groups = delete_where (λ g. is_doomed name s g.domain_id) s.groups;
      members =
          delete_where (λ m. any (λ g. is_doomed name s g.domain_id && g.id == m.group_id) s.groups)
            s.members;
      forwards =
          delete_where
            (λ f. any (λ u. is_doomed name s u.domain_id && same u.email f.email) s.users)
            s.forwards;
      keys = delete_where (λ k. is_doomed name s k.domain_id) s.keys;
    },
  )

  unfoldable pub domain_remove : Text → M (Unit {0})
  unfolding delete_domain
  domain_remove name = do lift (validate_domain name); exec (delete_domain name)

  -- hostedDomains, as the list of the lowered names.
  unfoldable pub lowered_names : List DomainRow → List Text
  lowered_names [] = []
  lowered_names (d ∷ ds) = to_lower d.name ∷ lowered_names ds

  unfoldable pub hosted_domains : M (List Text)
  unfolding domain_list
  hosted_domains = do domains ← domain_list; pure (lowered_names domains)

-- What an address is on this server.
pub data Kind : Type 0 where
  user group alias : Kind

module _ ⦃env : Env⦄ where
  unfoldable pub has_user : Text → State → Bool
  has_user email s = any (λ u. same u.email email) s.users

  unfoldable pub has_group : Text → State → Bool
  has_group email s = any (λ g. same g.email email) s.groups

  unfoldable pub has_alias : Text → State → Bool
  has_alias email s = any (λ a. same a.source email) s.aliases

  -- The UNION ALL … LIMIT 1 of AddressKind; `none` is the empty string.
  unfoldable pub kind_of : Text → State → Option Kind
  kind_of email s =
      if has_user email s
      then some user
      else if has_group email s
      then some group
      else if has_alias email s
      then some alias
      else none

  unfoldable pub address_kind : Text → M (Option Kind)
  address_kind email = query (kind_of email)

  unfoldable pub count_groups : Text → State → ℕ
  count_groups email s = count_where (λ g. same g.email email) s.groups

  unfoldable pub not_a_group : Text → M (Unit {0})
  not_a_group email = do n ← query (count_groups email); refuse_if (ltb 0 n) exists
