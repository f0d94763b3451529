-- ===== src/Invariant/Writes.antt =====
-- Each statement that the operations run keeps the tables valid.
pub mod Groups
use patrabahok.Base.{
  inr, inl, ℕ, ◌≡◌, refl, ap, ◌∙◌, Bool, true, false, ◌&&◌, ◌||◌, not, List, [], ◌∷◌, ◌++◌, arith,
  All, All-append, All-mono, any, Bool-cases, ◌==◌, if◌then◌else◌,
}
use patrabahok.Base.Text.{Text, text_eq, text_eq_sym}
use patrabahok.Base.Table.{
  delete_where, update_where, any-append, any-delete_where, All-delete_where, All-update_where,
}
use patrabahok.Db.{Env, State, DomainRow, UserRow, AliasRow, GroupRow, MemberRow, same}
use patrabahok.Domains.{insert_domain, delete_domain, is_doomed, has_user}
use patrabahok.Mailboxes.{insert_user, upsert_user}
use patrabahok.Mailboxes.Change.{delete_user, delete_memberships, update_user}
use patrabahok.Aliases.{
  is_catch_all, has_pair, insert_alias, delete_alias, delete_catch_all, append_alias,
  upsert_forward,
}
use patrabahok.Groups.Members.{after_at}
use patrabahok.Invariant.{valid_role, IsValid, at_home, is_group_address, is_owned}
use patrabahok.Invariant.Rows.{
  any-append_left, any-delete_where_apart, any-update_where, All-delete_where_kept,
}

module _ ⦃env : Env⦄ {s : State} (h : IsValid s) where
  pub IsValid-insert_domain : (name : Text) → IsValid (insert_domain name s).1
  unfolding insert_domain
  IsValid-insert_domain name = elim (Bool-cases (any (λ d. same d.name name) s.domains)) [
    | inl old ↦ rw old h
    | inr new ↦ rw new (record {
      policies = h.policies;
      roles = h.roles;
      users_apart = h.users_apart;
      aliases_apart = h.aliases_apart;
      users_home = All-mono (λ u k. any-append_left _ s.domains _ k) s.users h.users_home;
      groups_home = All-mono (λ g k. any-append_left _ s.domains _ k) s.groups h.groups_home;
      members_owned = h.members_owned;
    })
  ]

  -- Mailboxes and groups that are left are not of the domain that goes.
  home_left :
      (name : Text) (id : ℕ) (email : Text)
      → at_home s.domains id email ≡ true
      → is_doomed name s id ≡ false
      → at_home (delete_where (λ d. same d.name name) s.domains) id email ≡ true
  unfolding is_doomed
  home_left name id email home spared =
      any-delete_where_apart _ (λ d. same d.name name) (λ d. d.id == id) s.domains
        (λ d k. ground arith) spared home

  pub alias_apart_left :
      (d : GroupRow → Bool) (a : AliasRow)
      → (is_catch_all a || not (is_group_address s.groups a.source)) ≡ true
      → (is_catch_all a || not (is_group_address (delete_where d s.groups) a.source)) ≡ true
  alias_apart_left d a k = elim (Bool-cases (is_catch_all a)) [
    | inl e ↦ rw e refl
    | inr e ↦
        let apart : is_group_address s.groups a.source ≡ false = ground arith in
        rw (any-delete_where d (λ g. same g.email a.source) s.groups apart) (ground arith)
  ]

  pub IsValid-delete_domain : (name : Text) → IsValid (delete_domain name s).1
  unfolding delete_domain
  IsValid-delete_domain name = record {
    policies = All-delete_where _ _ s.groups h.policies;
    roles = All-delete_where _ _ s.members h.roles;
    users_apart =
        All-delete_where_kept _ _ _ s.users (λ u k _. any-delete_where _ _ s.groups k)
          h.users_apart;
    aliases_apart =
        All-delete_where_kept _ _ _ s.aliases (λ a k _. alias_apart_left _ a k) h.aliases_apart;
    users_home =
        All-delete_where_kept _ _ _ s.users (λ u k n. home_left name u.domain_id u.email k n)
          h.users_home;
    groups_home =
        All-delete_where_kept _ _ _ s.groups (λ g k n. home_left name g.domain_id g.email k n)
          h.groups_home;
    members_owned =
        All-delete_where_kept _ _ _ s.members
          (λ m k n. any-delete_where_apart _ _ (λ g. g.id == m.group_id) s.groups (λ g e. e) n k)
          h.members_owned;
  }

  pub IsValid-insert_user :
      (row : UserRow)
      → is_group_address s.groups row.email ≡ false
      → at_home s.domains row.domain_id row.email ≡ true
      → IsValid (insert_user row s).1
  unfolding insert_user
  IsValid-insert_user row apart home = elim (Bool-cases (has_user row.email s)) [
    | inl old ↦ rw old h
    | inr new ↦ rw new (record {
      policies = h.policies;
      roles = h.roles;
      users_apart = All-append _ s.users _ h.users_apart (apart, tt);
      aliases_apart = h.aliases_apart;
      users_home = All-append _ s.users _ h.users_home (home, tt);
      groups_home = h.groups_home;
      members_owned = h.members_owned;
    })
  ]

  -- An update of mailboxes that leaves the address and the domain alone.
  IsValid-users :
      (p : UserRow → Bool) (f : UserRow → UserRow)
      → ((u : UserRow) → (f u).email ≡ u.email)
      → ((u : UserRow) → (f u).domain_id ≡ u.domain_id)
      → IsValid (record s { users = update_where p f s.users })
  IsValid-users p f same_email same_domain = record {
    policies = h.policies;
    roles = h.roles;
    users_apart = All-update_where _ p f (λ u k. rw (same_email u) k) s.users h.users_apart;
    aliases_apart = h.aliases_apart;
    users_home =
        All-update_where _ p f (λ u k. rw (same_email u, same_domain u) k) s.users h.users_home;
    groups_home = h.groups_home;
    members_owned = h.members_owned;
  }

  pub IsValid-upsert_user :
      (row : UserRow)
      → is_group_address s.groups row.email ≡ false
      → at_home s.domains row.domain_id row.email ≡ true
      → IsValid (upsert_user row s).1
  unfolding upsert_user
  IsValid-upsert_user row apart home = elim (Bool-cases (has_user row.email s)) [
    | inl old ↦ rw old (IsValid-users _ _ (λ u. refl) (λ u. refl))
    | inr new ↦ rw new (record {
      policies = h.policies;
      roles = h.roles;
      users_apart = All-append _ s.users _ h.users_apart (apart, tt);
      aliases_apart = h.aliases_apart;
      users_home = All-append _ s.users _ h.users_home (home, tt);
      groups_home = h.groups_home;
      members_owned = h.members_owned;
    })
  ]

  pub IsValid-update_user :
      (email : Text) (keeps : UserRow → Bool) (f : UserRow → UserRow)
      → ((u : UserRow) → (f u).email ≡ u.email)
      → ((u : UserRow) → (f u).domain_id ≡ u.domain_id)
      → IsValid (update_user email keeps f s).1
  unfolding update_user
  IsValid-update_user email keeps f same_email same_domain =
      IsValid-users _ f same_email same_domain

  pub IsValid-delete_user : (email : Text) → IsValid (delete_user email s).1
  unfolding delete_user
  IsValid-delete_user email = record {
    policies = h.policies;
    roles = h.roles;
    users_apart = All-delete_where _ _ s.users h.users_apart;
    aliases_apart = h.aliases_apart;
    users_home = All-delete_where _ _ s.users h.users_home;
    groups_home = h.groups_home;
    members_owned = h.members_owned;
  }

  pub IsValid-members :
      (ms : List MemberRow)
      → All (λ m. valid_role m.role ≡ true) ms
      → All (λ m. is_owned s.groups m.group_id ≡ true) ms
      → IsValid (record s { members = ms })
  IsValid-members ms roles owned = record {
    policies = h.policies;
    roles = roles;
    users_apart = h.users_apart;
    aliases_apart = h.aliases_apart;
    users_home = h.users_home;
    groups_home = h.groups_home;
    members_owned = owned;
  }

  pub IsValid-aliases :
      (rows : List AliasRow)
      → All (λ a. (is_catch_all a || not (is_group_address s.groups a.source)) ≡ true) rows
      → IsValid (record s { aliases = rows })
  IsValid-aliases rows apart = record {
    policies = h.policies;
    roles = h.roles;
    users_apart = h.users_apart;
    aliases_apart = apart;
    users_home = h.users_home;
    groups_home = h.groups_home;
    members_owned = h.members_owned;
  }

  pub IsValid-delete_memberships : (email : Text) → IsValid (delete_memberships email s).1
  unfolding delete_memberships
  IsValid-delete_memberships email =
      IsValid-members _ (All-delete_where _ _ s.members h.roles)
        (All-delete_where _ _ s.members h.members_owned)

  pub IsValid-insert_alias :
      (row : AliasRow)
      → is_group_address s.groups row.source ≡ false
      → IsValid (insert_alias row s).1
  unfolding insert_alias
  IsValid-insert_alias row apart = elim (Bool-cases (has_pair row.source row.destination s)) [
    | inl old ↦ rw old h
    | inr new ↦
        rw new (IsValid-aliases _ (All-append _ s.aliases _ h.aliases_apart (ground arith, tt)))
  ]

  pub IsValid-append_alias :
      (row : AliasRow) → is_catch_all row ≡ true → IsValid (append_alias row s).1
  unfolding append_alias
  IsValid-append_alias row catch_all =
      IsValid-aliases _ (All-append _ s.aliases _ h.aliases_apart (rw catch_all refl, tt))

  pub IsValid-delete_alias :
      (source destination : Text) → IsValid (delete_alias source destination s).1
  unfolding delete_alias
  IsValid-delete_alias source destination =
      IsValid-aliases _ (All-delete_where _ _ s.aliases h.aliases_apart)

  pub IsValid-delete_catch_all : (domain : Text) → IsValid (delete_catch_all domain s).1
  unfolding delete_catch_all
  IsValid-delete_catch_all domain =
      IsValid-aliases _ (All-delete_where _ _ s.aliases h.aliases_apart)
