-- ===== src/Invariant/Writes/Groups.antt =====
-- The statements on groups and their members.
use patrabahok.Base.{
  inr, inl, ℕ, ◌≡◌, refl, ap, ◌∙◌, true, false, ◌&&◌, ◌||◌, not, [], ◌∷◌, ◌++◌, arith, All-append,
  All-mono, any, Bool-cases, ◌==◌,
}
use patrabahok.Base.Text.{Text, text_eq_sym}
use patrabahok.Base.Table.{any-append, any-delete_where, All-delete_where, All-update_where}
use patrabahok.Db.{Env, State, GroupRow, AliasRow, same}
use patrabahok.Domains.{has_group, has_user, has_alias}
use patrabahok.Aliases.{is_catch_all}
use patrabahok.Groups.{
  GroupSettings, valid_post_policy, valid_role, insert_group, delete_group, delete_memberships_of,
}
use patrabahok.Groups.Members.{update_group, upsert_member, delete_member, update_role}
use patrabahok.Invariant.{IsValid, at_home, is_group_address, is_owned}
use patrabahok.Invariant.Rows.{
  any-append_left, any-delete_where_apart, any-update_where, All-delete_where_kept, All-of_any,
}
use patrabahok.Invariant.Writes.{IsValid-members, alias_apart_left}

module _ ⦃env : Env⦄ {s : State} (h : IsValid s) where
  same_sym : (a b : Text) → same a b ≡ same b a
  unfolding same
  same_sym a b = text_eq_sym (env.weight a) (env.weight b)

  apart-append :
      (email other : Text) (g : GroupRow)
      → g.email ≡ email
      → is_group_address s.groups other ≡ false
      → same other email ≡ false
      → is_group_address (s.groups ++ g ∷ []) other ≡ false
  apart-append email other g is_it k n =
      any-append (λ x. same x.email other) s.groups (g ∷ [])
      ∙ (rw k (rw is_it (rw same_sym (rw n refl))))

  alias_apart :
      (email : Text) (a : AliasRow) (g : GroupRow)
      → g.email ≡ email
      → (is_catch_all a || not (is_group_address s.groups a.source)) ≡ true
      → same a.source email ≡ false
      → (is_catch_all a || not (is_group_address (s.groups ++ g ∷ []) a.source)) ≡ true
  alias_apart email a g is_it k n = elim (Bool-cases (is_catch_all a)) [
    | inl e ↦ rw e refl
    | inr e ↦ rw (apart-append email a.source g is_it (ground arith) n) (ground arith)
  ]

  pub IsValid-insert_group :
      (id : ℕ) (email : Text) (settings : GroupSettings)
      → valid_post_policy settings.post_policy ≡ true
      → has_user email s ≡ false
      → has_alias email s ≡ false
      → at_home s.domains id email ≡ true
      → IsValid (insert_group id email settings s).1
  unfolding insert_group has_user has_alias
  IsValid-insert_group id email settings policy no_user no_alias home =
      elim (Bool-cases (has_group email s)) [
        | inl old ↦ rw old h
        | inr new ↦ rw new (record {
          policies = All-append _ s.groups _ h.policies (policy, tt);
          roles = h.roles;
          users_apart =
              All-of_any _ _ _ s.users (λ u k n. apart-append email u.email _ refl k n) no_user
                h.users_apart;
          aliases_apart =
              All-of_any _ _ _ s.aliases (λ a k n. alias_apart email a _ refl k n) no_alias
                h.aliases_apart;
          users_home = h.users_home;
          groups_home = All-append _ s.groups _ h.groups_home (home, tt);
          members_owned =
              All-mono (λ m k. any-append_left _ s.groups _ k) s.members h.members_owned;
        })
      ]

  pub IsValid-delete_group : (email : Text) → IsValid (delete_group email s).1
  unfolding delete_group
  IsValid-delete_group email = record {
    policies = All-delete_where _ _ s.groups h.policies;
    roles = All-delete_where _ _ s.members h.roles;
    users_apart = All-mono (λ u k. any-delete_where _ _ s.groups k) s.users h.users_apart;
    aliases_apart = All-mono (λ a k. alias_apart_left h _ a k) s.aliases h.aliases_apart;
    users_home = h.users_home;
    groups_home = All-delete_where _ _ s.groups h.groups_home;
    members_owned =
        All-delete_where_kept _ _ _ s.members
          (λ m k n. any-delete_where_apart _ _ (λ g. g.id == m.group_id) s.groups (λ g e. e) n k)
          h.members_owned;
  }

  pub IsValid-delete_memberships_of : (email : Text) → IsValid (delete_memberships_of email s).1
  unfolding delete_memberships_of
  IsValid-delete_memberships_of email =
      IsValid-members h _ (All-delete_where _ _ s.members h.roles)
        (All-delete_where _ _ s.members h.members_owned)

  pub IsValid-update_group :
      (id : ℕ) (settings : GroupSettings)
      → valid_post_policy settings.post_policy ≡ true
      → IsValid (update_group id settings s).1
  unfolding update_group
  IsValid-update_group id settings policy = record {
    policies = All-update_where _ _ _ (λ g k. policy) s.groups h.policies;
    roles = h.roles;
    users_apart =
        All-mono (λ u k. any-update_where _ _ _ s.groups (λ g. refl) ∙ k) s.users h.users_apart;
    aliases_apart =
        All-mono
          (λ a k.
            ap (λ b. is_catch_all a || not b) (any-update_where _ _ _ s.groups (λ g. refl)) ∙ k)
          s.aliases h.aliases_apart;
    users_home = h.users_home;
    groups_home = All-update_where _ _ _ (λ g k. k) s.groups h.groups_home;
    members_owned =
        All-mono (λ m k. any-update_where _ _ _ s.groups (λ g. refl) ∙ k) s.members h.members_owned;
  }

  pub IsValid-upsert_member :
      (id : ℕ) (a role : Text)
      → valid_role role ≡ true
      → is_owned s.groups id ≡ true
      → IsValid (upsert_member id a role s).1
  unfolding upsert_member
  IsValid-upsert_member id a role good owned =
      elim (Bool-cases (any (λ m. m.group_id == id && same m.member a) s.members)) [
        | inl old ↦ rw old (
            IsValid-members h _ (All-update_where _ _ _ (λ m k. good) s.members h.roles)
              (All-update_where _ _ _ (λ m k. k) s.members h.members_owned))
        | inr new ↦ rw new (
            IsValid-members h _ (All-append _ s.members _ h.roles (good, tt))
              (All-append _ s.members _ h.members_owned (owned, tt)))
      ]

  pub IsValid-delete_member : (id : ℕ) (a : Text) → IsValid (delete_member id a s).1
  unfolding delete_member
  IsValid-delete_member id a =
      IsValid-members h _ (All-delete_where _ _ s.members h.roles)
        (All-delete_where _ _ s.members h.members_owned)

  pub IsValid-update_role :
      (id : ℕ) (a role : Text) → valid_role role ≡ true → IsValid (update_role id a role s).1
  unfolding update_role
  IsValid-update_role id a role good =
      IsValid-members h _ (All-update_where _ _ _ (λ m k. good) s.members h.roles)
        (All-update_where _ _ _ (λ m k. k) s.members h.members_owned)
