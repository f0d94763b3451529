-- ===== src/Invariant.antt =====
-- What the operations on domains, mailboxes, aliases, groups and members keep true of the tables.
pub mod Rows
pub mod Writes
pub mod Operations
pub mod History
use patrabahok.Base.{ℕ, ◌≡◌, Bool, true, false, ◌&&◌, ◌||◌, not, List, [], ◌∷◌, All, any, ◌==◌}
use patrabahok.Base.Text.{Text}
use patrabahok.Db.{Env, State, DomainRow, UserRow, AliasRow, GroupRow, MemberRow, same}
use patrabahok.Aliases.{is_catch_all}
use patrabahok.Groups.{valid_post_policy, valid_role}
use patrabahok.Groups.Members.{after_at}

module _ ⦃env : Env⦄ where
  -- The row's domain is registered, and the address is one of it.
  abbrev pub at_home : List DomainRow → ℕ → Text → Bool
  at_home domains id email = any (λ d. d.id == id && same d.name (after_at email)) domains

  abbrev pub is_group_address : List GroupRow → Text → Bool
  is_group_address groups email = any (λ g. same g.email email) groups

  abbrev pub is_owned : List GroupRow → ℕ → Bool
  is_owned groups id = any (λ g. g.id == id) groups

  pub record IsValid (s : State) : Type 0 where
    -- every group has one of the four policies, every member one of the two roles
    pub policies : All (λ g. valid_post_policy g.post_policy ≡ true) s.groups
    pub roles : All (λ m. valid_role m.role ≡ true) s.members
    -- no mailbox, and no alias but a catch-all, has the address of a group
    pub users_apart : All (λ u. is_group_address s.groups u.email ≡ false) s.users
    pub aliases_apart :
        All (λ a. (is_catch_all a || not (is_group_address s.groups a.source)) ≡ true) s.aliases
    -- mailboxes and groups belong to the registered domain that their address names
    pub users_home : All (λ u. at_home s.domains u.domain_id u.email ≡ true) s.users
    pub groups_home : All (λ g. at_home s.domains g.domain_id g.email ≡ true) s.groups
    -- every membership is one of an existing group
    pub members_owned : All (λ m. is_owned s.groups m.group_id ≡ true) s.members

  -- The other tables, the directories, the random source and the clock do not matter.
  pub IsValid-aside :
      (s t : State)
      → t.domains ≡ s.domains
      → t.users ≡ s.users
      → t.aliases ≡ s.aliases
      → t.groups ≡ s.groups
      → t.members ≡ s.members
      → IsValid s
      → IsValid t
  IsValid-aside s t d u a g m h = record {
    policies = rw g h.policies;
    roles = rw m h.roles;
    users_apart = rw (g, u) h.users_apart;
    aliases_apart = rw (g, a) h.aliases_apart;
    users_home = rw (d, u) h.users_home;
    groups_home = rw (d, g) h.groups_home;
    members_owned = rw (g, m) h.members_owned;
  }
