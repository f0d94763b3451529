-- ===== src/Invariant/History.antt =====
-- Everything that the operations can make of an empty server, one after the other, whatever fails.
use patrabahok.Base.{
  ◌||◌, inr, inl, Bool-cases, ◌&&◌, ℕ, ◌≡◌, ◌∙◌, ap, sym, Bool, true, false, List, [], ◌∷◌, All,
  any, arith, refl,
}
use patrabahok.Base.Text.{text_eq, text_eq_iff, Text}
use patrabahok.Base.Int.{ℤ}
use patrabahok.Db.{Env, State, UserRow, GroupRow, same, M}
use patrabahok.Db.Rules.{Runs}
use patrabahok.Domains.{domain_add, domain_remove, has_user, has_group}
use patrabahok.Mailboxes.{mailbox_add, mailbox_create}
use patrabahok.Mailboxes.Change.{
  mailbox_remove, mailbox_passwd, mailbox_set_quota, mailbox_set_name, mailbox_set_enabled,
}
use patrabahok.Aliases.{alias_add, alias_remove, forward_set, forward_clear, catch_all_set}
use patrabahok.Groups.{GroupSettings, group_create, group_delete}
use patrabahok.Groups.Members.{
  group_update, group_add_members, group_remove_member, group_set_member_role,
}
use patrabahok.Policy.{Request, decide}
use patrabahok.Policy.Rule.{Answers, rule_for}
use patrabahok.Policy.Access.{decide_refines}
use patrabahok.Invariant.{IsValid-aside, is_group_address, is_group_address, IsValid}
use patrabahok.Invariant.Operations.{
  domain_add-Valid, domain_remove-Valid, mailbox_add-Valid, mailbox_create-Valid,
  mailbox_remove-Valid, mailbox_passwd-Valid, mailbox_set_quota-Valid, mailbox_set_name-Valid,
  mailbox_set_enabled-Valid,
}
use patrabahok.Invariant.Operations.Routes.{
  alias_add-Valid, alias_remove-Valid, forward_set-Valid, forward_clear-Valid, catch_all_set-Valid,
}
use patrabahok.Invariant.Operations.Groups.{group_create-Valid, group_delete-Valid}
use patrabahok.Invariant.Operations.Members.{
  group_update-Valid, group_add_members-Valid, group_remove_member-Valid,
  group_set_member_role-Valid,
}

-- The calls of the Store that write.
pub data Operation : Type 0 where
  add_domain remove_domain : Text → Operation
  add_mailbox : Text → Text → ℤ → Operation
  create_mailbox : Text → Text → Text → ℤ → Operation
  remove_mailbox : Text → Operation
  set_password : Text → Text → Operation
  set_quota : Text → ℤ → Operation
  set_name : Text → Text → Operation
  set_enabled : Text → Bool → Operation
  add_alias remove_alias : Text → Text → Operation
  set_forward : Text → Text → Bool → Operation
  clear_forward : Text → Operation
  set_catch_all : Text → Text → Operation
  create_group : Text → GroupSettings → Operation
  update_group : Text → GroupSettings → Operation
  delete_group : Text → Operation
  add_members : Text → List Text → Text → Operation
  remove_member : Text → Text → Operation
  set_member_role : Text → Text → Text → Operation

module _ ⦃env : Env⦄ where
  abbrev pub state_after : {A : Type 0} → M A → State → List Bool → State
  state_after m s faults = (m (record { state = s; faults = faults })).1.state

  unfoldable pub perform : Operation → State → List Bool → State
  perform (add_domain name) = state_after (domain_add name)
  perform (remove_domain name) = state_after (domain_remove name)
  perform (add_mailbox email password quota) = state_after (mailbox_add email password quota)
  perform (create_mailbox email password name quota) =
      state_after (mailbox_create email password name quota)
  perform (remove_mailbox email) = state_after (mailbox_remove email)
  perform (set_password email password) = state_after (mailbox_passwd email password)
  perform (set_quota email quota) = state_after (mailbox_set_quota email quota)
  perform (set_name email name) = state_after (mailbox_set_name email name)
  perform (set_enabled email enabled) = state_after (mailbox_set_enabled email enabled)
  perform (add_alias source destination) = state_after (alias_add source destination)
  perform (remove_alias source destination) = state_after (alias_remove source destination)
  perform (set_forward email destination keep) = state_after (forward_set email destination keep)
  perform (clear_forward email) = state_after (forward_clear email)
  perform (set_catch_all domain destination) = state_after (catch_all_set domain destination)
  perform (create_group email settings) = state_after (group_create email settings)
  perform (update_group email settings) = state_after (group_update email settings)
  perform (delete_group email) = state_after (group_delete email)
  perform (add_members email addresses role) = state_after (group_add_members email addresses role)
  perform (remove_member email member) = state_after (group_remove_member email member)
  perform (set_member_role email member role) =
      state_after (group_set_member_role email member role)

  -- The states from empty tables on: an operation with any failures, or time that passes.
  pub data Reachable : State → Type 0 where
    start :
        (dirs : List Text) (entropy : ℕ → Text) (now : ℕ)
        → Reachable (record {
          domains = [];
          users = [];
          aliases = [];
          groups = [];
          members = [];
          forwards = [];
          keys = [];
          tokens = [];
          admins = [];
          sessions = [];
          next_admin = 1;
          audit = [];
          next_domain = 1;
          next_group = 1;
          next_token = 1;
          dirs = dirs;
          entropy = entropy;
          draws = 0;
          now = now;
        })
    then_perform :
        {s : State}
        → Reachable s
        → (op : Operation) (faults : List Bool) → Reachable (perform op s faults)
    then_wait : {s : State} → Reachable s → (now : ℕ) → Reachable (record s { now = now })

  -- If the tables are valid, they are valid behind every operation, whatever of its calls fail.
  pub perform-IsValid :
      (op : Operation) (s : State) (faults : List Bool) → IsValid s → IsValid (perform op s faults)
  unfolding perform
  perform-IsValid (add_domain name) s fs h = (domain_add-Valid name h).at fs
  perform-IsValid (remove_domain name) s fs h = (domain_remove-Valid name h).at fs
  perform-IsValid (add_mailbox email password quota) s fs h =
      (mailbox_add-Valid email password quota h).at fs
  perform-IsValid (create_mailbox email password name quota) s fs h =
      (mailbox_create-Valid email password name quota h).at fs
  perform-IsValid (remove_mailbox email) s fs h = (mailbox_remove-Valid email h).at fs
  perform-IsValid (set_password email password) s fs h =
      (mailbox_passwd-Valid email password h).at fs
  perform-IsValid (set_quota email quota) s fs h = (mailbox_set_quota-Valid email quota h).at fs
  perform-IsValid (set_name email name) s fs h = (mailbox_set_name-Valid email name h).at fs
  perform-IsValid (set_enabled email enabled) s fs h =
      (mailbox_set_enabled-Valid email enabled h).at fs
  perform-IsValid (add_alias source destination) s fs h =
      (alias_add-Valid source destination h).at fs
  perform-IsValid (remove_alias source destination) s fs h =
      (alias_remove-Valid source destination h).at fs
  perform-IsValid (set_forward email destination keep) s fs h =
      (forward_set-Valid email destination keep h).at fs
  perform-IsValid (clear_forward email) s fs h = (forward_clear-Valid email h).at fs
  perform-IsValid (set_catch_all domain destination) s fs h =
      (catch_all_set-Valid domain destination h).at fs
  perform-IsValid (create_group email settings) s fs h = (group_create-Valid email settings h).at fs
  perform-IsValid (update_group email settings) s fs h = (group_update-Valid email settings h).at fs
  perform-IsValid (delete_group email) s fs h = (group_delete-Valid email h).at fs
  perform-IsValid (add_members email addresses role) s fs h =
      (group_add_members-Valid email addresses role h).at fs
  perform-IsValid (remove_member email member) s fs h =
      (group_remove_member-Valid email member h).at fs
  perform-IsValid (set_member_role email member role) s fs h =
      (group_set_member_role-Valid email member role h).at fs

  -- In every state that is reached from empty tables by any sequence of the store's writing
  -- operations, with any failures among their calls and any time between them, the tables are
  -- valid: every group has one of the four policies and every member one of the two roles, no
  -- mailbox and no alias but a catch-all has the address of a group, mailboxes and groups belong
  -- to the registered domain that their address names, and every membership is one of an existing
  -- group.
  pub reachable-IsValid : (s : State) → Reachable s → IsValid s
  reachable-IsValid s (start dirs entropy now) = record {
    policies = tt;
    roles = tt;
    users_apart = tt;
    aliases_apart = tt;
    users_home = tt;
    groups_home = tt;
    members_owned = tt;
  }
  reachable-IsValid s (then_perform {s = before} r op faults) =
      perform-IsValid op before faults (reachable-IsValid before r)
  reachable-IsValid s (then_wait {s = before} r now) =
      let h = reachable-IsValid before r in
      IsValid-aside before (record before { now = now }) refl refl refl refl refl h

module _ ⦃env : Env⦄ where
  group_address_same :
      (a b : Text) (groups : List GroupRow)
      → same a b ≡ true
      → is_group_address groups a ≡ is_group_address groups b
  unfolding same
  group_address_same a b [] h = refl
  group_address_same a b (g ∷ groups) h =
      rw ((text_eq_iff (env.weight a) (env.weight b)).0 h) (
        ap (λ r. text_eq (env.weight g.email) (env.weight b) || r)
          (group_address_same a b groups h))

  no_group_of_user :
      (email : Text) (groups : List GroupRow) (users : List UserRow)
      → All (λ u. is_group_address groups u.email ≡ false) users
      → any (λ u. same u.email email) users ≡ true
      → is_group_address groups email ≡ false
  no_group_of_user email groups [] h k = cc
  no_group_of_user email groups (u ∷ users) h k = elim (Bool-cases (same u.email email)) [
    | inl e ↦ sym (group_address_same u.email email groups e) ∙ h.0
    | inr e ↦ no_group_of_user email groups users h.1 (ground arith)
  ]

  pub reachable-one_kind :
      (s : State) (email : Text) → Reachable s → has_user email s && has_group email s ≡ false
  unfolding has_user has_group
  reachable-one_kind s email r = elim (Bool-cases (any (λ u. same u.email email) s.users)) [
    | inl e ↦ rw e (no_group_of_user email s.groups s.users (reachable-IsValid s r).users_apart e)
    | inr e ↦ rw e refl
  ]

  pub reachable-decide :
      (is_loopback : Text → Bool) (s : State) (req : Request)
      → Reachable s
      → Runs s (decide is_loopback req) (Answers s (rule_for is_loopback s req))
  reachable-decide is_loopback s req r =
      decide_refines is_loopback s req (reachable-IsValid s r).policies
