-- ===== src/Groups.antt =====
-- Distribution lists: cli/internal/mailbox/groups.go, the groups themselves. Their members are in
-- Groups/Members.
pub mod Members
pub mod Search
pub mod Results
use patrabahok.Base.{
  ℕ, ◌+◌, ◌≡◌, Bool, true, false, ◌&&◌, ◌||◌, not, Option, none, some, List, [], ◌∷◌, ◌++◌, map,
  if◌then◌else◌, any, ltb, ◌==◌, length,
}
use mathlib.Core.Option
use patrabahok.Base.Text.{Text, codes, text_eq, text_lt, is_empty, to_lower, trim_space, contains}
use patrabahok.Base.Table.{rows_where, row_where, delete_where, update_where, count_where, order_by}
use patrabahok.Address.{Result, ok, err, invalid, not_found, exists, split_email}
use patrabahok.Db.{
  Env, State, GroupRow, MemberRow, M, pure, fail, lift, ◌>>=◌, ◌>>◌, exec, query, refuse_if, same,
}
use patrabahok.Domains.{Kind, domain_id, kind_of, address_kind, has_group}

abbrev pub post_anyone : Text
post_anyone = codes "anyone"

abbrev pub post_organization : Text
post_organization = codes "organization"

abbrev pub post_members : Text
post_members = codes "members"

abbrev pub post_owners : Text
post_owners = codes "owners"

abbrev pub post_policies : List Text
post_policies = post_anyone ∷ post_organization ∷ post_members ∷ post_owners ∷ []

unfoldable pub valid_post_policy : Text → Bool
valid_post_policy p = any (λ v. text_eq v p) post_policies

abbrev pub role_member : Text
role_member = codes "member"

abbrev pub role_owner : Text
role_owner = codes "owner"

-- role == RoleMember || role == RoleOwner
unfoldable pub valid_role : Text → Bool
valid_role r = text_eq r role_member || text_eq r role_owner

pub record GroupSettings : Type 0 where
  pub name : Text
  pub description : Text
  pub post_policy : Text
  pub allow_external : Bool

pub record Group : Type 0 where
  pub id : ℕ
  pub email : Text
  pub name : Text
  pub description : Text
  pub post_policy : Text
  pub allow_external : Bool
  pub member_count : ℕ
  pub created_at : ℕ

unfoldable pub validate_settings : GroupSettings → Result (Unit {0})
validate_settings g =
    if is_empty (trim_space g.name)
      || ltb 255 (length g.name)
      || ltb 1000 (length g.description)
      || not (valid_post_policy g.post_policy)
    then err invalid
    else ok tt

-- groupSelect
unfoldable pub group_view : State → GroupRow → Group
group_view s g = record {
  id = g.id;
  email = g.email;
  name = g.name;
  description = g.description;
  post_policy = g.post_policy;
  allow_external = g.allow_external;
  member_count = count_where (λ m. m.group_id == g.id) s.members;
  created_at = g.created_at;
}

abbrev pub is_some_kind : Option Kind → Bool
is_some_kind none = false
is_some_kind (some k) = true

module _ ⦃env : Env⦄ where
  -- INSERT INTO mail_groups; the result is false if the key on the address is taken.
  unfoldable pub insert_group : ℕ → Text → GroupSettings → State → Bool × State
  insert_group domain_id email g s = if has_group email s then (false, s) else (
    true,
    record s {
      groups =
          s.groups
          ++ record {
            id = s.next_group;
            domain_id = domain_id;
            email = email;
            name = trim_space g.name;
            description = trim_space g.description;
            post_policy = g.post_policy;
            allow_external = g.allow_external;
            created_at = s.now;
          }
            ∷ [];
      next_group = s.next_group + 1;
    },
  )

  unfoldable pub create_lowered : Text → GroupSettings → M (Unit {0})
  create_lowered email settings = do
    (local, domain) ← lift (split_email email)
    lift (validate_settings settings)
    id ← domain_id domain
    kind ← address_kind email
    refuse_if (is_some_kind kind) exists
    inserted ← exec (insert_group id email settings)
    refuse_if (not inserted) exists

  unfoldable pub group_create : Text → GroupSettings → M (Unit {0})
  unfolding create_lowered
  group_create email settings = create_lowered (to_lower (trim_space email)) settings

  unfoldable pub find_group : Text → State → Option Group
  find_group email s = Option.map (group_view s) (row_where (λ g. same g.email email) s.groups)

  unfoldable pub group_or_missing : Option Group → M Group
  group_or_missing none = fail not_found
  group_or_missing (some g) = pure g

  unfoldable pub group_get : Text → M Group
  unfolding group_or_missing find_group
  group_get email = do found ← query (find_group (to_lower email)); group_or_missing found

  -- DELETE FROM mail_groups: the rows deleted are counted, and their members go with them.
  unfoldable pub delete_group : Text → State → ℕ × State
  delete_group email s = (
    count_where (λ g. same g.email email) s.groups,
    record s {
      groups = delete_where (λ g. same g.email email) s.groups;
      members =
          delete_where (λ m. any (λ g. same g.email email && g.id == m.group_id) s.groups)
            s.members;
    },
  )

  unfoldable pub delete_memberships_of : Text → State → Unit {0} × State
  delete_memberships_of email s =
      (tt, record s { members = delete_where (λ m. same m.member email) s.members })

  unfoldable pub group_delete : Text → M (Unit {0})
  group_delete email = do
    n ← exec (delete_group (to_lower email))
    refuse_if (n == 0) not_found
    exec (delete_memberships_of (to_lower email))
