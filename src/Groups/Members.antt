-- ===== src/Groups/Members.antt =====
-- The members of a group, and the change of its settings, which looks at them.
use patrabahok.Base.{
  ℕ, Bool, true, false, ◌&&◌, ◌||◌, not, Option, none, some, List, [], ◌∷◌, ◌++◌, map,
  if◌then◌else◌, any, ◌==◌, drop, suc,
}
use patrabahok.Base.Text.{Text, text_eq, text_lt, is_empty, to_lower, trim_space, last_index_byte}
use patrabahok.Base.Table.{rows_where, row_where, delete_where, update_where, count_where, order_by}
use patrabahok.Address.{Result, ok, err, invalid, not_found, split_email}
use patrabahok.Db.{
  Env, State, UserRow, GroupRow, MemberRow, M, pure, lift, ◌>>=◌, ◌>>◌, exec, query, refuse_if,
  attempt, same,
}
use patrabahok.Domains.{Kind, address_kind, has_user, has_group, has_alias, hosted_domains}
use patrabahok.Mailboxes.Change.{find_user}
use patrabahok.Groups.{
  GroupSettings, Group, validate_settings, group_get, group_view, valid_role, role_owner,
}

pub data MemberKind : Type 0 where
  user group alias missing external : MemberKind

pub record GroupMember : Type 0 where
  pub address : Text
  pub role : Text
  pub kind : MemberKind
  pub name : Text
  pub suspended : Bool
  pub created_at : ℕ

-- Why an address was not added.
pub data Problem : Type 0 where
  not_an_email itself no_such_address externals_refused : Problem

pub record MemberResult : Type 0 where
  pub address : Text
  pub added : Bool
  pub error : Option Problem

-- SUBSTRING_INDEX(a, '@', -1)
unfoldable pub after_at : Text → Text
after_at a = elim (last_index_byte b'@' a) [ none ↦ a | some i ↦ drop (suc i) a ]

abbrev pub is_external : GroupMember → Bool
is_external m = elim m.kind [ external ↦ true | _ ↦ false ]

-- COALESCE(u.display_name, sg.name, '') and COALESCE(u.enabled, 1) = 0
unfoldable pub joined_name : Option UserRow → Option GroupRow → Text
joined_name (some u) g = u.display_name
joined_name none (some g) = g.name
joined_name none none = []

unfoldable pub is_suspended : Option UserRow → Bool
is_suspended none = false
is_suspended (some u) = not u.enabled

module _ ⦃env : Env⦄ where
  unfoldable pub member_kind : State → Text → MemberKind
  member_kind s a =
      if has_user a s
      then user
      else if has_group a s
      then group
      else if has_alias a s
      then alias
      else if any (λ d. same d.name (after_at a)) s.domains
      then missing
      else external

  unfoldable pub member_view : State → MemberRow → GroupMember
  unfolding joined_name is_suspended member_kind
  member_view s m =
      let u = find_user m.member s in
      let g = row_where (λ g. same g.email m.member) s.groups in
      record {
        address = m.member;
        role = m.role;
        kind = member_kind s m.member;
        name = joined_name u g;
        suspended = is_suspended u;
        created_at = m.created_at;
      }

  -- ORDER BY m.role = 'owner' DESC, m.member
  unfoldable pub owners_first : MemberRow → MemberRow → Bool
  owners_first a b =
      let owner_a = text_eq a.role role_owner in
      let owner_b = text_eq b.role role_owner in
      owner_a && not owner_b
      || (owner_a && owner_b || not owner_a && not owner_b)
        && text_lt (env.weight a.member) (env.weight b.member)

  unfoldable pub select_members : ℕ → State → List GroupMember
  unfolding member_view owners_first
  select_members id s =
      map (member_view s) (order_by owners_first (rows_where (λ m. m.group_id == id) s.members))

  unfoldable pub group_members : Text → M (List GroupMember)
  group_members email = do g ← group_get email; query (select_members g.id)

  -- UPDATE mail_groups SET name, description, post_policy, allow_external WHERE id = ?
  unfoldable pub update_group : ℕ → GroupSettings → State → Unit {0} × State
  update_group id settings s = (
    tt,
    record s {
      groups =
          update_where (λ g. g.id == id)
            (λ g. record g {
              name = trim_space settings.name;
              description = trim_space settings.description;
              post_policy = settings.post_policy;
              allow_external = settings.allow_external;
            })
            s.groups;
    },
  )

  -- External members stand in the way of disallowing them.
  unfoldable pub check_externals : Bool → Text → M (Unit {0})
  check_externals true email = do
    members ← group_members email
    refuse_if (any is_external members) invalid
  check_externals false email = pure tt

  unfoldable pub group_update : Text → GroupSettings → M (Unit {0})
  unfolding check_externals
  group_update email settings = do
    lift (validate_settings settings)
    g ← group_get email
    check_externals (not settings.allow_external && g.allow_external) email
    exec (update_group g.id settings)

  -- INSERT … ON DUPLICATE KEY UPDATE role
  unfoldable pub upsert_member : ℕ → Text → Text → State → Unit {0} × State
  upsert_member id a role s = (
    tt,
    if any (λ m. m.group_id == id && same m.member a) s.members
        then record s {
          members =
              update_where (λ m. m.group_id == id && same m.member a)
                (λ m. record m { role = role }) s.members;
        }
        else record s {
          members =
              s.members
              ++ record { group_id = id; member = a; role = role; created_at = s.now } ∷ [];
        },
  )

  unfoldable pub missing_problem : Option Kind → Option Problem
  missing_problem none = some no_such_address
  missing_problem (some k) = none

  -- The switch over one address, with what SplitEmail says of it.
  unfoldable pub problem_in : Group → List Text → Text → Result (Text × Text) → M (Option Problem)
  unfolding missing_problem
  problem_in g hosted a (err e) = pure (some not_an_email)
  problem_in g hosted a (ok (local, domain)) =
      if text_eq a g.email
      then pure (some itself)
      else if any (λ d. text_eq d domain) hosted
      then (do kind ← address_kind a; pure (missing_problem kind))
      else pure (if g.allow_external then none else some externals_refused)

  unfoldable pub problem_with : Group → List Text → Text → M (Option Problem)
  unfolding problem_in
  problem_with g hosted a = problem_in g hosted a (split_email a)

  unfoldable pub finish_one : Group → Text → Text → Option Problem → M (List MemberResult)
  finish_one g role a (some p) = pure (record { address = a; added = false; error = some p } ∷ [])
  finish_one g role a none = do
    exec (upsert_member g.id a role)
    pure (record { address = a; added = true; error = none } ∷ [])

  -- One round of the loop: no result for a blank address.
  unfoldable pub add_one : Group → List Text → Text → Text → M (List MemberResult)
  unfolding problem_with finish_one
  add_one g hosted role address =
      let a = to_lower (trim_space address) in
      if is_empty a then pure [] else do p ← problem_with g hosted a; finish_one g role a p

  unfoldable pub add_each : Group → List Text → Text → List Text → M (List MemberResult)
  unfolding add_one
  add_each g hosted role [] = pure []
  add_each g hosted role (address ∷ rest) = do
    first ← add_one g hosted role address
    more ← add_each g hosted role rest
    pure (first ++ more)

  unfoldable pub group_add_members : Text → List Text → Text → M (List MemberResult)
  unfolding add_each
  group_add_members email addresses role = do
    refuse_if (not (valid_role role)) invalid
    g ← group_get email
    hosted ← hosted_domains
    add_each g hosted role addresses

  unfoldable pub delete_member : ℕ → Text → State → ℕ × State
  delete_member id a s = (
    count_where (λ m. m.group_id == id && same m.member a) s.members,
    record s { members = delete_where (λ m. m.group_id == id && same m.member a) s.members },
  )

  unfoldable pub group_remove_member : Text → Text → M (Unit {0})
  group_remove_member email member = do
    g ← group_get email
    n ← exec (delete_member g.id (to_lower member))
    refuse_if (n == 0) not_found

  -- The rows that hold the role already are not counted.
  unfoldable pub update_role : ℕ → Text → Text → State → ℕ × State
  update_role id a role s = (
    count_where (λ m. m.group_id == id && same m.member a && not (text_eq m.role role)) s.members,
    record s {
      members =
          update_where (λ m. m.group_id == id && same m.member a) (λ m. record m { role = role })
            s.members;
    },
  )

  unfoldable pub is_member : ℕ → Text → State → Bool
  is_member id a s = any (λ m. m.group_id == id && same m.member a) s.members

  -- `_ = …Scan(&exists)`: a failure leaves `exists` at 0.
  unfoldable pub found_or_false : Result Bool → Bool
  found_or_false (ok b) = b
  found_or_false (err e) = false

  unfoldable pub recheck_member : ℕ → ℕ → Text → M (Unit {0})
  unfolding found_or_false
  recheck_member n id a =
      if n == 0
      then (do
        found ← attempt (query (is_member id a))
        refuse_if (not (found_or_false found)) not_found)
      else pure tt

  unfoldable pub group_set_member_role : Text → Text → Text → M (Unit {0})
  unfolding recheck_member
  group_set_member_role email member role = do
    refuse_if (not (valid_role role)) invalid
    g ← group_get email
    n ← exec (update_role g.id (to_lower member) role)
    recheck_member n g.id (to_lower member)

  unfoldable pub groups_of : Text → M (List Group)
  groups_of address = query (λ s. map (group_view s) (
      order_by (λ a b. text_lt (env.weight a.email) (env.weight b.email))
        (rows_where
          (λ g. any (λ m. m.group_id == g.id && same m.member (to_lower address)) s.members)
          s.groups)))
