-- ===== src/PublicApi/Server/Isolation/Groups.antt =====
-- The operations on groups touch no mailbox, no alias and no forward.
use patrabahok.Base.{
  inr, inl, ℕ, refl, Bool, true, false, ◌&&◌, Option, none, some, List, [], ◌∷◌, any, ◌==◌,
  Bool-cases,
}
use patrabahok.Base.Text.{Text, text_eq, to_lower, trim_space, is_empty}
use patrabahok.Address.{Result, ok, err}
use patrabahok.Db.{Env, State, same}
use patrabahok.Db.Keeps.{
  Keeps, Keeps-pure, Keeps-lift, Keeps-query, Keeps-exec, Keeps-refuse_if, Keeps-bind,
}
use patrabahok.Domains.{address_kind, hosted_domains, domain_list, has_group}
use patrabahok.Groups.{
  GroupSettings, Group, create_lowered, group_create, group_delete, insert_group, delete_group,
  delete_memberships_of,
}
use patrabahok.Groups.Members.{
  Problem, group_update, update_group, check_externals, upsert_member, problem_in, problem_with,
  finish_one, add_one, add_each, group_add_members, delete_member, group_remove_member,
}
use patrabahok.Reads.{group_get-Keeps, group_members-Keeps}
use patrabahok.PublicApi.Server.Isolation.{same_mail, domain_id-Keeps}
use patrabahok.PublicApi.Server.Isolation.Statements.{Untouched}

module _ ⦃env : Env⦄ (s : State) (x : Text) where
  insert_group-Untouched :
      (id : ℕ) (e : Text) (g : GroupSettings) (t : State)
      → Untouched s x t
      → Untouched s x (insert_group id e g t).1
  unfolding insert_group
  insert_group-Untouched id e g t h = elim (Bool-cases (has_group e t)) [
    | inl old ↦ rw old h
    | inr new ↦ rw new (same_mail s x t _ refl refl refl h)
  ]

  create_lowered-Keeps : (e : Text) (g : GroupSettings) → Keeps (Untouched s x) (create_lowered e g)
  unfolding create_lowered address_kind
  create_lowered-Keeps e g = Keeps-bind _ _ _ (Keeps-lift _ _) (λ a.
      Keeps-bind _ _ _ (Keeps-lift _ _) (λ _. Keeps-bind _ _ _ (domain_id-Keeps s x a.1) (λ id.
        Keeps-bind _ _ _ (Keeps-query _ _) (λ kind. Keeps-bind _ _ _ (Keeps-refuse_if _ _ _) (λ _.
          Keeps-bind _ _ _ (Keeps-exec _ _ (insert_group-Untouched id e g))
            (λ inserted. Keeps-refuse_if _ _ _))))))

  pub group_create-Keeps : (e : Text) (g : GroupSettings) → Keeps (Untouched s x) (group_create e g)
  unfolding group_create
  group_create-Keeps e g = create_lowered-Keeps _ g

  pub group_delete-Keeps : (e : Text) → Keeps (Untouched s x) (group_delete e)
  unfolding group_delete delete_group delete_memberships_of
  group_delete-Keeps e =
      Keeps-bind _ _ _ (Keeps-exec _ _ (λ t h. same_mail s x t _ refl refl refl h)) (λ n.
        Keeps-bind _ _ _ (Keeps-refuse_if _ _ _)
          (λ _. Keeps-exec _ _ (λ t h. same_mail s x t _ refl refl refl h)))

  check_externals-Keeps : (b : Bool) (e : Text) → Keeps (Untouched s x) (check_externals b e)
  unfolding check_externals
  check_externals-Keeps true e =
      Keeps-bind _ _ _ (group_members-Keeps (Untouched s x) e) (λ ms. Keeps-refuse_if _ _ _)
  check_externals-Keeps false e = Keeps-pure _ _

  pub group_update-Keeps : (e : Text) (g : GroupSettings) → Keeps (Untouched s x) (group_update e g)
  unfolding group_update update_group
  group_update-Keeps e settings = Keeps-bind _ _ _ (Keeps-lift _ _) (λ _.
      Keeps-bind _ _ _ (group_get-Keeps (Untouched s x) e) (λ g.
        Keeps-bind _ _ _ (check_externals-Keeps _ e)
          (λ _. Keeps-exec _ _ (λ t h. same_mail s x t _ refl refl refl h))))

  upsert_member-Untouched :
      (id : ℕ) (a role : Text) (t : State)
      → Untouched s x t
      → Untouched s x (upsert_member id a role t).1
  unfolding upsert_member
  upsert_member-Untouched id a role t h =
      elim (Bool-cases (any (λ m. m.group_id == id && same m.member a) t.members)) [
        | inl old ↦ rw old (same_mail s x t _ refl refl refl h)
        | inr new ↦ rw new (same_mail s x t _ refl refl refl h)
      ]

  problem_in-Keeps :
      (g : Group) (hosted : List Text) (a : Text) (r : Result (Text × Text))
      → Keeps (Untouched s x) (problem_in g hosted a r)
  unfolding problem_in address_kind
  problem_in-Keeps g hosted a (err e) = Keeps-pure _ _
  problem_in-Keeps g hosted a (ok p) = elim (Bool-cases (text_eq a g.email)) [
    | inl e ↦ rw e (Keeps-pure _ _)
    | inr e ↦ rw e (elim (Bool-cases (any (λ d. text_eq d p.1) hosted)) [
      | inl k ↦ rw k (Keeps-bind _ _ _ (Keeps-query _ _) (λ kind. Keeps-pure _ _))
      | inr k ↦ rw k (Keeps-pure _ _)
    ])
  ]

  finish_one-Keeps :
      (g : Group) (role a : Text) (p : Option Problem)
      → Keeps (Untouched s x) (finish_one g role a p)
  unfolding finish_one
  finish_one-Keeps g role a (some p) = Keeps-pure _ _
  finish_one-Keeps g role a none =
      Keeps-bind _ _ _ (Keeps-exec _ _ (upsert_member-Untouched g.id a role)) (λ _. Keeps-pure _ _)

  add_one-Keeps :
      (g : Group) (hosted : List Text) (role a : Text)
      → Keeps (Untouched s x) (add_one g hosted role a)
  unfolding add_one problem_with
  add_one-Keeps g hosted role a = elim (Bool-cases (is_empty (to_lower (trim_space a)))) [
    | inl e ↦ rw e (Keeps-pure _ _)
    | inr e ↦
        rw e (Keeps-bind _ _ _ (problem_in-Keeps g hosted _ _) (λ p. finish_one-Keeps g role _ p))
  ]

  add_each-Keeps :
      (g : Group) (hosted : List Text) (role : Text) (members : List Text)
      → Keeps (Untouched s x) (add_each g hosted role members)
  unfolding add_each
  add_each-Keeps g hosted role [] = Keeps-pure _ _
  add_each-Keeps g hosted role (a ∷ rest) =
      Keeps-bind _ _ _ (add_one-Keeps g hosted role a)
        (λ first. Keeps-bind _ _ _ (add_each-Keeps g hosted role rest) (λ more. Keeps-pure _ _))

  pub group_add_members-Keeps :
      (e : Text) (members : List Text) (role : Text)
      → Keeps (Untouched s x) (group_add_members e members role)
  unfolding group_add_members hosted_domains domain_list
  group_add_members-Keeps e members role = Keeps-bind _ _ _ (Keeps-refuse_if _ _ _) (λ _.
      Keeps-bind _ _ _ (group_get-Keeps (Untouched s x) e) (λ g.
        Keeps-bind _ _ _ (Keeps-bind _ _ _ (Keeps-query _ _) (λ ds. Keeps-pure _ _))
          (λ hosted. add_each-Keeps g hosted role members)))

  pub group_remove_member-Keeps : (e m : Text) → Keeps (Untouched s x) (group_remove_member e m)
  unfolding group_remove_member delete_member
  group_remove_member-Keeps e m = Keeps-bind _ _ _ (group_get-Keeps (Untouched s x) e) (λ g.
      Keeps-bind _ _ _ (Keeps-exec _ _ (λ t h. same_mail s x t _ refl refl refl h))
        (λ n. Keeps-refuse_if _ _ _))
