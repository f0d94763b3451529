-- ===== src/Invariant/Operations/Members.antt =====
-- The operations on the members of groups, and the change of a group, keep the tables valid.
use patrabahok.Base.{
  inr, inl, ℕ, ◌≡◌, Bool, true, false, not, Option, none, some, List, [], ◌∷◌, arith, any, ◌==◌,
  Bool-cases,
}
use patrabahok.Base.Text.{Text, text_eq, to_lower, trim_space, is_empty}
use patrabahok.Address.{Result, ok, err, invalid, not_found, database}
use patrabahok.Db.{Env, State, M, query, ◌>>◌}
use patrabahok.Db.Rules.{
  Runs, Then, Runs-pure, Runs-exec, Runs-bind, Runs-query, Runs-query-bind, Runs-exec-bind,
  Runs-lift-bind, Runs-refuse_if-bind, Runs-refuse_if, Runs-attempt-bind, Runs_mono, Runs-seq,
}
use patrabahok.Domains.{kind_of, address_kind, hosted_domains, domain_list}
use patrabahok.Groups.{GroupSettings, Group, valid_role}
use patrabahok.Groups.Members.{
  Problem, group_members, check_externals, group_update, upsert_member, problem_in, problem_with,
  finish_one, add_one, add_each, group_add_members, group_remove_member, is_member, recheck_member,
  group_set_member_role, select_members,
}
use patrabahok.Invariant.{IsValid, is_owned}
use patrabahok.Invariant.Writes.Groups.{
  IsValid-update_group, IsValid-upsert_member, IsValid-delete_member, IsValid-update_role,
}
use patrabahok.Invariant.Operations.Parts.{Valid}
use patrabahok.Invariant.Operations.Groups.{group_get-bind, valid_settings}

module _ ⦃env : Env⦄ where
  check_externals-bind :
      {B : Type 0} (b : Bool) (email : Text) (k : M B) {s : State}
      → IsValid s
      → Runs s k Valid
      → Runs s (check_externals b email >> k) Valid
  unfolding check_externals group_members
  check_externals-bind true email k h next =
      Runs-bind Valid _ (λ _. k)
        (Runs-bind (Then Valid (λ _. k)) _ _ (
          group_get-bind _ email _ (λ _. h)
            (λ g _.
              Runs-query _ (select_members g.id) h
                (Runs-refuse_if _ invalid (Then Valid (λ _. k)) (λ _. h) (λ _. next)))))
  check_externals-bind false email k h next =
      Runs-bind Valid _ (λ _. k) (Runs-pure (Then Valid (λ _. k)) tt next)

  pub group_update-Valid :
      (email : Text) (settings : GroupSettings) {s : State}
      → IsValid s
      → Runs s (group_update email settings) Valid
  unfolding group_update
  group_update-Valid email settings h =
      Runs-lift-bind Valid _ _ (λ _ _. h)
        (λ a valid.
          group_get-bind Valid email _ (λ _. h)
            (λ g _. check_externals-bind _ email _ h (
              Runs-exec Valid _ h
                (IsValid-update_group h g.id settings (valid_settings settings a valid)))))

  role_is_valid : (role : Text) → not (valid_role role) ≡ false → valid_role role ≡ true
  role_is_valid role h = ground arith

  pub group_remove_member-Valid :
      (email member : Text) {s : State}
      → IsValid s
      → Runs s (group_remove_member email member) Valid
  unfolding group_remove_member
  group_remove_member-Valid email member h =
      group_get-bind Valid email _ (λ _. h)
        (λ g owned.
          let h1 = IsValid-delete_member h g.id (to_lower member) in
          Runs-exec-bind Valid _ _ h (Runs-refuse_if _ not_found Valid (λ _. h1) (λ _. h1)))

  recheck_member-Valid :
      (n id : ℕ) (a : Text) {s : State} → IsValid s → Runs s (recheck_member n id a) Valid
  unfolding recheck_member
  recheck_member-Valid n id a h = elim (Bool-cases (n == 0)) [
    | inl e ↦ rw e (
        Runs-attempt-bind Valid (query (is_member id a)) _ (
          Runs-query _ (is_member id a) (Runs-refuse_if _ not_found Valid (λ _. h) (λ _. h))
            (Runs-refuse_if _ not_found Valid (λ _. h) (λ _. h))))
    | inr e ↦ rw e (Runs-pure Valid tt h)
  ]

  pub group_set_member_role-Valid :
      (email member role : Text) {s : State}
      → IsValid s
      → Runs s (group_set_member_role email member role) Valid
  unfolding group_set_member_role
  group_set_member_role-Valid email member role h =
      Runs-refuse_if-bind Valid _ invalid _ (λ _. h)
        (λ good.
          group_get-bind Valid email _ (λ _. h)
            (λ g owned.
              let h1 =
                IsValid-update_role h g.id (to_lower member) role (role_is_valid role good) in
              Runs-exec-bind Valid _ _ h (recheck_member-Valid _ g.id (to_lower member) h1)))

  -- A round of the loop keeps the group that it adds to.
  abbrev KeepsGroup : ℕ → {A : Type 0} → Result A → State → Type 0
  KeepsGroup id r t = IsValid t × (is_owned t.groups id ≡ true)

  upsert_member-groups :
      (id : ℕ) (a role : Text) (s : State) → (upsert_member id a role s).1.groups ≡ s.groups
  unfolding upsert_member
  upsert_member-groups id a role s = ground arith

  finish_one-Valid :
      (g : Group) (role a : Text) (p : Option Problem) {s : State}
      → valid_role role ≡ true
      → IsValid s
      → is_owned s.groups g.id ≡ true
      → Runs s (finish_one g role a p) (KeepsGroup g.id)
  unfolding finish_one
  finish_one-Valid g role a (some p) good h owned = Runs-pure (KeepsGroup g.id) _ (h, owned)
  finish_one-Valid g role a none {s} good h owned =
      Runs-exec-bind (KeepsGroup g.id) _ _ (h, owned)
        (Runs-pure (KeepsGroup g.id) _ (
          IsValid-upsert_member h g.id a role good owned,
          rw (upsert_member-groups g.id a role s) owned,
        ))

  problem_in-Runs :
      (g : Group) (hosted : List Text) (a : Text) (r : Result (Text × Text)) {s : State}
      (Q : Result (Option Problem) → State → Type 0)
      → Q (err database) s
      → ((p : Option Problem) → Q (ok p) s)
      → Runs s (problem_in g hosted a r) Q
  unfolding problem_in address_kind
  problem_in-Runs g hosted a (err e) Q bad next = Runs-pure Q _ (next _)
  problem_in-Runs g hosted a (ok p) Q bad next = elim (Bool-cases (text_eq a g.email)) [
    | inl e ↦ rw e (Runs-pure Q _ (next _))
    | inr e ↦ rw e (elim (Bool-cases (any (λ d. text_eq d p.1) hosted)) [
      | inl k ↦ rw k (Runs-query-bind Q (kind_of a) _ bad (Runs-pure Q _ (next _)))
      | inr k ↦ rw k (Runs-pure Q _ (next _))
    ])
  ]

  add_one-Valid :
      (g : Group) (hosted : List Text) (role address : Text) {s : State}
      → valid_role role ≡ true
      → IsValid s
      → is_owned s.groups g.id ≡ true
      → Runs s (add_one g hosted role address) (KeepsGroup g.id)
  unfolding add_one problem_with
  add_one-Valid g hosted role address good h owned =
      elim (Bool-cases (is_empty (to_lower (trim_space address)))) [
        | inl e ↦ rw e (Runs-pure (KeepsGroup g.id) _ (h, owned))
        | inr e ↦ rw e (
            Runs-bind (KeepsGroup g.id) _ _ (
              problem_in-Runs g hosted (to_lower (trim_space address)) _ _ (h, owned)
                (λ p. finish_one-Valid g role _ p good h owned)))
      ]

  add_each-Valid :
      (g : Group) (hosted : List Text) (role : Text) (addresses : List Text) {s : State}
      → valid_role role ≡ true
      → IsValid s
      → is_owned s.groups g.id ≡ true
      → Runs s (add_each g hosted role addresses) (KeepsGroup g.id)
  unfolding add_each
  add_each-Valid g hosted role [] good h owned = Runs-pure (KeepsGroup g.id) _ (h, owned)
  add_each-Valid g hosted role (address ∷ rest) good h owned =
      Runs-seq (KeepsGroup g.id) (KeepsGroup g.id) _ _
        (add_one-Valid g hosted role address good h owned) (λ _ _ k. k)
        (λ first t k.
          Runs-seq (KeepsGroup g.id) (KeepsGroup g.id) _ _
            (add_each-Valid g hosted role rest good k.0 k.1) (λ _ _ k. k)
            (λ more u k. Runs-pure (KeepsGroup g.id) _ k))

  pub group_add_members-Valid :
      (email : Text) (addresses : List Text) (role : Text) {s : State}
      → IsValid s
      → Runs s (group_add_members email addresses role) Valid
  unfolding group_add_members hosted_domains domain_list
  group_add_members-Valid email addresses role h =
      Runs-refuse_if-bind Valid _ invalid _ (λ _. h)
        (λ good.
          group_get-bind Valid email _ (λ _. h)
            (λ g owned. Runs-bind Valid _ _ (
              Runs-query-bind _ _ _ h (
                Runs-pure _ _ (
                  Runs_mono (λ r t k. k.0)
                    (add_each-Valid g _ role addresses (role_is_valid role good) h owned))))))
