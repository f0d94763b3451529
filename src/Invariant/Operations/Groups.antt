-- ===== src/Invariant/Operations/Groups.antt =====
-- The operations on groups and their members keep the tables valid.
use patrabahok.Base.{
  inr, inl, ◌≡◌, refl, ap, Bool, true, false, Option, none, some, List, [], ◌∷◌, arith,
  if◌then◌else◌, Bool-cases,
}
use mathlib.Core.Option
use patrabahok.Base.Text.{Text, to_lower}
use patrabahok.Base.Table.{row_where}
use patrabahok.Address.{Error, Result, ok, err, not_found, exists, database}
use patrabahok.Db.{Env, State, GroupRow, M, ◌>>=◌, same}
use patrabahok.Db.Rules.{
  Runs, Then, Runs-pure, Runs-fail, Runs-exec, Runs-bind, Runs-query-bind, Runs-exec-bind,
  Runs-lift-bind, Runs-refuse_if-bind, Runs-refuse_if,
}
use patrabahok.Domains.{user, group, alias, kind_of, address_kind, has_user, has_group, has_alias}
use patrabahok.Groups.{
  GroupSettings, Group, is_some_kind, valid_post_policy, validate_settings, group_view,
  create_lowered, group_create, find_group, group_or_missing, group_get, group_delete,
}
use patrabahok.Invariant.{IsValid, is_owned}
use patrabahok.Invariant.Writes.Groups.{
  IsValid-insert_group, IsValid-delete_group, IsValid-delete_memberships_of,
}
use patrabahok.Invariant.Operations.{home_of_split}
use patrabahok.Invariant.Operations.Parts.{Valid, domain_id-bind}

module _ ⦃env : Env⦄ where
  no_kind :
      (u g a : Bool)
      → is_some_kind
          (if u then some user else if g then some group else if a then some alias else none)
        ≡ false
      → (u ≡ false) × (a ≡ false)
  no_kind true g a h = cc
  no_kind false true a h = cc
  no_kind false false true h = cc
  no_kind false false false h = (refl, refl)

  free_address :
      (email : Text) (s : State)
      → is_some_kind (kind_of email s) ≡ false
      → (has_user email s ≡ false) × (has_alias email s ≡ false)
  unfolding kind_of
  free_address email s h = no_kind (has_user email s) (has_group email s) (has_alias email s) h

  pub valid_settings :
      (g : GroupSettings) (a : Unit {0})
      → validate_settings g ≡ ok a
      → valid_post_policy g.post_policy ≡ true
  unfolding validate_settings
  valid_settings g a h = ground arith

  create_lowered-Valid :
      (email : Text) (settings : GroupSettings) {s : State}
      → IsValid s
      → Runs s (create_lowered email settings) Valid
  unfolding create_lowered address_kind
  create_lowered-Valid email settings {s} h =
      Runs-lift-bind Valid _ _ (λ _ _. h)
        (λ p split.
          Runs-lift-bind Valid _ _ (λ _ _. h)
            (λ a valid.
              domain_id-bind Valid p.1 _ (λ _. h)
                (λ id registered. Runs-query-bind Valid (kind_of email) _ h (
                  Runs-refuse_if-bind Valid _ exists _ (λ _. h)
                    (λ free.
                      let apart = free_address email s free in
                      let home = home_of_split s id email p split registered in
                      let h1 =
                        IsValid-insert_group h id email settings (valid_settings settings a valid)
                          apart.0 apart.1 home in
                      Runs-exec-bind Valid _ _ h
                        (Runs-refuse_if _ exists Valid (λ _. h1) (λ _. h1)))))))

  pub group_create-Valid :
      (email : Text) (settings : GroupSettings) {s : State}
      → IsValid s
      → Runs s (group_create email settings) Valid
  unfolding group_create
  group_create-Valid email settings h = create_lowered-Valid _ settings h

  pub group_delete-Valid :
      (email : Text) {s : State} → IsValid s → Runs s (group_delete email) Valid
  unfolding group_delete
  group_delete-Valid email h =
      let h1 = IsValid-delete_group h (to_lower email) in
      Runs-exec-bind Valid _ _ h (
        Runs-refuse_if-bind Valid _ not_found _ (λ _. h1)
          (λ _. Runs-exec Valid _ h1 (IsValid-delete_memberships_of h1 _)))

  owned_of_row :
      (email : Text) (g : GroupRow) (rows : List GroupRow)
      → row_where (λ x. same x.email email) rows ≡ some g
      → is_owned rows g.id ≡ true
  unfolding row_where
  owned_of_row email g [] e = cc
  owned_of_row email g (x ∷ rows) e = elim (Bool-cases (same x.email email)) [
    | inl hit ↦
        let is_it : x ≡ g = ground arith in ground (arith, ap (λ (y : GroupRow). y.id) is_it)
    | inr miss ↦ ground (arith, owned_of_row email g rows (ground arith))
  ]

module _ ⦃env : Env⦄ {B : Type 0} (Q : Result B → State → Type 0) where
  group_or_missing-bind :
      (email : Text) (k : Group → M B) {s : State} (found : Option GroupRow)
      → row_where (λ g. same g.email email) s.groups ≡ found
      → ((e : Error) → Q (err e) s)
      → ((g : Group) → is_owned s.groups g.id ≡ true → Runs s (k g) Q)
      → Runs s (group_or_missing (Option.map (group_view s) found)) (Then Q k)
  unfolding group_or_missing group_view
  group_or_missing-bind email k none e bad next = Runs-fail (Then Q k) not_found (bad not_found)
  group_or_missing-bind email k {s} (some g) e bad next =
      Runs-pure (Then Q k) _ (next _ (owned_of_row email g s.groups e))

  -- The look-up of a group goes on with the id of an existing one.
  pub group_get-bind :
      (email : Text) (k : Group → M B) {s : State}
      → ((e : Error) → Q (err e) s)
      → ((g : Group) → is_owned s.groups g.id ≡ true → Runs s (k g) Q)
      → Runs s (group_get email >>= k) Q
  unfolding group_get find_group
  group_get-bind email k {s} bad next = Runs-bind Q _ k (
      Runs-query-bind (Then Q k) (find_group (to_lower email)) group_or_missing (bad database) (
        group_or_missing-bind (to_lower email) k
          (row_where (λ g. same g.email (to_lower email)) s.groups) refl bad next))
