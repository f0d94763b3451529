-- ===== src/Invariant/Operations/Routes.antt =====
-- The operations on aliases, forwards and catch-alls keep the tables valid.
use patrabahok.Base.{
  inr, inl, ℕ, ◌≡◌, refl, ap, ◌∙◌, Bool, true, false, ◌&&◌, ◌||◌, not, Option, none, some, List, [],
  ◌∷◌, ◌++◌, arith, any, if◌then◌else◌, Bool-cases, subst,
}
use patrabahok.Base.Text.{Text, to_lower, trim_space, is_empty, equal_fold}
use patrabahok.Address.{invalid}
use patrabahok.Db.{same, Env, State, exec}
use patrabahok.Db.Rules.{
  Runs, OrBack, Runs-exec, Runs-exec-bind, Runs-lift-bind, Runs-refuse_if-bind, Runs-transaction,
}
use patrabahok.Aliases.{
  catch_all_source, alias_add, alias_remove, upsert_forward, forward_set, forward_clear,
  delete_catch_all, replace_catch_all, set_catch_all, catch_all_set,
}
use patrabahok.Invariant.{IsValid-aside, IsValid}
use patrabahok.Invariant.Writes.{
  IsValid-insert_alias, IsValid-delete_alias, IsValid-delete_catch_all, IsValid-append_alias,
}
use patrabahok.Invariant.Operations.{mailbox_get-bind}
use patrabahok.Invariant.Operations.Parts.{Valid, domain_id-bind, not_a_group-bind}

module _ ⦃env : Env⦄ where
  pub alias_add-Valid :
      (source destination : Text) {s : State}
      → IsValid s
      → Runs s (alias_add source destination) Valid
  unfolding alias_add
  alias_add-Valid source destination h =
      Runs-lift-bind Valid _ _ (λ _ _. h)
        (λ _ _.
          Runs-lift-bind Valid _ _ (λ _ _. h)
            (λ _ _.
              Runs-lift-bind Valid _ _ (λ _ _. h)
                (λ p _.
                  domain_id-bind Valid p.1 _ (λ _. h)
                    (λ id _.
                      not_a_group-bind Valid source _ (λ _. h)
                        (λ apart. Runs-exec Valid _ h (IsValid-insert_alias h _ apart))))))

  pub alias_remove-Valid :
      (source destination : Text) {s : State}
      → IsValid s
      → Runs s (alias_remove source destination) Valid
  unfolding alias_remove
  alias_remove-Valid source destination h =
      Runs-exec Valid _ h (IsValid-delete_alias h source destination)

  IsValid-forwards :
      {s : State} (rows : List _) → IsValid s → IsValid (record s { forwards = rows })
  IsValid-forwards rows h = IsValid-aside _ _ refl refl refl refl refl h

  IsValid-upsert_forward :
      (email destination : Text) (keep : Bool) {s : State}
      → IsValid s
      → IsValid (upsert_forward email destination keep s).1
  unfolding upsert_forward
  IsValid-upsert_forward email destination keep {s} h =
      elim (Bool-cases (any (λ f. same f.email email) s.forwards)) [
        | inl old ↦ rw old (IsValid-forwards _ h)
        | inr new ↦ rw new (IsValid-forwards _ h)
      ]

  pub forward_set-Valid :
      (email destination : Text) (keep : Bool) {s : State}
      → IsValid s
      → Runs s (forward_set email destination keep) Valid
  unfolding forward_set
  forward_set-Valid email destination keep h =
      Runs-lift-bind Valid _ _ (λ _ _. h)
        (λ _ _.
          Runs-refuse_if-bind Valid _ invalid _ (λ _. h)
            (λ _.
              mailbox_get-bind email _ h
                (λ _. Runs-exec Valid _ h (IsValid-upsert_forward email _ keep h))))

  pub forward_clear-Valid :
      (email : Text) {s : State} → IsValid s → Runs s (forward_clear email) Valid
  unfolding forward_clear
  forward_clear-Valid email h = Runs-exec Valid _ h (IsValid-forwards _ h)

  delete_catch_all-Valid :
      (domain : Text) {s : State} → IsValid s → Runs s (exec (delete_catch_all domain)) Valid
  delete_catch_all-Valid domain h = Runs-exec Valid _ h (IsValid-delete_catch_all h domain)

  replace_catch_all-Valid :
      (id : ℕ) (domain destination : Text) {s : State}
      → IsValid s
      → Runs s (replace_catch_all id domain destination) Valid
  unfolding replace_catch_all patrabahok.Base.Text.has_prefix
  replace_catch_all-Valid id domain destination {s} h =
      let h1 = IsValid-delete_catch_all h domain in
      Runs-transaction Valid _ h (
        Runs-exec-bind (OrBack Valid s) _ _ h (
          Runs-exec (OrBack Valid s) _ h (
            IsValid-append_alias h1
              (record {
                domain_id = id;
                source = catch_all_source domain;
                destination = destination;
              })
              refl)))

  set_catch_all-Valid :
      (id : ℕ) (domain destination : Text) {s : State}
      → IsValid s
      → Runs s (set_catch_all id domain destination) Valid
  unfolding set_catch_all
  set_catch_all-Valid id domain destination h =
      Runs-lift-bind Valid _ _ (λ _ _. h) (λ _ _. replace_catch_all-Valid id domain _ h)

  pub catch_all_set-Valid :
      (domain destination : Text) {s : State}
      → IsValid s
      → Runs s (catch_all_set domain destination) Valid
  unfolding catch_all_set
  catch_all_set-Valid domain destination {s} h =
      domain_id-bind Valid domain _ (λ _. h)
        (λ id _. elim (Bool-cases (is_empty destination)) [
          | inl e ↦ rw e (delete_catch_all-Valid domain h)
          | inr e ↦ rw e (set_catch_all-Valid id domain destination h)
        ])
