-- ===== src/Invariant/Operations.antt =====
-- Every operation on domains, mailboxes, aliases and forwards keeps the tables valid, whatever calls
-- fail on the way. Those on groups are in Operations/Groups.
pub mod Members
pub mod Parts
pub mod Routes
pub mod Groups
use patrabahok.Base.{
  inr, inl, ℕ, ◌≡◌, refl, sym, ap, ◌∙◌, Bool, true, false, ◌&&◌, ◌||◌, not, Option, none, some,
  List, [], ◌∷◌, arith, any, ◌==◌, ltb, if◌then◌else◌, Bool-cases, subst,
}
use patrabahok.Base.Text.{Text, to_lower, trim_space, is_empty, equal_fold}
use patrabahok.Base.Int.{ℤ}
use patrabahok.Address.{
  Error, Result, ok, err, exists, invalid, not_found, validate_domain, validate_email, split_email,
}
use patrabahok.Db.{Env, State, M, UserRow, pure, fail, ◌>>=◌, ◌>>◌, exec, query, refuse_if, same}
use patrabahok.Db.Rules.{
  Runs, Then, OrBack, Runs-pure, Runs-fail, Runs-query, Runs-exec, Runs-bind, Runs-query-bind,
  Runs-exec-bind, Runs-lift-bind, Runs-refuse_if-bind, Runs-refuse_if, Runs-disk, Runs-disk-bind,
  Runs-transaction, Runs-lift, Runs_mono,
}
use patrabahok.Domains.{
  user, group, alias, has_alias, domain_add, domain_remove, insert_domain, delete_domain, kind_of,
  address_kind, Kind, has_user, has_group,
}
use patrabahok.Mailboxes.{
  new_row, mailbox_add, mailbox_create, is_taken, upsert_user, insert_user, remove_all,
}
use patrabahok.Mailboxes.Change.{
  find_user, mailbox_or_missing, mailbox_get, delete_user, mailbox_remove, update_user,
  mailbox_passwd, recheck, update_mailbox, mailbox_set_quota, mailbox_set_name, mailbox_set_enabled,
}
use patrabahok.Invariant.{IsValid, at_home, is_group_address}
use patrabahok.Invariant.Writes.{
  IsValid-insert_domain, IsValid-delete_domain, IsValid-insert_user, IsValid-upsert_user,
  IsValid-update_user, IsValid-delete_user, IsValid-delete_memberships,
}
use patrabahok.Invariant.Operations.Parts.{
  Valid, IsValid-dirs, after_at-split_email, domain_id-bind, not_a_group-bind, hash_password-bind,
  create_maildir-Valid, IsValid-draws,
}

module _ ⦃env : Env⦄ where
  -- A registered domain is the home of its addresses.
  pub home_of_split :
      (s : State) (id : ℕ) (e : Text) (p : Text × Text)
      → split_email e ≡ ok p
      → any (λ d. d.id == id && same d.name p.1) s.domains ≡ true
      → at_home s.domains id e ≡ true
  home_of_split s id e p h k =
      subst (λ x. any (λ d. d.id == id && same d.name x) s.domains ≡ true)
        (sym (after_at-split_email e p.0 p.1 h)) k

  pub domain_add-Valid : (name : Text) {s : State} → IsValid s → Runs s (domain_add name) Valid
  unfolding domain_add
  domain_add-Valid name h =
      Runs-lift-bind Valid _ _ (λ _ _. h)
        (λ _ _.
          Runs-exec-bind Valid _ _ h
            (Runs-disk Valid _ (IsValid-insert_domain h name) (IsValid-insert_domain h name)))

  pub domain_remove-Valid :
      (name : Text) {s : State} → IsValid s → Runs s (domain_remove name) Valid
  unfolding domain_remove
  domain_remove-Valid name h =
      Runs-lift-bind Valid _ _ (λ _ _. h)
        (λ _ _. Runs-exec Valid _ h (IsValid-delete_domain h name))

  pub mailbox_add-Valid :
      (email password : Text) (quota : ℤ) {s : State}
      → IsValid s
      → Runs s (mailbox_add email password quota) Valid
  unfolding mailbox_add new_row
  mailbox_add-Valid email password quota {s} h =
      Runs-lift-bind Valid _ _ (λ _ _. h)
        (λ p split.
          domain_id-bind Valid p.1 _ (λ _. h)
            (λ id registered.
              not_a_group-bind Valid email _ (λ _. h)
                (λ apart. hash_password-bind Valid password _ h (λ hash.
                  let h1 = IsValid-draws _ h in
                  Runs-exec-bind Valid _ _ h1 (
                    create_maildir-Valid p.1 p.0 (
                      IsValid-upsert_user h1 _ apart
                        (home_of_split s id email p split registered)))))))

  no_group :
      (u g a : Bool)
      → is_taken (if u then some user else if g then some group else if a then some alias else none)
        ≡ false
      → g ≡ false
  no_group true g a h = cc
  no_group false true a h = cc
  no_group false false a h = refl

  no_group_of_kind :
      (email : Text) (s : State)
      → is_taken (kind_of email s) ≡ false
      → is_group_address s.groups email ≡ false
  unfolding kind_of has_group
  no_group_of_kind email s h = no_group (has_user email s) _ (has_alias email s) h

  pub mailbox_create-Valid :
      (email password name : Text) (quota : ℤ) {s : State}
      → IsValid s
      → Runs s (mailbox_create email password name quota) Valid
  unfolding mailbox_create new_row address_kind
  mailbox_create-Valid email password name quota {s} h =
      Runs-lift-bind Valid _ _ (λ _ _. h)
        (λ p split.
          domain_id-bind Valid p.1 _ (λ _. h)
            (λ id registered. Runs-query-bind Valid (kind_of email) _ h (
              Runs-refuse_if-bind Valid _ exists _ (λ _. h)
                (λ free. hash_password-bind Valid password _ h (λ hash.
                  let h1 = IsValid-draws _ h in
                  let apart = no_group_of_kind email s free in
                  let home = home_of_split s id email p split registered in
                  let h2 = IsValid-insert_user h1 _ apart home in
                  Runs-exec-bind Valid _ _ h1 (
                    Runs-refuse_if-bind Valid _ exists _ (λ _. h2)
                      (λ _. create_maildir-Valid p.1 p.0 h2)))))))

  pub mailbox_remove-Valid :
      (email : Text) {s : State} → IsValid s → Runs s (mailbox_remove email) Valid
  unfolding mailbox_remove remove_all
  mailbox_remove-Valid email h =
      Runs-lift-bind Valid _ _ (λ _ _. h)
        (λ p split.
          let h1 = IsValid-delete_user h email in
          let h2 = IsValid-delete_memberships h1 email in
          Runs-exec-bind Valid _ _ h
            (Runs-exec-bind Valid _ _ h1 (Runs-disk Valid _ h2 (IsValid-dirs _ h2))))

  pub mailbox_passwd-Valid :
      (email password : Text) {s : State} → IsValid s → Runs s (mailbox_passwd email password) Valid
  unfolding mailbox_passwd
  mailbox_passwd-Valid email password h =
      Runs-lift-bind Valid _ _ (λ _ _. h)
        (λ _ _. hash_password-bind Valid password _ h (λ hash.
          let h1 = IsValid-draws _ h in
          let h2 = IsValid-update_user h1 email _ _ (λ u. refl) (λ u. refl) in
          Runs-exec-bind Valid _ _ h1 (Runs-refuse_if _ not_found Valid (λ _. h2) (λ _. h2))))

  mailbox_or_missing-bind :
      {B : Type 0} (found : Option UserRow) (k : _ → M B) {s : State}
      → IsValid s
      → ((m : _) → Runs s (k m) Valid)
      → Runs s (mailbox_or_missing found) (Then Valid k)
  unfolding mailbox_or_missing
  mailbox_or_missing-bind none k h next = Runs-fail (Then Valid k) not_found h
  mailbox_or_missing-bind (some u) k h next = Runs-pure (Then Valid k) _ (next _)

  pub mailbox_get-bind :
      {B : Type 0} (email : Text) (k : _ → M B) {s : State}
      → IsValid s
      → ((m : _) → Runs s (k m) Valid)
      → Runs s (mailbox_get email >>= k) Valid
  unfolding mailbox_get
  mailbox_get-bind email k h next = Runs-bind Valid _ k (
      Runs-lift-bind (Then Valid k) _ _ (λ _ _. h)
        (λ _ _.
          Runs-query-bind (Then Valid k) (find_user email) _ h
            (mailbox_or_missing-bind _ k h next)))

  recheck-Valid : (n : ℕ) (email : Text) {s : State} → IsValid s → Runs s (recheck n email) Valid
  unfolding recheck
  recheck-Valid n email h = elim (Bool-cases (n == 0)) [
    | inl e ↦ rw e (mailbox_get-bind email _ h (λ m. Runs-pure Valid tt h))
    | inr e ↦ rw e (Runs-pure Valid tt h)
  ]

  update_mailbox-Valid :
      (email : Text) (keeps : UserRow → Bool) (f : UserRow → UserRow) {s : State}
      → ((u : UserRow) → (f u).email ≡ u.email)
      → ((u : UserRow) → (f u).domain_id ≡ u.domain_id)
      → IsValid s
      → Runs s (update_mailbox email keeps f) Valid
  unfolding update_mailbox
  update_mailbox-Valid email keeps f same_email same_domain h =
      Runs-exec-bind Valid _ _ h
        (recheck-Valid _ email (IsValid-update_user h email keeps f same_email same_domain))

  pub mailbox_set_quota-Valid :
      (email : Text) (quota : ℤ) {s : State}
      → IsValid s
      → Runs s (mailbox_set_quota email quota) Valid
  unfolding mailbox_set_quota
  mailbox_set_quota-Valid email quota h =
      Runs-lift-bind Valid _ _ (λ _ _. h)
        (λ _ _.
          Runs-refuse_if-bind Valid _ invalid _ (λ _. h)
            (λ _. update_mailbox-Valid email _ _ (λ u. refl) (λ u. refl) h))

  pub mailbox_set_name-Valid :
      (email name : Text) {s : State} → IsValid s → Runs s (mailbox_set_name email name) Valid
  unfolding mailbox_set_name
  mailbox_set_name-Valid email name h =
      Runs-lift-bind Valid _ _ (λ _ _. h)
        (λ _ _.
          Runs-refuse_if-bind Valid _ invalid _ (λ _. h)
            (λ _. update_mailbox-Valid email _ _ (λ u. refl) (λ u. refl) h))

  pub mailbox_set_enabled-Valid :
      (email : Text) (enabled : Bool) {s : State}
      → IsValid s
      → Runs s (mailbox_set_enabled email enabled) Valid
  unfolding mailbox_set_enabled
  mailbox_set_enabled-Valid email enabled h =
      Runs-lift-bind Valid _ _ (λ _ _. h)
        (λ _ _. update_mailbox-Valid email _ _ (λ u. refl) (λ u. refl) h)
