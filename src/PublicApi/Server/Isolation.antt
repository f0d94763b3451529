-- ===== src/PublicApi/Server/Isolation.antt =====
-- What a key of one domain lets change: nothing of the mail of an address elsewhere.
pub mod Statements
pub mod Groups
pub mod Served
use patrabahok.Base.{
  inr, inl, ℕ, ◌≡◌, refl, sym, ap, ◌∙◌, Bool, true, false, ◌&&◌, ◌||◌, not, Option, none, some,
  List, [], ◌∷◌, ◌++◌, any, ◌==◌, if◌then◌else◌, Bool-cases, arith,
}
use patrabahok.Base.Text.{Text, to_lower, trim_space, is_empty, equal_fold, text_eq}
use patrabahok.Base.Int.{ℤ}
use patrabahok.Address.{Result, ok, err, split_email}
use patrabahok.Db.{Env, State, UserRow, M, exec, ◌>>=◌, same}
use patrabahok.Db.Rules.{Runs}
use patrabahok.Db.Keeps.{
  Keeps, Keeps-pure, Keeps-fail, Keeps-lift, Keeps-query, Keeps-exec, Keeps-disk, Keeps-random,
  Keeps-refuse_if, Keeps-bind, Keeps-attempt,
}
use patrabahok.Domains.{
  id_or_missing, domain_id, not_a_group, address_kind, hosted_domains, domain_list, has_group,
}
use patrabahok.Mailboxes.{
  new_row, hash_password, make_dir, create_maildir, remove_all, mailbox_create,
}
use patrabahok.Mailboxes.Change.{
  mailbox_or_missing, mailbox_get, mailbox_remove, mailbox_passwd, recheck, update_mailbox,
  mailbox_set_name, mailbox_set_quota, mailbox_set_enabled, delete_memberships,
}
use patrabahok.Aliases.{alias_add, alias_remove, forward_set, forward_clear}
use patrabahok.Groups.{
  GroupSettings, Group, create_lowered, group_create, group_delete, insert_group, delete_group,
  delete_memberships_of,
}
use patrabahok.Groups.Members.{
  group_update, update_group, check_externals, upsert_member, problem_in, problem_with, finish_one,
  add_one, add_each, group_add_members, delete_member, group_remove_member,
}
use patrabahok.Keys.{mark_key}
use patrabahok.Audit.{insert_entry}
use patrabahok.PublicApi.{Credentials}
use patrabahok.PublicApi.Store.{StoreKeeps, Within}
use patrabahok.PublicApi.Server.{Endpoint, serve}
use patrabahok.Db.Answers.{Answered, Answers}
use patrabahok.Reads.{mailbox_get-Keeps, group_get-Keeps, group_members-Keeps}
use patrabahok.PublicApi.Server.Isolation.Statements.{
  Untouched, Untouched-insert_user, Untouched-update_user, Untouched-delete_user,
  Untouched-insert_alias, Untouched-delete_alias, Untouched-delete_forward,
  Untouched-upsert_forward,
}

module _ ⦃env : Env⦄ (s : State) (x : Text) where
  -- The tables of mail are those of a state in which x is untouched.
  pub same_mail :
      (t u : State)
      → u.users ≡ t.users
      → u.aliases ≡ t.aliases
      → u.forwards ≡ t.forwards
      → Untouched s x t
      → Untouched s x u
  same_mail t u a b c h = record {
    users = rw a h.users;
    aliases = rw b h.aliases;
    forwards = rw c h.forwards;
  }

  pub id_or_missing-Keeps : (found : Option _) → Keeps (Untouched s x) (id_or_missing found)
  unfolding id_or_missing
  id_or_missing-Keeps none = Keeps-fail _ _
  id_or_missing-Keeps (some d) = Keeps-pure _ _

  pub domain_id-Keeps : (name : Text) → Keeps (Untouched s x) (domain_id name)
  unfolding domain_id
  domain_id-Keeps name = Keeps-bind _ _ _ (Keeps-query _ _) (λ found. id_or_missing-Keeps found)

  pub not_a_group-Keeps : (e : Text) → Keeps (Untouched s x) (not_a_group e)
  unfolding not_a_group
  not_a_group-Keeps e = Keeps-bind _ _ _ (Keeps-query _ _) (λ n. Keeps-refuse_if _ _ _)

  pub hash_password-Keeps : (p : Text) → Keeps (Untouched s x) (hash_password p)
  unfolding hash_password
  hash_password-Keeps p =
      Keeps-bind _ _ _ (Keeps-random _ (λ t h. same_mail t _ refl refl refl h))
        (λ drawn. Keeps-pure _ _)

  pub make_dir-Keeps : (path : Text) (t : State) → Untouched s x t → Untouched s x (make_dir path t)
  unfolding make_dir
  make_dir-Keeps path t h = same_mail t _ refl refl refl h

  pub create_maildir-Keeps : (d l : Text) → Keeps (Untouched s x) (create_maildir d l)
  unfolding create_maildir
  create_maildir-Keeps d l = Keeps-bind _ _ _ (Keeps-disk _ _ (make_dir-Keeps _)) (λ _.
      Keeps-bind _ _ _ (Keeps-disk _ _ (make_dir-Keeps _)) (λ _.
        Keeps-bind _ _ _ (Keeps-disk _ _ (make_dir-Keeps _)) (λ _.
          Keeps-bind _ _ _ (Keeps-disk _ _ (make_dir-Keeps _)) (λ _. Keeps-disk _ _ (λ t h. h)))))

module _ ⦃env : Env⦄ (s : State) (x e : Text) (outside : same x e ≡ false) where
  pub create-Keeps : (p n : Text) (q : ℤ) → Keeps (Untouched s x) (mailbox_create e p n q)
  unfolding mailbox_create new_row address_kind
  create-Keeps p n q = Keeps-bind _ _ _ (Keeps-lift _ _) (λ a.
      Keeps-bind _ _ _ (domain_id-Keeps s x a.1) (λ id. Keeps-bind _ _ _ (Keeps-query _ _) (λ kind.
        Keeps-bind _ _ _ (Keeps-refuse_if _ _ _) (λ _.
          Keeps-bind _ _ _ (hash_password-Keeps s x p) (λ hash.
            Keeps-bind _ _ _ (Keeps-exec _ _ (λ t h. Untouched-insert_user x e outside t h _ refl))
              (λ inserted.
                Keeps-bind _ _ _ (Keeps-refuse_if _ _ _)
                  (λ _. create_maildir-Keeps s x a.1 a.0)))))))

  pub remove-Keeps : Keeps (Untouched s x) (mailbox_remove e)
  unfolding mailbox_remove remove_all delete_memberships
  remove-Keeps = Keeps-bind _ _ _ (Keeps-lift _ _) (λ a.
      Keeps-bind _ _ _ (Keeps-exec _ _ (λ t h. Untouched-delete_user x e outside t h)) (λ _.
        Keeps-bind _ _ _ (Keeps-exec _ _ (λ t h. same_mail s x t _ refl refl refl h))
          (λ _. Keeps-disk _ _ (λ t h. same_mail s x t _ refl refl refl h))))

  pub recheck-Keeps : (n : ℕ) → Keeps (Untouched s x) (recheck n e)
  unfolding recheck
  recheck-Keeps n = elim (Bool-cases (n == 0)) [
    | inl k ↦ rw k (Keeps-bind _ _ _ (mailbox_get-Keeps (Untouched s x) e) (λ m. Keeps-pure _ _))
    | inr k ↦ rw k (Keeps-pure _ _)
  ]

  pub passwd-Keeps : (p : Text) → Keeps (Untouched s x) (mailbox_passwd e p)
  unfolding mailbox_passwd
  passwd-Keeps p = Keeps-bind _ _ _ (Keeps-lift _ _) (λ a.
      Keeps-bind _ _ _ (hash_password-Keeps s x p) (λ hash.
        Keeps-bind _ _ _
          (Keeps-exec _ _ (λ t h. Untouched-update_user x e outside t h _ _ (λ u. refl)))
          (λ n. Keeps-refuse_if _ _ _)))

  pub update-Keeps :
      (keeps : UserRow → Bool) (f : UserRow → UserRow)
      → ((u : UserRow) → (f u).email ≡ u.email)
      → Keeps (Untouched s x) (update_mailbox e keeps f)
  unfolding update_mailbox
  update-Keeps keeps f same_email =
      Keeps-bind _ _ _
        (Keeps-exec _ _ (λ t h. Untouched-update_user x e outside t h keeps f same_email))
        (λ n. recheck-Keeps n)

  pub set_name-Keeps : (n : Text) → Keeps (Untouched s x) (mailbox_set_name e n)
  unfolding mailbox_set_name
  set_name-Keeps n =
      Keeps-bind _ _ _ (Keeps-lift _ _)
        (λ a. Keeps-bind _ _ _ (Keeps-refuse_if _ _ _) (λ _. update-Keeps _ _ (λ u. refl)))

  pub set_quota-Keeps : (q : ℤ) → Keeps (Untouched s x) (mailbox_set_quota e q)
  unfolding mailbox_set_quota
  set_quota-Keeps q =
      Keeps-bind _ _ _ (Keeps-lift _ _)
        (λ a. Keeps-bind _ _ _ (Keeps-refuse_if _ _ _) (λ _. update-Keeps _ _ (λ u. refl)))

  pub set_enabled-Keeps : (b : Bool) → Keeps (Untouched s x) (mailbox_set_enabled e b)
  unfolding mailbox_set_enabled
  set_enabled-Keeps b = Keeps-bind _ _ _ (Keeps-lift _ _) (λ a. update-Keeps _ _ (λ u. refl))

  pub alias_add-Keeps : (d : Text) → Keeps (Untouched s x) (alias_add e d)
  unfolding alias_add
  alias_add-Keeps d = Keeps-bind _ _ _ (Keeps-lift _ _) (λ _.
      Keeps-bind _ _ _ (Keeps-lift _ _) (λ _. Keeps-bind _ _ _ (Keeps-lift _ _) (λ a.
        Keeps-bind _ _ _ (domain_id-Keeps s x a.1) (λ id.
          Keeps-bind _ _ _ (not_a_group-Keeps s x e)
            (λ _. Keeps-exec _ _ (λ t h. Untouched-insert_alias x e outside t h _ refl))))))

  pub alias_remove-Keeps : (d : Text) → Keeps (Untouched s x) (alias_remove e d)
  unfolding alias_remove
  alias_remove-Keeps d = Keeps-exec _ _ (λ t h. Untouched-delete_alias x e outside t h d)

  pub forward_set-Keeps : (d : Text) (keep : Bool) → Keeps (Untouched s x) (forward_set e d keep)
  unfolding forward_set
  forward_set-Keeps d keep = Keeps-bind _ _ _ (Keeps-lift _ _) (λ _.
      Keeps-bind _ _ _ (Keeps-refuse_if _ _ _) (λ _.
        Keeps-bind _ _ _ (mailbox_get-Keeps (Untouched s x) e)
          (λ _. Keeps-exec _ _ (λ t h. Untouched-upsert_forward x e outside t h _ keep))))

  pub forward_clear-Keeps : Keeps (Untouched s x) (forward_clear e)
  unfolding forward_clear
  forward_clear-Keeps = Keeps-exec _ _ (λ t h. Untouched-delete_forward x e outside t h)
