-- ===== src/PublicApi/Server/Isolation/Served.antt =====
-- What the API makes of the tables: they stay valid, and mail outside the key's domain is untouched.
use patrabahok.Base.{◌≡◌, refl, true, false, ◌∷◌, ◌++◌}
use patrabahok.Base.Text.{Text, equal_fold, to_lower}
use patrabahok.Db.{Env, State, same}
use patrabahok.Db.Rules.{Runs}
use patrabahok.Keys.{mark_key}
use patrabahok.Audit.{insert_entry}
use patrabahok.Invariant.{IsValid-aside, IsValid}
use patrabahok.Invariant.Operations.{
  mailbox_create-Valid, mailbox_remove-Valid, mailbox_passwd-Valid, mailbox_set_quota-Valid,
  mailbox_set_name-Valid, mailbox_set_enabled-Valid,
}
use patrabahok.Invariant.Operations.Routes.{
  alias_add-Valid, alias_remove-Valid, forward_set-Valid, forward_clear-Valid,
}
use patrabahok.Invariant.Operations.Groups.{group_create-Valid, group_delete-Valid}
use patrabahok.Invariant.Operations.Members.{
  group_update-Valid, group_add_members-Valid, group_remove_member-Valid,
}
use patrabahok.PublicApi.{Credentials}
use patrabahok.PublicApi.Store.{StoreKeeps, Within}
use patrabahok.PublicApi.Server.{Endpoint, serve}
use patrabahok.Db.Answers.{Answered}
use patrabahok.PublicApi.Server.Served.{serve-Answers}
use patrabahok.PublicApi.Server.Isolation.{
  same_mail, create-Keeps, remove-Keeps, passwd-Keeps, set_name-Keeps, set_quota-Keeps,
  set_enabled-Keeps, alias_add-Keeps, alias_remove-Keeps, forward_set-Keeps, forward_clear-Keeps,
}
use patrabahok.PublicApi.Server.Isolation.Groups.{
  group_create-Keeps, group_delete-Keeps, group_update-Keeps, group_add_members-Keeps,
  group_remove_member-Keeps,
}
use patrabahok.PublicApi.Server.Isolation.Statements.{Untouched}

module _ ⦃env : Env⦄ where
  -- No address of the domain is the same as x.
  abbrev pub IsOutside : Text → Text → Type 0
  IsOutside domain x = (l : Text) → same x (l ++ b'@' ∷ domain) ≡ false

  Within-apart : (domain x e : Text) → IsOutside domain x → Within domain e → same x e ≡ false
  Within-apart domain x e outside (l, is_it) = rw is_it (outside l)

  mark-Untouched :
      (s : State) (x : Text) (id : _) (t : State)
      → Untouched s x t
      → Untouched s x (mark_key id t).1
  unfolding mark_key
  mark-Untouched s x id t h = same_mail s x t _ refl refl refl h

  note-Untouched :
      (s : State) (x actor action target detail ip : Text) (t : State)
      → Untouched s x t
      → Untouched s x (insert_entry actor action target detail ip t).1
  unfolding insert_entry
  note-Untouched s x actor action target detail ip t h = same_mail s x t _ refl refl refl h

  store-Untouched :
      (s : State) (x domain : Text) → IsOutside domain x → StoreKeeps (Untouched s x) domain
  store-Untouched s x domain outside = record {
    create = λ e p n q w. create-Keeps s x e (Within-apart domain x e outside w) p n q;
    remove = λ e w. remove-Keeps s x e (Within-apart domain x e outside w);
    passwd = λ e p w. passwd-Keeps s x e (Within-apart domain x e outside w) p;
    set_name = λ e n w. set_name-Keeps s x e (Within-apart domain x e outside w) n;
    set_quota = λ e q w. set_quota-Keeps s x e (Within-apart domain x e outside w) q;
    set_enabled = λ e b w. set_enabled-Keeps s x e (Within-apart domain x e outside w) b;
    add_alias = λ e d w. alias_add-Keeps s x e (Within-apart domain x e outside w) d;
    remove_alias = λ e d w. alias_remove-Keeps s x e (Within-apart domain x e outside w) d;
    set_forward = λ e d keep w. forward_set-Keeps s x e (Within-apart domain x e outside w) d keep;
    clear_forward = λ e w. forward_clear-Keeps s x e (Within-apart domain x e outside w);
    create_group = λ e g w. group_create-Keeps s x e g;
    update_group = λ e g w. group_update-Keeps s x e g;
    delete_group = λ e w. group_delete-Keeps s x e;
    add_members = λ e ms r w. group_add_members-Keeps s x e ms r;
    remove_member = λ e m w. group_remove_member-Keeps s x e m;
    mark = mark-Untouched s x;
    note = note-Untouched s x;
  }

  -- If no address in a domain spelled as the path of the request spells it, upper and lower case
  -- apart, is the same as x under the collation, then whatever key comes with the request and
  -- whatever calls fail, the request is answered, and the mailbox, the aliases and the forward of
  -- x are what they were.
  pub serve-Untouched :
      (s : State) (c : Credentials) (endpoint : Endpoint) (x : Text)
      → ((domain : Text) → equal_fold domain (to_lower c.path_domain) ≡ true → IsOutside domain x)
      → Runs s (serve c endpoint) (Answered (Untouched s x))
  serve-Untouched s c endpoint x outside =
      serve-Answers (Untouched s x) c endpoint (λ d here. store-Untouched s x d (outside d here))
        (mark-Untouched s x) s (record { users = refl; aliases = refl; forwards = refl })

  mark-IsValid : (id : _) (t : State) → IsValid t → IsValid (mark_key id t).1
  unfolding mark_key
  mark-IsValid id t h = IsValid-aside _ _ refl refl refl refl refl h

  note-IsValid :
      (actor action target detail ip : Text) (t : State)
      → IsValid t
      → IsValid (insert_entry actor action target detail ip t).1
  unfolding insert_entry
  note-IsValid actor action target detail ip t h = IsValid-aside _ _ refl refl refl refl refl h

  store-IsValid : (domain : Text) → StoreKeeps IsValid domain
  store-IsValid domain = record {
    create = λ e p n q w s h. mailbox_create-Valid e p n q h;
    remove = λ e w s h. mailbox_remove-Valid e h;
    passwd = λ e p w s h. mailbox_passwd-Valid e p h;
    set_name = λ e n w s h. mailbox_set_name-Valid e n h;
    set_quota = λ e q w s h. mailbox_set_quota-Valid e q h;
    set_enabled = λ e b w s h. mailbox_set_enabled-Valid e b h;
    add_alias = λ e d w s h. alias_add-Valid e d h;
    remove_alias = λ e d w s h. alias_remove-Valid e d h;
    set_forward = λ e d keep w s h. forward_set-Valid e d keep h;
    clear_forward = λ e w s h. forward_clear-Valid e h;
    create_group = λ e g w s h. group_create-Valid e g h;
    update_group = λ e g w s h. group_update-Valid e g h;
    delete_group = λ e w s h. group_delete-Valid e h;
    add_members = λ e ms r w s h. group_add_members-Valid e ms r h;
    remove_member = λ e m w s h. group_remove_member-Valid e m h;
    mark = mark-IsValid;
    note = note-IsValid;
  }

  -- From valid tables every request is answered and leaves valid tables, whatever key comes with
  -- it and whatever calls fail.
  pub serve-IsValid :
      (s : State) (c : Credentials) (endpoint : Endpoint)
      → IsValid s
      → Runs s (serve c endpoint) (Answered IsValid)
  serve-IsValid s c endpoint h =
      serve-Answers IsValid c endpoint (λ d here. store-IsValid d) mark-IsValid s h
