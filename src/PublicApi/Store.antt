-- ===== src/PublicApi/Store.antt =====
-- What the API's handlers ask of the operations that they call: each keeps a property of the state.
use patrabahok.Base.{ℕ, ◌≡◌, Bool, List, ◌∷◌, ◌++◌}
use patrabahok.Base.Text.{Text}
use patrabahok.Base.Int.{ℤ}
use patrabahok.Db.{Env, State}
use patrabahok.Db.Keeps.{Keeps}
use patrabahok.Mailboxes.{mailbox_create}
use patrabahok.Mailboxes.Change.{
  mailbox_remove, mailbox_passwd, mailbox_set_name, mailbox_set_quota, mailbox_set_enabled,
}
use patrabahok.Aliases.{alias_add, alias_remove, forward_set, forward_clear}
use patrabahok.Groups.{GroupSettings, group_create, group_delete}
use patrabahok.Groups.Members.{group_update, group_add_members, group_remove_member}
use patrabahok.Keys.{mark_key}
use patrabahok.Audit.{insert_entry}

-- An address of the domain.
abbrev pub Within : Text → Text → Type 0
Within domain e = (l : Text) × (e ≡ l ++ b'@' ∷ domain)

module _ ⦃env : Env⦄ where
  -- Operations on the addresses of one domain keep P, and so do the marks that the API leaves.
  pub record StoreKeeps (P : State → Type 0) (domain : Text) : Type 0 where
    pub create : (e p n : Text) (q : ℤ) → Within domain e → Keeps P (mailbox_create e p n q)
    pub remove : (e : Text) → Within domain e → Keeps P (mailbox_remove e)
    pub passwd : (e p : Text) → Within domain e → Keeps P (mailbox_passwd e p)
    pub set_name : (e n : Text) → Within domain e → Keeps P (mailbox_set_name e n)
    pub set_quota : (e : Text) (q : ℤ) → Within domain e → Keeps P (mailbox_set_quota e q)
    pub set_enabled : (e : Text) (b : Bool) → Within domain e → Keeps P (mailbox_set_enabled e b)
    pub add_alias : (e d : Text) → Within domain e → Keeps P (alias_add e d)
    pub remove_alias : (e d : Text) → Within domain e → Keeps P (alias_remove e d)
    pub set_forward : (e d : Text) (keep : Bool) → Within domain e → Keeps P (forward_set e d keep)
    pub clear_forward : (e : Text) → Within domain e → Keeps P (forward_clear e)
    pub create_group : (e : Text) (g : GroupSettings) → Within domain e → Keeps P (group_create e g)
    pub update_group : (e : Text) (g : GroupSettings) → Within domain e → Keeps P (group_update e g)
    pub delete_group : (e : Text) → Within domain e → Keeps P (group_delete e)
    pub add_members :
        (e : Text) (ms : List Text) (r : Text)
        → Within domain e
        → Keeps P (group_add_members e ms r)
    pub remove_member : (e m : Text) → Within domain e → Keeps P (group_remove_member e m)
    pub mark : (id : ℕ) (s : State) → P s → P (mark_key id s).1
    pub note :
        (actor action target detail ip : Text) (s : State)
        → P s
        → P (insert_entry actor action target detail ip s).1
