-- ===== src/Reads.antt =====
-- The calls of the Store in cli/internal/mailbox that only read keep every property of the state.
use patrabahok.Db.Keeps.{Keeps-pure, Keeps-lift, Keeps-query, Keeps-fail, Keeps-bind, Keeps}
use patrabahok.Base.Text.{Text}
use patrabahok.Mailboxes.Change.{mailbox_list, mailbox_get, mailbox_or_missing}
use patrabahok.Groups.Members.{group_members}
use patrabahok.Groups.{group_get, Group, group_or_missing}
use patrabahok.Domains.{domain_list}
use patrabahok.Db.{State, Env}
use patrabahok.Groups.Search.{group_list}
use patrabahok.Aliases.{alias_list}
use patrabahok.Base.{Option, none, some}

module _ ⦃env : Env⦄ (P : State → Type 0) where
  pub mailbox_or_missing-Keeps : (o : Option _) → Keeps P (mailbox_or_missing o)
  unfolding mailbox_or_missing
  mailbox_or_missing-Keeps none = Keeps-fail P _
  mailbox_or_missing-Keeps (some u) = Keeps-pure P _

  pub mailbox_get-Keeps : (email : Text) → Keeps P (mailbox_get email)
  unfolding mailbox_get
  mailbox_get-Keeps email =
      Keeps-bind P _ _ (Keeps-lift P _)
        (λ a. Keeps-bind P _ _ (Keeps-query P _) (λ o. mailbox_or_missing-Keeps o))

  pub group_or_missing-Keeps : (o : Option Group) → Keeps P (group_or_missing o)
  unfolding group_or_missing
  group_or_missing-Keeps none = Keeps-fail P _
  group_or_missing-Keeps (some u) = Keeps-pure P _

  pub group_get-Keeps : (email : Text) → Keeps P (group_get email)
  unfolding group_get
  group_get-Keeps email = Keeps-bind P _ _ (Keeps-query P _) (λ o. group_or_missing-Keeps o)

  pub group_members-Keeps : (email : Text) → Keeps P (group_members email)
  unfolding group_members
  group_members-Keeps email = Keeps-bind P _ _ (group_get-Keeps email) (λ g. Keeps-query P _)

  pub group_list-Keeps : (domain q : Text) → Keeps P (group_list domain q)
  unfolding group_list
  group_list-Keeps domain q = Keeps-query P _

  pub mailbox_list-Keeps : (domain : Text) → Keeps P (mailbox_list domain)
  unfolding mailbox_list
  mailbox_list-Keeps domain = Keeps-query P _

  pub alias_list-Keeps : (domain : Text) → Keeps P (alias_list domain)
  unfolding alias_list
  alias_list-Keeps domain = Keeps-query P _

  pub domain_list-Keeps : Keeps P domain_list
  unfolding domain_list
  domain_list-Keeps = Keeps-query P _
