-- ===== src/Policy/Rule.antt =====
-- The access rule of a group's address in terms of the tables, with no reference to the order of the
-- checks in Decide of cli/internal/policy/policy.go.
use patrabahok.Base.{
  ◌≡◌, Bool, true, false, ◌&&◌, ◌||◌, not, none, some, [], arith, if◌then◌else◌, ltb,
}
use patrabahok.Base.Text.{Text, text_eq, text_eq_iff, text_eq_sym, is_empty, cut}
use patrabahok.Address.{Result, ok, err}
use patrabahok.Db.{Env, State, GroupRow}
use patrabahok.Groups.{
  post_anyone, post_organization, post_members, post_owners, role_owner, valid_post_policy,
}
use patrabahok.Policy.{
  Request, Action, dunno, defer, reject, normalize, find_row, count_domains, role_or_empty,
  find_member, by_role,
}

unfoldable pub has_standing : Text → Text → Bool
has_standing policy role =
    text_eq policy post_members && not (is_empty role)
    || text_eq policy post_owners && text_eq role role_owner

-- What a decision says of a truth value: DUNNO says yes, REJECT no, DEFER nothing.
abbrev pub Agrees : Bool → Action → Type 0
Agrees b dunno = b ≡ true
Agrees b defer = Unit
Agrees b (reject group reason) = b ≡ false

valid-cases :
    (p : Text)
    → valid_post_policy p ≡ true
    → text_eq p post_anyone ≡ false
    → text_eq p post_organization ≡ false
    → text_eq p post_members ≡ false
    → text_eq p post_owners ≡ true
unfolding valid_post_policy
valid-cases p h a o m = ground (
  arith,
  text_eq_sym post_anyone p,
  text_eq_sym post_organization p,
  text_eq_sym post_members p,
  text_eq_sym post_owners p,
)

members-ne-owners : (p : Text) → text_eq p post_members ≡ true → text_eq p post_owners ≡ false
members-ne-owners p h = ground (arith, text_eq_iff p post_members, text_eq_iff p post_owners)

pub by_role-Agrees :
    (recipient p role : Text)
    → valid_post_policy p ≡ true
    → text_eq p post_anyone ≡ false
    → text_eq p post_organization ≡ false
    → Agrees (has_standing p role) (by_role recipient p role)
unfolding by_role has_standing
by_role-Agrees recipient p role h a o = ground (arith, valid-cases p h a o, members-ne-owners p)

module _ ⦃env : Env⦄ where
  -- The role of an address in a group, empty for none.
  unfoldable pub role_in : State → GroupRow → Text → Text
  role_in s g address = if is_empty address then [] else role_or_empty (find_member g.id address s)

  unfoldable pub is_hosted : State → Text → Bool
  is_hosted s address =
      let (local, domain, found) = cut b'@' address in found && ltb 0 (count_domains domain s)

module _ ⦃env : Env⦄ (is_loopback : Text → Bool) where
  -- The access rule, in terms of the tables alone: who may post to the group. An unauthenticated
  -- sender may claim only an address outside the hosted domains.
  unfoldable pub may_post : State → GroupRow → Request → Bool
  unfolding role_in is_hosted has_standing
  may_post s g req =
      let signed_in = not (is_empty req.sasl_username) in
      let user = normalize req.sasl_username in
      let sender = normalize req.sender in
      text_eq g.post_policy post_anyone
      || not signed_in && is_loopback req.client_address
      || signed_in && text_eq g.post_policy post_organization
      || signed_in && has_standing g.post_policy (role_in s g user)
      || not signed_in
        && (not (is_empty sender)
            && (not (is_hosted s sender) && has_standing g.post_policy (role_in s g sender)))

  -- What the tables say of a request, for any recipient.
  unfoldable pub rule_for : State → Request → Bool
  unfolding may_post
  rule_for s req =
      let recipient = normalize req.recipient in
      is_empty recipient || elim (find_row recipient s) [ none ↦ true | some g ↦ may_post s g req ]

-- The program ends with an action that agrees, and has changed nothing.
abbrev pub Answers : State → Bool → Result Action → State → Type 0
Answers s b (ok a) t = Agrees b a × (t ≡ s)
Answers s b (err e) t = ⊥

-- A program that reads: it ends with the value `v` or fails, and changes nothing.
abbrev pub Reads : {A : Type 0} → State → A → Result A → State → Type 0
Reads s v (ok a) t = (a ≡ v) × (t ≡ s)
Reads s v (err e) t = t ≡ s
