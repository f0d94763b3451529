-- ===== src/Policy.antt =====
-- The Postfix policy service of cli/internal/policy/policy.go: who may post to a group. The sockets
-- and the time limits of ListenAndServe and serveConn are not modelled; the attribute lines are.
pub mod Rule
pub mod Access
pub mod Addresses
pub mod Session
use patrabahok.Base.{
  ℕ, ◌+◌, ◌≡◌, Bool, true, false, ◌&&◌, ◌||◌, not, Option, none, some, List, [], ◌∷◌, ◌++◌, map,
  if◌then◌else◌, any, ltb, ◌==◌, length, take, suc,
}
use patrabahok.Base.Text.{Text, codes, text_eq, is_empty, to_lower, trim_space, cut, index_byte}
use patrabahok.Base.Table.{row_where, count_where}
use patrabahok.Address.{Result, ok, err}
use patrabahok.Db.{Env, State, GroupRow, MemberRow, M, pure, ◌>>=◌, ◌>>◌, query, attempt, same}
use patrabahok.Groups.{post_anyone, post_organization, post_members, post_owners, role_owner}

pub record Request : Type 0 where
  pub sender : Text
  pub recipient : Text
  pub sasl_username : Text
  pub client_address : Text

pub data Reason : Type 0 where
  organization_only members_only owners_only sign_in : Reason

pub data Action : Type 0 where
  dunno defer : Action
  reject : Text → Reason → Action

-- if i := strings.IndexByte(local, '+'); i > 0 { local = local[:i] }
unfoldable pub strip_tag : Text → Text
strip_tag local = elim (index_byte b'+' local) [
  | none ↦ local
  | some i ↦ if ltb 0 i then take i local else local
]

unfoldable pub normalize : Text → Text
unfolding strip_tag
normalize addr =
    let a = to_lower (trim_space addr) in
    let (local, domain, found) = cut b'@' a in if found then strip_tag local ++ b'@' ∷ domain else a

unfoldable pub role_or_empty : Option MemberRow → Text
role_or_empty none = []
role_or_empty (some m) = m.role

-- The switch on the policy.
unfoldable pub by_role : Text → Text → Text → Action
by_role recipient policy role =
    if text_eq policy post_members
    then (if not (is_empty role) then dunno else reject recipient members_only)
    else if text_eq policy post_owners
    then (if text_eq role role_owner then dunno else reject recipient owners_only)
    else dunno

module _ ⦃env : Env⦄ where
  unfoldable pub find_row : Text → State → Option GroupRow
  find_row recipient s = row_where (λ g. same g.email recipient) s.groups

  unfoldable pub count_domains : Text → State → ℕ
  count_domains domain s = count_where (λ d. same d.name domain) s.domains

  unfoldable pub is_hosted_address : Text → M Bool
  is_hosted_address address =
      let (local, domain, found) = cut b'@' address in
      if found then (do n ← query (count_domains domain); pure (ltb 0 n)) else pure false

  unfoldable pub find_member : ℕ → Text → State → Option MemberRow
  find_member id address s = row_where (λ m. m.group_id == id && same m.member address) s.members

  unfoldable pub member_role : ℕ → Text → M Text
  unfolding role_or_empty find_member
  member_role id address =
      if is_empty address
      then pure []
      else do found ← query (find_member id address); pure (role_or_empty found)

  decide_role : Text → GroupRow → Text → M Action
  unfolding by_role
  decide_role recipient g sender = do
    looked_up ← attempt (member_role g.id sender)
    pure (elim looked_up [ err e ↦ defer | ok role ↦ by_role recipient g.post_policy role ])

  after_hosted : Text → GroupRow → Text → Result Bool → M Action
  after_hosted recipient g sender (err e) = pure defer
  after_hosted recipient g sender (ok true) = pure (reject recipient sign_in)
  after_hosted recipient g sender (ok false) = decide_role recipient g sender

  decide_member : Text → GroupRow → Bool → Text → M Action
  unfolding after_hosted decide_role
  decide_member recipient g authenticated sender =
      if authenticated
      then decide_role recipient g sender
      else if is_empty sender
      then pure (reject recipient members_only)
      else do hosted ← attempt (is_hosted_address sender); after_hosted recipient g sender hosted

-- The loopback test is net.ParseIP and IsLoopback of Go's library.
module _ ⦃env : Env⦄ (is_loopback : Text → Bool) where
  decide_group : Request → Text → GroupRow → M Action
  unfolding decide_member
  decide_group req recipient g =
      let authenticated = not (is_empty req.sasl_username) in
      if text_eq g.post_policy post_anyone || not authenticated && is_loopback req.client_address
      then pure dunno
      else if text_eq g.post_policy post_organization
      then pure (if authenticated then dunno else reject recipient organization_only)
      else decide_member recipient g authenticated
          (normalize (if authenticated then req.sasl_username else req.sender))

  after_lookup : Request → Text → Result (Option GroupRow) → M Action
  after_lookup req recipient (err e) = pure defer
  after_lookup req recipient (ok none) = pure dunno
  after_lookup req recipient (ok (some g)) = decide_group req recipient g

  unfoldable pub decide : Request → M Action
  unfolding after_lookup decide_group
  decide req =
      let recipient = normalize req.recipient in
      if is_empty recipient
      then pure dunno
      else do found ← attempt (query (find_row recipient)); after_lookup req recipient found

-- What follows "action=".
why : Reason → Text
why organization_only =
    codes "only people in this organization can post; sign in to your mail account to send"
why members_only = codes "only group members can post"
why owners_only = codes "only group owners can post"
why sign_in = codes "sign in to your mail account to post to this group"

unfoldable pub action_text : Action → Text
unfolding why
action_text dunno = codes "DUNNO"
action_text defer = codes "DEFER_IF_PERMIT Group policy check temporarily unavailable"
action_text (reject group reason) = codes "REJECT 5.7.1 <" ++ (group ++ (codes ">: " ++ why reason))
