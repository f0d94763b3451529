-- ===== src/Policy/Access.antt =====
-- The decision refines an access rule, whatever fails on the way.
use patrabahok.Base.{
  ◌≢◌, inr, inl, ◌≡◌, refl, sym, subst, Bool, true, false, ◌&&◌, ◌||◌, not, Option, none, some, [],
  arith, if◌then◌else◌, ltb, All, Bool-cases,
}
use patrabahok.Base.Text.{Text, text_eq, text_eq_iff, is_empty, cut}
use patrabahok.Base.Table.{All-row_where}
use patrabahok.Address.{Result, ok, err}
use patrabahok.Db.{Env, State, GroupRow, pure, ◌>>=◌, query, attempt}
use patrabahok.Db.Rules.{Runs, Runs-pure, Runs-query, Runs-query-bind, Runs-attempt-bind, Runs_mono}
use patrabahok.Groups.{post_anyone, post_organization, post_members, post_owners, valid_post_policy}
use patrabahok.Policy.{
  Request, dunno, defer, reject, organization_only, members_only, normalize, find_row,
  count_domains, is_hosted_address, role_or_empty, find_member, member_role, by_role, decide_role,
  after_hosted, decide_member, decide_group, after_lookup, decide,
}
use patrabahok.Policy.Rule.{
  has_standing, Agrees, by_role-Agrees, role_in, is_hosted, may_post, rule_for, Answers, Reads,
}

module _ ⦃env : Env⦄ where
  member_role-Reads :
      (s : State) (g : GroupRow) (address : Text)
      → Runs s (member_role g.id address) (Reads s (role_in s g address))
  unfolding member_role role_in
  member_role-Reads s g address = elim (Bool-cases (is_empty address)) [
    | inl e ↦ rw e (Runs-pure (Reads s []) [] (refl, refl))
    | inr e ↦ rw e (
        Runs-query-bind (Reads s (role_or_empty (find_member g.id address s))) _ _ refl
          (Runs-pure (Reads s (role_or_empty (find_member g.id address s))) _ (refl, refl)))
  ]

  is_hosted-Reads :
      (s : State) (address : Text)
      → Runs s (is_hosted_address address) (Reads s (is_hosted s address))
  unfolding is_hosted_address is_hosted
  is_hosted-Reads s address = elim (Bool-cases (cut b'@' address).2) [
    | inl e ↦ rw e (
        Runs-query-bind (Reads s (ltb 0 (count_domains (cut b'@' address).1 s))) _ _ refl
          (Runs-pure (Reads s (ltb 0 (count_domains (cut b'@' address).1 s))) _ (refl, refl)))
    | inr e ↦ rw e (Runs-pure (Reads s false) false (refl, refl))
  ]

  role_decided :
      (s : State) (recipient p v : Text) (b : Bool)
      → Agrees b (by_role recipient p v)
      → (r : Result Text) (t : State) → Reads s v r t
      → Runs t (pure (elim r [ err e ↦ defer | ok role ↦ by_role recipient p role ])) (Answers s b)
  role_decided s recipient p v b h (ok a) t (same_role, same_state) =
      Runs-pure (Answers s b) _
        (subst (λ x. Agrees b (by_role recipient p x)) (sym same_role) h, same_state)
  role_decided s recipient p v b h (err e) t same_state = Runs-pure (Answers s b) _ (tt, same_state)

  decide_role-Answers :
      (s t : State) (recipient : Text) (g : GroupRow) (sender : Text) (b : Bool)
      → t ≡ s
      → Agrees b (by_role recipient g.post_policy (role_in s g sender))
      → Runs t (decide_role recipient g sender) (Answers s b)
  unfolding decide_role
  decide_role-Answers s t recipient g sender b same_state h =
      subst (λ u. Runs u (decide_role recipient g sender) (Answers s b)) (sym same_state)
        (Runs-attempt-bind (Answers s b) (member_role g.id sender) _ (
          Runs_mono (role_decided s recipient g.post_policy (role_in s g sender) b h)
            (member_role-Reads s g sender)))

  -- The rule for a group that only members or owners may post to.
  member_rule : State → GroupRow → Bool → Text → Bool
  member_rule s g authenticated sender =
      let standing = has_standing g.post_policy (role_in s g sender) in
      if authenticated
      then standing
      else not (is_empty sender) && (not (is_hosted s sender) && standing)

  hosted_decided :
      (s : State) (recipient : Text) (g : GroupRow) (sender : Text) (hosted standing : Bool)
      → Agrees standing (by_role recipient g.post_policy (role_in s g sender))
      → (r : Result Bool) (t : State) → Reads s hosted r t
      → Runs t (after_hosted recipient g sender r) (Answers s (not hosted && standing))
  unfolding after_hosted
  hosted_decided s recipient g sender hosted standing h (ok true) t (is_true, same_state) =
      Runs-pure (Answers s (not hosted && standing)) _ (ground arith, same_state)
  hosted_decided s recipient g sender hosted standing h (ok false) t (is_false, same_state) =
      decide_role-Answers s t recipient g sender (not hosted && standing) same_state (
        subst
          (λ x. Agrees (not x && standing) (by_role recipient g.post_policy (role_in s g sender)))
          is_false h)
  hosted_decided s recipient g sender hosted standing h (err e) t same_state =
      Runs-pure (Answers s (not hosted && standing)) _ (tt, same_state)

  decide_member-Answers :
      (s : State) (recipient : Text) (g : GroupRow) (authenticated : Bool) (sender : Text)
      → Agrees
          (has_standing g.post_policy (role_in s g sender))
          (by_role recipient g.post_policy (role_in s g sender))
      → Runs s
          (decide_member recipient g authenticated sender)
          (Answers s (member_rule s g authenticated sender))
  unfolding decide_member member_rule
  decide_member-Answers s recipient g true sender h =
      decide_role-Answers s s recipient g sender (has_standing g.post_policy (role_in s g sender))
        refl h
  decide_member-Answers s recipient g false sender h = elim (Bool-cases (is_empty sender)) [
    | inl e ↦ rw e (Runs-pure (Answers s false) (reject recipient members_only) (refl, refl))
    | inr e ↦ rw e (
        Runs-attempt-bind (Answers s _) (is_hosted_address sender) _ (
          Runs_mono (hosted_decided s recipient g sender (is_hosted s sender) _ h)
            (is_hosted-Reads s sender)))
  ]

organization-no_standing :
    (p role : Text) → text_eq p post_organization ≡ true → has_standing p role ≡ false
unfolding has_standing
organization-no_standing p role h =
    ground (
      arith,
      text_eq_iff p post_organization,
      text_eq_iff p post_members,
      text_eq_iff p post_owners,
    )

module _ ⦃env : Env⦄ (is_loopback : Text → Bool) where
  abbrev free : GroupRow → Request → Bool
  free g req =
      text_eq g.post_policy post_anyone
      || not (not (is_empty req.sasl_username)) && is_loopback req.client_address

  may_post-free :
      (s : State) (g : GroupRow) (req : Request)
      → free g req ≡ true
      → may_post is_loopback s g req ≡ true
  unfolding may_post
  may_post-free s g req h = ground arith

  may_post-organization :
      (s : State) (g : GroupRow) (req : Request)
      → free g req ≡ false
      → text_eq g.post_policy post_organization ≡ true
      → may_post is_loopback s g req ≡ not (is_empty req.sasl_username)
  unfolding may_post
  may_post-organization s g req h o = ground (
    arith,
    organization-no_standing g.post_policy (role_in s g (normalize req.sasl_username)) o,
    organization-no_standing g.post_policy (role_in s g (normalize req.sender)) o,
  )

  may_post-member :
      (s : State) (g : GroupRow) (req : Request)
      → free g req ≡ false
      → text_eq g.post_policy post_organization ≡ false
      → may_post is_loopback s g req
        ≡ member_rule s g
            (not (is_empty req.sasl_username))
            (normalize (if not (is_empty req.sasl_username) then req.sasl_username else req.sender))
  unfolding may_post member_rule
  may_post-member s g req h o = elim (Bool-cases (is_empty req.sasl_username)) [
    | inl e ↦ rw e (ground arith)
    | inr e ↦ rw e (ground arith)
  ]

  organization-Answers :
      (s : State) (recipient : Text) (anonymous : Bool)
      → Runs s
          (pure (if not anonymous then dunno else reject recipient organization_only))
          (Answers s (not anonymous))
  organization-Answers s recipient true = Runs-pure (Answers s false) _ (refl, refl)
  organization-Answers s recipient false = Runs-pure (Answers s true) _ (refl, refl)

  decide_group-Answers :
      (s : State) (recipient : Text) (g : GroupRow) (req : Request)
      → valid_post_policy g.post_policy ≡ true
      → Runs s (decide_group is_loopback req recipient g) (Answers s (may_post is_loopback s g req))
  unfolding decide_group
  decide_group-Answers s recipient g req valid = elim (Bool-cases (free g req)) [
    | inl yes_free ↦
        rw (yes_free, may_post-free s g req yes_free)
          (Runs-pure (Answers s true) dunno (refl, refl))
    | inr not_free ↦ elim (Bool-cases (text_eq g.post_policy post_organization)) [
      | inl org ↦
          rw (not_free, org, may_post-organization s g req not_free org)
            (organization-Answers s recipient (is_empty req.sasl_username))
      | inr other ↦
          rw (not_free, other, may_post-member s g req not_free other)
            (decide_member-Answers s recipient g _ _
              (by_role-Agrees recipient g.post_policy _ valid (ground arith) other))
    ]
  ]

  found-Answers :
      (s : State) (recipient : Text) (req : Request) (b : Bool)
      → ((g : GroupRow)
          → find_row recipient s ≡ some g
          → Runs s (decide_group is_loopback req recipient g) (Answers s b))
      → (find_row recipient s ≡ none → b ≡ true)
      → (r : Result (Option GroupRow)) (t : State) → Reads s (find_row recipient s) r t
      → Runs t (after_lookup is_loopback req recipient r) (Answers s b)
  unfolding after_lookup
  found-Answers s recipient req b on_group on_none (ok none) t (same_row, same_state) =
      Runs-pure (Answers s b) dunno (on_none (sym same_row), same_state)
  found-Answers s recipient req b on_group on_none (ok (some g)) t (same_row, same_state) =
      subst (λ u. Runs u (decide_group is_loopback req recipient g) (Answers s b)) (sym same_state)
        (on_group g (sym same_row))
  found-Answers s recipient req b on_group on_none (err e) t same_state =
      Runs-pure (Answers s b) defer (tt, same_state)

  -- If every group has one of the four policies, then whatever calls fail, a decision ends with
  -- an action and changes no table. It accepts only what the access rule of the recipient's group
  -- allows, and rejects only what the rule forbids, and nothing for a recipient that is no group.
  pub decide_refines :
      (s : State) (req : Request)
      → All (λ g. valid_post_policy g.post_policy ≡ true) s.groups
      → Runs s (decide is_loopback req) (Answers s (rule_for is_loopback s req))
  unfolding decide rule_for find_row
  decide_refines s req valid = elim (Bool-cases (is_empty (normalize req.recipient))) [
    | inl e ↦ rw e (Runs-pure (Answers s true) dunno (refl, refl))
    | inr e ↦ rw e (
        Runs-attempt-bind (Answers s _) _ _ (
          Runs_mono
            (found-Answers s (normalize req.recipient) req _
              (λ g found. rw found (
                decide_group-Answers s (normalize req.recipient) g req (
                  All-row_where (λ h. valid_post_policy h.post_policy ≡ true) _ s.groups g valid
                    found)))
              (λ found. rw found refl))
            (Runs-query (Reads s (find_row (normalize req.recipient) s)) _ refl (refl, refl))))
  ]

  -- Where no call fails, a decision is never put off.
  pub decide-ne-defer :
      (s : State) (req : Request)
      → (decide is_loopback req (record { state = s; faults = [] })).0 ≢ ok defer
  unfolding decide decide_group decide_member decide_role after_hosted after_lookup by_role
      member_role is_hosted_address attempt query ◌>>=◌ pure
  decide-ne-defer s req = ground arith
