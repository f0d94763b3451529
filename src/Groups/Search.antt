-- ===== src/Groups/Search.antt =====
-- GroupList of cli/internal/mailbox/groups.go: the groups of a domain that a search finds.
use patrabahok.Base.{
  Bool, true, false, ◌&&◌, ◌||◌, none, some, List, [], ◌∷◌, ◌++◌, map, if◌then◌else◌, ◌==◌,
}
use patrabahok.Base.Text.{Text, text_lt, trim_space, is_empty}
use patrabahok.Base.Table.{rows_where, order_by}
use patrabahok.Db.{Env, State, GroupRow, M, query}
use patrabahok.Db.Like.{like, escape_like}
use patrabahok.Domains.{find_domain}
use patrabahok.Groups.{Group, group_view}

module _ ⦃env : Env⦄ where
  -- g.domain_id = (SELECT id …): no row for a domain that is not registered.
  unfoldable pub in_domain : Text → State → GroupRow → Bool
  in_domain domain s g =
      if is_empty domain
      then true
      else elim (find_domain domain s) [ none ↦ false | some d ↦ d.id == g.domain_id ]

  unfoldable pub is_found : Text → GroupRow → Bool
  is_found q g =
      if is_empty q
      then true
      else let pattern = b'%' ∷ escape_like q ++ b'%' ∷ [] in
        like pattern g.email || like pattern g.name

  unfoldable pub group_list : Text → Text → M (List Group)
  unfolding in_domain is_found
  group_list domain q = query (λ s. map (group_view s) (
      order_by (λ a b. text_lt (env.weight a.email) (env.weight b.email))
        (rows_where (λ g. in_domain domain s g && is_found (trim_space q) g) s.groups)))
