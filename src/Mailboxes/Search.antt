-- ===== src/Mailboxes/Search.antt =====
-- MailboxSearch and DomainStatsAll of cli/internal/mailbox/routing.go.
use patrabahok.Base.{
  ℕ, ◌≡◌, refl, sym, ap, ◌∙◌, Bool, true, false, ◌&&◌, ◌||◌, not, none, some, List, [], ◌∷◌, ◌++◌,
  map, if◌then◌else◌, ◌==◌, length, take, drop, suc, arith,
}
use patrabahok.Base.Text.{Text, codes, text_eq, text_lt, trim_space, is_empty}
use patrabahok.Base.Table.{rows_where, count_where, order_by, insert_by}
use patrabahok.Base.Int.{ℤ, pos, negsuc}
use patrabahok.Address.{Result, ok, err, database}
use patrabahok.Db.{Env, State, DomainRow, UserRow, M, pure, ◌>>=◌, query}
use patrabahok.Db.Like.{like, escape_like}
use patrabahok.Db.Page.{limit_or_default, page_of}
use patrabahok.Db.Rules.{Runs, Then, Runs-query-bind, Runs-bind, Runs-pure, Runs-fail}
use patrabahok.Domains.{find_domain}
use patrabahok.Mailboxes.{Mailbox, full_view}
use patrabahok.Aliases.{is_catch_all}

pub record MailboxFilter : Type 0 where
  pub domain : Text
  pub query : Text
  pub status : Text
  pub limit : ℤ
  pub offset : ℤ

pub record DomainStats : Type 0 where
  pub users : ℕ
  pub suspended : ℕ
  pub groups : ℕ
  pub aliases : ℕ

unfoldable pub has_status : Text → UserRow → Bool
has_status status u =
    if text_eq status (codes "active")
    then u.enabled
    else if text_eq status (codes "suspended")
    then not u.enabled
    else true

module _ ⦃env : Env⦄ where
  unfoldable pub user_in_domain : Text → State → UserRow → Bool
  user_in_domain domain s u =
      if is_empty domain
      then true
      else elim (find_domain domain s) [ none ↦ false | some d ↦ d.id == u.domain_id ]

  unfoldable pub user_is_found : Text → UserRow → Bool
  user_is_found q u =
      if is_empty q
      then true
      else let pattern = b'%' ∷ escape_like q ++ b'%' ∷ [] in
        like pattern u.email || like pattern u.display_name

  -- The conditions joined by AND.
  unfoldable pub satisfies : MailboxFilter → State → UserRow → Bool
  unfolding user_in_domain user_is_found has_status
  satisfies f s u =
      user_in_domain f.domain s u && user_is_found (trim_space f.query) u && has_status f.status u

  unfoldable pub sorted_matches : MailboxFilter → State → List UserRow
  unfolding satisfies
  sorted_matches f s =
      order_by (λ a b. text_lt (env.weight a.email) (env.weight b.email))
        (rows_where (satisfies f s) s.users)

  unfoldable pub mailbox_search : MailboxFilter → M (List Mailbox × ℕ)
  unfolding sorted_matches
  mailbox_search f = do
    total ← query (λ s. length (rows_where (satisfies f s) s.users))
    rows ← query (sorted_matches f)
    page ← page_of f.offset (limit_or_default f.limit) rows
    pure (map full_view page, total)

  unfoldable pub stats_of : State → DomainRow → Text × DomainStats
  stats_of s d = (
    d.name,
    record {
      users = count_where (λ u. u.domain_id == d.id) s.users;
      suspended = count_where (λ u. u.domain_id == d.id && not u.enabled) s.users;
      groups = count_where (λ g. g.domain_id == d.id) s.groups;
      aliases = count_where (λ a. a.domain_id == d.id && not (is_catch_all a)) s.aliases;
    },
  )

  unfoldable pub domain_stats_all : M (List (Text × DomainStats))
  unfolding stats_of
  domain_stats_all = query (λ s. map (stats_of s) s.domains)

module _ {A : Type 0} (before : A → A → Bool) where
  length-insert_by : (r : A) (rs : List A) → length (insert_by before r rs) ≡ suc (length rs)
  unfolding insert_by
  length-insert_by r [] = refl
  length-insert_by r (x ∷ rs) = ground (arith, length-insert_by r rs)

  length-order_by : (rs : List A) → length (order_by before rs) ≡ length rs
  unfolding order_by
  length-order_by [] = refl
  length-order_by (r ∷ rs) = length-insert_by r _ ∙ ap suc (length-order_by rs)

module _ ⦃env : Env⦄ where
  -- A page of the one sorted list of the matches, whose length is the total; the tables are unchanged.
  abbrev pub IsPage : MailboxFilter → State → Result (List Mailbox × ℕ) → State → Type 0
  IsPage f s (ok (page, total)) t =
      (n : ℕ) × (f.offset ≡ pos n)
      × (page ≡ map full_view (take (limit_or_default f.limit) (drop n (sorted_matches f s))))
      × (total ≡ length (sorted_matches f s))
      × (t ≡ s)
  IsPage f s (err e) t = (e ≡ database) × (t ≡ s)

  total_is :
      (f : MailboxFilter) (s : State)
      → length (rows_where (satisfies f s) s.users) ≡ length (sorted_matches f s)
  unfolding sorted_matches
  total_is f s = sym (length-order_by _ _)

  page_of-IsPage :
      (f : MailboxFilter) (s : State) (total : ℕ) (offset : ℤ)
      → f.offset ≡ offset
      → total ≡ length (sorted_matches f s)
      → Runs s
          (page_of offset (limit_or_default f.limit) (sorted_matches f s) >>= λ page.
            pure (map full_view page, total))
          (IsPage f s)
  unfolding page_of
  page_of-IsPage f s total (pos n) is_it sum =
      Runs-bind (IsPage f s) _ _
        (Runs-pure (Then (IsPage f s) _) _ (Runs-pure (IsPage f s) _ (n, is_it, refl, sum, refl)))
  page_of-IsPage f s total (negsuc n) is_it sum =
      Runs-bind (IsPage f s) _ _ (Runs-fail (Then (IsPage f s) _) database (refl, refl))

  pub mailbox_search-IsPage :
      (f : MailboxFilter) (s : State) → Runs s (mailbox_search f) (IsPage f s)
  unfolding mailbox_search
  mailbox_search-IsPage f s =
      Runs-query-bind (IsPage f s) _ _ (refl, refl)
        (Runs-query-bind (IsPage f s) (sorted_matches f) _ (refl, refl)
          (page_of-IsPage f s _ f.offset refl (total_is f s)))
