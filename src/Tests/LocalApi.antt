-- ===== src/Tests/LocalApi.antt =====
-- Requests to the local API at concrete tables.
use patrabahok.Base.Table.{row_where}
use patrabahok.Invariant.History.{reachable-IsValid}
use patrabahok.Invariant.{IsValid}
use patrabahok.Keys.{hex}
use patrabahok.Db.Answers.{Answered}
use patrabahok.Base.{◌≡◌, refl, false, none, some, [], ◌∷◌, subst}
use patrabahok.Base.Text.{
  codes, text_eq, to_lower, trim_space, trim_prefix, trim_left, trim_right, has_prefix,
}
use patrabahok.Db.{same, State, TokenRow}
use patrabahok.Db.Rules.{Runs}
use patrabahok.Keys.Tokens.{token_with_hash, hash_token, has_scope, split_commas}
use patrabahok.LocalApi.{bearer}
use patrabahok.LocalApi.Server.{Route, scope_of, serve_route}
use patrabahok.LocalApi.Server.Scopes.{Denied, serve_route-Denied}
use patrabahok.LocalApi.Server.Tables.{serve_route-IsValid}
use patrabahok.Tests.Data.{grown_reachable, nothing_yet, plain, grown}

-- A token for mailboxes and aliases.
abbrev ci_token : TokenRow
ci_token = record {
  id = 1;
  name = codes "ci";
  token_hash = hex (codes "pbk_1");
  scopes = codes "mailbox,alias";
  created_at = 1;
  last_used_at = none;
}

abbrev with_token : State
with_token = record nothing_yet { tokens = ci_token ∷ []; next_token = 2 }

ci_token_found :
    token_with_hash (hash_token (trim_space (trim_prefix bearer (codes "Bearer pbk_1")))) with_token
    ≡ some ci_token
unfolding token_with_hash row_where same text_eq to_lower hex hash_token trim_space trim_right
    trim_left trim_prefix has_prefix
ci_token_found = refl

no_domain_scope : has_scope (split_commas ci_token.scopes) (codes "domain") ≡ false
unfolding has_scope split_commas text_eq
no_domain_scope = refl

lacks_domain_scope :
    (row : TokenRow)
    → token_with_hash
        (hash_token (trim_space (trim_prefix bearer (codes "Bearer pbk_1"))))
        with_token
      ≡ some row
    → has_scope (split_commas row.scopes) (scope_of (Route.domain_remove (codes "a.org"))) ≡ false
unfolding scope_of
lacks_domain_scope row h =
    let is_it : ci_token ≡ row = cc (ci_token_found, h) in
    subst (λ (x : TokenRow). has_scope (split_commas x.scopes) (codes "domain") ≡ false) is_it
      no_domain_scope

serve_route-Denied_example :
    Runs with_token
      (serve_route (codes "Bearer pbk_1") (Route.domain_remove (codes "a.org")))
      (Denied with_token)
serve_route-Denied_example =
    serve_route-Denied with_token (codes "Bearer pbk_1") (Route.domain_remove (codes "a.org"))
      lacks_domain_scope

serve_route-IsValid_example :
    Runs grown
      (serve_route (codes "Bearer pbk_1") (Route.mailbox_remove (codes "bob@a.org")))
      (Answered IsValid)
serve_route-IsValid_example =
    serve_route-IsValid grown (codes "Bearer pbk_1") (Route.mailbox_remove (codes "bob@a.org"))
      (reachable-IsValid grown grown_reachable)
