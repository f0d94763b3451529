-- ===== src/LocalApi/Server/Scopes.antt =====
-- Without a token that has its scope, a request to the local API is refused and changes nothing.
use patrabahok.Base.Table.{update_where}
use patrabahok.Base.{
  inr, List, ℕ, inl, ◌∙◌, Bool, map, ap, Bool-cases, ◌≡◌, refl, true, false, Option, none, some,
  ◌∷◌, [], any, ◌==◌,
}
use patrabahok.Base.Text.{is_empty, has_prefix, Text, trim_space, trim_prefix}
use patrabahok.Address.{Result, ok, err}
use patrabahok.Db.{Env, State, M, TokenRow, exec}
use patrabahok.Db.Rules.{Runs, Runs-pure, Runs-attempt-bind, Runs-exec, Runs-query-bind, Runs_mono}
use patrabahok.Keys.Tokens.{
  TokenInfo, has_scope, verify, verified, mark_token, token_with_hash, hash_token, split_commas,
}
use patrabahok.LocalApi.{Reply, error_message, bearer, admit_token, require_scope}
use patrabahok.LocalApi.Server.{Route, scope_of, run_route, serve_route}

-- A token without the time of its last use.
abbrev pub unmarked : TokenRow → TokenRow
unmarked t = record t { last_used_at = none }

-- Nothing is different but when tokens were last used.
abbrev pub OnlyMarks : State → State → Type 0
OnlyMarks s t =
    (record t { tokens = s.tokens } ≡ s) × (map unmarked t.tokens ≡ map unmarked s.tokens)

abbrev pub Denied : State → Result Reply → State → Type 0
Denied s (ok a) t =
    (any (λ n. a.status == n) (401 ∷ 403 ∷ []) ≡ true) × (a.payload ≡ error_message) × OnlyMarks s t
Denied s (err e) t = ⊥

-- What Verify says of a token whose row is `found`.
abbrev Reports : State → Option TokenRow → Result (Option TokenInfo) → State → Type 0
Reports s found (err e) t = OnlyMarks s t
Reports s found (ok none) t = OnlyMarks s t
Reports s found (ok (some token)) t =
    (row : TokenRow) × (found ≡ some row) × (token.scopes ≡ split_commas row.scopes) × OnlyMarks s t

mark-unmarked :
    (p : TokenRow → Bool) (now : Option ℕ) (ts : List TokenRow)
    → map unmarked (update_where p (λ t. record t { last_used_at = now }) ts) ≡ map unmarked ts
unfolding update_where
mark-unmarked p now [] = refl
mark-unmarked p now (t ∷ ts) = elim (Bool-cases (p t)) [
  | inl e ↦ rw e (ap (λ r. unmarked t ∷ r) (mark-unmarked p now ts))
  | inr e ↦ rw e (ap (λ r. unmarked t ∷ r) (mark-unmarked p now ts))
]

module _ ⦃env : Env⦄ where
  verified-Reports :
      (s : State) (found : Option TokenRow) → Runs s (verified found) (Reports s found)
  unfolding verified mark_token
  verified-Reports s none = Runs-pure (Reports s none) none (refl, refl)
  verified-Reports s (some d) = Runs-attempt-bind (Reports s (some d)) (exec (mark_token d.id)) _ (
      Runs-exec _ (mark_token d.id) (Runs-pure (Reports s (some d)) _ (d, refl, refl, (refl, refl)))
        (Runs-pure (Reports s (some d)) _ (d, refl, refl, (refl, mark-unmarked _ _ s.tokens))))

  verify-Reports :
      (s : State) (key : Text)
      → Runs s (verify key) (Reports s (token_with_hash (hash_token key) s))
  unfolding verify
  verify-Reports s key = elim (Bool-cases (is_empty key)) [
    | inl e ↦ rw e (Runs-pure (Reports s (token_with_hash (hash_token key) s)) none (refl, refl))
    | inr e ↦ rw e (
        Runs-query-bind (Reports s (token_with_hash (hash_token key) s))
          (token_with_hash (hash_token key)) _ (refl, refl)
          (verified-Reports s (token_with_hash (hash_token key) s)))
  ]

  admit_token-Denied :
      (s : State) (scope : Text) (h : M Reply) (found : Option TokenRow)
      → ((row : TokenRow) → found ≡ some row → has_scope (split_commas row.scopes) scope ≡ false)
      → (r : Result (Option TokenInfo)) (t : State) → Reports s found r t
      → Runs t (admit_token scope h r) (Denied s)
  unfolding admit_token
  admit_token-Denied s scope h found lacks (err e) t k = Runs-pure (Denied s) _ (refl, refl, k)
  admit_token-Denied s scope h found lacks (ok none) t k = Runs-pure (Denied s) _ (refl, refl, k)
  admit_token-Denied s scope h found lacks (ok (some token)) t (row, is_it, scopes, k) =
      rw (ap (λ x. has_scope x scope) scopes ∙ lacks row is_it)
        (Runs-pure (Denied s) _ (refl, refl, k))

  -- If the token of a request is that of no row, or of a row whose scopes hold neither "*" nor
  -- the scope of the endpoint, then whatever calls fail, the request is answered with an error of
  -- status 401 or 403, and nothing of the state changes but when tokens were last used.
  pub serve_route-Denied :
      (s : State) (authorization : Text) (route : Route)
      → ((row : TokenRow)
          → token_with_hash (hash_token (trim_space (trim_prefix bearer authorization))) s
            ≡ some row
          → has_scope (split_commas row.scopes) (scope_of route) ≡ false)
      → Runs s (serve_route authorization route) (Denied s)
  unfolding serve_route require_scope
  serve_route-Denied s authorization route lacks =
      elim (Bool-cases (has_prefix bearer authorization)) [
        | inl e ↦ rw e (
            Runs-attempt-bind (Denied s) _ _ (
              Runs_mono (admit_token-Denied s (scope_of route) (run_route route) _ lacks)
                (verify-Reports s (trim_space (trim_prefix bearer authorization)))))
        | inr e ↦ rw e (Runs-pure (Denied s) _ (refl, refl, (refl, refl)))
      ]
