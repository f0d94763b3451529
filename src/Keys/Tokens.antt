-- ===== src/Keys/Tokens.antt =====
-- cli/internal/authtoken/authtoken.go: the bearer tokens of the local API and their scopes.
use patrabahok.Base.{
  ℕ, ◌+◌, Bool, true, false, ◌||◌, not, Option, none, some, List, [], ◌∷◌, ◌++◌, map, if◌then◌else◌,
  any, ltb, ◌==◌, take,
}
use patrabahok.Base.Text.{Text, codes, text_eq, is_empty}
use patrabahok.Base.Table.{row_where, delete_where, update_where, count_where, order_by}
use patrabahok.Address.{other, database}
use patrabahok.Db.{
  Env, State, TokenRow, M, pure, ◌>>=◌, ◌>>◌, exec, query, refuse_if, attempt, random, same,
}
use patrabahok.Base.Split.{split_on}
use patrabahok.Keys.{hex}

pub record TokenInfo : Type 0 where
  pub id : ℕ
  pub name : Text
  pub scopes : List Text
  pub created_at : ℕ
  pub last_used_at : Option ℕ

unfoldable pub has_scope : List Text → Text → Bool
has_scope scopes required = any (λ s. text_eq s (codes "*") || text_eq s required) scopes

-- strings.Split of a scopes column: the parts between the commas.
unfoldable pub split_commas : Text → List Text
unfolding split_on
split_commas s = split_on b',' s

-- strings.Join(scopes, ",")
unfoldable pub join_commas : List Text → Text
join_commas [] = []
join_commas (a ∷ []) = a
join_commas (a ∷ b ∷ rest) = a ++ b',' ∷ join_commas (b ∷ rest)

unfoldable pub token_info : TokenRow → TokenInfo
unfolding split_commas
token_info t = record {
  id = t.id;
  name = t.name;
  scopes = split_commas t.scopes;
  created_at = t.created_at;
  last_used_at = t.last_used_at;
}

abbrev pub no_scopes : List Text → Bool
no_scopes [] = true
no_scopes (s ∷ ss) = false

module _ ⦃env : Env⦄ where
  unfoldable pub generate_plaintext : M Text
  generate_plaintext = do drawn ← random; pure (codes "pbk_" ++ hex (take 32 drawn))

  unfoldable pub hash_token : Text → Text
  hash_token plaintext = hex (env.sha256 plaintext)

  -- INSERT INTO api_tokens; false if the key on the hash is taken.
  unfoldable pub insert_token : Text → Text → Text → State → Bool × State
  insert_token name hash scopes s =
      if any (λ t. same t.token_hash hash) s.tokens then (false, s) else (
        true,
        record s {
          tokens =
              s.tokens
              ++ record {
                id = s.next_token;
                name = name;
                token_hash = hash;
                scopes = scopes;
                created_at = s.now;
                last_used_at = none;
              }
                ∷ [];
          next_token = s.next_token + 1;
        },
      )

  unfoldable pub create : Text → List Text → M Text
  unfolding generate_plaintext hash_token insert_token join_commas
  create name scopes = do
    refuse_if (is_empty name) other
    plaintext ← generate_plaintext
    stored ← exec (
        insert_token name (hash_token plaintext)
          (join_commas (if no_scopes scopes then codes "*" ∷ [] else scopes)))
    refuse_if (not stored) database
    pure plaintext

  unfoldable pub list_tokens : M (List TokenInfo)
  unfolding token_info
  list_tokens = query (λ s. map token_info (order_by (λ a b. ltb a.id b.id) s.tokens))

  unfoldable pub delete_token : Text → State → ℕ × State
  delete_token name s = (
    count_where (λ t. same t.name name) s.tokens,
    record s { tokens = delete_where (λ t. same t.name name) s.tokens },
  )

  unfoldable pub revoke : Text → M (Unit {0})
  unfolding delete_token
  revoke name = do n ← exec (delete_token name); refuse_if (n == 0) other

  unfoldable pub token_with_hash : Text → State → Option TokenRow
  token_with_hash hash s = row_where (λ t. same t.token_hash hash) s.tokens

  unfoldable pub mark_token : ℕ → State → Unit {0} × State
  mark_token id s = (
    tt,
    record s {
      tokens =
          update_where (λ t. t.id == id) (λ t. record t { last_used_at = some s.now }) s.tokens;
    },
  )

  -- `none` is ErrInvalidToken. The times of the result are not set: they read 0 and `none`.
  unfoldable pub verified : Option TokenRow → M (Option TokenInfo)
  unfolding mark_token split_commas
  verified none = pure none
  verified (some t) = do
    marked ← attempt (exec (mark_token t.id))
    pure (
        some (record {
          id = t.id;
          name = t.name;
          scopes = split_commas t.scopes;
          created_at = 0;
          last_used_at = none;
        }))

  unfoldable pub verify : Text → M (Option TokenInfo)
  unfolding verified token_with_hash hash_token
  verify plaintext =
      if is_empty plaintext
      then pure none
      else do found ← query (token_with_hash (hash_token plaintext)); verified found
