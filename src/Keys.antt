-- ===== src/Keys.antt =====
-- The credentials of the two APIs: cli/internal/domainkey/domainkey.go, the key of a domain. The
-- tokens of cli/internal/authtoken/authtoken.go are in Keys/Tokens.
pub mod Tokens
pub mod Generated
pub mod Issued
use patrabahok.Base.{
  ◌%◌, ◌/◌, ◌-◌, ℕ, ◌+◌, ◌≡◌, Bool, true, false, ◌&&◌, ◌||◌, not, Option, none, some, List, [], ◌∷◌,
  ◌++◌, map, if◌then◌else◌, any, ltb, ◌==◌, length, take, drop,
}
use patrabahok.Base.Text.{Text, codes, text_lt, has_prefix}
use patrabahok.Base.Table.{rows_where, row_where, delete_where, update_where, count_where, order_by}
use patrabahok.Address.{other, database}
use patrabahok.Db.{
  Env, State, DomainRow, KeyRow, M, pure, fail, ◌>>=◌, ◌>>◌, exec, query, refuse_if, attempt,
  random, same,
}
use patrabahok.Domains.{find_domain}

-- hex.EncodeToString
abbrev pub hex_digit : ℕ → ℕ
hex_digit n = if ltb n 10 then b'0' + n else b'W' + n

unfoldable pub hex : Text → Text
hex [] = []
hex (b ∷ s) = hex_digit (b / 16) ∷ hex_digit (b % 16) ∷ hex s

abbrev pub key_prefix : Text
key_prefix = codes "pbd_"

pub record KeyInfo : Type 0 where
  pub domain : Text
  pub hint : Text
  pub created_at : ℕ
  pub last_used_at : Option ℕ

module _ ⦃env : Env⦄ where
  unfoldable pub hash_key : Text → Text
  hash_key plaintext = hex (env.sha256 plaintext)

  unfoldable pub has_hash : Text → KeyRow → Bool
  has_hash hash k = same k.key_hash hash

  -- The columns that ON DUPLICATE KEY UPDATE sets.
  unfoldable pub renewed : KeyRow → KeyRow → KeyRow
  renewed row k = record k {
    key_hash = row.key_hash;
    key_hint = row.key_hint;
    created_at = row.created_at;
    last_used_at = none;
  }

  -- INSERT … ON DUPLICATE KEY UPDATE, with a key on the domain and one on the hash. The result is
  -- false if the row of the domain would take the hash of another one.
  unfoldable pub upsert_key : KeyRow → State → Bool × State
  unfolding has_hash renewed
  upsert_key row s =
      if any (λ k. k.domain_id == row.domain_id) s.keys
      then (if any (λ k. not (k.domain_id == row.domain_id) && has_hash row.key_hash k) s.keys
          then (false, s)
          else (
            true,
            record s {
              keys = update_where (λ k. k.domain_id == row.domain_id) (renewed row) s.keys;
            },
          ))
      else if any (has_hash row.key_hash) s.keys
      then (true, record s { keys = update_where (has_hash row.key_hash) (renewed row) s.keys })
      else (true, record s { keys = s.keys ++ row ∷ [] })

  unfoldable pub new_key : ℕ → Text → ℕ → KeyRow
  unfolding hash_key
  new_key id plaintext now = record {
    domain_id = id;
    key_hash = hash_key plaintext;
    key_hint = drop (length plaintext - 6) plaintext;
    created_at = now;
    last_used_at = none;
  }

  unfoldable pub generate_for : Option DomainRow → M Text
  unfolding upsert_key new_key hex
  generate_for none = fail other
  generate_for (some d) = do
    drawn ← random
    let plaintext = key_prefix ++ hex (take 32 drawn)
    stored ← exec (λ s. upsert_key (new_key d.id plaintext s.now) s)
    refuse_if (not stored) database
    pure plaintext

  unfoldable pub generate : Text → M Text
  unfolding generate_for
  generate domain = do found ← query (find_domain domain); generate_for found

  -- The join with virtual_domains; `none` for a row without a domain.
  unfoldable pub domain_of_key : State → KeyRow → Option DomainRow
  domain_of_key s k = row_where (λ d. d.id == k.domain_id) s.domains

  unfoldable pub key_info : State → KeyRow → List KeyInfo
  unfolding domain_of_key
  key_info s k = elim (domain_of_key s k) [
    | none ↦ []
    | some d ↦
        record {
          domain = d.name;
          hint = k.key_hint;
          created_at = k.created_at;
          last_used_at = k.last_used_at;
        }
        ∷ []
  ]

  unfoldable pub key_infos : State → List KeyRow → List KeyInfo
  unfolding key_info
  key_infos s [] = []
  key_infos s (k ∷ ks) = key_info s k ++ key_infos s ks

  unfoldable pub list_keys : M (List KeyInfo)
  list_keys = query (λ s.
      order_by (λ a b. text_lt (env.weight a.domain) (env.weight b.domain)) (key_infos s s.keys))

  unfoldable pub is_key_of : State → Text → KeyRow → Bool
  is_key_of s domain k = any (λ d. d.id == k.domain_id && same d.name domain) s.domains

  unfoldable pub delete_key : Text → State → ℕ × State
  unfolding is_key_of
  delete_key domain s = (
    count_where (is_key_of s domain) s.keys,
    record s { keys = delete_where (is_key_of s domain) s.keys },
  )

  unfoldable pub revoke : Text → M (Unit {0})
  unfolding delete_key
  revoke domain = do n ← exec (delete_key domain); refuse_if (n == 0) other

  -- SELECT … WHERE k.key_hash = ?, the id and the name of the domain.
  unfoldable pub domain_with_key : Text → State → Option DomainRow
  unfolding has_hash hash_key domain_of_key
  domain_with_key plaintext s = elim (row_where (has_hash (hash_key plaintext)) s.keys) [
    | none ↦ none
    | some k ↦ domain_of_key s k
  ]

  unfoldable pub mark_key : ℕ → State → Unit {0} × State
  mark_key id s = (
    tt,
    record s {
      keys =
          update_where (λ k. k.domain_id == id) (λ k. record k { last_used_at = some s.now })
            s.keys;
    },
  )

  -- `none` is ErrInvalidKey. The error of the UPDATE is dropped.
  unfoldable pub verified : Option DomainRow → M (Option Text)
  unfolding mark_key
  verified none = pure none
  verified (some d) = do marked ← attempt (exec (mark_key d.id)); pure (some d.name)

  unfoldable pub verify : Text → M (Option Text)
  unfolding verified domain_with_key
  verify plaintext =
      if not (has_prefix key_prefix plaintext)
      then pure none
      else do found ← query (domain_with_key plaintext); verified found
