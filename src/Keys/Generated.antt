-- ===== src/Keys/Generated.antt =====
-- A generated key is the key of its domain, and the scopes of a token read back.
use patrabahok.Base.{
  ◌+◌, inr, inl, ℕ, ◌≡◌, refl, ap, ◌∙◌, Bool, true, false, ◌&&◌, not, Option, none, some, List, [],
  ◌∷◌, ◌++◌, any, All, ◌==◌, Bool-cases, arith, take,
}
use patrabahok.Base.Text.{Text, text_eq_refl}
use patrabahok.Base.Table.{row_where, update_where, row_where-append}
use patrabahok.Address.{Result, ok, err, database, other}
use patrabahok.Db.{Env, State, DomainRow, KeyRow, same}
use patrabahok.Db.Rules.{
  Runs, Runs-fail, Runs-pure, Runs-query-bind, Runs-random-bind, Runs-exec-bind,
  Runs-refuse_if-bind,
}
use patrabahok.Domains.{find_domain}
use patrabahok.Keys.{
  hex, key_prefix, hash_key, has_hash, renewed, upsert_key, new_key, generate_for, generate,
  domain_of_key, domain_with_key,
}
use patrabahok.Base.Split.{has_none, split_on_plain, split_on-append}
use patrabahok.Keys.Tokens.{split_commas, join_commas, no_scopes}

module _ ⦃env : Env⦄ where
  same_refl : (a : Text) → same a a ≡ true
  unfolding same
  same_refl a = text_eq_refl (env.weight a)

  found_at_end :
      (hash : Text) (row : KeyRow) (ks : List KeyRow)
      → row.key_hash ≡ hash
      → any (has_hash hash) ks ≡ false
      → row_where (has_hash hash) (ks ++ row ∷ []) ≡ some row
  unfolding row_where has_hash
  found_at_end hash row [] is_it h = rw is_it (rw same_refl refl)
  found_at_end hash row (k ∷ ks) is_it h =
      row_where-append (has_hash hash) (k ∷ ks) (row ∷ []) h ∙ rw is_it (rw same_refl refl)

  domain_of_updated :
      (s : State) (id : ℕ) (row : KeyRow) (ks : List KeyRow)
      → any (λ k. k.domain_id == id) ks ≡ true
      → any (has_hash row.key_hash) ks ≡ false
      → (k : KeyRow) × (row_where
            (has_hash row.key_hash)
            (update_where (λ k. k.domain_id == id) (renewed row) ks)
          ≡ some k)
        × (k.domain_id ≡ id)
  unfolding row_where update_where renewed has_hash
  domain_of_updated s id row [] h n = cc
  domain_of_updated s id row (k ∷ ks) h n = elim (Bool-cases (k.domain_id == id)) [
    | inl e ↦ (renewed row k, rw e (rw same_refl refl), ground arith)
    | inr e ↦
        let (r, found, own) = domain_of_updated s id row ks (ground arith) (ground arith) in
        let other_hash : same k.key_hash row.key_hash ≡ false = ground arith in
        (r, rw e (rw other_hash found), own)
  ]

  -- What generate ends with: the key opens the domain, or the keys are the old ones.
  abbrev pub Opens : Text → State → Result Text → State → Type 0
  Opens domain s (ok key) t =
      (d : DomainRow) × (find_domain domain s ≡ some d)
      × (domain_with_key key t ≡ row_where (λ e. e.id == d.id) s.domains)
  Opens domain s (err e) t = t.keys ≡ s.keys

  domain_with_row :
      (key : Text) (t : State) (k : KeyRow) (id : ℕ)
      → row_where (has_hash (hash_key key)) t.keys ≡ some k
      → k.domain_id ≡ id
      → domain_with_key key t ≡ row_where (λ e. e.id == id) t.domains
  unfolding domain_with_key domain_of_key
  domain_with_row key t k id found own = rw (domain_with_key, found) (rw own refl)

  no_collision :
      (row : KeyRow) (ks : List KeyRow)
      → any (has_hash row.key_hash) ks ≡ false
      → any (λ k. not (k.domain_id == row.domain_id) && has_hash row.key_hash k) ks ≡ false
  no_collision row [] h = refl
  no_collision row (k ∷ ks) h = ground (arith, no_collision row ks (ground arith))

  upserted :
      (row : KeyRow) (s : State)
      → any (has_hash row.key_hash) s.keys ≡ false
      → ((upsert_key row s).0 ≡ true)
        × (k : KeyRow) × (row_where (has_hash row.key_hash) (upsert_key row s).1.keys ≡ some k)
        × (k.domain_id ≡ row.domain_id)
        × ((upsert_key row s).1.domains ≡ s.domains)
  unfolding upsert_key
  upserted row s fresh = elim (Bool-cases (any (λ k. k.domain_id == row.domain_id) s.keys)) [
    | inl old ↦
        let (k, found, own) = domain_of_updated s row.domain_id row s.keys old fresh in
        rw (old, no_collision row s.keys fresh) (refl, k, found, own, refl)
    | inr new ↦
        rw (new, fresh) (refl, row, found_at_end row.key_hash row s.keys refl fresh, refl, refl)
  ]

  generate_for-Opens :
      (domain : Text) (s : State) (found : Option DomainRow)
      → find_domain domain s ≡ found
      → any (has_hash (hash_key (key_prefix ++ hex (take 32 (s.entropy s.draws))))) s.keys ≡ false
      → Runs s (generate_for found) (Opens domain s)
  unfolding generate_for new_key
  generate_for-Opens domain s none is_it fresh = Runs-fail (Opens domain s) other refl
  generate_for-Opens domain s (some d) is_it fresh =
      let key = key_prefix ++ hex (take 32 (s.entropy s.draws)) in
      let s1 = record s { draws = s.draws + 1 } in
      let (stored, k, found, own, same_domains) = upserted (new_key d.id key s.now) s1 fresh in
      Runs-random-bind (Opens domain s) _ refl (
        Runs-exec-bind (Opens domain s) _ _ refl (
          Runs-refuse_if-bind (Opens domain s) _ database _ (λ bad. absurd (ground (arith, stored)))
            (λ _. Runs-pure (Opens domain s) key (
              d,
              is_it,
              domain_with_row key _ k d.id found own
                  ∙ ap (row_where (λ e. e.id == d.id)) same_domains,
            ))))

  -- If the key that the random source gives is the key of no row yet, then whatever calls fail, a
  -- generated key is from then on the key of the row with the id of the named domain, and a
  -- failure leaves the keys as they were.
  pub generate-Opens :
      (domain : Text) (s : State)
      → any (has_hash (hash_key (key_prefix ++ hex (take 32 (s.entropy s.draws))))) s.keys ≡ false
      → Runs s (generate domain) (Opens domain s)
  unfolding generate
  generate-Opens domain s fresh =
      Runs-query-bind (Opens domain s) (find_domain domain) generate_for refl
        (generate_for-Opens domain s (find_domain domain s) refl fresh)

abbrev pub no_comma : Text → Bool
no_comma s = has_none b',' s

-- A list of scopes that is not empty, and in whose scopes no comma stands, is read back from the
-- column that it was joined into.
pub split-join :
    (scopes : List Text)
    → no_scopes scopes ≡ false
    → All (λ s. no_comma s ≡ true) scopes
    → split_commas (join_commas scopes) ≡ scopes
unfolding join_commas split_commas
split-join [] h k = absurd (ground arith)
split-join (a ∷ []) h k = split_on_plain b',' a k.0
split-join (a ∷ b ∷ rest) h k =
    split_on-append b',' a (join_commas (b ∷ rest)) k.0
    ∙ ap (λ ss. a ∷ ss) (split-join (b ∷ rest) refl k.1)
