-- ===== src/Keys/Issued.antt =====
-- A token that Create of cli/internal/authtoken/authtoken.go issues is found by its hash, with the
-- scopes that it was given.
use patrabahok.Base.{
  ◌+◌, ◌≡◌, refl, ap, ◌∙◌, true, false, none, some, List, [], ◌∷◌, ◌++◌, any, All, if◌then◌else◌,
  arith, take,
}
use patrabahok.Base.Text.{Text, codes, text_eq_refl}
use patrabahok.Base.Table.{row_where, row_where-append}
use patrabahok.Address.{Result, ok, err, other, database}
use patrabahok.Db.{Env, State, TokenRow, same}
use patrabahok.Db.Rules.{
  Runs, Then, Runs-pure, Runs-bind, Runs-random-bind, Runs-exec-bind, Runs-refuse_if-bind,
}
use patrabahok.Keys.{hex}
use patrabahok.Keys.Tokens.{
  generate_plaintext, hash_token, insert_token, create, token_with_hash, split_commas, join_commas,
  no_scopes,
}
use patrabahok.Keys.Generated.{no_comma, split-join}

-- No scopes stand for all.
abbrev pub scopes_or_all : List Text → List Text
scopes_or_all scopes = if no_scopes scopes then codes "*" ∷ [] else scopes

module _ ⦃env : Env⦄ where
  abbrev pub next_token_text : State → Text
  next_token_text s = codes "pbk_" ++ hex (take 32 (s.entropy s.draws))

  abbrev pub Issued : Text → List Text → State → Result Text → State → Type 0
  Issued name scopes s (ok key) t =
      (row : TokenRow) × (token_with_hash (hash_token key) t ≡ some row)
      × (row.name ≡ name)
      × (split_commas row.scopes ≡ scopes_or_all scopes)
  Issued name scopes s (err e) t = t.tokens ≡ s.tokens

  read_back :
      (scopes : List Text)
      → All (λ s. no_comma s ≡ true) scopes
      → split_commas (join_commas (scopes_or_all scopes)) ≡ scopes_or_all scopes
  read_back [] h = split-join (codes "*" ∷ []) refl (refl, tt)
  read_back (a ∷ rest) h = split-join (a ∷ rest) refl h

  inserted :
      (name hash scopes : Text) (s : State)
      → any (λ t. same t.token_hash hash) s.tokens ≡ false
      → ((insert_token name hash scopes s).0 ≡ true)
        × (row : TokenRow) × (token_with_hash hash (insert_token name hash scopes s).1 ≡ some row)
        × (row.name ≡ name)
        × (row.scopes ≡ scopes)
  unfolding insert_token token_with_hash row_where same
  inserted name hash scopes s fresh = rw fresh (
    refl,
    record {
      id = s.next_token;
      name = name;
      token_hash = hash;
      scopes = scopes;
      created_at = s.now;
      last_used_at = none;
    },
    row_where-append _ s.tokens _ fresh ∙ rw text_eq_refl refl,
    refl,
    refl,
  )

  -- If no comma stands in the given scopes and the token that the random source gives has the
  -- hash of no row yet, then whatever calls fail, an issued token is found by its hash, with its
  -- name and exactly the given scopes, or the scope "*" where none is given; a failure leaves the
  -- tokens as they were.
  pub create-Issued :
      (name : Text) (scopes : List Text) (s : State)
      → All (λ a. no_comma a ≡ true) scopes
      → any (λ t. same t.token_hash (hash_token (next_token_text s))) s.tokens ≡ false
      → Runs s (create name scopes) (Issued name scopes s)
  unfolding create generate_plaintext
  create-Issued name scopes s plain fresh =
      let Q = Issued name scopes s in
      let key = next_token_text s in
      let s1 = record s { draws = s.draws + 1 } in
      let (stored, row, found, named, kept) =
        inserted name (hash_token key) (join_commas (scopes_or_all scopes)) s1 fresh in
      Runs-refuse_if-bind Q _ other _ (λ _. refl)
        (λ _. Runs-bind Q _ _ (
          Runs-random-bind (Then Q _) _ refl (
            Runs-pure (Then Q _) key (
              Runs-exec-bind Q
                (insert_token name (hash_token key) (join_commas (scopes_or_all scopes))) _ refl
                (Runs-refuse_if-bind Q _ database _ (λ bad. absurd (ground (arith, stored)))
                  (λ _.
                    Runs-pure Q key
                      (row, found, named, ap split_commas kept ∙ read_back scopes plain)))))))
