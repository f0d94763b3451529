-- ===== src/PublicApi/Server/Isolation/Statements.antt =====
-- The statements on the mail of one address leave the mail of another one alone.
use patrabahok.Base.{
  inr, inl, ◌≡◌, refl, ◌∙◌, Bool, true, false, ◌&&◌, List, [], ◌∷◌, ◌++◌, any, Bool-cases, arith,
}
use patrabahok.Base.Text.{Text, text_eq_iff}
use patrabahok.Base.Table.{rows_where, delete_where, update_where}
use patrabahok.Db.{Env, State, UserRow, AliasRow, ForwardRow, same}
use patrabahok.Mailboxes.{insert_user}
use patrabahok.Mailboxes.Change.{delete_user, update_user}
use patrabahok.Aliases.{insert_alias, delete_alias, upsert_forward, has_pair}
use patrabahok.Domains.{has_user}

module _ {A : Type 0} (q : A → Bool) where
  rows-append : (xs : List A) (r : A) → q r ≡ false → rows_where q (xs ++ r ∷ []) ≡ rows_where q xs
  unfolding rows_where
  rows-append [] r h = rw h refl
  rows-append (x ∷ xs) r h = rw (rows-append xs r h) refl

  rows-delete :
      (p : A → Bool) (xs : List A)
      → ((r : A) → p r ≡ true → q r ≡ false)
      → rows_where q (delete_where p xs) ≡ rows_where q xs
  unfolding rows_where delete_where
  rows-delete p [] h = refl
  rows-delete p (x ∷ xs) h = elim (Bool-cases (p x)) [
    | inl e ↦ rw (e, h x e) (rows-delete p xs h)
    | inr e ↦ rw (e, rows-delete p xs h) refl
  ]

  rows-update :
      (p : A → Bool) (f : A → A) (xs : List A)
      → ((r : A) → p r ≡ true → q r ≡ false)
      → ((r : A) → p r ≡ true → q (f r) ≡ false)
      → rows_where q (update_where p f xs) ≡ rows_where q xs
  unfolding rows_where update_where
  rows-update p f [] h k = refl
  rows-update p f (x ∷ xs) h k = elim (Bool-cases (p x)) [
    | inl e ↦ rw (e, h x e, k x e) (rows-update p f xs h k)
    | inr e ↦ rw (e, rows-update p f xs h k) refl
  ]

module _ ⦃env : Env⦄ where
  abbrev pub user_rows : Text → List UserRow → List UserRow
  user_rows x us = rows_where (λ u. same u.email x) us

  abbrev pub alias_rows : Text → List AliasRow → List AliasRow
  alias_rows x as_ = rows_where (λ a. same a.source x) as_

  abbrev pub forward_rows : Text → List ForwardRow → List ForwardRow
  forward_rows x fs = rows_where (λ f. same f.email x) fs

  -- The mailbox, the aliases and the forward of the address are the same in both states.
  pub record Untouched (s : State) (x : Text) (t : State) : Type 0 where
    pub users : user_rows x t.users ≡ user_rows x s.users
    pub aliases : alias_rows x t.aliases ≡ alias_rows x s.aliases
    pub forwards : forward_rows x t.forwards ≡ forward_rows x s.forwards

  apart : (a e x : Text) → same a e ≡ true → same x e ≡ false → same a x ≡ false
  unfolding same
  apart a e x h k = ground (
    arith,
    text_eq_iff (env.weight a) (env.weight e),
    text_eq_iff (env.weight a) (env.weight x),
    text_eq_iff (env.weight x) (env.weight e),
  )

  own_apart : (e x : Text) → same x e ≡ false → same e x ≡ false
  unfolding same
  own_apart e x k =
      ground (
        arith,
        text_eq_iff (env.weight e) (env.weight x),
        text_eq_iff (env.weight x) (env.weight e),
      )

module _ ⦃env : Env⦄ {s : State} (x e : Text) (outside : same x e ≡ false) (t : State)
    (h : Untouched s x t) where
  pub Untouched-insert_user : (row : UserRow) → row.email ≡ e → Untouched s x (insert_user row t).1
  unfolding insert_user
  Untouched-insert_user row is_it = elim (Bool-cases (has_user row.email t)) [
    | inl old ↦ rw old h
    | inr new ↦ rw new (record {
      users =
          rows-append (λ u. same u.email x) t.users row (rw is_it (own_apart e x outside))
          ∙ h.users;
      aliases = h.aliases;
      forwards = h.forwards;
    })
  ]

  pub Untouched-update_user :
      (keeps : UserRow → Bool) (f : UserRow → UserRow)
      → ((u : UserRow) → (f u).email ≡ u.email)
      → Untouched s x (update_user e keeps f t).1
  unfolding update_user
  Untouched-update_user keeps f same_email = record {
    users =
        rows-update (λ u. same u.email x) (λ u. same u.email e) f t.users
          (λ u k. apart u.email e x k outside)
          (λ u k. rw (same_email u) (apart u.email e x k outside))
        ∙ h.users;
    aliases = h.aliases;
    forwards = h.forwards;
  }

  forward_of_user :
      (us : List UserRow) (f : Text)
      → any (λ u. same u.email e && same u.email f) us ≡ true
      → same f e ≡ true
  unfolding same
  forward_of_user [] f k = cc
  forward_of_user (u ∷ us) f k = elim (Bool-cases (same u.email e && same u.email f)) [
    | inl y ↦ ground (
      arith,
      text_eq_iff (env.weight u.email) (env.weight e),
      text_eq_iff (env.weight u.email) (env.weight f),
      text_eq_iff (env.weight f) (env.weight e),
    )
    | inr n ↦ forward_of_user us f (ground arith)
  ]

  pub Untouched-delete_user : Untouched s x (delete_user e t).1
  unfolding delete_user
  Untouched-delete_user = record {
    users =
        rows-delete (λ u. same u.email x) (λ u. same u.email e) t.users
          (λ u k. apart u.email e x k outside)
        ∙ h.users;
    aliases = h.aliases;
    forwards =
        rows-delete (λ f. same f.email x) _ t.forwards
          (λ f k. apart f.email e x (forward_of_user t.users f.email k) outside)
        ∙ h.forwards;
  }

  pub Untouched-insert_alias :
      (row : AliasRow) → row.source ≡ e → Untouched s x (insert_alias row t).1
  unfolding insert_alias
  Untouched-insert_alias row is_it = elim (Bool-cases (has_pair row.source row.destination t)) [
    | inl old ↦ rw old h
    | inr new ↦ rw new (record {
      users = h.users;
      aliases =
          rows-append (λ a. same a.source x) t.aliases row (rw is_it (own_apart e x outside))
          ∙ h.aliases;
      forwards = h.forwards;
    })
  ]

  pub Untouched-delete_alias : (destination : Text) → Untouched s x (delete_alias e destination t).1
  unfolding delete_alias
  Untouched-delete_alias destination = record {
    users = h.users;
    aliases =
        rows-delete (λ a. same a.source x) _ t.aliases
          (λ a k. apart a.source e x (ground arith) outside)
        ∙ h.aliases;
    forwards = h.forwards;
  }

  Untouched-forwards :
      (rows : List ForwardRow)
      → forward_rows x rows ≡ forward_rows x t.forwards
      → Untouched s x (record t { forwards = rows })
  Untouched-forwards rows k = record {
    users = h.users;
    aliases = h.aliases;
    forwards = k ∙ h.forwards;
  }

  pub Untouched-delete_forward :
      Untouched s x (record t { forwards = delete_where (λ f. same f.email e) t.forwards })
  Untouched-delete_forward = Untouched-forwards _ (
      rows-delete (λ f. same f.email x) (λ f. same f.email e) t.forwards
        (λ f k. apart f.email e x k outside))

  pub Untouched-upsert_forward :
      (destination : Text) (keep : Bool) → Untouched s x (upsert_forward e destination keep t).1
  unfolding upsert_forward
  Untouched-upsert_forward destination keep =
      elim (Bool-cases (any (λ f. same f.email e) t.forwards)) [
        | inl old ↦ rw old (
            Untouched-forwards _ (
              rows-update (λ f. same f.email x) (λ f. same f.email e) _ t.forwards
                (λ f k. apart f.email e x k outside) (λ f k. apart f.email e x k outside)))
        | inr new ↦ rw new (
            Untouched-forwards _
              (rows-append (λ f. same f.email x) t.forwards _ (own_apart e x outside)))
      ]
