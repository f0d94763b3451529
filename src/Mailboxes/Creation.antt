-- ===== src/Mailboxes/Creation.antt =====
-- MailboxCreate adds one mailbox and never changes another.
use patrabahok.Base.{
  inr, inl, some, ℕ, ◌≡◌, refl, sym, ap, true, false, not, Option, none, some, List, [], ◌∷◌, ◌++◌,
  Bool-cases, arith, length, leb,
}
use mathlib.Core.List.{append-nil}
use patrabahok.Base.Text.{Text}
use patrabahok.Base.Int.{ℤ}
use patrabahok.Address.{Error, Result, ok, err, exists, database}
use patrabahok.Db.{Env, State, DomainRow, UserRow, exec, refuse_if, ◌>>=◌, ◌>>◌}
use patrabahok.Db.Rules.{
  Runs, Runs-seq, Runs-lift-bind, Runs-query-bind, Runs-exec-bind, Runs-refuse_if-bind, Runs_mono,
}
use patrabahok.Db.Keeps.{
  Keeps, Keeps-pure, Keeps-fail, Keeps-query, Keeps-disk, Keeps-random, Keeps-bind,
}
use patrabahok.Domains.{kind_of, domain_id, id_or_missing, address_kind, has_user}
use patrabahok.Mailboxes.{
  hash_password, make_dir, create_maildir, insert_user, new_row, mailbox_create,
}

-- One mailbox more if the call succeeds, and at most one more if it fails; the old ones stand
-- unchanged before it.
abbrev pub Created : State → Text → Text → ℤ → Result (Unit {0}) → State → Type 0
Created s e name quota (ok a) t =
    (row : UserRow) × (t.users ≡ s.users ++ row ∷ [])
    × (row.email ≡ e)
    × (row.display_name ≡ name)
    × (row.quota_bytes ≡ quota)
Created s e name quota (err x) t =
    (more : List UserRow) × (t.users ≡ s.users ++ more) × (leb (length more) 1 ≡ true)

pub record MailboxesAre (us : List UserRow) (t : State) : Type 0 where
  pub are : t.users ≡ us

module _ ⦃env : Env⦄ (us : List UserRow) where
  id_or_missing-Are : (found : Option DomainRow) → Keeps (MailboxesAre us) (id_or_missing found)
  unfolding id_or_missing
  id_or_missing-Are none = Keeps-fail _ _
  id_or_missing-Are (some d) = Keeps-pure _ _

  domain_id-Are : (name : Text) → Keeps (MailboxesAre us) (domain_id name)
  unfolding domain_id
  domain_id-Are name = Keeps-bind _ _ _ (Keeps-query _ _) (λ found. id_or_missing-Are found)

  hash_password-Are : (p : Text) → Keeps (MailboxesAre us) (hash_password p)
  unfolding hash_password
  hash_password-Are p =
      Keeps-bind _ _ _ (Keeps-random _ (λ t h. record { are = h.are })) (λ drawn. Keeps-pure _ _)

  make_dir-Are : (path : Text) (t : State) → MailboxesAre us t → MailboxesAre us (make_dir path t)
  unfolding make_dir
  make_dir-Are path t h = record { are = h.are }

  create_maildir-Are : (d l : Text) → Keeps (MailboxesAre us) (create_maildir d l)
  unfolding create_maildir
  create_maildir-Are d l = Keeps-bind _ _ _ (Keeps-disk _ _ (make_dir-Are _)) (λ _.
      Keeps-bind _ _ _ (Keeps-disk _ _ (make_dir-Are _)) (λ _.
        Keeps-bind _ _ _ (Keeps-disk _ _ (make_dir-Are _)) (λ _.
          Keeps-bind _ _ _ (Keeps-disk _ _ (make_dir-Are _)) (λ _. Keeps-disk _ _ (λ t h. h)))))

module _ ⦃env : Env⦄ (s : State) (e name : Text) (quota : ℤ) where
  none_more : (x : Error) (t : State) → MailboxesAre s.users t → Created s e name quota (err x) t
  none_more x t h = ([], rw h.are (sym (append-nil s.users)), refl)

  one_more :
      (row : UserRow)
      → row.email ≡ e
      → row.display_name ≡ name
      → row.quota_bytes ≡ quota
      → (r : Result (Unit {0})) (t : State) → MailboxesAre (s.users ++ row ∷ []) t
      → Created s e name quota r t
  one_more row a b c (ok x) t h = (row, h.are, a, b, c)
  one_more row a b c (err x) t h = (row ∷ [], h.are, refl)

  after_insert :
      (t : State) (d l hash : Text) (id : ℕ)
      → MailboxesAre s.users t
      → Runs t
          (exec (λ u. insert_user (new_row id e name hash d l quota u.now) u) >>= λ inserted.
            refuse_if (not inserted) exists >> create_maildir d l)
          (Created s e name quota)
  unfolding insert_user new_row
  after_insert t d l hash id h = elim (Bool-cases (has_user e t)) [
    | inl old ↦ Runs-exec-bind (Created s e name quota) _ _ (none_more database t h) (
        rw old (
          Runs-refuse_if-bind (Created s e name quota) true exists _ (λ _. none_more exists t h)
            (λ bad. absurd (ground arith))))
    | inr new ↦ Runs-exec-bind (Created s e name quota) _ _ (none_more database t h) (
        rw new (
          Runs-refuse_if-bind (Created s e name quota) false exists _ (λ bad. absurd (ground arith))
            (λ _. Runs_mono (one_more (new_row id e name hash d l quota t.now) refl refl refl) (
              create_maildir-Are _ d l _ (record {
                are = ap (λ us. us ++ new_row id e name hash d l quota t.now ∷ []) h.are;
              })))))
  ]

  -- Whatever calls fail, the mailboxes that were there stand unchanged in their order; behind
  -- them stands the new one with its address, name and quota if the call succeeds, and at most
  -- one row if it fails.
  pub mailbox_create-Created :
      (password : Text) → Runs s (mailbox_create e password name quota) (Created s e name quota)
  unfolding mailbox_create address_kind
  mailbox_create-Created password =
      let start : MailboxesAre s.users s = record { are = refl } in
      Runs-lift-bind (Created s e name quota) _ _ (λ x _. none_more x s start)
        (λ a split.
          Runs-seq _ (Created s e name quota) _ _ (domain_id-Are s.users a.1 s start) none_more
            (λ id t h.
              Runs-query-bind (Created s e name quota) (kind_of e) _ (none_more database t h) (
                Runs-refuse_if-bind (Created s e name quota) _ exists _ (λ _. none_more exists t h)
                  (λ free.
                    Runs-seq _ (Created s e name quota) _ _ (hash_password-Are s.users password t h)
                      none_more (λ hash u k. after_insert u a.1 a.0 hash id k)))))
