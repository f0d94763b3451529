-- ===== src/Invariant/Operations/Parts.antt =====
-- Rules for the parts that several operations share.
use patrabahok.Base.{
  inr, inl, ℕ, ◌+◌, ◌≡◌, refl, ap, true, false, ◌&&◌, Option, none, some, List, [], ◌∷◌, arith, any,
  ◌==◌, ltb, Bool-cases,
}
use patrabahok.Base.Text.{Text}
use patrabahok.Base.Table.{row_where, count_where}
use patrabahok.Address.{Error, Result, ok, err, database, other, exists, not_found, split_email}
use patrabahok.Address.Shape.{
  split_email_iff, last_index_byte-append, drop-suc-append, no_at_domain,
}
use patrabahok.Db.{Env, State, DomainRow, GroupRow, M, ◌>>=◌, ◌>>◌, disk, same}
use patrabahok.Db.Rules.{
  Runs, Then, Runs-pure, Runs-fail, Runs-bind, Runs-query-bind, Runs-random-bind, Runs-disk-bind,
  Runs-disk, Runs-refuse_if,
}
use patrabahok.Domains.{find_domain, id_or_missing, domain_id, count_groups, not_a_group}
use patrabahok.Mailboxes.{hash_password, make_dir, create_maildir}
use patrabahok.Groups.Members.{after_at}
use patrabahok.Invariant.{IsValid-aside, IsValid, is_group_address}

-- The domain of an accepted address is what stands behind its "@".
pub after_at-split_email : (e l d : Text) → split_email e ≡ ok (l, d) → after_at e ≡ d
unfolding after_at
after_at-split_email e l d h =
    let (eq, shape) = (split_email_iff e l d).0 h in
    rw eq (
      rw (last_index_byte-append b'@' l d (no_at_domain d shape.domain_shape), after_at)
        (drop-suc-append b'@' l d))

module _ ⦃env : Env⦄ where
  -- What the outcome of every operation satisfies.
  abbrev pub Valid : {A : Type 0} → Result A → State → Type 0
  Valid r t = IsValid t

  -- The directories, the random source and the clock are no part of the tables.
  pub IsValid-dirs : {s : State} (dirs : List Text) → IsValid s → IsValid (record s { dirs = dirs })
  IsValid-dirs dirs h = IsValid-aside _ _ refl refl refl refl refl h

  pub IsValid-draws : {s : State} (n : ℕ) → IsValid s → IsValid (record s { draws = n })
  IsValid-draws n h = IsValid-aside _ _ refl refl refl refl refl h

  registered_of_row :
      (name : Text) (d : DomainRow) (rows : List DomainRow)
      → row_where (λ x. same x.name name) rows ≡ some d
      → any (λ x. x.id == d.id && same x.name name) rows ≡ true
  unfolding row_where
  registered_of_row name d [] e = cc
  registered_of_row name d (x ∷ rows) e = elim (Bool-cases (same x.name name)) [
    | inl hit ↦
        let is_it : x ≡ d = ground arith in ground (arith, ap (λ (y : DomainRow). y.id) is_it)
    | inr miss ↦ ground (arith, registered_of_row name d rows (ground arith))
  ]

module _ ⦃env : Env⦄ {B : Type 0} (Q : Result B → State → Type 0) where
  id_or_missing-bind :
      (name : Text) (k : ℕ → M B) {s : State} (found : Option DomainRow)
      → find_domain name s ≡ found
      → ((e : Error) → Q (err e) s)
      → ((id : ℕ) → any (λ d. d.id == id && same d.name name) s.domains ≡ true → Runs s (k id) Q)
      → Runs s (id_or_missing found) (Then Q k)
  unfolding id_or_missing find_domain
  id_or_missing-bind name k none e bad good = Runs-fail (Then Q k) not_found (bad not_found)
  id_or_missing-bind name k {s} (some d) e bad good =
      Runs-pure (Then Q k) d.id (good d.id (registered_of_row name d s.domains e))

  -- The look-up of a domain goes on with the id of a registered one.
  pub domain_id-bind :
      (name : Text) (k : ℕ → M B) {s : State}
      → ((e : Error) → Q (err e) s)
      → ((id : ℕ) → any (λ d. d.id == id && same d.name name) s.domains ≡ true → Runs s (k id) Q)
      → Runs s (domain_id name >>= k) Q
  unfolding domain_id
  domain_id-bind name k {s} bad good = Runs-bind Q _ k (
      Runs-query-bind (Then Q k) (find_domain name) id_or_missing (bad database)
        (id_or_missing-bind name k (find_domain name s) refl bad good))

  no_group_of_count :
      (email : Text) (rows : List GroupRow)
      → ltb 0 (count_where (λ g. same g.email email) rows) ≡ false
      → is_group_address rows email ≡ false
  unfolding count_where
  no_group_of_count email [] h = refl
  no_group_of_count email (g ∷ rows) h = elim (Bool-cases (same g.email email)) [
    | inl hit ↦ absurd (ground arith)
    | inr miss ↦ rw miss (no_group_of_count email rows (ground arith))
  ]

  -- The check for a group goes on where there is none.
  pub not_a_group-bind :
      (email : Text) (k : M B) {s : State}
      → ((e : Error) → Q (err e) s)
      → (is_group_address s.groups email ≡ false → Runs s k Q)
      → Runs s (not_a_group email >> k) Q
  unfolding not_a_group count_groups
  not_a_group-bind email k {s} bad good =
      Runs-bind Q _ (λ _. k)
        (Runs-query-bind (Then Q (λ _. k)) _ _ (bad database) (
          Runs-refuse_if _ exists (Then Q (λ _. k)) (λ _. bad exists)
            (λ n. good (no_group_of_count email s.groups n))))

  pub hash_password-bind :
      (password : Text) (k : Text → M B) {s : State}
      → Q (err other) s
      → ((hash : Text) → Runs (record s { draws = s.draws + 1 }) (k hash) Q)
      → Runs s (hash_password password >>= k) Q
  unfolding hash_password
  hash_password-bind password k bad good =
      Runs-bind Q _ k (Runs-random-bind (Then Q k) _ bad (Runs-pure (Then Q k) _ (good _)))

module _ ⦃env : Env⦄ where
  IsValid-make_dir : (path : Text) {s : State} → IsValid s → IsValid (make_dir path s)
  unfolding make_dir
  IsValid-make_dir path h = IsValid-dirs _ h

  make_dir-bind :
      (path : Text) (k : M (Unit {0})) {s : State}
      → IsValid s
      → ((t : State) → IsValid t → Runs t k Valid)
      → Runs s (disk (make_dir path) >> k) Valid
  make_dir-bind path k h next =
      Runs-disk-bind Valid (make_dir path) k h (next _ (IsValid-make_dir path h))

  pub create_maildir-Valid :
      (domain local : Text) {s : State} → IsValid s → Runs s (create_maildir domain local) Valid
  unfolding create_maildir
  create_maildir-Valid domain local h = make_dir-bind _ _ h (λ t1 h1. make_dir-bind _ _ h1 (λ t2 h2.
      make_dir-bind _ _ h2 (λ t3 h3. make_dir-bind _ _ h3 (λ t4 h4. Runs-disk Valid _ h4 h4))))
