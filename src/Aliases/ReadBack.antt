-- ===== src/Aliases/ReadBack.antt =====
-- A catch-all and a forward read back as they were set, and a failure changes none of them.
use patrabahok.Base.{
  inr, inl, subst, ℕ, ◌≡◌, refl, sym, ap, ◌∙◌, Bool, true, false, Option, none, some, List, [], ◌∷◌,
  any, Bool-cases, if◌then◌else◌, arith,
}
use patrabahok.Base.Text.{Text, text_eq_refl, to_lower, trim_space, is_empty}
use patrabahok.Base.Table.{row_where, update_where, row_where-append, any-delete_where_self}
use patrabahok.Address.{Result, ok, err, not_found, invalid}
use patrabahok.Db.{Env, State, DomainRow, UserRow, ForwardRow, exec, same}
use patrabahok.Db.Rules.{
  Runs, Runs-seq, Runs-exec, Runs-exec-bind, Runs-lift-bind, Runs-refuse_if-bind, Runs-query-bind,
  Runs-fail, Runs-pure, Runs-transaction, OrBack,
}
use patrabahok.Domains.{find_domain, id_or_missing, domain_id}
use patrabahok.Mailboxes.Change.{find_user, mailbox_or_missing, mailbox_get}
use patrabahok.Aliases.{
  catch_all_source, find_catch_all, destination_of, delete_catch_all, append_alias,
  replace_catch_all, set_catch_all, catch_all_set, Forward, forward_view, find_forward,
  upsert_forward, forward_set,
}

-- A program that reads: the state is the old one.
abbrev Unchanged : {A : Type 0} → State → Result A → State → Type 0
Unchanged s r t = t ≡ s

module _ {A : Type 0} where
  row_where-absent : (p : A → Bool) (rs : List A) → any p rs ≡ false → row_where p rs ≡ none
  unfolding row_where
  row_where-absent p [] h = refl
  row_where-absent p (r ∷ rs) h = ground (arith, row_where-absent p rs (ground arith))

module _ ⦃env : Env⦄ where
  same_refl : (a : Text) → same a a ≡ true
  unfolding same
  same_refl a = text_eq_refl (env.weight a)

  -- What CatchAllSet is to leave: the lowered destination, or nothing for the empty one.
  abbrev pub wanted : Text → Text
  wanted destination = if is_empty destination then [] else to_lower (trim_space destination)

  -- On success the catch-all reads back, on a failure no alias has changed.
  abbrev pub CatchAllIs : Text → Text → State → Result (Unit {0}) → State → Type 0
  CatchAllIs domain v s (ok a) t = destination_of (find_catch_all domain t) ≡ v
  CatchAllIs domain v s (err e) t = t.aliases ≡ s.aliases

  deleted_reads :
      (domain : Text) (s : State)
      → destination_of (find_catch_all domain (delete_catch_all domain s).1) ≡ []
  unfolding find_catch_all delete_catch_all destination_of
  deleted_reads domain s =
      rw
        (row_where-absent _ _
          (any-delete_where_self (λ a. same a.source (catch_all_source domain)) s.aliases))
        refl

  replaced_reads :
      (domain destination : Text) (id : ℕ) (s : State)
      → destination_of (
          find_catch_all domain
            (append_alias
              (record {
                domain_id = id;
                source = catch_all_source domain;
                destination = destination;
              })
              (delete_catch_all domain s).1).1)
        ≡ destination
  unfolding find_catch_all delete_catch_all append_alias destination_of row_where
  replaced_reads domain destination id s =
      rw
        (row_where-append _ _ _
          (any-delete_where_self (λ a. same a.source (catch_all_source domain)) s.aliases))
        (rw (row_where, same_refl) refl)

  replace-Is :
      (domain destination : Text) (id : ℕ) (s : State)
      → Runs s (replace_catch_all id domain destination) (CatchAllIs domain destination s)
  unfolding replace_catch_all
  replace-Is domain destination id s =
      let Q = CatchAllIs domain destination s in
      Runs-transaction Q _ refl (
        Runs-exec-bind (OrBack Q s) _ _ refl
          (Runs-exec (OrBack Q s) _ refl (replaced_reads domain destination id s)))

  id_or_missing-Unchanged :
      (s : State) (found : Option DomainRow) → Runs s (id_or_missing found) (Unchanged s)
  unfolding id_or_missing
  id_or_missing-Unchanged s none = Runs-fail (Unchanged s) not_found refl
  id_or_missing-Unchanged s (some d) = Runs-pure (Unchanged s) d.id refl

  domain_id-Unchanged : (name : Text) (s : State) → Runs s (domain_id name) (Unchanged s)
  unfolding domain_id
  domain_id-Unchanged name s =
      Runs-query-bind (Unchanged s) (find_domain name) id_or_missing refl
        (id_or_missing-Unchanged s (find_domain name s))

  set-Is :
      (domain destination : Text) (id : ℕ) (s : State)
      → Runs s
          (set_catch_all id domain destination)
          (CatchAllIs domain (to_lower (trim_space destination)) s)
  unfolding set_catch_all
  set-Is domain destination id s =
      Runs-lift-bind (CatchAllIs domain (to_lower (trim_space destination)) s) _ _ (λ e _. refl)
        (λ a _. replace-Is domain _ id s)

  clear-Is :
      (domain : Text) (s : State) → Runs s (exec (delete_catch_all domain)) (CatchAllIs domain [] s)
  clear-Is domain s = Runs-exec (CatchAllIs domain [] s) _ refl (deleted_reads domain s)

  choose-Is :
      (domain destination : Text) (id : ℕ) (s : State)
      → Runs s
          (if is_empty destination
            then exec (delete_catch_all domain)
            else set_catch_all id domain destination)
          (CatchAllIs domain (wanted destination) s)
  choose-Is domain destination id s = elim (Bool-cases (is_empty destination)) [
    | inl e ↦ rw e (clear-Is domain s)
    | inr e ↦ rw e (set-Is domain destination id s)
  ]

  -- Whatever calls fail, the catch-all of the domain reads back as the lowered destination if the
  -- setting succeeds, as none if it succeeds with an empty destination, and if it fails no alias
  -- has changed.
  pub catch_all_set-CatchAllIs :
      (domain destination : Text) (s : State)
      → Runs s (catch_all_set domain destination) (CatchAllIs domain (wanted destination) s)
  unfolding catch_all_set
  catch_all_set-CatchAllIs domain destination s =
      Runs-seq (Unchanged s) (CatchAllIs domain (wanted destination) s) _ _
        (domain_id-Unchanged domain s) (λ e t h. ap (λ (u : State). u.aliases) h)
        (λ id t h.
          subst
            (λ u.
              Runs u
                (if is_empty destination
                  then exec (delete_catch_all domain)
                  else set_catch_all id domain destination)
                (CatchAllIs domain (wanted destination) s))
            (sym h) (choose-Is domain destination id s))

  -- On success the forward reads back, on a failure no forward has changed.
  abbrev pub ForwardIs : Text → Text → Bool → State → Result (Unit {0}) → State → Type 0
  ForwardIs email destination keep s (ok a) t =
      forward_view (find_forward email t)
      ≡ some (record { destination = destination; keep_copy = keep })
  ForwardIs email destination keep s (err e) t = t.forwards ≡ s.forwards

  updated_reads :
      (email : Text) (f : ForwardRow → ForwardRow) (v : Option Forward) (rows : List ForwardRow)
      → ((r : ForwardRow) → same (f r).email email ≡ same r.email email)
      → ((r : ForwardRow) → forward_view (some (f r)) ≡ v)
      → any (λ r. same r.email email) rows ≡ true
      → forward_view
          (row_where (λ r. same r.email email) (update_where (λ r. same r.email email) f rows))
        ≡ v
  unfolding row_where update_where
  updated_reads email f v [] h k there = absurd (ground arith)
  updated_reads email f v (r ∷ rows) h k there = elim (Bool-cases (same r.email email)) [
    | inl e ↦ rw (e, h r, e) (k r)
    | inr e ↦ rw (e, e) (updated_reads email f v rows h k (ground arith))
  ]

  upserted_reads :
      (email destination : Text) (keep : Bool) (s : State)
      → forward_view (find_forward email (upsert_forward email destination keep s).1)
        ≡ some (record { destination = destination; keep_copy = keep })
  unfolding upsert_forward find_forward row_where forward_view
  upserted_reads email destination keep s =
      elim (Bool-cases (any (λ f. same f.email email) s.forwards)) [
        | inl old ↦ rw old (updated_reads email _ _ s.forwards (λ r. refl) (λ r. refl) old)
        | inr new ↦
            rw new (ap forward_view (row_where-append _ s.forwards _ new) ∙ rw same_refl refl)
      ]

  mailbox_or_missing-Unchanged :
      (s : State) (found : Option UserRow) → Runs s (mailbox_or_missing found) (Unchanged s)
  unfolding mailbox_or_missing
  mailbox_or_missing-Unchanged s none = Runs-fail (Unchanged s) not_found refl
  mailbox_or_missing-Unchanged s (some u) = Runs-pure (Unchanged s) _ refl

  mailbox_get-Unchanged : (email : Text) (s : State) → Runs s (mailbox_get email) (Unchanged s)
  unfolding mailbox_get
  mailbox_get-Unchanged email s =
      Runs-lift-bind (Unchanged s) _ _ (λ _ _. refl)
        (λ _ _.
          Runs-query-bind (Unchanged s) (find_user email) mailbox_or_missing refl
            (mailbox_or_missing-Unchanged s (find_user email s)))

  -- Whatever calls fail, a forward that was set reads back with the lowered destination and the
  -- given copy flag, and if the setting fails no forward has changed.
  pub forward_set-ForwardIs :
      (email destination : Text) (keep : Bool) (s : State)
      → Runs s
          (forward_set email destination keep)
          (ForwardIs email (to_lower (trim_space destination)) keep s)
  unfolding forward_set
  forward_set-ForwardIs email destination keep s =
      let Q = ForwardIs email (to_lower (trim_space destination)) keep s in
      Runs-lift-bind Q _ _ (λ _ _. refl)
        (λ _ _.
          Runs-refuse_if-bind Q _ invalid _ (λ _. refl)
            (λ _.
              Runs-seq (Unchanged s) Q _ _ (mailbox_get-Unchanged email s)
                (λ e t h. ap (λ (u : State). u.forwards) h)
                (λ m t h.
                  subst
                    (λ u.
                      Runs u (exec (upsert_forward email (to_lower (trim_space destination)) keep))
                        Q)
                    (sym h)
                    (Runs-exec Q _ refl
                      (upserted_reads email (to_lower (trim_space destination)) keep s)))))
