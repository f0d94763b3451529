-- ===== src/Dashboard/Import/Rows.antt =====
-- What the rows of an import add to the page, and that they keep the tables valid.
use patrabahok.Base.{
  true, ℕ, zero, suc, ◌≡◌, refl, ap, sym, ◌∙◌, false, Option, none, some, List, [], ◌∷◌, ◌++◌, map,
  append-nil, append_assoc, Bool-cases, inl, inr,
}
use patrabahok.Base.Text.{Text, to_lower, is_empty, trim_space}
use patrabahok.Base.Int.{ℤ}
use patrabahok.Address.{Error, Result, ok, err, panic, invalid, not_found, exists, other, database}
use patrabahok.Db.{◌>>=◌, Env, State, attempt, random}
use patrabahok.Db.Rules.{
  Runs, Runs-pure, Runs-fail, Runs-seq, Runs-attempt-bind, Runs_mono, Runs_both, Runs-call,
}
use patrabahok.Mailboxes.{mailbox_create}
use patrabahok.Invariant.{IsValid}
use mathlib.Core.Bool.{false≢true}
use patrabahok.Mailboxes.Creation.{Created, mailbox_create-Created}
use patrabahok.Dashboard.Import.Backed.{
  Sound, has_mailbox, Sound-other, Sound-Created, Created-has_mailbox, add_result-Backed,
  add_skipped-Backed,
}
use patrabahok.Invariant.Operations.{mailbox_create-Valid}
use patrabahok.Dashboard.Import.{
  ImportResult, ImportPage, ImportForm, import_address, told, add_result, add_skipped, drawn_letter,
  draw_letters, generate_password, given_password, created_result, not_created, create_imported,
  import_row, import_rows,
}
use patrabahok.Dashboard.Csv.{column}
use patrabahok.Dashboard.Import.Counted.{
  IsCounted, is_unaddressed, is_skipped, listed_address, add_result-IsCounted,
  add_skipped-IsCounted, emails, emails-add_result, map-append,
}

module _ ⦃env : Env⦄ where
  -- A panic of the random source.
  unfoldable pub Panics : Error → State → Type 0
  Panics e t = (e ≡ panic) × IsValid t

  module _ (rs : List ImportResult) where
    Drew : {A : Type 0} → Result A → State → Type 0
    Drew (ok p) t = Sound rs t
    Drew (err e) t = Panics e t

    -- A result for the address, true of tables that are still sound.
    ResultFor : Text → Result ImportResult → State → Type 0
    ResultFor email (ok r) t =
        Sound rs t
        × (r.email ≡ email)
        × (is_skipped r ≡ false)
        × (r.created ≡ true → has_mailbox r.email t ≡ true)
    ResultFor email (err e) t = ⊥

  module _ (rand_int : ℕ → Text → ℕ) (rs : List ImportResult) where
    drawn_letter-Drew :
        (s : State) → Sound rs s → Runs s (attempt random >>= drawn_letter rand_int) (Drew rs)
    unfolding drawn_letter random Drew Panics
    drawn_letter-Drew s h = Runs-attempt-bind (Drew rs) random (drawn_letter rand_int) (
        Runs-call _ _ _ (Runs-fail (Drew rs) panic (refl, h.valid))
          (Runs-pure (Drew rs) _ (Sound-other rs s _ (refl, refl, refl, refl, refl) h)))

    draw_letters-Drew :
        (n : ℕ) (s : State) → Sound rs s → Runs s (draw_letters rand_int n) (Drew rs)
    unfolding draw_letters Drew
    draw_letters-Drew zero s h = Runs-pure (Drew rs) [] h
    draw_letters-Drew (suc n) s h =
        Runs-seq (Drew rs) (Drew rs) _ _ (drawn_letter-Drew s h) (λ e t k. k)
          (λ c t k.
            Runs-seq (Drew rs) (Drew rs) _ _ (draw_letters-Drew n t k) (λ e u l. l)
              (λ p u l. Runs-pure (Drew rs) (c ∷ p) l))

    given_password-Drew :
        (password : Text) (s : State)
        → Sound rs s
        → Runs s (given_password rand_int password) (Drew rs)
    unfolding given_password generate_password Drew
    given_password-Drew password s h = elim (Bool-cases (is_empty password)) [
      | inl e ↦ rw e (draw_letters-Drew 14 s h)
      | inr e ↦ rw e (Runs-pure (Drew rs) password h)
    ]

    told_is_addressed : (e : Error) → is_unaddressed (some (told e)) ≡ false
    unfolding told
    told_is_addressed invalid = refl
    told_is_addressed not_found = refl
    told_is_addressed exists = refl
    told_is_addressed other = refl
    told_is_addressed database = refl
    told_is_addressed panic = refl

    created_result-ResultFor :
        (s : State) (email name password : Text) (quota : ℤ) (r : Result (Unit {0})) (t : State)
        → Sound rs s
        → Created s email name quota r t
        → IsValid t
        → ResultFor rs email (ok (created_result rand_int email name password r)) t
    unfolding created_result ResultFor
    created_result-ResultFor s email name password quota (ok a) t h k v = (
      Sound-Created rs s t email name quota (ok a) k v h,
      refl,
      refl,
      λ m. Created-has_mailbox s t email name quota a k,
    )
    created_result-ResultFor s email name password quota (err e) t h k v = (
      Sound-Created rs s t email name quota (err e) k v h,
      refl,
      told_is_addressed e,
      λ m. absurd (false≢true m),
    )

    create_imported-ResultFor :
        (email name password : Text) (quota : Result ℤ) (valid : Result (Unit {0})) (s : State)
        → Sound rs s
        → Runs s (create_imported rand_int email name password quota valid) (ResultFor rs email)
    unfolding create_imported not_created ResultFor
    create_imported-ResultFor email name password (err e) valid s h =
        Runs-pure (ResultFor rs email) _ (h, refl, refl, λ m. absurd (false≢true m))
    create_imported-ResultFor email name password (ok quota) (err e) s h =
        Runs-pure (ResultFor rs email) _ (h, refl, refl, λ m. absurd (false≢true m))
    create_imported-ResultFor email name password (ok quota) (ok valid) s h =
        Runs-attempt-bind (ResultFor rs email) (mailbox_create email password name quota) _ (
          Runs_mono
            (λ r t (k, v).
              Runs-pure (ResultFor rs email) _
                (created_result-ResultFor s email name password quota r t h k v))
            (Runs_both (mailbox_create-Created s email name quota password)
              (mailbox_create-Valid email password name quota h.valid)))

  module _ (rand_int : ℕ → Text → ℕ) where
    -- Behind the rows: a page that is counted and lists their addresses behind those it had.
    unfoldable pub Adds :
        ImportForm → List (List Text) → ImportPage → Result ImportPage → State → Type 0
    Adds f rows page (ok q) t =
        Sound q.results t
        × IsCounted q
        × (emails q.results
            ≡ emails page.results ++ map (listed_address (trim_space f.domain)) rows)
    Adds f rows page (err e) t = Panics e t

    -- A row at an address, with what is listed for it.
    AddsOne : Text → ImportPage → Result ImportPage → State → Type 0
    AddsOne email page (ok q) t =
        Sound q.results t × IsCounted q × (emails q.results ≡ emails page.results ++ email ∷ [])
    AddsOne email page (err e) t = Panics e t

    import_row-AddsOne :
        (f : ImportForm) (row : List Text) (o : Option Text) (page : ImportPage) (s : State)
        → IsCounted page
        → Sound page.results s
        → Runs s
            (import_row rand_int f row o page)
            (AddsOne (elim o [ none ↦ to_lower (column 0 row) | some email ↦ email ]) page)
    unfolding import_row AddsOne Drew ResultFor add_skipped
    import_row-AddsOne f row none page s c h =
        Runs-pure (AddsOne (to_lower (column 0 row)) page) _ (
          record { valid = h.valid; backed = add_skipped-Backed _ _ page s h.backed },
          add_skipped-IsCounted _ _ page c,
          map-append _ page.results _,
        )
    import_row-AddsOne f row (some email) page s c h =
        Runs-seq (Drew page.results) (AddsOne email page) _ _
          (given_password-Drew rand_int page.results (column 2 row) s h) (λ e t k. k)
          (λ password t k.
            Runs-seq (ResultFor page.results email) (AddsOne email page) _ _
              (create_imported-ResultFor rand_int page.results email (column 1 row) password _ _ t
                k)
              (λ e u l. absurd l)
              (λ r u (v, same_email, fresh, there).
                Runs-pure (AddsOne email page) (add_result r page) (
                  record { valid = v.valid; backed = add_result-Backed r page u there v.backed },
                  add_result-IsCounted r page fresh c,
                  emails-add_result r page ∙ ap (λ x. emails page.results ++ x ∷ []) same_email,
                )))

    Adds-later :
        (f : ImportForm) (row : List Text) (rows : List (List Text)) (page q : ImportPage)
        → emails q.results ≡ emails page.results ++ listed_address (trim_space f.domain) row ∷ []
        → (r : Result ImportPage) (t : State) → Adds f rows q r t
        → Adds f (row ∷ rows) page r t
    unfolding Adds
    Adds-later f row rows page q listed (ok p) t (v, c, more) = (
      v,
      c,
      more
          ∙ (ap (λ x. x ++ map (listed_address (trim_space f.domain)) rows) listed
              ∙ append_assoc (emails page.results) (listed_address (trim_space f.domain) row ∷ [])
                  _),
    )
    Adds-later f row rows page q listed (err e) t k = k

    pub import_rows-Adds :
        (f : ImportForm) (rows : List (List Text)) (page : ImportPage) (s : State)
        → IsCounted page
        → Sound page.results s
        → Runs s (import_rows rand_int f rows page) (Adds f rows page)
    unfolding import_rows Adds AddsOne
    import_rows-Adds f [] page s c h =
        Runs-pure (Adds f [] page) page (h, c, sym (append-nil (emails page.results)))
    import_rows-Adds f (row ∷ rows) page s c h =
        Runs-seq (AddsOne (listed_address (trim_space f.domain) row) page)
          (Adds f (row ∷ rows) page) _ _
          (import_row-AddsOne f row (import_address (trim_space f.domain) row) page s c h)
          (λ e t k. k)
          (λ q t (v, d, listed).
            Runs_mono (Adds-later f row rows page q listed) (import_rows-Adds f rows q t d v))
