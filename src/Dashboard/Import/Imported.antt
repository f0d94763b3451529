-- ===== src/Dashboard/Import/Imported.antt =====
-- What an import ends with: the page behind it, and the tables.
use patrabahok.Base.{
  All, ◌&&◌, leb, ℕ, ◌≡◌, refl, Bool, true, false, ◌||◌, Option, none, some, List, map, ltb, ◌==◌,
  length, ◌&&◌, leb, Bool-cases, inl, inr, arith,
}
use patrabahok.Base.Text.{Text, trim_space}
use patrabahok.Address.{Result, ok, err, panic}
use patrabahok.Db.{Env, State}
use patrabahok.Db.Rules.{Runs, Runs-pure, Runs-seq, Runs-attempt-bind, Runs_mono}
use patrabahok.Db.Answers.{Answered}
use patrabahok.Reads.{domain_list-Keeps}
use patrabahok.Invariant.{IsValid}
use patrabahok.Dashboard.{Visitor}
use patrabahok.Dashboard.Server.Parts.{record_act-Answers}
use patrabahok.Domains
use patrabahok.Dashboard.Import.{
  ImportForm, ImportView, import_refused, imported, empty_page, max_import_rows, import_and_record,
  import_parsed, import_raw, handle_users_import,
}
use patrabahok.Dashboard.Csv.{parse_import_csv}
use patrabahok.Dashboard.Import.Counted.{IsCounted, listed_address, empty_page-IsCounted}
use patrabahok.Dashboard.Import.Backed.{Sound, Sound-other, has_mailbox}
use patrabahok.Dashboard.Import.Rows.{Panics, Adds, import_rows-Adds}

-- The rows that are to be imported; `none` where there is no form, no file or no CSV.
abbrev pub rows_of_raw :
    (Text → Option (List (List Text))) → Option Text → Option (List (List Text))
rows_of_raw read_csv none = none
rows_of_raw read_csv (some raw) = parse_import_csv read_csv raw

abbrev pub rows_to_import :
    (Text → Option (List (List Text))) → Option ImportForm → Option (ImportForm × List (List Text))
rows_to_import read_csv none = none
rows_to_import read_csv (some f) = elim (rows_of_raw read_csv f.raw) [
  | none ↦ none
  | some rows ↦ some (f, rows)
]

-- From one row to a thousand.
abbrev pub is_fitting : Option (ImportForm × List (List Text)) → Bool
is_fitting none = false
is_fitting (some (f, rows)) = leb 1 (length rows) && leb (length rows) 1000

module _ ⦃env : Env⦄ where
  -- An error 400 where nothing fits, with the state as it was; a page for what fits, with valid
  -- tables; or a panic of the random source, with valid tables too.
  abbrev pub Imported :
      Option (ImportForm × List (List Text)) → State → Result ImportView → State → Type 0
  Imported o s (ok (import_refused n)) t = (n ≡ 400) × (t ≡ s) × (is_fitting o ≡ false)
  Imported o s (ok (imported q)) t =
      (f : ImportForm) × (rows : List (List Text)) × (o ≡ some (f, rows))
      × (is_fitting o ≡ true)
      × IsValid t
      × IsCounted q
      × All (λ r. r.created ≡ true → has_mailbox r.email t ≡ true) q.results
      × (map (λ r. r.email) q.results ≡ map (listed_address (trim_space f.domain)) rows)
  Imported o s (err e) t = (e ≡ panic) × IsValid t

  module _ (rand_int : ℕ → Text → ℕ) (v : Visitor) where
    import_and_record-Imported :
        (f : ImportForm) (rows : List (List Text)) (s t : State)
        → IsValid t
        → is_fitting (some (f, rows)) ≡ true
        → Runs t (import_and_record rand_int v f rows) (Imported (some (f, rows)) s)
    unfolding import_and_record Adds Panics
    import_and_record-Imported f rows s t h fits =
        let Q = Imported (some (f, rows)) s in
        Runs-seq (Adds rand_int f rows empty_page) Q _ _
          (import_rows-Adds rand_int f rows empty_page t empty_page-IsCounted
            (record { valid = h; backed = tt }))
          (λ e u k. k)
          (λ q u (w, c, listed).
            Runs-seq (Answered (Sound q.results)) Q _ _
              (record_act-Answers (Sound q.results) (Sound-other q.results) v _ _ _ u w)
              (λ e x k. absurd k)
              (λ a x k.
                Runs-pure Q (imported q) (f, rows, refl, fits, k.valid, c, k.backed, listed)))

    import_parsed-Imported :
        (f : ImportForm) (rows : List (List Text)) (s : State)
        → IsValid s
        → Runs s (import_parsed rand_int v f (some rows)) (Imported (some (f, rows)) s)
    unfolding import_parsed
    import_parsed-Imported f rows s h =
        let Q = Imported (some (f, rows)) s in
        elim (Bool-cases (length rows == 0 || ltb max_import_rows (length rows))) [
          | inl e ↦ rw e (Runs-pure Q (import_refused 400) (refl, refl, ground arith))
          | inr e ↦ rw e (
              Runs-attempt-bind Q patrabahok.Domains.domain_list _ (
                Runs_mono (λ r t k. import_and_record-Imported f rows s t k (ground arith))
                  (domain_list-Keeps IsValid s h)))
        ]

    import_raw-Imported :
        (read_csv : Text → Option (List (List Text))) (f : ImportForm) (raw : Option Text)
        (s : State)
        → IsValid s
        → Runs s (import_raw rand_int v read_csv f raw) (
            Imported
              (elim (rows_of_raw read_csv raw) [ none ↦ none | some rows ↦ some (f, rows) ])
              s)
    unfolding import_raw import_parsed
    import_raw-Imported read_csv f none s h = Runs-pure (Imported none s) _ (refl, refl, refl)
    import_raw-Imported read_csv f (some raw) s h = parsed (parse_import_csv read_csv raw)
      where
        parsed :
            (o : Option (List (List Text)))
            → Runs s
                (import_parsed rand_int v f o)
                (Imported (elim o [ none ↦ none | some rows ↦ some (f, rows) ]) s)
        parsed none = Runs-pure (Imported none s) _ (refl, refl, refl)
        parsed (some rows) = import_parsed-Imported f rows s h

    -- From valid tables, whatever calls fail, an import that has no form, no file, no CSV, no row
    -- that is kept or more than a thousand is answered with the error 400 and leaves the state as
    -- it was. Any other import ends with valid tables, with a panic of the random source or with
    -- a page that lists the rows' addresses in their order, on which every user listed as created
    -- has a mailbox at that address, whose number of users created is that of the rows listed as
    -- created, whose numbers add up with the rows without a domain to all rows, whose rows to
    -- download are those of the users created, and which shows no other password.
    pub handle_users_import-Imported :
        (read_csv : Text → Option (List (List Text))) (form : Option ImportForm) (s : State)
        → IsValid s
        → Runs s
            (handle_users_import rand_int v read_csv form)
            (Imported (rows_to_import read_csv form) s)
    unfolding handle_users_import
    handle_users_import-Imported read_csv none s h =
        Runs-pure (Imported none s) _ (refl, refl, refl)
    handle_users_import-Imported read_csv (some f) s h = import_raw-Imported read_csv f f.raw s h
