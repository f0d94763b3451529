-- ===== src/Dashboard/Import/Counted.antt =====
-- What the page behind an import lists and counts, and that the import keeps the tables valid.
use patrabahok.Base.{
  ◌+◌, ◌≡◌, refl, ap, sym, ◌∙◌, Bool, true, false, Option, none, some, List, [], ◌∷◌, ◌++◌, map,
  if◌then◌else◌, length, All, All-append, append-nil, Bool-cases, inl, inr, arith, length-append,
}
use patrabahok.Base.Text.{Text, to_lower}
use patrabahok.Base.Table.{rows_where, count_where}
use patrabahok.Dashboard.Import.{
  ImportProblem, no_default_domain, ImportResult, ImportPage, empty_page, import_address,
  add_result, add_skipped,
}
use patrabahok.Dashboard.Csv.{column}

module _ {A : Type 0} (p : A → Bool) where
  count_where-snoc :
      (rs : List A) (r : A)
      → count_where p (rs ++ r ∷ []) ≡ count_where p rs + (if p r then 1 else 0)
  unfolding count_where
  count_where-snoc [] r = omega arith
  count_where-snoc (x ∷ rs) r = omega (arith, count_where-snoc rs r)

  count_where-other :
      (rs : List A) (r : A) → p r ≡ false → count_where p (rs ++ r ∷ []) ≡ count_where p rs
  count_where-other rs r h = ground (arith, count_where-snoc rs r)

  rows_where-snoc :
      (rs : List A) (r : A)
      → rows_where p (rs ++ r ∷ []) ≡ rows_where p rs ++ (if p r then r ∷ [] else [])
  unfolding rows_where
  rows_where-snoc [] r = ground arith
  rows_where-snoc (x ∷ rs) r = elim (Bool-cases (p x)) [
    | inl e ↦ rw e (ap (λ ys. x ∷ ys) (rows_where-snoc rs r))
    | inr e ↦ rw e (rows_where-snoc rs r)
  ]

pub map-append :
    {A B : Type 0} (f : A → B) (xs ys : List A) → map f (xs ++ ys) ≡ map f xs ++ map f ys
map-append f [] ys = refl
map-append f (x ∷ xs) ys = ap (λ zs. f x ∷ zs) (map-append f xs ys)

abbrev pub is_unaddressed : Option ImportProblem → Bool
is_unaddressed (some no_default_domain) = true
is_unaddressed _ = false

abbrev pub is_skipped : ImportResult → Bool
is_skipped r = is_unaddressed r.problem

abbrev pub credential : ImportResult → List Text
credential r = r.email ∷ r.name ∷ r.password ∷ []

-- The counts are those of the list, but for rows without a domain, which count as neither; the
-- rows to download are those of the users created, and no other password is shown.
pub record IsCounted (page : ImportPage) : Type 0 where
  pub created_right : page.created_count ≡ count_where (λ r. r.created) page.results
  pub sums :
      page.created_count + (page.failed_count + count_where is_skipped page.results)
      ≡ length page.results
  pub downloads :
      page.credentials
      ≡ empty_page.credentials ++ map credential (rows_where (λ r. r.created) page.results)
  pub hidden : All (λ r. r.created ≡ false → r.password ≡ []) page.results

pub empty_page-IsCounted : IsCounted empty_page
unfolding count_where rows_where
empty_page-IsCounted = record { created_right = refl; sums = refl; downloads = refl; hidden = tt }

-- The address that is shown for a row.
abbrev pub listed_address : Text → List Text → Text
listed_address domain row = elim (import_address domain row) [
  | none ↦ to_lower (column 0 row)
  | some email ↦ email
]

-- A row to download is added where a user is.
downloads-snoc :
    (page : ImportPage) (r : ImportResult) (more : List ImportResult)
    → page.credentials
      ≡ empty_page.credentials ++ map credential (rows_where (λ x. x.created) page.results)
    → rows_where (λ x. x.created) (page.results ++ r ∷ [])
      ≡ rows_where (λ x. x.created) page.results ++ more
    → page.credentials ++ map credential more
      ≡ empty_page.credentials
        ++ map credential (rows_where (λ x. x.created) (page.results ++ r ∷ []))
downloads-snoc page r more h k =
    rw (k, map-append credential (rows_where (λ x. x.created) page.results) more)
      (ap (λ x. x ++ map credential more) h)

pub add_result-IsCounted :
    (r : ImportResult) (page : ImportPage)
    → is_skipped r ≡ false
    → IsCounted page
    → IsCounted (add_result r page)
unfolding add_result
add_result-IsCounted r page fresh h = elim (Bool-cases r.created) [
  | inl e ↦ rw e (
      let r1 = record r { created = true } in
      record {
        created_right =
            omega (arith, h.created_right, count_where-snoc (λ x. x.created) page.results r1);
        sums = omega (
          arith,
          h.sums,
          count_where-other is_skipped page.results r1 fresh,
          length-append page.results (r1 ∷ []),
        );
        downloads =
            downloads-snoc page r1 (r1 ∷ []) h.downloads (rows_where-snoc _ page.results r1);
        hidden = All-append _ page.results _ h.hidden ((λ k. cc), tt);
      })
  | inr e ↦ rw e (
      let r1 = record r { password = []; created = false } in
      record {
        created_right =
            omega (arith, h.created_right, count_where-other (λ x. x.created) page.results r1 refl);
        sums = omega (
          arith,
          h.sums,
          count_where-other is_skipped page.results r1 fresh,
          length-append page.results (r1 ∷ []),
        );
        downloads =
            sym (append-nil page.credentials)
            ∙ downloads-snoc page r1 [] h.downloads (rows_where-snoc _ page.results r1);
        hidden = All-append _ page.results _ h.hidden ((λ k. refl), tt);
      })
]

pub add_skipped-IsCounted :
    (email name : Text) (page : ImportPage)
    → IsCounted page
    → IsCounted (add_skipped email name page)
unfolding add_skipped
add_skipped-IsCounted email name page h =
    let r1 : ImportResult = record {
      email = email;
      name = name;
      password = [];
      created = false;
      problem = some no_default_domain;
    } in
    record {
      created_right =
          omega (arith, h.created_right, count_where-other (λ x. x.created) page.results r1 refl);
      sums = omega (
        arith,
        h.sums,
        count_where-snoc is_skipped page.results r1,
        length-append page.results (r1 ∷ []),
      );
      downloads =
          sym (append-nil page.credentials)
          ∙ downloads-snoc page r1 [] h.downloads (rows_where-snoc _ page.results r1);
      hidden = All-append _ page.results _ h.hidden ((λ e. refl), tt);
    }

abbrev pub emails : List ImportResult → List Text
emails rs = map (λ r. r.email) rs

pub emails-add_result :
    (r : ImportResult) (page : ImportPage)
    → emails (add_result r page).results ≡ emails page.results ++ r.email ∷ []
unfolding add_result
emails-add_result r page = elim (Bool-cases r.created) [
  | inl e ↦ rw e (map-append _ page.results _)
  | inr e ↦ rw e (map-append _ page.results _)
]
