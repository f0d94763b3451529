-- ===== src/Dashboard/Import.antt =====
-- The import of users from CSV: handlers_users.go of cli/internal/webui from handleUsersImport on.
-- The records come as encoding/csv of Go's library reads them, with TrimLeadingSpace and the comment
-- "#"; the file to download is the list of its rows.
pub mod Backed
pub mod Counted
pub mod Imported
pub mod Passwords
pub mod Rows
use patrabahok.Base.{
  ℕ, zero, suc, ◌+◌, ◌-◌, Bool, true, false, ◌&&◌, ◌||◌, not, Option, none, some, List, [], ◌∷◌,
  ◌++◌, map, if◌then◌else◌, any, ltb, ◌==◌, length, drop,
}
use patrabahok.Base.Text.{Text, codes, text_eq, is_empty, to_lower, trim_space, itoa}
use patrabahok.Base.Int.{ℤ}
use patrabahok.Address.{Error, Result, ok, err, invalid, not_found, exists, other, database, panic}
use patrabahok.Quota.{parse_quota}
use patrabahok.Db.{Env, M, pure, fail, ◌>>=◌, ◌>>◌, attempt, random}
use patrabahok.Mailboxes.{validate_password, mailbox_create}
use patrabahok.Dashboard.Csv.{column, parse_import_csv}
use patrabahok.Dashboard.{Visitor, record_act}

abbrev pub max_import_rows : ℕ
max_import_rows = 1000

abbrev pub alphabet : Text
alphabet = codes "ABCDEFGHJKLMNPQRSTUVWXYZabcdefghijkmnopqrstuvwxyz23456789"

unfoldable pub letter_at : ℕ → Text → ℕ
letter_at n [] = 0
letter_at zero (c ∷ s) = c
letter_at (suc n) (c ∷ s) = letter_at n s

pub data ImportProblem : Type 0 where
  no_default_domain bad_quota bad_password server_error : ImportProblem
  refused : Error → ImportProblem

pub record ImportResult : Type 0 where
  pub email : Text
  pub name : Text
  pub password : Text
  pub created : Bool
  pub problem : Option ImportProblem

pub record ImportPage : Type 0 where
  pub results : List ImportResult
  pub created_count : ℕ
  pub failed_count : ℕ
  pub credentials : List (List Text)

abbrev pub empty_page : ImportPage
empty_page = record {
  results = [];
  created_count = 0;
  failed_count = 0;
  credentials = (codes "email" ∷ codes "name" ∷ codes "password" ∷ []) ∷ [];
}

pub record ImportForm : Type 0 where
  pub domain : Text
  pub quota : Text
  -- the text or the uploaded file; `none` is a file that cannot be read
  pub raw : Option Text

pub data ImportView : Type 0 where
  import_refused : ℕ → ImportView
  imported : ImportPage → ImportView

-- What the page tells of an error of MailboxCreate.
unfoldable pub told : Error → ImportProblem
told invalid = refused invalid
told exists = refused exists
told not_found = refused not_found
told other = server_error
told database = server_error
told panic = server_error

-- The address of a row; `none` where no domain is known.
unfoldable pub import_address : Text → List Text → Option Text
unfolding column
import_address default_domain row =
    let email = to_lower (column 0 row) in
    if any (λ c. c == b'@') email
    then some email
    else (if is_empty default_domain then none else some (email ++ b'@' ∷ default_domain))

unfoldable pub or_given : Text → Text → Text
or_given given default = if is_empty given then default else given

-- The end of the loop's body.
unfoldable pub add_result : ImportResult → ImportPage → ImportPage
add_result r page =
    if r.created
    then record {
      results = page.results ++ r ∷ [];
      created_count = page.created_count + 1;
      failed_count = page.failed_count;
      credentials = page.credentials ++ (r.email ∷ r.name ∷ r.password ∷ []) ∷ [];
    }
    else record page {
      results = page.results ++ record r { password = [] } ∷ [];
      failed_count = page.failed_count + 1;
    }

-- `continue`: a row that is only listed.
unfoldable pub add_skipped : Text → Text → ImportPage → ImportPage
add_skipped email name page = record page {
  results =
      page.results
      ++ record {
        email = email;
        name = name;
        password = [];
        created = false;
        problem = some no_default_domain;
      }
        ∷ [];
}

-- `rand_int` is rand.Int of crypto/rand: a number below the bound, from the bytes that are drawn.
module _ ⦃env : Env⦄ (rand_int : ℕ → Text → ℕ) where
  -- A random source that fails panics.
  unfoldable pub drawn_letter : Result Text → M ℕ
  unfolding letter_at
  drawn_letter (err e) = fail panic
  drawn_letter (ok bytes) = pure (letter_at (rand_int (length alphabet) bytes) alphabet)

  unfoldable pub draw_letters : ℕ → M Text
  unfolding drawn_letter
  draw_letters zero = pure []
  draw_letters (suc n) = do c ← attempt random >>= drawn_letter; s ← draw_letters n; pure (c ∷ s)

  unfoldable pub generate_password : M Text
  unfolding draw_letters
  generate_password = draw_letters 14

  unfoldable pub given_password : Text → M Text
  unfolding generate_password
  given_password password = if is_empty password then generate_password else pure password

  unfoldable pub created_result : Text → Text → Text → Result (Unit {0}) → ImportResult
  unfolding told
  created_result email name password (ok done) = record {
    email = email;
    name = name;
    password = password;
    created = true;
    problem = none;
  }
  created_result email name password (err e) = record {
    email = email;
    name = name;
    password = password;
    created = false;
    problem = some (told e);
  }

  unfoldable pub not_created : Text → Text → Text → ImportProblem → ImportResult
  not_created email name password p = record {
    email = email;
    name = name;
    password = password;
    created = false;
    problem = some p;
  }

  -- The switch, on the quota and on the password.
  unfoldable pub create_imported :
      Text → Text → Text → Result ℤ → Result (Unit {0}) → M ImportResult
  unfolding created_result not_created
  create_imported email name password (err e) valid =
      pure (not_created email name password bad_quota)
  create_imported email name password (ok quota) (err e) =
      pure (not_created email name password bad_password)
  create_imported email name password (ok quota) (ok valid) = do
    r ← attempt (mailbox_create email password name quota)
    pure (created_result email name password r)

  unfoldable pub import_row : ImportForm → List Text → Option Text → ImportPage → M ImportPage
  unfolding add_skipped create_imported add_result column or_given given_password
  import_row f row none page = pure (add_skipped (to_lower (column 0 row)) (column 1 row) page)
  import_row f row (some email) page = do
    password ← given_password (column 2 row)
    r ←
        create_imported email (column 1 row) password
          (parse_quota (or_given (column 3 row) (trim_space f.quota))) (validate_password password)
    pure (add_result r page)

  unfoldable pub import_rows : ImportForm → List (List Text) → ImportPage → M ImportPage
  unfolding import_row import_address
  import_rows f [] page = pure page
  import_rows f (row ∷ rows) page =
      import_row f row (import_address (trim_space f.domain) row) page >>= import_rows f rows

  module _ (v : Visitor) where
    unfoldable pub import_and_record : ImportForm → List (List Text) → M ImportView
    unfolding import_rows record_act
    import_and_record f rows = do
      page ← import_rows f rows empty_page
      record_act v (codes "user.import") [] (
          itoa page.created_count
          ++ (codes " created, " ++ (itoa page.failed_count ++ codes " failed")))
      pure (imported page)

    unfoldable pub import_parsed : ImportForm → Option (List (List Text)) → M ImportView
    unfolding import_and_record
    import_parsed f none = pure (import_refused 400)
    import_parsed f (some rows) =
        if length rows == 0 || ltb max_import_rows (length rows)
        then pure (import_refused 400)
        else (attempt patrabahok.Domains.domain_list >>= λ domains. import_and_record f rows)

    unfoldable pub import_raw :
        (Text → Option (List (List Text))) → ImportForm → Option Text → M ImportView
    unfolding parse_import_csv import_parsed
    import_raw read_csv f none = pure (import_refused 400)
    import_raw read_csv f (some raw) = import_parsed f (parse_import_csv read_csv raw)

    unfoldable pub handle_users_import :
        (Text → Option (List (List Text))) → Option ImportForm → M ImportView
    unfolding import_raw
    handle_users_import read_csv none = pure (import_refused 400)
    handle_users_import read_csv (some f) = import_raw read_csv f f.raw
