-- ===== src/Tests/Import.antt =====
-- An import of users at concrete tables.
use patrabahok.Base.{map, ℕ, Option, some, List}
use patrabahok.Base.Text.{Text, codes}
use patrabahok.Base.Split.{split_on}
use patrabahok.Db.Rules.{Runs}
use patrabahok.Invariant.History.{reachable-IsValid}
use patrabahok.Dashboard.{Visitor}
use patrabahok.Dashboard.Import.{ImportForm, generate_password, handle_users_import}
use patrabahok.Dashboard.Import.Passwords.{Generated, generate_password-Generated}
use patrabahok.Dashboard.Import.Imported.{Imported, rows_to_import, handle_users_import-Imported}
use patrabahok.Tests.Data.{plain, nothing_yet, grown, grown_reachable}

abbrev first_number : ℕ → Text → ℕ
first_number = λ max bytes. 0

-- A reader of CSV without quotes.
abbrev plain_csv : Text → Option (List (List Text))
plain_csv = λ raw. some (map (split_on b',') (split_on 10 raw))

abbrev two_rows : ImportForm
two_rows = record {
  domain = codes "a.org";
  quota = codes "2G";
  raw = some (codes "email,name\nzoe,Zoe,password9\nbob,Bob,password9\n");
}

abbrev root_visitor : Visitor
root_visitor = record {
  user = record { id = 1; username = codes "root" };
  remote_addr = codes "10.0.0.1:4711";
}

generate_password-Generated_example : Runs nothing_yet (generate_password first_number) Generated
generate_password-Generated_example =
    generate_password-Generated first_number (λ max bytes h. h) nothing_yet

handle_users_import-Imported_example :
    Runs grown
      (handle_users_import first_number root_visitor plain_csv (some two_rows))
      (Imported (rows_to_import plain_csv (some two_rows)) grown)
handle_users_import-Imported_example =
    handle_users_import-Imported first_number root_visitor plain_csv (some two_rows) grown
      (reachable-IsValid grown grown_reachable)
