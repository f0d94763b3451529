-- ===== src/Tests/Admins.antt =====
-- The theorems on the accounts of the dashboard, at concrete tables.
use patrabahok.Base.{◌≡◌, ℕ, zero, suc, ◌%◌, ◌+◌, length, ap, arith, take, refl, [], ◌∷◌, none}
use patrabahok.Base.Text.{Text, codes, text_eq, to_lower}
use patrabahok.Base.Table.{row_where}
use patrabahok.Keys.{hex}
use patrabahok.Db.{◌>>◌, State, AdminRow, same}
use patrabahok.Db.Rules.{Runs}
use patrabahok.Passwords.{Argon2, salt_len}
use patrabahok.Passwords.RoundTrip.{IsArgon2}
use patrabahok.Base.Base64.{IsBytes}
use patrabahok.Admins.Login.{SignsIn, change_password-SignsIn}
use patrabahok.Admins.{
  authenticate, change_password, create_session, admin_with_id, hash_session_token,
}
use patrabahok.Admins.Sessions.{
  SignedOut, change_password-SignedOut, SignedIn, create_session-SignedIn,
}
use patrabahok.Tests.Data.{plain, drawn, nothing_yet}

-- A key of one byte, as often as is asked for.
abbrev copies : ℕ → ℕ → Text
copies zero x = []
copies (suc n) x = (x % 256) ∷ copies n x

length-copies : (n x : ℕ) → length (copies n x) ≡ n
length-copies zero x = refl
length-copies (suc n) x = ap suc (length-copies n x)

copies-IsBytes : (n x : ℕ) → IsBytes (copies n x)
copies-IsBytes zero x = tt
copies-IsBytes (suc n) x = (omega arith, copies-IsBytes n x)

abbrev pub toy_argon : Argon2
toy_argon = record { id_key = λ p s t m h n. copies n (length p + length s); version = 19 }

toy_argon-IsArgon2 : IsArgon2 toy_argon
toy_argon-IsArgon2 = record {
  key_length = λ p s t m h n. length-copies n (length p + length s);
  key_bytes = λ p s t m h n. copies-IsBytes n (length p + length s);
  version_fits = omega arith;
}

abbrev root_admin : AdminRow
root_admin = record {
  id = 1;
  username = codes "root";
  password_hash = codes "old";
  last_login_at = none;
}

abbrev pub dashboard : State
dashboard = record nothing_yet {
  admins = root_admin ∷ [];
  sessions =
      record {
        admin_user_id = 1;
        token_hash = codes "aa";
        expires_at = 9;
        ip_address = [];
        user_agent = [];
      }
      ∷ [];
  next_admin = 2;
}

change_password-SignedOut_example :
    Runs dashboard
      (change_password toy_argon (codes "root") (codes "new"))
      (SignedOut (codes "root") dashboard)
change_password-SignedOut_example =
    change_password-SignedOut toy_argon (codes "root") (codes "new") dashboard

create_session-SignedIn_example :
    Runs dashboard
      (create_session 1 (codes "10.0.0.1") (codes "curl"))
      (SignedIn root_admin dashboard)
unfolding admin_with_id row_where same text_eq to_lower hash_session_token hex
create_session-SignedIn_example =
    create_session-SignedIn 1 (codes "10.0.0.1") (codes "curl") dashboard root_admin refl refl

change_password-SignsIn_example :
    Runs dashboard
      (change_password toy_argon (codes "root") (codes "new")
        >> authenticate toy_argon (codes "root") (codes "old!"))
      (SignsIn toy_argon (take salt_len drawn) (codes "root") (codes "new") (codes "old!"))
change_password-SignsIn_example =
    change_password-SignsIn toy_argon (codes "root") (codes "new") (codes "old!") dashboard
      toy_argon-IsArgon2 (omega arith)
