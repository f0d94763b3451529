-- ===== src/Mailboxes.antt =====
-- Creating mailboxes: MailboxAdd and MailboxCreate of cli/internal/mailbox/mailbox.go.
pub mod Change
pub mod Creation
pub mod Search
pub mod Usage
use patrabahok.Base.{
  ℕ, ◌+◌, ◌≡◌, Bool, true, false, ◌&&◌, ◌||◌, not, Option, none, some, List, [], ◌∷◌, ◌++◌, map,
  if◌then◌else◌, any, ltb, leb, ◌==◌, length, take,
}
use patrabahok.Base.Text.{Text, codes, text_eq, text_lt, rune_count, has_prefix, is_empty}
use patrabahok.Base.Table.{rows_where, row_where, delete_where, update_where, count_where, order_by}
use patrabahok.Base.Int.{ℤ, is_positive, int_eq}
use patrabahok.Address.{
  Result, ok, err, not_found, exists, other, invalid, validate_email, split_email,
}
use patrabahok.Address.Paths.{mailbox_dir}
use patrabahok.Crypt.{sha512_crypt, salt_of}
use patrabahok.Db.{
  Env, State, DomainRow, UserRow, ForwardRow, MemberRow, M, pure, fail, lift, ◌>>=◌, ◌>>◌, exec,
  query, disk, refuse_if, random, same,
}
use patrabahok.Domains.{Kind, user, group, alias, domain_id, address_kind, not_a_group, has_user}

pub record Mailbox : Type 0 where
  pub email : Text
  pub display_name : Text
  pub enabled : Bool
  pub quota_bytes : ℤ
  -- `none` where the query does not select it
  pub created_at : Option ℕ

abbrev pub min_password_length : ℕ
min_password_length = 8

abbrev pub max_password_length : ℕ
max_password_length = 128

unfoldable pub validate_password : Text → Result (Unit {0})
validate_password p =
    let n = rune_count p in
    if ltb n min_password_length || ltb max_password_length n then err invalid else ok tt

-- MkdirAll of a directory below the mailbox's; the parents that it makes are not listed.
unfoldable pub make_dir : Text → State → State
make_dir path s = record s {
  dirs = if any (λ d. text_eq d path) s.dirs then s.dirs else path ∷ s.dirs;
}

-- createMaildir: four directories, then one walk that changes owners.
unfoldable pub create_maildir : Text → Text → M (Unit {0})
unfolding make_dir
create_maildir domain local = do
  let dir = mailbox_dir domain local
  disk (make_dir (dir ++ codes "/Maildir/cur"))
  disk (make_dir (dir ++ codes "/Maildir/new"))
  disk (make_dir (dir ++ codes "/Maildir/tmp"))
  disk (make_dir (dir ++ codes "/sieve"))
  disk (λ s. s)

-- os.RemoveAll: the path and what lies below it.
unfoldable pub lies_below : Text → Text → Bool
lies_below path d = text_eq d path || has_prefix (path ++ codes "/") d

unfoldable pub remove_all : Text → State → State
unfolding lies_below
remove_all path s = record s { dirs = delete_where (lies_below path) s.dirs }

-- kind == "group" || kind == "user"
abbrev pub is_taken : Option Kind → Bool
is_taken (some user) = true
is_taken (some group) = true
is_taken _ = false

abbrev pub full_view : UserRow → Mailbox
full_view u = record {
  email = u.email;
  display_name = u.display_name;
  enabled = u.enabled;
  quota_bytes = u.quota_bytes;
  created_at = some u.created_at;
}

abbrev pub list_view : UserRow → Mailbox
list_view u = record {
  email = u.email;
  display_name = u.display_name;
  enabled = u.enabled;
  quota_bytes = u.quota_bytes;
  created_at = none;
}

module _ ⦃env : Env⦄ where
  -- hashPassword; a byte list stands for the 16 bytes that randomSalt draws.
  unfoldable pub hash_password : Text → M Text
  hash_password password = do
    drawn ← random
    pure (codes "{SHA512-CRYPT}" ++ sha512_crypt env.sha512 password (salt_of (take 16 drawn)) 5000)

  -- INSERT … ON DUPLICATE KEY UPDATE password, quota_bytes
  unfoldable pub upsert_user : UserRow → State → Unit {0} × State
  upsert_user row s = (
    tt,
    if has_user row.email s
        then record s {
          users =
              update_where (λ u. same u.email row.email)
                (λ u. record u { password = row.password; quota_bytes = row.quota_bytes }) s.users;
        }
        else record s { users = s.users ++ row ∷ [] },
  )

  -- INSERT; the result is false if the key on the address is taken.
  unfoldable pub insert_user : UserRow → State → Bool × State
  insert_user row s =
      if has_user row.email s then (false, s) else (true, record s { users = s.users ++ row ∷ [] })

  unfoldable pub new_row : ℕ → Text → Text → Text → Text → Text → ℤ → ℕ → UserRow
  new_row id email name hash domain local quota now = record {
    domain_id = id;
    email = email;
    display_name = name;
    password = hash;
    maildir = domain ++ codes "/" ++ local;
    quota_bytes = quota;
    enabled = true;
    created_at = now;
  }

  unfoldable pub mailbox_add : Text → Text → ℤ → M (Unit {0})
  mailbox_add email password quota = do
    (local, domain) ← lift (split_email email)
    id ← domain_id domain
    not_a_group email
    hash ← hash_password password
    exec (λ s. upsert_user (new_row id email [] hash domain local quota s.now) s)
    create_maildir domain local

  unfoldable pub mailbox_create : Text → Text → Text → ℤ → M (Unit {0})
  mailbox_create email password name quota = do
    (local, domain) ← lift (split_email email)
    id ← domain_id domain
    kind ← address_kind email
    refuse_if (is_taken kind) exists
    hash ← hash_password password
    inserted ← exec (λ s. insert_user (new_row id email name hash domain local quota s.now) s)
    refuse_if (not inserted) exists
    create_maildir domain local
