-- ===== src/PublicApi.antt =====
-- The per-domain API: cli/internal/publicapi/publicapi.go, the parts that its handlers share. A
-- request comes routed, and its body decoded: `none` is a body that is no JSON of the type.
pub mod Handlers
pub mod GroupHandlers
pub mod Server
pub mod Store
use patrabahok.Base.{
  ℕ, ◌+◌, ◌≡◌, Bool, true, false, ◌&&◌, ◌||◌, not, Option, none, some, List, [], ◌∷◌, ◌++◌, map,
  if◌then◌else◌, any, ltb, leb, ◌==◌, length, take,
}
use patrabahok.Base.Text.{
  Text, codes, to_lower, trim_space, trim_left, trim_right, is_empty, has_prefix, trim_prefix,
  last_index_byte, contains, contains_any, rune_count, cut, itoa, equal_fold,
}
use patrabahok.Base.Int.{ℤ}
use patrabahok.Regex.{Regex, one, seq, opt, upto, match_string}
use patrabahok.Address.{Error, Result, ok, err, invalid, not_found, exists, panic, other, database}
use patrabahok.Db.{Env, State, M, pure, ◌>>=◌, attempt}
use patrabahok.Mailboxes.{Mailbox}
use patrabahok.Aliases.{Alias, Forward}
use patrabahok.Groups.{Group}
use patrabahok.Groups.Members.{GroupMember, MemberResult}
use patrabahok.Keys.{verify}

pub record MailboxView : Type 0 where
  pub email : Text
  pub username : Text
  pub name : Text
  pub enabled : Bool
  pub quota_bytes : ℤ

-- The bodies of the responses; the texts of the error messages are left out.
pub data Payload : Type 0 where
  no_content error_message : Payload
  one_mailbox : MailboxView → Payload
  many_mailboxes : List MailboxView → Payload
  one_alias : Alias → Payload
  many_aliases : List Alias → Payload
  one_group : Group → List GroupMember → Payload
  many_groups : List Group → Payload
  member_results : List MemberResult → ℕ → ℕ → Payload
  one_forward : Forward → Payload

pub record Response : Type 0 where
  pub status : ℕ
  pub payload : Payload

abbrev pub respond : ℕ → Payload → M Response
respond status payload = pure (record { status = status; payload = payload })

-- writeError
abbrev pub refuse : ℕ → M Response
refuse status = respond status error_message

-- writeStoreError
unfoldable pub store_error_status : Error → ℕ
store_error_status not_found = 404
store_error_status exists = 409
store_error_status invalid = 400
store_error_status other = 500
store_error_status database = 500
store_error_status panic = 500

-- `if err != nil { writeStoreError(w, err); return }`, or what comes next
unfoldable pub respond_or : {A : Type 0} → (A → M Response) → Result A → M Response
respond_or k (ok a) = k a
respond_or k (err e) = refuse (store_error_status e)

unfoldable pub on_success : {A : Type 0} → M A → (A → M Response) → M Response
unfolding respond_or
on_success m k = attempt m >>= respond_or k

-- decode: a body that cannot be read is answered with 400.
unfoldable pub decoded : {A : Type 0} → Option A → (A → M Response) → M Response
decoded none k = refuse 400
decoded (some body) k = k body

abbrev pub is_username_end : ℕ → Bool
is_username_end c = leb b'a' c && leb c b'z' || leb b'0' c && leb c b'9'

abbrev pub is_username_byte : ℕ → Bool
is_username_byte c = is_username_end c || c == b'.' || c == b'_' || c == b'-'

-- ^[a-z0-9]([a-z0-9._-]{0,62}[a-z0-9])?$
unfoldable pub username_re : Regex
unfolding upto
username_re =
    seq (one is_username_end) (opt (seq (upto 62 (one is_username_byte)) (one is_username_end)))

-- address, for the domain of the key
unfoldable pub address : Text → Text → Option Text
address domain username =
    let u = to_lower (trim_space username) in
    if not (match_string username_re u) || contains (codes "..") u
    then none
    else some (u ++ b'@' ∷ domain)

unfoldable pub at_address : Text → Text → (Text → M Response) → M Response
unfolding address
at_address domain username k = decoded (address domain username) k

unfoldable pub valid_password : Text → Bool
valid_password p = let n = rune_count p in not (ltb n 8 || ltb 128 n)

unfoldable pub valid_name : Text → Bool
valid_name name = not (ltb 255 (rune_count name) || contains_any (λ c. c == 13 || c == 10) name)

unfoldable pub view_of : Mailbox → MailboxView
view_of m = record {
  email = m.email;
  username = (cut b'@' m.email).0;
  name = m.display_name;
  enabled = m.enabled;
  quota_bytes = m.quota_bytes;
}

unfoldable pub plural : ℕ → Text → Text
plural n noun = if n == 1 then codes "1 " ++ noun else itoa n ++ codes " " ++ noun ++ codes "s"

-- What every handler knows of its request: the domain of the key, and where it comes from.
pub record Caller : Type 0 where
  pub domain : Text
  pub remote_addr : Text

abbrev pub is_bracket : ℕ → Bool
is_bracket c = c == b'[' || c == b']'

unfoldable pub before_port : Text → Option ℕ → Text
before_port remote none = remote
before_port remote (some i) = take i remote

unfoldable pub client_ip : Text → Text
unfolding before_port
client_ip remote =
    trim_right is_bracket (trim_left is_bracket (before_port remote (last_index_byte b':' remote)))

-- The headers with a key, and the domain of the path.
pub record Credentials : Type 0 where
  pub path_domain : Text
  pub x_api_key : Text
  pub authorization : Text
  pub remote_addr : Text

unfoldable pub presented_key : Credentials → Text
presented_key c =
    if not (is_empty (trim_space c.x_api_key))
    then trim_space c.x_api_key
    else if has_prefix (codes "Bearer ") c.authorization
    then trim_space (trim_prefix (codes "Bearer ") c.authorization)
    else []

module _ ⦃env : Env⦄ where
  -- What auth does with the answer of Verify.
  unfoldable pub admit : Credentials → (Caller → M Response) → Result (Option Text) → M Response
  admit c h (err e) = refuse 500
  admit c h (ok none) = refuse 401
  admit c h (ok (some key_domain)) =
      if not (equal_fold key_domain (to_lower c.path_domain))
      then refuse 403
      else h (record { domain = key_domain; remote_addr = c.remote_addr })

  unfoldable pub auth : Credentials → (Caller → M Response) → M Response
  unfolding admit presented_key
  auth c h =
      if is_empty (presented_key c)
      then refuse 401
      else (attempt (verify (presented_key c)) >>= admit c h)
