-- ===== src/Dashboard.antt =====
-- The admin dashboard: cli/internal/webui, the checks in front of its handlers and what they share.
-- A request comes routed, with the values of its form; `none` is a form that cannot be parsed. The
-- pages themselves, redirect targets and messages are left out.
pub mod Accounts
pub mod Users
pub mod Groups
pub mod Csv
pub mod Quotas
pub mod Import
pub mod Server
use patrabahok.Base.{
  reverse, ℕ, zero, suc, ◌+◌, ◌-◌, Bool, true, false, ◌&&◌, ◌||◌, not, Option, none, some, List, [],
  ◌∷◌, ◌++◌, if◌then◌else◌, any, ◌==◌, length, take, drop,
}
use patrabahok.Base.Text.{
  has_prefix, Text, codes, is_empty, index_byte, last_index_byte, itoa, equal_fold, trim_space,
  to_lower,
}
use patrabahok.Address.{Error, Result, ok, err, invalid, not_found, exists, panic, other, database}
use patrabahok.Db.{Env, M, pure, ◌>>=◌, ◌>>◌, attempt}
use patrabahok.Keys.Tokens.{TokenInfo}
use patrabahok.Aliases.{Alias}
use patrabahok.Groups.{Group}
use patrabahok.Admins.{AdminUser, verify_session}
use patrabahok.Audit.{log_change}

pub data View : Type 0 where
  -- redirects: to the login page (with the cookie cleared or not), home with a new cookie, away
  -- from a session, and behind a change that is done, with a renewed cookie where there is one
  to_login : Bool → View
  home : Option Text → View
  signed_out : View
  done : Option Text → View
  -- an error page, the login form with its status, and the pages and cards
  failed : ℕ → View
  login_page : ℕ → View
  tokens_page : List TokenInfo → Option Text → View
  key_card : Option Text → View
  admins_page : List AdminUser → View
  aliases_page : List Alias → View
  groups_page : List Group → View

-- failErr
unfoldable pub fail_status : Error → ℕ
fail_status invalid = 400
fail_status not_found = 404
fail_status exists = 409
fail_status other = 500
fail_status database = 500
fail_status panic = 500

abbrev pub bad_request : Error → ℕ
bad_request e = 400

abbrev pub show : View → M View
show v = pure v

-- `if err != nil { fail(…); return }`, or what comes next
unfoldable pub or_fail : {A : Type 0} → (Error → ℕ) → (A → M View) → Result A → M View
or_fail status k (ok a) = k a
or_fail status k (err e) = show (failed (status e))

unfoldable pub change : {A : Type 0} → M A → (Error → ℕ) → (A → M View) → M View
unfolding or_fail
change m status k = attempt m >>= or_fail status k

unfoldable pub with_form : {A : Type 0} → Option A → (A → M View) → M View
with_form none k = show (failed 400)
with_form (some form) k = k form

-- strings.ToLower(formValue(r, "local") + "@" + formValue(r, "domain"))
unfoldable pub form_address : Text → Text → Text
form_address local domain = to_lower (trim_space local ++ b'@' ∷ trim_space domain)

-- The host of net.SplitHostPort; `none` is an error.
unfoldable pub bracketed_host : Text → ℕ → Option Text
bracketed_host s i = elim (index_byte b']' s) [
  | none ↦ none
  | some j ↦
      if j + 1 == i
        && not (any (λ c. c == b'[') (drop 1 s) || any (λ c. c == b']') (drop (j + 1) s))
      then some (drop 1 (take j s))
      else none
]

unfoldable pub plain_host : Text → ℕ → Option Text
plain_host s i =
    if any (λ c. c == b':') (take i s) || (any (λ c. c == b'[') s || any (λ c. c == b']') s)
    then none
    else some (take i s)

unfoldable pub split_host : Text → Option Text
unfolding bracketed_host plain_host
split_host s = elim (last_index_byte b':' s) [
  | none ↦ none
  | some i ↦ elim (index_byte b'[' s) [ some zero ↦ bracketed_host s i | _ ↦ plain_host s i ]
]

unfoldable pub host_or_all : Text → Text
unfolding split_host
host_or_all remote = elim (split_host remote) [ none ↦ remote | some host ↦ host ]

-- An arrow and a blank, in UTF-8.
abbrev pub arrow : Text
arrow = 0xE2 ∷ 0x86 ∷ 0x92 ∷ 32 ∷ []

abbrev has_suffix : Text → Text → Bool
has_suffix p s = has_prefix (reverse p) (reverse s)

-- plural
unfoldable pub counted : ℕ → Text → Text
counted n noun =
    if n == 1
    then codes "1 " ++ noun
    else (itoa n
        ++ (codes " "
            ++ (noun
                ++ (if has_suffix (codes "s") noun
                      || (has_suffix (codes "x") noun || has_suffix (codes "sh") noun)
                    then codes "es"
                    else codes "s"))))

-- Who is signed in, and from where.
pub record Visitor : Type 0 where
  pub user : AdminUser
  pub remote_addr : Text

-- s.record
unfoldable pub record_act : Visitor → Text → Text → Text → M (Unit {0})
unfolding host_or_all
record_act v action target detail =
    log_change (codes "admin:" ++ v.user.username) action target detail (host_or_all v.remote_addr)

-- A change that is recorded and done.
unfoldable pub recorded : Visitor → Text → Text → Text → M View
unfolding record_act
recorded v action target detail = record_act v action target detail >> show (done none)

-- A request: the header Origin, the host that it names, the session cookie, the remote address and
-- the agent.
pub record Incoming : Type 0 where
  pub origin : Text
  pub host : Text
  pub cookie : Option Text
  pub remote_addr : Text
  pub user_agent : Text

-- The host of a URL, as url.Parse of Go's library reads it; `none` is an error.
abbrev pub UrlHost : Type 0
UrlHost = Text → Option Text

unfoldable pub is_cross_origin : UrlHost → Incoming → Bool
is_cross_origin url_host req =
    not (is_empty req.origin)
    && elim (url_host req.origin) [ none ↦ true | some h ↦ not (equal_fold h req.host) ]

-- secure, without the headers that it sets: only a method that is safe passes unchecked.
unfoldable pub secure : UrlHost → Bool → Incoming → M View → M View
unfolding is_cross_origin
secure url_host is_safe req h =
    if not is_safe && is_cross_origin url_host req then show (failed 403) else h

module _ ⦃env : Env⦄ where
  unfoldable pub admit_visitor : Text → (Visitor → M View) → Result (Option AdminUser) → M View
  admit_visitor remote h (err e) = show (to_login true)
  admit_visitor remote h (ok none) = show (to_login true)
  admit_visitor remote h (ok (some user)) = h (record { user = user; remote_addr = remote })

  unfoldable pub check_cookie : Text → (Visitor → M View) → Option Text → M View
  unfolding admit_visitor
  check_cookie remote h none = show (to_login false)
  check_cookie remote h (some token) = attempt (verify_session token) >>= admit_visitor remote h

  unfoldable pub require_auth : Incoming → (Visitor → M View) → M View
  unfolding check_cookie
  require_auth req h = check_cookie req.remote_addr h req.cookie
