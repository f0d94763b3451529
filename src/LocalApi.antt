-- ===== src/LocalApi.antt =====
-- The local API: cli/internal/api/server.go and the shared parts of its handlers. A request comes
-- routed, and its body decoded: `none` is a body that is no JSON of the type.
pub mod Handlers
pub mod Server
use patrabahok.Base.{ℕ, Bool, true, false, not, Option, none, some, List, if◌then◌else◌}
use patrabahok.Base.Text.{Text, codes, trim_space, has_prefix, trim_prefix}
use patrabahok.Address.{Error, Result, ok, err, not_found}
use patrabahok.Db.{Env, DomainRow, M, pure, ◌>>=◌, attempt}
use patrabahok.Mailboxes.{Mailbox}
use patrabahok.Aliases.{Alias}
use patrabahok.Groups.{Group}
use patrabahok.Groups.Members.{GroupMember, MemberResult}
use patrabahok.Keys.Tokens.{TokenInfo, has_scope, verify}

-- The bodies of the responses; the texts of the error messages are left out.
pub data Payload : Type 0 where
  no_content error_message : Payload
  text_field : Text → Text → Payload
  domain_list : List DomainRow → Payload
  mailbox_list : List Mailbox → Payload
  alias_list : List Alias → Payload
  one_alias : Alias → Payload
  group_list : List Group → Payload
  one_group : Group → List GroupMember → Payload
  member_results : List MemberResult → Payload

pub record Reply : Type 0 where
  pub status : ℕ
  pub payload : Payload

abbrev pub reply : ℕ → Payload → M Reply
reply status payload = pure (record { status = status; payload = payload })

-- writeError
abbrev pub deny : ℕ → M Reply
deny status = reply status error_message

unfoldable pub status_for_err : Error → ℕ
status_for_err not_found = 404
status_for_err _ = 400

-- `if err != nil { writeError(w, …) ; return }`, or what comes next
unfoldable pub reply_or : {A : Type 0} → (Error → ℕ) → (A → M Reply) → Result A → M Reply
reply_or status k (ok a) = k a
reply_or status k (err e) = deny (status e)

unfoldable pub try : {A : Type 0} → M A → (Error → ℕ) → (A → M Reply) → M Reply
unfolding reply_or
try m status k = attempt m >>= reply_or status k

-- A failed read is an error of the server.
abbrev pub server_error : Error → ℕ
server_error e = 500

unfoldable pub with_body : {A : Type 0} → Option A → (A → M Reply) → M Reply
with_body none k = deny 400
with_body (some body) k = k body

abbrev pub bearer : Text
bearer = codes "Bearer "

module _ ⦃env : Env⦄ where
  -- What requireScope does with the answer of Verify.
  unfoldable pub admit_token : Text → M Reply → Result (Option TokenInfo) → M Reply
  unfolding has_scope
  admit_token scope h (err e) = deny 401
  admit_token scope h (ok none) = deny 401
  admit_token scope h (ok (some token)) = if not (has_scope token.scopes scope) then deny 403 else h

  unfoldable pub require_scope : Text → Text → M Reply → M Reply
  unfolding admit_token
  require_scope scope authorization h =
      if not (has_prefix bearer authorization)
      then deny 401
      else (attempt (verify (trim_space (trim_prefix bearer authorization)))
          >>= admit_token scope h)
