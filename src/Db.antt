-- ===== src/Db.antt =====
-- The state behind the server: the tables of sql/schema, the mailbox directories and the random
-- source, and programs that read and change it. A call out of the process may fail: `faults` says
-- of each coming call whether it does, so a statement about all `faults` covers every failure.
pub mod Rules
pub mod Like
pub mod Page
pub mod Keeps
pub mod Answers
use patrabahok.Base.{
  ℕ, suc, ◌+◌, ◌≡◌, Bool, true, false, ◌&&◌, ◌||◌, Option, none, some, List, [], ◌∷◌, ◌++◌,
  if◌then◌else◌, any,
}
use patrabahok.Base.Text.{Text, text_eq}
use patrabahok.Base.Int.{ℤ}
use patrabahok.Address.{Error, Result, ok, err, database, other}

-- What the program takes from outside: the weights by which the collation of the database compares
-- two texts, and the two digests of Go's library. Digests are lists of bytes.
pub record Env : Type 0 where
  pub weight : Text → Text
  pub sha256 : Text → Text
  pub sha512 : Text → Text

-- virtual_domains
pub record DomainRow : Type 0 where
  pub id : ℕ
  pub name : Text

-- virtual_users
pub record UserRow : Type 0 where
  pub domain_id : ℕ
  pub email : Text
  pub display_name : Text
  pub password : Text
  pub maildir : Text
  pub quota_bytes : ℤ
  pub enabled : Bool
  pub created_at : ℕ

-- virtual_aliases
pub record AliasRow : Type 0 where
  pub domain_id : ℕ
  pub source : Text
  pub destination : Text

-- mail_groups
pub record GroupRow : Type 0 where
  pub id : ℕ
  pub domain_id : ℕ
  pub email : Text
  pub name : Text
  pub description : Text
  pub post_policy : Text
  pub allow_external : Bool
  pub created_at : ℕ

-- mail_group_members
pub record MemberRow : Type 0 where
  pub group_id : ℕ
  pub member : Text
  pub role : Text
  pub created_at : ℕ

-- mailbox_forwards
pub record ForwardRow : Type 0 where
  pub email : Text
  pub destination : Text
  pub keep_copy : Bool

-- domain_api_keys
pub record KeyRow : Type 0 where
  pub domain_id : ℕ
  pub key_hash : Text
  pub key_hint : Text
  pub created_at : ℕ
  pub last_used_at : Option ℕ

-- api_tokens
pub record TokenRow : Type 0 where
  pub id : ℕ
  pub name : Text
  pub token_hash : Text
  pub scopes : Text
  pub created_at : ℕ
  pub last_used_at : Option ℕ

-- admin_users
pub record AdminRow : Type 0 where
  pub id : ℕ
  pub username : Text
  pub password_hash : Text
  pub last_login_at : Option ℕ

-- admin_sessions, without its id and the time of the insert, which nothing reads
pub record SessionRow : Type 0 where
  pub admin_user_id : ℕ
  pub token_hash : Text
  pub expires_at : ℕ
  pub ip_address : Text
  pub user_agent : Text

-- audit_log, without the id: the rows stand in its order
pub record AuditRow : Type 0 where
  pub at : ℕ
  pub actor : Text
  pub action : Text
  pub target : Text
  pub detail : Text
  pub ip : Text

pub record State : Type 0 where
  pub domains : List DomainRow
  pub users : List UserRow
  pub aliases : List AliasRow
  pub groups : List GroupRow
  pub members : List MemberRow
  pub forwards : List ForwardRow
  pub keys : List KeyRow
  pub tokens : List TokenRow
  pub audit : List AuditRow
  pub admins : List AdminRow
  pub sessions : List SessionRow
  -- AUTO_INCREMENT of virtual_domains, mail_groups, api_tokens and admin_users
  pub next_domain : ℕ
  pub next_group : ℕ
  pub next_token : ℕ
  pub next_admin : ℕ
  -- the directories that exist, the random source's answers and how many were drawn, the clock
  pub dirs : List Text
  pub entropy : ℕ → Text
  pub draws : ℕ
  pub now : ℕ

pub record World : Type 0 where
  pub state : State
  pub faults : List Bool

-- A program ends with a value or an error, and leaves what it wrote before.
abbrev pub M : Type 0 → Type 0
M A = World → Result A × World

unfoldable pub pure : {A : Type 0} → A → M A
pure a w = (ok a, w)

unfoldable pub fail : {A : Type 0} → Error → M A
fail e w = (err e, w)

unfoldable pub lift : {A : Type 0} → Result A → M A
lift r w = (r, w)

continue : {A B : Type 0} → Result A → (A → M B) → M B
continue (ok a) k w = k a w
continue (err e) k w = (err e, w)

infixl 10 ◌>>=◌ ◌>>◌
unfoldable pub ◌>>=◌ : {A B : Type 0} → M A → (A → M B) → M B
unfolding continue
◌>>=◌ m k w = let (r, w') = m w in continue r k w'

abbrev pub ◌>>◌ : {B : Type 0} → M (Unit {0}) → M B → M B
m >> k = m >>= λ _. k

-- A call out of the process: it fails with `e` and no effect, or it runs.
unfoldable pub call : {A : Type 0} → Error → (State → A × State) → M A
call e f w = elim w.faults [
  | [] ↦ (ok (f w.state).0, record { state = (f w.state).1; faults = [] })
  | true ∷ rest ↦ (err e, record w { faults = rest })
  | false ∷ rest ↦ (ok (f w.state).0, record { state = (f w.state).1; faults = rest })
]

-- A statement that changes rows, one that reads, and a file operation.
unfoldable pub exec : {A : Type 0} → (State → A × State) → M A
unfolding call
exec f = call database f

unfoldable pub query : {A : Type 0} → (State → A) → M A
unfolding call
query f = call database (λ s. (f s, s))

unfoldable pub disk : (State → State) → M (Unit {0})
unfolding call
disk f = call other (λ s. (tt, f s))

-- if cond { return err }
unfoldable pub refuse_if : Bool → Error → M (Unit {0})
refuse_if b e w = ((if b then err e else ok tt), w)

-- An error that the code looks at or drops, as a value.
unfoldable pub attempt : {A : Type 0} → M A → M (Result A)
attempt m w = let (r, w') = m w in (ok r, w')

-- rand.Read: the next answer of the random source, which may fail as any call may.
unfoldable pub random : M Text
unfolding call
random = call other (λ s. (s.entropy s.draws, record s { draws = s.draws + 1 }))

-- A transaction: BEGIN, the body, COMMIT; after an error the tables are what they were.
rolled_back : {A : Type 0} → State → Result A × World → Result A × World
rolled_back s (ok a, w) = (ok a, w)
rolled_back s (err e, w) = (err e, record w { state = s })

committed : {A : Type 0} → M A → M A
committed m = do query (λ s. tt); a ← m; query (λ s. tt); pure a

unfoldable pub transaction : {A : Type 0} → M A → M A
unfolding committed rolled_back
transaction m w = rolled_back w.state (committed m w)

-- a = b under the collation of the tables.
unfoldable pub same : ⦃env : Env⦄ → Text → Text → Bool
same ⦃env⦄ a b = text_eq (env.weight a) (env.weight b)
