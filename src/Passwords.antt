-- ===== src/Passwords.antt =====
-- The password hashes of cli/internal/adminauth/adminauth.go: HashPassword and VerifyPassword.
-- Argon2id of golang.org/x/crypto is a parameter.
pub mod RoundTrip
use patrabahok.Base.{
  ◌%◌, ℕ, ◌+◌, ◌*◌, ◌^◌, Bool, true, false, ◌&&◌, ◌||◌, not, Option, none, some, List, [], ◌∷◌,
  ◌++◌, if◌then◌else◌, ltb, ◌==◌, take, drop, length,
}
use patrabahok.Base.Text.{Text, codes, itoa, text_eq, is_space, is_empty, has_prefix}
use patrabahok.Base.Split.{split_on}
use patrabahok.Base.Base64.{base64_encode, base64_decode}
use patrabahok.Quota.{span_digits, value_from}
use patrabahok.Mailboxes.Usage.{parse_signed}
use patrabahok.Db.{M, pure, ◌>>=◌, random}

-- argon2.IDKey of a password and a salt, with time, memory, threads and the length of the key, and
-- argon2.Version.
pub record Argon2 : Type 0 where
  pub id_key : Text → Text → ℕ → ℕ → ℕ → ℕ → Text
  pub version : ℕ

abbrev pub argon_time : ℕ
argon_time = 3

abbrev pub argon_memory : ℕ
argon_memory = 64 * 1024

abbrev pub argon_threads : ℕ
argon_threads = 2

abbrev pub argon_key_len : ℕ
argon_key_len = 32

abbrev pub salt_len : ℕ
salt_len = 16

-- m=…,t=…,p=…
unfoldable pub cost_text : ℕ → ℕ → ℕ → Text
cost_text memory time threads =
    codes "m=" ++ (itoa memory ++ (codes ",t=" ++ (itoa time ++ (codes ",p=" ++ itoa threads))))

unfoldable pub encoded_hash : Argon2 → Text → Text → Text
unfolding base64_encode cost_text
encoded_hash argon password salt =
    let hash = argon.id_key password salt argon_time argon_memory argon_threads argon_key_len in
    codes "$argon2id$v="
    ++ (itoa argon.version
        ++ (codes "$"
            ++ (cost_text argon_memory argon_time argon_threads
                ++ (codes "$" ++ (base64_encode salt ++ (codes "$" ++ base64_encode hash))))))

unfoldable pub hash_admin_password : Argon2 → Text → M Text
unfolding encoded_hash
hash_admin_password argon password = do
  drawn ← random
  pure (encoded_hash argon password (take salt_len drawn))

-- What fmt.Sscanf does in front of a number: blanks are passed over, a line end is an error.
unfoldable pub skip_space : Text → Option Text
skip_space [] = some []
skip_space (c ∷ s) =
    let rest = skip_space s in if c == 10 then none else if is_space c then rest else some (c ∷ s)

unfoldable pub scan_literal : Text → Text → Option Text
scan_literal p s = if has_prefix p s then some (drop (length p) s) else none

-- %d into a uint32
unfoldable pub digits_below : ℕ → Text × Text → Option (ℕ × Text)
digits_below limit (ds, rest) =
    if is_empty ds
    then none
    else if ltb (value_from 0 ds) limit
    then some (value_from 0 ds, rest)
    else none

unfoldable pub scan_uint32 : Text → Option (ℕ × Text)
unfolding skip_space digits_below span_digits
scan_uint32 s = elim (skip_space s) [ none ↦ none | some t ↦ digits_below (2 ^ 32) (span_digits t) ]

-- %d into an int, whose value is not looked at.
unfoldable pub signed_digits : Text → Text × Text
signed_digits [] = ([], [])
signed_digits (c ∷ s) =
    let (ds, rest) = span_digits s in
    if c == b'+' || c == b'-' then (c ∷ ds, rest) else span_digits (c ∷ s)

unfoldable pub int_of : Text × Text → Option Text
unfolding parse_signed
int_of (token, rest) = elim (parse_signed token) [ none ↦ none | some n ↦ some rest ]

unfoldable pub scan_int : Text → Option Text
unfolding skip_space signed_digits int_of
scan_int s = elim (skip_space s) [ none ↦ none | some t ↦ int_of (signed_digits t) ]

infixl 10 ◌>>?◌
abbrev ◌>>?◌ : {A B : Type 0} → Option A → (A → Option B) → Option B
o >>? f = elim o [ none ↦ none | some a ↦ f a ]

-- Sscanf(s, "v=%d", &version); what follows the number is not looked at.
unfoldable pub scan_version : Text → Option Text
unfolding scan_literal scan_int
scan_version s = scan_literal (codes "v=") s >>? scan_int

-- Sscanf(s, "m=%d,t=%d,p=%d", &mem, &time_, &threads)
unfoldable pub scan_costs : Text → Option (ℕ × ℕ × ℕ)
unfolding scan_literal scan_uint32
scan_costs s = scan_literal (codes "m=") s >>? scan_uint32 >>? λ (m, a).
    scan_literal (codes ",t=") a >>? scan_uint32 >>? λ (t, b).
    scan_literal (codes ",p=") b >>? scan_uint32 >>? λ (p, rest). some (m, t, p)

-- The six parts between the dollar signs; uint8(threads) keeps the low byte.
unfoldable pub verify_parts : Argon2 → Text → List Text → Option Bool
unfolding scan_version scan_costs base64_decode
verify_parts argon password (empty ∷ name ∷ version ∷ costs ∷ salt ∷ hash ∷ []) =
    if not (text_eq name (codes "argon2id"))
    then none
    else (scan_version version >>? λ rest. scan_costs costs >>? λ (m, t, p).
        base64_decode salt >>? λ salt'. base64_decode hash >>? λ want.
        some (text_eq (argon.id_key password salt' t m (p % 256) (length want)) want))
verify_parts argon password _ = none

-- VerifyPassword; `none` is an error.
unfoldable pub verify_password : Argon2 → Text → Text → Option Bool
unfolding verify_parts split_on
verify_password argon password encoded = verify_parts argon password (split_on b'$' encoded)
