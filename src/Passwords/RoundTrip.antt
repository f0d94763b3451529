-- ===== src/Passwords/RoundTrip.antt =====
-- A hash of HashPassword, read back by VerifyPassword of cli/internal/adminauth/adminauth.go.
use patrabahok.Base.{
  ◌==◌, ◌||◌, ℕ, ◌<◌, ◌≡◌, refl, ap, ◌∙◌, true, false, some, List, [], ◌∷◌, ◌++◌, length, arith,
}
use patrabahok.Base.Text.{Text, codes, itoa, is_empty, text_eq, has_prefix}
use patrabahok.Base.Split.{split_on, split_on-append, split_on_plain, has_none}
use patrabahok.Base.Base64.{base64_encode, IsBytes, decode-encode, has_none-encode}
use patrabahok.Base.Int.{pos, two_63}
use patrabahok.Quota.{span_digits, value_from}
use patrabahok.Quota.Decimal.{IsDigits, itoa-IsDigits, itoa-nonempty}
use patrabahok.Mailboxes.Usage.Sum.{parse_signed-signed}
use patrabahok.Passwords.{
  Argon2, argon_time, argon_memory, argon_threads, argon_key_len, cost_text, encoded_hash,
  skip_space, signed_digits, scan_int, int_of, scan_literal, scan_version, scan_costs, verify_parts,
  verify_password,
}

-- What argon2 promises: a key has the length that is asked for, and consists of bytes; the version
-- is an int.
pub record IsArgon2 (argon : Argon2) : Type 0 where
  pub key_length :
      (password salt : Text) (time memory threads len : ℕ)
      → length (argon.id_key password salt time memory threads len) ≡ len
  pub key_bytes :
      (password salt : Text) (time memory threads len : ℕ)
      → IsBytes (argon.id_key password salt time memory threads len)
  pub version_fits : argon.version < two_63

skip_space-IsDigits : (s : Text) → IsDigits s → is_empty s ≡ false → skip_space s ≡ some s
unfolding skip_space
skip_space-IsDigits [] h e = cc
skip_space-IsDigits (c ∷ s) (h, hs) e = ground arith

span_digits-IsDigits : (s : Text) → IsDigits s → span_digits s ≡ (s, [])
unfolding span_digits
span_digits-IsDigits [] h = refl
span_digits-IsDigits (c ∷ s) (h, hs) = rw (h, span_digits-IsDigits s hs)

signed_digits-IsDigits : (s : Text) → IsDigits s → signed_digits s ≡ (s, [])
unfolding signed_digits
signed_digits-IsDigits [] h = refl
signed_digits-IsDigits (c ∷ s) (h, hs) =
    let plain : (c == b'+' || c == b'-') ≡ false = ground arith in
    rw plain (span_digits-IsDigits (c ∷ s) (h, hs))

has_none-IsDigits : (s : Text) → IsDigits s → has_none b'$' s ≡ true
has_none-IsDigits [] h = refl
has_none-IsDigits (c ∷ s) (h, hs) = ground (arith, has_none-IsDigits s hs)

scan_int-itoa : (n : ℕ) → n < two_63 → scan_int (itoa n) ≡ some []
unfolding scan_int int_of
scan_int-itoa n h =
    rw (scan_int, skip_space-IsDigits (itoa n) (itoa-IsDigits n) (itoa-nonempty n))
      (rw (signed_digits-IsDigits (itoa n) (itoa-IsDigits n))
        (rw (int_of, parse_signed-signed (pos n) h) refl))

scan_version-itoa : (n : ℕ) → n < two_63 → scan_version (codes "v=" ++ itoa n) ≡ some []
unfolding scan_version scan_literal has_prefix
scan_version-itoa n h = scan_int-itoa n h

abbrev costs : Text
costs = cost_text argon_memory argon_time argon_threads

scan_costs-cost_text : scan_costs costs ≡ some (argon_memory, argon_time, argon_threads)
unfolding scan_costs cost_text has_prefix itoa value_from
scan_costs-cost_text = refl

has_none-cost_text : has_none b'$' costs ≡ true
unfolding cost_text itoa
has_none-cost_text = refl

abbrev parts_of : Text → Text → Text → List Text
parts_of version salt hash = [] ∷ codes "argon2id" ∷ version ∷ costs ∷ salt ∷ hash ∷ []

split_parts :
    (version salt hash : Text)
    → has_none b'$' version ≡ true
    → has_none b'$' salt ≡ true
    → has_none b'$' hash ≡ true
    → split_on b'$' (
        b'$'
        ∷ (codes "argon2id"
            ++ (b'$' ∷ (version ++ (b'$' ∷ (costs ++ (b'$' ∷ (salt ++ b'$' ∷ hash))))))))
      ≡ parts_of version salt hash
split_parts version salt hash hv hs hh =
    split_on-append b'$' [] _ refl
    ∙ ap (λ r. [] ∷ r)
        (split_on-append b'$' (codes "argon2id") _ refl
          ∙ ap (λ r. codes "argon2id" ∷ r)
              (split_on-append b'$' version _ hv
                ∙ ap (λ r. version ∷ r)
                    (split_on-append b'$' costs _ has_none-cost_text
                      ∙ ap (λ r. costs ∷ r)
                          (split_on-append b'$' salt _ hs
                            ∙ ap (λ r. salt ∷ r) (split_on_plain b'$' hash hh)))))

abbrev pub key_of : Argon2 → Text → Text → Text
key_of argon salt password =
    argon.id_key password salt argon_time argon_memory argon_threads argon_key_len

module _ (argon : Argon2) (promised : IsArgon2 argon) (salt : Text) (bytes : IsBytes salt) where
  key_IsBytes : (p : Text) → IsBytes (key_of argon salt p)
  key_IsBytes p = promised.key_bytes p salt argon_time argon_memory argon_threads argon_key_len

  key_long : (p : Text) → length (key_of argon salt p) ≡ argon_key_len
  key_long p = promised.key_length p salt argon_time argon_memory argon_threads argon_key_len

  verify_parts_lem :
      (p password : Text)
      → verify_parts argon p (
          parts_of
            (codes "v=" ++ itoa argon.version)
            (base64_encode salt)
            (base64_encode (key_of argon salt password)))
        ≡ some (text_eq (key_of argon salt p) (key_of argon salt password))
  unfolding verify_parts text_eq
  verify_parts_lem p password =
      rw (verify_parts, scan_version-itoa argon.version promised.version_fits)
        (rw (verify_parts, scan_costs-cost_text)
          (rw (decode-encode salt bytes) (
            rw (decode-encode (key_of argon salt password) (key_IsBytes password))
              (rw (key_long password) refl))))

  -- A password is checked against the hash of another by their keys with the salt of the hash.
  pub verify_password-encoded_hash :
      (p password : Text)
      → verify_password argon p (encoded_hash argon password salt)
        ≡ some (text_eq (key_of argon salt p) (key_of argon salt password))
  unfolding verify_password encoded_hash
  verify_password-encoded_hash p password =
      let version_plain = has_none-IsDigits (itoa argon.version) (itoa-IsDigits argon.version) in
      ap (verify_parts argon p) (
        split_parts (codes "v=" ++ itoa argon.version) (base64_encode salt)
          (base64_encode (key_of argon salt password)) version_plain (has_none-encode salt bytes)
          (has_none-encode (key_of argon salt password) (key_IsBytes password)))
      ∙ verify_parts_lem p password
