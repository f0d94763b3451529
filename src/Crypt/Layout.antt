-- ===== src/Crypt/Layout.antt =====
-- The text that the scheme produces: its length and its letters.
use patrabahok.Base.{
  ◌/◌, ◌*◌, ℕ, zero, suc, ◌+◌, ◌%◌, ◌<◌, ◌≡◌, refl, ap, true, List, [], ◌∷◌, ◌++◌, arith, any,
  length, take, All, All-append, length-append, ◌==◌,
}
use patrabahok.Base.Text.{Text, codes}
use patrabahok.Crypt.{
  byte_at, crypt_alphabet, b64_from_24, order, encode_triples, crypt_digest, sha512_crypt, salt_of,
}

-- A letter of the alphabet of crypt(3).
abbrev pub IsCryptLetter : ℕ → Type 0
IsCryptLetter c = any (λ x. x == c) crypt_alphabet ≡ true

byte_at-any : (s : Text) (i : ℕ) → i < length s → any (λ x. x == byte_at s i) s ≡ true
unfolding byte_at
byte_at-any [] i h = absurd (omega arith)
byte_at-any (b ∷ bs) zero h = ground arith
byte_at-any (b ∷ bs) (suc i) h = ground (arith, byte_at-any bs i)

length-crypt_alphabet : length crypt_alphabet ≡ 64
unfolding crypt_alphabet
length-crypt_alphabet = refl

letter : (w : ℕ) → IsCryptLetter (byte_at crypt_alphabet (w % 64))
letter w = byte_at-any crypt_alphabet (w % 64) (omega (arith, length-crypt_alphabet))

b64_letters : (n w : ℕ) → All IsCryptLetter (b64_from_24 n w) × (length (b64_from_24 n w) ≡ n)
unfolding b64_from_24
b64_letters zero w = (tt, refl)
b64_letters (suc n) w =
    let (letters, long) = b64_letters n (w / 64) in ((letter w, letters), ap suc long)

encode_letters :
    (c : Text) (ts : List (ℕ × ℕ × ℕ))
    → All IsCryptLetter (encode_triples c ts) × (length (encode_triples c ts) ≡ 4 * length ts + 2)
unfolding encode_triples
encode_letters c [] = b64_letters 2 (byte_at c 63)
encode_letters c ((x, y, z) ∷ rest) =
    let (first, four) = b64_letters 4 (byte_at c x * 65536 + byte_at c y * 256 + byte_at c z) in
    let (others, long) = encode_letters c rest in
    (
      All-append IsCryptLetter
          (b64_from_24 4 (byte_at c x * 65536 + byte_at c y * 256 + byte_at c z))
          (encode_triples c rest) first others,
      rw length-append (omega arith),
    )

-- A drawn salt has a letter of the alphabet for each byte.
salt_of-letters :
    (drawn : Text) → All IsCryptLetter (salt_of drawn) × (length (salt_of drawn) ≡ length drawn)
unfolding salt_of
salt_of-letters [] = (tt, refl)
salt_of-letters (b ∷ bs) =
    let (letters, long) = salt_of-letters bs in ((letter b, letters), ap suc long)

-- With the default rounds the result is "$6$", at most 16 bytes of the salt, "$" and 86 letters
-- of the alphabet, whatever the digest function is.
pub sha512_crypt-layout :
    (sha512 : Text → Text) (password salt : Text)
    → (hash : Text) × (sha512_crypt sha512 password salt 5000
        ≡ codes "$6$" ++ (take 16 salt ++ (codes "$" ++ hash)))
      × All IsCryptLetter hash
      × (length hash ≡ 86)
sha512_crypt-layout sha512 password salt =
    let hash = encode_triples (crypt_digest sha512 password (take 16 salt) 5000) order in
    let (letters, long) = encode_letters (crypt_digest sha512 password (take 16 salt) 5000) order in
    (hash, (unfold sha512_crypt in refl), letters, long)
