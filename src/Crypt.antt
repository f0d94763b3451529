-- ===== src/Crypt.antt =====
-- The SHA-512 crypt scheme of cli/internal/mailbox/sha512crypt.go, over the digest function of Go's
-- library. A hash.Hash that is written to and summed is the digest of what was written.
pub mod Blocks
pub mod Cycle
pub mod Layout
use patrabahok.Base.{
  ℕ, zero, suc, ◌+◌, ◌-◌, ◌*◌, ◌/◌, ◌%◌, ◌≡◌, Bool, true, false, List, [], ◌∷◌, ◌++◌, ltb, ◌==◌,
  map, length, take, if◌then◌else◌,
}
use patrabahok.Base.Text.{Text, codes, itoa}

-- b[i], for an index in range.
unfoldable pub byte_at : Text → ℕ → ℕ
byte_at [] i = 0
byte_at (b ∷ bs) zero = b
byte_at (b ∷ bs) (suc i) = byte_at bs i

unfoldable pub crypt_alphabet : Text
crypt_alphabet = codes "./0123456789ABCDEFGHIJKLMNOPQRSTUVWXYZabcdefghijklmnopqrstuvwxyz"

-- The loop of repeatTo, which has at most `n` rounds: each adds a byte or ends.
pub repeat_from : ℕ → Text → ℕ → Text → Text
repeat_from zero digest n out = out
repeat_from (suc fuel) digest n out =
    let rest = repeat_from fuel digest n (out ++ take (n - length out) digest) in
    if ltb (length out) n then rest else out

unfoldable pub repeat_to : Text → ℕ → Text
unfolding repeat_from
repeat_to digest n = repeat_from n digest n []

-- n rounds of Write(s)
unfoldable pub written : ℕ → Text → Text
written zero s = []
written (suc n) s = s ++ written n s

-- for i := len(p); i > 0; i -= 64
unfoldable pub length_blocks : ℕ → Text → ℕ → Text
length_blocks zero sum i = []
length_blocks (suc fuel) sum i =
    let rest = sum ++ length_blocks fuel sum (i - 64) in
    if i == 0 then [] else if ltb 64 i then rest else take i sum

-- for i := len(p); i > 0; i >>= 1
unfoldable pub length_bits : ℕ → Text → Text → ℕ → Text
length_bits zero sum p i = []
length_bits (suc fuel) sum p i =
    let rest = (if i % 2 == 0 then p else sum) ++ length_bits fuel sum p (i / 2) in
    if i == 0 then [] else rest

-- What one round writes.
unfoldable pub round_input : Text → Text → ℕ → Text → Text
round_input p_seq s_seq i c =
    (if i % 2 == 0 then c else p_seq)
    ++ ((if i % 3 == 0 then [] else s_seq)
        ++ ((if i % 7 == 0 then [] else p_seq) ++ (if i % 2 == 0 then p_seq else c)))

unfoldable pub b64_from_24 : ℕ → ℕ → Text
b64_from_24 zero w = []
b64_from_24 (suc n) w = byte_at crypt_alphabet (w % 64) ∷ b64_from_24 n (w / 64)

-- The triples of digest bytes, in the order of the scheme.
abbrev pub order : List (ℕ × ℕ × ℕ)
order =
    (0, 21, 42)
    ∷ (22, 43, 1)
    ∷ (44, 2, 23)
    ∷ (3, 24, 45)
    ∷ (25, 46, 4)
    ∷ (47, 5, 26)
    ∷ (6, 27, 48)
    ∷ (28, 49, 7)
    ∷ (50, 8, 29)
    ∷ (9, 30, 51)
    ∷ (31, 52, 10)
    ∷ (53, 11, 32)
    ∷ (12, 33, 54)
    ∷ (34, 55, 13)
    ∷ (56, 14, 35)
    ∷ (15, 36, 57)
    ∷ (37, 58, 16)
    ∷ (59, 17, 38)
    ∷ (18, 39, 60)
    ∷ (40, 61, 19)
    ∷ (62, 20, 41)
    ∷ []

unfoldable pub encode_triples : Text → List (ℕ × ℕ × ℕ) → Text
unfolding b64_from_24
encode_triples c [] = b64_from_24 2 (byte_at c 63)
encode_triples c ((x, y, z) ∷ rest) =
    b64_from_24 4 (byte_at c x * 65536 + byte_at c y * 256 + byte_at c z) ++ encode_triples c rest

module _ (sha512 : Text → Text) where
  -- for i := 0; i < rounds; i++, with the rounds that are left.
  unfoldable pub rounds_from : Text → Text → ℕ → ℕ → Text → Text
  rounds_from p_seq s_seq zero i c = c
  rounds_from p_seq s_seq (suc left) i c =
      rounds_from p_seq s_seq left (suc i) (sha512 (round_input p_seq s_seq i c))

  unfoldable pub crypt_digest : Text → Text → ℕ → Text
  unfolding rounds_from
  crypt_digest p s rounds =
      let sum_b = sha512 (p ++ (s ++ p)) in
      let sum_a = sha512 (
        p
        ++ (s
            ++ (length_blocks (length p) sum_b (length p)
                ++ length_bits (length p) sum_b p (length p)))) in
      let p_seq = repeat_to (sha512 (written (length p) p)) (length p) in
      let s_seq = repeat_to (sha512 (written (16 + byte_at sum_a 0) s)) (length s) in
      rounds_from p_seq s_seq rounds 0 sum_a

  unfoldable pub sha512_crypt : Text → Text → ℕ → Text
  unfolding crypt_digest encode_triples
  sha512_crypt password salt rounds =
      let s = take 16 salt in
      let prefix = if rounds == 5000 then [] else codes "rounds=" ++ (itoa rounds ++ codes "$") in
      codes "$6$"
      ++ (prefix ++ (s ++ (codes "$" ++ encode_triples (crypt_digest password s rounds) order)))

-- randomSalt, from the 16 bytes that were drawn.
unfoldable pub salt_of : Text → Text
salt_of drawn = map (λ b. byte_at crypt_alphabet (b % 64)) drawn
