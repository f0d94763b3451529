-- ===== src/Base/Base64.antt =====
-- base64.RawStdEncoding of Go's library: letters without padding.
use Prim.Native.Nat.{ℕ, zero, suc, ◌+◌, ◌*◌, ◌/◌, ◌%◌, ◌<◌}
use mathlib.Core.Path.{◌∙◌, ap, ◌≡◌, refl}
use mathlib.Core.Bool.{Bool, true, false, ◌&&◌, ◌||◌, not}
use mathlib.Core.Option.{Option, none, some}
use mathlib.Core.List.{List, [], ◌∷◌, map}
use native.Mathlib.Omega.{arith}
use patrabahok.Base.Tests.{◌==◌, if◌then◌else◌}
use patrabahok.Base.Lists.{All, all}
use patrabahok.Base.Text.{Text, codes, index_byte}
use patrabahok.Base.Split.{has_none}

abbrev alphabet : Text
alphabet = codes "ABCDEFGHIJKLMNOPQRSTUVWXYZabcdefghijklmnopqrstuvwxyz0123456789+/"

letter_at : Text → ℕ → ℕ
letter_at [] i = 0
letter_at (c ∷ s) zero = c
letter_at (c ∷ s) (suc i) = letter_at s i

-- The letter of a number below 64.
unfoldable pub letter : ℕ → ℕ
unfolding letter_at
letter n = letter_at alphabet n

-- The bits of the bytes, six by six.
unfoldable pub sextets : Text → List ℕ
sextets [] = []
sextets (a ∷ []) = (a / 4) ∷ (a % 4 * 16) ∷ []
sextets (a ∷ b ∷ []) = (a / 4) ∷ (a % 4 * 16 + b / 16) ∷ (b % 16 * 4) ∷ []
sextets (a ∷ b ∷ c ∷ s) =
    (a / 4) ∷ (a % 4 * 16 + b / 16) ∷ (b % 16 * 4 + c / 64) ∷ (c % 64) ∷ sextets s

-- EncodeToString
unfoldable pub base64_encode : Text → Text
unfolding letter sextets
base64_encode s = map letter (sextets s)

-- The numbers of the letters; a line end is passed over, another byte is an error.
unfoldable pub letter_values : Text → Option (List ℕ)
unfolding index_byte
letter_values [] = some []
letter_values (c ∷ s) =
    let rest = letter_values s in
    if c == 10 || c == 13 then rest else elim (index_byte c alphabet) [
      | none ↦ none
      | some n ↦ elim rest [ none ↦ none | some ns ↦ some (n ∷ ns) ]
    ]

-- Four by four; bits that are left over at the end are dropped, a single letter is an error.
unfoldable pub octets : List ℕ → Option Text
octets [] = some []
octets (a ∷ []) = none
octets (a ∷ b ∷ []) = some ((a * 4 + b / 16) ∷ [])
octets (a ∷ b ∷ c ∷ []) = some ((a * 4 + b / 16) ∷ (b % 16 * 16 + c / 4) ∷ [])
octets (a ∷ b ∷ c ∷ d ∷ s) = elim (octets s) [
  | none ↦ none
  | some r ↦ some ((a * 4 + b / 16) ∷ (b % 16 * 16 + c / 4) ∷ (c % 4 * 64 + d) ∷ r)
]

-- DecodeString; `none` is an error.
unfoldable pub base64_decode : Text → Option Text
unfolding letter_values octets
base64_decode s = elim (letter_values s) [ none ↦ none | some ns ↦ octets ns ]

abbrev pub IsBytes : Text → Type 0
IsBytes s = All (λ c. c < 256) s

octets-sextets : (s : Text) → IsBytes s → octets (sextets s) ≡ some s
unfolding octets sextets
octets-sextets [] h = refl
octets-sextets (a ∷ []) h = ground arith
octets-sextets (a ∷ b ∷ []) h = ground arith
octets-sextets (a ∷ b ∷ c ∷ s) (ha, (hb, (hc, h))) = rw (octets-sextets s h) (ground arith)

sextets_small : (s : Text) → IsBytes s → All (λ n. n < 64) (sextets s)
unfolding sextets
sextets_small [] h = tt
sextets_small (a ∷ []) h = omega arith
sextets_small (a ∷ b ∷ []) h = omega arith
sextets_small (a ∷ b ∷ c ∷ s) (ha, (hb, (hc, h))) =
    (omega arith, (omega arith, (omega arith, (omega arith, sextets_small s h))))

-- A test that the numbers of a list pass, run at all 64.
numbers_from : ℕ → ℕ → List ℕ
numbers_from n zero = []
numbers_from n (suc k) = n ∷ numbers_from (suc n) k

passed-at :
    (test : ℕ → Bool) (n k i : ℕ) → all test (numbers_from n k) ≡ true → i < k → test (n + i) ≡ true
unfolding numbers_from
passed-at test n zero i passed small = absurd (omega arith)
passed-at test n (suc k) zero passed small =
    ap test (let e : n + 0 ≡ n = omega arith in e) ∙ ground arith
passed-at test n (suc k) (suc i) passed small =
    ap test (let e : n + suc i ≡ suc n + i = omega arith in e)
    ∙ passed-at test (suc n) k i (ground arith) (omega arith)

passed : (test : ℕ → Bool) (i : ℕ) → all test (numbers_from 0 64) ≡ true → i < 64 → test i ≡ true
passed test i h small =
    ap test (let e : i ≡ 0 + i = omega arith in e) ∙ passed-at test 0 64 i h small

value_is : ℕ → Option ℕ → Bool
value_is n none = false
value_is n (some m) = m == n

value_is-some : (n : ℕ) (o : Option ℕ) → value_is n o ≡ true → o ≡ some n
unfolding value_is
value_is-some n none h = cc
value_is-some n (some m) h = ground arith

letter_table : all (λ n. value_is n (index_byte (letter n) alphabet)) (numbers_from 0 64) ≡ true
unfolding numbers_from letter index_byte value_is
letter_table = refl

-- No letter is a line end or a dollar sign.
abbrev is_apart : ℕ → Bool
is_apart c = not (c == 10) && (not (c == 13) && not (c == b'$'))

apart_table : all (λ n. is_apart (letter n)) (numbers_from 0 64) ≡ true
unfolding numbers_from letter
apart_table = refl

letter_apart : (n : ℕ) → n < 64 → is_apart (letter n) ≡ true
letter_apart n h = passed (λ n. is_apart (letter n)) n apart_table h

index-letter : (n : ℕ) → n < 64 → index_byte (letter n) alphabet ≡ some n
index-letter n h =
    value_is-some n (index_byte (letter n) alphabet)
      (passed (λ n. value_is n (index_byte (letter n) alphabet)) n letter_table h)

values-letters : (ns : List ℕ) → All (λ n. n < 64) ns → letter_values (map letter ns) ≡ some ns
unfolding letter_values
values-letters [] h = refl
values-letters (n ∷ ns) (h, hs) =
    let apart = letter_apart n h in
    let no_end : (letter n == 10 || letter n == 13) ≡ false = ground arith in
    rw no_end (rw (index-letter n h, letter_values) (rw (values-letters ns hs) refl))

-- What is encoded is decoded.
pub decode-encode : (s : Text) → IsBytes s → base64_decode (base64_encode s) ≡ some s
unfolding base64_decode base64_encode
decode-encode s h =
    rw (base64_decode, values-letters (sextets s) (sextets_small s h)) (octets-sextets s h)

no_dollar : (ns : List ℕ) → All (λ n. n < 64) ns → has_none b'$' (map letter ns) ≡ true
no_dollar [] h = refl
no_dollar (n ∷ ns) (h, hs) =
    let apart = letter_apart n h in let rest = no_dollar ns hs in ground arith

pub has_none-encode : (s : Text) → IsBytes s → has_none b'$' (base64_encode s) ≡ true
unfolding base64_encode
has_none-encode s h = no_dollar (sextets s) (sextets_small s h)
