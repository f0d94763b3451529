-- ===== src/Mailboxes/Usage/Sum.antt =====
-- What UsageBytes of cli/internal/mailbox/routing.go makes of the lines that Dovecot writes.
use patrabahok.Base.{
  ltb, ℕ, ◌≡◌, ◌+◌, ◌*◌, ◌-◌, ◌<◌, ◌≤◌, ◌%◌, suc, List, [], ◌∷◌, ◌++◌, map, refl, ap, ◌∙◌, true,
  false, arith, All, Option, some, all, inl, inr, Bool-cases,
}
use patrabahok.Base.Text.{Text, codes, itoa, is_empty, is_space, trim_left}
use patrabahok.Base.Int.{ℤ, pos, negsuc, wrap64, wrap64_of_lt, two_63, two_64}
use patrabahok.Address.{ok, split_email}
use patrabahok.Address.Paths.{mailbox_dir}
use patrabahok.Quota.{is_digit}
use patrabahok.Quota.Parse.{wrap64_mod}
use patrabahok.Quota.Decimal.{IsDigits, itoa-IsDigits, itoa-nonempty, value_from-itoa}
use patrabahok.Mailboxes.Usage.{
  residue, visible_prefix, first_field, parse_digits, parse_positive, parse_negative, parse_signed,
  add64, add_delta, usage_from, at_least_zero, usage_of, usage_bytes,
}

-- A line of the file behind its header: a signed number of bytes, a blank and the count.
pub record Delta : Type 0 where
  pub bytes : ℤ
  pub count : Text

abbrev pub signed : ℤ → Text
signed (pos n) = itoa n
signed (negsuc n) = b'-' ∷ itoa (suc n)

abbrev pub line_of : Delta → Text
line_of d = signed d.bytes ++ b' ' ∷ d.count

abbrev pub FitsInt64 : ℤ → Type 0
FitsInt64 (pos n) = n < two_63
FitsInt64 (negsuc n) = n < two_63

abbrev gain : ℤ → ℕ
gain (pos n) = n
gain (negsuc n) = 0

abbrev loss : ℤ → ℕ
loss (pos n) = 0
loss (negsuc n) = suc n

-- The bytes of all deliveries, and those of all removals.
abbrev pub gained : List Delta → ℕ
gained [] = 0
gained (d ∷ ds) = gain d.bytes + gained ds

abbrev pub lost : List Delta → ℕ
lost [] = 0
lost (d ∷ ds) = loss d.bytes + lost ds

abbrev residues : List Delta → ℕ
unfolding residue
residues [] = 0
residues (d ∷ ds) = residue d.bytes + residues ds

abbrev removals : List Delta → ℕ
removals [] = 0
removals (d ∷ ds) = (elim d.bytes [ pos n ↦ 0 | negsuc n ↦ 1 ]) + removals ds

residue_cases :
    (b : ℤ)
    → FitsInt64 b
    → residue b + loss b ≡ gain b + two_64 * elim b [ pos n ↦ 0 | negsuc n ↦ 1 ]
unfolding residue
residue_cases (pos n) h = omega arith
residue_cases (negsuc n) h = omega arith

residues_sum :
    (ds : List Delta)
    → All (λ d. FitsInt64 d.bytes) ds
    → residues ds + lost ds ≡ gained ds + two_64 * removals ds
unfolding residues
residues_sum [] h = refl
residues_sum (d ∷ ds) (h, hs) =
    let first = residue_cases d.bytes h in let rest = residues_sum ds hs in omega arith

visible_prefix-append :
    (u v : Text) → All (λ c. is_space c ≡ false) u → visible_prefix (u ++ b' ' ∷ v) ≡ u
unfolding visible_prefix
visible_prefix-append [] v h = refl
visible_prefix-append (c ∷ u) v (h, hs) = rw (h, visible_prefix-append u v hs)

first_field-append :
    (u v : Text)
    → is_empty u ≡ false
    → All (λ c. is_space c ≡ false) u
    → first_field (u ++ b' ' ∷ v) ≡ u
unfolding first_field trim_left
first_field-append [] v e h = cc
first_field-append (c ∷ u) v e (h, hs) = rw h (visible_prefix-append (c ∷ u) v (h, hs))

IsDigits-no_space : (s : Text) → IsDigits s → All (λ c. is_space c ≡ false) s
IsDigits-no_space [] h = tt
IsDigits-no_space (c ∷ s) (h, hs) = (ground arith, IsDigits-no_space s hs)

all-IsDigits : (s : Text) → IsDigits s → all is_digit s ≡ true
all-IsDigits [] h = refl
all-IsDigits (c ∷ s) (h, hs) = rw (h, all-IsDigits s hs)

parse_digits-itoa : (n : ℕ) → parse_digits (itoa n) ≡ some n
unfolding parse_digits
parse_digits-itoa n =
    rw (itoa-nonempty n, all-IsDigits (itoa n) (itoa-IsDigits n), value_from-itoa n)

parse_positive-itoa : (n : ℕ) → n < two_63 → parse_positive (itoa n) ≡ some (pos n)
unfolding parse_positive
parse_positive-itoa n h = rw (parse_positive, parse_digits-itoa n) (ground arith)

parse_negative-itoa : (n : ℕ) → n < two_63 → parse_negative (itoa (suc n)) ≡ some (negsuc n)
unfolding parse_negative
parse_negative-itoa n h = rw (parse_negative, parse_digits-itoa (suc n)) (ground arith)

pub parse_signed_of_digits :
    (s : Text) → IsDigits s → is_empty s ≡ false → parse_signed s ≡ parse_positive s
unfolding parse_signed
parse_signed_of_digits [] h e = cc
parse_signed_of_digits (c ∷ s) (h, hs) e = ground arith

pub parse_signed-signed : (b : ℤ) → FitsInt64 b → parse_signed (signed b) ≡ some b
unfolding parse_signed
parse_signed-signed (pos n) h =
    parse_signed_of_digits (itoa n) (itoa-IsDigits n) (itoa-nonempty n) ∙ parse_positive-itoa n h
parse_signed-signed (negsuc n) h = parse_negative-itoa n h

signed-no_space : (b : ℤ) → All (λ c. is_space c ≡ false) (signed b)
signed-no_space (pos n) = IsDigits-no_space (itoa n) (itoa-IsDigits n)
signed-no_space (negsuc n) = (refl, IsDigits-no_space (itoa (suc n)) (itoa-IsDigits (suc n)))

signed-nonempty : (b : ℤ) → is_empty (signed b) ≡ false
signed-nonempty (pos n) = itoa-nonempty n
signed-nonempty (negsuc n) = refl

add_delta-line_of :
    (total : ℤ) (d : Delta) → FitsInt64 d.bytes → add_delta total (line_of d) ≡ add64 total d.bytes
unfolding add_delta
add_delta-line_of total d h =
    rw
      (first_field-append (signed d.bytes) d.count (signed-nonempty d.bytes)
        (signed-no_space d.bytes))
      (rw (signed-nonempty d.bytes, parse_signed-signed d.bytes h))

residue-wrap64 : (n : ℕ) → residue (wrap64 n) ≡ n % two_64
unfolding residue wrap64
residue-wrap64 n = elim (Bool-cases (ltb (n % two_64) two_63)) [
  | inl small ↦ rw small refl
  | inr large ↦ rw large (omega arith)
]

add64-wrap64 : (n : ℕ) (b : ℤ) → add64 (wrap64 n) b ≡ wrap64 (n + residue b)
unfolding add64
add64-wrap64 n b =
    wrap64_mod (residue (wrap64 n) + residue b) (n + residue b) (rw residue-wrap64 (omega arith))

usage_from-lines :
    (n : ℕ) (ds : List Delta)
    → All (λ d. FitsInt64 d.bytes) ds
    → usage_from (wrap64 n) (map line_of ds) ≡ wrap64 (n + residues ds)
unfolding usage_from
usage_from-lines n [] h = ap wrap64 (omega arith)
usage_from-lines n (d ∷ ds) (h, hs) =
    ap (λ t. usage_from t (map line_of ds))
      (add_delta-line_of (wrap64 n) d h ∙ add64-wrap64 n d.bytes)
    ∙ usage_from-lines (n + residue d.bytes) ds hs
    ∙ ap wrap64 (omega arith)

at_least_zero_pos : (n : ℕ) → at_least_zero (pos n) ≡ pos n
unfolding at_least_zero
at_least_zero_pos n = refl

residues_lem :
    (ds : List Delta)
    → All (λ d. FitsInt64 d.bytes) ds
    → lost ds ≤ gained ds
    → gained ds - lost ds < two_63
    → at_least_zero (wrap64 (0 + residues ds)) ≡ pos (gained ds - lost ds)
residues_lem ds h order fits =
    let counted = residues_sum ds h in
    ap at_least_zero (
      wrap64_mod (0 + residues ds) (gained ds - lost ds) (omega arith)
      ∙ wrap64_of_lt (gained ds - lost ds) fits)
    ∙ at_least_zero_pos (gained ds - lost ds)

usage_of-lines :
    (header : Text) (ds : List Delta)
    → All (λ d. FitsInt64 d.bytes) ds
    → lost ds ≤ gained ds
    → gained ds - lost ds < two_63
    → usage_of (header ∷ map line_of ds) ≡ pos (gained ds - lost ds)
unfolding usage_of
usage_of-lines header ds h order fits =
    ap at_least_zero (usage_from-lines 0 ds h) ∙ residues_lem ds h order fits

-- If the file of a mailbox holds a header and signed numbers of bytes, each between -2^63 and
-- 2^63 - 1, the removals are no more than the deliveries and the difference is below 2^63, then
-- the usage is exactly that difference, whatever the running total overflows in between.
pub usage_bytes-line_of :
    (read : Text → Option (List Text)) (email local domain header : Text) (ds : List Delta)
    → split_email email ≡ ok (local, domain)
    → read (mailbox_dir domain local ++ codes "/Maildir/maildirsize")
      ≡ some (header ∷ map line_of ds)
    → All (λ d. FitsInt64 d.bytes) ds
    → lost ds ≤ gained ds
    → gained ds - lost ds < two_63
    → usage_bytes read email ≡ pos (gained ds - lost ds)
unfolding usage_bytes
usage_bytes-line_of read email local domain header ds splits file h order fits =
    rw (usage_bytes, splits) (rw file (usage_of-lines header ds h order fits))
