-- ===== src/Quota/Parse.antt =====
-- What ParseQuota makes of a number with a unit, and where the product leaves the range of int64.
use patrabahok.Base.{sym, ℕ, ◌*◌, ◌%◌, ◌<◌, ◌≡◌, refl, ap, ◌∙◌, false, [], ◌∷◌, ◌++◌, arith, some}
use patrabahok.Base.Text.{
  Text, itoa, is_empty, is_space, trim_left, trim_right, trim_space, to_upper,
}
use patrabahok.Base.Int.{pos, wrap64, two_63, two_64, wrap64_of_lt}
use patrabahok.Address.{ok}
use patrabahok.Quota.{
  with_unit, or_default, is_digit, span_digits, parse_int, unit_factor, scaled, parse_quota,
}
use patrabahok.Quota.Decimal.{
  itoa-nonempty, append-nonempty, value_from-itoa, IsDigits, itoa-IsDigits, span_digits-append,
}

-- A unit as it may stand behind a number: it starts with neither a digit nor a blank, and ends
-- with no blank.
pub record IsUnitText (c : ℕ) (v : Text) : Type 0 where
  pub no_digit : is_digit c ≡ false
  pub no_space : is_space c ≡ false
  pub trimmed : trim_right is_space (c ∷ v) ≡ c ∷ v

trim_left-IsDigits :
    (s u : Text) → IsDigits s → is_empty s ≡ false → trim_left is_space (s ++ u) ≡ s ++ u
unfolding trim_left
trim_left-IsDigits [] u h k = cc
trim_left-IsDigits (x ∷ s) u (d, h) k =
    let visible : is_space x ≡ false = ground arith in rw visible refl

trim_right-append :
    (s : Text) (c : ℕ) (v : Text)
    → trim_right is_space (c ∷ v) ≡ c ∷ v
    → trim_right is_space (s ++ c ∷ v) ≡ s ++ c ∷ v
unfolding trim_right
trim_right-append [] c v h = h
trim_right-append (x ∷ s) c v h = rw (trim_right-append s c v h) (rw append-nonempty (ground arith))

trim_unit : (c : ℕ) (v : Text) → IsUnitText c v → trim_space (c ∷ v) ≡ c ∷ v
unfolding trim_space trim_left
trim_unit c v h = rw h.no_space h.trimmed

trim_number :
    (s : Text) (c : ℕ) (v : Text)
    → IsDigits s
    → is_empty s ≡ false
    → IsUnitText c v
    → trim_space (s ++ c ∷ v) ≡ s ++ c ∷ v
unfolding trim_space
trim_number s c v h k u =
    ap (trim_right is_space) (trim_left-IsDigits s (c ∷ v) h k) ∙ trim_right-append s c v u.trimmed

parse_int-itoa : (n : ℕ) → n < two_63 → parse_int (itoa n) ≡ some n
unfolding parse_int
parse_int-itoa n h = rw value_from-itoa (ground arith)

with_unit-itoa :
    (n c : ℕ) (v : Text)
    → n < two_63
    → IsUnitText c v
    → with_unit (itoa n, c ∷ v) ≡ scaled n (to_upper (c ∷ v))
unfolding with_unit
with_unit-itoa n c v h u =
    rw itoa-nonempty (rw (parse_int-itoa n h) (ap (λ t. scaled n (to_upper t)) (trim_unit c v u)))

or_default-append : (s : Text) (c : ℕ) (v : Text) → or_default (s ++ c ∷ v) ≡ s ++ c ∷ v
unfolding or_default
or_default-append s c v = rw append-nonempty

parse_quota_lem : (q : Text) → parse_quota q ≡ with_unit (span_digits (or_default (trim_space q)))
unfolding parse_quota
parse_quota_lem q = refl

pub parse_quota-itoa :
    (n c : ℕ) (v : Text)
    → n < two_63
    → IsUnitText c v
    → parse_quota (itoa n ++ c ∷ v) ≡ scaled n (to_upper (c ∷ v))
parse_quota-itoa n c v h u =
    let trimmed = trim_number (itoa n) c v (itoa-IsDigits n) (itoa-nonempty n) u in
    let kept = ap or_default trimmed ∙ or_default-append (itoa n) c v in
    let split =
      ap span_digits kept ∙ span_digits-append (itoa n) c v (itoa-IsDigits n) u.no_digit in
    parse_quota_lem _ ∙ ap with_unit split ∙ with_unit-itoa n c v h u

scaled_of_factor : (n k : ℕ) (u : Text) → unit_factor u ≡ some k → scaled n u ≡ ok (wrap64 (n * k))
unfolding scaled
scaled_of_factor n k u e = rw (e, scaled)

pub wrap64_mod : (a b : ℕ) → a % two_64 ≡ b % two_64 → wrap64 a ≡ wrap64 b
unfolding wrap64
wrap64_mod a b e = rw e

-- If the number and the number of bytes both fit an int64 and the unit is known, a printed number
-- with its unit is read as exactly that number of bytes.
pub parse_quota_exact :
    (n c k : ℕ) (v : Text)
    → n < two_63
    → IsUnitText c v
    → unit_factor (to_upper (c ∷ v)) ≡ some k
    → n * k < two_63
    → parse_quota (itoa n ++ c ∷ v) ≡ ok (pos (n * k))
parse_quota_exact n c k v h u e fits =
    parse_quota-itoa n c v h u ∙ scaled_of_factor n k _ e ∙ ap ok (wrap64_of_lt (n * k) fits)

pub parse_quota_wraps :
    (n m c k : ℕ) (v : Text)
    → n < two_63
    → m < two_63
    → IsUnitText c v
    → unit_factor (to_upper (c ∷ v)) ≡ some k
    → n * k % two_64 ≡ m * k % two_64
    → parse_quota (itoa n ++ c ∷ v) ≡ parse_quota (itoa m ++ c ∷ v)
parse_quota_wraps n m c k v hn hm u e same =
    parse_quota-itoa n c v hn u
    ∙ scaled_of_factor n k _ e
    ∙ ap ok (wrap64_mod (n * k) (m * k) same)
    ∙ sym (scaled_of_factor m k _ e)
    ∙ sym (parse_quota-itoa m c v hm u)

trim_right-IsDigits : (s : Text) → IsDigits s → trim_right is_space s ≡ s
unfolding trim_right
trim_right-IsDigits [] h = refl
trim_right-IsDigits (x ∷ s) (d, h) =
    let visible : is_space x ≡ false = ground arith in rw (visible, trim_right-IsDigits s h) refl

trim_digits : (s : Text) → IsDigits s → is_empty s ≡ false → trim_space s ≡ s
unfolding trim_space trim_left trim_right
trim_digits [] h k = refl
trim_digits (x ∷ s) (d, h) k =
    let visible : is_space x ≡ false = ground arith in
    rw visible (trim_right-IsDigits (x ∷ s) (d, h))

span_digits-IsDigits : (s : Text) → IsDigits s → span_digits s ≡ (s, [])
unfolding span_digits
span_digits-IsDigits [] h = refl
span_digits-IsDigits (x ∷ s) (d, h) = rw (d, span_digits-IsDigits s h) refl

or_default-nonempty : (s : Text) → is_empty s ≡ false → or_default s ≡ s
unfolding or_default
or_default-nonempty s h = rw h refl

with_unit-digits : (n : ℕ) → n < two_63 → with_unit (itoa n, []) ≡ ok (pos n)
unfolding with_unit scaled unit_factor to_upper trim_space trim_left trim_right
with_unit-digits n h =
    rw itoa-nonempty
      (rw (parse_int-itoa n h) (ap ok (wrap64_of_lt (n * 1) (omega arith) ∙ ap pos (omega arith))))

-- A number without a unit is one of bytes.
pub parse_quota-digits : (n : ℕ) → n < two_63 → parse_quota (itoa n) ≡ ok (pos n)
parse_quota-digits n h =
    parse_quota_lem (itoa n)
    ∙ ap (λ q. with_unit (span_digits (or_default q)))
        (trim_digits (itoa n) (itoa-IsDigits n) (itoa-nonempty n))
    ∙ ap (λ q. with_unit (span_digits q)) (or_default-nonempty (itoa n) (itoa-nonempty n))
    ∙ ap with_unit (span_digits-IsDigits (itoa n) (itoa-IsDigits n))
    ∙ with_unit-digits n h
