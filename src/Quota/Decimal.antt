-- ===== src/Quota/Decimal.antt =====
-- Printing a number in decimal and reading it back.
use patrabahok.Base.{
  inr, inl, ℕ, zero, suc, ◌+◌, ◌-◌, ◌*◌, ◌/◌, ◌%◌, ◌<◌, ◌≡◌, refl, true, false, [], ◌∷◌, ◌++◌,
  arith, ltb, All, All-append, Bool-cases,
}
use patrabahok.Base.Text.{Text, decimal_digits, itoa, is_empty}
use patrabahok.Quota.{is_digit, span_digits, value_from}

value_from-append :
    (acc : ℕ) (u v : Text) → value_from acc (u ++ v) ≡ value_from (value_from acc u) v
unfolding value_from
value_from-append acc [] v = refl
value_from-append acc (c ∷ u) v = value_from-append (acc * 10 + (c - b'0')) u v

pub append-nonempty : (s : Text) (c : ℕ) (v : Text) → is_empty (s ++ c ∷ v) ≡ false
append-nonempty [] c v = refl
append-nonempty (x ∷ s) c v = refl

decimal_value : (f n : ℕ) → n < f → value_from 0 (decimal_digits f n) ≡ n
unfolding value_from decimal_digits
decimal_value zero n h = absurd (omega arith)
decimal_value (suc f) n h = elim (Bool-cases (ltb n 10)) [
  | inl small ↦ rw small (omega arith)
  | inr large ↦ rw large (rw value_from-append (ground (arith, decimal_value f (n / 10))))
]

pub value_from-itoa : (n : ℕ) → value_from 0 (itoa n) ≡ n
unfolding itoa
value_from-itoa n = decimal_value (suc n) n (omega arith)

abbrev pub IsDigits : Text → Type 0
IsDigits s = All (λ c. is_digit c ≡ true) s

decimal-IsDigits : (f n : ℕ) → IsDigits (decimal_digits f n)
unfolding decimal_digits
decimal-IsDigits zero n = tt
decimal-IsDigits (suc f) n = elim (Bool-cases (ltb n 10)) [
  | inl small ↦ rw small (ground arith, tt)
  | inr large ↦
      rw large
        (All-append (λ c. is_digit c ≡ true) _ _ (decimal-IsDigits f (n / 10)) (ground arith, tt))
]

pub itoa-IsDigits : (n : ℕ) → IsDigits (itoa n)
unfolding itoa
itoa-IsDigits n = decimal-IsDigits (suc n) n

pub span_digits-append :
    (u : Text) (c : ℕ) (v : Text)
    → IsDigits u
    → is_digit c ≡ false
    → span_digits (u ++ c ∷ v) ≡ (u, c ∷ v)
unfolding span_digits
span_digits-append [] c v h k = rw k
span_digits-append (x ∷ u) c v (d, h) k = rw (d, span_digits-append u c v h k)

decimal_digits-nonempty : (f n : ℕ) → is_empty (decimal_digits (suc f) n) ≡ false
unfolding decimal_digits
decimal_digits-nonempty f n = elim (Bool-cases (ltb n 10)) [
  | inl small ↦ rw small refl
  | inr large ↦ rw large (append-nonempty (decimal_digits f (n / 10)) (b'0' + n % 10) [])
]

pub itoa-nonempty : (n : ℕ) → is_empty (itoa n) ≡ false
unfolding itoa
itoa-nonempty n = decimal_digits-nonempty n n
