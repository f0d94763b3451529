-- ===== src/Quota.antt =====
-- Quotas: ParseQuota of cli/internal/mailbox/mailbox.go.
pub mod Decimal
pub mod Parse
use patrabahok.Base.{
  ℕ, zero, suc, ◌+◌, ◌-◌, ◌*◌, ◌≡◌, Bool, true, false, ◌&&◌, ◌||◌, Option, none, some, List, [],
  ◌∷◌, leb, ltb, if◌then◌else◌,
}
use patrabahok.Base.Text.{Text, codes, text_eq, is_empty, to_upper, trim_space}
use patrabahok.Base.Int.{ℤ, pos, wrap64, two_63}
use patrabahok.Address.{Result, ok, err, other}

abbrev pub is_digit : ℕ → Bool
is_digit c = leb b'0' c && leb c b'9'

-- q[:i] and q[i:], where i is the number of leading digits.
unfoldable pub span_digits : Text → Text × Text
span_digits [] = ([], [])
span_digits (c ∷ s) =
    let (ds, rest) = span_digits s in if is_digit c then (c ∷ ds, rest) else ([], c ∷ s)

unfoldable pub value_from : ℕ → Text → ℕ
value_from acc [] = acc
value_from acc (c ∷ s) = value_from (acc * 10 + (c - b'0')) s

-- strconv.ParseInt(s, 10, 64) of digits; `none` is ErrRange.
unfoldable pub parse_int : Text → Option ℕ
unfolding value_from
parse_int s = let n = value_from 0 s in if ltb n two_63 then some n else none

-- The switch on the unit; `none` is its default.
unfoldable pub unit_factor : Text → Option ℕ
unit_factor u =
    if is_empty u || text_eq u (codes "B")
    then some 1
    else if text_eq u (codes "K") || text_eq u (codes "KB")
    then some 1024
    else if text_eq u (codes "M") || text_eq u (codes "MB")
    then some 1_048_576
    else if text_eq u (codes "G") || text_eq u (codes "GB")
    then some 1_073_741_824
    else none

-- The int64 product of the number and its unit.
unfoldable pub scaled : ℕ → Text → Result ℤ
scaled n unit = elim (unit_factor unit) [ none ↦ err other | some k ↦ ok (wrap64 (n * k)) ]

-- An empty quota is the default.
unfoldable pub or_default : Text → Text
or_default q = if is_empty q then codes "1G" else q

unfoldable pub with_unit : Text × Text → Result ℤ
unfolding parse_int scaled
with_unit (digits, rest) = if is_empty digits then err other else elim (parse_int digits) [
  | none ↦ err other
  | some n ↦ scaled n (to_upper (trim_space rest))
]

unfoldable pub parse_quota : Text → Result ℤ
unfolding or_default span_digits with_unit
parse_quota q = with_unit (span_digits (or_default (trim_space q)))
