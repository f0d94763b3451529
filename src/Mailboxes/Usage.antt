-- ===== src/Mailboxes/Usage.antt =====
-- How much mail a mailbox stores: UsageBytes of cli/internal/mailbox/routing.go. The file system
-- is the argument `read`: the lines that a bufio.Scanner gives of the file at a path, or `none`.
pub mod Sum
use patrabahok.Base.{
  ℕ, zero, suc, ◌+◌, ◌-◌, ◌≡◌, Bool, true, false, ◌&&◌, ◌||◌, not, Option, none, some, List, [],
  ◌∷◌, ◌++◌, leb, ltb, if◌then◌else◌, all, ◌==◌,
}
use patrabahok.Base.Text.{Text, codes, is_empty, is_space, trim_left}
use patrabahok.Base.Int.{ℤ, pos, negsuc, wrap64, two_63, two_64}
use patrabahok.Address.{Result, ok, err, split_email}
use patrabahok.Address.Paths.{mailbox_dir}
use patrabahok.Quota.{is_digit, value_from}

-- The bytes up to the first blank.
unfoldable pub visible_prefix : Text → Text
visible_prefix [] = []
visible_prefix (c ∷ s) = let rest = visible_prefix s in if is_space c then [] else c ∷ rest

-- The first of strings.Fields; empty where there is no field.
unfoldable pub first_field : Text → Text
unfolding visible_prefix
first_field s = visible_prefix (trim_left is_space s)

-- The digits of a number, read without a bound.
unfoldable pub parse_digits : Text → Option ℕ
unfolding value_from
parse_digits s = if is_empty s || not (all is_digit s) then none else some (value_from 0 s)

abbrev pub negated : ℕ → ℤ
negated zero = pos 0
negated (suc n) = negsuc n

unfoldable pub parse_positive : Text → Option ℤ
unfolding parse_digits
parse_positive s = elim (parse_digits s) [
  | none ↦ none
  | some n ↦ if ltb n two_63 then some (pos n) else none
]

unfoldable pub parse_negative : Text → Option ℤ
unfolding parse_digits
parse_negative s = elim (parse_digits s) [
  | none ↦ none
  | some n ↦ if leb n two_63 then some (negated n) else none
]

-- strconv.ParseInt(s, 10, 64); `none` is each of its errors.
unfoldable pub parse_signed : Text → Option ℤ
unfolding parse_positive parse_negative
parse_signed [] = none
parse_signed (c ∷ s) =
    if c == b'-'
    then parse_negative s
    else if c == b'+'
    then parse_positive s
    else parse_positive (c ∷ s)

-- The unsigned number with the bits of an int64.
unfoldable pub residue : ℤ → ℕ
residue (pos n) = n
residue (negsuc n) = two_64 - 1 - n

-- The int64 sum, with its wrap-around.
unfoldable pub add64 : ℤ → ℤ → ℤ
unfolding residue wrap64
add64 a b = wrap64 (residue a + residue b)

-- The total after one line behind the header.
unfoldable pub add_delta : ℤ → Text → ℤ
unfolding parse_signed first_field add64
add_delta total line =
    let field = first_field line in
    if is_empty field
    then total
    else elim (parse_signed field) [ none ↦ total | some n ↦ add64 total n ]

unfoldable pub usage_from : ℤ → List Text → ℤ
unfolding add_delta
usage_from total [] = total
usage_from total (line ∷ lines) = usage_from (add_delta total line) lines

unfoldable pub at_least_zero : ℤ → ℤ
at_least_zero (pos n) = pos n
at_least_zero (negsuc n) = pos 0

-- The scan skips the first line.
unfoldable pub usage_of : List Text → ℤ
unfolding usage_from at_least_zero
usage_of [] = at_least_zero (pos 0)
usage_of (header ∷ lines) = at_least_zero (usage_from (pos 0) lines)

unfoldable pub usage_bytes : (Text → Option (List Text)) → Text → ℤ
unfolding usage_of
usage_bytes read email = elim (split_email email) [
  | err e ↦ pos 0
  | ok (local, domain) ↦ elim (read (mailbox_dir domain local ++ codes "/Maildir/maildirsize")) [
    | none ↦ pos 0
    | some lines ↦ usage_of lines
  ]
]
