-- ===== src/Dashboard/Quotas.antt =====
-- How the forms of the dashboard write a quota: quotaKey of cli/internal/webui/render.go.
use patrabahok.Base.{
  some, ℕ, suc, ◌*◌, ◌/◌, ◌%◌, ◌<◌, ◌≡◌, refl, ap, ◌∙◌, ◌&&◌, [], ◌∷◌, ◌++◌, if◌then◌else◌, ltb,
  ◌==◌, arith, inl, inr, Bool-cases,
}
use patrabahok.Base.Text.{Text, codes, itoa, text_eq, to_upper, trim_right}
use patrabahok.Base.Int.{ℤ, pos, negsuc, two_63}
use patrabahok.Address.{ok}
use patrabahok.Quota.{parse_quota, unit_factor}
use patrabahok.Quota.Parse.{IsUnitText, parse_quota_exact, parse_quota-digits}

-- strconv.FormatInt in base 10
unfoldable pub format_int : ℤ → Text
format_int (pos n) = itoa n
format_int (negsuc n) = b'-' ∷ itoa (suc n)

unfoldable pub quota_key : ℤ → Text
unfolding format_int
quota_key (negsuc n) = format_int (negsuc n)
quota_key (pos n) =
    if ltb 0 n && n % 1_073_741_824 == 0
    then format_int (pos (n / 1_073_741_824)) ++ codes "G"
    else if ltb 0 n && n % 1_048_576 == 0
    then format_int (pos (n / 1_048_576)) ++ codes "M"
    else format_int (pos n)

gigabytes-IsUnitText : IsUnitText b'G' []
unfolding trim_right
gigabytes-IsUnitText = record { no_digit = refl; no_space = refl; trimmed = refl }

megabytes-IsUnitText : IsUnitText b'M' []
unfolding trim_right
megabytes-IsUnitText = record { no_digit = refl; no_space = refl; trimmed = refl }

gigabyte_factor : unit_factor (to_upper (b'G' ∷ [])) ≡ some 1_073_741_824
unfolding unit_factor to_upper text_eq
gigabyte_factor = refl

megabyte_factor : unit_factor (to_upper (b'M' ∷ [])) ≡ some 1_048_576
unfolding unit_factor to_upper text_eq
megabyte_factor = refl

-- A quota that is not negative and fits an int64, written as the dashboard's forms write it, in
-- whole gigabytes, whole megabytes or bytes, is read back as the same number of bytes.
pub parse_quota-quota_key : (n : ℕ) → n < two_63 → parse_quota (quota_key (pos n)) ≡ ok (pos n)
unfolding quota_key format_int
parse_quota-quota_key n h = elim (Bool-cases (ltb 0 n && n % 1_073_741_824 == 0)) [
  | inl whole ↦ rw whole (
      let parts : n / 1_073_741_824 * 1_073_741_824 ≡ n = ground arith in
      parse_quota_exact (n / 1_073_741_824) b'G' 1_073_741_824 [] (ground arith)
        gigabytes-IsUnitText gigabyte_factor (ground arith)
      ∙ ap (λ k. ok (pos k)) parts)
  | inr part ↦ rw part (elim (Bool-cases (ltb 0 n && n % 1_048_576 == 0)) [
    | inl whole ↦ rw whole (
        let parts : n / 1_048_576 * 1_048_576 ≡ n = ground arith in
        parse_quota_exact (n / 1_048_576) b'M' 1_048_576 [] (ground arith) megabytes-IsUnitText
          megabyte_factor (ground arith)
        ∙ ap (λ k. ok (pos k)) parts)
    | inr odd ↦ rw odd (parse_quota-digits n h)
  ])
]
