-- ===== src/Tests/Addresses.antt =====
-- The theorems on addresses, quotas, password hashes, searches and the policy protocol, at concrete
-- inputs.
use patrabahok.Base.{◌*◌, ◌≡◌, ◌≢◌, refl, [], ◌∷◌, some, ◌++◌, arith, length, take, All, any, ◌↔◌}
use patrabahok.Base.Text.{
  Text, codes, to_lower, to_upper, trim_space, itoa, cut, last_index_byte, trim_left, trim_right,
  text_eq,
}
use patrabahok.Base.Int.{pos}
use patrabahok.Address.{ok, err, invalid, split_email, validate_email, email_re, domain_re, label}
use patrabahok.Address.Shape.{IsAddress, split_email_iff, split_email_errors}
use patrabahok.Address.Paths.{
  mailbox_dir, vmail_home, IsPlain, mailbox_dir-split_email, mailbox_dir_injective,
}
use patrabahok.Regex.{match_string, nullable, after, upto}
use patrabahok.Quota.{parse_quota, scaled, unit_factor}
use patrabahok.Quota.Parse.{IsUnitText, parse_quota-itoa, parse_quota_exact, parse_quota_wraps}
use patrabahok.Crypt.Cycle.{repeat_to-IsCyclic, IsCyclic}
use patrabahok.Crypt.{repeat_to, length_blocks, sha512_crypt}
use patrabahok.Crypt.Blocks.{length_blocks-repeat_to}
use patrabahok.Dashboard.Quotas.{quota_key, parse_quota-quota_key}
use patrabahok.Crypt.Layout.{IsCryptLetter, sha512_crypt-layout}
use patrabahok.Db.Like.{like, escape_like, tails, starts_with, like-finds_query}
use patrabahok.Policy.{normalize}
use patrabahok.Policy.Addresses.{normalize_tagged}
use patrabahok.Policy.Session.{requests, lines_of, requests-lines_of, IsLineValue}
use patrabahok.Tests.Data.{plain, post_to_staff}

split_email_iff_example : (split_email (codes "bob@a.org") ≡ ok (codes "bob", codes "a.org")) ↔ (
    (codes "bob@a.org" ≡ codes "bob" ++ b'@' ∷ codes "a.org")
    × IsAddress (codes "bob") (codes "a.org"))
split_email_iff_example = split_email_iff (codes "bob@a.org") (codes "bob") (codes "a.org")

pub bob_splits : split_email (codes "bob@a.org") ≡ ok (codes "bob", codes "a.org")
unfolding split_email validate_email match_string nullable after email_re domain_re label upto cut
    last_index_byte
bob_splits = refl

no_address : split_email (codes "bob") ≡ err invalid
unfolding split_email validate_email match_string nullable after email_re domain_re label upto cut
no_address = refl

split_email_errors_example : (invalid ≡ invalid) × (validate_email (codes "bob") ≡ err invalid)
split_email_errors_example = split_email_errors (codes "bob") invalid no_address

mailbox_dir-split_email_example :
    (mailbox_dir (codes "a.org") (codes "bob")
      ≡ vmail_home ++ (b'/' ∷ (codes "a.org" ++ (b'/' ∷ codes "bob"))))
    × IsPlain (codes "a.org")
    × IsPlain (codes "bob")
mailbox_dir-split_email_example =
    mailbox_dir-split_email (codes "bob@a.org") (codes "bob") (codes "a.org") bob_splits

mailbox_dir_injective_example : codes "bob@a.org" ≡ codes "bob@a.org"
mailbox_dir_injective_example =
    mailbox_dir_injective (codes "bob@a.org") (codes "bob") (codes "a.org") (codes "bob@a.org")
      (codes "bob") (codes "a.org") bob_splits bob_splits refl

gigabytes : IsUnitText b'g' []
unfolding trim_right
gigabytes = record { no_digit = refl; no_space = refl; trimmed = refl }

parse_quota-itoa_example : parse_quota (itoa 2 ++ b'g' ∷ []) ≡ scaled 2 (to_upper (b'g' ∷ []))
parse_quota-itoa_example = parse_quota-itoa 2 b'g' [] (omega arith) gigabytes

factor_of_g : unit_factor (to_upper (b'g' ∷ [])) ≡ some 1073741824
unfolding unit_factor to_upper text_eq
factor_of_g = refl

parse_quota_exact_example : parse_quota (itoa 2 ++ b'g' ∷ []) ≡ ok (pos (2 * 1073741824))
parse_quota_exact_example =
    parse_quota_exact 2 b'g' 1073741824 [] (omega arith) gigabytes factor_of_g (omega arith)

parse_quota_wraps_example :
    parse_quota (itoa 17179869185 ++ b'g' ∷ []) ≡ parse_quota (itoa 1 ++ b'g' ∷ [])
parse_quota_wraps_example =
    parse_quota_wraps 17179869185 1 b'g' 1073741824 [] (omega arith) (omega arith) gigabytes
      factor_of_g refl

sha512_crypt-layout_example :
    (hash : Text) × (sha512_crypt (λ s. s) (codes "password1") (codes "salt") 5000
      ≡ codes "$6$" ++ (take 16 (codes "salt") ++ (codes "$" ++ hash)))
    × All IsCryptLetter hash
    × (length hash ≡ 86)
sha512_crypt-layout_example = sha512_crypt-layout (λ s. s) (codes "password1") (codes "salt")

repeat_to-IsCyclic_example :
    (length (repeat_to (codes "abc") 7) ≡ 7) × IsCyclic (codes "abc") (repeat_to (codes "abc") 7)
repeat_to-IsCyclic_example = repeat_to-IsCyclic (codes "abc") 7 (omega arith)

length_blocks-repeat_to_example :
    length_blocks 70 (repeat_to (codes "abcdefgh") 64) 70
    ≡ repeat_to (repeat_to (codes "abcdefgh") 64) 70
length_blocks-repeat_to_example =
    length_blocks-repeat_to (repeat_to (codes "abcdefgh") 64) 70
      (repeat_to-IsCyclic (codes "abcdefgh") 64 (omega arith)).0

parse_quota-quota_key_example : parse_quota (quota_key (pos 5_368_709_120)) ≡ ok (pos 5_368_709_120)
parse_quota-quota_key_example = parse_quota-quota_key 5_368_709_120 (omega arith)

like-finds_query_example :
    like (b'%' ∷ escape_like (codes "50%_") ++ b'%' ∷ []) (codes "save 50%_ now")
    ≡ any (starts_with (codes "50%_")) (tails (codes "save 50%_ now"))
like-finds_query_example = like-finds_query (codes "50%_") (codes "save 50%_ now")

tagged : to_lower (trim_space (codes " Staff+news@A.org")) ≡ codes "staff+news@a.org"
unfolding to_lower trim_space trim_left trim_right
tagged = refl

untagged : to_lower (trim_space (codes "staff@a.org")) ≡ codes "staff@a.org"
unfolding to_lower trim_space trim_left trim_right
untagged = refl

no_at : All (λ x. x ≢ b'@') (codes "staff+news")
no_at = ground arith

no_plus : All (λ x. x ≢ b'+') (codes "staff")
no_plus = ground arith

trimmed_line :
    (IsLineValue post_to_staff.sender × IsLineValue post_to_staff.recipient)
    × (IsLineValue post_to_staff.sasl_username × IsLineValue post_to_staff.client_address)
unfolding trim_right
trimmed_line = ((refl, refl), (refl, refl))

normalize_tagged_example :
    (normalize (codes " Staff+news@A.org") ≡ codes "staff@a.org")
    × (normalize (codes "staff@a.org") ≡ codes "staff@a.org")
normalize_tagged_example =
    normalize_tagged (codes " Staff+news@A.org") (codes "staff@a.org") b's' (codes "taff")
      (codes "news") (codes "a.org") tagged untagged no_at no_plus

requests-lines_of_example : requests (lines_of post_to_staff ++ []) ≡ post_to_staff ∷ requests []
requests-lines_of_example =
    requests-lines_of post_to_staff [] trimmed_line.0.0 trimmed_line.0.1 trimmed_line.1.0
      trimmed_line.1.1
