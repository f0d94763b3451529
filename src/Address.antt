-- ===== src/Address.antt =====
-- Domains and addresses: the patterns, limits and splitting of cli/internal/mailbox/mailbox.go, and
-- the error values that the store's operations return.
pub mod Shape
pub mod Paths
use patrabahok.Base.{
  ℕ, suc, ◌+◌, ◌≡◌, refl, Bool, true, false, ◌&&◌, ◌||◌, not, Option, none, some, List, [], ◌∷◌,
  ◌++◌, ltb, leb, ◌==◌, if◌then◌else◌, length, take, drop, any,
}
use patrabahok.Base.Text.{Text, codes, cut, last_index_byte}
use patrabahok.Regex.{Regex, one, seq, alt, star, opt, plus, upto, two_or_more, match_string}

-- What a call can fail with. `invalid` is a ValidationError, `not_found` and `exists` wrap
-- ErrNotFound and ErrExists, `other` is a plain error, `database` is an error of the driver, and
-- `panic` an index out of range.
pub data Error : Type 0 where
  invalid not_found exists other database panic : Error

pub data Result (A : Type 0) : Type 0 where
  err : Error → Result A
  ok : A → Result A

-- `if err != nil { return err }`, and on with the value.
infixl 10 ◌>>=◌
abbrev pub ◌>>=◌ : {R S : Type 0} → Result R → (R → Result S) → Result S
err why >>= next = err why
ok r >>= next = next r

-- A bind that succeeds has a first part that does.
pub >>=-eq-ok :
    {R S : Type 0} (m : Result R) (next : R → Result S) {b : S}
    → (m >>= next) ≡ ok b
    → (r : R) × (m ≡ ok r) × (next r ≡ ok b)
>>=-eq-ok (err why) next h = cc
>>=-eq-ok (ok r) next h = (r, refl, h)

abbrev pub is_alpha : ℕ → Bool
is_alpha c = leb b'a' c && leb c b'z' || leb b'A' c && leb c b'Z'

abbrev pub is_alnum : ℕ → Bool
is_alnum c = is_alpha c || leb b'0' c && leb c b'9'

abbrev pub is_label_byte : ℕ → Bool
is_label_byte c = is_alnum c || c == b'-'

-- [A-Za-z0-9!#$%&'*+=?^_{|}~-]
abbrev pub is_atom_byte : ℕ → Bool
is_atom_byte c = is_alnum c || any (λ x. c == x) (codes "!#$%&'*+=?^_{|}~-")

abbrev pub literal : ℕ → Regex
literal b = one (λ c. c == b)

-- ([A-Za-z0-9]([A-Za-z0-9-]{0,61}[A-Za-z0-9])?\.)+[A-Za-z]{2,}
unfoldable pub label : Regex
unfolding upto
label = seq (one is_alnum) (opt (seq (upto 61 (one is_label_byte)) (one is_alnum)))

unfoldable pub domain_re : Regex
unfolding label
domain_re = seq (plus (seq label (literal b'.'))) (two_or_more (one is_alpha))

-- atom(\.atom)*@domain
abbrev pub atom : Regex
atom = plus (one is_atom_byte)

abbrev pub local_re : Regex
local_re = seq atom (star (seq (literal b'.') atom))

unfoldable pub email_re : Regex
unfolding domain_re
email_re = seq local_re (seq (literal b'@') domain_re)

unfoldable pub validate_domain : Text → Result (Unit {0})
validate_domain d = if not (match_string domain_re d) then err invalid else ok tt

unfoldable pub validate_email : Text → Result (Unit {0})
validate_email e =
    let (local, domain, found) = cut b'@' e in
    if ltb 254 (length e) || ltb 64 (length local) || not (match_string email_re e)
    then err invalid
    else ok tt

-- e[:i] and e[i+1:] at the last "@"; with none, e[:-1] panics.
unfoldable pub split_email : Text → Result (Text × Text)
unfolding validate_email
split_email e = do
  checked ← validate_email e
  elim (last_index_byte b'@' e) [ none ↦ err panic | some i ↦ ok (take i e, drop (suc i) e) ]
