-- ===== src/Address/Shape.antt =====
-- What SplitEmail accepts, and how it splits.
use patrabahok.Base.{
  inr, inl, sym, ◌⊎◌, ◌↔◌, ℕ, zero, suc, ◌==◌, ◌≤◌, ◌≡◌, ◌≢◌, refl, ap, ◌∙◌, subst, Bool, true,
  false, none, some, [], ◌∷◌, ◌++◌, arith, length, take, drop, All, take-append, ==_iff,
}
use patrabahok.Base.Text.{Text, cut, last_index_byte}
use patrabahok.Regex.{Regex, one, upto, Lang, match_string}
use patrabahok.Regex.Exact.{match_string_iff}
use patrabahok.Regex.Only.{HasOnly, Lang-All}
use patrabahok.Address.{
  invalid, Error, >>=-eq-ok, panic, ok, err, is_alpha, is_alnum, is_label_byte, is_atom_byte, label,
  domain_re, local_re, email_re, validate_email, split_email,
}

-- A class that refuses `b` has no member equal to it.
pub ne_of_class : (p : ℕ → Bool) (b : ℕ) → p b ≡ false → (c : ℕ) → p c ≡ true → c ≢ b
ne_of_class p b h c k e = let same : p b ≡ true = subst (λ x. p x ≡ true) e k in cc

HasOnly-upto : (P : ℕ → Type 0) (n : ℕ) (r : Regex) → HasOnly P r → HasOnly P (upto n r)
unfolding upto
HasOnly-upto P zero r h = tt
HasOnly-upto P (suc n) r h = (tt, (h, HasOnly-upto P n r h))

-- No "@" in a local part or in a domain.
local_re-no_at : HasOnly (λ c. c ≢ b'@') local_re
local_re-no_at =
    let in_atom = ne_of_class is_atom_byte b'@' refl in
    ((in_atom, in_atom), (ne_of_class (λ c. c == b'.') b'@' refl, (in_atom, in_atom)))

HasOnly-label : (P : ℕ → Type 0) → ((c : ℕ) → is_label_byte c ≡ true → P c) → HasOnly P label
unfolding label
HasOnly-label P h =
    let alnum = λ (c : ℕ) (e : is_alnum c ≡ true). h c (rw e) in
    (alnum, (tt, (HasOnly-upto P 61 (one is_label_byte) h, alnum)))

pub HasOnly-domain_re :
    (P : ℕ → Type 0)
    → ((c : ℕ) → is_label_byte c ≡ true → P c)
    → ((c : ℕ) → (c == b'.') ≡ true → P c)
    → HasOnly P domain_re
unfolding domain_re
HasOnly-domain_re P h dot =
    let in_label = HasOnly-label P h in
    let letter = λ (c : ℕ) (e : is_alpha c ≡ true). h c (rw e) in
    (((in_label, dot), (in_label, dot)), (letter, (letter, letter)))

pub domain_re-no_at : HasOnly (λ c. c ≢ b'@') domain_re
domain_re-no_at =
    HasOnly-domain_re _ (ne_of_class is_label_byte b'@' refl)
      (ne_of_class (λ c. c == b'.') b'@' refl)

pub cut-append : (b : ℕ) (u v : Text) → All (λ c. c ≢ b) u → cut b (u ++ b ∷ v) ≡ (u, v, true)
unfolding cut
cut-append b [] v h = ground arith
cut-append b (c ∷ u) v (k, h) = ground (arith, cut-append b u v h)

last_index_byte-none : (b : ℕ) (v : Text) → All (λ c. c ≢ b) v → last_index_byte b v ≡ none
unfolding last_index_byte
last_index_byte-none b [] h = refl
last_index_byte-none b (c ∷ v) (k, h) = ground (arith, last_index_byte-none b v h)

pub last_index_byte-append :
    (b : ℕ) (u v : Text) → All (λ c. c ≢ b) v → last_index_byte b (u ++ b ∷ v) ≡ some (length u)
unfolding last_index_byte
last_index_byte-append b [] v h = ground (arith, last_index_byte-none b v h)
last_index_byte-append b (c ∷ u) v h = ground (arith, last_index_byte-append b u v h)

pub drop-suc-append : (b : ℕ) (u v : Text) → drop (suc (length u)) (u ++ b ∷ v) ≡ v
drop-suc-append b [] v = refl
drop-suc-append b (x ∷ u) v = drop-suc-append b u v

-- The shape of an address, with no reference to the code: a dot-atom, "@" and a domain, within the
-- lengths of RFC 5321.
pub record IsAddress (local domain : Text) : Type 0 where
  pub local_shape : Lang local_re local
  pub domain_shape : Lang domain_re domain
  pub local_fits : length local ≤ 64
  pub fits : length (local ++ b'@' ∷ domain) ≤ 254

-- What the pattern of addresses says, split at the "@".
email_re-parts :
    (e : Text)
    → Lang email_re e
    → (l : Text) × (d : Text) × (e ≡ l ++ b'@' ∷ d) × Lang local_re l × Lang domain_re d
unfolding email_re
email_re-parts e (l, rest, eq, hl, (at, d, eq', (c, one_at, is_at), hd)) =
    let same : c ≡ b'@' = (==_iff c b'@').0 is_at in
    let tail : rest ≡ b'@' ∷ d = eq' ∙ ap (λ t. t ++ d) one_at ∙ ap (λ x. x ∷ d) same in
    (l, d, eq ∙ ap (λ t. l ++ t) tail, hl, hd)

email_re-join : (l d : Text) → Lang local_re l → Lang domain_re d → Lang email_re (l ++ b'@' ∷ d)
unfolding email_re
email_re-join l d hl hd = (l, b'@' ∷ d, refl, hl, (b'@' ∷ [], d, refl, (b'@', refl, refl), hd))

-- The "@" of an address is its only one.
pub no_at_local : (l : Text) → Lang local_re l → All (λ c. c ≢ b'@') l
no_at_local l h = Lang-All (λ c. c ≢ b'@') local_re l local_re-no_at h

pub no_at_domain : (d : Text) → Lang domain_re d → All (λ c. c ≢ b'@') d
no_at_domain d h = Lang-All (λ c. c ≢ b'@') domain_re d domain_re-no_at h

validate_email-matches :
    (e : Text)
    → validate_email e ≡ ok tt
    → (match_string email_re e ≡ true) × (length e ≤ 254) × (length (cut b'@' e).0 ≤ 64)
unfolding validate_email
validate_email-matches e h = ground arith

pub validate_email-cases :
    (e : Text) → (validate_email e ≡ ok tt) ⊎ (validate_email e ≡ err invalid)
unfolding validate_email
validate_email-cases e = ground arith

-- An accepted address has the shape of one.
pub validate_email-parts :
    (e : Text)
    → validate_email e ≡ ok tt
    → (l : Text) × (d : Text) × (e ≡ l ++ b'@' ∷ d) × IsAddress l d
validate_email-parts e h =
    let (matched, fits, local_fits) = validate_email-matches e h in
    let (l, d, eq, hl, hd) = email_re-parts e ((match_string_iff email_re e).0 matched) in
    let split =
      ap (λ t. (cut b'@' t).0) eq
      ∙ ap (λ (t : Text × Text × Bool). t.0) (cut-append b'@' l d (no_at_local l hl)) in
    (
      l,
      d,
      eq,
      record {
        local_shape = hl;
        domain_shape = hd;
        local_fits = subst (λ (t : Text). length t ≤ 64) split local_fits;
        fits = subst (λ (t : Text). length t ≤ 254) eq fits;
      },
    )

validate_email-join : (l d : Text) → IsAddress l d → validate_email (l ++ b'@' ∷ d) ≡ ok tt
unfolding validate_email
validate_email-join l d h =
    let whole =
      (match_string_iff email_re (l ++ b'@' ∷ d)).1
        (email_re-join l d h.local_shape h.domain_shape) in
    ground (arith, whole, cut-append b'@' l d (no_at_local l h.local_shape), h.local_fits, h.fits)

split_email-valid :
    (e : Text)
    → validate_email e ≡ ok tt
    → split_email e ≡ (elim (last_index_byte b'@' e) [
      | none ↦ err panic
      | some i ↦ ok (take i e, drop (suc i) e)
    ])
unfolding split_email
split_email-valid e h = rw h

split_email-join : (l d : Text) → IsAddress l d → split_email (l ++ b'@' ∷ d) ≡ ok (l, d)
split_email-join l d h =
    split_email-valid (l ++ b'@' ∷ d) (validate_email-join l d h)
    ∙ rw (last_index_byte-append b'@' l d (no_at_domain d h.domain_shape))
        (rw (take-append, drop-suc-append) refl)

split_email-checked : (e : Text) {p : Text × Text} → split_email e ≡ ok p → validate_email e ≡ ok tt
unfolding split_email
split_email-checked e h = let (checked, valid, _) = >>=-eq-ok (validate_email e) _ h in valid

-- A split succeeds exactly on the addresses: it returns the dot-atom before the only "@" and the
-- domain behind it, within the limits on both lengths.
pub split_email_iff :
    (e l d : Text) → (split_email e ≡ ok (l, d)) ↔ ((e ≡ l ++ b'@' ∷ d) × IsAddress l d)
split_email_iff e l d = (
  λ h.
      let (l', d', eq, shape) = validate_email-parts e (split_email-checked e h) in
      let same = sym (split_email-join l' d' shape) ∙ ap split_email (sym eq) ∙ h in
      let same_l : l' ≡ l = cc same in
      let same_d : d' ≡ d = cc same in
      subst (λ u. (e ≡ u ++ b'@' ∷ d) × IsAddress u d) same_l
        (subst (λ u. (e ≡ l' ++ b'@' ∷ u) × IsAddress l' u) same_d (eq, shape)),
  λ (eq, shape). ap split_email eq ∙ split_email-join l d shape,
)

-- The index that SplitEmail computes is never out of range: where a split fails, the text is
-- refused as invalid input.
pub split_email_errors :
    (e : Text) (x : Error)
    → split_email e ≡ err x
    → (x ≡ invalid) × (validate_email e ≡ err invalid)
unfolding split_email
split_email_errors e x h = elim (validate_email-cases e) [
  | inl valid ↦
      let (l, d, eq, shape) = validate_email-parts e valid in
      absurd (cc (h, ap split_email eq, split_email-join l d shape))
  | inr refused ↦ (ground arith, refused)
]
