-- ===== src/Address/Paths.antt =====
-- mailboxDir of cli/internal/mailbox/mailbox.go, by filepath.Join and its Clean, and where it leads.
use patrabahok.Base.{
  ap₂, ℕ, ◌≡◌, ◌≢◌, refl, sym, ap, ◌∙◌, Bool, false, ◌||◌, List, [], ◌∷◌, ◌++◌, reverse, arith,
  if◌then◌else◌, ◌==◌, All,
}
use patrabahok.Base.Split.{split_on, has_none, split_on-append, split_on_plain}
use patrabahok.Base.Text.{cut, Text, codes, text_eq, text_eq_iff, is_empty}
use patrabahok.Regex.{Lang}
use patrabahok.Regex.Only.{Lang-All, Lang-head}
use patrabahok.Address.{
  true, drop, ok, split_email, is_alnum, is_label_byte, is_atom_byte, local_re, domain_re,
}
use patrabahok.Address.Shape.{cut-append, split_email_iff, ne_of_class, HasOnly-domain_re}

join_with : ℕ → List Text → Text
join_with b [] = []
join_with b (w ∷ ws) = elim ws [ [] ↦ w | v ∷ vs ↦ w ++ b ∷ join_with b ws ]

abbrev pop : List Text → List Text
pop [] = []
pop (w ∷ ws) = ws

-- One element of a rooted path: an empty one and "." are dropped, ".." leaves the last directory.
-- The stack has its top at the head.
step : List Text → Text → List Text
step stack part =
    if is_empty part || text_eq part (codes ".")
    then stack
    else if text_eq part (codes "..")
    then pop stack
    else part ∷ stack

resolve : List Text → List Text → List Text
resolve stack [] = reverse stack
resolve stack (part ∷ parts) = resolve (step stack part) parts

-- filepath.Clean of a rooted path.
clean : Text → Text
unfolding resolve step split_on join_with
clean path = b'/' ∷ join_with b'/' (resolve [] (split_on b'/' path))

non_empty : List Text → List Text
non_empty [] = []
non_empty (w ∷ ws) = if is_empty w then non_empty ws else w ∷ non_empty ws

abbrev pub vmail_home : Text
vmail_home = codes "/var/mail/vhosts"

-- filepath.Join drops empty elements before it joins and cleans the others.
unfoldable pub mailbox_dir : Text → Text → Text
unfolding clean join_with non_empty
mailbox_dir domain local = clean (join_with b'/' (vmail_home ∷ non_empty (domain ∷ local ∷ [])))

-- A name of a directory that a path keeps as it is.
pub record IsPlain (part : Text) : Type 0 where
  pub no_slash : All (λ c. c ≢ b'/') part
  pub not_empty : is_empty part ≡ false
  pub not_dot : part ≢ codes "."
  pub not_up : part ≢ codes ".."

IsPlain-of_head :
    (part : Text)
    → All (λ c. c ≢ b'/') part
    → (c : ℕ) (t : Text) → part ≡ c ∷ t
    → c ≢ b'.'
    → IsPlain part
IsPlain-of_head part h c t e k = record {
  no_slash = h;
  not_empty = rw e;
  not_dot = λ d. k (cc (e, d));
  not_up = λ d. k (cc (e, d));
}

local-IsPlain : (l : Text) → Lang local_re l → IsPlain l
local-IsPlain l h =
    let in_atom = ne_of_class is_atom_byte b'/' refl in
    let dot = ne_of_class (λ c. c == b'.') b'/' refl in
    let no_slash =
      Lang-All (λ c. c ≢ b'/') local_re l ((in_atom, in_atom), (dot, (in_atom, in_atom))) h in
    let (c, t, e, k) =
      Lang-head (λ c. c ≢ b'.') local_re l (ne_of_class is_atom_byte b'.' refl) h in
    IsPlain-of_head l no_slash c t e k

domain-IsPlain : (d : Text) → Lang domain_re d → IsPlain d
unfolding domain_re
domain-IsPlain d h =
    let dot = ne_of_class (λ c. c == b'.') b'/' refl in
    let only = HasOnly-domain_re (λ c. c ≢ b'/') (ne_of_class is_label_byte b'/' refl) dot in
    let no_slash = Lang-All (λ c. c ≢ b'/') domain_re d only h in
    let (c, t, e, k) = Lang-head (λ c. c ≢ b'.') domain_re d (ne_of_class is_alnum b'.' refl) h in
    IsPlain-of_head d no_slash c t e k

has_none-All : (b : ℕ) (u : Text) → All (λ c. c ≢ b) u → has_none b u ≡ true
has_none-All b [] h = refl
has_none-All b (c ∷ u) (k, h) = ground (arith, has_none-All b u h)

split_first :
    (b : ℕ) (u v : Text)
    → All (λ c. c ≢ b) u
    → (w : Text) (ws : List Text) → split_on b v ≡ w ∷ ws
    → split_on b (u ++ b ∷ v) ≡ u ∷ w ∷ ws
split_first b u v h w ws e = split_on-append b u v (has_none-All b u h) ∙ ap (λ r. u ∷ r) e

step-plain : (stack : List Text) (part : Text) → IsPlain part → step stack part ≡ part ∷ stack
unfolding step
step-plain stack part h = ground (
  arith,
  h.not_empty,
  h.not_dot,
  h.not_up,
  text_eq_iff part (codes "."),
  text_eq_iff part (codes ".."),
)

mailbox_dir-parts :
    (d l : Text) → IsPlain d → IsPlain l → split_on b'/' (d ++ b'/' ∷ l) ≡ d ∷ l ∷ []
mailbox_dir-parts d l hd hl =
    split_first b'/' d l hd.no_slash l [] (split_on_plain b'/' l (has_none-All b'/' l hl.no_slash))

resolve-home :
    (d l : Text)
    → IsPlain d
    → IsPlain l
    → resolve [] ([] ∷ codes "var" ∷ codes "mail" ∷ codes "vhosts" ∷ d ∷ l ∷ [])
      ≡ codes "var" ∷ codes "mail" ∷ codes "vhosts" ∷ d ∷ l ∷ []
unfolding resolve step text_eq
resolve-home d l hd hl =
    let at_home = codes "vhosts" ∷ codes "mail" ∷ codes "var" ∷ [] in
    let first = step-plain at_home d hd in
    let second = step-plain (d ∷ at_home) l hl in
    ap (λ st. reverse (step st l)) first ∙ ap reverse second

join-home :
    (d l : Text)
    → IsPlain d
    → IsPlain l
    → join_with b'/' (vmail_home ∷ non_empty (d ∷ l ∷ []))
      ≡ vmail_home ++ (b'/' ∷ (d ++ (b'/' ∷ l)))
unfolding join_with non_empty
join-home d l hd hl = rw (hl.not_empty, hd.not_empty) refl

split-home :
    (d l : Text)
    → IsPlain d
    → IsPlain l
    → split_on b'/' (vmail_home ++ (b'/' ∷ (d ++ (b'/' ∷ l))))
      ≡ [] ∷ codes "var" ∷ codes "mail" ∷ codes "vhosts" ∷ d ∷ l ∷ []
split-home d l hd hl =
    let inner = mailbox_dir-parts d l hd hl in
    let at_vhosts = split_first b'/' (codes "vhosts") _ (omega arith) d (l ∷ []) inner in
    let at_mail = split_first b'/' (codes "mail") _ (omega arith) (codes "vhosts") _ at_vhosts in
    let at_var = split_first b'/' (codes "var") _ (omega arith) (codes "mail") _ at_mail in
    split_first b'/' [] _ tt (codes "var") _ at_var

mailbox_dir-plain :
    (d l : Text)
    → IsPlain d
    → IsPlain l
    → mailbox_dir d l ≡ vmail_home ++ (b'/' ∷ (d ++ (b'/' ∷ l)))
mailbox_dir-plain d l hd hl =
    let parts = ap (split_on b'/') (join-home d l hd hl) ∙ split-home d l hd hl in
    let kept = ap (resolve []) parts ∙ resolve-home d l hd hl in
    (unfold mailbox_dir in ap (λ ps. b'/' ∷ join_with b'/' ps) kept)

-- If an address is accepted, its directory lies directly below its domain's directory, itself
-- directly below the mail store: neither part is empty, "." or "..", and neither holds a "/".
pub mailbox_dir-split_email :
    (e l d : Text)
    → split_email e ≡ ok (l, d)
    → (mailbox_dir d l ≡ vmail_home ++ (b'/' ∷ (d ++ (b'/' ∷ l)))) × IsPlain d × IsPlain l
mailbox_dir-split_email e l d h =
    let (eq, shape) = (split_email_iff e l d).0 h in
    let plain_d = domain-IsPlain d shape.domain_shape in
    let plain_l = local-IsPlain l shape.local_shape in
    (mailbox_dir-plain d l plain_d plain_l, plain_d, plain_l)

-- Two accepted addresses that share a directory are one address.
pub mailbox_dir_injective :
    (e l d e' l' d' : Text)
    → split_email e ≡ ok (l, d)
    → split_email e' ≡ ok (l', d')
    → mailbox_dir d l ≡ mailbox_dir d' l'
    → e ≡ e'
mailbox_dir_injective e l d e' l' d' h h' same =
    let (at, plain_d, plain_l) = mailbox_dir-split_email e l d h in
    let (at', plain_d', plain_l') = mailbox_dir-split_email e' l' d' h' in
    let below = ap (drop 17) (sym at ∙ same ∙ at') in
    let parts =
      sym (cut-append b'/' d l plain_d.no_slash)
      ∙ ap (cut b'/') below
      ∙ cut-append b'/' d' l' plain_d'.no_slash in
    let same_d = ap (λ (t : Text × Text × Bool). t.0) parts in
    let same_l = ap (λ (t : Text × Text × Bool). t.1) parts in
    let (eq, _) = (split_email_iff e l d).0 h in
    let (eq', _) = (split_email_iff e' l' d').0 h' in
    eq ∙ ap₂ (λ (u v : Text). u ++ b'@' ∷ v) same_l same_d ∙ sym eq'
