-- ===== src/Tests/Server.antt =====
-- The theorems on the store, the policy service and the API, at concrete inputs.
use patrabahok.Base.{
  inr, subst, inl, ◌≡◌, ◌≢◌, refl, sym, ap, ◌∙◌, true, false, ◌&&◌, [], ◌∷◌, some, ◌++◌, arith,
  Bool-cases,
}
use patrabahok.Base.Text.{
  Text, codes, to_lower, trim_space, text_eq, text_eq_iff, equal_fold, trim_left, trim_right,
  trim_prefix, has_prefix, lower_byte, last_index_byte,
}
use patrabahok.Base.Int.{pos}
use patrabahok.Address.{ok}
use patrabahok.Db.{DomainRow, same}
use patrabahok.Db.Rules.{Runs}
use patrabahok.Domains.{has_user, has_group}
use patrabahok.Mailboxes.{mailbox_create}
use patrabahok.Mailboxes.Creation.{Created, mailbox_create-Created}
use patrabahok.Aliases.{catch_all_set, forward_set}
use patrabahok.Aliases.ReadBack.{
  CatchAllIs, ForwardIs, wanted, catch_all_set-CatchAllIs, forward_set-ForwardIs,
}
use patrabahok.Groups.{valid_post_policy}
use patrabahok.Groups.{Group}
use patrabahok.Groups.Members.{add_each}
use patrabahok.Groups.Results.{Reports, reported, add_each-Reports}
use patrabahok.Mailboxes.Search.{MailboxFilter, mailbox_search, IsPage, mailbox_search-IsPage}
use patrabahok.Policy.{decide, defer}
use patrabahok.Policy.Rule.{Answers, rule_for}
use patrabahok.Policy.Access.{decide_refines, decide-ne-defer}
use patrabahok.Keys.{generate, domain_with_key, domain_of_key, hash_key, hex, has_hash}
use patrabahok.Base.Table.{row_where}
use patrabahok.Address.Shape.{last_index_byte-append, drop-suc-append}
use patrabahok.Groups.Members.{after_at}
use patrabahok.Keys.Tokens.{create}
use patrabahok.Keys.Issued.{Issued, create-Issued}
use patrabahok.Keys.Generated.{Opens, generate-Opens}
use patrabahok.Invariant.{IsValid}
use patrabahok.Invariant.History.{reachable-IsValid, reachable-one_kind, reachable-decide}
use patrabahok.PublicApi.{presented_key}
use patrabahok.PublicApi.Server.{serve, mailbox_delete}
use patrabahok.Db.Answers.{Answered}
use patrabahok.PublicApi.Server.Refusal.{Refused, serve-Refused}
use patrabahok.PublicApi.Server.Isolation.Statements.{Untouched}
use patrabahok.PublicApi.Server.Isolation.Served.{IsOutside, serve-Untouched, serve-IsValid}
use patrabahok.Tests.Data.{
  plain, nothing_yet, grown, grown_reachable, town, loopback, post_to_staff, with_key_for,
}

reachable-IsValid_example : IsValid grown
reachable-IsValid_example = reachable-IsValid grown grown_reachable

reachable-one_kind_example :
    has_user (codes "bob@a.org") grown && has_group (codes "bob@a.org") grown ≡ false
reachable-one_kind_example = reachable-one_kind grown (codes "bob@a.org") grown_reachable

reachable-decide_example :
    Runs grown
      (decide loopback post_to_staff)
      (Answers grown (rule_for loopback grown post_to_staff))
reachable-decide_example = reachable-decide loopback grown post_to_staff grown_reachable

decide_refines_example :
    Runs town (decide loopback post_to_staff) (Answers town (rule_for loopback town post_to_staff))
unfolding valid_post_policy text_eq
decide_refines_example = decide_refines loopback town post_to_staff (refl, tt)

decide-ne-defer_example :
    (decide loopback post_to_staff (record { state = town; faults = [] })).0 ≢ ok defer
decide-ne-defer_example = decide-ne-defer loopback town post_to_staff

mailbox_create-Created_example :
    Runs town
      (mailbox_create (codes "carol@a.org") (codes "password1") (codes "Carol") (pos 1000))
      (Created town (codes "carol@a.org") (codes "Carol") (pos 1000))
mailbox_create-Created_example =
    mailbox_create-Created town (codes "carol@a.org") (codes "Carol") (pos 1000) (codes "password1")

catch_all_set-CatchAllIs_example :
    Runs town
      (catch_all_set (codes "a.org") (codes " Bob@a.org "))
      (CatchAllIs (codes "a.org") (wanted (codes " Bob@a.org ")) town)
catch_all_set-CatchAllIs_example =
    catch_all_set-CatchAllIs (codes "a.org") (codes " Bob@a.org ") town

forward_set-ForwardIs_example :
    Runs town
      (forward_set (codes "bob@a.org") (codes "Bob@b.org") true)
      (ForwardIs (codes "bob@a.org") (to_lower (trim_space (codes "Bob@b.org"))) true town)
forward_set-ForwardIs_example =
    forward_set-ForwardIs (codes "bob@a.org") (codes "Bob@b.org") true town

generate-Opens_example :
    Runs nothing_yet (generate (codes "a.org")) (Opens (codes "a.org") nothing_yet)
generate-Opens_example = generate-Opens (codes "a.org") nothing_yet refl

serve-IsValid_example :
    Runs grown
      (serve (with_key_for (codes "a.org")) (mailbox_delete (codes "bob")))
      (Answered IsValid)
serve-IsValid_example =
    serve-IsValid grown (with_key_for (codes "a.org")) (mailbox_delete (codes "bob"))
      (reachable-IsValid grown grown_reachable)

abbrev a_org : DomainRow
a_org = record { id = 1; name = codes "a.org" }

found_a : domain_with_key (presented_key (with_key_for (codes "b.org"))) town ≡ some a_org
unfolding domain_with_key domain_of_key presented_key hash_key hex has_hash row_where same text_eq
    to_lower trim_space trim_left trim_right trim_prefix has_prefix
found_a = refl

a_is_not_b : equal_fold (codes "a.org") (to_lower (codes "b.org")) ≡ false
unfolding equal_fold text_eq to_lower
a_is_not_b = refl

no_key_of_b :
    (d : DomainRow)
    → domain_with_key (presented_key (with_key_for (codes "b.org"))) town ≡ some d
    → equal_fold d.name (to_lower (codes "b.org")) ≡ false
no_key_of_b d h =
    let is_it : a_org ≡ d = cc (found_a, h) in
    subst (λ (x : DomainRow). equal_fold x.name (to_lower (codes "b.org")) ≡ false) is_it a_is_not_b

serve-Refused_example :
    Runs town (serve (with_key_for (codes "b.org")) (mailbox_delete (codes "bob"))) (Refused town)
serve-Refused_example =
    serve-Refused town (with_key_for (codes "b.org")) (mailbox_delete (codes "bob")) no_key_of_b

to_lower-append : (u v : Text) → to_lower (u ++ v) ≡ to_lower u ++ to_lower v
unfolding to_lower
to_lower-append [] v = refl
to_lower-append (c ∷ u) v = ap (λ s. lower_byte c ∷ s) (to_lower-append u v)

after_at-append : (u : Text) → after_at (u ++ b'@' ∷ codes "a.org") ≡ codes "a.org"
unfolding after_at
after_at-append u =
    rw (after_at, last_index_byte-append b'@' u (codes "a.org") (ground arith))
      (drop-suc-append b'@' u (codes "a.org"))

lowered_twice : to_lower (to_lower (codes "a.org")) ≡ codes "a.org"
unfolding to_lower
lowered_twice = refl

lowered_a :
    (domain : Text)
    → equal_fold domain (to_lower (codes "a.org")) ≡ true
    → to_lower domain ≡ codes "a.org"
unfolding equal_fold
lowered_a domain h =
    (text_eq_iff (to_lower domain) (to_lower (to_lower (codes "a.org")))).0 h ∙ lowered_twice

a_is_another : text_eq (codes "b.org") (codes "a.org") ≡ false
unfolding text_eq
a_is_another = refl

at_b : after_at (to_lower (codes "eve@b.org")) ≡ codes "b.org"
unfolding after_at to_lower last_index_byte
at_b = refl

IsOutside-a :
    (domain : Text)
    → equal_fold domain (to_lower (codes "a.org")) ≡ true
    → IsOutside domain (codes "eve@b.org")
unfolding same to_lower
IsOutside-a domain h l = elim (Bool-cases (same (codes "eve@b.org") (l ++ b'@' ∷ domain))) [
  | inl e ↦
      let equal : to_lower (codes "eve@b.org") ≡ to_lower (l ++ b'@' ∷ domain) =
        (text_eq_iff (to_lower (codes "eve@b.org")) (to_lower (l ++ b'@' ∷ domain))).0 e in
      let parts : to_lower (l ++ b'@' ∷ domain) ≡ to_lower l ++ b'@' ∷ codes "a.org" =
        to_lower-append l (b'@' ∷ domain) ∙ ap (λ d. to_lower l ++ b'@' ∷ d) (lowered_a domain h) in
      let same_domain : codes "b.org" ≡ codes "a.org" =
        sym at_b ∙ ap after_at (equal ∙ parts) ∙ after_at-append (to_lower l) in
      cc (a_is_another, (text_eq_iff (codes "b.org") (codes "a.org")).1 same_domain)
  | inr e ↦ e
]

serve-Untouched_example :
    Runs town
      (serve (with_key_for (codes "a.org")) (mailbox_delete (codes "bob")))
      (Answered (Untouched town (codes "eve@b.org")))
serve-Untouched_example =
    serve-Untouched town (with_key_for (codes "a.org")) (mailbox_delete (codes "bob"))
      (codes "eve@b.org") IsOutside-a

abbrev staff : Group
staff = record {
  id = 1;
  email = codes "staff@a.org";
  name = codes "Staff";
  description = [];
  post_policy = codes "members";
  allow_external = false;
  member_count = 1;
  created_at = 2;
}

add_each-Reports_example :
    Runs town
      (add_each staff
        (codes "a.org" ∷ [])
        (codes "member")
        (codes " Bob@a.org" ∷ codes " " ∷ codes "eve@b.org" ∷ []))
      (Reports 1 (reported (codes " Bob@a.org" ∷ codes " " ∷ codes "eve@b.org" ∷ [])) town)
add_each-Reports_example =
    add_each-Reports staff (codes "a.org" ∷ []) (codes "member")
      (codes " Bob@a.org" ∷ codes " " ∷ codes "eve@b.org" ∷ []) town

abbrev active_bobs : MailboxFilter
active_bobs = record {
  domain = codes "a.org";
  query = codes "bo";
  status = codes "active";
  limit = pos 10;
  offset = pos 0;
}

mailbox_search-IsPage_example : Runs town (mailbox_search active_bobs) (IsPage active_bobs town)
mailbox_search-IsPage_example = mailbox_search-IsPage active_bobs town

create-Issued_example :
    Runs nothing_yet
      (create (codes "ci") (codes "mail:read" ∷ []))
      (Issued (codes "ci") (codes "mail:read" ∷ []) nothing_yet)
create-Issued_example =
    create-Issued (codes "ci") (codes "mail:read" ∷ []) nothing_yet (refl, tt) refl
