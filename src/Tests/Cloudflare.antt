-- ===== src/Tests/Cloudflare.antt =====
-- The DNS records of a domain in a zone that has room for one record.
use patrabahok.Base.{
  map, ◌++◌, ◌⊎◌, subst, ◌≡◌, refl, ◌∙◌, sym, inl, inr, Bool, true, false, ◌&&◌, Option, none, some,
  List, [], ◌∷◌, All, Bool-cases, arith,
}
use patrabahok.Base.Text.{Text, codes, text_eq, text_eq_iff}
use patrabahok.Base.Table.{rows_where}
use patrabahok.Cloudflare.{DnsRecord, Api, apply_mail_records}
use patrabahok.Cloudflare.Zone.{Among, IsService, KeptBut, replaced}
use patrabahok.Cloudflare.Targets.{is_target}
use patrabahok.Cloudflare.Kept.{apply_mail_records-KeptBut}
use patrabahok.Tests.Data.{plain}

abbrev records : Option DnsRecord → List DnsRecord
records none = []
records (some r) = r ∷ []

abbrev asked : Text → Text → DnsRecord → Bool
asked t n r = text_eq r.type t && text_eq r.name n

abbrev put : DnsRecord → Option DnsRecord → Bool × Option DnsRecord
put new none = (true, some new)
put new (some r) = (false, some r)

abbrev change_record : Text → DnsRecord → Option DnsRecord → Bool × Option DnsRecord
change_record id new none = (false, none)
change_record id new (some r) = (true, some (replaced id new r))

abbrev small_api : Api (Option DnsRecord)
small_api = record {
  list_records = λ t n z. (some (rows_where (asked t n) (records z)), z);
  create_record = put;
  update_record = change_record;
}

asked-All :
    (t n : Text) (z : Option DnsRecord)
    → All
        (λ r. Among r (records z) × (r.type ≡ t) × (r.name ≡ n))
        (rows_where (asked t n) (records z))
unfolding rows_where
asked-All t n none = tt
asked-All t n (some r) = elim (Bool-cases (asked t n r)) [
  | inl e ↦
      let typed : text_eq r.type t ≡ true = ground arith in
      let named : text_eq r.name n ≡ true = ground arith in
      rw e ((inl refl, (text_eq_iff r.type t).0 typed, (text_eq_iff r.name n).0 named), tt)
  | inr e ↦ rw e tt
]

asked_found :
    (t n : Text) (z : Option DnsRecord) (rs : List DnsRecord)
    → some (rows_where (asked t n) (records z)) ≡ some rs
    → All (λ r. Among r (records z) × (r.type ≡ t) × (r.name ≡ n)) rs
asked_found t n z rs e =
    let same : rows_where (asked t n) (records z) ≡ rs = cc e in
    subst (λ (x : List DnsRecord). All (λ r. Among r (records z) × (r.type ≡ t) × (r.name ≡ n)) x)
      same (asked-All t n z)

small_api-IsService : IsService small_api records
small_api-IsService = record {
  list_keeps = λ t n z. refl;
  list_finds = asked_found;
  one_each = λ z x y. alone z x y;
  creates = λ new z. made new z;
  updates = λ id new z. changed id new z;
}
  where
    alone :
        (z : Option DnsRecord) (x y : DnsRecord)
        → Among x (records z)
        → Among y (records z)
        → x.id ≡ y.id
        → x ≡ y
    alone none x y h k e = absurd h
    alone (some r) x y (inl h) (inl k) e = sym h ∙ k
    alone (some r) x y (inr h) k e = absurd h
    alone (some r) x y (inl h) (inr k) e = absurd k

    made :
        (new : DnsRecord) (z : Option DnsRecord)
        → (records (put new z).1 ≡ records z)
          ⊎ ((x : DnsRecord) × (records (put new z).1 ≡ records z ++ x ∷ []))
    made new none = inr (new, refl)
    made new (some r) = inl refl

    changed :
        (id : Text) (new : DnsRecord) (z : Option DnsRecord)
        → (records (change_record id new z).1 ≡ records z)
          ⊎ (records (change_record id new z).1 ≡ map (replaced id new) (records z))
    changed id new none = inl refl
    changed id new (some r) = inr refl

-- The record by which another service knows the domain.
abbrev verified_zone : Option DnsRecord
verified_zone = some (record {
  id = codes "1";
  type = codes "TXT";
  name = codes "a.org";
  content = codes "site-verification=42";
  ttl = 300;
  priority = 0;
  proxied = false;
})

apply_mail_records-KeptBut_example :
    KeptBut (is_target (codes "a.org") (codes "mail.a.org")) (records verified_zone) (
      records
        (apply_mail_records small_api
          (codes "a.org")
          (codes "mail.a.org")
          (codes "10.0.0.1")
          (codes "v=DKIM1; p=k")
          (codes "v=DMARC1; p=none")
          verified_zone).1)
apply_mail_records-KeptBut_example =
    apply_mail_records-KeptBut small_api records small_api-IsService (codes "a.org")
      (codes "mail.a.org") (codes "10.0.0.1") (codes "v=DKIM1; p=k") (codes "v=DMARC1; p=none")
      verified_zone
