-- ===== src/Cloudflare/Targets.antt =====
-- The records that ApplyMailRecords of cli/internal/cloudflare/apply.go looks after.
use patrabahok.Base.{◌≡◌, ◌⊎◌, inl, inr, Bool, true, ◌&&◌, ◌||◌, ◌++◌, arith}
use patrabahok.Base.Text.{Text, codes, text_eq, text_eq_refl, has_prefix}
use patrabahok.Cloudflare.{DnsRecord, sts_hostname, unquoted}

abbrev pub at_prefix : Text → Text → DnsRecord → Bool
at_prefix name prefix x = text_eq x.name name && has_prefix prefix (unquoted x.content)

-- The records that are looked after.
abbrev pub is_target : Text → Text → DnsRecord → Bool
is_target domain mail_host x =
    (text_eq x.type (codes "A")
      && (text_eq x.name mail_host || text_eq x.name (sts_hostname domain)))
    || (text_eq x.type (codes "TXT")
        && (at_prefix domain (codes "v=spf1") x
            || (at_prefix (codes "_dmarc." ++ domain) (codes "v=DMARC1") x
                || (at_prefix (codes "mail._domainkey." ++ domain) (codes "v=DKIM1") x
                    || at_prefix (codes "_mta-sts." ++ domain) (codes "v=STSv1") x))))

pub at_both :
    (r : DnsRecord) (name prefix : Text)
    → r.name ≡ name
    → has_prefix prefix (unquoted r.content) ≡ true
    → at_prefix name prefix r ≡ true
at_both r name prefix named begins =
    let here : text_eq r.name name ≡ true = rw named (text_eq_refl name) in ground arith

pub target_host :
    (domain mail_host : Text) (r : DnsRecord)
    → r.type ≡ codes "A"
    → (r.name ≡ mail_host) ⊎ (r.name ≡ sts_hostname domain)
    → is_target domain mail_host r ≡ true
target_host domain mail_host r typed (inl named) =
    let a : text_eq r.type (codes "A") ≡ true = rw typed (text_eq_refl (codes "A")) in
    let here : text_eq r.name mail_host ≡ true = rw named (text_eq_refl mail_host) in ground arith
target_host domain mail_host r typed (inr named) =
    let a : text_eq r.type (codes "A") ≡ true = rw typed (text_eq_refl (codes "A")) in
    let here : text_eq r.name (sts_hostname domain) ≡ true =
      rw named (text_eq_refl (sts_hostname domain)) in
    ground arith

or_true : (b : Bool) → (b || true) ≡ true
or_true b = ground arith

one_of :
    (a b c d : Bool)
    → (a ≡ true) ⊎ ((b ≡ true) ⊎ ((c ≡ true) ⊎ (d ≡ true)))
    → (a || (b || (c || d))) ≡ true
one_of a b c d (inl e) = ground arith
one_of a b c d (inr (inl e)) = ground arith
one_of a b c d (inr (inr (inl e))) = ground arith
one_of a b c d (inr (inr (inr e))) = ground arith

pub target_txt :
    (domain mail_host : Text) (r : DnsRecord)
    → r.type ≡ codes "TXT"
    → (at_prefix domain (codes "v=spf1") r ≡ true)
      ⊎ ((at_prefix (codes "_dmarc." ++ domain) (codes "v=DMARC1") r ≡ true)
          ⊎ ((at_prefix (codes "mail._domainkey." ++ domain) (codes "v=DKIM1") r ≡ true)
              ⊎ (at_prefix (codes "_mta-sts." ++ domain) (codes "v=STSv1") r ≡ true)))
    → is_target domain mail_host r ≡ true
target_txt domain mail_host r typed which =
    let t : text_eq r.type (codes "TXT") ≡ true = rw typed (text_eq_refl (codes "TXT")) in
    let k = one_of _ _ _ _ which in rw (t, k) (or_true _)
