-- ===== src/Cloudflare/Kept.antt =====
-- Which records of a zone the changes of cli/internal/cloudflare/apply.go leave alone.
use patrabahok.Base.{
  ℕ, ◌≡◌, refl, sym, subst, inl, inr, Bool, true, Option, none, some, List, [], ◌∷◌, any, All,
  All-mono, Bool-cases,
}
use patrabahok.Base.Text.{equal_fold, Text, codes, has_prefix}
use patrabahok.Base.Table.{rows_where}
use patrabahok.Db.{Env}
use patrabahok.Cloudflare.{
  without_dot, DnsRecord, Api, ApplyResult, unquoted, upsert_single_host, mx_found, upsert_mx,
  txt_found, upsert_txt_by_prefix, run_all, mail_record_steps, apply_mail_records,
}
use patrabahok.Cloudflare.Zone.{Among, IsService, KeptBut, same-KeptBut, KeptBut-trans}
use patrabahok.Cloudflare.Targets.{is_target, at_both, target_host, target_txt}
use patrabahok.Cloudflare.Changes.{
  Keeping, create-Keeping, done_or_failed-state, single_host_found-Keeping,
}

module _ {Z : Type 0} (api : Api Z) (records : Z → List DnsRecord) (service : IsService api records)
    (T : DnsRecord → Bool) where
  -- What a list says, of the state that it leaves.
  listed :
      (t n : Text) (z : Z)
      → ((r : DnsRecord) → r.type ≡ t → r.name ≡ n → T r ≡ true)
      → (rs : List DnsRecord) → (api.list_records t n z).0 ≡ some rs
      → All (λ r. Among r (records (api.list_records t n z).1) × (T r ≡ true)) rs
  listed t n z targets rs e =
      All-mono
        (λ r (there, typed, named).
          (subst (Among r) (sym (service.list_keeps t n z)) there, targets r typed named))
        rs (service.list_finds t n z rs e)

  from_list :
      (t n : Text) (z z1 : Z)
      → Keeping records T (api.list_records t n z).1 z1
      → Keeping records T z z1
  from_list t n z z1 h = KeptBut-trans T _ _ _ (same-KeptBut T _ _ (service.list_keeps t n z)) h

  upsert_single_host-Keeping :
      (label t n content : Text) (priority : ℕ) (z : Z)
      → ((r : DnsRecord) → r.type ≡ t → r.name ≡ n → T r ≡ true)
      → Keeping records T z (upsert_single_host api label t n content priority z).1
  unfolding upsert_single_host
  upsert_single_host-Keeping label t n content priority z targets = from_list t n z _ (
      single_host_found-Keeping api records service T label _ (api.list_records t n z)
        (listed t n z targets))

  mx_found-Keeping :
      (domain mail_host : Text) (p : Option (List DnsRecord) × Z)
      → Keeping records T p.1 (mx_found api domain mail_host p).1
  unfolding mx_found
  mx_found-Keeping domain mail_host (none, z) = same-KeptBut T _ _ refl
  mx_found-Keeping domain mail_host (some rs, z) =
      elim (Bool-cases (any (λ r. equal_fold (without_dot r.content) (without_dot mail_host)) rs)) [
        | inl e ↦ rw e (same-KeptBut T _ _ refl)
        | inr e ↦ rw e (
            rw (done_or_failed-state api records service T _ _ _)
              (create-Keeping api records service T _ z))
      ]

  upsert_mx-Keeping :
      (domain mail_host : Text) (z : Z) → Keeping records T z (upsert_mx api domain mail_host z).1
  unfolding upsert_mx
  upsert_mx-Keeping domain mail_host z =
      from_list (codes "MX") domain z _
        (mx_found-Keeping domain mail_host (api.list_records (codes "MX") domain z))

  All-rows_where :
      (P : DnsRecord → Type 0) (p : DnsRecord → Bool) (rs : List DnsRecord)
      → All P rs
      → All (λ r. P r × (p r ≡ true)) (rows_where p rs)
  unfolding rows_where
  All-rows_where P p [] h = tt
  All-rows_where P p (r ∷ rs) (k, h) = elim (Bool-cases (p r)) [
    | inl e ↦ rw e ((k, e), All-rows_where P p rs h)
    | inr e ↦ rw e (All-rows_where P p rs h)
  ]

  txt_found-Keeping :
      (label name prefix content : Text) (p : Option (List DnsRecord) × Z)
      → ((rs : List DnsRecord)
          → p.0 ≡ some rs
          → All (λ r. Among r (records p.1) × (r.type ≡ codes "TXT") × (r.name ≡ name)) rs)
      → ((r : DnsRecord)
          → r.type ≡ codes "TXT"
          → r.name ≡ name
          → has_prefix prefix (unquoted r.content) ≡ true
          → T r ≡ true)
      → Keeping records T p.1 (txt_found api label name prefix content p).1
  unfolding txt_found
  txt_found-Keeping label name prefix content (none, z) h targets = same-KeptBut T _ _ refl
  txt_found-Keeping label name prefix content (some rs, z) h targets =
      single_host_found-Keeping api records service T label _ (some _, z)
        (λ ss e.
          subst (λ x. All (λ r. Among r (records z) × (T r ≡ true)) x) (cc e)
            (All-mono (λ r ((there, typed, named), begins). (there, targets r typed named begins)) _
              (All-rows_where _ _ rs (h rs refl))))

  upsert_txt_by_prefix-Keeping :
      (label name prefix content : Text) (z : Z)
      → ((r : DnsRecord)
          → r.type ≡ codes "TXT"
          → r.name ≡ name
          → has_prefix prefix (unquoted r.content) ≡ true
          → T r ≡ true)
      → Keeping records T z (upsert_txt_by_prefix api label name prefix content z).1
  unfolding upsert_txt_by_prefix
  upsert_txt_by_prefix-Keeping label name prefix content z targets =
      from_list (codes "TXT") name z _ (
        txt_found-Keeping label name prefix content (api.list_records (codes "TXT") name z)
          (λ rs e.
            All-mono
              (λ r (there, typed, named). (
                subst (Among r) (sym (service.list_keeps (codes "TXT") name z)) there,
                typed,
                named,
              ))
              rs (service.list_finds (codes "TXT") name z rs e))
          targets)

  run_all-Keeping :
      (steps : List (Z → ApplyResult × Z)) (z : Z)
      → All (λ step. (y : Z) → Keeping records T y (step y).1) steps
      → Keeping records T z (run_all api steps z).1
  unfolding run_all
  run_all-Keeping [] z h = same-KeptBut T _ _ refl
  run_all-Keeping (step ∷ steps) z (k, h) =
      KeptBut-trans T _ _ _ (k z) (run_all-Keeping steps (step z).1 h)

module _ ⦃env : Env⦄ {Z : Type 0} (api : Api Z) (records : Z → List DnsRecord)
    (service : IsService api records) where
  steps-Keeping :
      (domain mail_host server_ip dkim_value dmarc_value : Text)
      → All
          (λ step. (y : Z) → KeptBut (is_target domain mail_host) (records y) (records (step y).1))
          (mail_record_steps api domain mail_host server_ip dkim_value dmarc_value)
  unfolding mail_record_steps
  steps-Keeping domain mail_host server_ip dkim_value dmarc_value =
      let T = is_target domain mail_host in
      (
        (λ y.
            upsert_single_host-Keeping api records service T _ _ _ _ _ y
              (λ r typed named. target_host domain mail_host r typed (inl named))),
        (
          (λ y. upsert_mx-Keeping api records service T domain mail_host y),
          (
            (λ y.
                upsert_txt_by_prefix-Keeping api records service T _ _ _ _ y
                  (λ r typed named begins.
                    target_txt domain mail_host r typed (inl (at_both r _ _ named begins)))),
            (
              (λ y.
                  upsert_txt_by_prefix-Keeping api records service T _ _ _ _ y
                    (λ r typed named begins.
                      target_txt domain mail_host r typed
                        (inr (inl (at_both r _ _ named begins))))),
              (
                (λ y.
                    upsert_txt_by_prefix-Keeping api records service T _ _ _ _ y
                      (λ r typed named begins.
                        target_txt domain mail_host r typed
                          (inr (inr (inl (at_both r _ _ named begins)))))),
                (
                  (λ y.
                      upsert_single_host-Keeping api records service T _ _ _ _ _ y
                        (λ r typed named. target_host domain mail_host r typed (inr named))),
                  (
                    (λ y.
                        upsert_txt_by_prefix-Keeping api records service T _ _ _ _ y
                          (λ r typed named begins.
                            target_txt domain mail_host r typed
                              (inr (inr (inr (at_both r _ _ named begins)))))),
                    tt,
                  ),
                ),
              ),
            ),
          ),
        ),
      )

  -- If the service does what it documents of its calls, whatever calls fail, applying the records
  -- of a domain leaves every record of the zone as it was but the A records of the mail host and
  -- of the MTA-STS host and the TXT records at the domain's four names that begin as its own do,
  -- and the zone has no fewer records than before.
  pub apply_mail_records-KeptBut :
      (domain mail_host server_ip dkim_value dmarc_value : Text) (z : Z)
      → KeptBut
          (is_target domain mail_host)
          (records z)
          (records (apply_mail_records api domain mail_host server_ip dkim_value dmarc_value z).1)
  unfolding apply_mail_records
  apply_mail_records-KeptBut domain mail_host server_ip dkim_value dmarc_value z =
      run_all-Keeping api records service (is_target domain mail_host)
        (mail_record_steps api domain mail_host server_ip dkim_value dmarc_value) z
        (steps-Keeping domain mail_host server_ip dkim_value dmarc_value)
