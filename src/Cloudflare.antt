-- ===== src/Cloudflare.antt =====
-- The DNS records of a domain in its Cloudflare zone: cli/internal/cloudflare/apply.go, and what it
-- takes from mtasts.go of cli/internal/mtasts. The service is a parameter.
pub mod Changes
pub mod Kept
pub mod Targets
pub mod Zone
use patrabahok.Base.{
  ℕ, Bool, true, false, Option, none, some, List, [], ◌∷◌, ◌++◌, if◌then◌else◌, any, ◌==◌, take,
  reverse,
}
use patrabahok.Base.Text.{
  Text, codes, text_eq, has_prefix, equal_fold, trim_left, trim_right, trim_prefix,
}
use patrabahok.Base.Table.{rows_where}
use patrabahok.Db.{Env}
use patrabahok.Keys.{hex}

pub record DnsRecord : Type 0 where
  pub id : Text
  pub type : Text
  pub name : Text
  pub content : Text
  pub ttl : ℕ
  pub priority : ℕ
  pub proxied : Bool

-- The calls of the service on the records of a zone. `none` and false are errors.
pub record Api (Z : Type 0) : Type 0 where
  pub list_records : Text → Text → Z → Option (List DnsRecord) × Z
  pub create_record : DnsRecord → Z → Bool × Z
  pub update_record : Text → DnsRecord → Z → Bool × Z

pub data ApplyAction : Type 0 where
  created updated unchanged skipped failed : ApplyAction

pub record ApplyResult : Type 0 where
  pub label : Text
  pub action : ApplyAction

unfoldable pub policy_content : Text → Text
policy_content mail_host =
    codes "version: STSv1\nmode: testing\nmx: " ++ (mail_host ++ codes "\nmax_age: 604800\n")

unfoldable pub sts_hostname : Text → Text
sts_hostname domain = codes "mta-sts." ++ domain

unfoldable pub policy_id : ⦃env : Env⦄ → Text → Text
policy_id ⦃env⦄ content = take 16 (hex (env.sha256 content))

-- strings.TrimSuffix(s, ".")
unfoldable pub without_dot : Text → Text
without_dot s = reverse (trim_prefix (b'.' ∷ []) (reverse s))

-- strings.Trim(s, `"`)
unfoldable pub unquoted : Text → Text
unquoted s = trim_right (λ c. c == b'"') (trim_left (λ c. c == b'"') s)

module _ {Z : Type 0} (api : Api Z) where
  unfoldable pub done_or_failed : Text → ApplyAction → Bool × Z → ApplyResult × Z
  done_or_failed label action (true, z) = (record { label = label; action = action }, z)
  done_or_failed label action (false, z) = (record { label = label; action = failed }, z)

  -- One record is changed, none is replaced by a new one, and of several none is touched.
  unfoldable pub change_one : Text → List DnsRecord → DnsRecord → Z → ApplyResult × Z
  unfolding done_or_failed
  change_one label [] new z = done_or_failed label created (api.create_record new z)
  change_one label (r ∷ []) new z =
      done_or_failed label updated (api.update_record r.id (record r { content = new.content }) z)
  change_one label (r ∷ (x ∷ rs)) new z = (record { label = label; action = skipped }, z)

  unfoldable pub single_host_found :
      Text → DnsRecord → Option (List DnsRecord) × Z → ApplyResult × Z
  unfolding change_one
  single_host_found label new (none, z) = (record { label = label; action = failed }, z)
  single_host_found label new (some existing, z) =
      if any (λ r. text_eq r.content new.content) existing
      then (record { label = label; action = unchanged }, z)
      else change_one label existing new z

  unfoldable pub upsert_single_host : Text → Text → Text → Text → ℕ → Z → ApplyResult × Z
  unfolding single_host_found
  upsert_single_host label record_type name content priority z =
      single_host_found label
        (record {
          id = [];
          type = record_type;
          name = name;
          content = content;
          ttl = 300;
          priority = priority;
          proxied = false;
        })
        (api.list_records record_type name z)

  unfoldable pub mx_found : Text → Text → Option (List DnsRecord) × Z → ApplyResult × Z
  unfolding done_or_failed without_dot
  mx_found domain mail_host (none, z) = (record { label = codes "MX record"; action = failed }, z)
  mx_found domain mail_host (some existing, z) =
      if any (λ r. equal_fold (without_dot r.content) (without_dot mail_host)) existing
      then (record { label = codes "MX record"; action = unchanged }, z)
      else done_or_failed (codes "MX record") created (
          api.create_record
            (record {
              id = [];
              type = codes "MX";
              name = domain;
              content = mail_host;
              ttl = 300;
              priority = 10;
              proxied = false;
            })
            z)

  unfoldable pub upsert_mx : Text → Text → Z → ApplyResult × Z
  unfolding mx_found
  upsert_mx domain mail_host z = mx_found domain mail_host (api.list_records (codes "MX") domain z)

  unfoldable pub txt_found :
      Text → Text → Text → Text → Option (List DnsRecord) × Z → ApplyResult × Z
  unfolding single_host_found unquoted
  txt_found label name prefix content (none, z) = (record { label = label; action = failed }, z)
  txt_found label name prefix content (some existing, z) =
      single_host_found label
        (record {
          id = [];
          type = codes "TXT";
          name = name;
          content = content;
          ttl = 300;
          priority = 0;
          proxied = false;
        })
        (some (rows_where (λ r. has_prefix prefix (unquoted r.content)) existing), z)

  unfoldable pub upsert_txt_by_prefix : Text → Text → Text → Text → Z → ApplyResult × Z
  unfolding txt_found
  upsert_txt_by_prefix label name prefix content z =
      txt_found label name prefix content (api.list_records (codes "TXT") name z)

  -- The calls one behind the other.
  unfoldable pub run_all : List (Z → ApplyResult × Z) → Z → List ApplyResult × Z
  run_all [] z = ([], z)
  run_all (step ∷ steps) z = let (r, z1) = step z in let (rs, z2) = run_all steps z1 in (r ∷ rs, z2)

  -- The calls for a domain, in their order.
  unfoldable pub mail_record_steps :
      ⦃env : Env⦄ → Text → Text → Text → Text → Text → List (Z → ApplyResult × Z)
  unfolding upsert_single_host upsert_mx upsert_txt_by_prefix policy_content policy_id sts_hostname
  mail_record_steps domain mail_host server_ip dkim_value dmarc_value =
      upsert_single_host (codes "A record") (codes "A") mail_host server_ip 0
      ∷ upsert_mx domain mail_host
      ∷ upsert_txt_by_prefix (codes "SPF") domain (codes "v=spf1") (codes "v=spf1 mx -all")
      ∷ upsert_txt_by_prefix (codes "DMARC") (codes "_dmarc." ++ domain) (codes "v=DMARC1")
          dmarc_value
      ∷ upsert_txt_by_prefix (codes "DKIM") (codes "mail._domainkey." ++ domain) (codes "v=DKIM1")
          dkim_value
      ∷ upsert_single_host (codes "MTA-STS A record") (codes "A") (sts_hostname domain) server_ip 0
      ∷ upsert_txt_by_prefix (codes "MTA-STS TXT") (codes "_mta-sts." ++ domain) (codes "v=STSv1")
          (codes "v=STSv1; id=" ++ policy_id (policy_content mail_host))
      ∷ []

  unfoldable pub apply_mail_records :
      ⦃env : Env⦄ → Text → Text → Text → Text → Text → Z → List ApplyResult × Z
  unfolding run_all mail_record_steps
  apply_mail_records domain mail_host server_ip dkim_value dmarc_value =
      run_all (mail_record_steps domain mail_host server_ip dkim_value dmarc_value)
