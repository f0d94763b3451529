-- ===== src/Tests/Data.antt =====
-- A collation, tables and requests for the tests.
use patrabahok.Base.{Bool, true, false, [], ◌∷◌, none}
use patrabahok.Base.Text.{Text, codes, to_lower, text_eq}
use patrabahok.Base.Int.{pos}
use patrabahok.Db.{Env, State}
use patrabahok.Groups.{GroupSettings}
use patrabahok.Policy.{Request}
use patrabahok.PublicApi.{Credentials}
use patrabahok.Keys.{hex}
use patrabahok.Invariant.History.{
  add_domain, create_mailbox, perform, Reachable, start, then_perform,
}

-- A collation that tells letters apart but not their case; the digests are not looked at.
instance abbrev pub plain : Env
plain = record { weight = λ s. to_lower s; sha256 = λ s. s; sha512 = λ s. s }

abbrev pub drawn : Text
drawn = codes "0123456789abcdef0123456789abcdef"

abbrev pub nothing_yet : State
nothing_yet = record {
  domains = [];
  users = [];
  aliases = [];
  groups = [];
  members = [];
  forwards = [];
  keys = [];
  tokens = [];
  admins = [];
  sessions = [];
  next_admin = 1;
  audit = [];
  next_domain = 1;
  next_group = 1;
  next_token = 1;
  dirs = [];
  entropy = λ n. drawn;
  draws = 0;
  now = 5;
}

abbrev pub staff_settings : GroupSettings
staff_settings = record {
  name = codes "Staff";
  description = [];
  post_policy = codes "members";
  allow_external = false;
}

-- Two operations, the second of which loses the database on its way.
abbrev pub grown : State
grown =
    perform (create_mailbox (codes "bob@a.org") (codes "password1") (codes "Bob") (pos 1000))
      (perform (add_domain (codes "a.org")) nothing_yet [])
      (false ∷ false ∷ false ∷ false ∷ true ∷ [])

abbrev pub grown_reachable : Reachable grown
grown_reachable =
    then_perform (then_perform (start [] (λ n. drawn) 5) (add_domain (codes "a.org")) [])
      (create_mailbox (codes "bob@a.org") (codes "password1") (codes "Bob") (pos 1000))
      (false ∷ false ∷ false ∷ false ∷ true ∷ [])

-- bob@a.org, staff@a.org with bob in it, and a key of a.org
abbrev pub town : State
town = record nothing_yet {
  domains = record { id = 1; name = codes "a.org" } ∷ [];
  users =
      record {
        domain_id = 1;
        email = codes "bob@a.org";
        display_name = codes "Bob";
        password = [];
        maildir = codes "a.org/bob";
        quota_bytes = pos 1000;
        enabled = true;
        created_at = 1;
      }
      ∷ [];
  groups =
      record {
        id = 1;
        domain_id = 1;
        email = codes "staff@a.org";
        name = codes "Staff";
        description = [];
        post_policy = codes "members";
        allow_external = false;
        created_at = 2;
      }
      ∷ [];
  members =
      record { group_id = 1; member = codes "bob@a.org"; role = codes "member"; created_at = 3 }
      ∷ [];
  keys =
      record {
        domain_id = 1;
        key_hash = hex (codes "pbd_key");
        key_hint = codes "bd_key";
        created_at = 4;
        last_used_at = none;
      }
      ∷ [];
}

abbrev pub loopback : Text → Bool
loopback a = text_eq a (codes "127.0.0.1")

abbrev pub post_to_staff : Request
post_to_staff = record {
  sender = codes "eve@b.org";
  recipient = codes "Staff+news@a.org";
  sasl_username = codes "bob@a.org";
  client_address = codes "10.0.0.1";
}

-- A request with the key of a.org for the domain of its path.
abbrev pub with_key_for : Text → Credentials
with_key_for domain = record {
  path_domain = domain;
  x_api_key = [];
  authorization = codes "Bearer pbd_key";
  remote_addr = codes "[::1]:4000";
}
