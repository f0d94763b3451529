-- ===== src/Lib.antt =====
-- The administration core of the patrabahok mail server, the packages below cli/internal that
-- keep its domains, mailboxes, aliases, groups, keys and audit log in a MariaDB database, and
-- the policy service, the two APIs and the dashboard that stand on them.
--
-- A call out of the process is a step on a State, the tables of sql/schema with the mailbox
-- directories, the random source and the clock. A program is a function of a World, a State and
-- a list of Booleans that says of each coming call whether it fails, so that a theorem about all
-- worlds of a State covers every failure at every place. Db has the State, the programs and the
-- rules by which theorems about them are put together: Runs of Db/Rules says what a program ends
-- with, whatever fails, and Keeps of Db/Keeps that a property of the State outlives it. The
-- statements are functions on the State with the keys and cascades of the schema written out.
--
-- The files, and the code that they model:
--   Base, Regex: shared types and lemmas; texts are lists of bytes, folded and trimmed as ASCII;
--     regular expressions run by derivatives, and Regex/Exact relates them to their languages.
--   Address: ValidateDomain, ValidateEmail and SplitEmail of cli/internal/mailbox/mailbox.go;
--     Address/Paths: mailboxDir, with filepath.Join written out. Quota: ParseQuota over int64.
--   Crypt: cli/internal/mailbox/sha512crypt.go.
--   Domains, Mailboxes: the Store's operations of mailbox.go (domain_add is DomainAdd, and so on);
--     Mailboxes/Change has those on a mailbox that exists, Mailboxes/Search the searches of
--     routing.go, Mailboxes/Usage its UsageBytes over the lines of a file. Aliases: the aliases of
--     mailbox.go, and the forwards and catch-alls of routing.go. Groups:
--     cli/internal/mailbox/groups.go.
--   Policy: cli/internal/policy/policy.go; Policy/Session is the protocol that serveConn reads.
--   Keys: cli/internal/domainkey/domainkey.go; Keys/Tokens: cli/internal/authtoken/authtoken.go.
--   Admins: cli/internal/adminauth/adminauth.go; Admins/Sessions: which sessions are live;
--     Admins/Login: who may sign in. Passwords: its HashPassword and VerifyPassword.
--   Audit: cli/internal/audit/audit.go. Db/Like: LIKE and escapeLike.
--   PublicApi: cli/internal/publicapi, with its handlers in PublicApi/Handlers and
--     PublicApi/GroupHandlers and all its routes in PublicApi/Server.
--   LocalApi: cli/internal/api, its handlers in LocalApi/Handlers and its routes with their scopes
--     in LocalApi/Server. Reads: the calls that only read. Aside: the calls that leave the tables of
--     the mail server alone.
--   Dashboard: cli/internal/webui, the checks of its middleware.go and helpers.go, with its handlers
--     in Dashboard/Accounts, Users and Groups, the import of users in Dashboard/Import, and its
--     routes in Dashboard/Server; Dashboard/Quotas writes a quota as its forms do.
--   Cloudflare: cli/internal/cloudflare/apply.go over the calls of the service, with the text and id
--     of the policy of cli/internal/mtasts/mtasts.go; Cloudflare/Zone has what is documented of the
--     calls.
--   Invariant: what the operations keep true of the tables. Invariant/History has the reachable
--     states. Tests: runs at concrete inputs.
--
-- Parameters, an Env that every definition takes: the weights by which the collation compares
-- two texts, and the digests SHA-256 and SHA-512. Argon2id is a parameter of Passwords, and the
-- loopback test of Go's package net one of the policy service; url.Parse, the dashboard's
-- humanizeBytes, the reader of encoding/csv and rand.Int of crypto/rand are parameters of
-- Dashboard, the Cloudflare API is one of Cloudflare. The theorems hold for all of them, under
-- the hypotheses that they name.
--
-- Loops are recursions on lists. Those of Crypt that count down run on the length as their fuel,
-- which each of their rounds makes smaller. The printing of a number runs on its successor,
-- which is more than its digits. There is no other fuel.
--
-- Not modelled: error texts and logs; the widths and ranges of columns; calls of several
-- requests that interleave (each operation runs alone); the files that DomainAdd writes for DKIM
-- and DNS (a call that succeeds or fails), owners and modes of directories and the parents that
-- MkdirAll makes; HTTP routing, forms and JSON (a request comes routed and its body decoded);
-- letters outside ASCII; the data of the dashboard's pages with their messages. The dashboard's
-- pages on DKIM, DNS, Cloudflare, the queue, services and logs, the handlers of the local API on
-- keys, certificates and the queue, the HTTP client of Cloudflare, the files and server of
-- MTA-STS and the packages on DNS and the system are left out so far.
pub mod Base
pub mod Reads
pub mod Regex
pub mod Address
pub mod Quota
pub mod Cloudflare
pub mod Crypt
pub mod Db
pub mod Domains
pub mod Mailboxes
pub mod Aliases
pub mod Groups
pub mod Passwords
pub mod Policy
pub mod Keys
pub mod Admins
pub mod Aside
pub mod Audit
pub mod Dashboard
pub mod LocalApi
pub mod PublicApi
pub mod Invariant
pub mod Tests
