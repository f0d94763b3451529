-- ===== src/Tests.antt =====
-- Runs of the model at concrete inputs: a mail server with one domain, a mailbox and a group.
pub mod Data
pub mod Addresses
pub mod Server
pub mod Usage
pub mod Admins
pub mod LocalApi
pub mod Dashboard
pub mod Import
pub mod Cloudflare
