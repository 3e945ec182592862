-- ===== src/Dns.antt =====
-- internal/dnsserver: the DNS responder.
pub mod Answers
pub mod Damper
pub mod Evaluator
pub mod Handler
pub mod Queries
pub mod Server
