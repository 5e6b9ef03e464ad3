-- ===== src/Acme.antt =====
-- pkg/protocols/acme: the ACME server's nonces, accounts, orders, authorizations and challenges.
pub mod Nonce
pub mod Jws
pub mod Challenge
pub mod Types
pub mod Server
