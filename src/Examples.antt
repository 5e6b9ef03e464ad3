-- ===== src/Examples.antt =====
-- Runs of every part of the model on small inputs.
mod Engine
mod Disk
mod Server
mod Storage
mod Sqlite
mod Audit
mod Ca
mod Crl
mod Acme
mod Ctlog
mod Ocsp
mod Jws
mod Signer
mod Est
mod Telemetry
