-- ===== src/Lib.antt =====
-- A verification library for go-certa, a certificate authority in Go.
--
-- The program issues X.509 certificates for signing requests. The authority (pkg/ca) checks a
-- request against a policy and a profile, prepares a template, lints it and signs it. Serial
-- numbers are random and are reserved in the storage (pkg/storage), which also keeps certificates
-- and revocations; the CRL service (pkg/protocols/crl) signs lists of the revocations; the ACME
-- server (pkg/protocols/acme) gives out nonces, keeps accounts, orders and challenges, and calls
-- the authority and the storage when an order is finalized, after it has verified the signed
-- message (jws.go) that asks for it; EST clients (pkg/protocols/est) enroll through a pool of
-- signing workers (pkg/signer); the OCSP responder and the endpoint that revokes
-- (pkg/protocols/ocsp) read and write the storage; pre-certificates are submitted to logs of
-- certificate transparency (pkg/ctlog); the audit log (pkg/audit) chains events by their hashes. The
-- server (cmd/certa-server) loads the authority's keys from its data directory or generates them,
-- opens the storage, in SQLite or in memory, and routes requests to these parts.
--
-- Files and code:
--   Prelude, Prelude/*: byte strings, maps, signed integers and lists over the native numbers.
--   Storage.antt: pkg/storage/storage.go, pkg/storage/models.go: records, errors, NormalizeSerial;
--     Storage/Normal has its lemmas.
--   Storage/Contract: the interface Storage as a record of operations and laws. The laws speak of
--     an abstract machine in which a serial is unused, reserved, issued or revoked. The serials of
--     pkg/ca, the ACME server, the OCSP responder, its endpoint that revokes and the EST handler take
--     any such record; MemoryStorage gives one. Storage/Contract/History and
--     Storage/Contract/Reserved: histories of calls over it.
--   Storage/Memory.antt: pkg/storage/memory.go, a function for each method, with the context's error
--     and the clock's reading as arguments; Storage/Memory/*: calls and histories, the invariant, the
--     contract, what lasts over histories, the order of ListRevoked.
--   Storage/Sqlite.antt: pkg/storage/sqlite.go, a function for each method; Storage/Sqlite/Driver: the
--     driver with its documented behaviour; Storage/Sqlite/*: the tables, the step of each call, the
--     laws of the contract, transactions whose statements fail, and rows. SQLiteStorage keeps the
--     contract for certificates with a DER and a PEM only, since both columns are NOT NULL.
--     Storage/Interchange: the two storages answer alike.
--   Audit.antt: pkg/audit/logger.go: ComputeEventHash, LogEvent, VerifyChain; Audit/Chain,
--     Audit/Tamper, Audit/Joined: what VerifyChain means, what it finds, what it does not see, and two
--     logs in one file.
--   Ca/Serial: pkg/ca/serial.go; Ca/Profile: pkg/ca/profile.go; Ca/Policy, Ca/Lint: pkg/ca/policy.go;
--     Ca/Authority: pkg/ca/authority.go (SignCertificate, SignCertificateWithProfile), and
--     Ca/Authority/Logged: its SignCertificateWithCT; Ca/Hierarchy, Ca/Hierarchy/Ceremony: its
--     NewAuthority and what pkg/ca/key_store.go makes; Ca/KeyStore: pkg/ca/key_store.go, its files,
--     and Ca/KeyStore/*: what it relies on, loading, restarts, a failed write; Ca/Types: what these
--     take from crypto/x509. Their child modules hold the lemmas.
--   Ctlog/Sct, Ctlog/SctList, Ctlog/Precert, Ctlog/Client, Ctlog/MockLog: pkg/ctlog/models.go,
--     precert.go, client.go and mock_log.go; the files Decode have the readers that the code lacks.
--   Crl.antt: pkg/protocols/crl/generator.go: GenerateCRL and the service; Crl/Listed, Crl/Ticker;
--     Crl/Handler: pkg/protocols/crl/handler.go.
--   Signer.antt: pkg/signer/pool.go, as a step relation; Signer/Pool: what becomes of its requests;
--     Signer/MockHsm: pkg/signer/mock_hsm.go.
--   Est.antt: pkg/protocols/est/handler.go; Est/Enrolled: what an enrollment leaves.
--   Ocsp.antt, Ocsp/Responder: pkg/protocols/ocsp/responder.go; Ocsp/Api: api.go; Ocsp/Phases,
--     Ocsp/Encoded, Ocsp/Lasting: the status by the phase, the two forms of a request, what a
--     revocation does.
--   Telemetry.antt, Telemetry/Text: pkg/telemetry/metrics.go; Telemetry/Counted: what a counter shows.
--   Http.antt: the methods of requests.
--   Acme/Nonce: pkg/protocols/acme/nonce.go. Acme/Types, Acme/Server and Acme/Server/*:
--     pkg/protocols/acme/server.go: the state, verifyJWS, a function for each handler, ServeHTTP.
--     Acme/Jws, Acme/Jws/Message: pkg/protocols/acme/jws.go, with the lemmas in Acme/Jws/*;
--     Acme/Server/Authentic puts the two together. Acme/Challenge: pkg/protocols/acme/challenge.go.
--   Server.antt: cmd/certa-server/main.go, and the defaults of app.go; Server/Bootstrap:
--     NewServerApp of cmd/certa-server/app.go; Server/Routes, Server/Downloads, Server/Lifecycle:
--     its routes, the handlers of the authority's certificates, Start and Stop; Server/Docs:
--     pkg/swagger/handler.go; Server/Bootstrap/*: restarts, and the policy of a started server.
--   Examples, Examples/*: small runs of each part.
--
-- Conventions: a method is a function from its receiver's state to its result and the next state;
-- an error is a value; a map is an association list (Prelude/Maps) with one entry for a key after
-- every insertion; an instant is a number of nanoseconds; random bytes, the clock and what a
-- context says are arguments of the call that reads them. Calls under a mutex are served one after
-- the other, except that the OCSP responder and the endpoint that revokes may meet another state of
-- the storage at their second call. The CRL generator's mutex is a part of its state, since the
-- code leaves it locked; a call that waits for it gives none. A Go panic in an ACME handler is a
-- reply of its own, and so is one in the padding of a signature. The pool's goroutines interleave
-- step by step.
--
-- Loops: the draws of GenerateSerialWithBits run over the list of the answers of rand.Int, each a
-- function of the bound that it is called with, and a list that runs out is a call that still waits. A step of the pool is one action, and
-- its histories are the sequences of steps of any length. The reservation makes five attempts, as
-- the code does. The digits of a number, its bytes and its bit length are computed with the number
-- itself as fuel, which is more than it has digits.
--
-- Parameters: SHA-256 with its hexadecimal form, the RFC 3339 form of an instant, the parsing and
-- signing of crypto/x509, curve membership, the signers of lists and of OCSP responses, RSA and
-- ECDSA signatures, JSON, base64, PEM, the escaping of URLs, HTTP clients, floating-point numbers,
-- database/sql with the SQLite driver, the file system, net/http's ServeMux and the drawing of
-- keys. The hypotheses on them are those of the theorems: a digest of 64 digits, numbers drawn
-- below the bound, a signer that does not fail, base64 that reads back what it writes, JSON that
-- does so for ASCII strings, key pairs whose signatures verify, a driver that does what SQL says
-- while the context is live, or one that may fail at any call and then changes nothing, files that
-- keep what is written, PEM and PKCS #1 that read back what they write.
--
-- Not modelled: examples/mtls (a demonstration), the HTTP listener with its timeouts, the signals
-- and the ticker of cmd/certa-server, and the texts that pkg/swagger serves. A database in SQLite
-- and the file system are separate here, so what a restart finds in the tables is not stated.
-- Texts of errors, headers that only restate the body, and fields that the code only stores for
-- clients (contacts, descriptions, messages of lints) are left out. The server tells an unknown
-- account by words in the text of an error; here it is the failure of the lookup. Text is bytes:
-- lower case and white space are those of ASCII.
pub mod Prelude
pub mod Storage
pub mod Audit
pub mod Ca
pub mod Ctlog
pub mod Crl
pub mod Signer
pub mod Telemetry
pub mod Est
pub mod Http
pub mod Ocsp
pub mod Acme
pub mod Server
pub mod Examples
