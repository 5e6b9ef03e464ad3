-- ===== src/Examples/Audit.antt =====
-- pkg/audit/logger.go on small logs. The digest of the examples adds the bytes up and writes the
-- sum 64 times.
use go_certa.Prelude.{
  ℕ, zero, suc, ◌+◌, Str, codes, none, some, List, [], ◌∷◌, true, length, ◌≡◌, ◌⊎◌, ◌↔◌, refl,
}
use go_certa.Audit.{
  AuditEvent, Primitives, ChainAuditLogger, new_chain_audit_logger, Entry, intact, verify_chain,
  genesis_hash, canonical_text, bar,
}
use go_certa.Audit.Chain.{Chain, log_all, logged, verify_chain_exact, log_all_verifies}
use go_certa.Audit.Tamper.{Collision, SameTexts, tamper_evident}

sum : Str → ℕ
sum [] = 0
sum (b ∷ bs) = b + sum bs

repeat : ℕ → ℕ → Str
repeat zero b = []
repeat (suc n) b = b ∷ repeat n b

abbrev primitives : Primitives
primitives = record { digest = λ s. repeat 64 (sum s); format_time = λ t. t ∷ [] }

abbrev entry : ℕ → Str → Entry
entry t actor = record {
  random = some (t ∷ 200 ∷ []);
  now = t;
  action = codes "issue";
  actor = actor;
  resource = codes "cert";
  status = codes "ok";
  metadata = (codes "b", codes "2") ∷ (codes "a", codes "1") ∷ [];
}

abbrev failing : Entry
failing = record (entry 7 (codes "x")) { random = none }

abbrev entries : List Entry
entries = entry 3 (codes "ann") ∷ failing ∷ entry 9 (codes "bob|eve") ∷ []

abbrev logger : ChainAuditLogger
logger = log_all primitives entries (new_chain_audit_logger true)

digest_width : (s : Str) → length (primitives.digest s) ≡ 64
unfolding repeat
digest_width s = refl

verified : verify_chain primitives logger ≡ intact
verified = (log_all_verifies primitives true entries).0

verify_chain_exact_example :
    (verify_chain primitives logger ≡ intact) ↔ Chain primitives genesis_hash logger.events
verify_chain_exact_example = verify_chain_exact primitives logger

log_all_verifies_example :
    (verify_chain primitives (log_all primitives entries (new_chain_audit_logger true)) ≡ intact)
    × (length (log_all primitives entries (new_chain_audit_logger true)).events ≡ logged entries)
log_all_verifies_example = log_all_verifies primitives true entries

-- Two logs of one event, whose actors have one sum.
abbrev unhashed : Str → AuditEvent
unhashed actor = record {
  event_id = codes "evt_1";
  timestamp = 4;
  action = codes "revoke";
  actor = actor;
  resource = codes "cert";
  status = codes "ok";
  metadata = [];
  prev_hash = genesis_hash;
  hash = [];
}

abbrev hashed : Str → AuditEvent
hashed actor = record (unhashed actor) {
  hash = primitives.digest (canonical_text primitives (unhashed actor));
}

abbrev log_of : Str → ChainAuditLogger
log_of actor = record {
  events = some (hashed actor) ∷ [];
  last_hash = (hashed actor).hash;
  writer = none;
}

log_of-intact : (actor : Str) → verify_chain primitives (log_of actor) ≡ intact
unfolding canonical_text
log_of-intact actor = (verify_chain_exact primitives (log_of actor)).1 (refl, refl, tt)

tamper_evident_example :
    Collision primitives (log_of (codes "ann")).events (log_of (codes "nan")).events
    ⊎ SameTexts primitives (log_of (codes "ann")).events (log_of (codes "nan")).events
unfolding canonical_text bar sum repeat genesis_hash
tamper_evident_example =
    tamper_evident primitives (log_of (codes "ann")) (log_of (codes "nan")) digest_width
      (log_of-intact (codes "ann")) (log_of-intact (codes "nan")) refl refl

abbrev event : AuditEvent
event = record {
  event_id = codes "evt_1";
  timestamp = 4;
  action = codes "revoke";
  actor = codes "ann|bob";
  resource = codes "cert";
  status = codes "ok";
  metadata = [];
  prev_hash = codes "00";
  hash = codes "11";
}

abbrev altered : ChainAuditLogger
altered = record { events = some event ∷ []; last_hash = codes "11"; writer = none }
