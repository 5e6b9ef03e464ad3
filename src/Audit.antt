-- ===== src/Audit.antt =====
-- pkg/audit/logger.go: the hash-chained audit log. SHA-256 with its hexadecimal form, and the
-- RFC 3339 form of an instant, are parameters. The slice holds pointers that callers of Events()
-- share, so an entry may be nil or altered between two calls.
pub mod Chain
pub mod Tamper
pub mod Joined
use go_certa.Prelude.{
  ℕ, suc, ◌+◌, ◌/◌, ◌%◌, Str, codes, str_eq, str_lt, Dict, Bool, Option, none, some, List, [], ◌∷◌,
  ◌++◌, leb, if◌then◌else◌, length, not,
}

pub record AuditEvent : Type 0 where
  pub event_id : Str
  pub timestamp : ℕ
  pub action : Str
  pub actor : Str
  pub resource : Str
  pub status : Str
  pub metadata : Dict Str
  pub prev_hash : Str
  pub hash : Str

pub record Primitives : Type 0 where
  -- hex.EncodeToString of sha256.Sum256
  pub digest : Str → Str
  -- t.UTC().Format(time.RFC3339Nano)
  pub format_time : ℕ → Str

-- 64 hexadecimal zeroes.
unfoldable pub genesis_hash : Str
genesis_hash = codes "0000000000000000000000000000000000000000000000000000000000000000"

insert_key : Str × Str → List (Str × Str) → List (Str × Str)
insert_key (k, v) [] = (k, v) ∷ []
insert_key (k, v) ((j, w) ∷ m) =
    if str_lt j k then (j, w) ∷ insert_key (k, v) m else (k, v) ∷ (j, w) ∷ m

-- The entries of a map in the order of sort.Strings on its keys.
sort_keys : Dict Str → List (Str × Str)
sort_keys [] = []
sort_keys (e ∷ m) = insert_key e (sort_keys m)

-- `&` stands before every entry but the first.
join_metadata : List (Str × Str) → Str
join_metadata [] = []
join_metadata ((k, v) ∷ []) = k ++ (codes "=" ++ v)
join_metadata ((k, v) ∷ e ∷ m) = k ++ (codes "=" ++ (v ++ (codes "&" ++ join_metadata (e ∷ m))))

unfoldable pub canonical_metadata : Dict Str → Str
unfolding insert_key sort_keys join_metadata str_lt
canonical_metadata meta = join_metadata (sort_keys meta)

unfoldable pub bar : Str → Str → Str
bar a b = a ++ (codes "|" ++ b)

-- The text that is hashed.
unfoldable pub canonical_text : Primitives → AuditEvent → Str
unfolding bar canonical_metadata
canonical_text p e = bar e.event_id (
    bar (p.format_time e.timestamp) (
      bar e.action (
        bar e.actor
          (bar e.resource (bar e.status (bar (canonical_metadata e.metadata) e.prev_hash))))))

unfoldable pub compute_event_hash : Primitives → Option AuditEvent → Str
unfolding canonical_text
compute_event_hash p none = []
compute_event_hash p (some e) = p.digest (canonical_text p e)

-- What the optional writer has received, a record to a line; failed writes are ignored.
pub record ChainAuditLogger : Type 0 where
  pub events : List (Option AuditEvent)
  pub last_hash : Str
  pub writer : Option (List AuditEvent)

-- The argument says whether a writer is given.
unfoldable pub new_chain_audit_logger : Bool → ChainAuditLogger
unfolding genesis_hash
new_chain_audit_logger w = record {
  events = [];
  last_hash = genesis_hash;
  writer = if w then some [] else none;
}

hex_digit : ℕ → ℕ
hex_digit d = if leb d 9 then 48 + d else 87 + d

hex_encode : Str → Str
unfolding hex_digit
hex_encode [] = []
hex_encode (b ∷ bs) = hex_digit (b / 16) ∷ hex_digit (b % 16) ∷ hex_encode bs

abbrev stream : AuditEvent → Option (List AuditEvent) → Option (List AuditEvent)
stream e none = none
stream e (some written) = some (written ++ e ∷ [])

-- The arguments of a call of LogEvent, with the clock's reading and the random bytes that it gets,
-- or none where the random source fails.
pub record Entry : Type 0 where
  pub random : Option Str
  pub now : ℕ
  pub action : Str
  pub actor : Str
  pub resource : Str
  pub status : Str
  pub metadata : Dict Str

unhashed : Entry → Str → Str → AuditEvent
unfolding hex_encode
unhashed a id prev = record {
  event_id = codes "evt_" ++ hex_encode id;
  timestamp = a.now;
  action = a.action;
  actor = a.actor;
  resource = a.resource;
  status = a.status;
  metadata = a.metadata;
  prev_hash = prev;
  hash = [];
}

unfoldable pub sealed : Primitives → Entry → Str → Str → AuditEvent
unfolding unhashed compute_event_hash
sealed p a id prev =
    let event = unhashed a id prev in record event { hash = compute_event_hash p (some event) }

append_event : AuditEvent → ChainAuditLogger → ChainAuditLogger
append_event e l = record {
  events = l.events ++ some e ∷ [];
  last_hash = e.hash;
  writer = stream e l.writer;
}

-- The event that is returned, or none for the error, and the logger.
unfoldable pub log_event :
    Primitives → Entry → ChainAuditLogger → Option AuditEvent × ChainAuditLogger
unfolding append_event sealed
log_event p a l = elim a.random [
  | none ↦ (none, l)
  | some id ↦ (some (sealed p a id l.last_hash), append_event (sealed p a id l.last_hash) l)
]

pub data Fault : Type 0 where
  nil_event prev_mismatch hash_mismatch : Fault

pub data Verdict : Type 0 where
  intact : Verdict
  tampered : Fault → ℕ → Verdict

-- The loop of VerifyChain, at index `i` with the hash that the next event must name.
verify_from : Primitives → ℕ → Str → List (Option AuditEvent) → Verdict
verify_from p i expected [] = intact
verify_from p i expected (none ∷ es) = tampered nil_event i
verify_from p i expected (some e ∷ es) =
    let rest = verify_from p (suc i) e.hash es in
    if not (str_eq e.prev_hash expected)
    then tampered prev_mismatch i
    else if not (str_eq e.hash (compute_event_hash p (some e)))
    then tampered hash_mismatch i
    else rest

unfoldable pub verify_chain : Primitives → ChainAuditLogger → Verdict
unfolding verify_from genesis_hash compute_event_hash
verify_chain p l = verify_from p 0 genesis_hash l.events

abbrev pub events_of : ChainAuditLogger → List (Option AuditEvent)
events_of l = l.events

abbrev pub event_count : ChainAuditLogger → ℕ
event_count l = length l.events
