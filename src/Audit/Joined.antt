-- ===== src/Audit/Joined.antt =====
-- pkg/audit/logger.go: the records that two loggers write to one file, as cmd/certa-server does when
-- it is started again.
use go_certa.Prelude.{
  ◌≤◌, Str, Bool, Option, none, some, List, [], ◌∷◌, ◌++◌, length, ◌≡◌, ◌≢◌, sym, ◌∙◌, arith,
}
use go_certa.Audit.{
  AuditEvent, Primitives, Entry, intact, genesis_hash, verify_chain, new_chain_audit_logger,
}
use go_certa.Audit.Chain.{
  Chain, head_hash, verify_chain_exact, log_all, log_all-IsSound, new-IsSound, logged,
  log_all_verifies,
}

Chain-back :
    (p : Primitives) (h : Str) (front back : List (Option AuditEvent))
    → Chain p h (front ++ back)
    → Chain p (head_hash h front) back
Chain-back p h [] back c = c
Chain-back p h (none ∷ es) back c = absurd c
Chain-back p h (some e ∷ es) back c = Chain-back p e.hash es back c.2

same_start :
    (p : Primitives) (h k : Str) (es : List (Option AuditEvent))
    → 1 ≤ length es
    → Chain p h es
    → Chain p k es
    → h ≡ k
same_start p h k [] l c d = absurd (omega arith)
same_start p h k (none ∷ es) l c d = absurd c
same_start p h k (some e ∷ es) l c d = sym c.0 ∙ d.0

-- What two loggers record, one after the other, does not verify as one log, though each part does:
-- if the second has recorded an event and the first has not ended at the genesis hash.
joined_logs_break :
    (p : Primitives) (w : Bool) (entries later : List Entry)
    → let first = log_all p entries (new_chain_audit_logger w) in
      let second = log_all p later (new_chain_audit_logger w) in
      first.last_hash ≢ genesis_hash
      → 1 ≤ logged later
      → verify_chain p (record first { events = first.events ++ second.events }) ≢ intact
joined_logs_break p w entries later apart some_logged v =
    let first = log_all p entries (new_chain_audit_logger w) in
    let second = log_all p later (new_chain_audit_logger w) in
    let joined =
      (verify_chain_exact p (record first { events = first.events ++ second.events })).0 v in
    let sound = log_all-IsSound p entries (new_chain_audit_logger w) (new-IsSound p w) in
    let verified = log_all_verifies p w later in
    apart (
      sound.head
      ∙ same_start p (head_hash genesis_hash first.events) genesis_hash second.events
          (omega (arith, verified.1, some_logged))
          (Chain-back p genesis_hash first.events second.events joined)
          ((verify_chain_exact p second).0 verified.0))
