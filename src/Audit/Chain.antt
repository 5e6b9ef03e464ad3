-- ===== src/Audit/Chain.antt =====
-- pkg/audit/logger.go: what a chain of events is, said without the loop of VerifyChain.
use go_certa.Prelude.{
  ℕ, suc, ◌+◌, Str, str_eq_iff, Bool, Option, none, some, List, [], ◌∷◌, ◌++◌, ◌≡◌, refl, ◌↔◌,
  arith, if◌then◌else◌, inl, inr, is_some, length, length-append, Option-cases, sym,
}
use go_certa.Audit.{
  AuditEvent, Primitives, Entry, ChainAuditLogger, intact, genesis_hash, compute_event_hash,
  canonical_text, verify_from, verify_chain, log_event, new_chain_audit_logger, sealed,
  append_event,
}

-- Every event names the hash of the one before, and carries the digest of its own text.
abbrev pub Chain : Primitives → Str → List (Option AuditEvent) → Type 0
Chain p h [] = Unit
Chain p h (none ∷ es) = ⊥
Chain p h (some e ∷ es) =
    (e.prev_hash ≡ h) × (e.hash ≡ p.digest (canonical_text p e)) × Chain p e.hash es

-- The hash that the next event must name.
abbrev pub head_hash : Str → List (Option AuditEvent) → Str
head_hash h [] = h
head_hash h (none ∷ es) = head_hash h es
head_hash h (some e ∷ es) = head_hash e.hash es

verify_from-exact :
    (p : Primitives) (i : ℕ) (h : Str) (es : List (Option AuditEvent))
    → (verify_from p i h es ≡ intact) ↔ Chain p h es
unfolding verify_from compute_event_hash
verify_from-exact p i h [] = (λ _. tt, λ _. refl)
verify_from-exact p i h (none ∷ es) = (λ e. cc, λ c. absurd c)
verify_from-exact p i h (some e ∷ es) = (
  λ v. ground (
    arith,
    str_eq_iff e.prev_hash h,
    str_eq_iff e.hash (p.digest (canonical_text p e)),
    (verify_from-exact p (suc i) e.hash es).0,
  ),
  λ c. ground (
    arith,
    str_eq_iff e.prev_hash h,
    str_eq_iff e.hash (p.digest (canonical_text p e)),
    (verify_from-exact p (suc i) e.hash es).1 c.2,
  ),
)

-- VerifyChain finds a log intact exactly when its events form a chain from the genesis hash.
pub verify_chain_exact :
    (p : Primitives) (l : ChainAuditLogger)
    → (verify_chain p l ≡ intact) ↔ Chain p genesis_hash l.events
unfolding verify_chain
verify_chain_exact p l = verify_from-exact p 0 genesis_hash l.events

Chain-snoc :
    (p : Primitives) (h : Str) (es : List (Option AuditEvent)) (a : Entry) (id : Str)
    → Chain p h es
    → Chain p h (es ++ some (sealed p a id (head_hash h es)) ∷ [])
unfolding sealed
Chain-snoc p h [] a id c = (refl, refl, tt)
Chain-snoc p h (none ∷ es) a id c = absurd c
Chain-snoc p h (some e ∷ es) a id c = (c.0, c.1, Chain-snoc p e.hash es a id c.2)

head_hash-snoc :
    (h : Str) (es : List (Option AuditEvent)) (e : AuditEvent)
    → head_hash h (es ++ some e ∷ []) ≡ e.hash
head_hash-snoc h [] e = refl
head_hash-snoc h (none ∷ es) e = head_hash-snoc h es e
head_hash-snoc h (some d ∷ es) e = head_hash-snoc d.hash es e

-- The log is a chain, and the logger holds the hash at its head.
pub record IsSound (p : Primitives) (l : ChainAuditLogger) : Type 0 where
  pub chained : Chain p genesis_hash l.events
  pub head : l.last_hash ≡ head_hash genesis_hash l.events

pub new-IsSound : (p : Primitives) (w : Bool) → IsSound p (new_chain_audit_logger w)
unfolding new_chain_audit_logger
new-IsSound p w = record { chained = tt; head = refl }

append-IsSound :
    (p : Primitives) (a : Entry) (id : Str) (l : ChainAuditLogger)
    → IsSound p l
    → IsSound p (append_event (sealed p a id l.last_hash) l)
unfolding append_event
append-IsSound p a id l s = record {
  chained = rw s.head (Chain-snoc p genesis_hash l.events a id s.chained);
  head = sym (head_hash-snoc genesis_hash l.events (sealed p a id l.last_hash));
}

log_event-IsSound :
    (p : Primitives) (a : Entry) (l : ChainAuditLogger)
    → IsSound p l
    → IsSound p (log_event p a l).1
unfolding log_event
log_event-IsSound p a l s = elim (Option-cases a.random) [
  | inl e ↦ rw (e, log_event) s
  | inr (id, e) ↦ rw (e, log_event) (unfold append_event sealed in append-IsSound p a id l s)
]

-- The calls of LogEvent, in the order in which they get the lock.
pub log_all : Primitives → List Entry → ChainAuditLogger → ChainAuditLogger
log_all p [] l = l
log_all p (a ∷ as') l = log_all p as' (log_event p a l).1

pub log_all-IsSound :
    (p : Primitives) (entries : List Entry) (l : ChainAuditLogger)
    → IsSound p l
    → IsSound p (log_all p entries l)
unfolding log_all
log_all-IsSound p [] l s = s
log_all-IsSound p (a ∷ rest) l s =
    log_all-IsSound p rest (log_event p a l).1 (log_event-IsSound p a l s)

-- How many of the calls got random bytes.
pub logged : List Entry → ℕ
logged [] = 0
logged (a ∷ rest) = (if is_some a.random then 1 else 0) + logged rest

log_event-length :
    (p : Primitives) (a : Entry) (l : ChainAuditLogger)
    → length (log_event p a l).1.events ≡ length l.events + (if is_some a.random then 1 else 0)
unfolding log_event append_event
log_event-length p a l = elim (Option-cases a.random) [
  | inl e ↦ rw (e, log_event) (omega arith)
  | inr (id, e) ↦
      rw (e, log_event)
        (unfold append_event sealed in
          length-append l.events (some (sealed p a id l.last_hash) ∷ []))
]

log_all-length :
    (p : Primitives) (entries : List Entry) (l : ChainAuditLogger)
    → length (log_all p entries l).events ≡ length l.events + logged entries
unfolding log_all logged
log_all-length p [] l = omega arith
log_all-length p (a ∷ rest) l =
    omega (arith, log_event-length p a l, log_all-length p rest (log_event p a l).1)

-- Whatever is logged, VerifyChain finds the log intact, and the log holds one event for each call
-- that did not fail.
pub log_all_verifies :
    (p : Primitives) (w : Bool) (entries : List Entry)
    → let l = log_all p entries (new_chain_audit_logger w) in
      (verify_chain p l ≡ intact) × (length l.events ≡ logged entries)
unfolding new_chain_audit_logger
log_all_verifies p w entries = (
  (verify_chain_exact p _).1 (log_all-IsSound p entries _ (new-IsSound p w)).chained,
  omega (arith, log_all-length p entries (new_chain_audit_logger w)),
)
