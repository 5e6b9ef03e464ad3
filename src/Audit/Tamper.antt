-- ===== src/Audit/Tamper.antt =====
-- pkg/audit/logger.go: verified logs that differ, and the index that VerifyChain reports.
use mathlib.Core.List.{append_assoc}
use go_certa.Prelude.{
  ℕ, zero, suc, ◌+◌, Str, codes, str_eq, str_eq_iff, Option, none, some, List, [], ◌∷◌, ◌++◌, take,
  ◌≡◌, ◌≢◌, ◌⊎◌, refl, sym, ap, ◌∙◌, arith, Bool-cases, inl, inr, length, length-append,
}
use go_certa.Audit.{
  AuditEvent, Primitives, ChainAuditLogger, Verdict, Fault, intact, tampered, genesis_hash,
  canonical_metadata, compute_event_hash, canonical_text, verify_from, verify_chain, bar,
}
use go_certa.Audit.Chain.{Chain, head_hash, verify_chain_exact}

-- At some position the two logs hold events with different texts and one digest.
abbrev pub Collision : Primitives → List (Option AuditEvent) → List (Option AuditEvent) → Type 0
Collision p (some e ∷ es) (some d ∷ ds) =
    ((canonical_text p e ≢ canonical_text p d)
      × (p.digest (canonical_text p e) ≡ p.digest (canonical_text p d)))
    ⊎ Collision p es ds
Collision p es ds = ⊥

-- The same texts were logged, event by event.
abbrev pub SameTexts : Primitives → List (Option AuditEvent) → List (Option AuditEvent) → Type 0
SameTexts p (some e ∷ es) (some d ∷ ds) =
    (canonical_text p e ≡ canonical_text p d) × SameTexts p es ds
SameTexts p [] [] = Unit
SameTexts p es ds = ⊥

append_tail : (a b x y : Str) → length x ≡ length y → a ++ x ≡ b ++ y → x ≡ y
append_tail [] [] x y l e = e
append_tail [] (d ∷ b) x y l e = absurd (omega (arith, ap length e, length-append b y))
append_tail (c ∷ a) [] x y l e = absurd (omega (arith, ap length e, length-append a x))
append_tail (c ∷ a) (d ∷ b) x y l e = append_tail a b x y l (cc)

-- The text ends in the previous hash.
text_before : Primitives → AuditEvent → Str
text_before p e = bar e.event_id (
    bar (p.format_time e.timestamp) (
      bar e.action
        (bar e.actor (bar e.resource (bar e.status (bar (canonical_metadata e.metadata) []))))))

text_before-append :
    (p : Primitives) (e : AuditEvent) → canonical_text p e ≡ text_before p e ++ e.prev_hash
unfolding canonical_text text_before bar
text_before-append p e = simp append_assoc

same_text-prev :
    (p : Primitives) (e d : AuditEvent)
    → length e.prev_hash ≡ length d.prev_hash
    → canonical_text p e ≡ canonical_text p d
    → e.prev_hash ≡ d.prev_hash
same_text-prev p e d l t =
    append_tail (text_before p e) (text_before p d) e.prev_hash d.prev_hash l
      (sym (text_before-append p e) ∙ t ∙ text_before-append p d)

str-cases : (x y : Str) → (x ≢ y) ⊎ (x ≡ y)
str-cases x y = elim (Bool-cases (str_eq x y)) [
  | inl same ↦ inr ((str_eq_iff x y).0 same)
  | inr other ↦ inl (λ q. cc (other, (str_eq_iff x y).1 q))
]

module _ (p : Primitives) (fixed : (s : Str) → length (p.digest s) ≡ 64) where
  -- One event more, in front of chains that agree.
  same_event :
      (h h' : Str) (e d : AuditEvent) (es ds : List (Option AuditEvent))
      → Chain p h (some e ∷ es)
      → Chain p h' (some d ∷ ds)
      → length h ≡ length h'
      → Collision p es ds ⊎ (SameTexts p es ds × (e.hash ≡ d.hash))
      → Collision p (some e ∷ es) (some d ∷ ds)
        ⊎ (SameTexts p (some e ∷ es) (some d ∷ ds) × (h ≡ h'))
  same_event h h' e d es ds c c' l (inl x) = inl (inr x)
  same_event h h' e d es ds c c' l (inr (t, q)) =
      elim (str-cases (canonical_text p e) (canonical_text p d)) [
        | inl other ↦ inl (inl (other, sym c.1 ∙ q ∙ c'.1))
        | inr same ↦ inr (
          (same, t),
          sym c.0 ∙ same_text-prev p e d (ap length c.0 ∙ l ∙ sym (ap length c'.0)) same ∙ c'.0,
        )
      ]

  same_head :
      (h h' : Str) (es ds : List (Option AuditEvent))
      → Chain p h es
      → Chain p h' ds
      → length h ≡ length h'
      → length es ≡ length ds
      → head_hash h es ≡ head_hash h' ds
      → Collision p es ds ⊎ (SameTexts p es ds × (h ≡ h'))
  same_head h h' [] [] c c' l n q = inr (tt, q)
  same_head h h' [] (d ∷ ds) c c' l n q = absurd (omega arith)
  same_head h h' (e ∷ es) [] c c' l n q = absurd (omega arith)
  same_head h h' (none ∷ es) (d ∷ ds) c c' l n q = absurd c
  same_head h h' (some e ∷ es) (none ∷ ds) c c' l n q = absurd c'
  same_head h h' (some e ∷ es) (some d ∷ ds) c c' l n q = same_event h h' e d es ds c c' l (
      same_head e.hash d.hash es ds c.2 c'.2
        (ap length c.1
          ∙ fixed (canonical_text p e)
          ∙ sym (ap length c'.1 ∙ fixed (canonical_text p d)))
        (omega arith) q)

-- Two logs that VerifyChain finds intact, of one length and with one head hash, hold the same
-- texts event by event, or they show a collision of the digest: at one position, two events with
-- different texts and one digest. The digests have 64 digits.
pub tamper_evident :
    (p : Primitives) (l k : ChainAuditLogger)
    → ((s : Str) → length (p.digest s) ≡ 64)
    → verify_chain p l ≡ intact
    → verify_chain p k ≡ intact
    → length l.events ≡ length k.events
    → head_hash genesis_hash l.events ≡ head_hash genesis_hash k.events
    → Collision p l.events k.events ⊎ SameTexts p l.events k.events
tamper_evident p l k fixed vl vk n q =
    elim (same_head p fixed genesis_hash genesis_hash l.events k.events
      ((verify_chain_exact p l).0 vl) ((verify_chain_exact p k).0 vk) refl n q) [
        | inl x ↦ inl x
        | inr (t, _) ↦ inr t
      ]

-- The first fault lies `j` events on: the events before it form a chain, with it they do not.
abbrev pub FaultAt : Primitives → Str → List (Option AuditEvent) → ℕ → Type 0
FaultAt p h es j = Chain p h (take j es) × (¬ Chain p h (take (suc j) es))

index : ℕ → Verdict → ℕ
index i intact = i
index i (tampered f n) = n

module _ (p : Primitives) where
  later_fault :
      (i n : ℕ) (h : Str) (e : AuditEvent) (es : List (Option AuditEvent))
      → e.prev_hash ≡ h
      → e.hash ≡ p.digest (canonical_text p e)
      → (j : ℕ) × (n ≡ suc i + j) × FaultAt p e.hash es j
      → (j : ℕ) × (n ≡ i + j) × FaultAt p h (some e ∷ es) j
  later_fault i n h e es a b (j, q, at) = (suc j, omega arith, ((a, b, at.0), λ c. at.1 c.2))

  verify_from-localises :
      (i n : ℕ) (f : Fault) (h : Str) (es : List (Option AuditEvent))
      → verify_from p i h es ≡ tampered f n
      → (j : ℕ) × (n ≡ i + j) × FaultAt p h es j
  unfolding verify_from compute_event_hash
  verify_from-localises i n f h [] v = cc
  verify_from-localises i n f h (none ∷ es) v = (0, ground arith, (tt, λ c. c))
  verify_from-localises i n f h (some e ∷ es) v = elim (Bool-cases (str_eq e.prev_hash h)) [
    | inr a ↦ (0, ground arith, (tt, λ c. cc (a, (str_eq_iff e.prev_hash h).1 c.0)))
    | inl a ↦ elim (Bool-cases (str_eq e.hash (p.digest (canonical_text p e)))) [
      | inr b ↦ (
        0,
        ground arith,
        (tt, λ c. cc (b, (str_eq_iff e.hash (p.digest (canonical_text p e))).1 c.1)),
      )
      | inl b ↦
          later_fault i n h e es ((str_eq_iff e.prev_hash h).0 a)
            ((str_eq_iff e.hash (p.digest (canonical_text p e))).0 b)
            (verify_from-localises (suc i) n f e.hash es (ground arith))
    ]
  ]

-- The index that VerifyChain reports is that of the first event that breaks the chain.
verify_chain_localises :
    (p : Primitives) (l : ChainAuditLogger) (f : Fault) (n : ℕ)
    → verify_chain p l ≡ tampered f n
    → FaultAt p genesis_hash l.events n
unfolding verify_chain
verify_chain_localises p l f n v =
    let (j, q, at) = verify_from-localises p 0 n f genesis_hash l.events v in
    let same : n ≡ j = omega arith in rw same at

Chain-take :
    (p : Primitives) (n : ℕ) (h : Str) (es : List (Option AuditEvent))
    → Chain p h es
    → Chain p h (take n es)
Chain-take p zero h es c = tt
Chain-take p (suc n) h [] c = tt
Chain-take p (suc n) h (none ∷ es) c = c
Chain-take p (suc n) h (some e ∷ es) c = (c.0, c.1, Chain-take p n e.hash es c.2)

-- VerifyChain does not see that events are missing at the end of the log, however many: it does
-- not compare the head of the chain with the hash that the logger holds.
truncation_unseen :
    (p : Primitives) (l : ChainAuditLogger) (n : ℕ)
    → verify_chain p l ≡ intact
    → verify_chain p (record l { events = take n l.events }) ≡ intact
truncation_unseen p l n v =
    (verify_chain_exact p (record l { events = take n l.events })).1
      (Chain-take p n genesis_hash l.events ((verify_chain_exact p l).0 v))

-- An event whose action took the first part of its actor, up to a `|`.
abbrev pub shifted : AuditEvent → Str → Str → AuditEvent
shifted e a b = record e { action = e.action ++ (codes "|" ++ a); actor = b }

shifted-text :
    (p : Primitives) (e : AuditEvent) (a b : Str)
    → e.actor ≡ a ++ (codes "|" ++ b)
    → canonical_text p (shifted e a b) ≡ canonical_text p e
unfolding canonical_text bar
shifted-text p e a b q = simp (q, append_assoc)

shifted-hash :
    (p : Primitives) (e : AuditEvent) (a b : Str)
    → e.actor ≡ a ++ (codes "|" ++ b)
    → compute_event_hash p (some (shifted e a b)) ≡ compute_event_hash p (some e)
unfolding compute_event_hash
shifted-hash p e a b q = ap p.digest (shifted-text p e a b q)

verify_from-shifted :
    (p : Primitives) (i : ℕ) (h : Str) (before after : List (Option AuditEvent)) (e : AuditEvent)
    (a b : Str)
    → e.actor ≡ a ++ (codes "|" ++ b)
    → verify_from p i h (before ++ (some (shifted e a b) ∷ after))
      ≡ verify_from p i h (before ++ (some e ∷ after))
unfolding verify_from
verify_from-shifted p i h [] after e a b q = rw (shifted-hash p e a b q)
verify_from-shifted p i h (none ∷ before) after e a b q = refl
verify_from-shifted p i h (some d ∷ before) after e a b q =
    rw (verify_from-shifted p (suc i) d.hash before after e a b q)

-- VerifyChain does not see that an actor `a|b` was cut and `a` was moved to the action, in any
-- event with such an actor anywhere in the log: fields are joined with no escape.
shift_unseen :
    (p : Primitives) (l : ChainAuditLogger) (before after : List (Option AuditEvent))
    (e : AuditEvent) (a b : Str)
    → e.actor ≡ a ++ (codes "|" ++ b)
    → l.events ≡ before ++ (some e ∷ after)
    → verify_chain p (record l { events = before ++ (some (shifted e a b) ∷ after) })
      ≡ verify_chain p l
unfolding verify_chain
shift_unseen p l before after e a b q r =
    rw r (verify_from-shifted p 0 genesis_hash before after e a b q)
