-- ===== src/Acme/Nonce/SingleUse.antt =====
-- pkg/protocols/acme/nonce.go: nonces over sequences of operations.
use go_certa.Prelude.{
  ℕ, ◌+◌, ◌≤◌, Str, str_eq_iff, str_eq_refl, Dict, lookup, keep_if, lookup-insert,
  lookup-insert_self, is_some, ◌&&◌, lookup-remove, lookup-keep_if, Distinct, passing, Bool, true,
  false, not, Option, none, some, List, [], ◌∷◌, is_empty, ltb, ◌≡◌, ◌≢◌, refl, ap, sym, ◌∙◌, arith,
}
use go_certa.Acme.Nonce.{NonceManager, generate_nonce, validate_and_consume_nonce, cleanup}

pub data Event : Type 0 where
  generates : Option Str → ℕ → Event
  validates : Str → ℕ → Event
  cleans : ℕ → Event

unfoldable pub step : NonceManager → Event → NonceManager
step m (generates nonce now) = (generate_nonce nonce now m).1
step m (validates nonce now) = (validate_and_consume_nonce nonce now m).1
step m (cleans now) = cleanup now m

unfoldable pub run : NonceManager → List Event → NonceManager
run m [] = m
run m (e ∷ es) = run (step m e) es

-- The nonce is not drawn again.
abbrev pub Unrepeated : Str → List Event → Type 0
Unrepeated n [] = Unit
Unrepeated n (generates o now ∷ es) = (o ≢ some n) × Unrepeated n es
Unrepeated n (e ∷ es) = Unrepeated n es

-- An accepted nonce is deleted.
accepted-gone :
    (n : Str) (now : ℕ) (m : NonceManager)
    → (validate_and_consume_nonce n now m).0 ≡ true
    → lookup n (validate_and_consume_nonce n now m).1.nonces ≡ none
unfolding validate_and_consume_nonce
accepted-gone n now m h = ground (arith, lookup-remove n n m.nonces, str_eq_refl n)

absent-refused :
    (n : Str) (now : ℕ) (m : NonceManager)
    → lookup n m.nonces ≡ none
    → (validate_and_consume_nonce n now m).0 ≡ false
unfolding validate_and_consume_nonce
absent-refused n now m h = ground arith

absent-keep_if :
    (p : ℕ → Bool) (n : Str) (m : Dict ℕ) → lookup n m ≡ none → lookup n (keep_if p m) ≡ none
unfolding keep_if lookup
absent-keep_if p n [] h = refl
absent-keep_if p n ((j, w) ∷ m) h = ground (arith, absent-keep_if p n m)

absent-step :
    (n : Str) (m : NonceManager) (e : Event) (es : List Event)
    → Unrepeated n (e ∷ es)
    → lookup n m.nonces ≡ none
    → (lookup n (step m e).nonces ≡ none) × Unrepeated n es
unfolding step generate_nonce validate_and_consume_nonce cleanup
absent-step n m (generates none now) es u h = (h, u.1)
absent-step n m (generates (some k) now) es u h =
    (ground (arith, lookup-insert k n (now + m.ttl) m.nonces, str_eq_iff k n, other), u.1)
  where
    other : ¬ (k ≡ n)
    other e = u.0 (ap some e)
absent-step n m (validates k now) es u h = (ground (arith, lookup-remove k n m.nonces), u)
absent-step n m (cleans now) es u h = (absent-keep_if _ n m.nonces h, u)

absent-run :
    (n : Str) (m : NonceManager) (es : List Event)
    → Unrepeated n es
    → lookup n m.nonces ≡ none
    → lookup n (run m es).nonces ≡ none
unfolding run
absent-run n m [] u h = h
absent-run n m (e ∷ es) u h =
    let (h', u') = absent-step n m e es u h in absent-run n (step m e) es u' h'

-- A nonce that was accepted is refused ever after, whatever nonces are generated, presented and
-- cleaned up in between, as long as the random source does not draw it again.
pub nonce_single_use :
    (n : Str) (now later : ℕ) (m : NonceManager) (es : List Event)
    → (validate_and_consume_nonce n now m).0 ≡ true
    → Unrepeated n es
    → (validate_and_consume_nonce n later (run (validate_and_consume_nonce n now m).1 es)).0 ≡ false
nonce_single_use n now later m es h u =
    absent-refused n later _ (absent-run n _ es u (accepted-gone n now m h))

-- A fresh nonce is accepted exactly until its lifetime is over.
nonce_lifetime :
    (n : Str) (now later : ℕ) (m : NonceManager)
    → is_empty n ≡ false
    → (validate_and_consume_nonce n later (generate_nonce (some n) now m).1).0
      ≡ ltb later (now + m.ttl)
unfolding validate_and_consume_nonce generate_nonce
nonce_lifetime n now later m h = rw (h, lookup-insert_self n (now + m.ttl) m.nonces) refl

cleaned :
    (now later : ℕ) (o : Option ℕ)
    → now ≤ later
    → passing (λ expiry. ltb later expiry) (passing (λ expiry. not (ltb expiry now)) o)
      ≡ passing (λ expiry. ltb later expiry) o
cleaned now later none h = refl
cleaned now later (some v) h = ground arith

verdict :
    (n : Str) (now : ℕ) (m : NonceManager)
    → (validate_and_consume_nonce n now m).0
      ≡ (not (is_empty n) && is_some (passing (λ expiry. ltb now expiry) (lookup n m.nonces)))
unfolding validate_and_consume_nonce
verdict n now m = ground arith

-- Cleaning up drops nothing that would still be accepted, then or later.
cleanup_unseen :
    (n : Str) (now later : ℕ) (m : NonceManager)
    → Distinct m.nonces
    → now ≤ later
    → (validate_and_consume_nonce n later (cleanup now m)).0
      ≡ (validate_and_consume_nonce n later m).0
unfolding cleanup
cleanup_unseen n now later m d h =
    verdict n later (cleanup now m)
    ∙ rw
        (
          lookup-keep_if (λ expiry. not (ltb expiry now)) n m.nonces d,
          cleaned now later (lookup n m.nonces) h,
        )
        (sym (verdict n later m))
