-- ===== src/Acme/Nonce.antt =====
-- pkg/protocols/acme/nonce.go: NonceManager. A nonce is the text of its random bytes, or none where
-- the random source fails; `now` is the clock's reading in the call.
pub mod SingleUse
use go_certa.Prelude.{
  ℕ, ◌+◌, ◌*◌, ℤ, pos_part, is_pos, Str, Dict, lookup, insert, remove, keep_if, Bool, false, not,
  Option, none, some, [], is_empty, ltb, if◌then◌else◌,
}
use go_certa.Ca.Types.{minute}

-- The map holds when each nonce expires.
pub record NonceManager : Type 0 where
  pub nonces : Dict ℕ
  pub ttl : ℕ

unfoldable pub new_nonce_manager : ℤ → NonceManager
new_nonce_manager ttl = record {
  nonces = [];
  ttl = if is_pos ttl then pos_part ttl else 15 * minute;
}

unfoldable pub generate_nonce : Option Str → ℕ → NonceManager → Option Str × NonceManager
generate_nonce none now m = (none, m)
generate_nonce (some nonce) now m =
    (some nonce, record m { nonces = insert nonce (now + m.ttl) m.nonces })

-- What is found under the nonce is deleted, and counts if it has not expired.
consume : Str → ℕ → Option ℕ → NonceManager → Bool × NonceManager
consume nonce now none m = (false, m)
consume nonce now (some expiry) m = (ltb now expiry, record m { nonces = remove nonce m.nonces })

unfoldable pub validate_and_consume_nonce : Str → ℕ → NonceManager → Bool × NonceManager
unfolding consume
validate_and_consume_nonce nonce now m =
    if is_empty nonce then (false, m) else consume nonce now (lookup nonce m.nonces) m

unfoldable pub cleanup : ℕ → NonceManager → NonceManager
cleanup now m = record m { nonces = keep_if (λ expiry. not (ltb expiry now)) m.nonces }
