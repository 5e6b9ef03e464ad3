-- ===== src/Acme/Jws/Keys.antt =====
-- pkg/protocols/acme/jws.go: KeyToJWK and JWKToKey are inverse on the keys that ACME uses.
use go_certa.Prelude.{
  ℕ, ◌<◌, ◌^◌, ◌%◌, ltb, length, big_bytes, set_bytes, set_bytes-big_bytes, set_bytes-zeroes,
  big_bytes_width, pos, negsuc, codes, [], sym, Str, str_eq, true, false, some, ◌≡◌, refl, ap, ◌∙◌,
  arith,
}
use go_certa.Ca.Types.{PublicKey, rsa, ecdsa, ed25519, other}
use go_certa.Acme.Jws.{
  Jwk, Services, keyed, pad, p256, int_64, magnitude, rsa_key, ec_key, key_to_jwk, jwk_to_key,
}

-- What is promised of base64.
abbrev pub ReadsBack : Services → Type 0
ReadsBack svc = (s : Str) → svc.decode (svc.encode s) ≡ some s

-- An RSA key with an exponent of 63 bits, or a key on P-256 with coordinates of 32 bytes.
abbrev pub Usable : Services → PublicKey → Type 0
Usable svc (rsa n (pos e)) = e < 2 ^ 63
Usable svc (rsa n e) = ⊥
Usable svc (ecdsa curve x y) =
    (curve ≡ p256) × (x < 256 ^ 32) × (y < 256 ^ 32) × (svc.is_on_curve x y ≡ true)
Usable svc _ = ⊥

narrow : (n : ℕ) → n < 256 ^ 32 → ltb 32 (length (big_bytes n)) ≡ false
narrow n h = ground (arith, big_bytes_width n 32 h)

pub set_bytes-pad : (n : ℕ) → set_bytes (pad 32 (big_bytes n)) ≡ n
set_bytes-pad n = set_bytes-zeroes _ (big_bytes n) ∙ set_bytes-big_bytes n

small_exponent : (svc : Services) (e : ℕ) → e < 2 ^ 63 → int_64 svc e ≡ pos e
small_exponent svc e h =
    let low : e % 2 ^ 64 ≡ e = omega (arith, h) in
    let less : ltb e (2 ^ 63) ≡ true = ground (arith, h) in rw (int_64, low, less) refl

-- For every usable key, KeyToJWK gives a JWK without an error or a panic, and JWKToKey reads it back
-- as the key. Base64 reads back what it writes.
pub jwk_round_trip :
    (svc : Services) (key : PublicKey)
    → ReadsBack svc
    → Usable svc key
    → (jwk : Jwk) × (key_to_jwk svc key ≡ keyed jwk) × (jwk_to_key svc jwk ≡ some key)
unfolding key_to_jwk jwk_to_key str_eq
jwk_round_trip svc (rsa n (pos e)) b u =
    let same : magnitude (pos e) ≡ e = omega arith in
    (
      _,
      refl,
      rw
          (
            b (big_bytes n),
            b (big_bytes (magnitude (pos e))),
            rsa_key,
            set_bytes-big_bytes n,
            set_bytes-big_bytes (magnitude (pos e)),
          )
          (ap (λ t. some (rsa n t)) (ap (int_64 svc) same ∙ small_exponent svc e u)),
    )
jwk_round_trip svc (rsa n (negsuc e)) b u = absurd u
jwk_round_trip svc (ecdsa curve x y) b (c, hx, hy, on) = (
  record {
    kty = codes "EC";
    crv = p256;
    x = svc.encode (pad 32 (big_bytes x));
    y = svc.encode (pad 32 (big_bytes y));
    n = [];
    e = [];
  },
  rw (c, narrow x hx, narrow y hy) refl,
  rw
      (
        b (pad 32 (big_bytes x)),
        b (pad 32 (big_bytes y)),
        ec_key,
        set_bytes-pad x,
        set_bytes-pad y,
        on,
      )
      (ap (λ t. some (ecdsa t x y)) (sym c)),
)
jwk_round_trip svc (ed25519 key) b u = absurd u
jwk_round_trip svc other b u = absurd u
