-- ===== src/Acme/Jws/Checks.antt =====
-- pkg/protocols/acme/jws.go: what it means that a signature checks and that a key is resolved.
use go_certa.Prelude.{
  ℕ, zero, suc, ◌≤◌, ◌==◌, ◌++◌, ℤ, Str, str_eq, str_eq_iff, str_eq_refl, is_empty, length,
  length-append, set_bytes, split_at, split_at-append, Bool, true, false, Option, none, some, [],
  ◌∷◌, ◌≡◌, ◌⊎◌, ◌↔◌, refl, ap, inl, inr, arith, Bool-cases, Option-cases,
}
use go_certa.Ca.Types.{PublicKey, rsa, ecdsa, ed25519, other}
use go_certa.Acme.Jws.{Jwk, JwsHeader, Services, jwk_to_key}
use go_certa.Acme.Jws.Message.{
  decoded, KeyLookup, rs256, es256, passed, check_rsa, check_halves, check_ecdsa, check_signature,
  resolve_key, or_failure, looked_up, Failure, invalid_key, lookup_failed,
}

-- The signature is one by the header's algorithm and the key: for ES256, two halves of 32 bytes.
abbrev pub Verifies : Services → Str → PublicKey → Str → Str → Type 0
Verifies svc alg key hash sig =
    ((alg ≡ rs256) × (n : ℕ) × (e : ℤ) × (key ≡ rsa n e) × (svc.verify_rsa n e hash sig ≡ true))
    ⊎ ((alg ≡ es256)
        × (curve : Str) × (x : ℕ) × (y : ℕ) × (r : Str) × (s : Str) × (key ≡ ecdsa curve x y)
        × (sig ≡ r ++ s)
        × (length r ≡ 32)
        × (length s ≡ 32)
        × (svc.verify_ecdsa curve x y hash (set_bytes r) (set_bytes s) ≡ true))

-- The header's own key comes first; without one, its key id is looked up.
abbrev pub LeadsTo : Services → JwsHeader → KeyLookup → PublicKey → Type 0
LeadsTo svc header look key =
    ((jwk : Jwk) × (header.jwk ≡ some jwk) × (jwk_to_key svc jwk ≡ some key))
    ⊎ ((find : Str → Option PublicKey) × (header.jwk ≡ none)
        × (is_empty header.kid ≡ false)
        × (look ≡ some find)
        × (find header.kid ≡ some key))

halved :
    (n : ℕ) (s : Str)
    → n ≤ length s
    → (a : Str) × (b : Str) × (split_at n s ≡ some (a, b)) × (s ≡ a ++ b) × (length a ≡ n)
unfolding split_at
halved zero s h = ([], s, refl, refl, refl)
halved (suc n) [] h = absurd (omega arith)
halved (suc n) (c ∷ s) h =
    let (a, b, cut, whole, width) = halved n s (omega arith) in
    (c ∷ a, b, rw cut refl, ap (◌∷◌ c) whole, ap suc width)

passed-inv : (svc : Services) (b : Bool) → passed svc b ≡ decoded tt → b ≡ true
passed-inv svc true e = refl
passed-inv svc false e = cc e

rsa_verifies :
    (svc : Services) (key : PublicKey) (hash sig : Str)
    → check_rsa svc key hash sig ≡ decoded tt
    → (n : ℕ) × (e : ℤ) × (key ≡ rsa n e) × (svc.verify_rsa n e hash sig ≡ true)
rsa_verifies svc (rsa n e) hash sig h = (n, e, refl, passed-inv svc _ h)
rsa_verifies svc (ecdsa curve x y) hash sig h = cc h
rsa_verifies svc (ed25519 k) hash sig h = cc h
rsa_verifies svc other hash sig h = cc h

ecdsa_verifies :
    (svc : Services) (key : PublicKey) (hash sig : Str)
    → check_ecdsa svc key hash sig ≡ decoded tt
    → (curve : Str) × (x : ℕ) × (y : ℕ) × (r : Str) × (s : Str) × (key ≡ ecdsa curve x y)
      × (sig ≡ r ++ s)
      × (length r ≡ 32)
      × (length s ≡ 32)
      × (svc.verify_ecdsa curve x y hash (set_bytes r) (set_bytes s) ≡ true)
ecdsa_verifies svc (ecdsa curve x y) hash sig h = elim (Bool-cases (length sig == 64)) [
  | inr q ↦ cc (rw q at h)
  | inl q ↦
      let width : length sig ≡ 64 = ground (arith, q) in
      let (r, s, cut, whole, front) = halved 32 sig (omega (arith, width)) in
      let back : length s ≡ 32 = omega (arith, width, front, ap length whole, length-append r s) in
      (
        curve,
        x,
        y,
        r,
        s,
        refl,
        whole,
        front,
        back,
        passed-inv svc _ (rw (q, cut, check_halves) at h),
      )
]
ecdsa_verifies svc (rsa n e) hash sig h = cc h
ecdsa_verifies svc (ed25519 k) hash sig h = cc h
ecdsa_verifies svc other hash sig h = cc h

pub check_signature-Verifies :
    (svc : Services) (alg : Str) (key : PublicKey) (hash sig : Str)
    → (check_signature svc alg key hash sig ≡ decoded tt) ↔ Verifies svc alg key hash sig
unfolding check_signature
check_signature-Verifies svc alg key hash sig = (
  λ e. elim (Bool-cases (str_eq alg rs256)) [
    | inl q ↦
        let (n, x, k, ok) = rsa_verifies svc key hash sig (rw q at e) in
        inl ((str_eq_iff alg rs256).0 q, n, x, k, ok)
    | inr q ↦ elim (Bool-cases (str_eq alg es256)) [
      | inl q' ↦
          let (curve, x, y, r, s, k, whole, front, back, ok) =
            ecdsa_verifies svc key hash sig (rw (q, q') at e) in
          inr ((str_eq_iff alg es256).0 q', curve, x, y, r, s, k, whole, front, back, ok)
      | inr q' ↦ cc (rw (q, q') at e)
    ]
  ],
  λ v. elim v [
    | inl (a, n, e, k, ok) ↦ rw (a, k, str_eq_refl rs256, ok) refl
    | inr (a, curve, x, y, r, s, k, whole, front, back, ok) ↦
        let width : length sig ≡ 64 =
          omega (arith, front, back, ap length whole, length-append r s) in
        let cut : split_at 32 sig ≡ some (r, s) = rw whole (split_at-append r s 32 front) in
        rw (a, k) (unfold str_eq in rw (check_ecdsa, width, cut, check_halves, ok) refl)
  ],
)

some_key :
    (f : Failure) (o : Option PublicKey) (key : PublicKey)
    → or_failure f o ≡ decoded key
    → o ≡ some key
some_key f none key e = cc
some_key f (some k) key e = cc

find_key :
    (kid : Str) (look : KeyLookup) (key : PublicKey)
    → looked_up kid look ≡ decoded key
    → (find : Str → Option PublicKey) × (look ≡ some find) × (find kid ≡ some key)
find_key kid none key e = cc
find_key kid (some find) key e = (find, refl, some_key lookup_failed (find kid) key e)

pub resolve_key-LeadsTo :
    (svc : Services) (header : JwsHeader) (look : KeyLookup) (key : PublicKey)
    → (resolve_key svc header look ≡ decoded key) ↔ LeadsTo svc header look key
unfolding resolve_key
resolve_key-LeadsTo svc header look key = (
  λ e. elim (Option-cases header.jwk) [
    | inr (jwk, q) ↦ inl (jwk, q, some_key invalid_key (jwk_to_key svc jwk) key (rw q at e))
    | inl q ↦ elim (Bool-cases (is_empty header.kid)) [
      | inl x ↦ cc (rw (q, x) at e)
      | inr x ↦
          let (find, given, found) = find_key header.kid look key (rw (q, x) at e) in
          inr (find, q, x, given, found)
    ]
  ],
  λ l. elim l [
    | inl (jwk, q, k) ↦ rw (q, k) refl
    | inr (find, q, x, given, found) ↦ rw (q, x, given, looked_up, found) refl
  ],
)
