-- ===== src/Signer/MockHsm.antt =====
-- pkg/signer/mock_hsm.go: HSMSigner. The key's own signature is the parameter `sign_with`; a
-- signature also says how long it slept.
use go_certa.Prelude.{ℤ, is_pos, pos, Str, Option, none, some, if◌then◌else◌}

pub record HsmSigner (Key : Type 0) : Type 0 where
  pub key : Option Key
  pub latency : ℤ

abbrev pub new_hsm_signer : {Key : Type 0} → Option Key → ℤ → HsmSigner Key
new_hsm_signer key simulated_latency = record { key = key; latency = simulated_latency }

-- A signer without a key panics here.
abbrev pub public : {Key Public : Type 0} → (Key → Public) → HsmSigner Key → Option Public
public public_of h = elim h.key [ none ↦ none | some k ↦ some (public_of k) ]

-- The signature, or an error, and the time slept.
abbrev pub hsm_sign :
    {Key : Type 0} → (Key → Str → Option Str) → HsmSigner Key → Str → Option Str × ℤ
hsm_sign sign_with h digest = elim h.key [
  | none ↦ (none, pos 0)
  | some k ↦ (sign_with k digest, if is_pos h.latency then h.latency else pos 0)
]
