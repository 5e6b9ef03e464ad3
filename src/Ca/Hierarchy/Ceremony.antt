-- ===== src/Ca/Hierarchy/Ceremony.antt =====
-- pkg/ca/authority.go: NewAuthority; pkg/ca/key_store.go: what generateAndPersistAuthority makes
-- before it writes.
use go_certa.Prelude.{ℤ, Str, Option}
use go_certa.Ca.Types.{PublicKey}
use go_certa.Ca.Policy.{new_default_policy_engine}
use go_certa.Ca.Authority.{compute_subject_key_id}
use go_certa.Ca.Hierarchy.{
  KeyLibrary, Result, ok, ◌>>=◌, or_fail, Hierarchy, root_template, intermediate_template,
  creating_root_cert, computing_root_key_id, generating_root_key, parsing_root_cert,
  creating_intermediate_cert, computing_intermediate_key_id, generating_intermediate_key,
  parsing_intermediate_cert, panics,
}

-- The keys and the certificates, as signed and as parsed.
pub record CaMaterials (Key Certificate : Type 0) : Type 0 where
  pub root_key : Key
  pub root_der : Str
  pub root_cert : Certificate
  pub intermediate_key : Key
  pub intermediate_der : Str
  pub intermediate_cert : Certificate

unfoldable pub generate :
    (lib : KeyLibrary)
    → ℤ
    → Option lib.Key
    → Option lib.Key
    → Result (CaMaterials lib.Key lib.Certificate)
generate lib now root_drawn intermediate_drawn = do
  root_key ← or_fail root_drawn generating_root_key
  root_skid ←
      or_fail (compute_subject_key_id lib.base (lib.public_key root_key)) computing_root_key_id
  root_der ←
      or_fail
        (lib.create_self_signed (root_template lib now root_skid) (lib.public_key root_key)
          root_key)
        creating_root_cert
  root_cert ← or_fail (lib.parse_certificate root_der) parsing_root_cert
  int_key ← or_fail intermediate_drawn generating_intermediate_key
  int_skid ←
      or_fail (compute_subject_key_id lib.base (lib.public_key int_key))
        computing_intermediate_key_id
  int_der ←
      or_fail
        (lib.create_certificate (intermediate_template lib now int_skid root_skid) root_cert
          (lib.public_key int_key) root_key)
        creating_intermediate_cert
  int_cert ← or_fail (lib.parse_certificate int_der) parsing_intermediate_cert
  ok (record {
    root_key = root_key;
    root_der = root_der;
    root_cert = root_cert;
    intermediate_key = int_key;
    intermediate_der = int_der;
    intermediate_cert = int_cert;
  })

-- The signer's Public() is the argument `public`. The two errors of ParseCertificate are dropped; using
-- a root that did not parse panics.
unfoldable pub new_authority :
    {Signer : Type 0} (lib : KeyLibrary)
    → ℤ
    → Option lib.Key
    → PublicKey
    → Signer
    → Result (Hierarchy lib.Certificate Signer)
new_authority lib now root_drawn public signer = do
  root_key ← or_fail root_drawn generating_root_key
  root_skid ←
      or_fail (compute_subject_key_id lib.base (lib.public_key root_key)) computing_root_key_id
  root_der ←
      or_fail
        (lib.create_self_signed (root_template lib now root_skid) (lib.public_key root_key)
          root_key)
        creating_root_cert
  int_skid ← or_fail (compute_subject_key_id lib.base public) computing_intermediate_key_id
  root_cert ← or_fail (lib.parse_certificate root_der) panics
  int_der ←
      or_fail
        (lib.create_certificate
          (intermediate_template lib now int_skid (lib.subject_key_id root_cert)) root_cert public
          root_key)
        creating_intermediate_cert
  ok (record {
    root_cert = root_cert;
    intermediate_cert = lib.parse_certificate int_der;
    signer = signer;
    policy = new_default_policy_engine;
  })
