-- ===== src/Ca/Hierarchy/Parsed.antt =====
-- pkg/ca/authority.go and pkg/ca/key_store.go: what a ceremony that succeeds gives.
use go_certa.Prelude.{ℤ, Option, some, ◌≡◌, sym, ap, subst}
use go_certa.Ca.Types.{PublicKey}
use go_certa.Ca.Policy.{new_default_policy_engine}
use go_certa.Ca.Authority.{compute_subject_key_id}
use go_certa.Ca.Hierarchy.{
  KeyLibrary, ok, or_fail, bind_ok, or_fail_ok, ok_injective, Hierarchy, root_template,
  intermediate_template,
}
use go_certa.Ca.Hierarchy.Ceremony.{CaMaterials, generate, new_authority}

pub generate_parses :
    (lib : KeyLibrary) (now : ℤ) (root_drawn int_drawn : Option lib.Key)
    (made : CaMaterials lib.Key lib.Certificate)
    → generate lib now root_drawn int_drawn ≡ ok made
    → (lib.parse_certificate made.root_der ≡ some made.root_cert)
      × (lib.parse_certificate made.intermediate_der ≡ some made.intermediate_cert)
unfolding generate
generate_parses lib now root_drawn int_drawn made e =
    let (root_key, p0, e0) = bind_ok (or_fail root_drawn _) _ e in
    let (root_skid, p1, e1) =
      bind_ok (or_fail (compute_subject_key_id lib.base (lib.public_key root_key)) _) _ e0 in
    let (root_der, p2, e2) =
      bind_ok
        (or_fail
          (lib.create_self_signed (root_template lib now root_skid) (lib.public_key root_key)
            root_key)
          _)
        _ e1 in
    let (root_cert, p3, e3) = bind_ok (or_fail (lib.parse_certificate root_der) _) _ e2 in
    let (int_key, p4, e4) = bind_ok (or_fail int_drawn _) _ e3 in
    let (int_skid, p5, e5) =
      bind_ok (or_fail (compute_subject_key_id lib.base (lib.public_key int_key)) _) _ e4 in
    let (int_der, p6, e6) =
      bind_ok
        (or_fail
          (lib.create_certificate (intermediate_template lib now int_skid root_skid) root_cert
            (lib.public_key int_key) root_key)
          _)
        _ e5 in
    let (int_cert, p7, e7) = bind_ok (or_fail (lib.parse_certificate int_der) _) _ e6 in
    let same = ok_injective e7 in
    (
      subst
          (λ (m : CaMaterials lib.Key lib.Certificate).
            lib.parse_certificate m.root_der ≡ some m.root_cert)
          same (or_fail_ok _ _ p3),
      subst
          (λ (m : CaMaterials lib.Key lib.Certificate).
            lib.parse_certificate m.intermediate_der ≡ some m.intermediate_cert)
          same (or_fail_ok _ _ p7),
    )

pub new_authority-policy :
    {Signer : Type 0} (lib : KeyLibrary) (now : ℤ) (root_drawn : Option lib.Key)
    (public : PublicKey) (signer : Signer) (h : Hierarchy lib.Certificate Signer)
    → new_authority lib now root_drawn public signer ≡ ok h
    → h.policy ≡ new_default_policy_engine
unfolding new_authority
new_authority-policy {Signer = Signer} lib now root_drawn public signer h e =
    let (root_key, p0, e0) = bind_ok (or_fail root_drawn _) _ e in
    let (root_skid, p1, e1) =
      bind_ok (or_fail (compute_subject_key_id lib.base (lib.public_key root_key)) _) _ e0 in
    let (root_der, p2, e2) =
      bind_ok
        (or_fail
          (lib.create_self_signed (root_template lib now root_skid) (lib.public_key root_key)
            root_key)
          _)
        _ e1 in
    let (int_skid, p3, e3) = bind_ok (or_fail (compute_subject_key_id lib.base public) _) _ e2 in
    let (root_cert, p4, e4) = bind_ok (or_fail (lib.parse_certificate root_der) _) _ e3 in
    let (int_der, p5, e5) =
      bind_ok
        (or_fail
          (lib.create_certificate
            (intermediate_template lib now int_skid (lib.subject_key_id root_cert)) root_cert public
            root_key)
          _)
        _ e4 in
    ap (λ (a : Hierarchy lib.Certificate Signer). a.policy) (sym (ok_injective e5))
