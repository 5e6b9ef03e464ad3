-- ===== src/Ca/Policy/Names.antt =====
-- pkg/ca/policy.go: the names that ValidateDNSName accepts.
use go_certa.Prelude.{
  Str, codes, str_eq, str_eq_iff, has_suffix, has_suffix_iff, has_prefix, trim_prefix,
  trim_prefix-append, trim_prefix_lem, has_prefix-append, trim_space, to_lower, contains_byte, Bool,
  true, false, not, ◌&&◌, ◌||◌, List, [], ◌∷◌, ◌++◌, is_empty, All, ◌≡◌, ◌⊎◌, inl, inr, ◌↔◌, refl,
  sym, ◌∙◌, arith, Bool-cases,
}
use go_certa.Ca.Types.{ok}
use go_certa.Ca.Policy.{
  PolicyEngine, is_internal_domain_suffix, forbidden_by, check_wildcard, validate_dns_name,
}

-- The policy has an entry that does not hold for internal domains, or the name does not end in it.
abbrev pub Passes : PolicyEngine → Str → Str → Type 0
Passes p name entry =
    ((p.allow_internal_domains && is_internal_domain_suffix entry) ≡ true)
    ⊎ (¬ ((r : Str) × (name ≡ r ++ entry)))

-- No asterisk, or one, where wildcards are allowed: as the whole first label, before two labels.
abbrev pub WellStarred : PolicyEngine → Str → Type 0
WellStarred p name =
    (contains_byte name b'*' ≡ false)
    ⊎ ((p.allow_wildcards ≡ true)
        × ((r : Str) × (name ≡ codes "*." ++ r)
            × (contains_byte r b'.' ≡ true)
            × (contains_byte r b'*' ≡ false)))

pub record Acceptable (p : PolicyEngine) (name : Str) : Type 0 where
  pub named : is_empty name ≡ false
  pub allowed : All (Passes p name) p.disallowed_dns_names
  pub starred : WellStarred p name

module _ (p : PolicyEngine) (name : Str) where
  -- The entry forbids the name.
  abbrev blocks : Str → Bool
  blocks d =
      not (p.allow_internal_domains && is_internal_domain_suffix d)
      && (str_eq name d || has_suffix name d)

  -- An entry that is the name itself is a suffix of it.
  self_suffix : (d : Str) → str_eq name d ≡ true → has_suffix name d ≡ true
  self_suffix d e = (has_suffix_iff name d).1 ([], (str_eq_iff name d).0 e)

  Passes-of : (d : Str) → blocks d ≡ false → Passes p name d
  Passes-of d h = elim (Bool-cases (p.allow_internal_domains && is_internal_domain_suffix d)) [
    | inl e ↦ inl e
    | inr e ↦ inr (λ x. ground (arith, (has_suffix_iff name d).1 x))
  ]

  of-Passes : (d : Str) → Passes p name d → blocks d ≡ false
  of-Passes d (inl e) = rw e
  of-Passes d (inr f) = elim (Bool-cases (has_suffix name d)) [
    | inl s ↦ absurd (f ((has_suffix_iff name d).0 s))
    | inr s ↦ ground (arith, self_suffix d)
  ]

  forbidden_by_cons :
      (d : Str) (ds : List Str)
      → forbidden_by p.allow_internal_domains name (d ∷ ds)
        ≡ (blocks d || forbidden_by p.allow_internal_domains name ds)
  unfolding forbidden_by
  forbidden_by_cons d ds = ground arith

  or_false : (a b : Bool) → (a || b) ≡ false → (a ≡ false) × (b ≡ false)
  or_false a b h = (ground arith, ground arith)

  forbidden_by_iff :
      (ds : List Str)
      → (forbidden_by p.allow_internal_domains name ds ≡ false) ↔ All (Passes p name) ds
  forbidden_by_iff [] = (λ _. tt, λ _. unfold forbidden_by in refl)
  forbidden_by_iff (d ∷ ds) = (
    λ h.
        let (a, b) = or_false (blocks d) _ (sym (forbidden_by_cons d ds) ∙ h) in
        (Passes-of d a, (forbidden_by_iff ds).0 b),
    λ a. forbidden_by_cons d ds ∙ rw (of-Passes d a.0) ((forbidden_by_iff ds).1 a.1),
  )

-- What is left behind `*.`.
abbrev Rest : Str → Type 0
Rest r = (contains_byte r b'.' ≡ true) × (contains_byte r b'*' ≡ false)

check_rest : (r : Str) → contains_byte r b'.' ≡ true → is_empty r ≡ false
check_rest [] h = unfold contains_byte in cc
check_rest (c ∷ r) h = refl

check_wildcard_ok :
    (p : PolicyEngine) (name : Str)
    → check_wildcard p.allow_wildcards name ≡ ok tt
    → WellStarred p name
unfolding check_wildcard
check_wildcard_ok p name h = elim (Bool-cases (contains_byte name b'*')) [
  | inr e ↦ inl e
  | inl e ↦
      let head : has_prefix name (codes "*.") ≡ true = ground arith in
      inr (
        ground arith,
        (
          trim_prefix name (codes "*."),
          trim_prefix_lem name (codes "*.") head,
          ground arith,
          ground arith,
        ),
      )
]

check_wildcard_passes :
    (p : PolicyEngine) (name : Str)
    → WellStarred p name
    → check_wildcard p.allow_wildcards name ≡ ok tt
unfolding check_wildcard
check_wildcard_passes p name (inl e) = rw e
check_wildcard_passes p name (inr (a, (r, e, d, s))) = rw e (
    ground (
      arith,
      a,
      has_prefix-append (codes "*.") r,
      trim_prefix-append (codes "*.") r,
      check_rest r d,
      d,
      s,
    ))

-- ValidateDNSName accepts a name exactly when, in lower case and with no white space around it, it
-- is not empty, ends in no disallowed name (but for the internal ones where those are allowed), and
-- has at most one asterisk, which is then the whole first label before at least two labels.
pub validate_dns_name_exact :
    (p : PolicyEngine) (name : Str)
    → (validate_dns_name p name ≡ ok tt) ↔ Acceptable p (trim_space (to_lower name))
unfolding validate_dns_name
validate_dns_name_exact p name =
    let t = trim_space (to_lower name) in
    (
      λ h. record {
        named = ground arith;
        allowed = (forbidden_by_iff p t p.disallowed_dns_names).0 (ground arith);
        starred = check_wildcard_ok p t (ground arith);
      },
      λ a. ground (
        arith,
        a.named,
        (forbidden_by_iff p t p.disallowed_dns_names).1 a.allowed,
        check_wildcard_passes p t a.starred,
      ),
    )
