-- ===== src/Examples/Ca.antt =====
-- pkg/ca on small inputs. The library of the examples reads one request, with an Ed25519 key, and
-- writes the serial of the template as the certificate.
use go_certa.Prelude.{
  ltb, if◌then◌else◌, ℕ, zero, suc, ◌*◌, ◌<◌, ◌≤◌, ◌^◌, ℤ, pos, pos_part, Str, codes, trim_space,
  to_lower, true, false, Option, none, some, List, [], ◌∷◌, ◌++◌, ◌≡◌, ◌↔◌, refl, inr, arith,
  str_eq, has_suffix, contains_byte, ◌-ℤ◌, ◌+ℤ◌, drop_prefix, has_prefix, trim_left, trim_prefix,
  insert, lookup,
}
use go_certa.Storage.{normalize_serial}
use go_certa.Storage.Memory.{MemoryStorage, new_memory_storage, reserve_serial}
use go_certa.Storage.Memory.Calls.{execute}
use go_certa.Storage.Memory.Invariant.{new-IsConsistent}
use go_certa.Storage.Memory.Implements.{memory_store}
use go_certa.Ca.Types.{
  PublicKey, ed25519, CertificateRequest, Template, ok, hour, bit_len, bits_of, clear_usage,
  has_usage,
}
use go_certa.Ca.Serial.{
  RandInt, serial, parsed, parse_serial, format_serial, generate_serial_with_bits, Surroundings,
  generate_and_reserve_serial_with_bits,
}
use go_certa.Ca.Serial.Text.{parse-format}
use go_certa.Ca.Serial.Draw.{
  Claimed, IsBelowMax, generate_serial_bounds, generate_serial_terminates, reserved_is_fresh,
}
use go_certa.Ca.Profile.{default_server_tls_profile}
use go_certa.Ca.Policy.{
  new_default_policy_engine, validate_public_key, validate_dns_name, validate_csr, OnCurve,
  validate_dns_names, is_internal_domain_suffix,
}
use go_certa.Ca.Policy.Names.{Acceptable, validate_dns_name_exact}
use go_certa.Ca.Policy.Csr.{Compliant, validate_csr_exact}
use go_certa.Ca.Lint.{has_lint_errors, lint_certificate, is_error}
use go_certa.Ca.Lint.Clean.{Clean, lint_certificate_exact}
use go_certa.Ca.Authority.{
  Library, Authority, no_extensions, align_usage, sign_certificate_with_profile, template, prepare,
  compute_subject_key_id,
}
use go_certa.Ca.Authority.Issued.{Conforms, issued_Conforms}
use go_certa.Ctlog.Precert.{build_pre_certificate_template, embed_sct_list}
use go_certa.Ctlog.SctList.{serialize_sct_list}
use go_certa.Ca.Authority.Logged.{Submitter, sign_certificate_with_ct}
use go_certa.Ca.Authority.Logged.Embedded.{Logged, sign_certificate_with_ct-Conforms}

parse-format_example :
    parse_serial (codes " " ++ ((codes "0X" ++ format_serial (some 171)) ++ codes " ")) ≡ parsed 171
parse-format_example =
    parse-format 171 (codes " ") (codes "0X") (codes " ") (omega arith) (refl, tt) (inr (inr refl))
      (refl, tt)

-- rand.Int with the number `n`, if its `max` allows.
abbrev drawn : ℕ → RandInt
drawn n = some (λ max. if ltb n max then n else 0)

drawn-IsBelowMax : (n : ℕ) → IsBelowMax (drawn n)
drawn-IsBelowMax n m = ground arith

generate_serial_bounds_example : (0 < 9) × (9 < 2 ^ 64) × (64 ≤ 64) × (64 ≤ 159)
unfolding generate_serial_with_bits
generate_serial_bounds_example =
    generate_serial_bounds 64 (drawn 0 ∷ drawn 9 ∷ []) 9
      (drawn-IsBelowMax 0, (drawn-IsBelowMax 9, tt)) refl

abbrev seven : ℕ → ℕ
seven max = if ltb 7 max then 7 else 0

generate_serial_terminates_example :
    generate_serial_with_bits 128 ((drawn 0 ∷ drawn 0 ∷ []) ++ some seven ∷ drawn 8 ∷ [])
    ≡ (serial 7, drawn 8 ∷ [])
generate_serial_terminates_example =
    generate_serial_terminates 128 seven (drawn 0 ∷ drawn 0 ∷ []) (drawn 8 ∷ []) (omega arith)
      (omega arith) ((_, refl, refl), ((_, refl, refl), tt)) (omega arith)

abbrev live : Surroundings
live = record { checked = λ i. none; within = λ i. none; clock = λ i. i }

abbrev taken : MemoryStorage
taken = record {
  certificates = [];
  revocations = [];
  serials = (codes "5", record { serial = codes "5"; issued_at = 0 }) ∷ [];
}

reserved_is_fresh_example : Claimed memory_store new_memory_storage taken 5
unfolding generate_and_reserve_serial_with_bits execute reserve_serial normalize_serial lookup
    insert
reserved_is_fresh_example =
    reserved_is_fresh memory_store live 64 5 new_memory_storage taken (drawn 5 ∷ []) []
      new-IsConsistent refl

validate_dns_name_exact_example :
    (validate_dns_name new_default_policy_engine (codes "*.A.com") ≡ ok tt)
    ↔ Acceptable new_default_policy_engine (trim_space (to_lower (codes "*.A.com")))
validate_dns_name_exact_example =
    validate_dns_name_exact new_default_policy_engine (codes "*.A.com")

repeat : ℕ → ℕ → Str
repeat zero b = []
repeat (suc n) b = b ∷ repeat n b

abbrev key : PublicKey
key = ed25519 (repeat 32 1)

abbrev on_curve : OnCurve
on_curve curve x y = true

abbrev request : CertificateRequest
request = record {
  public_key = key;
  subject = codes "CN=a";
  dns_names = codes "a.com" ∷ [];
  ip_addresses = [];
  email_addresses = [];
  uris = [];
}

validate_csr_exact_example :
    (validate_csr new_default_policy_engine on_curve
        (some request)
        default_server_tls_profile
        (pos hour)
      ≡ ok tt)
    ↔ Compliant new_default_policy_engine on_curve request default_server_tls_profile (pos hour)
validate_csr_exact_example =
    validate_csr_exact new_default_policy_engine on_curve request default_server_tls_profile
      (pos hour)

abbrev number_text : Option ℤ → Str
number_text none = []
number_text (some n) = pos_part n ∷ []

abbrev library : Library
library = record {
  parse_certificate_request = λ der. some request;
  check_signature = λ csr. true;
  on_curve = on_curve;
  key_bits = λ k. some (codes "key");
  sha1 = λ s. codes "hash";
  create_certificate = λ cert k. some (number_text cert.serial_number);
}

abbrev authority : Authority
authority = record { policy = none; intermediate_key = key; intermediate_key_id = codes "ca" }

lint_certificate_exact_example :
    let cert =
      template library authority request
        (pos 5)
        default_server_tls_profile
        no_extensions
        (pos (1000 * hour))
        (pos hour)
        (codes "a.com" ∷ [])
        []
        [] in
    (has_lint_errors (lint_certificate cert (some key) default_server_tls_profile) ≡ false)
    ↔ Clean cert (some key) default_server_tls_profile
lint_certificate_exact_example =
    lint_certificate_exact
      (template library authority request (pos 5) default_server_tls_profile no_extensions
        (pos (1000 * hour)) (pos hour) (codes "a.com" ∷ []) [] [])
      (some key) default_server_tls_profile

issued_Conforms_example :
    (csr : CertificateRequest) × (cert : Template) × (library.parse_certificate_request []
      ≡ some csr)
    × (cert.serial_number ≡ some (pos 5))
    × (library.create_certificate cert csr.public_key ≡ some (5 ∷ []))
    × Conforms library authority
        (pos (1000 * hour))
        default_server_tls_profile
        (pos hour)
        no_extensions
        []
        []
        csr
        cert
unfolding sign_certificate_with_profile prepare default_server_tls_profile validate_public_key
    repeat validate_dns_names validate_dns_name trim_space to_lower new_default_policy_engine str_eq
    has_suffix contains_byte has_lint_errors lint_certificate template bit_len ◌-ℤ◌ align_usage
    compute_subject_key_id is_error is_internal_domain_suffix bits_of clear_usage has_usage ◌+ℤ◌
    drop_prefix has_prefix trim_left trim_prefix
issued_Conforms_example =
    issued_Conforms library authority (pos (1000 * hour)) default_server_tls_profile (pos hour)
      no_extensions [] [] [] (some (pos 5)) (5 ∷ []) refl

-- One log, that answers an SCT of two bytes, and one submitter that is nil.
abbrev submitters : List (Option Submitter)
submitters = none ∷ some (λ pre issuer. some (7 ∷ 8 ∷ [])) ∷ []

sign_certificate_with_ct-Conforms_example :
    (csr : CertificateRequest) × (cert : Template) × (library.parse_certificate_request []
      ≡ some csr)
    × (cert.serial_number ≡ some (pos 5))
    × Conforms library authority
        (pos (1000 * hour))
        default_server_tls_profile
        (pos hour)
        no_extensions
        []
        []
        csr
        cert
    × Logged library (codes "ca") submitters csr cert (5 ∷ [])
unfolding sign_certificate_with_ct prepare default_server_tls_profile validate_public_key repeat
    validate_dns_names validate_dns_name trim_space to_lower new_default_policy_engine str_eq
    has_suffix contains_byte has_lint_errors lint_certificate template bit_len ◌-ℤ◌ align_usage
    compute_subject_key_id is_error is_internal_domain_suffix bits_of clear_usage has_usage ◌+ℤ◌
    drop_prefix has_prefix trim_left trim_prefix build_pre_certificate_template serialize_sct_list
    embed_sct_list
sign_certificate_with_ct-Conforms_example =
    sign_certificate_with_ct-Conforms library authority (pos (1000 * hour)) (codes "ca") []
      (some (pos 5)) default_server_tls_profile no_extensions (pos hour) [] submitters (5 ∷ []) refl
