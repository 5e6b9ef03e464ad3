-- ===== src/Examples/Telemetry.antt =====
-- pkg/telemetry on a few calls, with natural numbers for the floats.
use go_certa.Prelude.{lookup, insert, str_eq, ℕ, ◌+◌, ◌-◌, ltb, codes, List, [], ◌∷◌, ◌≡◌, refl}
use go_certa.Telemetry.{
  add_counter, inc_revoked_certificates_count, Numbers, Labels, new_registry, get_counter,
  format_labels, certs_issued_total, inc_certificates_issued, inc_certificates_revoked,
  dec_revoked_certificates_count,
}
use go_certa.Telemetry.Counted.{Call, adds, issues, revokes, decrements, run, counted_all, get-run}

abbrev numbers : Numbers
numbers = record {
  Num = ℕ;
  zero = 0;
  one = 1;
  plus = λ a b. a + b;
  minus = λ a b. a - b;
  is_positive = λ a. ltb 0 a;
  format = λ a. a ∷ [];
  quote = λ s. s;
}

abbrev calls : List (Call numbers)
calls =
    issues (codes "tls")
    ∷ revokes (codes "key")
    ∷ issues (codes "code")
    ∷ decrements
    ∷ adds certs_issued_total 5 ((codes "profile", codes "tls") ∷ [])
    ∷ []

abbrev tls : Labels
tls = (codes "profile", codes "tls") ∷ []

get-run_example :
    get_counter numbers certs_issued_total tls (run numbers calls (new_registry numbers))
    ≡ counted_all numbers certs_issued_total
        (format_labels numbers tls)
        calls
        (get_counter numbers certs_issued_total tls (new_registry numbers))
get-run_example = get-run numbers certs_issued_total tls calls (new_registry numbers)

six_issued :
    get_counter numbers certs_issued_total tls (run numbers calls (new_registry numbers)) ≡ 6
unfolding get_counter run new_registry inc_certificates_issued inc_certificates_revoked
    dec_revoked_certificates_count lookup add_counter insert inc_revoked_certificates_count str_eq
six_issued = refl
