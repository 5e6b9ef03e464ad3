-- ===== src/Acme/Challenge.antt =====
-- pkg/protocols/acme/challenge.go: key authorizations and the HTTP-01 check. The HTTP client is a
-- parameter: a GET gives the status and the body, or fails; reading the body may fail too.
use go_certa.Prelude.{
  ℕ, ◌==◌, Str, codes, str_eq, str_eq_iff, trim_space, not, Option, none, some, ◌++◌, ◌∷◌,
  if◌then◌else◌, Bool-cases, ◌≡◌, ◌↔◌, refl, ap, ◌∙◌, inl, inr, arith,
}

abbrev pub Client : Type 0
Client = Str → Option (ℕ × Option Str)

unfoldable pub compute_key_authorization : Str → Str → Str
compute_key_authorization token key_thumbprint = token ++ b'.' ∷ key_thumbprint

pub data Outcome : Type 0 where
  satisfied connection_failed invalid_status read_failed mismatch : Outcome

abbrev pub challenge_url : Str → Str → Str
challenge_url domain token =
    codes "http://" ++ (domain ++ (codes "/.well-known/acme-challenge/" ++ token))

abbrev compare_body : Str → Option Str → Outcome
compare_body expected none = read_failed
compare_body expected (some body) =
    if not (str_eq (trim_space body) expected) then mismatch else satisfied

abbrev judge : Str → Option (ℕ × Option Str) → Outcome
judge expected none = connection_failed
judge expected (some (status, body)) =
    if not (status == 200) then invalid_status else compare_body expected body

unfoldable pub validate_http01 : Client → Str → Str → Str → Outcome
unfolding trim_space str_eq
validate_http01 client domain token expected_key_auth =
    judge expected_key_auth (client (challenge_url domain token))

compare_body-satisfied :
    (expected : Str) (body : Option Str)
    → compare_body expected body ≡ satisfied
    → (b : Str) × (body ≡ some b) × (trim_space b ≡ expected)
compare_body-satisfied expected none e = cc
compare_body-satisfied expected (some b) e = elim (Bool-cases (str_eq (trim_space b) expected)) [
  | inl x ↦ (b, refl, (str_eq_iff (trim_space b) expected).0 x)
  | inr x ↦ cc (rw x at e)
]

judge-satisfied :
    (expected : Str) (answer : Option (ℕ × Option Str))
    → judge expected answer ≡ satisfied
    → (body : Str) × (answer ≡ some (200, some body)) × (trim_space body ≡ expected)
judge-satisfied expected none e = cc
judge-satisfied expected (some (status, body)) e = elim (Bool-cases (status == 200)) [
  | inl x ↦
      let at_200 : status ≡ 200 = ground (arith, x) in
      let (b, q, t) = compare_body-satisfied expected body (rw x at e) in
      (b, ap (λ n. some (n, body)) at_200 ∙ ap (λ x. some (200, x)) q, t)
  | inr x ↦ cc (rw x at e)
]

-- The HTTP-01 check succeeds exactly when a GET of the challenge's URL is answered 200 with a body
-- that is, without the white space around it, the key authorization.
validate_http01_exact :
    (client : Client) (domain token expected : Str)
    → (validate_http01 client domain token expected ≡ satisfied) ↔ (
        (body : Str) × (client (challenge_url domain token) ≡ some (200, some body))
        × (trim_space body ≡ expected))
unfolding validate_http01
validate_http01_exact client domain token expected = (
  judge-satisfied expected (client (challenge_url domain token)),
  λ (body, answered, same).
      rw (answered, judge, compare_body, (str_eq_iff (trim_space body) expected).1 same) refl,
)
