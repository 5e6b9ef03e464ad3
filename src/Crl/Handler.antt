-- ===== src/Crl/Handler.antt =====
-- pkg/protocols/crl/handler.go: the HTTP handler of revocation lists, over any provider of them.
use go_certa.Prelude.{
  ℕ, ℤ, pos, is_pos, is_empty, false, Str, Option, none, some, List, [], ◌∷◌, length, ◌==◌,
  if◌then◌else◌, ◌≡◌, refl, ap, sym, ◌∙◌, Option-cases, inl, inr,
}
use go_certa.Http.{Method, get, head}
use go_certa.Crl.{
  not_ready, Result, ok, err, Signer, Generator, Service, regenerate, cache, generate_crl,
  latest_crl,
}
use go_certa.Storage
use go_certa.Storage.{RevocationRecord}

-- CRLProvider, as what its LatestCRL returns.
abbrev pub Latest : Type 0
Latest = Result (Str × ℕ)

pub record Handler : Type 0 where
  pub cache_max_age : ℤ

-- The options are given as the ages of WithCacheMaxAge.
unfoldable pub with_cache_max_age : ℤ → Handler → Handler
with_cache_max_age seconds h = if is_pos seconds then record h { cache_max_age = seconds } else h

abbrev apply_options : List ℤ → Handler → Handler
apply_options [] h = h
apply_options (seconds ∷ rest) h = apply_options rest (with_cache_max_age seconds h)

unfoldable pub new_handler : List ℤ → Handler
new_handler opts = apply_options opts (record { cache_max_age = pos 3600 })

pub record Headers : Type 0 where
  pub cache_max_age : ℤ
  pub last_modified : Option ℕ
  pub content_length : ℕ

pub data Reply : Type 0 where
  not_allowed not_ready_yet internal_error : Reply
  answered : Headers → Str → Reply

abbrev pub headers_of : Handler → Str → ℕ → Headers
headers_of h der last_gen = record {
  cache_max_age = h.cache_max_age;
  last_modified = if last_gen == 0 then none else some last_gen;
  content_length = length der;
}

abbrev body_of : Method → Str → Str
body_of head der = []
body_of m der = der

abbrev show : Handler → Method → Latest → Reply
show h m (ok (der, last_gen)) = answered (headers_of h der last_gen) (body_of m der)
show h m (err not_ready) = not_ready_yet
show h m (err e) = internal_error

unfoldable pub serve : Handler → Method → Latest → Reply
serve h m latest = elim m [ get ↦ show h get latest | head ↦ show h head latest | _ ↦ not_allowed ]

cached :
    (now : ℕ) (s s' : Service) (der : Str) (r : Result Str × Generator)
    → cache now s r ≡ (ok der, s')
    → (s'.cached_crl ≡ der) × (s'.last_generated ≡ now)
unfolding cache
cached now s s' der (err x, g) e = cc
cached now s s' der (ok d, g) e =
    let same : ok d ≡ ok der = ap (λ t. t.0) e in
    (
      sym (ap (λ (t : Result Str × Service). t.1.cached_crl) e) ∙ cc same,
      sym (ap (λ (t : Result Str × Service). t.1.last_generated) e),
    )

some-inj : {A : Type 0} {a b : A} → some a ≡ some b → a ≡ b
some-inj e = cc e

-- After a regeneration that gives a list that is not empty, a GET is answered with that list, and with
-- the time of its generation.
regenerated_is_served :
    (h : Handler) (sign : Signer) (now : ℕ) (records : Storage.Result (List RevocationRecord))
    (s s' : Service) (der : Str)
    → regenerate sign now records s ≡ some (ok der, s')
    → is_empty der ≡ false
    → serve h get (latest_crl s') ≡ answered (headers_of h der now) der
unfolding regenerate latest_crl serve
regenerated_is_served h sign now records s s' der e ne =
    elim (Option-cases (generate_crl sign now records s.generator)) [
      | inl q ↦ cc (rw (regenerate, q) at e)
      | inr (r, q) ↦
          let held : some (cache now s r) ≡ some (ok der, s') = rw (regenerate, q) at e in
          let (list, at) = cached now s s' der r (some-inj held) in rw (list, ne, at) refl
    ]
