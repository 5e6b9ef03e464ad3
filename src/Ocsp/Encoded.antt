-- ===== src/Ocsp/Encoded.antt =====
-- pkg/protocols/ocsp/responder.go: the request in the URL of a GET, and the same request in a POST.
use go_certa.Prelude.{
  ◌==◌, ℤ, Str, codes, has_prefix, drop_prefix, trim_prefix, All, is_empty, false, Option, none,
  some, [], ◌∷◌, ◌++◌, ◌≡◌, refl, ap,
}
use go_certa.Http.{get, post}
use go_certa.Storage.Contract.{Store}
use go_certa.Ocsp.{
  Services, Handler, Request, cut_route, raw_text, plus_for_space, decode_text, request_bytes,
}
use go_certa.Ocsp.Responder.{
  Found, found, storage_failed, respond, sign_status, determine_status, answer_serial, serve,
}

abbrev pub Spaceless : Str → Type 0
Spaceless = All (λ c. (c == b' ') ≡ false)

-- The request as a GET of this path, and as a POST of these bytes.
abbrev pub as_get : Str → Request → Request
as_get path r = record r { method = get; escaped_path = path }

abbrev pub as_post : Str → Request → Request
as_post der r = record r { method = post; body = some der }

plus_for_space-Spaceless : (text : Str) → Spaceless text → plus_for_space text ≡ text
unfolding plus_for_space
plus_for_space-Spaceless [] h = refl
plus_for_space-Spaceless (c ∷ text) h = rw (h.0) (ap (◌∷◌ c) (plus_for_space-Spaceless text h.1))

raw_text_lem :
    (r : Request) (text : Str)
    → is_empty text ≡ false
    → has_prefix text (codes "/") ≡ false
    → raw_text (as_get (codes "/ocsp/" ++ text) r) ≡ text
unfolding raw_text cut_route trim_prefix has_prefix drop_prefix
raw_text_lem r [] ne slash = cc
raw_text_lem r (c ∷ text) ne slash = rw slash refl

get_bytes :
    (svc : Services) (r : Request) (text plain der : Str)
    → is_empty text ≡ false
    → has_prefix text (codes "/") ≡ false
    → svc.path_unescape text ≡ some plain
    → Spaceless plain
    → svc.std_decode plain ≡ some der
    → request_bytes svc (as_get (codes "/ocsp/" ++ text) r) ≡ some der
unfolding request_bytes decode_text
get_bytes svc r text plain der ne slash u sp d =
    rw (raw_text_lem r text ne slash, ne, u, plus_for_space-Spaceless plain sp, d) refl

module _ (store : Store) (svc : Services) (h : Handler) (r : Request) (path der : Str) where
  respond_alike :
      (o : Option Str) → respond svc h (as_get path r) o ≡ respond svc h (as_post der r) o
  unfolding respond
  respond_alike none = refl
  respond_alike (some out) = refl

  sign_alike :
      (serial : ℤ) (f : Found)
      → sign_status svc h (as_get path r) serial f ≡ sign_status svc h (as_post der r) serial f
  unfolding sign_status
  sign_alike serial storage_failed = refl
  sign_alike serial (found status at reason) = respond_alike _

  answer_alike :
      (s s' : store.State) (o : Option ℤ)
      → answer_serial store svc h (as_get path r) s s' o
        ≡ answer_serial store svc h (as_post der r) s s' o
  unfolding determine_status
  answer_alike s s' none = refl
  answer_alike s s' (some serial) = sign_alike serial _

-- A GET of /ocsp/ and a text that begins with no slash, unescapes to a text without spaces and is
-- the base64 of a request, is served exactly as a POST of that request.
pub get_serves_post :
    (store : Store) (svc : Services) (h : Handler) (r : Request) (s s' : store.State)
    (text plain der : Str)
    → is_empty text ≡ false
    → has_prefix text (codes "/") ≡ false
    → svc.path_unescape text ≡ some plain
    → Spaceless plain
    → svc.std_decode plain ≡ some der
    → serve store svc h (as_get (codes "/ocsp/" ++ text) r) s s'
      ≡ serve store svc h (as_post der r) s s'
unfolding serve
get_serves_post store svc h r s s' text plain der ne slash u sp d =
    rw (get_bytes svc r text plain der ne slash u sp d) (
      unfold request_bytes in
      answer_alike store svc h r (codes "/ocsp/" ++ text) der s s' (svc.parse_request der))
