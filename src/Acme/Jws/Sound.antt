-- ===== src/Acme/Jws/Sound.antt =====
-- pkg/protocols/acme/jws.go: what a message that DecodeAndVerifyJWS accepts is.
use go_certa.Prelude.{
  ◌||◌, Str, is_empty, false, Option, none, some, ◌≡◌, refl, subst, inl, inr, Bool-cases, ◌↔◌,
}
use go_certa.Acme.Jws.{JwsMessage, Services}
use go_certa.Acme.Jws.Checks.{Verifies, LeadsTo, check_signature-Verifies, resolve_key-LeadsTo}
use go_certa.Acme.Jws.Message.{
  ParsedJws, Failure, invalid_jws, Decoded, decoded, failed, KeyLookup, or_failure, then_with,
  signing_input, resolve_key, read_payload, check_signature, parsed, with_signature, with_key,
  with_payload, with_header, with_bytes, verify_message, decode_and_verify_jws,
}

-- The message, its header, its payload, its key and its signature, all of which are good.
pub record Authentic (svc : Services) (body : Str) (look : KeyLookup) (p : ParsedJws) : Type 0 where
  pub message : JwsMessage
  pub header_bytes : Str
  pub sig : Str
  pub opens : svc.unmarshal_message body ≡ some message
  pub complete : (is_empty message.protected_part || is_empty message.signature) ≡ false
  pub header_decodes : svc.decode message.protected_part ≡ some header_bytes
  pub header_parses : svc.unmarshal_header header_bytes ≡ some p.header
  pub payload_reads : read_payload svc message.payload ≡ some p.payload
  pub resolves : LeadsTo svc p.header look p.public_key
  pub signature_decodes : svc.decode message.signature ≡ some sig
  pub verifies :
      Verifies svc p.header.alg p.public_key
        (svc.sum (signing_input message.protected_part message.payload))
        sig

-- What it takes for a chain of checks to succeed.
then_with-decoded :
    {A B : Type 0} (d : Decoded A) (next : A → Decoded B) (b : B)
    → then_with d next ≡ decoded b
    → (a : A) × (d ≡ decoded a) × (next a ≡ decoded b)
then_with-decoded (decoded a) next b e = (a, refl, e)
then_with-decoded (failed f) next b e = cc

some_then :
    {A B : Type 0} (f : Failure) (o : Option A) (next : A → Decoded B) (b : B)
    → then_with (or_failure f o) next ≡ decoded b
    → (a : A) × (o ≡ some a) × (next a ≡ decoded b)
some_then f none next b e = cc
some_then f (some a) next b e = (a, refl, e)

decoded-inj : {A : Type 0} {a b : A} → decoded a ≡ decoded b → a ≡ b
decoded-inj e = cc e

whole :
    (svc : Services) (look : KeyLookup) (msg : JwsMessage) (p : ParsedJws)
    → verify_message svc look msg ≡ decoded p
    → ((is_empty msg.protected_part || is_empty msg.signature) ≡ false)
      × (then_with
            (or_failure invalid_jws (svc.decode msg.protected_part))
            (with_bytes svc look msg)
          ≡ decoded p)
whole svc look msg p e = elim (Bool-cases (is_empty msg.protected_part || is_empty msg.signature)) [
  | inl x ↦ cc (rw x at e)
  | inr x ↦ (x, rw x at e)
]

-- DecodeAndVerifyJWS accepts exactly the bodies of a message whose parts are all decoded, whose key
-- is the one of its header or the one looked up by its key id, and whose signature over the protected
-- header and the payload verifies under that key by the header's algorithm; and it returns the
-- header, the payload and the key.
pub decode_and_verify_exact :
    (svc : Services) (body : Str) (look : KeyLookup) (p : ParsedJws)
    → (decode_and_verify_jws svc body look ≡ decoded p) ↔ Authentic svc body look p
unfolding decode_and_verify_jws
decode_and_verify_exact svc body look p = (
  λ e.
      let (msg, opens, e1) = some_then invalid_jws _ (verify_message svc look) p e in
      let (complete, e2) = whole svc look msg p e1 in
      let (bytes, decodes, e3) = some_then invalid_jws _ (with_bytes svc look msg) p e2 in
      let (header, parses, e4) = some_then invalid_jws _ (with_header svc look msg) p e3 in
      let (payload, reads, e5) = some_then invalid_jws _ (with_payload svc look msg header) p e4 in
      let (key, resolves, e6) = then_with-decoded _ (with_key svc msg header payload) p e5 in
      let (sig, sig_decodes, e7) =
        some_then invalid_jws _ (with_signature svc msg header payload key) p e6 in
      let (t, verifies, e8) =
        then_with-decoded _ (λ u. decoded (parsed svc header payload key)) p e7 in
      let same : parsed svc header payload key ≡ p = decoded-inj e8 in
      subst (Authentic svc body look) same (record {
        message = msg;
        header_bytes = bytes;
        sig = sig;
        opens = opens;
        complete = complete;
        header_decodes = decodes;
        header_parses = parses;
        payload_reads = reads;
        resolves = (resolve_key-LeadsTo svc header look key).0 resolves;
        signature_decodes = sig_decodes;
        verifies =
            (check_signature-Verifies svc header.alg key
                (svc.sum (signing_input msg.protected_part msg.payload)) sig).0
              verifies;
      }),
  λ a.
      let resolves : resolve_key svc p.header look ≡ decoded p.public_key =
        (resolve_key-LeadsTo svc p.header look p.public_key).1 a.resolves in
      let verifies : check_signature svc p.header.alg p.public_key
            (svc.sum (signing_input a.message.protected_part a.message.payload)) a.sig
          ≡ decoded tt =
        (check_signature-Verifies svc p.header.alg p.public_key
            (svc.sum (signing_input a.message.protected_part a.message.payload)) a.sig).1
          a.verifies in
      rw
        (
          a.opens, a.complete, a.header_decodes, a.header_parses, a.payload_reads, resolves,
          a.signature_decodes, verifies,
        )
        refl,
)
