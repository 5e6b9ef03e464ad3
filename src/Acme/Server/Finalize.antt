-- ===== src/Acme/Server/Finalize.antt =====
-- pkg/protocols/acme/server.go: handleFinalizeOrder.
use go_certa.Prelude.{
  ℕ, ◌+◌, ◌*◌, pos, Str, codes, str_eq, lookup, insert, false, Option, none, some, List, [], ◌∷◌,
  ◌++◌, if◌then◌else◌, is_empty,
}
use go_certa.Ca.Types as Ca
use go_certa.Ca.Types.{hour}
use go_certa.Ca.Serial.{RandInt, generate_and_reserve_serial, format_serial, Reserved, reserved}
use go_certa.Ca.Profile.{default_server_tls_profile}
use go_certa.Ca.Authority.{sign_certificate_with_profile, no_extensions}
use go_certa.Storage.{CertificateRecord}
use go_certa.Storage.Contract.{Store, saves}
use go_certa.Acme.Types.{
  malformed, order_not_ready, server_internal, Identifier, valid, Order, ParsedJws, Request, Reply,
  method_not_allowed, order_view, Server,
}
use go_certa.Acme.Server.{Environment, is_post, write_problem, with_jws}
use go_certa.Acme.Server.Handlers.{url, all_valid}

-- The values of the identifiers of type dns.
unfoldable pub dns_names_of : List Identifier → List Str
dns_names_of [] = []
dns_names_of (i ∷ is) =
    let rest = dns_names_of is in if str_eq i.kind (codes "dns") then i.value ∷ rest else rest

-- The URL alphabet first, then the standard one.
abbrev decode_csr : Environment → Str → Option Str
decode_csr env csr = elim (env.base64_url csr) [ none ↦ env.base64_std csr | some der ↦ some der ]

-- The field, unless it is empty.
abbrev read_csr : Environment → Str → Option Str
read_csr env payload = elim (env.finalize_payload payload) [
  | none ↦ none
  | some csr ↦ if is_empty csr then none else some csr
]

abbrev certificate_record : Environment → Request → ℕ → Str → CertificateRecord
certificate_record env r serial der = record {
  serial = format_serial (some serial);
  subject = [];
  issuer = [];
  not_before = r.now;
  not_after = r.now + 30 * 24 * hour;
  raw_der = der;
  pem = env.pem der;
  revoked = false;
}

abbrev pub sign : Environment → Request → Str → Order → ℕ → Ca.Result Str
sign env r der order serial =
    sign_certificate_with_profile env.library env.authority (pos r.now) der (some (pos serial))
      default_server_tls_profile no_extensions (pos (30 * 24 * hour))
      (dns_names_of order.identifiers) []

module _ {store : Store} (env : Environment) (r : Request) where
  -- The storage's answer to the certificate is dropped.
  unfoldable pub conclude : Str → Order → ℕ → Str → Server store → Reply × Server store
  conclude order_id order serial der s =
      let cert_id = r.id_text 0 in
      let order' : Order = record order {
        status = valid;
        certificate_url = url env (codes "/acme/cert/") cert_id;
      } in
      (
        order_view order' 200,
        record s {
          certificates = insert cert_id (env.pem der ++ env.pem env.intermediate) s.certificates;
          orders = insert order_id order' s.orders;
          storage =
              (store.execute r.save_context r.now
                (saves (some (certificate_record env r serial der))) s.storage).1;
        },
      )

  -- Draws that run out, which stand for a wait, are answered like a failure.
  unfoldable pub with_serial :
      Str
      → Order
      → Str
      → Reserved × store.State × List RandInt
      → Server store
      → Reply × Server store
  unfolding conclude
  with_serial order_id order der (reserved serial, t, _) s = elim (sign env r der order serial) [
    | Ca.ok cert ↦ conclude order_id order serial cert (record s { storage = t })
    | Ca.err _ ↦ write_problem 3 r server_internal 500 (record s { storage = t })
  ]
  with_serial order_id order der (_, t, _) s =
      write_problem 3 r server_internal 500 (record s { storage = t })

  unfoldable pub issue : Str → Order → ParsedJws → Server store → Reply × Server store
  unfolding with_serial
  issue order_id order jws s = elim (read_csr env jws.payload) [
    | none ↦ write_problem 3 r malformed 400 s
    | some csr ↦ elim (decode_csr env csr) [
      | none ↦ write_problem 3 r malformed 400 s
      | some der ↦
          with_serial order_id order der
            (generate_and_reserve_serial store r.surroundings s.storage r.draws) s
    ]
  ]

  unfoldable pub finalize : Str → ParsedJws → Server store → Reply × Server store
  unfolding issue
  finalize order_id jws s = elim (lookup order_id s.orders) [
    | none ↦ write_problem 3 r malformed 404 s
    | some order ↦
        if all_valid env r s order.authorizations
        then issue order_id order jws s
        else write_problem 3 r order_not_ready 403 s
  ]

  unfoldable pub handle_finalize_order : Str → Server store → Reply × Server store
  unfolding finalize
  handle_finalize_order order_id s =
      if is_post r.method then with_jws env r (finalize order_id) s else (method_not_allowed, s)
