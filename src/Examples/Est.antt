-- ===== src/Examples/Est.antt =====
-- pkg/protocols/est on an empty storage, with a pool that answers the serial 9 at once.
use go_certa.Prelude.{codes, true, none, some, [], ◌∷◌, ◌≡◌, refl, arith, lookup, insert}
use go_certa.Http.{post}
use go_certa.Storage.{normalize_serial}
use go_certa.Storage.Contract.{Phase}
use go_certa.Storage.Memory.{MemoryStorage, new_memory_storage, reserve_serial}
use go_certa.Storage.Memory.Calls.{execute}
use go_certa.Storage.Memory.Invariant.{new-IsConsistent}
use go_certa.Storage.Memory.Implements.{memory_store}
use go_certa.Ca.Serial.{format_serial, generate_and_reserve_serial}
use go_certa.Est.{Parsed, Services, Handler, Request, reply_with, enroll}
use go_certa.Est.Enrolled.{enrolled_is_issued}

abbrev certificate : Parsed
certificate = record {
  serial = codes "9";
  subject = codes "CN=a";
  issuer = codes "CN=ca";
  not_before = 10;
  not_after = 90;
}

abbrev services : Services
services = record {
  pem_decode = λ t. none;
  pem_encode = λ t. t;
  base64_decode = λ t. some t;
  parse_certificate = λ t. some certificate;
}

abbrev handler : Handler
handler = record { cacerts_pem = codes "ca"; has_store = true }

abbrev request : Request
request = record {
  method = post;
  body = some (codes "csr");
  format = [];
  accept = [];
  draws = some (λ max. 0) ∷ some (λ max. 9) ∷ [];
  surroundings = record { checked = λ i. none; within = λ i. none; clock = λ i. i };
  unix_nano = 5;
  save_context = none;
  save_now = 6;
  res_chan = 1;
}

abbrev reserved : MemoryStorage
reserved =
    (generate_and_reserve_serial memory_store request.surroundings new_memory_storage
      request.draws).1

enrolled_is_issued_example :
    (memory_store.phase new_memory_storage (format_serial (some 9)) ≡ Phase.unused)
    × ((enroll memory_store services
          (λ q. some (some (codes "der")))
          handler
          request
          (codes "csr")
          new_memory_storage).0
        ≡ reply_with services request (codes "der"))
    × (memory_store.phase
          (enroll memory_store services
            (λ q. some (some (codes "der")))
            handler
            request
            (codes "csr")
            new_memory_storage).1
          (format_serial (some 9))
        ≡ Phase.issued)
unfolding generate_and_reserve_serial execute reserve_serial normalize_serial format_serial lookup
    insert
enrolled_is_issued_example =
    enrolled_is_issued memory_store services (λ q. some (some (codes "der"))) handler request
      (codes "csr") (codes "der") 9 certificate new_memory_storage reserved [] new-IsConsistent refl
      (omega arith) refl refl refl refl refl
