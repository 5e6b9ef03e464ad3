-- ===== src/Examples/Ctlog.antt =====
-- pkg/ctlog on one SCT, with a base64 that changes nothing and a log that answers that SCT.
use go_certa.Prelude.{Str, codes, none, some, List, [], ◌∷◌, zeroes, ◌≡◌, ◌⊎◌, refl, arith}
use go_certa.Ctlog.Sct.{SignedCertificateTimestamp, marshal_binary}
use go_certa.Ctlog.Sct.Decode.{IsTyped, Representable, unmarshal, marshal_exact}
use go_certa.Ctlog.SctList.{serialize_sct_list}
use go_certa.Ctlog.SctList.Decode.{Writable, unmarshal_list, serialize_exact}
use go_certa.Ctlog.Client.{CtSubmitter, Services}
use go_certa.Ctlog.Client.Packed.{response_of}

abbrev sct : SignedCertificateTimestamp
sct = record {
  version = 0;
  log_id = zeroes 32;
  timestamp = 1700;
  extensions = [];
  hash_algo = 4;
  sig_algo = 3;
  signature = 7 ∷ 8 ∷ [];
}

sct-IsTyped : IsTyped sct
unfolding zeroes
sct-IsTyped = record { id_width = refl; timestamp_width = omega arith }

marshal_exact_example :
    (Representable sct
      × ((out : Str) × (marshal_binary sct ≡ some out) × (unmarshal out ≡ some sct)))
    ⊎ ((¬ Representable sct) × (marshal_binary sct ≡ none))
marshal_exact_example = marshal_exact sct sct-IsTyped

abbrev scts : List Str
scts = codes "one" ∷ codes "another" ∷ []

serialize_exact_example :
    (Writable scts
      × ((out : Str) × (serialize_sct_list scts ≡ some out) × (unmarshal_list out ≡ some scts)))
    ⊎ ((¬ Writable scts) × (serialize_sct_list scts ≡ none))
serialize_exact_example = serialize_exact scts

-- The response in two parts, since the log's answer names the decoder.
abbrev encoding : Services
encoding = record {
  base64_encode = λ s. s;
  base64_decode = λ s. some s;
  decode_response = λ s. none;
  exchange = λ url chain. none;
}

abbrev services : Services
services = record encoding {
  decode_response = λ s. some (response_of encoding sct);
  exchange = λ url chain. some (200, codes "json");
}

abbrev submitter : CtSubmitter
submitter = record { url = codes "https://log"; services = services }
