-- ===== src/Examples/Disk.antt =====
-- A file system that is an association list, and a small library of keys and certificates, for the
-- examples of pkg/ca/key_store.go and cmd/certa-server.
use go_certa.Prelude.{
  ℕ, zero, suc, pos, Str, codes, str_eq, Dict, lookup, insert, lookup-insert, lookup-insert_self,
  true, false, Option, none, some, is_some, [], ◌∷◌, ◌++◌, ◌≡◌, refl, ap, ◌∙◌, arith,
}
use go_certa.Ca.Types.{rsa}
use go_certa.Ca.Authority.{Library}
use go_certa.Ca.Hierarchy.{KeyLibrary}
use go_certa.Ca.KeyStore.{Files}
use go_certa.Ca.KeyStore.Documented.{Decodes, Keeps}

abbrev pub base : Library
base = record {
  parse_certificate_request = λ der. none;
  check_signature = λ csr. false;
  on_curve = λ curve x y. false;
  key_bits = λ k. some (codes "key");
  sha1 = λ s. codes "hash";
  create_certificate = λ cert k. none;
}

-- A block: its type with each byte one up, a zero, its bytes.
unfoldable pub encode : Str → Str → Str
encode [] bytes = 0 ∷ bytes
encode (c ∷ kind) bytes = suc c ∷ encode kind bytes

abbrev pub longer : ℕ → Option (Str × Str) → Option (Str × Str)
longer c none = none
longer c (some (kind, bytes)) = some (c ∷ kind, bytes)

unfoldable pub decode : Str → Option (Str × Str)
decode [] = none
decode (zero ∷ bytes) = some ([], bytes)
decode (suc c ∷ rest) = longer c (decode rest)

decode-encode : (kind bytes : Str) → decode (encode kind bytes) ≡ some (kind, bytes)
unfolding encode decode
decode-encode [] bytes = refl
decode-encode (c ∷ kind) bytes = ap (longer c) (decode-encode kind bytes)

abbrev pub first_byte : Str → Option ℕ
first_byte [] = none
first_byte (k ∷ rest) = some k

-- A key is a number, a certificate its bytes.
abbrev pub toy_keys : KeyLibrary
toy_keys = record {
  base = base;
  Key = ℕ;
  Certificate = Str;
  public_key = λ k. rsa k (pos 65537);
  subject_key_id = λ cert. cert;
  pkix_name = λ organization common_name. common_name;
  add_years = λ years t. t;
  create_self_signed = λ cert public key. some (key ∷ cert.subject);
  create_certificate = λ cert parent public key. some (key ∷ cert.subject);
  parse_certificate = λ der. some der;
  marshal_pkcs1 = λ key. key ∷ [];
  parse_pkcs1 = first_byte;
  parse_pkcs8 = λ der. none;
  encode_pem = encode;
  decode_pem = decode;
}

pub toy_keys-Decodes : Decodes toy_keys
toy_keys-Decodes = record {
  pem_certificate = decode-encode (codes "CERTIFICATE");
  pem_key = decode-encode (codes "RSA PRIVATE KEY");
  pkcs1 = λ key. refl;
}

str_eq-join : (dir a b : Str) → str_eq (dir ++ a) (dir ++ b) ≡ str_eq a b
unfolding str_eq
str_eq-join [] a b = refl
str_eq-join (c ∷ dir) a b = ground (arith, str_eq-join dir a b)

abbrev pub toy_files : Files
toy_files = record {
  Disk = Dict Str;
  join = λ dir name. dir ++ (codes "/" ++ name);
  mkdir_all = λ dir mode disk. (true, disk);
  stat = λ path disk. is_some (lookup path disk);
  read_file = λ path disk. lookup path disk;
  write_file = λ path content mode disk. (true, insert path content disk);
}

pub toy_files-Keeps : Keeps toy_files
unfolding str_eq
toy_files-Keeps = record {
  writes = λ path content mode disk e. lookup-insert_self path content disk;
  others = λ path other content mode disk e. lookup-insert path other content disk ∙ rw e refl;
  stats = λ path content disk e. rw e refl;
  makes = λ dir path mode disk. refl;
  joins = λ dir a b p q d e. str_eq-join dir (codes "/" ++ a) (codes "/" ++ b) ∙ rw e refl;
}
