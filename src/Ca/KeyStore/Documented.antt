-- ===== src/Ca/KeyStore/Documented.antt =====
-- pkg/ca/key_store.go: what it relies on in the libraries and the file system.
use go_certa.Prelude.{
  ℕ, Str, codes, str_eq, contains_byte, has_prefix, is_empty, true, false, ◌||◌, some, ◌≡◌,
}
use go_certa.Ca.Hierarchy.{KeyLibrary}
use go_certa.Ca.KeyStore.{Files}

-- The documented behaviour of encoding/pem and crypto/x509: a block is decoded as it was encoded,
-- and a private key is parsed as it was marshalled.
pub record Decodes (lib : KeyLibrary) : Type 0 where
  pub pem_certificate :
      (bytes : Str)
      → lib.decode_pem (lib.encode_pem (codes "CERTIFICATE") bytes)
        ≡ some (codes "CERTIFICATE", bytes)
  pub pem_key :
      (bytes : Str)
      → lib.decode_pem (lib.encode_pem (codes "RSA PRIVATE KEY") bytes)
        ≡ some (codes "RSA PRIVATE KEY", bytes)
  pub pkcs1 : (key : lib.Key) → lib.parse_pkcs1 (lib.marshal_pkcs1 key) ≡ some key

-- That of os and filepath: a write that succeeds is what is read, and no write changes another
-- file; a file that is read exists; a directory that is there is left alone; files of one
-- directory with different names, plain ones, have different paths.
pub record Keeps (files : Files) : Type 0 where
  pub writes :
      (path content : Str) (mode : ℕ) (disk : files.Disk)
      → (files.write_file path content mode disk).0 ≡ true
      → files.read_file path (files.write_file path content mode disk).1 ≡ some content
  pub others :
      (path other content : Str) (mode : ℕ) (disk : files.Disk)
      → str_eq path other ≡ false
      → files.read_file other (files.write_file path content mode disk).1
        ≡ files.read_file other disk
  pub stats :
      (path content : Str) (disk : files.Disk)
      → files.read_file path disk ≡ some content
      → files.stat path disk ≡ true
  pub makes :
      (dir path : Str) (mode : ℕ) (disk : files.Disk)
      → files.read_file path (files.mkdir_all dir mode disk).1 ≡ files.read_file path disk
  pub joins :
      (dir a b : Str)
      → contains_byte a 47 || contains_byte b 47 ≡ false
      → is_empty a || is_empty b ≡ false
      → has_prefix a (codes ".") || has_prefix b (codes ".") ≡ false
      → str_eq a b ≡ false
      → str_eq (files.join dir a) (files.join dir b) ≡ false
