-- ===== src/Ctlog/Sct.antt =====
-- pkg/ctlog/models.go: SignedCertificateTimestamp and its binary form.
pub mod Decode
use go_certa.Prelude.{
  ℕ, Str, Option, none, some, ◌∷◌, ◌++◌, length, ltb, if◌then◌else◌, put_uint16, put_uint64,
}

-- The log id has 32 bytes.
pub record SignedCertificateTimestamp : Type 0 where
  pub version : ℕ
  pub log_id : Str
  pub timestamp : ℕ
  pub extensions : Str
  pub hash_algo : ℕ
  pub sig_algo : ℕ
  pub signature : Str

abbrev pub sct_bytes : SignedCertificateTimestamp → Str
sct_bytes sct =
    sct.version
    ∷ (sct.log_id
        ++ (put_uint64 sct.timestamp
            ++ (put_uint16 (length sct.extensions)
                ++ (sct.extensions
                    ++ (sct.hash_algo
                        ∷ sct.sig_algo
                        ∷ (put_uint16 (length sct.signature) ++ sct.signature))))))

unfoldable pub marshal_binary : SignedCertificateTimestamp → Option Str
unfolding put_uint64 put_uint16
marshal_binary sct =
    if ltb 65535 (length sct.extensions)
    then none
    else if ltb 65535 (length sct.signature)
    then none
    else some (sct_bytes sct)
