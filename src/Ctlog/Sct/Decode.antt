-- ===== src/Ctlog/Sct/Decode.antt =====
-- The structure of RFC 6962 §3.2, read field by field, as a description of the binary form.
use mathlib.Core.List.{append-nil}
use go_certa.Prelude.{
  ℕ, ◌≤◌, ◌<◌, ◌^◌, Str, Option, none, some, [], ◌∷◌, ◌++◌, length, split_at, split_at-append,
  put_uint16, put_uint64, uint16, uint64, uint16-put, uint64-put, ◌≡◌, ◌⊎◌, refl, sym, ap, ◌∙◌,
  arith, Option-cases, inl, inr,
}
use go_certa.Ctlog.Sct.{SignedCertificateTimestamp, marshal_binary, sct_bytes}

-- A length in two bytes, and as many bytes behind it.
abbrev pub read_block : Str → Option (Str × Str)
read_block (a ∷ b ∷ s) = split_at (uint16 a b) s
read_block s = none

pub read_block-put :
    (block rest : Str)
    → length block < 2 ^ 16
    → read_block (put_uint16 (length block) ++ (block ++ rest)) ≡ some (block, rest)
unfolding put_uint16
read_block-put block rest h =
    rw (uint16-put (length block) h) (split_at-append block rest (length block) refl)

abbrev pub whole : Option (Str × Str) → Option Str
whole (some (s, [])) = some s
whole _ = none

abbrev read_signature : ℕ → Str → ℕ → Str → Str → Option SignedCertificateTimestamp
read_signature v id t ext (h ∷ g ∷ s) = elim (whole (read_block s)) [
  | none ↦ none
  | some sig ↦ some (record {
    version = v;
    log_id = id;
    timestamp = t;
    extensions = ext;
    hash_algo = h;
    sig_algo = g;
    signature = sig;
  })
]
read_signature v id t ext s = none

abbrev read_extensions : ℕ → Str → Str → Option SignedCertificateTimestamp
read_extensions v id (a ∷ b ∷ c ∷ d ∷ e ∷ f ∷ g ∷ h ∷ s) = elim (read_block s) [
  | none ↦ none
  | some (ext, rest) ↦ read_signature v id (uint64 a b c d e f g h) ext rest
]
read_extensions v id s = none

abbrev read_log : ℕ → Str → Option SignedCertificateTimestamp
read_log v s = elim (split_at 32 s) [ none ↦ none | some (id, rest) ↦ read_extensions v id rest ]

-- The whole structure, with nothing behind it.
abbrev pub unmarshal : Str → Option SignedCertificateTimestamp
unmarshal [] = none
unmarshal (v ∷ s) = read_log v s

-- What the types of the fields hold.
pub record IsTyped (sct : SignedCertificateTimestamp) : Type 0 where
  pub id_width : length sct.log_id ≡ 32
  pub timestamp_width : sct.timestamp < 2 ^ 64

module _ (sct : SignedCertificateTimestamp) where
  pub small :
      (out : Str)
      → marshal_binary sct ≡ some out
      → (length sct.extensions < 2 ^ 16) × (length sct.signature < 2 ^ 16) × (sct_bytes sct ≡ out)
  unfolding marshal_binary
  small out h = (ground arith, ground arith, ground arith)

  sct_bytes-unmarshal :
      IsTyped sct
      → length sct.extensions < 2 ^ 16
      → length sct.signature < 2 ^ 16
      → unmarshal (sct_bytes sct) ≡ some sct
  unfolding put_uint64
  sct_bytes-unmarshal t e s =
      rw
        (
          read_log,
          split_at-append sct.log_id _ 32 t.id_width,
          read_extensions,
          read_block-put sct.extensions _ e,
          read_signature,
          whole,
          last,
        )
        (ap (λ x. some (record sct { timestamp = x })) (uint64-put sct.timestamp t.timestamp_width))
    where
      last :
          read_block (put_uint16 (length sct.signature) ++ sct.signature) ≡ some (sct.signature, [])
      last =
          ap (λ x. read_block (put_uint16 (length sct.signature) ++ x))
            (sym (append-nil sct.signature))
          ∙ read_block-put sct.signature [] s

-- Extensions and signature whose lengths two bytes can hold.
abbrev pub Representable : SignedCertificateTimestamp → Type 0
Representable sct = (length sct.extensions ≤ 65535) × (length sct.signature ≤ 65535)

-- MarshalBinary writes an SCT whose extensions and signature have at most 65535 bytes each, and what
-- it writes reads back, field by field, as that SCT with nothing left over; it refuses every other
-- SCT. The log id has 32 bytes and the timestamp 64 bits.
pub marshal_exact :
    (sct : SignedCertificateTimestamp)
    → IsTyped sct
    → (Representable sct
        × ((out : Str) × (marshal_binary sct ≡ some out) × (unmarshal out ≡ some sct)))
      ⊎ ((¬ Representable sct) × (marshal_binary sct ≡ none))
unfolding marshal_binary
marshal_exact sct t = elim (Option-cases (marshal_binary sct)) [
  | inl refused ↦ inr ((λ (e, s). ground arith), refused)
  | inr (out, h) ↦
      let (e, s, same) = small sct out h in
      inl (
        (omega arith, omega arith),
        (out, h, ap unmarshal (sym same) ∙ sct_bytes-unmarshal sct t e s),
      )
]
