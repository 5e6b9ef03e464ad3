-- ===== src/Ctlog/SctList.antt =====
-- pkg/ctlog/precert.go: SerializeSCTList, and what it takes from encoding/asn1.
pub mod Decode
use go_certa.Prelude.{
  ℕ, ◌/◌, ◌%◌, Str, ◌||◌, Option, none, some, List, [], ◌∷◌, ◌++◌, length, is_empty, ltb,
  if◌then◌else◌, put_uint16,
}

-- The loop over the SCTs: none, if one is empty or too long.
unfoldable pub elements : List Str → Option Str
elements [] = some []
elements (sct ∷ scts) =
    let rest = elements scts in
    if is_empty sct || ltb 65535 (length sct)
    then none
    else elim rest [ none ↦ none | some s ↦ some (put_uint16 (length sct) ++ (sct ++ s)) ]

-- asn1.Marshal of a []byte of less than 2 ^ 24 bytes: an OCTET STRING with its length in DER.
unfoldable pub der_length : ℕ → Str
der_length n =
    if ltb n 128
    then n ∷ []
    else if ltb n 256
    then 0x81 ∷ n ∷ []
    else if ltb n 65536
    then 0x82 ∷ put_uint16 n
    else 0x83 ∷ n / 65536 % 256 ∷ put_uint16 (n % 65536)

unfoldable pub octet_string : Str → Str
unfolding der_length
octet_string s = 4 ∷ (der_length (length s) ++ s)

abbrev wrapped : Str → Option Str
wrapped s = if ltb 65535 (length s) then none else some (octet_string (put_uint16 (length s) ++ s))

unfoldable pub serialize_sct_list : List Str → Option Str
unfolding elements octet_string put_uint16
serialize_sct_list scts =
    if is_empty scts then none else elim (elements scts) [ none ↦ none | some s ↦ wrapped s ]
