-- ===== src/Ctlog/SctList/Decode.antt =====
-- The list of RFC 6962 §3.3, read back out of its OCTET STRING.
use mathlib.Core.List.{append-nil}
use go_certa.Prelude.{
  ℕ, zero, suc, ◌+◌, ◌*◌, ◌≤◌, ◌<◌, ◌^◌, Str, Option, none, some, List, [], ◌∷◌, ◌++◌, length,
  length-append, split_at, split_at-append, put_uint16, uint16, ◌≡◌, ◌≢◌, ◌⊎◌, refl, sym, ap, ◌∙◌,
  arith, ltb, ◌==◌, false, Bool-cases, Option-cases, inl, inr, if◌then◌else◌, is_empty, All,
}
use go_certa.Ctlog.Sct.Decode.{read_block, read_block-put, whole}
use go_certa.Ctlog.SctList.{elements, der_length, octet_string, wrapped, serialize_sct_list}

abbrev pub exactly : ℕ → Str → Option Str
exactly n s = whole (split_at n s)

-- A length in DER, of up to three bytes, and a text of that length.
abbrev one_byte : Str → Option Str
one_byte (a ∷ s) = exactly a s
one_byte s = none

abbrev two_bytes : Str → Option Str
two_bytes (a ∷ b ∷ s) = exactly (uint16 a b) s
two_bytes s = none

abbrev three_bytes : Str → Option Str
three_bytes (a ∷ b ∷ c ∷ s) = exactly (a * 65536 + uint16 b c) s
three_bytes s = none

abbrev read_length : ℕ → Str → Option Str
read_length l s =
    if ltb l 128
    then exactly l s
    else if l == 0x81
    then one_byte s
    else if l == 0x82
    then two_bytes s
    else if l == 0x83
    then three_bytes s
    else none

abbrev pub read_octet_string : Str → Option Str
read_octet_string (t ∷ l ∷ s) = if t == 4 then read_length l s else none
read_octet_string s = none

-- The elements, until nothing is left; each takes two bytes at least.
pub read_elements : ℕ → Str → Option (List Str)
read_elements fuel [] = some []
read_elements zero (b ∷ s) = none
read_elements (suc fuel) (b ∷ s) = elim (read_block (b ∷ s)) [
  | none ↦ none
  | some (sct, rest) ↦ elim (read_elements fuel rest) [
    | none ↦ none
    | some scts ↦ some (sct ∷ scts)
  ]
]

abbrev read_list : Option (Str × Str) → Option (List Str)
read_list o = elim (whole o) [ none ↦ none | some s ↦ read_elements (length s) s ]

abbrev pub unmarshal_list : Str → Option (List Str)
unmarshal_list out = elim (read_octet_string out) [
  | none ↦ none
  | some s ↦ read_list (read_block s)
]

exactly_lem : (s : Str) (n : ℕ) → length s ≡ n → exactly n s ≡ some s
exactly_lem s n h = ap whole (ap (split_at n) (sym (append-nil s)) ∙ split_at-append s [] n h)

octet_string-read : (s : Str) → length s < 2 ^ 24 → read_octet_string (octet_string s) ≡ some s
unfolding octet_string der_length put_uint16
octet_string-read s h = elim (Bool-cases (ltb (length s) 128)) [
  | inl a ↦ rw (a, a) (exactly_lem s (length s) refl)
  | inr a ↦ elim (Bool-cases (ltb (length s) 256)) [
    | inl b ↦ rw (a, b) (exactly_lem s (length s) refl)
    | inr b ↦ elim (Bool-cases (ltb (length s) 65536)) [
      | inl c ↦ rw (a, b, c) (exactly_lem s _ (ground arith))
      | inr c ↦ rw (a, b, c) (exactly_lem s _ (ground arith))
    ]
  ]
]

-- Not empty, and with a length of two bytes.
abbrev pub Fits : Str → Type 0
Fits sct = (is_empty sct ≡ false) × (length sct ≤ 65535)

-- What an SCT takes in the list.
abbrev pub total : List Str → ℕ
total [] = 0
total (sct ∷ scts) = 2 + length sct + total scts

elements_cons :
    (sct : Str) (scts : List Str) (s : Str)
    → elements (sct ∷ scts) ≡ some s
    → (rest : Str) × (elements scts ≡ some rest)
      × Fits sct
      × (s ≡ put_uint16 (length sct) ++ (sct ++ rest))
unfolding elements
elements_cons sct scts s e = elim (Option-cases (elements scts)) [
  | inl f ↦ absurd (ground (arith, e, f))
  | inr (rest, f) ↦ (rest, f, (ground arith, ground arith), ground arith)
]

read_elements_step :
    (fuel : ℕ) (s sct rest : Str) (scts : List Str)
    → read_block s ≡ some (sct, rest)
    → read_elements fuel rest ≡ some scts
    → read_elements (suc fuel) s ≡ some (sct ∷ scts)
unfolding read_elements
read_elements_step fuel [] sct rest scts e f = cc
read_elements_step fuel (b ∷ s) sct rest scts e f = rw (read_elements, e, f) refl

length-put : (n : ℕ) (s : Str) → length (put_uint16 n ++ s) ≡ 2 + length s
unfolding put_uint16
length-put n s = omega arith

elements-read :
    (scts : List Str) (s : Str) (fuel : ℕ)
    → elements scts ≡ some s
    → length s ≤ fuel
    → read_elements fuel s ≡ some scts
elements-read [] s fuel e h =
    let empty : [] ≡ s = unfold elements in cc in
    ap (read_elements fuel) (sym empty) ∙ (unfold read_elements in refl)
elements-read (sct ∷ scts) s zero e h =
    let (rest, _, _, q) = elements_cons sct scts s e in
    absurd (omega (arith, ap length q, length-put (length sct) (sct ++ rest)))
elements-read (sct ∷ scts) s (suc fuel) e h =
    let (rest, f, fits, q) = elements_cons sct scts s e in
    let longer = ap length q ∙ length-put (length sct) (sct ++ rest) in
    read_elements_step fuel s sct rest scts
      (ap read_block q ∙ read_block-put sct rest (omega (arith, fits.1)))
      (elements-read scts rest fuel f (omega (arith, longer, length-append sct rest)))

elements-Fits :
    (scts : List Str) (s : Str) → elements scts ≡ some s → All Fits scts × (length s ≡ total scts)
elements-Fits [] s e = (tt, unfold elements in ground arith)
elements-Fits (sct ∷ scts) s e =
    let (rest, f, fits, q) = elements_cons sct scts s e in
    let (all_fit, n) = elements-Fits scts rest f in
    let longer = ap length q ∙ length-put (length sct) (sct ++ rest) in
    ((fits, all_fit), omega (arith, longer, n, length-append sct rest))

elements-total : (scts : List Str) → All Fits scts → (s : Str) × (elements scts ≡ some s)
unfolding elements
elements-total [] f = ([], refl)
elements-total (sct ∷ scts) f =
    let (rest, e) = elements-total scts f.1 in
    (put_uint16 (length sct) ++ (sct ++ rest), ground (arith, e, f.0))

-- The list is written, and reads back.
written :
    (scts : List Str) (s : Str)
    → scts ≢ []
    → elements scts ≡ some s
    → length s ≤ 65535
    → (out : Str) × (serialize_sct_list scts ≡ some out) × (unmarshal_list out ≡ some scts)
unfolding serialize_sct_list
written [] s ne e h = absurd (ne refl)
written (sct ∷ scts) s ne e h =
    let inner = put_uint16 (length s) ++ s in
    let fits : ltb 65535 (length s) ≡ false = ground arith in
    let block =
      ap (λ x. read_block (put_uint16 (length s) ++ x)) (sym (append-nil s))
      ∙ read_block-put s [] (omega arith) in
    (
      octet_string inner,
      rw (e, wrapped, fits) refl,
      rw
          (
            unmarshal_list,
            octet_string-read inner (omega (arith, length-put (length s) s)),
            read_list,
            whole,
            block,
          )
          (elements-read (sct ∷ scts) s (length s) e (omega arith)),
    )

inverted :
    (scts : List Str) (out : Str)
    → serialize_sct_list scts ≡ some out
    → (scts ≢ []) × ((s : Str) × (elements scts ≡ some s) × (length s ≤ 65535))
unfolding serialize_sct_list
inverted [] out h = cc
inverted (sct ∷ scts) out h = elim (Option-cases (elements (sct ∷ scts))) [
  | inl e ↦ cc (rw e at h)
  | inr (s, e) ↦ ((λ q. cc), (s, e, ground (arith, rw (e, wrapped) at h)))
]

pub serialize_ne :
    (scts : List Str) (out : Str) → serialize_sct_list scts ≡ some out → is_empty out ≡ false
unfolding serialize_sct_list octet_string
serialize_ne [] out h = cc
serialize_ne (sct ∷ scts) out h = elim (Option-cases (elements (sct ∷ scts))) [
  | inl e ↦ cc (rw e at h)
  | inr (s, e) ↦ ground (arith, rw (e, wrapped) at h)
]

pub serialize-unmarshal :
    (scts : List Str) (out : Str)
    → serialize_sct_list scts ≡ some out
    → unmarshal_list out ≡ some scts
serialize-unmarshal scts out h =
    let (ne, (s, e, n)) = inverted scts out h in
    let (out', h', r) = written scts s ne e n in
    let same : out' ≡ out = cc in ap unmarshal_list (sym same) ∙ r

-- A list that is not empty, of SCTs that fit, which fit together.
abbrev pub Writable : List Str → Type 0
Writable scts = (scts ≢ []) × All Fits scts × (total scts ≤ 65535)

inverted-Writable :
    (scts : List Str) (out : Str) → serialize_sct_list scts ≡ some out → Writable scts
inverted-Writable scts out h =
    let (ne, (s, e, n)) = inverted scts out h in
    let (f, t) = elements-Fits scts s e in (ne, f, omega (arith, t))

Writable-serialize :
    (scts : List Str) → Writable scts → (out : Str) × (serialize_sct_list scts ≡ some out)
Writable-serialize scts (ne, f, n) =
    let (s, e) = elements-total scts f in
    let (out, h, _) = written scts s ne e (omega (arith, (elements-Fits scts s e).1)) in (out, h)

-- SerializeSCTList writes a list that is not empty, whose SCTs have between 1 and 65535 bytes each and
-- take, with two bytes for each length, at most 65535 together, and what it writes reads back as
-- the same SCTs in their order, with nothing left over; it refuses every other list.
pub serialize_exact :
    (scts : List Str)
    → (Writable scts
        × ((out : Str) × (serialize_sct_list scts ≡ some out) × (unmarshal_list out ≡ some scts)))
      ⊎ ((¬ Writable scts) × (serialize_sct_list scts ≡ none))
serialize_exact scts = elim (Option-cases (serialize_sct_list scts)) [
  | inl refused ↦ inr ((λ w. let (out, h) = Writable-serialize scts w in cc), refused)
  | inr (out, h) ↦ inl (inverted-Writable scts out h, (out, h, serialize-unmarshal scts out h))
]
