-- ===== src/Storage/Normal.antt =====
-- pkg/storage/storage.go: NormalizeSerial and the spellings of a serial.
use mathlib.Core.List.{reverse-append, reverse-reverse}
use go_certa.Prelude.{
  ℕ, Str, codes, trim_space, trim_left, trim_prefix, to_lower, is_space, All, All-append,
  trim_prefix-append, Bool, true, false, ◌&&◌, ◌||◌, leb, ◌≡◌, refl, ap, ◌⊎◌, inl, inr, [], ◌∷◌,
  ◌++◌, reverse, arith,
}
use go_certa.Storage.{normalize_serial}

-- A hexadecimal digit in either case.
abbrev pub is_hex : ℕ → Bool
is_hex c = (leb 48 c && leb c 57) || (leb 65 c && leb c 70) || (leb 97 c && leb c 102)

abbrev pub Hex : Str → Type 0
Hex = All (λ c. is_hex c ≡ true)

abbrev pub Blank : Str → Type 0
Blank = All (λ c. is_space c ≡ true)

abbrev Solid : Str → Type 0
Solid = All (λ c. is_space c ≡ false)

-- The prefixes that are cut off.
abbrev pub IsMark : Str → Type 0
IsMark p = (p ≡ []) ⊎ (p ≡ codes "0x") ⊎ (p ≡ codes "0X")

trim_left-Blank : (pre s : Str) → Blank pre → trim_left (pre ++ s) ≡ trim_left s
unfolding trim_left
trim_left-Blank [] s b = refl
trim_left-Blank (c ∷ pre) s b = ground (arith, trim_left-Blank pre s b.1)

trim_left-Solid : (s : Str) → Solid s → trim_left s ≡ s
unfolding trim_left
trim_left-Solid [] b = refl
trim_left-Solid (c ∷ s) b = rw b.0

trim_left_head : (c : ℕ) (s : Str) → is_space c ≡ false → trim_left (c ∷ s) ≡ c ∷ s
unfolding trim_left
trim_left_head c s e = rw e

pub All-reverse : (P : ℕ → Type 0) (s : Str) → All P s → All P (reverse s)
All-reverse P [] h = tt
All-reverse P (c ∷ s) h =
    rw (reverse-append (c ∷ []) s)
      (All-append P (reverse s) (c ∷ []) (All-reverse P s h.1) (h.0, tt))

trim_left-all : (s : Str) → Blank s → trim_left s ≡ []
unfolding trim_left
trim_left-all [] b = refl
trim_left-all (c ∷ s) b = rw b.0 (trim_left-all s b.1)

-- Trimming the end, as TrimSpace does it: on the reversed text.
trim_end : (s post : Str) → Solid s → Blank post → reverse (trim_left (reverse (s ++ post))) ≡ s
trim_end s post ss bq =
    rw
      (
        reverse-append s post,
        trim_left-Blank (reverse post) (reverse s) (All-reverse _ post bq),
        trim_left-Solid (reverse s) (All-reverse _ s ss),
      )
      (reverse-reverse s)

trim_left-append :
    (s post : Str)
    → Solid s
    → Blank post
    → reverse (trim_left (reverse (trim_left (s ++ post)))) ≡ s
trim_left-append [] post ss bq = rw (trim_left-all post bq) (trim_end [] [] tt tt)
trim_left-append (c ∷ s) post ss bq =
    rw (trim_left_head c (s ++ post) ss.0) (trim_end (c ∷ s) post ss bq)

trim_space-Solid :
    (pre s post : Str) → Blank pre → Solid s → Blank post → trim_space (pre ++ (s ++ post)) ≡ s
trim_space-Solid pre s post bp ss bq =
    unfold trim_space in rw (trim_left-Blank pre (s ++ post) bp) (trim_left-append s post ss bq)

Hex-Solid : (h : Str) → Hex h → Solid h
Hex-Solid [] x = tt
Hex-Solid (c ∷ h) x = (ground arith, Hex-Solid h x.1)

Mark-Solid : (p : Str) → IsMark p → Solid p
Mark-Solid p (inl e) = rw e tt
Mark-Solid p (inr (inl e)) = rw e (refl, (refl, tt))
Mark-Solid p (inr (inr e)) = rw e (refl, (refl, tt))

-- `0x` and `0X` are no prefixes of digits.
Hex-unmarked : (h : Str) (x : ℕ) → Hex h → is_hex x ≡ false → trim_prefix h (48 ∷ x ∷ []) ≡ h
unfolding trim_prefix
Hex-unmarked [] x d e = refl
Hex-unmarked (c ∷ []) x d e = ground arith
Hex-unmarked (c ∷ b ∷ h) x d e = ground (arith, d.1.0)

capital_mark : (h : Str) → trim_prefix (codes "0X" ++ h) (codes "0x") ≡ codes "0X" ++ h
unfolding trim_prefix
capital_mark h = refl

cut_marks :
    (p h : Str)
    → IsMark p
    → Hex h
    → trim_prefix (trim_prefix (p ++ h) (codes "0x")) (codes "0X") ≡ h
cut_marks p h (inl e) d = rw (e, Hex-unmarked h b'x' d refl) (Hex-unmarked h b'X' d refl)
cut_marks p h (inr (inl e)) d =
    rw (e, trim_prefix-append (codes "0x") h) (Hex-unmarked h b'X' d refl)
cut_marks p h (inr (inr e)) d = rw (e, capital_mark h) (trim_prefix-append (codes "0X") h)

-- A hexadecimal number has one normal form, its digits in lower case, whatever the case of its
-- digits, with a mark 0x or 0X or none, and with white space before and behind it.
pub normalize_serial_spellings :
    (pre p h post : Str)
    → Blank pre
    → IsMark p
    → Hex h
    → Blank post
    → normalize_serial (pre ++ ((p ++ h) ++ post)) ≡ to_lower h
normalize_serial_spellings pre p h post bp mark hex bq =
    unfold normalize_serial in
    ap to_lower (
      rw
        (trim_space-Solid pre (p ++ h) post bp
          (All-append _ p h (Mark-Solid p mark) (Hex-Solid h hex)) bq)
        (cut_marks p h mark hex))
