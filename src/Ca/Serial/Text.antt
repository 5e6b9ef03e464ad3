-- ===== src/Ca/Serial/Text.antt =====
-- pkg/ca/serial.go: FormatSerial, ParseSerial and the hexadecimal digits between them.
use mathlib.Core.List.{reverse-cons, append_assoc, append-nil}
use go_certa.Prelude.{
  ℕ, zero, suc, ◌+◌, ◌*◌, ◌/◌, ◌%◌, ◌<◌, ◌≤◌, Str, to_lower, lower_byte, true, false, some, [], ◌∷◌,
  ◌++◌, ◌==◌, is_empty, reverse, All, ◌≡◌, refl, sym, ap, ◌∙◌, arith, Bool-cases, inl, inr,
}
use go_certa.Storage.{normalize_serial}
use go_certa.Storage.Normal.{is_hex, Hex, Blank, IsMark, All-reverse, normalize_serial_spellings}
use go_certa.Ca.Serial.{
  digit_char, digit_value, hex_digits, text_16, format_serial, read_digits, set_string_16,
  parse_serial, parsed, positive,
}

digit_value-char : (d : ℕ) → d < 16 → digit_value (digit_char d) ≡ some d
digit_value-char d h = ground arith

read_digit :
    (acc d : ℕ) (s : Str)
    → d < 16
    → read_digits acc (digit_char d ∷ s) ≡ read_digits (acc * 16 + d) s
unfolding read_digits
read_digit acc d s h = rw (digit_value-char d h, read_digits)

-- Reading the digits of a number gives the number.
read-hex_digits :
    (f n : ℕ) (rest : Str)
    → n ≤ f
    → read_digits 0 (reverse (hex_digits f n) ++ rest) ≡ read_digits n rest
unfolding hex_digits
read-hex_digits zero n rest h = let e : n ≡ 0 = omega arith in rw e
read-hex_digits (suc f) n rest h = elim (Bool-cases (n == 0)) [
  | inl e ↦ let z : n ≡ 0 = ground arith in rw z
  | inr e ↦
      let lt : n / 16 ≤ f = ground arith in
      let whole : n / 16 * 16 + n % 16 ≡ n = omega arith in
      rw e (
        ap (λ t. read_digits 0 (t ++ rest))
          (reverse-cons (digit_char (n % 16)) (hex_digits f (n / 16)))
        ∙ ap (read_digits 0)
            (append_assoc (reverse (hex_digits f (n / 16))) (digit_char (n % 16) ∷ []) rest)
        ∙ read-hex_digits f (n / 16) (digit_char (n % 16) ∷ rest) lt
        ∙ read_digit (n / 16) (n % 16) rest (omega arith)
        ∙ ap (λ t. read_digits t rest) whole)
]

-- A digit that FormatSerial writes.
abbrev Printed : ℕ → Type 0
Printed c = (is_hex c ≡ true) × (lower_byte c ≡ c)

digit_char-Printed : (d : ℕ) → d < 16 → Printed (digit_char d)
digit_char-Printed d h = (ground arith, ground arith)

hex_digits-Printed : (f n : ℕ) → All Printed (hex_digits f n)
unfolding hex_digits
hex_digits-Printed zero n = tt
hex_digits-Printed (suc f) n = elim (Bool-cases (n == 0)) [
  | inl e ↦ rw e tt
  | inr e ↦ rw e (digit_char-Printed (n % 16) (omega arith), hex_digits-Printed f (n / 16))
]

text_16-Printed : (n : ℕ) → All Printed (text_16 n)
unfolding text_16
text_16-Printed n = elim (Bool-cases (n == 0)) [
  | inl e ↦ rw e ((refl, refl), tt)
  | inr e ↦ rw e (All-reverse Printed (hex_digits n n) (hex_digits-Printed n n))
]

Printed-Hex : (s : Str) → All Printed s → Hex s
Printed-Hex [] h = tt
Printed-Hex (c ∷ s) h = (h.0.0, Printed-Hex s h.1)

to_lower-Printed : (s : Str) → All Printed s → to_lower s ≡ s
unfolding to_lower
to_lower-Printed [] h = refl
to_lower-Printed (c ∷ s) h = cc (h.0.1, to_lower-Printed s h.1)

pub format_serial_lem : (n : ℕ) → format_serial (some n) ≡ text_16 n
format_serial_lem n = unfold format_serial in to_lower-Printed (text_16 n) (text_16-Printed n)

read-text : (n : ℕ) → 0 < n → read_digits 0 (text_16 n) ≡ some n
unfolding text_16
read-text n h =
    let e : (n == 0) ≡ false = ground arith in
    rw e (
      ap (read_digits 0) (sym (append-nil (reverse (hex_digits n n))))
      ∙ read-hex_digits n n [] (omega arith)
      ∙ unfold read_digits in refl)

-- A text of digits has no sign.
read-positive :
    (s : Str) (n : ℕ)
    → All Printed s
    → read_digits 0 s ≡ some n
    → 0 < n
    → (is_empty s ≡ false) × (positive (set_string_16 s) ≡ parsed n)
unfolding set_string_16
read-positive [] n d e h =
    let zero_read : some 0 ≡ some n = unfold read_digits in e in absurd (ground arith)
read-positive (c ∷ s) zero d e h = absurd (omega arith)
read-positive (c ∷ s) (suc n) d e h =
    let minus : (c == b'-') ≡ false = ground (arith, d.0.0) in
    let plus : (c == b'+') ≡ false = ground (arith, d.0.0) in (refl, rw (minus, plus) (rw e))

-- What FormatSerial writes is its own normal form.
pub normalize-format : (n : ℕ) → normalize_serial (format_serial (some n)) ≡ format_serial (some n)
normalize-format n = rw (format_serial_lem n) (
    ap normalize_serial (sym (append-nil (text_16 n)))
    ∙ normalize_serial_spellings [] [] (text_16 n) [] tt (inl refl)
        (Printed-Hex (text_16 n) (text_16-Printed n)) tt
    ∙ to_lower-Printed (text_16 n) (text_16-Printed n))

pub format_ne : (n : ℕ) → 0 < n → is_empty (format_serial (some n)) ≡ false
format_ne n h =
    rw (format_serial_lem n) (read-positive (text_16 n) n (text_16-Printed n) (read-text n h) h).0

-- ParseSerial reads back what FormatSerial writes of a positive number, also behind a mark 0x or 0X
-- and between white space.
pub parse-format :
    (n : ℕ) (pre p post : Str)
    → 0 < n
    → Blank pre
    → IsMark p
    → Blank post
    → parse_serial (pre ++ ((p ++ format_serial (some n)) ++ post)) ≡ parsed n
unfolding parse_serial
parse-format n pre p post h bp mark bq =
    let read = read-positive (text_16 n) n (text_16-Printed n) (read-text n h) h in
    rw (format_serial_lem n) (
      rw
        (
          normalize_serial_spellings pre p (text_16 n) post bp mark
              (Printed-Hex _ (text_16-Printed n)) bq,
          to_lower-Printed (text_16 n) (text_16-Printed n),
          read.0,
        )
        read.1)
