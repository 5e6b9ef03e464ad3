-- ===== src/Ca/Serial.antt =====
-- pkg/ca/serial.go: random serials, their hexadecimal text, and their reservation. A big.Int is a
-- natural number, or an integer where the code looks at its sign. What rand.Int returns, call by
-- call, is a list: a number that depends on the bound it is called with, or none for a failed
-- read. The storage argument is not nil.
pub mod Text
pub mod Draw
use go_certa.Prelude.{
  ℕ, zero, suc, ◌+◌, ◌-◌, ◌*◌, ◌/◌, ◌%◌, ◌^◌, ℤ, pos, negsuc, Str, codes, to_lower, ◌||◌, ◌&&◌,
  Option, none, some, List, [], ◌∷◌, ltb, leb, ◌==◌, if◌then◌else◌, is_empty, reverse,
}
use go_certa.Storage.{Context, Error, already_exists, Result, ok, err, normalize_serial}
use go_certa.Storage.Contract.{Store, reserves}

abbrev pub min_serial_bits : ℕ
min_serial_bits = 64

abbrev pub max_serial_bits : ℕ
max_serial_bits = 159

abbrev pub default_serial_bits : ℕ
default_serial_bits = 128

abbrev pub max_reservation_retries : ℕ
max_reservation_retries = 5

-- `starved` stands for a call that is still waiting: the list has no further number.
pub data Generated : Type 0 where
  serial : ℕ → Generated
  invalid_serial_bits no_entropy starved : Generated

-- A call of rand.Int: its number, given `max`.
abbrev pub RandInt : Type 0
RandInt = Option (ℕ → ℕ)

-- The loop of GenerateSerialWithBits.
draw : ℕ → List RandInt → Generated × List RandInt
draw max [] = (starved, [])
draw max (none ∷ rest) = (no_entropy, rest)
draw max (some rand_int ∷ rest) =
    let again = draw max rest in if rand_int max == 0 then again else (serial (rand_int max), rest)

unfoldable pub generate_serial_with_bits : ℕ → List RandInt → Generated × List RandInt
unfolding draw
generate_serial_with_bits bits draws =
    if ltb bits min_serial_bits || ltb max_serial_bits bits
    then (invalid_serial_bits, draws)
    else draw (2 ^ bits) draws

unfoldable pub generate_serial : List RandInt → Generated × List RandInt
unfolding generate_serial_with_bits
generate_serial = generate_serial_with_bits default_serial_bits

-- The digits of a number to the base 16, the least one first; a number is fuel enough for itself.
abbrev pub digit_char : ℕ → ℕ
digit_char d = if leb d 9 then 48 + d else 87 + d

unfoldable pub hex_digits : ℕ → ℕ → Str
hex_digits zero n = []
hex_digits (suc f) n =
    let rest = hex_digits f (n / 16) in if n == 0 then [] else digit_char (n % 16) ∷ rest

-- big.Int.Text(16) of a number that is not negative.
unfoldable pub text_16 : ℕ → Str
unfolding hex_digits
text_16 n = if n == 0 then codes "0" else reverse (hex_digits n n)

unfoldable pub format_serial : Option ℕ → Str
unfolding text_16 to_lower
format_serial none = []
format_serial (some n) = to_lower (text_16 n)

-- The value of a digit in either case.
abbrev pub digit_value : ℕ → Option ℕ
digit_value c =
    if leb 48 c && leb c 57
    then some (c - 48)
    else if leb 97 c && leb c 102
    then some (c - 87)
    else if leb 65 c && leb c 70
    then some (c - 55)
    else none

unfoldable pub read_digits : ℕ → Str → Option ℕ
read_digits acc [] = some acc
read_digits acc (c ∷ s) = elim (digit_value c) [
  | none ↦ none
  | some d ↦ read_digits (acc * 16 + d) s
]

unfoldable pub read_number : Str → Option ℕ
unfolding read_digits
read_number [] = none
read_number (c ∷ s) = read_digits 0 (c ∷ s)

abbrev negated : Option ℕ → Option ℤ
negated none = none
negated (some zero) = some (pos 0)
negated (some (suc n)) = some (negsuc n)

abbrev unsigned : Option ℕ → Option ℤ
unsigned none = none
unsigned (some n) = some (pos n)

-- big.Int.SetString(s, 16): an optional sign, then one digit or more.
unfoldable pub set_string_16 : Str → Option ℤ
unfolding read_number
set_string_16 [] = none
set_string_16 (c ∷ s) =
    if c == b'-'
    then negated (read_number s)
    else if c == b'+'
    then unsigned (read_number s)
    else unsigned (read_number (c ∷ s))

pub data ParseError : Type 0 where
  empty_serial invalid_hexadecimal not_positive : ParseError

pub data Parsed : Type 0 where
  parsed : ℕ → Parsed
  refused : ParseError → Parsed

abbrev positive : Option ℤ → Parsed
positive none = refused invalid_hexadecimal
positive (some (pos zero)) = refused not_positive
positive (some (pos (suc n))) = parsed (suc n)
positive (some (negsuc n)) = refused not_positive

unfoldable pub parse_serial : Str → Parsed
unfolding set_string_16
parse_serial hex_str =
    let cleaned = normalize_serial hex_str in
    if is_empty cleaned then refused empty_serial else positive (set_string_16 cleaned)

pub data Reserved : Type 0 where
  reserved : ℕ → Reserved
  serial_exhaustion : Reserved
  not_generated : Generated → Reserved
  cancelled : Error → Reserved
  failed_reserving : Error → Reserved

-- What the outside does during the attempts: the context at the loop's check and at the storage's,
-- and the clock.
pub record Surroundings : Type 0 where
  pub checked : ℕ → Context
  pub within : ℕ → Context
  pub clock : ℕ → ℕ

module _ (store : Store) (w : Surroundings) where
  -- What the answer of the storage makes of an attempt; `again` is the next attempt.
  abbrev settle :
      ℕ
      → Result (Unit {0}) × store.State
      → List RandInt
      → (store.State → Reserved × store.State × List RandInt)
      → Reserved × store.State × List RandInt
  settle v (ok _, s) draws again = (reserved v, s, draws)
  settle v (err already_exists, s) draws again = again s
  settle v (err e, s) draws again = (failed_reserving e, s, draws)

  -- An attempt, the `i`th, with what GenerateSerialWithBits returned.
  proceed :
      ℕ
      → Generated × List RandInt
      → store.State
      → (store.State → List RandInt → Reserved × store.State × List RandInt)
      → Reserved × store.State × List RandInt
  unfolding format_serial
  proceed i (serial v, rest) s again =
      settle v (store.execute (w.within i) (w.clock i) (reserves (format_serial (some v))) s) rest
        (λ s'. again s' rest)
  proceed i (g, rest) s again = (not_generated g, s, rest)

  -- The attempts that are left, after `i` attempts.
  attempts : ℕ → ℕ → ℕ → store.State → List RandInt → Reserved × store.State × List RandInt
  unfolding proceed generate_serial_with_bits
  attempts bits zero i s draws = (serial_exhaustion, s, draws)
  attempts bits (suc left) i s draws =
      let again = attempts bits left (suc i) in
      elim (w.checked i) [
        | some e ↦ (cancelled (Error.context e), s, draws)
        | none ↦ proceed i (generate_serial_with_bits bits draws) s again
      ]

  unfoldable pub generate_and_reserve_serial_with_bits :
      ℕ → store.State → List RandInt → Reserved × store.State × List RandInt
  unfolding attempts
  generate_and_reserve_serial_with_bits bits s draws =
      attempts bits max_reservation_retries 0 s draws

  unfoldable pub generate_and_reserve_serial :
      store.State → List RandInt → Reserved × store.State × List RandInt
  unfolding generate_and_reserve_serial_with_bits
  generate_and_reserve_serial = generate_and_reserve_serial_with_bits default_serial_bits
