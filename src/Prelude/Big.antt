-- ===== src/Prelude/Big.antt =====
-- Natural numbers as byte strings of the length they need: Bytes and SetBytes of math/big.
use Prim.Native.Nat.{ℕ, zero, suc, ◌+◌, ◌*◌, ◌/◌, ◌%◌, ◌^◌, ◌<◌, ◌≤◌}
use mathlib.Core.Path.{◌≡◌, refl, ap, ◌∙◌}
use mathlib.Core.Logic.{inl, inr}
use mathlib.Core.List.{[], ◌∷◌, ◌++◌, reverse, reverse-cons}
use native.Mathlib.Omega.{arith}
use go_certa.Prelude.Tests.{◌==◌, if◌then◌else◌, Bool-cases}
use go_certa.Prelude.Strings.{Str}
use go_certa.Prelude.Lists.{length, length-append}

-- The bytes, the least first; a number is fuel enough for itself.
unfoldable pub byte_digits : ℕ → ℕ → Str
byte_digits zero n = []
byte_digits (suc f) n = let rest = byte_digits f (n / 256) in if n == 0 then [] else n % 256 ∷ rest

-- big.Int.Bytes
unfoldable pub big_bytes : ℕ → Str
unfolding byte_digits
big_bytes n = reverse (byte_digits n n)

unfoldable pub set_from : ℕ → Str → ℕ
set_from acc [] = acc
set_from acc (c ∷ s) = set_from (acc * 256 + c) s

-- big.Int.SetBytes
unfoldable pub set_bytes : Str → ℕ
unfolding set_from
set_bytes s = set_from 0 s

unfoldable pub zeroes : ℕ → Str
zeroes zero = []
zeroes (suc n) = 0 ∷ zeroes n

set_from-append : (acc : ℕ) (s t : Str) → set_from acc (s ++ t) ≡ set_from (set_from acc s) t
unfolding set_from
set_from-append acc [] t = refl
set_from-append acc (c ∷ s) t = set_from-append (acc * 256 + c) s t

set_from-digits : (f n : ℕ) → n ≤ f → set_from 0 (reverse (byte_digits f n)) ≡ n
unfolding byte_digits set_from
set_from-digits zero n h = omega arith
set_from-digits (suc f) n h = elim (Bool-cases (n == 0)) [
  | inl e ↦ let z : n ≡ 0 = ground arith in rw z refl
  | inr e ↦
      let lt : n / 256 ≤ f = ground arith in
      let whole : n / 256 * 256 + n % 256 ≡ n = omega arith in
      rw e (
        ap (set_from 0) (reverse-cons (n % 256) (byte_digits f (n / 256)))
        ∙ set_from-append 0 (reverse (byte_digits f (n / 256))) (n % 256 ∷ [])
        ∙ ap (λ t. t * 256 + n % 256) (set_from-digits f (n / 256) lt)
        ∙ whole)
]

-- SetBytes reads back what Bytes writes, also behind zeroes.
pub set_bytes-big_bytes : (n : ℕ) → set_bytes (big_bytes n) ≡ n
unfolding set_bytes big_bytes
set_bytes-big_bytes n = set_from-digits n n (omega arith)

pub set_bytes-zeroes : (k : ℕ) (s : Str) → set_bytes (zeroes k ++ s) ≡ set_bytes s
unfolding set_bytes set_from zeroes
set_bytes-zeroes zero s = refl
set_bytes-zeroes (suc k) s = set_bytes-zeroes k s

pub length-zeroes : (k : ℕ) → length (zeroes k) ≡ k
unfolding zeroes
length-zeroes zero = refl
length-zeroes (suc k) = ap suc (length-zeroes k)

pub length-reverse : (s : Str) → length (reverse s) ≡ length s
length-reverse [] = refl
length-reverse (c ∷ s) =
    rw (reverse-cons c s, length-append (reverse s) (c ∷ []), length-reverse s) (omega arith)

digits_width : (f n k : ℕ) → n < 256 ^ k → length (byte_digits f n) ≤ k
unfolding byte_digits
digits_width zero n k h = omega arith
digits_width (suc f) n zero h = let z : n ≡ 0 = omega arith in rw z (omega arith)
digits_width (suc f) n (suc k) h = elim (Bool-cases (n == 0)) [
  | inl e ↦ rw e (omega arith)
  | inr e ↦
      let small : n / 256 < 256 ^ k = omega (arith, h) in
      rw e (omega (arith, digits_width f (n / 256) k small))
]

-- A number below 256 ^ k has at most k bytes.
pub big_bytes_width : (n k : ℕ) → n < 256 ^ k → length (big_bytes n) ≤ k
unfolding big_bytes
big_bytes_width n k h = rw (length-reverse (byte_digits n n)) (digits_width n n k h)
