-- ===== src/Prelude/Bytes.antt =====
-- Numbers as bytes, the most significant byte first: encoding/binary's BigEndian.
use Prim.Native.Nat.{ℕ, zero, suc, ◌+◌, ◌*◌, ◌/◌, ◌%◌, ◌^◌, ◌<◌}
use mathlib.Core.Path.{◌≡◌, refl}
use mathlib.Core.Option.{Option, none, some}
use mathlib.Core.List.{List, [], ◌∷◌, ◌++◌}
use native.Mathlib.Omega.{arith}
use go_certa.Prelude.Strings.{Str}
use go_certa.Prelude.Lists.{length}

-- BigEndian.PutUint16 of a number below 2 ^ 16.
unfoldable pub put_uint16 : ℕ → Str
put_uint16 n = n / 256 % 256 ∷ n % 256 ∷ []

-- BigEndian.PutUint64 of a number below 2 ^ 64.
unfoldable pub put_uint64 : ℕ → Str
put_uint64 n =
    n / 2 ^ 56 % 256
    ∷ n / 2 ^ 48 % 256
    ∷ n / 2 ^ 40 % 256
    ∷ n / 2 ^ 32 % 256
    ∷ n / 2 ^ 24 % 256
    ∷ n / 2 ^ 16 % 256
    ∷ n / 2 ^ 8 % 256
    ∷ n % 256
    ∷ []

-- The number that two bytes stand for.
abbrev pub uint16 : ℕ → ℕ → ℕ
uint16 a b = a * 256 + b

pub uint16-put : (n : ℕ) → n < 2 ^ 16 → uint16 (n / 256 % 256) (n % 256) ≡ n
uint16-put n h = omega arith

abbrev pub uint64 : ℕ → ℕ → ℕ → ℕ → ℕ → ℕ → ℕ → ℕ → ℕ
uint64 a b c d e f g h =
    uint16 a b * 2 ^ 48 + uint16 c d * 2 ^ 32 + uint16 e f * 2 ^ 16 + uint16 g h

pub uint64-put :
    (n : ℕ)
    → n < 2 ^ 64
    → uint64
        (n / 2 ^ 56 % 256)
        (n / 2 ^ 48 % 256)
        (n / 2 ^ 40 % 256)
        (n / 2 ^ 32 % 256)
        (n / 2 ^ 24 % 256)
        (n / 2 ^ 16 % 256)
        (n / 2 ^ 8 % 256)
        (n % 256)
      ≡ n
uint64-put n h = omega arith

-- The first `n` elements and the rest, if there are so many.
unfoldable pub split_at {ℓ} : {A : Type ℓ} → ℕ → List A → Option (List A × List A)
split_at zero xs = some ([], xs)
split_at (suc n) [] = none
split_at (suc n) (x ∷ xs) = elim (split_at n xs) [ none ↦ none | some (a, b) ↦ some (x ∷ a, b) ]

pub split_at-append {ℓ} :
    {A : Type ℓ} (xs ys : List A) (n : ℕ) → length xs ≡ n → split_at n (xs ++ ys) ≡ some (xs, ys)
unfolding split_at
split_at-append [] ys zero h = refl
split_at-append [] ys (suc n) h = absurd (omega arith)
split_at-append (x ∷ xs) ys zero h = absurd (omega arith)
split_at-append (x ∷ xs) ys (suc n) h = rw (split_at-append xs ys n (omega arith)) refl
