-- ===== src/Prelude/Strings.antt =====
-- Go strings as lists of their bytes, and what the code uses of the package strings. Letters and
-- white space are the ASCII ones.
use Prim.Native.Nat.{ℕ, ◌+◌}
use Prim.Native.Char.{code}
use Prim.Native.String.{String}
use mathlib.Core.Path.{◌≡◌, refl, sym, ap, ◌∙◌}
use mathlib.Core.Logic.{◌↔◌}
use mathlib.Core.Bool.{Bool, true, false, ◌&&◌, ◌||◌}
use mathlib.Core.List.{List, [], ◌∷◌, ◌++◌, map, reverse, reverse-append, reverse-reverse}
use native.Mathlib.Omega.{arith}
use go_certa.Prelude.Tests.{ltb, leb, ◌==◌, if◌then◌else◌}

abbrev pub Str : Type 0
Str = List ℕ

-- The bytes of an ASCII literal.
abbrev pub codes : String → Str
codes String.[] = []
codes (String.◌∷◌ c s) = code c ∷ codes s

unfoldable pub str_eq : Str → Str → Bool
str_eq [] [] = true
str_eq [] (y ∷ ys) = false
str_eq (x ∷ xs) [] = false
str_eq (x ∷ xs) (y ∷ ys) = x == y && str_eq xs ys

str_eq→eq : (a b : Str) → str_eq a b ≡ true → a ≡ b
unfolding str_eq
str_eq→eq [] [] h = refl
str_eq→eq [] (y ∷ ys) h = ground arith
str_eq→eq (x ∷ xs) [] h = ground arith
str_eq→eq (x ∷ xs) (y ∷ ys) h = ground (arith, str_eq→eq xs ys)

pub str_eq_refl : (a : Str) → str_eq a a ≡ true
unfolding str_eq
str_eq_refl [] = refl
str_eq_refl (x ∷ xs) = ground (arith, str_eq_refl xs)

pub str_eq_iff : (a b : Str) → (str_eq a b ≡ true) ↔ (a ≡ b)
str_eq_iff a b = (str_eq→eq a b, λ e. rw e (str_eq_refl b))

-- The order of Go's `<` on strings, byte by byte.
unfoldable pub str_lt : Str → Str → Bool
str_lt [] [] = false
str_lt [] (y ∷ ys) = true
str_lt (x ∷ xs) [] = false
str_lt (x ∷ xs) (y ∷ ys) = ltb x y || (x == y && str_lt xs ys)

unfoldable pub has_prefix : Str → Str → Bool
has_prefix s [] = true
has_prefix [] (p ∷ ps) = false
has_prefix (c ∷ s) (p ∷ ps) = c == p && has_prefix s ps

-- What is left behind a prefix of the same length.
unfoldable pub drop_prefix : Str → Str → Str
drop_prefix s [] = s
drop_prefix [] (p ∷ ps) = []
drop_prefix (c ∷ s) (p ∷ ps) = drop_prefix s ps

unfoldable pub trim_prefix : Str → Str → Str
unfolding has_prefix drop_prefix
trim_prefix s p = if has_prefix s p then drop_prefix s p else s

unfoldable pub has_suffix : Str → Str → Bool
unfolding has_prefix
has_suffix s p = has_prefix (reverse s) (reverse p)

unfoldable pub trim_suffix : Str → Str → Str
unfolding trim_prefix has_prefix drop_prefix
trim_suffix s p = reverse (trim_prefix (reverse s) (reverse p))

-- `strings.Contains` for a single byte.
unfoldable pub contains_byte : Str → ℕ → Bool
contains_byte [] b = false
contains_byte (c ∷ s) b = c == b || contains_byte s b

abbrev pub is_space : ℕ → Bool
is_space c = (leb 9 c && leb c 13) || c == 32

unfoldable pub trim_left : Str → Str
trim_left [] = []
trim_left (c ∷ s) = let rest = trim_left s in if is_space c then rest else c ∷ s

unfoldable pub trim_space : Str → Str
unfolding trim_left
trim_space s = reverse (trim_left (reverse (trim_left s)))

abbrev pub lower_byte : ℕ → ℕ
lower_byte c = if leb 65 c && leb c 90 then c + 32 else c

unfoldable pub to_lower : Str → Str
to_lower = map lower_byte

pub has_prefix-append : (p s : Str) → has_prefix (p ++ s) p ≡ true
unfolding has_prefix
has_prefix-append [] s = refl
has_prefix-append (c ∷ p) s = ground (arith, has_prefix-append p s)

pub drop_prefix-append : (p s : Str) → drop_prefix (p ++ s) p ≡ s
unfolding drop_prefix
drop_prefix-append [] s = refl
drop_prefix-append (c ∷ p) s = drop_prefix-append p s

-- Cutting a prefix off what was put behind it gives that back.
pub trim_prefix-append : (p s : Str) → trim_prefix (p ++ s) p ≡ s
unfolding trim_prefix
trim_prefix-append p s = rw (has_prefix-append p s) (drop_prefix-append p s)

has_prefix→eq : (s p : Str) → has_prefix s p ≡ true → s ≡ p ++ drop_prefix s p
unfolding has_prefix drop_prefix
has_prefix→eq s [] h = refl
has_prefix→eq [] (c ∷ p) h = ground arith
has_prefix→eq (d ∷ s) (c ∷ p) h = ground (arith, has_prefix→eq s p)

-- A text has a prefix exactly when it is the prefix with something behind it.
pub has_prefix_iff : (s p : Str) → (has_prefix s p ≡ true) ↔ ((r : Str) × (s ≡ p ++ r))
has_prefix_iff s p =
    (λ h. (drop_prefix s p, has_prefix→eq s p h), λ (r, e). rw e (has_prefix-append p r))

pub has_suffix_iff : (s p : Str) → (has_suffix s p ≡ true) ↔ ((r : Str) × (s ≡ r ++ p))
unfolding has_suffix
has_suffix_iff s p = (
  λ h.
      let (r, e) = (has_prefix_iff (reverse s) (reverse p)).0 h in
      (
        reverse r,
        sym (reverse-reverse s)
            ∙ ap reverse e
            ∙ reverse-append (reverse p) r
            ∙ ap (◌++◌ (reverse r)) (reverse-reverse p),
      ),
  λ (r, e).
      (has_prefix_iff (reverse s) (reverse p)).1 (reverse r, ap reverse e ∙ reverse-append r p),
)

pub trim_prefix_lem : (s p : Str) → has_prefix s p ≡ true → s ≡ p ++ trim_prefix s p
trim_prefix_lem s p h = unfold trim_prefix in rw h (has_prefix→eq s p h)
