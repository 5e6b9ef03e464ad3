-- ===== src/Prelude/Maps.antt =====
-- Go maps with string keys, as association lists. A write replaces the entry of its key.
use mathlib.Core.Path.{◌≡◌, refl}
use mathlib.Core.Bool.{Bool}
use mathlib.Core.Option.{Option, none, some}
use mathlib.Core.List.{List, [], ◌∷◌}
use native.Mathlib.Omega.{arith}
use go_certa.Prelude.Tests.{if◌then◌else◌}
use go_certa.Prelude.Strings.{Str, str_eq, str_eq_iff, str_eq_refl}

abbrev pub Dict {ℓ} : Type ℓ → Type ℓ
Dict V = List (Str × V)

module _ {ℓ} {V : Type ℓ} where
  unfoldable pub lookup : Str → Dict V → Option V
  lookup k [] = none
  lookup k ((j, v) ∷ m) = if str_eq j k then some v else lookup k m

  unfoldable pub insert : Str → V → Dict V → Dict V
  insert k v [] = (k, v) ∷ []
  insert k v ((j, w) ∷ m) = if str_eq j k then (k, v) ∷ m else (j, w) ∷ insert k v m

  unfoldable pub remove : Str → Dict V → Dict V
  remove k [] = []
  remove k ((j, w) ∷ m) = let rest = remove k m in if str_eq j k then rest else (j, w) ∷ rest

  -- A `for range` that deletes the entries that fail the test.
  unfoldable pub keep_if : (V → Bool) → Dict V → Dict V
  keep_if p [] = []
  keep_if p ((j, w) ∷ m) = let rest = keep_if p m in if p w then (j, w) ∷ rest else rest

  abbrev pub values : Dict V → List V
  values [] = []
  values ((j, w) ∷ m) = w ∷ values m

  pub lookup-insert :
      (k j : Str) (v : V) (m : Dict V)
      → lookup j (insert k v m) ≡ (if str_eq k j then some v else lookup j m)
  unfolding lookup insert
  lookup-insert k j v [] = refl
  lookup-insert k j v ((i, w) ∷ m) =
      ground (arith, str_eq_iff k j, str_eq_iff i k, str_eq_iff i j, lookup-insert k j v m)

  pub lookup-insert_self : (k : Str) (v : V) (m : Dict V) → lookup k (insert k v m) ≡ some v
  lookup-insert_self k v m = simp (lookup-insert, str_eq_refl)

  pub lookup-remove :
      (k j : Str) (m : Dict V) → lookup j (remove k m) ≡ (if str_eq k j then none else lookup j m)
  unfolding lookup remove
  lookup-remove k j [] = ground arith
  lookup-remove k j ((i, w) ∷ m) =
      ground (arith, str_eq_iff k j, str_eq_iff i k, str_eq_iff i j, lookup-remove k j m)

pub ruleset dict_laws = (lookup-insert, lookup-remove)

module _ {ℓ} {V : Type ℓ} where
  -- No key stands twice.
  abbrev pub Distinct : Dict V → Type ℓ
  Distinct [] = Unit
  Distinct ((j, w) ∷ m) = (lookup j m ≡ none) × Distinct m

  pub insert-Distinct : (k : Str) (v : V) (m : Dict V) → Distinct m → Distinct (insert k v m)
  unfolding insert lookup
  insert-Distinct k v [] d = (refl, tt)
  insert-Distinct k v ((j, w) ∷ m) d =
      ground
        (arith, lookup-insert k j v m, str_eq_iff j k, str_eq_iff k j, insert-Distinct k v m d.1)

  pub remove-Distinct : (k : Str) (m : Dict V) → Distinct m → Distinct (remove k m)
  unfolding remove lookup
  remove-Distinct k [] d = tt
  remove-Distinct k ((j, w) ∷ m) d =
      ground (arith, lookup-remove k j m, str_eq_iff k j, remove-Distinct k m d.1)

  -- What passes a test.
  abbrev pub passing : (V → Bool) → Option V → Option V
  passing p none = none
  passing p (some v) = if p v then some v else none

  pub lookup-keep_if :
      (p : V → Bool) (k : Str) (m : Dict V)
      → Distinct m
      → lookup k (keep_if p m) ≡ passing p (lookup k m)
  unfolding keep_if lookup
  lookup-keep_if p k [] d = refl
  lookup-keep_if p k ((j, w) ∷ m) d =
      ground (arith, lookup-keep_if p k m d.1, str_eq_iff j k, lookup-keep_if p j m d.1)

  pub keep_if-Distinct : (p : V → Bool) (m : Dict V) → Distinct m → Distinct (keep_if p m)
  unfolding keep_if
  keep_if-Distinct p [] d = tt
  keep_if-Distinct p ((j, w) ∷ m) d =
      ground (arith, lookup-keep_if p j m d.1, keep_if-Distinct p m d.1)
