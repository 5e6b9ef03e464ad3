-- ===== src/Storage/Memory/Listing.antt =====
-- pkg/storage/memory.go: ListRevoked and its order.
use mathlib.Core.List.{Perm}
use mathlib.Core.List.Perm
use go_certa.Prelude.{
  Str, str_lt, values, true, false, none, ◌≡◌, refl, List, [], ◌∷◌, arith, All, Bool-cases, inl,
  inr,
}
use go_certa.Storage.{RevocationRecord, ok}
use go_certa.Storage.Memory.{
  MemoryStorage, list_revoked, revoked_before, insert_sorted, sort_revoked,
}

insert_sorted-perm :
    (r : RevocationRecord) (xs : List RevocationRecord) → Perm (insert_sorted r xs) (r ∷ xs)
unfolding insert_sorted
insert_sorted-perm r [] = Perm.refl _
insert_sorted-perm r (x ∷ xs) = elim (Bool-cases (revoked_before x r)) [
  | inl e ↦ rw e (Perm.trans (Perm.cons x (insert_sorted-perm r xs)) (Perm.swap r x xs))
  | inr e ↦ rw e (Perm.refl _)
]

sort_revoked-perm : (rs : List RevocationRecord) → Perm (sort_revoked rs) rs
unfolding sort_revoked
sort_revoked-perm [] = Perm.refl _
sort_revoked-perm (r ∷ rs) =
    Perm.trans (insert_sorted-perm r (sort_revoked rs)) (Perm.cons r (sort_revoked-perm rs))

-- No later element comes before an earlier one.
abbrev Sorted : List RevocationRecord → Type 0
Sorted [] = Unit
Sorted (x ∷ xs) = All (λ y. revoked_before y x ≡ false) xs × Sorted xs

str_lt_asym : (a b : Str) → str_lt a b ≡ true → str_lt b a ≡ false
unfolding str_lt
str_lt_asym [] [] h = refl
str_lt_asym [] (y ∷ ys) h = refl
str_lt_asym (x ∷ xs) [] h = ground arith
str_lt_asym (x ∷ xs) (y ∷ ys) h = ground (arith, str_lt_asym xs ys)

-- The negated order is transitive.
str_lt_trans : (a b c : Str) → str_lt b a ≡ false → str_lt c b ≡ false → str_lt c a ≡ false
unfolding str_lt
str_lt_trans [] [] [] h k = refl
str_lt_trans [] [] (z ∷ zs) h k = ground arith
str_lt_trans [] (y ∷ ys) [] h k = ground arith
str_lt_trans [] (y ∷ ys) (z ∷ zs) h k = refl
str_lt_trans (x ∷ xs) [] c h k = ground arith
str_lt_trans (x ∷ xs) (y ∷ ys) [] h k = ground arith
str_lt_trans (x ∷ xs) (y ∷ ys) (z ∷ zs) h k = ground (arith, str_lt_trans xs ys zs)

revoked_before_asym :
    (a b : RevocationRecord) → revoked_before a b ≡ true → revoked_before b a ≡ false
unfolding revoked_before
revoked_before_asym a b h = ground (arith, str_lt_asym a.serial b.serial)

revoked_before_trans :
    (a b c : RevocationRecord)
    → revoked_before b a ≡ false
    → revoked_before c b ≡ false
    → revoked_before c a ≡ false
unfolding revoked_before
revoked_before_trans a b c h k = ground (arith, str_lt_trans a.serial b.serial c.serial)

-- Nothing in the list comes before `x`.
abbrev First : RevocationRecord → List RevocationRecord → Type 0
First x = All (λ y. revoked_before y x ≡ false)

First-mono :
    (a b : RevocationRecord) (xs : List RevocationRecord)
    → revoked_before b a ≡ false
    → First b xs
    → First a xs
First-mono a b [] h f = tt
First-mono a b (x ∷ xs) h f = (revoked_before_trans a b x h f.0, First-mono a b xs h f.1)

insert_sorted-First :
    (x r : RevocationRecord) (xs : List RevocationRecord)
    → revoked_before r x ≡ false
    → First x xs
    → First x (insert_sorted r xs)
unfolding insert_sorted
insert_sorted-First x r [] h f = (h, tt)
insert_sorted-First x r (y ∷ ys) h f = elim (Bool-cases (revoked_before y r)) [
  | inl e ↦ rw e (f.0, insert_sorted-First x r ys h f.1)
  | inr e ↦ rw e (h, f)
]

insert_sorted-Sorted :
    (r : RevocationRecord) (xs : List RevocationRecord) → Sorted xs → Sorted (insert_sorted r xs)
unfolding insert_sorted
insert_sorted-Sorted r [] s = (tt, tt)
insert_sorted-Sorted r (x ∷ xs) s = elim (Bool-cases (revoked_before x r)) [
  | inl e ↦
      rw e
        (insert_sorted-First x r xs (revoked_before_asym x r e) s.0, insert_sorted-Sorted r xs s.1)
  | inr e ↦ rw e ((e, First-mono r x xs e s.0), s)
]

sort_revoked-Sorted : (rs : List RevocationRecord) → Sorted (sort_revoked rs)
unfolding sort_revoked
sort_revoked-Sorted [] = tt
sort_revoked-Sorted (r ∷ rs) = insert_sorted-Sorted r _ (sort_revoked-Sorted rs)

-- With a live context ListRevoked changes nothing and returns the recorded revocations, each as
-- often as it is recorded, with none before an earlier one in the order by time and serial.
list_revoked-Sorted :
    (m : MemoryStorage)
    → (rs : List RevocationRecord) × (list_revoked none m ≡ (ok rs, m))
      × Perm rs (values m.revocations)
      × Sorted rs
unfolding list_revoked
list_revoked-Sorted m = (
  sort_revoked (values m.revocations),
  refl,
  sort_revoked-perm _,
  sort_revoked-Sorted (values m.revocations),
)
