-- ===== src/Base/Sorting.antt =====
-- Python's `sorted` on byte strings, as an insertion sort by the lexicographic order.
use Prim.Native.Nat.{compare, Ordering}
use mathlib.Core.Path.{◌≡◌, refl}
use mathlib.Core.Logic.{◌≢◌, inl, inr}
use mathlib.Core.Bool.{Bool, true, false}
use mathlib.Core.List.{List, [], ◌∷◌}
use kairos_deploy.Base.Tests.{if◌then◌else◌, Bool-cases}
use kairos_deploy.Base.Bytes.{Bytes}

bytes_le : Bytes → Bytes → Bool
bytes_le [] ys = true
bytes_le (x ∷ xs) [] = false
bytes_le (x ∷ xs) (y ∷ ys) = elim (compare x y) [
  | Ordering.lt ↦ true
  | Ordering.eq ↦ bytes_le xs ys
  | Ordering.gt ↦ false
]

insert_sorted : Bytes → List Bytes → List Bytes
insert_sorted x [] = x ∷ []
insert_sorted x (y ∷ ys) = if bytes_le x y then x ∷ y ∷ ys else y ∷ insert_sorted x ys

unfoldable pub sorted : List Bytes → List Bytes
unfolding bytes_le insert_sorted
sorted [] = []
sorted (x ∷ xs) = insert_sorted x (sorted xs)

insert_sorted-ne-nil : (x : Bytes) (ys : List Bytes) → insert_sorted x ys ≢ []
unfolding insert_sorted
insert_sorted-ne-nil x [] h = cc
insert_sorted-ne-nil x (y ∷ ys) h = elim (Bool-cases (bytes_le x y)) [
  | inl before ↦ let h1 = rw before at h in cc
  | inr after ↦ let h1 = rw after at h in cc
]

pub sorted-nil : (xs : List Bytes) → sorted xs ≡ [] → xs ≡ []
unfolding sorted
sorted-nil [] h = refl
sorted-nil (x ∷ xs) h = absurd (insert_sorted-ne-nil x (sorted xs) h)
