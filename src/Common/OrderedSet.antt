-- ===== src/Common/OrderedSet.antt =====
-- `BTreeSet<u64>` as a strictly ascending list: the order in which the set iterates.
use Prim.Native.Nat.{ℕ, suc, ◌≤◌, ◌<◌}
use mathlib.Core.Path.{◌≡◌, refl}
use mathlib.Core.Bool.{Bool, true, false, not, ◌&&◌, ◌||◌}
use mathlib.Core.List.{List, [], ◌∷◌}
use native.Mathlib.Omega.{arith}
use rspm.Common.Tests.{◌==◌, ltb, if◌then◌else◌}
use rspm.Common.Lists.{length}

abbrev pub contains : ℕ → List ℕ → Bool
contains x [] = false
contains x (y ∷ ys) = x == y || contains x ys

unfoldable pub insert : ℕ → List ℕ → List ℕ
insert x [] = x ∷ []
insert x (y ∷ ys) =
    let rest = insert x ys in if x == y then y ∷ ys else (if ltb x y then x ∷ y ∷ ys else y ∷ rest)

-- Whether the value was there is `contains`; this is the set that is left.
unfoldable pub remove : ℕ → List ℕ → List ℕ
remove x [] = []
remove x (y ∷ ys) = let rest = remove x ys in if x == y then ys else y ∷ rest

-- Strictly ascending, from `lo` on.
abbrev pub Ascending : ℕ → List ℕ → Type 0
Ascending lo [] = Unit {0}
Ascending lo (x ∷ xs) = (lo ≤ x) × Ascending (suc x) xs

pub Ascending-mono : (lo hi : ℕ) (xs : List ℕ) → lo ≤ hi → Ascending hi xs → Ascending lo xs
Ascending-mono lo hi [] h a = tt
Ascending-mono lo hi (x ∷ xs) h a = (omega arith, a.1)

-- What lies under the first element is not in the set.
pub contains_below : (z lo : ℕ) (xs : List ℕ) → Ascending lo xs → z < lo → contains z xs ≡ false
contains_below z lo [] a h = refl
contains_below z lo (x ∷ xs) a h = ground (arith, contains_below z (suc x) xs a.1)

pub contains-insert : (z x : ℕ) (xs : List ℕ) → contains z (insert x xs) ≡ (z == x || contains z xs)
unfolding insert
contains-insert z x [] = refl
contains-insert z x (y ∷ ys) = ground (arith, contains-insert z x ys)

pub contains-remove :
    (z x lo : ℕ) (xs : List ℕ)
    → Ascending lo xs
    → contains z (remove x xs) ≡ (not (z == x) && contains z xs)
unfolding remove
contains-remove z x lo [] a = ground arith
contains-remove z x lo (y ∷ ys) a =
    ground (arith, contains-remove z x (suc y) ys a.1, contains_below y (suc y) ys a.1)

pub insert-Ascending :
    (x lo : ℕ) (xs : List ℕ) → lo ≤ x → Ascending lo xs → Ascending lo (insert x xs)
unfolding insert
insert-Ascending x lo [] h a = (h, tt)
insert-Ascending x lo (y ∷ ys) h a = ground (arith, insert-Ascending x (suc y) ys)

pub remove-Ascending : (x lo : ℕ) (xs : List ℕ) → Ascending lo xs → Ascending lo (remove x xs)
unfolding remove
remove-Ascending x lo [] a = tt
remove-Ascending x lo (y ∷ ys) a =
    ground (arith, remove-Ascending x (suc y) ys a.1, Ascending-mono lo (suc y) ys)

pub length-remove :
    (x : ℕ) (xs : List ℕ) → contains x xs ≡ true → suc (length (remove x xs)) ≡ length xs
unfolding remove
length-remove x [] h = ground arith
length-remove x (y ∷ ys) h = ground (arith, length-remove x ys)

pub length-remove-le : (x : ℕ) (xs : List ℕ) → length (remove x xs) ≤ length xs
unfolding remove
length-remove-le x [] = omega arith
length-remove-le x (y ∷ ys) = ground (arith, length-remove-le x ys)

pub length-insert :
    (x lo : ℕ) (xs : List ℕ)
    → Ascending lo xs
    → length (insert x xs) ≡ (if contains x xs then length xs else suc (length xs))
unfolding insert
length-insert x lo [] a = refl
length-insert x lo (y ∷ ys) a =
    ground (arith, length-insert x (suc y) ys a.1, contains_below x (suc y) ys a.1)
