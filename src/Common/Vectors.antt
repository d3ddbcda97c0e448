-- ===== src/Common/Vectors.antt =====
-- A `Vec` as a list: indexing and the removal that puts the last element in the gap.
use Prim.Native.Nat.{ℕ, zero, suc}
use mathlib.Core.Path.{◌≡◌, refl, ap}
use mathlib.Core.Option.{Option, none, some}
use mathlib.Core.List.{List, [], ◌∷◌, ◌++◌}
use rspm.Common.Lists.{length, All}

module _ {A : Type 0} where
  abbrev pub get_elem? : List A → ℕ → Option A
  get_elem? [] i = none
  get_elem? (x ∷ xs) zero = some x
  get_elem? (x ∷ xs) (suc i) = get_elem? xs i

  -- The last of `x ∷ xs`, and all but the last.
  abbrev pub last_of : A → List A → A
  last_of x [] = x
  last_of x (y ∷ ys) = last_of y ys

  abbrev pub init_of : A → List A → List A
  init_of x [] = []
  init_of x (y ∷ ys) = x ∷ init_of y ys

  -- The last element in front.
  abbrev pub rotate_last : List A → List A
  rotate_last [] = []
  rotate_last (x ∷ xs) = last_of x xs ∷ init_of x xs

  -- `Vec::swap_remove` of an index within the vector.
  unfoldable pub swap_remove : ℕ → List A → List A
  swap_remove i [] = []
  swap_remove zero (x ∷ xs) = rotate_last xs
  swap_remove (suc i) (x ∷ xs) = x ∷ swap_remove i xs

length-init : {A : Type 0} (x : A) (xs : List A) → length (init_of x xs) ≡ length xs
length-init x [] = refl
length-init x (y ∷ ys) = ap suc (length-init y ys)

pub length-rotate : {A : Type 0} (xs : List A) → length (rotate_last xs) ≡ length xs
length-rotate [] = refl
length-rotate (x ∷ xs) = ap suc (length-init x xs)

pub get_elem?-append :
    {A : Type 0} (kept : List A) (x : A) (rest : List A)
    → get_elem? (kept ++ x ∷ rest) (length kept) ≡ some x
get_elem?-append [] x rest = refl
get_elem?-append (k ∷ kept) x rest = get_elem?-append kept x rest

pub get_elem?-end : {A : Type 0} (kept : List A) → get_elem? kept (length kept) ≡ none
get_elem?-end [] = refl
get_elem?-end (k ∷ kept) = get_elem?-end kept

pub swap_remove-append :
    {A : Type 0} (kept : List A) (x : A) (rest : List A)
    → swap_remove (length kept) (kept ++ x ∷ rest) ≡ kept ++ rotate_last rest
unfolding swap_remove
swap_remove-append [] x rest = refl
swap_remove-append (k ∷ kept) x rest = ap (λ t. k ∷ t) (swap_remove-append kept x rest)

pub All-append {ℓ} :
    {A : Type 0} (P : A → Type ℓ) (xs : List A) (x : A) → All P xs → P x → All P (xs ++ x ∷ [])
All-append P [] x h p = (p, tt)
All-append P (y ∷ ys) x (q, h) p = (q, All-append P ys x h p)
