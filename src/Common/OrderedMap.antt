-- ===== src/Common/OrderedMap.antt =====
-- `BTreeMap<u64, V>` as a list of entries with strictly ascending keys.
use Prim.Native.Nat.{ℕ, suc, ◌≤◌, ◌<◌}
use mathlib.Core.Path.{◌≡◌, refl}
use mathlib.Core.Bool.{true, false}
use mathlib.Core.Option.{Option, none, some}
use mathlib.Core.List.{List, [], ◌∷◌}
use native.Mathlib.Omega.{arith}
use rspm.Common.Tests.{◌==◌, ltb, if◌then◌else◌, is_some}
use rspm.Common.Lists.{length}

module _ {V : Type 0} where
  unfoldable pub lookup : ℕ → List (ℕ × V) → Option V
  lookup k [] = none
  lookup k ((j, v) ∷ m) = if k == j then some v else lookup k m

  unfoldable pub insert : ℕ → V → List (ℕ × V) → List (ℕ × V)
  insert k v [] = (k, v) ∷ []
  insert k v ((j, w) ∷ m) =
      let rest = insert k v m in
      if k == j then (k, v) ∷ m else (if ltb k j then (k, v) ∷ (j, w) ∷ m else (j, w) ∷ rest)

  unfoldable pub remove : ℕ → List (ℕ × V) → List (ℕ × V)
  remove k [] = []
  remove k ((j, w) ∷ m) = let rest = remove k m in if k == j then m else (j, w) ∷ rest

  abbrev pub Keyed : ℕ → List (ℕ × V) → Type 0
  Keyed lo [] = Unit {0}
  Keyed lo ((k, v) ∷ m) = (lo ≤ k) × Keyed (suc k) m

  pub Keyed-mono : (lo hi : ℕ) (m : List (ℕ × V)) → lo ≤ hi → Keyed hi m → Keyed lo m
  Keyed-mono lo hi [] h a = tt
  Keyed-mono lo hi ((k, v) ∷ m) h a = (omega arith, a.1)

  pub lookup_below : (k lo : ℕ) (m : List (ℕ × V)) → Keyed lo m → k < lo → lookup k m ≡ none
  unfolding lookup
  lookup_below k lo [] a h = refl
  lookup_below k lo ((j, v) ∷ m) a h = ground (arith, lookup_below k (suc j) m a.1)

  pub lookup-insert :
      (j k : ℕ) (v : V) (m : List (ℕ × V))
      → lookup j (insert k v m) ≡ (if j == k then some v else lookup j m)
  unfolding lookup insert
  lookup-insert j k v [] = refl
  lookup-insert j k v ((i, w) ∷ m) = ground (arith, lookup-insert j k v m)

  pub lookup-remove :
      (j k lo : ℕ) (m : List (ℕ × V))
      → Keyed lo m
      → lookup j (remove k m) ≡ (if j == k then none else lookup j m)
  unfolding lookup remove
  lookup-remove j k lo [] a = ground arith
  lookup-remove j k lo ((i, w) ∷ m) a =
      ground (arith, lookup-remove j k (suc i) m a.1, lookup_below i (suc i) m a.1)

  pub insert-Keyed :
      (k lo : ℕ) (v : V) (m : List (ℕ × V)) → lo ≤ k → Keyed lo m → Keyed lo (insert k v m)
  unfolding insert
  insert-Keyed k lo v [] h a = (h, tt)
  insert-Keyed k lo v ((j, w) ∷ m) h a = ground (arith, insert-Keyed k (suc j) v m)

  pub remove-Keyed : (k lo : ℕ) (m : List (ℕ × V)) → Keyed lo m → Keyed lo (remove k m)
  unfolding remove
  remove-Keyed k lo [] a = tt
  remove-Keyed k lo ((j, w) ∷ m) a =
      ground (arith, remove-Keyed k (suc j) m a.1, Keyed-mono lo (suc j) m)

  pub length-insert :
      (k lo : ℕ) (v : V) (m : List (ℕ × V))
      → Keyed lo m
      → length (insert k v m) ≡ (if is_some (lookup k m) then length m else suc (length m))
  unfolding lookup insert
  length-insert k lo v [] a = refl
  length-insert k lo v ((j, w) ∷ m) a =
      ground (arith, length-insert k (suc j) v m a.1, lookup_below k (suc j) m a.1)

  pub length-remove :
      (k : ℕ) (m : List (ℕ × V))
      → is_some (lookup k m) ≡ true
      → suc (length (remove k m)) ≡ length m
  unfolding lookup remove
  length-remove k [] h = ground arith
  length-remove k ((j, w) ∷ m) h = ground (arith, length-remove k m)

  pub remove_absent : (k : ℕ) (m : List (ℕ × V)) → is_some (lookup k m) ≡ false → remove k m ≡ m
  unfolding lookup remove
  remove_absent k [] h = refl
  remove_absent k ((j, w) ∷ m) h = ground (arith, remove_absent k m)
