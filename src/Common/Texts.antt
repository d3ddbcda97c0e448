-- ===== src/Common/Texts.antt =====
-- Texts as lists of bytes.
use Prim.Native.Char.{code}
use Prim.Native.String.{String}
use Prim.Native.Nat.{ℕ}
use mathlib.Core.Path.{◌≡◌, refl}
use mathlib.Core.Bool.{Bool, true, false, ◌&&◌, ◌||◌}
use mathlib.Core.List.{List, [], ◌∷◌}
use native.Mathlib.Omega.{arith}
use rspm.Common.Tests.{◌==◌, if◌then◌else◌}

-- The bytes of an ASCII text.
abbrev pub codes : String → List ℕ
codes String.[] = []
codes (String.◌∷◌ c s) = code c ∷ codes s

abbrev pub text_eq : List ℕ → List ℕ → Bool
text_eq [] [] = true
text_eq (a ∷ s) (b ∷ t) = a == b && text_eq s t
text_eq _ _ = false

pub text_eq-eq : (s t : List ℕ) → text_eq s t ≡ true → s ≡ t
text_eq-eq [] [] h = refl
text_eq-eq [] (b ∷ t) h = cc
text_eq-eq (a ∷ s) [] h = cc
text_eq-eq (a ∷ s) (b ∷ t) h = ground (arith, text_eq-eq s t)

pub text_eq_self : (s : List ℕ) → text_eq s s ≡ true
text_eq_self [] = refl
text_eq_self (a ∷ s) = ground (arith, text_eq_self s)

-- `slice.contains(&text)`.
abbrev pub contains_text : List ℕ → List (List ℕ) → Bool
contains_text text [] = false
contains_text text (t ∷ texts) = text_eq t text || contains_text text texts

-- Every element passes the test.
abbrev pub all {ℓ} : {A : Type ℓ} → (A → Bool) → List A → Bool
all test [] = true
all test (x ∷ xs) = test x && all test xs

-- What stands before the first such byte, and the text from it on: `find` with `split_at`.
abbrev pub split_at_byte : ℕ → List ℕ → List ℕ × List ℕ
split_at_byte b [] = ([], [])
split_at_byte b (c ∷ bytes) =
    let (before, rest) = split_at_byte b bytes in
    if c == b then ([], c ∷ bytes) else (c ∷ before, rest)
