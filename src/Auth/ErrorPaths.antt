-- ===== src/Auth/ErrorPaths.antt =====
-- The paths that an error may carry.
use rspm.Common.{
  ℕ, zero, suc, ◌≤◌, ◌≡◌, refl, arith, Bool, true, false, not, ◌&&◌, ◌||◌, ◌==◌, List, [], ◌∷◌,
  ◌++◌, length, codes, text_eq, contains_text, all, split_at_byte,
}
use rspm.Utils.{is_ascii_digit, all_ascii_digits, split_dots, to_string}
use rspm.Utils.Decimal.{to_string-digits, to_string-nonempty}
use rspm.Auth.{Endpoint, safe_fields, indexes_are_valid, segment_is_safe, response_path_is_safe}

length-split_at_byte : (b : ℕ) (bytes : List ℕ) → length (split_at_byte b bytes).1 ≤ length bytes
length-split_at_byte b [] = omega arith
length-split_at_byte b (c ∷ bytes) = ground (arith, length-split_at_byte b bytes)

-- What the loop reads next.
abbrev after_bracket : List ℕ × List ℕ → List ℕ
after_bracket (digits, []) = []
after_bracket (digits, close ∷ remaining) = remaining

-- More fuel than bytes changes nothing: the loop has ended.
pub indexes_are_valid-fuel :
    (f g : ℕ) (indexes : List ℕ)
    → length indexes ≤ f
    → length indexes ≤ g
    → indexes_are_valid f indexes ≡ indexes_are_valid g indexes
unfolding indexes_are_valid
indexes_are_valid-fuel f g [] hf hg = refl
indexes_are_valid-fuel zero g (b ∷ bytes) hf hg = absurd (omega arith)
indexes_are_valid-fuel (suc f) zero (b ∷ bytes) hf hg = absurd (omega arith)
indexes_are_valid-fuel (suc f) (suc g) (b ∷ bytes) hf hg = ground (
  arith,
  length-split_at_byte 93 bytes,
  indexes_are_valid-fuel f g (after_bracket (split_at_byte 93 bytes)),
)

-- The byte does not stand in the text.
abbrev pub lacks : ℕ → List ℕ → Bool
lacks b = all (λ c. not (c == b))

digits-lacks :
    (b : ℕ) (digits : List ℕ)
    → is_ascii_digit b ≡ false
    → all_ascii_digits digits ≡ true
    → lacks b digits ≡ true
digits-lacks b [] n h = refl
digits-lacks b (d ∷ digits) n h = ground (arith, digits-lacks b digits n)

split_at_byte-append :
    (b : ℕ) (part rest : List ℕ)
    → lacks b part ≡ true
    → split_at_byte b (part ++ b ∷ rest) ≡ (part, b ∷ rest)
split_at_byte-append b [] rest h = ground arith
split_at_byte-append b (c ∷ part) rest h = ground (arith, split_at_byte-append b part rest)

split_at_byte-none :
    (b : ℕ) (part : List ℕ) → lacks b part ≡ true → split_at_byte b part ≡ (part, [])
split_at_byte-none b [] h = refl
split_at_byte-none b (c ∷ part) h = ground (arith, split_at_byte-none b part)

split_dots-append :
    (part rest : List ℕ)
    → lacks 46 part ≡ true
    → split_dots (part ++ 46 ∷ rest) ≡ (part, (split_dots rest).0 ∷ (split_dots rest).1)
split_dots-append [] rest h = refl
split_dots-append (c ∷ part) rest h = ground (arith, split_dots-append part rest)

split_dots-none : (part : List ℕ) → lacks 46 part ≡ true → split_dots part ≡ (part, [])
split_dots-none [] h = refl
split_dots-none (c ∷ part) h = ground (arith, split_dots-none part)

lacks-append :
    (b : ℕ) (xs ys : List ℕ) → lacks b xs ≡ true → lacks b ys ≡ true → lacks b (xs ++ ys) ≡ true
lacks-append b [] ys h k = k
lacks-append b (x ∷ xs) ys h k = ground (arith, lacks-append b xs ys)

abbrev indexed : List ℕ → ℕ → List ℕ
indexed name index = name ++ 91 ∷ (to_string index ++ 93 ∷ [])

-- A name with one index is a safe segment where the name is a field of the endpoint.
indexed-IsSafe :
    (endpoint : Endpoint) (name : List ℕ) (index : ℕ)
    → lacks 91 name ≡ true
    → contains_text name (safe_fields endpoint) ≡ true
    → segment_is_safe endpoint (indexed name index) ≡ true
unfolding segment_is_safe indexes_are_valid
indexed-IsSafe endpoint name index h k =
    rw
      (
        split_at_byte-append 91 name (to_string index ++ 93 ∷ []) h,
        split_at_byte-append 93 (to_string index) []
            (digits-lacks 93 (to_string index) refl (to_string-digits index)),
      )
      (ground (arith, to_string-digits index, to_string-nonempty index))

plain-IsSafe :
    (endpoint : Endpoint) (name : List ℕ)
    → lacks 91 name ≡ true
    → contains_text name (safe_fields endpoint) ≡ true
    → segment_is_safe endpoint name ≡ true
unfolding segment_is_safe indexes_are_valid
plain-IsSafe endpoint name h k = rw (split_at_byte-none 91 name h) (ground arith)

indexed-lacks_dot :
    (name : List ℕ) (index : ℕ) → lacks 46 name ≡ true → lacks 46 (indexed name index) ≡ true
indexed-lacks_dot name index h = lacks-append 46 name _ h (
    lacks-append 46 (to_string index) (93 ∷ [])
      (digits-lacks 46 (to_string index) refl (to_string-digits index)) refl)

-- A field name that the endpoint lists, without the bytes that structure a path.
abbrev pub IsField : Endpoint → List ℕ → Type 0
IsField endpoint name =
    (lacks 46 name ≡ true)
    × (lacks 91 name ≡ true)
    × (contains_text name (safe_fields endpoint) ≡ true)

-- `collection[index].field` is safe.
pub field_path-IsSafe :
    (endpoint : Endpoint) (collection : List ℕ) (index : ℕ) (field : List ℕ)
    → IsField endpoint collection
    → IsField endpoint field
    → response_path_is_safe endpoint (indexed collection index ++ 46 ∷ field) ≡ true
unfolding response_path_is_safe
field_path-IsSafe endpoint collection index field (cd, cb, c) (fd, fb, f) =
    rw
      (
        split_dots-append (indexed collection index) field (indexed-lacks_dot collection index cd),
        split_dots-none field fd,
      )
      (ground
        (arith, indexed-IsSafe endpoint collection index cb c, plain-IsSafe endpoint field fb f))

-- `collection[index].inner[position].field` is safe.
pub nested_path-IsSafe :
    (endpoint : Endpoint) (collection : List ℕ) (index : ℕ) (inner : List ℕ) (position : ℕ)
    (field : List ℕ)
    → IsField endpoint collection
    → IsField endpoint inner
    → IsField endpoint field
    → response_path_is_safe endpoint
        (indexed collection index ++ 46 ∷ (indexed inner position ++ 46 ∷ field))
      ≡ true
unfolding response_path_is_safe
nested_path-IsSafe endpoint collection index inner position field (cd, cb, c) (id, ib, i)
      (fd, fb, f) =
    rw
      (
        split_dots-append (indexed collection index) _ (indexed-lacks_dot collection index cd),
        split_dots-append (indexed inner position) field (indexed-lacks_dot inner position id),
        split_dots-none field fd,
      )
      (ground (
        arith,
        indexed-IsSafe endpoint collection index cb c,
        indexed-IsSafe endpoint inner position ib i,
        plain-IsSafe endpoint field fb f,
      ))

indexed-ne_mark :
    (name : List ℕ) (index : ℕ) (rest : List ℕ)
    → text_eq (indexed name index ++ rest) (codes "?") ≡ false
indexed-ne_mark [] index rest = refl
indexed-ne_mark (b ∷ []) index rest = ground arith
indexed-ne_mark (b ∷ c ∷ name) index rest = ground arith

plain-unsafe :
    (endpoint : Endpoint) (name : List ℕ)
    → lacks 91 name ≡ true
    → contains_text name (safe_fields endpoint) ≡ false
    → segment_is_safe endpoint name ≡ false
unfolding segment_is_safe
plain-unsafe endpoint name h k = rw (split_at_byte-none 91 name h) (ground arith)

last_fails :
    (mark first last : Bool)
    → mark ≡ false
    → last ≡ false
    → (mark || (first && (last && true))) ≡ false
last_fails mark first last h k = ground arith

inner_fails :
    (mark first second last : Bool)
    → mark ≡ false
    → last ≡ false
    → (mark || (first && (second && (last && true)))) ≡ false
inner_fails mark first second last h k = ground arith

-- A path that ends in a name which the endpoint does not list is not safe.
pub field_path-unsafe :
    (endpoint : Endpoint) (collection : List ℕ) (index : ℕ) (field : List ℕ)
    → lacks 46 collection ≡ true
    → lacks 46 field ≡ true
    → lacks 91 field ≡ true
    → contains_text field (safe_fields endpoint) ≡ false
    → response_path_is_safe endpoint (indexed collection index ++ 46 ∷ field) ≡ false
unfolding response_path_is_safe
field_path-unsafe endpoint collection index field cd fd fb f =
    rw
      (
        split_dots-append (indexed collection index) field (indexed-lacks_dot collection index cd),
        split_dots-none field fd,
      )
      (last_fails _ (segment_is_safe endpoint (indexed collection index)) _
        (indexed-ne_mark collection index (46 ∷ field)) (plain-unsafe endpoint field fb f))

pub nested_path-unsafe :
    (endpoint : Endpoint) (collection : List ℕ) (index : ℕ) (inner : List ℕ) (position : ℕ)
    (field : List ℕ)
    → lacks 46 collection ≡ true
    → lacks 46 inner ≡ true
    → lacks 46 field ≡ true
    → lacks 91 field ≡ true
    → contains_text field (safe_fields endpoint) ≡ false
    → response_path_is_safe endpoint
        (indexed collection index ++ 46 ∷ (indexed inner position ++ 46 ∷ field))
      ≡ false
unfolding response_path_is_safe
nested_path-unsafe endpoint collection index inner position field cd id fd fb f =
    rw
      (
        split_dots-append (indexed collection index) _ (indexed-lacks_dot collection index cd),
        split_dots-append (indexed inner position) field (indexed-lacks_dot inner position id),
        split_dots-none field fd,
      )
      (inner_fails _ (segment_is_safe endpoint (indexed collection index))
        (segment_is_safe endpoint (indexed inner position)) _
        (indexed-ne_mark collection index (46 ∷ (indexed inner position ++ 46 ∷ field)))
        (plain-unsafe endpoint field fb f))
