-- ===== src/Auth/Balance/Capital.antt =====
-- The executable capital of a snapshot is the least of the balance and the required allowances.
use rspm.Common.{
  length, Bool-cases, ℕ, ◌≤◌, ◌≡◌, refl, sym, ap, ◌∙◌, subst, arith, Option, none, some, List, [],
  ◌∷◌, All, min, ◌==◌, ◌⊎◌, inl, inr, Bool, true, if_elim, ltb,
}
use rspm.Common.OrderedMap.{lookup, insert, lookup-insert}
use rspm.Common.OrderedSet.{contains}
use rspm.Submission.{ProtocolAuthority}
use rspm.Auth.{EndpointError, ok-injective, ok, >>=-eq-ok, or_else}
use rspm.Auth.Balance.{
  ContractConfig, RawBalanceAllowance, BalanceSnapshot, fold_min, required_spenders,
  require_allowances, scale_collateral, try_from_required_raw, select_required_snapshot,
}

fold_min-le : (binding : ℕ) (m : List (ℕ × ℕ)) → fold_min binding m ≤ binding
unfolding fold_min
fold_min-le binding [] = omega arith
fold_min-le binding ((k, v) ∷ m) = ground (arith, fold_min-le (min binding v) m)

min-cases : (a b : ℕ) → (min a b ≡ a) ⊎ (min a b ≡ b)
min-cases a b = ground arith

-- Every entry of the map bounds the fold.
fold_min-le_entry :
    (binding k v : ℕ) (m : List (ℕ × ℕ)) → lookup k m ≡ some v → fold_min binding m ≤ v
unfolding fold_min lookup
fold_min-le_entry binding k v [] h = cc
fold_min-le_entry binding k v ((j, w) ∷ m) h =
    ground (arith, fold_min-le_entry (min binding w) k v m, fold_min-le (min binding w) m)

-- The fold is its start or an entry of the map.
fold_min-attained :
    (P : ℕ → ℕ → Type 0) (binding : ℕ) (m : List (ℕ × ℕ))
    → All (λ e. P (e.0) (e.1)) m
    → (fold_min binding m ≡ binding) ⊎ ((k : ℕ) × P k (fold_min binding m))
unfolding fold_min
fold_min-attained P binding [] h = inl refl
fold_min-attained P binding ((k, v) ∷ m) (p, ps) = elim (fold_min-attained P (min binding v) m ps) [
  | inr found ↦ inr found
  | inl e ↦ elim (min-cases binding v) [
    | inl e' ↦ inl (e ∙ e')
    | inr e' ↦ inr (k, subst (P k) (sym (e ∙ e')) p)
  ]
]

insert-All :
    (P : ℕ → ℕ → Type 0) (k v : ℕ) (m : List (ℕ × ℕ))
    → P k v
    → All (λ e. P (e.0) (e.1)) m
    → All (λ e. P (e.0) (e.1)) (insert k v m)
unfolding insert
insert-All P k v [] p ps = (p, tt)
insert-All P k v ((j, w) ∷ m) p (q, ps) =
    if_elim (All (λ e. P (e.0) (e.1))) (k == j) (λ _. (p, ps))
      (λ _.
        if_elim (All (λ e. P (e.0) (e.1))) (ltb k j) (λ _. (p, (q, ps)))
          (λ _. (q, insert-All P k v m p ps)))

-- The map that the loop builds holds the allowance of each spender, and no other entry.
abbrev Allowed : List (ℕ × ℕ) → ℕ → ℕ → Type 0
Allowed allowances spender allowance = lookup spender allowances ≡ some allowance

or_else-ok {ℓ} :
    {A : Type ℓ} (o : Option A) (e : EndpointError) {a : A} → or_else o e ≡ ok a → o ≡ some a
or_else-ok none e h = cc
or_else-ok (some a) e h = cc

-- What holds of each spender with its allowance holds of every entry of the map.
require_allowances-All :
    (P : ℕ → ℕ → Type 0) (allowances : List (ℕ × ℕ)) (spenders : List ℕ) (required : List (ℕ × ℕ))
    {out : List (ℕ × ℕ)}
    → All (λ s. (v : ℕ) → Allowed allowances s v → P s v) spenders
    → All (λ e. P (e.0) (e.1)) required
    → require_allowances allowances spenders required ≡ ok out
    → All (λ e. P (e.0) (e.1)) out
unfolding require_allowances
require_allowances-All P allowances [] required each valid h =
    subst (All (λ e. P (e.0) (e.1))) (ok-injective h) valid
require_allowances-All P allowances (spender ∷ spenders) required (p, each) valid h =
    let (allowance, e, k) = >>=-eq-ok (or_else (lookup spender allowances) _) _ h in
    require_allowances-All P allowances spenders (insert spender allowance required) each
      (insert-All P spender allowance required (p allowance (or_else-ok _ _ e)) valid) k

-- An entry with the allowance of its spender stays.
require_allowances-keeps :
    (allowances : List (ℕ × ℕ)) (spenders : List ℕ) (required : List (ℕ × ℕ)) (s v : ℕ)
    {out : List (ℕ × ℕ)}
    → Allowed allowances s v
    → lookup s required ≡ some v
    → require_allowances allowances spenders required ≡ ok out
    → lookup s out ≡ some v
unfolding require_allowances
require_allowances-keeps allowances [] required s v a l h = rw (← ok-injective h) l
require_allowances-keeps allowances (spender ∷ spenders) required s v a l h =
    let (allowance, e, k) = >>=-eq-ok (or_else (lookup spender allowances) _) _ h in
    let found = or_else-ok _ _ e in
    require_allowances-keeps allowances spenders (insert spender allowance required) s v a
      (rw (lookup-insert s spender allowance required) (ground arith)) k

-- Every spender is in the map with its allowance.
found_allowances :
    (allowances : List (ℕ × ℕ)) (spenders : List ℕ) (required : List (ℕ × ℕ)) {out : List (ℕ × ℕ)}
    → require_allowances allowances spenders required ≡ ok out
    → All (λ s. (v : ℕ) × Allowed allowances s v × (lookup s out ≡ some v)) spenders
unfolding require_allowances
found_allowances allowances [] required h = tt
found_allowances allowances (spender ∷ spenders) required h =
    let (allowance, e, k) = >>=-eq-ok (or_else (lookup spender allowances) _) _ h in
    let found = or_else-ok _ _ e in
    (
      (
        allowance,
        found,
        require_allowances-keeps allowances spenders (insert spender allowance required) spender
            allowance found (rw (lookup-insert spender spender allowance required) (ground arith))
            k,
      ),
      found_allowances allowances spenders (insert spender allowance required) k,
    )

spenders_contained :
    (xs ys : List ℕ)
    → ((s : ℕ) → contains s ys ≡ true → contains s xs ≡ true)
    → All (λ s. contains s xs ≡ true) ys
spenders_contained xs [] h = tt
spenders_contained xs (y ∷ ys) h =
    (h y (ground arith), spenders_contained xs ys (λ s k. h s (ground arith)))

-- The spender is required, and the response grants it the allowance.
abbrev Granted : List (ℕ × ℕ) → List ℕ → ℕ → ℕ → Type 0
Granted allowances spenders s v = Allowed allowances s v × (contains s spenders ≡ true)

All-map {ℓ κ μ} :
    {A : Type ℓ} (P : A → Type κ) (Q : A → Type μ) (xs : List A)
    → ((x : A) → P x → Q x)
    → All P xs
    → All Q xs
All-map P Q [] f ps = tt
All-map P Q (x ∷ xs) f (p, ps) = (f x p, All-map P Q xs f ps)

required_map :
    (allowances : List (ℕ × ℕ)) (spenders : List ℕ) {out : List (ℕ × ℕ)}
    → require_allowances allowances spenders [] ≡ ok out
    → All (λ e. Granted allowances spenders (e.0) (e.1)) out
required_map allowances spenders h =
    require_allowances-All (Granted allowances spenders) allowances spenders []
      (All-map (λ s. contains s spenders ≡ true)
        (λ s. (v : ℕ) → Allowed allowances s v → Granted allowances spenders s v) spenders
        (λ s c v a. (a, c)) (spenders_contained spenders spenders (λ s c. c)))
      tt h

try_from_required_raw-capital :
    {Decimal : Type 0} (parse : List ℕ → Option Decimal) (authority : ProtocolAuthority)
    (balance : ℕ) (required : List (ℕ × ℕ)) {snapshot : BalanceSnapshot Decimal}
    → try_from_required_raw parse authority balance required ≡ ok snapshot
    → scale_collateral parse (fold_min balance required) ≡ ok snapshot.executable_capital
unfolding try_from_required_raw
try_from_required_raw-capital parse authority balance required h =
    elim (Bool-cases (length required == 0)) [
      | inl empty ↦ absurd (ground arith)
      | inr some_required ↦
          let (capital, scaled, made) =
            >>=-eq-ok (scale_collateral parse (fold_min balance required)) _
              (rw (some_required, try_from_required_raw) at h) in
          scaled ∙ ap ok (ap (λ s. s.executable_capital) (ok-injective made))
    ]

module _ {Decimal : Type 0} (decimal_from_str_exact : List ℕ → Option Decimal)
    (contract_config : Bool → Option ContractConfig) (raw : RawBalanceAllowance)
    (authority : ProtocolAuthority) {snapshot : BalanceSnapshot Decimal} where
  -- A snapshot has the scaled form of an amount that neither the balance nor the allowance of any
  -- required spender falls below, and that is the balance or the allowance of a required spender.
  pub select_required_snapshot-capital :
      select_required_snapshot decimal_from_str_exact contract_config raw authority ≡ ok snapshot
      → (binding : ℕ) × (spenders : List ℕ) × (required_spenders contract_config authority.version
          ≡ ok spenders)
        × (scale_collateral decimal_from_str_exact binding ≡ ok snapshot.executable_capital)
        × (binding ≤ raw.balance)
        × All (λ s. (v : ℕ) × Allowed raw.allowances s v × (binding ≤ v)) spenders
        × ((binding ≡ raw.balance) ⊎ ((s : ℕ) × Granted raw.allowances spenders s binding))
  unfolding select_required_snapshot
  select_required_snapshot-capital h =
      let (spenders, e, k) = >>=-eq-ok (required_spenders contract_config authority.version) _ h in
      let (required, e', k') = >>=-eq-ok (require_allowances raw.allowances spenders []) _ k in
      (
        fold_min raw.balance required,
        spenders,
        e,
        try_from_required_raw-capital decimal_from_str_exact authority raw.balance required k',
        fold_min-le raw.balance required,
        All-map _ _ spenders (λ s (v, a, l). (v, a, fold_min-le_entry raw.balance s v required l))
            (found_allowances raw.allowances spenders [] e'),
        fold_min-attained (Granted raw.allowances spenders) raw.balance required
            (required_map raw.allowances spenders e'),
      )
