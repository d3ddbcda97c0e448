-- ===== src/Ws/Retirement/Draining.antt =====
-- What one pass over the fallback ledger leaves and takes out.
use rspm.Common.{
  ℕ, zero, suc, ◌+◌, ◌≤◌, ◌≡◌, refl, sym, ap, ◌∙◌, arith, Bool, true, ◌||◌, Option, none, some,
  List, [], ◌∷◌, ◌++◌, length, length-append, subst, All, Option-cases, is_some, inl, inr,
}
use mathlib.Core.List.{append-nil, append_assoc}
use rspm.Common.Vectors.{
  get_elem?, last_of, init_of, rotate_last, swap_remove, length-rotate, get_elem?-append,
  get_elem?-end, swap_remove-append, All-append,
}
use rspm.Ws.Retirement.Ledger.{FailedRetirement, Drained, drain_loop, drain_pass}

module _ (completions : ℕ → Option Bool) where
  abbrev pub IsPending : FailedRetirement → Type 0
  IsPending entry = completions entry.session ≡ none

  abbrev pub IsCompleted : FailedRetirement → Type 0
  IsCompleted entry = is_some (completions entry.session) ≡ true

abbrev pub total : (FailedRetirement → ℕ) → List FailedRetirement → ℕ
total weight [] = 0
total weight (entry ∷ failed) = weight entry + total weight failed

total-append :
    (w : FailedRetirement → ℕ) (xs ys : List FailedRetirement)
    → total w (xs ++ ys) ≡ total w xs + total w ys
total-append w [] ys = omega arith
total-append w (x ∷ xs) ys = omega (arith, total-append w xs ys)

total-last :
    (w : FailedRetirement → ℕ) (x : FailedRetirement) (xs : List FailedRetirement)
    → w (last_of x xs) + total w (init_of x xs) ≡ w x + total w xs
total-last w x [] = refl
total-last w x (y ∷ ys) = omega (arith, total-last w y ys)

total-rotate :
    (w : FailedRetirement → ℕ) (xs : List FailedRetirement) → total w (rotate_last xs) ≡ total w xs
total-rotate w [] = refl
total-rotate w (x ∷ xs) = total-last w x xs

settled_total :
    (w : FailedRetirement → ℕ) (kept : List FailedRetirement) (x : FailedRetirement)
    (rest completed : List FailedRetirement) {removed failed : List FailedRetirement}
    → removed ≡ kept ++ rotate_last rest
    → failed ≡ kept ++ x ∷ rest
    → total w removed + total w (x ∷ completed) ≡ total w failed + total w completed
settled_total w kept x rest completed r e = omega (
  arith,
  ap (total w) r,
  ap (total w) e,
  total-append w kept (rotate_last rest),
  total-append w kept (x ∷ rest),
  total-rotate w rest,
)

module _ (completions : ℕ → Option Bool) where
  -- What a pass leaves: the running tasks; the ended ones are taken out; none is lost or repeated.
  abbrev Settles : List FailedRetirement → List FailedRetirement → Drained → Type 0
  Settles failed completed d =
      All (IsPending completions) d.remaining
      × All (IsCompleted completions) d.completed
      × ((w : FailedRetirement → ℕ)
          → total w d.remaining + total w d.completed ≡ total w failed + total w completed)

  at_end :
      {index : ℕ} {failed : List FailedRetirement} (kept : List FailedRetirement)
      → index ≡ length kept
      → failed ≡ kept ++ []
      → (get_elem? failed index ≡ none) × (failed ≡ kept)
  at_end kept i e = (rw (i, e, append-nil) (get_elem?-end kept), rw append-nil at e)

  drain_loop-Settles :
      (fuel index : ℕ) (failed kept rest completed : List FailedRetirement) (flag : Bool)
      → index ≡ length kept
      → failed ≡ kept ++ rest
      → length rest ≤ fuel
      → All (IsPending completions) kept
      → All (IsCompleted completions) completed
      → Settles failed completed (drain_loop completions fuel index failed completed flag)
  unfolding drain_loop
  drain_loop-Settles zero index failed kept [] completed flag i e le p c =
      (subst (All (IsPending completions)) (sym (at_end kept i e).1) p, c, λ w. refl)
  drain_loop-Settles zero index failed kept (x ∷ rest) completed flag i e le p c =
      absurd (omega arith)
  drain_loop-Settles (suc fuel) index failed kept [] completed flag i e le p c =
      rw ((at_end kept i e).0, drain_loop)
        (subst (All (IsPending completions)) (sym (at_end kept i e).1) p, c, λ w. refl)
  drain_loop-Settles (suc fuel) index failed kept (x ∷ rest) completed flag i e le p c =
      let found : get_elem? failed index ≡ some x = rw (i, e) (get_elem?-append kept x rest) in
      elim (Option-cases (completions x.session)) [
        | inl pending ↦
            rw (found, drain_loop)
              (rw (pending, drain_loop)
                (drain_loop-Settles fuel (suc index) failed (kept ++ x ∷ []) rest completed flag
                  (omega (arith, length-append kept (x ∷ [])))
                  (e ∙ sym (append_assoc kept (x ∷ []) rest)) (omega arith)
                  (All-append (IsPending completions) kept x p pending) c))
        | inr (bad, ended) ↦
            let removed : swap_remove index failed ≡ kept ++ rotate_last rest =
              rw (i, e) (swap_remove-append kept x rest) in
            let (p', c', t) =
              drain_loop-Settles fuel index (swap_remove index failed) kept (rotate_last rest)
                (x ∷ completed) (flag || bad) i removed (omega (arith, length-rotate rest)) p
                (rw ended refl, c) in
            rw (found, drain_loop)
              (rw (ended, drain_loop)
                (p', c', λ w. t w ∙ settled_total w kept x rest completed removed e))
      ]

  -- One pass over the ledger keeps exactly the entries whose task still runs and takes out exactly
  -- those whose task has ended: by any weight of the entries, both together weigh what the ledger
  -- did.
  pub drain_pass-Settles :
      (failed : List FailedRetirement) (flag : Bool) (weight : FailedRetirement → ℕ)
      → All (IsPending completions) (drain_pass completions failed flag).remaining
        × All (IsCompleted completions) (drain_pass completions failed flag).completed
        × (total weight (drain_pass completions failed flag).remaining
              + total weight (drain_pass completions failed flag).completed
            ≡ total weight failed)
  unfolding drain_pass
  drain_pass-Settles failed flag weight =
      let (p, c, t) =
        drain_loop-Settles (length failed) 0 failed [] failed [] flag refl refl (omega arith) tt
          tt in
      (p, c, t weight ∙ omega arith)
