-- ===== src/Ws/Retirement/Poison.antt =====
-- The poison flags of the process stay set, and refuse new sessions.
use rspm.Common.{
  ℕ, zero, suc, ◌≡◌, refl, arith, Bool, true, false, not, ◌||◌, Option, List, [], ◌∷◌, if_elim,
  Option-cases, inl, inr, length,
}
use rspm.Common.Vectors.{get_elem?, swap_remove}
use rspm.Ws.Retirement.Ledger.{FailedRetirement, drain_loop, drain_pass}
use rspm.Ws.Retirement.{
  Process, Shared, can_send, is_running, custodian_unavailable, process_retirement_custodian,
  reserve_process_retirement_slot, checked_counter_increment, checked_counter_decrement,
  lock_failed, poison_failed_retirements, retain_failed_retirement, count_transfer,
  uncount_retained, transfer_to_known_custodian, transfer_to_process_custodian, receive_command,
  finish_retained, drain_failed_pass, failed_retirements_are_poisoned,
}
use rspm.Ws.Retirement.Histories.{
  System, Step, reserves, completes, transfers, receives, finishes, drains, panics, disconnects,
  Reach, here, next,
}

-- One of the three flags that a reservation reads is set.
abbrev pub IsPoisoned : Process → Type 0
IsPoisoned p = (p.poisoned || failed_retirements_are_poisoned p) ≡ true

lock_failed-IsPoisoned : (p : Process) → IsPoisoned p → IsPoisoned (lock_failed p)
unfolding lock_failed poison_failed_retirements
lock_failed-IsPoisoned p h = ground arith

retain_failed-IsPoisoned :
    (session : ℕ) (slot : Bool) (p : Process) (shared : Shared)
    → IsPoisoned p
    → IsPoisoned (retain_failed_retirement session slot (p, shared)).0
unfolding retain_failed_retirement
retain_failed-IsPoisoned session slot p shared h = lock_failed-IsPoisoned p h

count_transfer-IsPoisoned : (p : Process) → IsPoisoned p → IsPoisoned (count_transfer p).0
unfolding count_transfer checked_counter_increment
count_transfer-IsPoisoned p h = ground arith

uncount_retained-IsPoisoned : (p : Process) → IsPoisoned p → IsPoisoned (uncount_retained p)
unfolding uncount_retained checked_counter_decrement
uncount_retained-IsPoisoned p h = ground arith

transfer_to_known-IsPoisoned :
    (session : ℕ) (p : Process) (shared : Shared)
    → IsPoisoned p
    → IsPoisoned (transfer_to_known_custodian session (p, shared)).0
unfolding transfer_to_known_custodian
transfer_to_known-IsPoisoned session p shared h =
    let counted = count_transfer-IsPoisoned p h in
    if_elim (λ (r : Process × Shared). IsPoisoned (r.0)) (not (count_transfer p).1)
      (λ _. retain_failed-IsPoisoned session true _ shared counted)
      (λ _.
        if_elim (λ (r : Process × Shared). IsPoisoned (r.0)) (can_send (count_transfer p).0)
          (λ _. counted)
          (λ _.
            retain_failed-IsPoisoned session true _ _
              (uncount_retained-IsPoisoned (count_transfer p).0 counted)))

transfer-IsPoisoned :
    (session : ℕ) (slot : Bool) (p : Process) (shared : Shared)
    → IsPoisoned p
    → IsPoisoned (transfer_to_process_custodian session slot (p, shared)).0
unfolding transfer_to_process_custodian process_retirement_custodian
transfer-IsPoisoned session slot p shared h =
    let q = process_retirement_custodian p in
    if_elim (λ (r : Process × Shared). IsPoisoned (r.0)) (not (is_running q.custodian))
      (λ _. retain_failed-IsPoisoned session slot q shared h)
      (λ _.
        if_elim (λ (r : Process × Shared). IsPoisoned (r.0)) slot
          (λ _. transfer_to_known-IsPoisoned session q shared h)
          (λ _. retain_failed-IsPoisoned session false q shared h))

receive-IsPoisoned : (p : Process) → IsPoisoned p → IsPoisoned (receive_command p).0
unfolding receive_command
receive-IsPoisoned p h = ground arith

finish-IsPoisoned :
    (is_err : Bool) (p : Process) (shared : Shared)
    → IsPoisoned p
    → IsPoisoned (finish_retained is_err (p, shared)).0
unfolding finish_retained checked_counter_decrement
finish-IsPoisoned is_err p shared h = ground arith

reserve-IsPoisoned : (p : Process) → IsPoisoned p → IsPoisoned (reserve_process_retirement_slot p).0
unfolding reserve_process_retirement_slot
reserve-IsPoisoned p h = ground arith

drain_loop-flag :
    (completions : ℕ → Option Bool) (fuel index : ℕ) (failed completed : List FailedRetirement)
    → (drain_loop completions fuel index failed completed true).drain_failed ≡ true
unfolding drain_loop
drain_loop-flag completions zero index failed completed = refl
drain_loop-flag completions (suc fuel) index failed completed =
    elim (Option-cases (get_elem? failed index)) [
      | inl e ↦ rw (e, drain_loop)
      | inr (entry, e) ↦ elim (Option-cases (completions entry.session)) [
        | inl pending ↦
            rw (e, drain_loop)
              (rw (pending, drain_loop)
                (drain_loop-flag completions fuel (suc index) failed completed))
        | inr (bad, ended) ↦
            rw (e, drain_loop)
              (rw (ended, drain_loop)
                (drain_loop-flag completions fuel index (swap_remove index failed)
                  (entry ∷ completed)))
      ]
    ]

drain_pass-flag :
    (completions : ℕ → Option Bool) (failed : List FailedRetirement) (flag : Bool)
    → flag ≡ true
    → (drain_pass completions failed flag).drain_failed ≡ true
unfolding drain_pass
drain_pass-flag completions failed flag h =
    rw h (drain_loop-flag completions (length failed) 0 failed [])

drain_failed-IsPoisoned :
    (completions : ℕ → Option Bool) (p : Process)
    → IsPoisoned p
    → IsPoisoned (drain_failed_pass completions p)
unfolding drain_failed_pass
drain_failed-IsPoisoned completions p h =
    let locked = lock_failed p in
    ground (
      arith,
      lock_failed-IsPoisoned p h,
      drain_pass-flag completions locked.failed locked.drain_failed,
    )

Step-IsPoisoned : {s t : System} → Step s t → IsPoisoned s.process → IsPoisoned t.process
Step-IsPoisoned (reserves s) h = reserve-IsPoisoned s.process h
Step-IsPoisoned (completes s slot le) h = h
Step-IsPoisoned (transfers s session slot shared le) h =
    transfer-IsPoisoned session slot s.process shared h
Step-IsPoisoned (receives s idle) h = receive-IsPoisoned s.process h
Step-IsPoisoned (finishes s is_err shared busy) h = finish-IsPoisoned is_err s.process shared h
Step-IsPoisoned (drains s completions) h = drain_failed-IsPoisoned completions s.process h
Step-IsPoisoned (panics s) h = h
Step-IsPoisoned (disconnects s) h = h

Reach-IsPoisoned : {s t : System} → Reach s t → IsPoisoned s.process → IsPoisoned t.process
Reach-IsPoisoned here h = h
Reach-IsPoisoned (next r st) h = Step-IsPoisoned st (Reach-IsPoisoned r h)

-- Once a counter has overflowed, the ledger's mutex was found poisoned or a drained task had failed,
-- no session gets a permit any more, whatever happens.
pub poisoned_refuses :
    {s t : System}
    → Reach s t
    → IsPoisoned s.process
    → (reserve_process_retirement_slot t.process).1 ≡ custodian_unavailable
unfolding reserve_process_retirement_slot
poisoned_refuses r h = ground (arith, Reach-IsPoisoned r h)
