-- ===== src/Ws/Retirement/Counters.antt =====
-- What the counter `retained` counts.
use rspm.Common.{
  ℕ, suc, ◌+◌, ◌≡◌, arith, Bool, true, false, not, Option, none, [], ◌∷◌, ◌⊎◌, inl, inr, is_some,
  if_elim, ◌++◌,
}
use rspm.Ws.Retirement.Ledger.{bit}
use rspm.Ws.Retirement.Permits.{retained_tasks, retained_tasks-append}
use rspm.Ws.Retirement.{
  Process, Shared, retain, can_send, is_running, process_retirement_custodian,
  reserve_process_retirement_slot, transfer_to_process_custodian, receive_command, finish_retained,
  checked_counter_increment, checked_counter_decrement, lock_failed, poison_failed_retirements,
  retain_failed_retirement, count_transfer, uncount_retained, transfer_to_known_custodian,
  drain_failed_pass,
}

-- Under the counter's flag being clear, `retained` counts the tasks that wait in commands and the one
-- that the thread waits for.
abbrev pub Counted : Process → Type 0
Counted p = (p.poisoned ≡ true) ⊎ (p.retained ≡ retained_tasks p.commands + bit (is_some p.current))

pub reserve-Counted : (p : Process) → Counted p → Counted (reserve_process_retirement_slot p).0
unfolding reserve_process_retirement_slot
reserve-Counted p c = ground arith

lock_failed-Counted : (p : Process) → Counted p → Counted (lock_failed p)
unfolding lock_failed poison_failed_retirements
lock_failed-Counted p c = ground arith

retain_failed-Counted :
    (session : ℕ) (slot : Bool) (p : Process) (shared : Shared)
    → Counted p
    → Counted (retain_failed_retirement session slot (p, shared)).0
unfolding retain_failed_retirement
retain_failed-Counted session slot p shared c = lock_failed-Counted p c

-- After the increments the counter is one ahead, or the flag is set.
abbrev Ahead : Process → Type 0
Ahead p =
    (p.poisoned ≡ true) ⊎ (p.retained ≡ suc (retained_tasks p.commands + bit (is_some p.current)))

count_transfer-Counted :
    (p : Process)
    → Counted p
    → (((count_transfer p).1 ≡ false) × Counted (count_transfer p).0)
      ⊎ (((count_transfer p).1 ≡ true) × Ahead (count_transfer p).0)
unfolding count_transfer checked_counter_increment
count_transfer-Counted p c = ground arith

uncount_retained-Counted : (p : Process) → Ahead p → Counted (uncount_retained p)
unfolding uncount_retained checked_counter_decrement
uncount_retained-Counted p c = ground arith

retained_tasks-sent :
    (p : Process) (session : ℕ)
    → retained_tasks (p.commands ++ retain session ∷ []) ≡ suc (retained_tasks p.commands)
retained_tasks-sent p session =
    omega (arith, retained_tasks-append p.commands (retain session ∷ []))

sent-Counted :
    (p : Process) (session : ℕ)
    → Ahead p
    → Counted (record p { commands = p.commands ++ retain session ∷ [] })
sent-Counted p session (inl e) = inl e
sent-Counted p session (inr e) = inr (omega (arith, retained_tasks-sent p session))

transfer_to_known-Counted :
    (session : ℕ) (p : Process) (shared : Shared)
    → Counted p
    → Counted (transfer_to_known_custodian session (p, shared)).0
unfolding transfer_to_known_custodian
transfer_to_known-Counted session p shared c = elim (count_transfer-Counted p c) [
  | inl (e, c') ↦
      rw (e, transfer_to_known_custodian) (retain_failed-Counted session true _ shared c')
  | inr (e, a) ↦
      rw (e, transfer_to_known_custodian)
        (if_elim (λ (r : Process × Shared). Counted (r.0)) (can_send (count_transfer p).0)
          (λ _. sent-Counted (count_transfer p).0 session a)
          (λ _.
            retain_failed-Counted session true _ _
              (uncount_retained-Counted (count_transfer p).0 a)))
]

pub transfer-Counted :
    (session : ℕ) (slot : Bool) (p : Process) (shared : Shared)
    → Counted p
    → Counted (transfer_to_process_custodian session slot (p, shared)).0
unfolding transfer_to_process_custodian process_retirement_custodian
transfer-Counted session slot p shared c =
    let q = process_retirement_custodian p in
    if_elim (λ (r : Process × Shared). Counted (r.0)) (not (is_running q.custodian))
      (λ _. retain_failed-Counted session slot q shared c)
      (λ _.
        if_elim (λ (r : Process × Shared). Counted (r.0)) slot
          (λ _. transfer_to_known-Counted session q shared c)
          (λ _. retain_failed-Counted session false q shared c))

pub receive-Counted : (p : Process) → p.current ≡ none → Counted p → Counted (receive_command p).0
unfolding receive_command
receive-Counted p idle c = ground arith

pub finish-Counted :
    (is_err : Bool) (p : Process) (shared : Shared)
    → is_some p.current ≡ true
    → Counted p
    → Counted (finish_retained is_err (p, shared)).0
unfolding finish_retained checked_counter_decrement
finish-Counted is_err p shared busy c = ground arith

pub drain_failed-Counted :
    (completions : ℕ → Option Bool) (p : Process)
    → Counted p
    → Counted (drain_failed_pass completions p)
unfolding drain_failed_pass
drain_failed-Counted completions p c = lock_failed-Counted p c
