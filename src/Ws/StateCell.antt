-- ===== src/Ws/StateCell.antt =====
-- auth/ws/state_cell.rs: the shared cell, its locking discipline and the state marks. A method that
-- takes `&self` returns the new cell. Each operation runs under the state mutex and publishes its
-- snapshot at the end; a poisoned mutex stays poisoned.
pub mod Marks
pub mod RawFrames
pub mod Ledger
pub mod Recovery
pub mod Progress
pub mod Durability
pub mod Coverage
pub mod Invariant
pub mod Finalization
pub mod Delivery
pub mod CatchUp
pub mod Run
pub mod Examples
use rspm.Common.{
  ℕ, ◌≡◌, ◌⊎◌, inl, inr, Bool, true, false, not, Option, none, some, List, [], arith, if◌then◌else◌,
  checked_add,
}
use rspm.Ws.State.{
  WsState, CredentialIdentity, CounterExhaustion, disconnected, AuthenticationState,
  SubscriptionState, initial_state,
}
use rspm.Ws.Frame.{RawFrame}

-- `state_tx` is the snapshot published last; the last four fields are the mutexes' poison flags.
pub record Cell : Type 0 where
  pub state : WsState
  pub authority_poisoned : Bool
  pub durable_out_of_order : List ℕ
  pub dropped_ranges : List (ℕ × ℕ)
  pub raw_frames : List (ℕ × RawFrame)
  pub raw_frame_capacity : ℕ
  pub state_tx : WsState
  pub state_mutex : Bool
  pub durable_mutex : Bool
  pub dropped_mutex : Bool
  pub raw_frames_mutex : Bool

pub record TransportSequenceRange : Type 0 where
  pub first : ℕ
  pub last : ℕ

abbrev pub max_durable_out_of_order : ℕ
max_durable_out_of_order = 1024

abbrev pub max_dropped_ranges : ℕ
max_dropped_ranges = 1

abbrev pub max_pending_raw_frames : ℕ
max_pending_raw_frames = 1024

unfoldable pub new_with_identity : CredentialIdentity → Cell
unfolding initial_state
new_with_identity identity = record {
  state = initial_state identity;
  authority_poisoned = false;
  durable_out_of_order = [];
  dropped_ranges = [];
  raw_frames = [];
  raw_frame_capacity = max_pending_raw_frames;
  state_tx = initial_state identity;
  state_mutex = false;
  durable_mutex = false;
  dropped_mutex = false;
  raw_frames_mutex = false;
}

-- The three fields that every loss of the REST proof resets.
unfoldable pub clear_rest_proof : WsState → WsState
clear_rest_proof s = record s {
  rest_proof_generation = none;
  rest_credential_authority = none;
  rest_proof_liveness_floor = none;
}

abbrev pub first_exhaustion :
    Option CounterExhaustion → CounterExhaustion → Option CounterExhaustion
first_exhaustion none e = some e
first_exhaustion (some d) e = some d

unfoldable pub fail_counter : WsState → CounterExhaustion → WsState
unfolding clear_rest_proof
fail_counter s exhaustion = clear_rest_proof (record s {
  counter_exhaustion = first_exhaustion s.counter_exhaustion exhaustion;
  connection = disconnected;
  authentication = AuthenticationState.inactive;
  subscription = SubscriptionState.inactive;
  schema_gap = true;
  delivery_gap = true;
  evidence_gap = true;
  catch_up_generation = none;
})

unfoldable pub advance_gap_version : WsState → WsState × Bool
unfolding fail_counter
advance_gap_version s = elim (checked_add s.gap_version 1) [
  | none ↦ (fail_counter s CounterExhaustion.gap_version, false)
  | some next ↦ (record s { gap_version = next }, true)
]

-- `Err(DurableSequence)` is `none`.
unfoldable pub next_durable_sequence : ℕ → Option ℕ
next_durable_sequence current = checked_add current 1

poisoned_state : WsState → WsState
unfolding clear_rest_proof
poisoned_state s = clear_rest_proof (record s {
  connection = disconnected;
  authentication = AuthenticationState.inactive;
  subscription = SubscriptionState.inactive;
  schema_gap = true;
  delivery_gap = true;
  consumer_closed = true;
  evidence_gap = true;
  authority_poisoned = true;
  catch_up_generation = none;
})

unfoldable pub fail_closed_after_poison : Cell → Cell
unfolding poisoned_state advance_gap_version
fail_closed_after_poison c =
    let s = poisoned_state c.state in
    record c {
      authority_poisoned = true;
      state = if c.authority_poisoned then s else (advance_gap_version s).0;
    }

abbrev pub publish : Cell → Cell
publish c = record c { state_tx = c.state }

-- Also `mark_authority_poisoned`. Both arms of the match on the mutex do the same.
unfoldable pub publish_poisoned : Cell → Cell
unfolding fail_closed_after_poison
publish_poisoned c = publish (fail_closed_after_poison c)

-- Whether the lock was granted; a refusal has published the closed state.
unfoldable pub lock : Cell → Cell × Bool
unfolding publish_poisoned
lock c =
    if c.authority_poisoned
    then (publish_poisoned c, false)
    else if c.state_mutex
    then (publish_poisoned c, false)
    else (c, true)

-- The closure may assign a captured variable, whose initial value is `captured`.
unfoldable pub update : {A : Type 0} → A → (WsState → WsState × A) → Cell → Cell × Bool × A
update captured closure c =
    let (locked, granted) = lock c in
    let (s, assigned) = closure locked.state in
    let written = record locked { state = s } in
    let closed = if written.authority_poisoned then fail_closed_after_poison written else written in
    if granted
    then (publish closed, not closed.authority_poisoned, assigned)
    else (locked, false, captured)

-- An update whose closure captures nothing.
unfoldable pub update_state : (WsState → WsState) → Cell → Cell
unfolding update
update_state closure c = (update tt (λ s. (closure s, tt)) c).0

-- Both arms of the match on the mutex close a poisoned cell; a healthy one is only read.
unfoldable pub snapshot : Cell → Cell × WsState
unfolding publish_poisoned
snapshot c =
    let closed = publish_poisoned c in
    if c.state_mutex
    then (closed, closed.state)
    else if c.authority_poisoned
    then (closed, closed.state)
    else (c, c.state)

-- The two ways in which the lock answers.
pub lock-cases :
    (c : Cell)
    → (lock c ≡ (publish_poisoned c, false))
      ⊎ ((lock c ≡ (c, true)) × (c.authority_poisoned ≡ false) × (c.state_mutex ≡ false))
unfolding lock
lock-cases c = ground arith

pub lock_open :
    (c : Cell) → c.authority_poisoned ≡ false → c.state_mutex ≡ false → lock c ≡ (c, true)
unfolding lock
lock_open c a m = ground arith

-- The two ends of an update.
pub update-cases :
    {A : Type 0} (captured : A) (closure : WsState → WsState × A) (c : Cell)
    → (update captured closure c ≡ (publish_poisoned c, false, captured))
      ⊎ ((update captured closure c
            ≡ (publish (record c { state = (closure c.state).0 }), true, (closure c.state).1))
          × (c.authority_poisoned ≡ false)
          × (c.state_mutex ≡ false))
unfolding update
update-cases captured closure c = elim (lock-cases c) [
  | inl e ↦ inl (rw (e, update))
  | inr (e, a, m) ↦ inr (rw (e, update) (ground arith), a, m)
]
