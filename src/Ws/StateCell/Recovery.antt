-- ===== src/Ws/StateCell/Recovery.antt =====
-- auth/ws/state_cell/recovery.rs: preparation and compare-and-set commit of a catch-up.
use rspm.Common.{
  ℕ, zero, suc, ◌+◌, Bool, true, false, not, ◌&&◌, ◌||◌, Option, none, some, List, [], ◌∷◌, min,
  length, ltb, leb, ◌==◌, if◌then◌else◌, option_eq,
}
use mathlib.Core.Bool.{decide}
use rspm.Common.OrderedSet.{contains, remove}
use rspm.Ws.State.{
  WsState, CredentialAuthority, RecoveryToken, CatchUpFinalization, WsState-discrete,
  sequences-discrete, ranges-discrete, is_responsive, is_ready, recovery_token, is_token,
  is_authority,
}
use rspm.Ws.StateCell.{Cell, next_durable_sequence, publish, publish_poisoned, lock, snapshot}

-- The outcome of the loop that moves the frontier over durable and dropped sequences.
pub data Covered : Type 0 where
  settled : ℕ → List ℕ → List (ℕ × ℕ) → Covered
  overflow : Covered
  out_of_fuel : Covered

unfoldable pub cover : ℕ → ℕ → ℕ → List ℕ → List (ℕ × ℕ) → Covered
unfolding next_durable_sequence
cover zero watermark durable pending dropped = out_of_fuel
cover (suc fuel) watermark durable pending dropped = elim (leb watermark durable) [
  | true ↦ settled durable pending dropped
  | false ↦ elim (next_durable_sequence durable) [
    | none ↦ overflow
    | some next ↦ elim (contains next pending) [
      | true ↦ cover fuel watermark next (remove next pending) dropped
      | false ↦ elim dropped [
        | [] ↦ settled durable pending []
        | (first, last) ∷ rest ↦ elim (ltb next first) [
          | true ↦ settled durable pending ((first, last) ∷ rest)
          | false ↦ elim (leb next last) [
            | true ↦ cover fuel watermark (min last watermark) pending rest
            | false ↦ cover fuel watermark durable pending rest
          ]
        ]
      ]
    ]
  ]
]

-- Each round takes an element from the set or from the list, which bounds the rounds.
abbrev pub cover_fuel : List ℕ → List (ℕ × ℕ) → ℕ
cover_fuel pending dropped = suc (length pending + length dropped)

-- The test of `prepare_catch_up_finalization` on the state, as the code writes it.
unfoldable pub finalization_refused : RecoveryToken → CredentialAuthority → ℕ → ℕ → WsState → Bool
finalization_refused token authority watermark minimum_liveness s =
    not (is_token (recovery_token s) token)
    || s.consumer_closed
    || not (option_eq s.rest_proof_generation (some token.generation))
    || not (is_authority s.rest_credential_authority authority)
    || not (option_eq s.rest_proof_liveness_floor (some minimum_liveness))
    || not (is_responsive s.subscription)
    || not (s.transport_sequence == watermark)
    || leb s.liveness_version minimum_liveness

-- The state to install: the frontier moved and the gaps closed.
unfoldable pub recovered_state : RecoveryToken → ℕ → WsState → WsState
recovered_state token durable s = record s {
  durable_sequence = durable;
  schema_gap = false;
  delivery_gap = false;
  evidence_gap = false;
  catch_up_generation = some token.generation;
}

unfoldable pub finalize : RecoveryToken → ℕ → Covered → Cell → Option CatchUpFinalization
finalize token watermark (settled durable pending dropped) c =
    if durable == watermark && is_ready (recovered_state token durable c.state)
    then some (record {
      expected_state = c.state;
      next_state = recovered_state token durable c.state;
      expected_durable_out_of_order = c.durable_out_of_order;
      next_durable_out_of_order = pending;
      expected_dropped_ranges = c.dropped_ranges;
      next_dropped_ranges = dropped;
    })
    else none
finalize token watermark overflow c = none
finalize token watermark out_of_fuel c = none

unfoldable pub prepare_catch_up_finalization :
    RecoveryToken → CredentialAuthority → ℕ → ℕ → Cell → Cell × Option CatchUpFinalization
prepare_catch_up_finalization token authority watermark minimum_liveness c =
    let (locked, granted) = lock c in
    let covered =
      cover (cover_fuel locked.durable_out_of_order locked.dropped_ranges) watermark
        locked.state.durable_sequence locked.durable_out_of_order locked.dropped_ranges in
    if not granted
    then (locked, none)
    else if finalization_refused token authority watermark minimum_liveness locked.state
    then (locked, none)
    else if locked.durable_mutex || locked.dropped_mutex
    then (publish_poisoned locked, none)
    else (locked, finalize token watermark covered locked)

-- Whether the cell is still what the preparation saw.
unfoldable pub finalization_is_current : CatchUpFinalization → Cell → Bool
finalization_is_current f c =
    decide (WsState-discrete c.state f.expected_state)
    && decide (sequences-discrete c.durable_out_of_order f.expected_durable_out_of_order)
    && decide (ranges-discrete c.dropped_ranges f.expected_dropped_ranges)

unfoldable pub commit_catch_up_finalization : CatchUpFinalization → Cell → Cell × Bool
commit_catch_up_finalization f c =
    let (locked, granted) = lock c in
    if not granted
    then (locked, false)
    else if locked.durable_mutex || locked.dropped_mutex
    then (publish_poisoned locked, false)
    else if finalization_is_current f locked
    then (
      publish (record locked {
        state = f.next_state;
        durable_out_of_order = f.next_durable_out_of_order;
        dropped_ranges = f.next_dropped_ranges;
      }),
      true,
    )
    else (locked, false)

unfoldable pub authority_matches : RecoveryToken → CredentialAuthority → ℕ → Cell → Cell × Bool
authority_matches token authority watermark c =
    let (c', s) = snapshot c in
    (
      c',
      is_token (recovery_token s) token
          && is_authority s.rest_credential_authority authority
          && s.transport_sequence == watermark
          && is_ready s,
    )
