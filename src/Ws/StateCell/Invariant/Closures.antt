-- ===== src/Ws/StateCell/Invariant/Closures.antt =====
-- auth/ws/state_cell.rs: well-formedness under the closures of the marks and of the ledger.
use rspm.Common.{ℕ, zero, suc, arith}
use rspm.Ws.State.{WsState, CredentialAuthority, RecoveryToken, CounterExhaustion}
use rspm.Ws.StateCell.{TransportSequenceRange, fail_counter}
use rspm.Ws.StateCell.Marks.{
  set_connecting, set_connected, set_subscription_written, set_server_liveness_proven,
  set_authenticated_rest_proven, set_disconnected, set_schema_gap, set_delivery_gap,
  set_consumer_closed, set_evidence_gap, set_delivery_lost, set_transport_sequences,
}
use rspm.Ws.StateCell.RawFrames.{set_raw_frame_sequence}
use rspm.Ws.StateCell.Ledger.{set_enqueued, range_is_reserved}
use rspm.Ws.StateCell.Invariant.{IsValidState}

pub fail_counter-IsValidState :
    (s : WsState) (e : CounterExhaustion) → IsValidState s → IsValidState (fail_counter s e)
unfolding fail_counter
fail_counter-IsValidState s e v = ground arith

pub set_connecting-IsValidState : (s : WsState) → IsValidState s → IsValidState (set_connecting s)
unfolding set_connecting
set_connecting-IsValidState s v = ground arith

pub set_connected-IsValidState : (s : WsState) → IsValidState s → IsValidState (set_connected s).0
unfolding set_connected
set_connected-IsValidState s v = ground arith

pub set_subscription_written-IsValidState :
    (generation : ℕ) (s : WsState)
    → IsValidState s
    → IsValidState (set_subscription_written generation s)
unfolding set_subscription_written
set_subscription_written-IsValidState generation s v = ground arith

pub set_server_liveness_proven-IsValidState :
    (generation : ℕ) (s : WsState)
    → IsValidState s
    → IsValidState (set_server_liveness_proven generation s)
unfolding set_server_liveness_proven
set_server_liveness_proven-IsValidState generation s v = ground arith

pub set_authenticated_rest_proven-IsValidState :
    (token : RecoveryToken) (authority : CredentialAuthority) (s : WsState)
    → IsValidState s
    → IsValidState (set_authenticated_rest_proven token authority s).0
unfolding set_authenticated_rest_proven
set_authenticated_rest_proven-IsValidState token authority s v = ground arith

pub set_disconnected-IsValidState :
    (s : WsState) → IsValidState s → IsValidState (set_disconnected s)
unfolding set_disconnected
set_disconnected-IsValidState s v = ground arith

pub set_schema_gap-IsValidState : (s : WsState) → IsValidState s → IsValidState (set_schema_gap s)
unfolding set_schema_gap
set_schema_gap-IsValidState s v = ground arith

pub set_delivery_gap-IsValidState :
    (s : WsState) → IsValidState s → IsValidState (set_delivery_gap s)
unfolding set_delivery_gap
set_delivery_gap-IsValidState s v = ground arith

pub set_consumer_closed-IsValidState :
    (s : WsState) → IsValidState s → IsValidState (set_consumer_closed s)
unfolding set_consumer_closed
set_consumer_closed-IsValidState s v = ground arith

pub set_evidence_gap-IsValidState :
    (s : WsState) → IsValidState s → IsValidState (set_evidence_gap s)
unfolding set_evidence_gap
set_evidence_gap-IsValidState s v = ground arith

pub set_delivery_lost-IsValidState :
    (s : WsState) → IsValidState s → IsValidState (set_delivery_lost s)
unfolding set_delivery_lost
set_delivery_lost-IsValidState s v = ground arith

pub set_transport_sequences-IsValidState :
    (event_count : ℕ) (s : WsState)
    → IsValidState s
    → IsValidState (set_transport_sequences event_count s).0
unfolding set_transport_sequences
set_transport_sequences-IsValidState zero s v = ground arith
set_transport_sequences-IsValidState (suc offset) s v = ground arith

pub set_raw_frame_sequence-IsValidState :
    (s : WsState) → IsValidState s → IsValidState (set_raw_frame_sequence s).0
unfolding set_raw_frame_sequence
set_raw_frame_sequence-IsValidState s v = ground arith

pub set_enqueued-IsValidState :
    (range : TransportSequenceRange) (s : WsState)
    → IsValidState s
    → IsValidState (set_enqueued range s)
unfolding set_enqueued range_is_reserved
set_enqueued-IsValidState range s v = ground arith
