-- ===== src/Ws/StateCell/Progress/Closures.antt =====
-- auth/ws/state_cell.rs: each closure of the marks and of the ledger against `Marked`.
use rspm.Common.{ℕ, zero, suc, arith}
use rspm.Ws.State.{WsState, CredentialAuthority, RecoveryToken, CounterExhaustion}
use rspm.Ws.StateCell.{TransportSequenceRange, fail_counter}
use rspm.Ws.StateCell.Marks.{
  set_connecting, set_connected, set_subscription_written, set_server_liveness_proven,
  set_authenticated_rest_proven, set_disconnected, set_schema_gap, set_delivery_gap,
  set_consumer_closed, set_evidence_gap, set_delivery_lost, set_transport_sequences,
}
use rspm.Ws.StateCell.RawFrames.{set_raw_frame_sequence}
use rspm.Ws.StateCell.Ledger.{set_enqueued}
use rspm.Ws.StateCell.Progress.{Marked}

pub fail_counter-Marked : (s : WsState) (e : CounterExhaustion) → Marked s (fail_counter s e)
unfolding fail_counter
fail_counter-Marked s e = ground arith

pub set_connecting-Marked : (s : WsState) → Marked s (set_connecting s)
unfolding set_connecting
set_connecting-Marked s = ground arith

pub set_connected-Marked : (s : WsState) → Marked s (set_connected s).0
unfolding set_connected
set_connected-Marked s = ground arith

pub set_subscription_written-Marked :
    (generation : ℕ) (s : WsState) → Marked s (set_subscription_written generation s)
unfolding set_subscription_written
set_subscription_written-Marked generation s = ground arith

pub set_server_liveness_proven-Marked :
    (generation : ℕ) (s : WsState) → Marked s (set_server_liveness_proven generation s)
unfolding set_server_liveness_proven
set_server_liveness_proven-Marked generation s = ground arith

pub set_authenticated_rest_proven-Marked :
    (token : RecoveryToken) (authority : CredentialAuthority) (s : WsState)
    → Marked s (set_authenticated_rest_proven token authority s).0
unfolding set_authenticated_rest_proven
set_authenticated_rest_proven-Marked token authority s = ground arith

pub set_disconnected-Marked : (s : WsState) → Marked s (set_disconnected s)
unfolding set_disconnected
set_disconnected-Marked s = ground arith

pub set_schema_gap-Marked : (s : WsState) → Marked s (set_schema_gap s)
unfolding set_schema_gap
set_schema_gap-Marked s = ground arith

pub set_delivery_gap-Marked : (s : WsState) → Marked s (set_delivery_gap s)
unfolding set_delivery_gap
set_delivery_gap-Marked s = ground arith

pub set_consumer_closed-Marked : (s : WsState) → Marked s (set_consumer_closed s)
unfolding set_consumer_closed
set_consumer_closed-Marked s = ground arith

pub set_evidence_gap-Marked : (s : WsState) → Marked s (set_evidence_gap s)
unfolding set_evidence_gap
set_evidence_gap-Marked s = ground arith

pub set_delivery_lost-Marked : (s : WsState) → Marked s (set_delivery_lost s)
unfolding set_delivery_lost
set_delivery_lost-Marked s = ground arith

pub set_transport_sequences-Marked :
    (event_count : ℕ) (s : WsState) → Marked s (set_transport_sequences event_count s).0
unfolding set_transport_sequences
set_transport_sequences-Marked zero s = ground arith
set_transport_sequences-Marked (suc offset) s = ground arith

pub set_raw_frame_sequence-Marked : (s : WsState) → Marked s (set_raw_frame_sequence s).0
unfolding set_raw_frame_sequence
set_raw_frame_sequence-Marked s = ground arith

pub set_enqueued-Marked :
    (range : TransportSequenceRange) (s : WsState) → Marked s (set_enqueued range s)
unfolding set_enqueued
set_enqueued-Marked range s = ground arith
