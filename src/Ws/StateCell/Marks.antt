-- ===== src/Ws/StateCell/Marks.antt =====
-- auth/ws/state_cell.rs: the marks, and the reservation of transport sequences. Each closure that a
-- mark hands to `update` is a function of its own.
use rspm.Common.{
  ℕ, zero, suc, true, ◌&&◌, Option, none, some, ◌==◌, if◌then◌else◌, checked_add, is_some,
}
use rspm.Ws.State.{
  WsState, CredentialAuthority, RecoveryToken, CounterExhaustion, connecting, connected,
  disconnected, AuthenticationState, credentials_submitted, SubscriptionState,
  awaiting_server_proof, server_responsive, is_connected, is_submitted, is_responsive,
  is_subscribed, recovery_token, is_token,
}
use rspm.Ws.StateCell.{
  Cell, TransportSequenceRange, clear_rest_proof, fail_counter, advance_gap_version, update,
  update_state,
}

unfoldable pub set_connecting : WsState → WsState
unfolding clear_rest_proof
set_connecting s =
    if is_some s.counter_exhaustion
    then s
    else clear_rest_proof (record s {
      connection = connecting;
      authentication = AuthenticationState.inactive;
      subscription = SubscriptionState.inactive;
    })

unfoldable pub mark_connecting : Cell → Cell
mark_connecting = update_state set_connecting

-- `Result<u64, CounterExhaustion>`.
pub data ConnectResult : Type 0 where
  ok : ℕ → ConnectResult
  err : CounterExhaustion → ConnectResult

-- The new socket, before its gap version advances: it starts untrusted.
fresh_socket : ℕ → WsState → WsState
unfolding clear_rest_proof
fresh_socket next s = clear_rest_proof (record s {
  generation = next;
  connection = connected;
  authentication = AuthenticationState.inactive;
  subscription = SubscriptionState.inactive;
  catch_up_generation = none;
  evidence_gap = true;
})

unfoldable pub set_connected : WsState → WsState × Option ConnectResult
unfolding fresh_socket advance_gap_version
set_connected s = elim s.counter_exhaustion [
  | some exhaustion ↦ (s, some (err exhaustion))
  | none ↦ elim (checked_add s.generation 1) [
    | none ↦ (fail_counter s CounterExhaustion.generation, some (err CounterExhaustion.generation))
    | some next ↦
        let (advanced, unexhausted) = advance_gap_version (fresh_socket next s) in
        (advanced, some (if unexhausted then ok next else err CounterExhaustion.gap_version))
  ]
]

abbrev unwrap_or_generation : Option ConnectResult → ConnectResult
unwrap_or_generation none = err CounterExhaustion.generation
unwrap_or_generation (some r) = r

unfoldable pub try_mark_connected : Cell → Cell × ConnectResult
try_mark_connected c =
    let (c', updated, generation) = update none set_connected c in
    (c', if updated then unwrap_or_generation generation else err CounterExhaustion.generation)

unfoldable pub set_subscription_written : ℕ → WsState → WsState
set_subscription_written generation s =
    if s.generation == generation && is_connected s.connection
    then record s { authentication = credentials_submitted; subscription = awaiting_server_proof }
    else s

unfoldable pub mark_subscription_written : ℕ → Cell → Cell
mark_subscription_written generation = update_state (set_subscription_written generation)

unfoldable pub set_server_liveness_proven : ℕ → WsState → WsState
unfolding fail_counter
set_server_liveness_proven generation s =
    if s.generation == generation
      && is_connected s.connection
      && is_submitted s.authentication
      && is_subscribed s.subscription
    then elim (checked_add s.liveness_version 1) [
      | none ↦ fail_counter s CounterExhaustion.liveness
      | some next ↦ record s { liveness_version = next; subscription = server_responsive }
    ]
    else s

unfoldable pub mark_server_liveness_proven : ℕ → Cell → Cell
mark_server_liveness_proven generation = update_state (set_server_liveness_proven generation)

unfoldable pub set_authenticated_rest_proven :
    RecoveryToken → CredentialAuthority → WsState → WsState × Option ℕ
set_authenticated_rest_proven token authority s =
    if is_token (recovery_token s) token
      && token.credential_identity == authority.identity
      && is_responsive s.subscription
    then (
      record s {
        rest_proof_generation = some token.generation;
        rest_credential_authority = some authority;
        rest_proof_liveness_floor = some s.liveness_version;
        subscription = awaiting_server_proof;
      },
      some s.liveness_version,
    )
    else (s, none)

-- The liveness floor that a later PONG has to pass.
unfoldable pub mark_authenticated_rest_proven :
    RecoveryToken → CredentialAuthority → Cell → Cell × Option ℕ
mark_authenticated_rest_proven token authority c =
    let (c', updated, liveness_floor) =
      update none (set_authenticated_rest_proven token authority) c in
    (c', if updated then liveness_floor else none)

unfoldable pub set_disconnected : WsState → WsState
unfolding clear_rest_proof advance_gap_version
set_disconnected s =
    (advance_gap_version (
      clear_rest_proof (record s {
        connection = disconnected;
        authentication = AuthenticationState.inactive;
        subscription = SubscriptionState.inactive;
        catch_up_generation = none;
        evidence_gap = true;
      }))).0

unfoldable pub mark_disconnected : Cell → Cell
mark_disconnected = update_state set_disconnected

-- What every gap mark does beside its own flag.
open_gap : WsState → WsState
unfolding clear_rest_proof advance_gap_version
open_gap s =
    (advance_gap_version (clear_rest_proof (record s { subscription = awaiting_server_proof }))).0

unfoldable pub set_schema_gap : WsState → WsState
unfolding open_gap
set_schema_gap s = open_gap (record s { schema_gap = true })

unfoldable pub mark_schema_gap : Cell → Cell
mark_schema_gap = update_state set_schema_gap

unfoldable pub set_delivery_gap : WsState → WsState
unfolding open_gap
set_delivery_gap s = open_gap (record s { delivery_gap = true })

unfoldable pub mark_delivery_gap : Cell → Cell
mark_delivery_gap = update_state set_delivery_gap

unfoldable pub set_consumer_closed : WsState → WsState
unfolding open_gap
set_consumer_closed s = open_gap (record s { consumer_closed = true; delivery_gap = true })

unfoldable pub mark_consumer_closed : Cell → Cell
mark_consumer_closed = update_state set_consumer_closed

unfoldable pub set_evidence_gap : WsState → WsState
unfolding open_gap
set_evidence_gap s = open_gap (record s { evidence_gap = true })

unfoldable pub mark_evidence_gap : Cell → Cell
mark_evidence_gap = update_state set_evidence_gap

-- `delivery_gap = true` and a new gap version, with the subscription left as it is.
unfoldable pub set_delivery_lost : WsState → WsState
unfolding advance_gap_version
set_delivery_lost s = (advance_gap_version (record s { delivery_gap = true })).0

unfoldable pub set_transport_sequences : ℕ → WsState → WsState × Option TransportSequenceRange
unfolding fail_counter set_delivery_lost
set_transport_sequences event_count s = elim (checked_add s.transport_sequence 1) [
  | none ↦ (fail_counter s CounterExhaustion.transport_sequence, none)
  | some next ↦ elim event_count [
    | zero ↦ (set_delivery_lost s, none)
    | suc offset ↦ elim (checked_add next offset) [
      | none ↦ (fail_counter s CounterExhaustion.transport_sequence, none)
      | some last ↦
          (record s { transport_sequence = last }, some (record { first = next; last = last }))
    ]
  ]
]

unfoldable pub reserve_transport_sequences : ℕ → Cell → Cell × Option TransportSequenceRange
reserve_transport_sequences event_count c =
    let (c', updated, range) = update none (set_transport_sequences event_count) c in
    if event_count == 0 then (c, none) else (c', if updated then range else none)
