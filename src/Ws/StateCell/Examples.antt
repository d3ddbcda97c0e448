-- ===== src/Ws/StateCell/Examples.antt =====
-- Concrete cells: after a handshake, and ready for a catch-up.
pub mod History
pub mod Deliveries
use rspm.Common.{
  ℕ, suc, ◌<◌, ◌≤◌, ◌≡◌, refl, Bool, true, false, some, none, List, [], ◌∷◌, ◌||◌, ◌&&◌, leb, ◌==◌,
  arith, ◌⊎◌, inl, inr, Option, if◌then◌else◌, subst, length, u64_max, is_some,
}
use rspm.Common.OrderedSet.{contains, insert, remove}
use rspm.Common.OrderedMap.{lookup, insert as insert_entry, remove as remove_entry}
use rspm.Ws.State.{
  WsState, CredentialAuthority, RecoveryToken, CatchUpFinalization, is_ready, recovery_token,
  token_eq, authority_eq, WsState-discrete, sequences-discrete, ranges-discrete,
  connected as is_connected_state, credentials_submitted, server_responsive, initial_state,
}
use rspm.Ws.Frame.{RawFrame, FrameReceipt, text}
use rspm.Ws.StateCell.{
  Cell, TransportSequenceRange, new_with_identity, update, update_state, lock, publish_poisoned,
  max_pending_raw_frames,
}
use rspm.Ws.StateCell.Marks.{
  ConnectResult, ok, try_mark_connected, mark_subscription_written, mark_server_liveness_proven,
  mark_authenticated_rest_proven, reserve_transport_sequences, set_connected,
  set_subscription_written, set_server_liveness_proven, set_authenticated_rest_proven,
  set_transport_sequences,
}
use rspm.Ws.StateCell.RawFrames.{
  set_raw_frame_sequence, reserve_raw_frame_sequence, retain_raw_frame, insert_raw_frame,
  set_retained, acknowledge_raw_frame_durable, remove_raw_frame,
}
use rspm.Ws.StateCell.Ledger.{
  acknowledge_durable, insert_durable, write_advanced, advance_durable, mark_dropped, drop_range,
  push_range, extend_last, range_is_reserved,
}
use rspm.Ws.StateCell.Recovery.{
  prepare_catch_up_finalization, commit_catch_up_finalization, recovered_state,
  finalization_refused, finalize, cover, finalization_is_current,
}
use rspm.Ws.StateCell.Coverage.{accounted, in_ranges}
use rspm.Ws.StateCell.Progress.{Progress}
use rspm.Ws.StateCell.Invariant.{IsValid}
use rspm.Ws.StateCell.Invariant.Operations.{new_with_identity-IsValid}
use rspm.Ws.StateCell.Run.{
  Call, perform, Quiet, Reach, connected, disconnected, subscription_written,
  server_liveness_proven, authenticated_rest_proven, evidence_gap, consumer_closed,
  reserves_transport_sequences, acknowledges, drops, retains, reserves_frame_sequence,
  reserves_capacity,
}
use rspm.Ws.StateCell.Run.{consumer_closed}
use rspm.Ws.StateCell.Run.Safety.{
  IsClosed, Reach-KeepsProgress, closed_for_good, unrecovered_until_commit, IsClosed, IsUnrecovered,
}
use rspm.Ws.StateCell.CatchUp.{IsCaughtUp, commit_catches_up}
use rspm.Ws.StateCell.CatchUp.Completion.{catch_up_completes}
use rspm.Ws.StateCell.Delivery.{
  is_acknowledged, acknowledge_durable_adds, acknowledge_durable_succeeds, acknowledge_all,
  acknowledgement_order,
}

abbrev pub token : RecoveryToken
token = record { generation = 1; gap_version = 1; credential_identity = 7 }

abbrev pub authority : CredentialAuthority
authority = record { identity = 7; generation = 3 }

-- A cell whose socket of the first generation has answered, with two sequences reserved.
abbrev pub live_state : WsState
live_state = record {
  credential_identity = 7;
  connection = is_connected_state;
  authentication = credentials_submitted;
  subscription = server_responsive;
  generation = 1;
  liveness_version = 1;
  gap_version = 1;
  transport_sequence = 2;
  enqueued_sequence = 0;
  durable_sequence = 0;
  raw_frame_sequence = 0;
  pending_raw_frame_count = 0;
  catch_up_generation = none;
  rest_proof_generation = none;
  rest_credential_authority = none;
  rest_proof_liveness_floor = none;
  schema_gap = false;
  delivery_gap = false;
  consumer_closed = false;
  evidence_gap = true;
  authority_poisoned = false;
  counter_exhaustion = none;
}

abbrev pub cell_of : WsState → List ℕ → Cell
cell_of s sequences = record {
  state = s;
  authority_poisoned = false;
  durable_out_of_order = sequences;
  dropped_ranges = [];
  raw_frames = [];
  raw_frame_capacity = 1024;
  state_tx = s;
  state_mutex = false;
  durable_mutex = false;
  dropped_mutex = false;
  raw_frames_mutex = false;
}

abbrev pub live : Cell
live = cell_of live_state []

abbrev pub caught_up : Cell
caught_up =
    cell_of
      (record live_state {
        liveness_version = 2;
        durable_sequence = 2;
        rest_proof_generation = some 1;
        rest_credential_authority = some authority;
        rest_proof_liveness_floor = some 1;
      })
      []

abbrev handshake : List Call
handshake =
    connected
    ∷ subscription_written 1
    ∷ server_liveness_proven 1
    ∷ reserves_transport_sequences 2
    ∷ []

abbrev pub catch_up : List Call
catch_up =
    authenticated_rest_proven token authority
    ∷ server_liveness_proven 1
    ∷ acknowledges 2
    ∷ acknowledges 1
    ∷ []

abbrev pub after : List Call → Cell → Cell
after [] c = c
after (call ∷ calls) c = after calls (perform call c)

after-Reach : (calls : List Call) {c d : Cell} → Reach c d → Reach c (after calls d)
after-Reach [] r = r
after-Reach (call ∷ calls) r = after-Reach calls (Reach.next r call)

test_handshake : after handshake (new_with_identity 7) ≡ live
unfolding perform try_mark_connected mark_subscription_written mark_server_liveness_proven
    reserve_transport_sequences new_with_identity update update_state lock set_connected
    set_subscription_written set_server_liveness_proven set_transport_sequences
test_handshake = refl

test_catch_up : after catch_up live ≡ caught_up
unfolding perform mark_server_liveness_proven mark_authenticated_rest_proven acknowledge_durable
    update update_state lock set_server_liveness_proven set_authenticated_rest_proven insert_durable
    write_advanced advance_durable recovery_token token_eq insert remove
test_catch_up = refl

pub live-IsValid : IsValid live
live-IsValid =
    subst IsValid test_handshake
      (Reach-KeepsProgress (after-Reach handshake (Reach.here (new_with_identity 7)))
        (new_with_identity-IsValid 7)).0

pub live_reaches : Reach live caught_up
live_reaches = subst (Reach live) test_catch_up (after-Reach catch_up (Reach.here live))

pub caught_up-IsValid : IsValid caught_up
caught_up-IsValid = (Reach-KeepsProgress live_reaches live-IsValid).0

-- A cell that a reader of events has closed.
abbrev pub shut : Cell
shut = perform consumer_closed live

pub shut-IsClosed : IsClosed shut.state
unfolding perform rspm.Ws.StateCell.Marks.mark_consumer_closed update_state update lock
    rspm.Ws.StateCell.Marks.set_consumer_closed
shut-IsClosed = inl refl

pub shut-IsValid : IsValid shut
shut-IsValid = (Reach-KeepsProgress (Reach.next (Reach.here live) consumer_closed) live-IsValid).0
