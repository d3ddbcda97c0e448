-- ===== src/Ws/StateCell/Invariant.antt =====
-- auth/ws/state_cell.rs: the well-formedness of the cell between two operations.
pub mod Closures
pub mod Operations
pub mod Dropped
pub mod Ledger
use rspm.Common.{ℕ, ◌≤◌, ◌<◌, ◌≡◌, true, length, u64_max}
use rspm.Common.OrderedSet.{Ascending}
use rspm.Common.OrderedMap.{Keyed}
use rspm.Ws.State.{WsState, is_connected, is_submitted, is_responsive}
use rspm.Ws.StateCell.{Cell, max_durable_out_of_order, max_dropped_ranges}
use rspm.Ws.StateCell.Coverage.{RangesWithin}

-- The frontiers stand in order, every counter fits its word, and a responsive subscription belongs
-- to a connected socket, of a positive generation, that has submitted its credentials.
pub record IsValidState (s : WsState) : Type 0 where
  pub durable_le : s.durable_sequence ≤ s.transport_sequence
  pub enqueued_le : s.enqueued_sequence ≤ s.transport_sequence
  pub transport_fits : s.transport_sequence ≤ u64_max
  pub generation_fits : s.generation ≤ u64_max
  pub liveness_fits : s.liveness_version ≤ u64_max
  pub gap_version_fits : s.gap_version ≤ u64_max
  pub raw_frame_fits : s.raw_frame_sequence ≤ u64_max
  pub responsive_connected : is_responsive s.subscription ≡ true → is_connected s.connection ≡ true
  pub responsive_submitted :
      is_responsive s.subscription ≡ true → is_submitted s.authentication ≡ true
  pub connected_positive : is_connected s.connection ≡ true → 0 < s.generation

-- Beside that: the sets and maps are well formed and within their capacities, the frame count is
-- that of the map, the atomic poison flag is that of the state, and the state is published.
pub record IsValid (c : Cell) : Type 0 where
  pub valid_state : IsValidState c.state
  pub ascending : Ascending 1 c.durable_out_of_order
  pub set_capped : length c.durable_out_of_order ≤ max_durable_out_of_order
  pub ranges : RangesWithin 1 c.state.transport_sequence c.dropped_ranges
  pub ranges_capped : length c.dropped_ranges ≤ max_dropped_ranges
  pub keyed : Keyed 1 c.raw_frames
  pub counted : c.state.pending_raw_frame_count ≡ length c.raw_frames
  pub poison_agrees : c.state.authority_poisoned ≡ c.authority_poisoned
  pub published : c.state_tx ≡ c.state
