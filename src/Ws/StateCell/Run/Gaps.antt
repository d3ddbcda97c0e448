-- ===== src/Ws/StateCell/Run/Gaps.antt =====
-- auth/ws/state_cell.rs: gap versions and the preparations made before them.
use rspm.Common.{◌<◌, ◌≡◌, ◌⊎◌, is_some, Bool, true, false}
use rspm.Ws.State.{WsState}
use rspm.Ws.StateCell.Progress.{Progress}
use rspm.Ws.StateCell.Run.{
  Call, connected, disconnected, schema_gap, delivery_gap, consumer_closed, evidence_gap,
  authority_poisoned,
}

-- The calls that take a new gap version.
abbrev pub opens_gap : Call → Bool
opens_gap connected = true
opens_gap disconnected = true
opens_gap schema_gap = true
opens_gap delivery_gap = true
opens_gap consumer_closed = true
opens_gap evidence_gap = true
opens_gap authority_poisoned = true
opens_gap _ = false

-- The second state has a later gap version, or is closed for good.
abbrev Outdates : WsState → WsState → Type 0
Outdates s t =
    (s.gap_version < t.gap_version)
    ⊎ (t.authority_poisoned ≡ true)
    ⊎ (is_some t.counter_exhaustion ≡ true)
