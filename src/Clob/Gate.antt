-- ===== src/Clob/Gate.antt =====
-- The gate of submission of clob/client.rs: which exact protocol authority may submit, and up to which
-- generation authorities are refused. A generation is that of the credentials.
pub mod Histories
use rspm.Common.{ℕ, Bool, true, false, not, ◌&&◌, Option, none, some, max, ltb, if◌then◌else◌}
use rspm.Submission.{ProtocolAuthority, protocol_eq}

-- `ProtocolSubmissionState`.
pub data GateState : Type 0 where
  closed : GateState
  active indeterminate : ProtocolAuthority → GateState

pub record Gate : Type 0 where
  pub state : GateState
  pub quarantined_through_generation : ℕ

unfoldable pub default_gate : Gate
default_gate = record { state = closed; quarantined_through_generation = 0 }

abbrev pub generation : ProtocolAuthority → ℕ
generation authority = authority.credentials.generation

-- The quarantine of a generation and all before it.
abbrev pub quarantined : ProtocolAuthority → Gate → ℕ
quarantined authority g = max g.quarantined_through_generation (generation authority)

-- The match of `close` on the state.
abbrev pub close_from : GateState → Gate → Gate
close_from closed g = g
close_from (active authority) g = record {
  state = closed;
  quarantined_through_generation = quarantined authority g;
}
close_from (indeterminate authority) g = g

unfoldable pub close : Gate → Gate
close g = close_from g.state g

abbrev pub is_indeterminate : GateState → Bool
is_indeterminate (indeterminate authority) = true
is_indeterminate _ = false

unfoldable pub quarantine : ProtocolAuthority → Gate → Gate
quarantine authority g = record {
  state = if not (is_indeterminate g.state) then closed else g.state;
  quarantined_through_generation = quarantined authority g;
}

unfoldable pub mark_indeterminate : ProtocolAuthority → Gate → Gate
mark_indeterminate authority g = record {
  state = indeterminate authority;
  quarantined_through_generation = quarantined authority g;
}

abbrev pub is_active : GateState → Bool
is_active (active authority) = true
is_active _ = false

unfoldable pub can_activate : ProtocolAuthority → Gate → Bool
can_activate authority g =
    ltb g.quarantined_through_generation (generation authority) && not (is_active g.state)

unfoldable pub activate : ProtocolAuthority → Gate → Gate
activate authority g = record g { state = active authority }

-- A permit is its authority.
abbrev pub active_authority : GateState → Option ProtocolAuthority
active_authority (active authority) = some authority
active_authority _ = none

unfoldable pub permit : Gate → Option ProtocolAuthority
permit g = active_authority g.state

abbrev pub is_active_authority : GateState → ProtocolAuthority → Bool
is_active_authority (active authority) expected = protocol_eq authority expected
is_active_authority _ expected = false

unfoldable pub matches : ProtocolAuthority → Gate → Bool
matches expected g =
    is_active_authority g.state expected
    && ltb g.quarantined_through_generation (generation expected)

-- The tail of `activate_authenticated_protocol_authority_if`, under the lock of the gate; `activates`
-- is the answer of the caller's closure. `none` is the refusal.
unfoldable pub activate_if : ProtocolAuthority → Bool → Gate → Gate × Option Bool
unfolding can_activate activate
activate_if expected activates g =
    if not (can_activate expected g)
    then (g, none)
    else if activates
    then (activate expected g, some true)
    else (g, some false)
