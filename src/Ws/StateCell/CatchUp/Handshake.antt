-- ===== src/Ws/StateCell/CatchUp/Handshake.antt =====
-- auth/ws/state_cell.rs: the REST proof and the PONG that has to follow it.
use rspm.Common.{suc, some}
use rspm.Ws.State.{WsState, CredentialAuthority, RecoveryToken, server_responsive}
use rspm.Ws.StateCell.Marks.{set_authenticated_rest_proven}

-- The state after a REST proof.
abbrev proven : RecoveryToken → CredentialAuthority → WsState → WsState
proven token authority s = (set_authenticated_rest_proven token authority s).0

-- The state after a REST proof and a PONG.
abbrev answered : RecoveryToken → CredentialAuthority → WsState → WsState
answered token authority s = record s {
  rest_proof_generation = some token.generation;
  rest_credential_authority = some authority;
  rest_proof_liveness_floor = some s.liveness_version;
  liveness_version = suc s.liveness_version;
  subscription = server_responsive;
}
