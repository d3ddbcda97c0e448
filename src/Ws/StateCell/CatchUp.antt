-- ===== src/Ws/StateCell/CatchUp.antt =====
-- auth/ws/state_cell/recovery.rs: a catch-up from its REST proof to its commit.
pub mod Completion
pub mod Handshake
use rspm.Common.{
  is_some, Option-cases, ◌==◌, ◌&&◌, ap, List, ℕ, ◌+◌, ◌≤◌, ◌<◌, ◌≡◌, ◌⊎◌, inl, inr, Bool, true,
  false, ◌||◌, some, none, is_none, refl, sym, ◌∙◌, arith, u64_max, subst, length,
}
use rspm.Ws.State.{
  WsState, CredentialAuthority, RecoveryToken, CatchUpFinalization, is_ready, recovery_token,
  is_token, token_eq, is_connected, is_submitted, is_responsive,
}
use rspm.Ws.StateCell.{Cell, publish_poisoned, lock, lock-cases, update, update-cases}
use rspm.Ws.StateCell.Marks.{
  set_authenticated_rest_proven, set_server_liveness_proven, mark_authenticated_rest_proven,
  mark_server_liveness_proven,
}
use rspm.Ws.StateCell.Recovery.{
  Covered, settled, overflow, out_of_fuel, cover, cover_fuel, finalize,
  prepare_catch_up_finalization, commit_catch_up_finalization, recovered_state,
  finalization_is_current, finalization_refused,
}
use rspm.Ws.StateCell.Coverage.{IsCover, Covers, accounted}
use rspm.Ws.StateCell.Coverage.Loop.{cover-Covers}
use rspm.Ws.StateCell.Invariant.{IsValidState, IsValid}
use rspm.Ws.StateCell.Finalization.{
  IsPrepared, installed, finalization_is_current_lem, finalization_is_current_of, commit-cases,
  prepare-IsPrepared, refused_transport,
}

-- What a committed catch-up has established, of the cell before and the cell after.
pub record IsCaughtUp (minimum watermark : ℕ) (before after : Cell) : Type 0 where
  pub ready : is_ready after.state ≡ true
  pub durable_at : after.state.durable_sequence ≡ watermark
  pub transport_at : before.state.transport_sequence ≡ watermark
  pub proof_floor : before.state.rest_proof_liveness_floor ≡ some minimum
  pub later_pong : minimum < before.state.liveness_version
  pub every_sequence :
      (z : ℕ)
      → before.state.durable_sequence < z
      → z ≤ watermark
      → accounted z before.durable_out_of_order before.dropped_ranges ≡ true

admitted_proof :
    (token : RecoveryToken) (authority : CredentialAuthority) (watermark minimum : ℕ) (s : WsState)
    → finalization_refused token authority watermark minimum s ≡ false
    → (s.rest_proof_liveness_floor ≡ some minimum) × (minimum < s.liveness_version)
unfolding finalization_refused
admitted_proof token authority watermark minimum s h = ground arith

recovered_durable :
    (token : RecoveryToken) (durable : ℕ) (s : WsState)
    → (recovered_state token durable s).durable_sequence ≡ durable
unfolding recovered_state
recovered_durable token durable s = refl

-- A commit of what was prepared on a well-formed cell, if it succeeds, makes the channel ready at
-- the watermark: every transport sequence up to it is durable or was dropped on record, and a PONG
-- came after the REST proof.
pub commit_catches_up :
    (token : RecoveryToken) (authority : CredentialAuthority) (watermark minimum : ℕ)
    (prepared c : Cell) (f : CatchUpFinalization)
    → IsValid prepared
    → (prepare_catch_up_finalization token authority watermark minimum prepared).1 ≡ some f
    → (commit_catch_up_finalization f c).1 ≡ true
    → IsCaughtUp minimum watermark c (commit_catch_up_finalization f c).0
commit_catches_up token authority watermark minimum prepared c f v e done =
    let p = prepare-IsPrepared token authority watermark minimum prepared f v e in
    elim (commit-cases f c) [
      | inl r ↦ absurd (ground arith)
      | inr (inl r) ↦ absurd (ground arith)
      | inr (inr (r, now)) ↦
          let (state, durable, dropped) = finalization_is_current_lem f c now in
          let same : c.state ≡ prepared.state = state ∙ p.expected_state in
          let (floor, later) =
            admitted_proof token authority watermark minimum prepared.state p.admitted in
          rw r (record {
            ready = p.ready;
            durable_at = rw p.next_state (recovered_durable token watermark prepared.state);
            transport_at =
                rw same
                  (refused_transport token authority watermark minimum prepared.state p.admitted);
            proof_floor = rw same floor;
            later_pong = rw same later;
            every_sequence = λ z lo hi.
                rw (durable ∙ p.expected_durable, dropped ∙ p.expected_dropped)
                  (p.cover.covered z (ground (arith, ap (λ s. s.durable_sequence) same)) hi);
          })
    ]

-- The two answers of `recovery_token`.
pub recovery_token-cases :
    (s : WsState)
    → (recovery_token s ≡ none)
      ⊎ ((recovery_token s
            ≡ some (record {
              generation = s.generation;
              gap_version = s.gap_version;
              credential_identity = s.credential_identity;
            }))
          × (is_connected s.connection ≡ true)
          × (is_submitted s.authentication ≡ true)
          × (is_responsive s.subscription ≡ true)
          × (0 < s.generation))
unfolding recovery_token
recovery_token-cases s = ground arith

pub recovery_token-true :
    (s : WsState) (token : RecoveryToken)
    → is_token (recovery_token s) token ≡ true
    → (s.generation ≡ token.generation)
      × (is_connected s.connection ≡ true)
      × (is_submitted s.authentication ≡ true)
      × (is_responsive s.subscription ≡ true)
      × (0 < s.generation)
unfolding token_eq
recovery_token-true s token h = elim (recovery_token-cases s) [
  | inl e ↦ absurd (ground arith)
  | inr (e, connected, submitted, responsive, positive) ↦
      let same : is_token (some _) token ≡ true = subst (λ t. is_token t token ≡ true) e h in
      (ground arith, connected, submitted, responsive, positive)
]

ready_of :
    (token : RecoveryToken) (watermark : ℕ) (s : WsState)
    → s.generation ≡ token.generation
    → is_connected s.connection ≡ true
    → is_submitted s.authentication ≡ true
    → is_responsive s.subscription ≡ true
    → 0 < s.generation
    → is_some s.rest_credential_authority ≡ true
    → s.transport_sequence ≡ watermark
    → s.consumer_closed ≡ false
    → s.authority_poisoned ≡ false
    → s.pending_raw_frame_count ≡ 0
    → s.counter_exhaustion ≡ none
    → is_ready (recovered_state token watermark s) ≡ true
unfolding recovered_state is_ready
ready_of token watermark s g c u r p a t k y n x = ground arith

admitted_token :
    (token : RecoveryToken) (authority : CredentialAuthority) (watermark minimum : ℕ) (s : WsState)
    → finalization_refused token authority watermark minimum s ≡ false
    → (is_token (recovery_token s) token ≡ true)
      × (is_some s.rest_credential_authority ≡ true)
      × (s.transport_sequence ≡ watermark)
      × (s.consumer_closed ≡ false)
unfolding finalization_refused
admitted_token token authority watermark minimum s h = ground arith

-- The state is admitted and has no frame pending and no counter exhausted.
recovered_ready :
    (token : RecoveryToken) (authority : CredentialAuthority) (watermark minimum : ℕ) (s : WsState)
    → finalization_refused token authority watermark minimum s ≡ false
    → s.authority_poisoned ≡ false
    → s.pending_raw_frame_count ≡ 0
    → s.counter_exhaustion ≡ none
    → is_ready (recovered_state token watermark s) ≡ true
recovered_ready token authority watermark minimum s h a p x =
    let (t, proven, at, unclosed) = admitted_token token authority watermark minimum s h in
    let (g, c, u, r, positive) = recovery_token-true s token t in
    ready_of token watermark s g c u r positive proven at unclosed a p x

finalize_exact :
    (token : RecoveryToken) (watermark durable : ℕ) (c : Cell) (pending : List ℕ)
    (dropped : List (ℕ × ℕ))
    → durable ≡ watermark
    → is_ready (recovered_state token watermark c.state) ≡ true
    → (f : CatchUpFinalization) × (finalize token watermark (settled durable pending dropped) c
        ≡ some f)
unfolding finalize
finalize_exact token watermark durable c pending dropped e r =
    let yes : (durable == watermark && is_ready (recovered_state token durable c.state)) ≡ true =
      rw e (ground arith) in
    elim (Option-cases (finalize token watermark (settled durable pending dropped) c)) [
      | inl n ↦ absurd (ground arith)
      | inr (f, found) ↦ (f, found)
    ]
