-- ===== src/Ws/StateCell/CatchUp/Completion.antt =====
-- auth/ws/state_cell/recovery.rs: from the conditions of a catch-up to its completion.
use rspm.Common.{
  ap, ◌∙◌, sym, Option, ℕ, ◌<◌, ◌≤◌, ◌≡◌, refl, Bool, true, false, ◌||◌, some, none, if_elim, arith,
}
use rspm.Ws.State.{CredentialAuthority, RecoveryToken, CatchUpFinalization, is_ready}
use rspm.Ws.StateCell.{Cell, lock_open}
use rspm.Ws.StateCell.Recovery.{
  Covered, settled, overflow, out_of_fuel, cover, cover_fuel, finalize,
  prepare_catch_up_finalization, commit_catch_up_finalization, recovered_state,
  finalization_is_current, finalization_refused,
}
use rspm.Ws.StateCell.Coverage.{Covers, accounted}
use rspm.Ws.StateCell.Coverage.Loop.{cover-Covers}
use rspm.Ws.StateCell.Invariant.{IsValid}
use rspm.Ws.StateCell.Finalization.{
  installed, finalization_is_current_of, prepare-IsPrepared, refused_transport,
}
use rspm.Ws.StateCell.CatchUp.{recovered_ready, finalize_exact}

-- The answer of a preparation that gets past the guards.
abbrev answer : RecoveryToken → ℕ → Cell → Cell × Option CatchUpFinalization
answer token watermark c = (
  c,
  finalize token watermark
      (cover (cover_fuel c.durable_out_of_order c.dropped_ranges) watermark c.state.durable_sequence
        c.durable_out_of_order c.dropped_ranges)
      c,
)

prepare_open :
    (token : RecoveryToken) (authority : CredentialAuthority) (watermark minimum : ℕ) (c : Cell)
    → c.authority_poisoned ≡ false
    → c.state_mutex ≡ false
    → (c.durable_mutex || c.dropped_mutex) ≡ false
    → finalization_refused token authority watermark minimum c.state ≡ false
    → prepare_catch_up_finalization token authority watermark minimum c ≡ answer token watermark c
unfolding prepare_catch_up_finalization
prepare_open token authority watermark minimum c a m l d =
    let Open : Cell × Option CatchUpFinalization → Type 0 = λ r. r ≡ answer token watermark c in
    rw (lock_open c a m) (
      if_elim Open (finalization_refused token authority watermark minimum c.state)
        (λ refused. absurd (ground arith))
        (λ _.
          if_elim Open (c.durable_mutex || c.dropped_mutex) (λ h. absurd (ground arith))
            (λ _. refl)))

commit_open :
    (f : CatchUpFinalization) (c : Cell)
    → c.authority_poisoned ≡ false
    → c.state_mutex ≡ false
    → (c.durable_mutex || c.dropped_mutex) ≡ false
    → finalization_is_current f c ≡ true
    → commit_catch_up_finalization f c ≡ (installed f c, true)
unfolding commit_catch_up_finalization
commit_open f c a m l now =
    let Open : Cell × Bool → Type 0 = λ r. r ≡ (installed f c, true) in
    rw (lock_open c a m) (
      if_elim Open (c.durable_mutex || c.dropped_mutex) (λ h. absurd (ground arith))
        (λ _.
          if_elim Open (finalization_is_current f c) (λ _. refl) (λ stale. absurd (ground arith))))

finalize_covered :
    (token : RecoveryToken) (watermark : ℕ) (c : Cell) (r : Covered)
    → Covers c.state.transport_sequence watermark c.state.durable_sequence c.durable_out_of_order
        c.dropped_ranges r
    → c.state.durable_sequence ≤ watermark
    → ((z : ℕ)
        → c.state.durable_sequence < z
        → z ≤ watermark
        → accounted z c.durable_out_of_order c.dropped_ranges ≡ true)
    → is_ready (recovered_state token watermark c.state) ≡ true
    → (f : CatchUpFinalization) × (finalize token watermark r c ≡ some f)
finalize_covered token watermark c (settled durable pending dropped) k le all ready =
    finalize_exact token watermark durable c pending dropped
      (omega (arith, k.complete all, k.bounded le)) ready
finalize_covered token watermark c overflow k le all ready = absurd k
finalize_covered token watermark c out_of_fuel k le all ready = absurd k

-- On a healthy, well-formed cell whose state admits the catch-up, with no frame pending and no
-- counter exhausted, a preparation succeeds if every sequence up to the watermark is durable or in
-- a dropped range; its commit succeeds at once and makes the channel ready.
pub catch_up_completes :
    (token : RecoveryToken) (authority : CredentialAuthority) (watermark minimum : ℕ) (c : Cell)
    → IsValid c
    → c.authority_poisoned ≡ false
    → c.state_mutex ≡ false
    → (c.durable_mutex || c.dropped_mutex) ≡ false
    → finalization_refused token authority watermark minimum c.state ≡ false
    → c.state.pending_raw_frame_count ≡ 0
    → c.state.counter_exhaustion ≡ none
    → ((z : ℕ)
        → c.state.durable_sequence < z
        → z ≤ watermark
        → accounted z c.durable_out_of_order c.dropped_ranges ≡ true)
    → (f : CatchUpFinalization) × (prepare_catch_up_finalization token authority watermark minimum c
        ≡ (c, some f))
      × ((commit_catch_up_finalization f c).1 ≡ true)
      × (is_ready (commit_catch_up_finalization f c).0.state ≡ true)
catch_up_completes token authority watermark minimum c v a m l d n x all =
    let at = refused_transport token authority watermark minimum c.state d in
    let ready =
      recovered_ready token authority watermark minimum c.state d (v.poison_agrees ∙ a) n x in
    let covers =
      cover-Covers (cover_fuel c.durable_out_of_order c.dropped_ranges) c.state.transport_sequence
        watermark c.state.durable_sequence c.durable_out_of_order c.dropped_ranges v.ascending
        v.ranges (omega (arith, at, v.valid_state.transport_fits)) (omega arith) in
    let (f, found) =
      finalize_covered token watermark c _ covers (omega (arith, at, v.valid_state.durable_le)) all
        ready in
    let prepared : prepare_catch_up_finalization token authority watermark minimum c ≡ (c, some f) =
      prepare_open token authority watermark minimum c a m l d ∙ ap (λ r. (c, r)) found in
    let p =
      prepare-IsPrepared token authority watermark minimum c f v
        (ap (λ (r : Cell × _). r.1) prepared) in
    let committed = commit_open f c a m l (
      finalization_is_current_of f c (sym p.expected_state) (sym p.expected_durable)
        (sym p.expected_dropped)) in
    (
      f,
      prepared,
      ap (λ (r : Cell × Bool). r.1) committed,
      ap (λ (r : Cell × Bool). is_ready r.0.state) committed ∙ p.ready,
    )
