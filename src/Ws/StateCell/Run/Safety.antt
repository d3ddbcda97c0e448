-- ===== src/Ws/StateCell/Run/Safety.antt =====
-- auth/ws/state_cell: the invariants of histories.
use rspm.Common.{
  ℕ, ◌≤◌, ◌≡◌, ◌⊎◌, inl, inr, refl, sym, ◌∙◌, is_some, true, false, some, none, subst, arith,
}
use rspm.Ws.State.{WsState, CredentialAuthority, RecoveryToken, CatchUpFinalization, is_ready}
use rspm.Ws.StateCell.{Cell}
use rspm.Ws.StateCell.Recovery.{
  prepare_catch_up_finalization, commit_catch_up_finalization, recovered_state,
  finalization_is_current,
}
use rspm.Ws.StateCell.Coverage.{IsCover}
use rspm.Ws.StateCell.Progress.{Progress, Progress-refl, Progress-trans, Unrecovered}
use rspm.Ws.StateCell.Progress.Operations.{Effect-refl, Effect-trans, publish_poisoned-Effect}
use rspm.Ws.StateCell.Invariant.{IsValidState, IsValid}
use rspm.Ws.StateCell.Invariant.Operations.{publish_poisoned-IsValid}
use rspm.Ws.StateCell.Finalization.{
  IsPrepared, installed, refused_transport, finalization_is_current_lem, commit-cases,
  prepare-IsPrepared,
}
use rspm.Ws.StateCell.Run.{
  Quiet, Reach, Quiet.here, Quiet.next, Reach.here, Reach.next, Reach.commit,
}
use rspm.Ws.StateCell.Run.Calls.{Keeps, perform-Keeps}

-- Beside validity, the counters and the sticky flags.
abbrev KeepsProgress : Cell → Cell → Type 0
KeepsProgress c d = IsValid d × Progress c.state d.state

recovered_state-IsValidState :
    (token : RecoveryToken) (s : WsState)
    → IsValidState s
    → IsValidState (recovered_state token s.transport_sequence s)
unfolding recovered_state
recovered_state-IsValidState token s v = ground arith

recovered_state-Progress :
    (token : RecoveryToken) (durable : ℕ) (s : WsState)
    → s.durable_sequence ≤ durable
    → Progress s (recovered_state token durable s)
unfolding recovered_state
recovered_state-Progress token durable s h = ground arith

recovered_state_same :
    (token : RecoveryToken) (durable : ℕ) (s : WsState)
    → let t = recovered_state token durable s in
      (t.transport_sequence ≡ s.transport_sequence)
      × (t.pending_raw_frame_count ≡ s.pending_raw_frame_count)
      × (t.authority_poisoned ≡ s.authority_poisoned)
unfolding recovered_state
recovered_state_same token durable s = ground arith

-- A finalization that was prepared on the ledgers that the cell has.
installed-KeepsProgress :
    (token : RecoveryToken) (c : Cell) (f : CatchUpFinalization)
    → IsValid c
    → f.next_state ≡ recovered_state token c.state.transport_sequence c.state
    → IsCover c.state.transport_sequence c.state.transport_sequence c.state.durable_sequence
        c.durable_out_of_order c.dropped_ranges c.state.transport_sequence
        f.next_durable_out_of_order f.next_dropped_ranges
    → KeepsProgress c (installed f c)
installed-KeepsProgress token c f v n k =
    let (transport, pending, poison) =
      recovered_state_same token c.state.transport_sequence c.state in
    (
      record {
        valid_state = rw n (recovered_state-IsValidState token c.state v.valid_state);
        ascending = k.ascending;
        set_capped = omega (arith, k.shorter, v.set_capped);
        ranges = rw (n, transport) k.ranges;
        ranges_capped = omega (arith, k.fewer, v.ranges_capped);
        keyed = v.keyed;
        counted = rw (n, pending) v.counted;
        poison_agrees = rw (n, poison) v.poison_agrees;
        published = refl;
      },
      rw n (recovered_state-Progress token _ c.state k.grows),
    )

-- The same, prepared on another cell with equal ledgers.
current-KeepsProgress :
    (token : RecoveryToken) (authority : CredentialAuthority) (watermark minimum : ℕ)
    (prepared c : Cell) (f : CatchUpFinalization)
    → IsValid c
    → IsPrepared token authority watermark minimum prepared f
    → finalization_is_current f c ≡ true
    → KeepsProgress c (installed f c)
current-KeepsProgress token authority watermark minimum prepared c f v p now =
    let (state, durable, dropped) = finalization_is_current_lem f c now in
    let same : c.state ≡ prepared.state = state ∙ p.expected_state in
    let at : watermark ≡ c.state.transport_sequence =
      rw same
        (sym (refused_transport token authority watermark minimum prepared.state p.admitted)) in
    installed-KeepsProgress token c f v
      (subst (λ w. f.next_state ≡ recovered_state token w c.state) at (rw same p.next_state))
      (subst
        (λ w.
          IsCover c.state.transport_sequence w c.state.durable_sequence c.durable_out_of_order
            c.dropped_ranges w f.next_durable_out_of_order f.next_dropped_ranges)
        at (rw (same, durable ∙ p.expected_durable, dropped ∙ p.expected_dropped) p.cover))

pub commit-KeepsProgress :
    (token : RecoveryToken) (authority : CredentialAuthority) (watermark minimum : ℕ)
    (prepared c : Cell) (f : CatchUpFinalization)
    → IsValid prepared
    → (prepare_catch_up_finalization token authority watermark minimum prepared).1 ≡ some f
    → IsValid c
    → KeepsProgress c (commit_catch_up_finalization f c).0
commit-KeepsProgress token authority watermark minimum prepared c f w e v =
    elim (commit-cases f c) [
      | inl r ↦ rw r (publish_poisoned-IsValid c v, (publish_poisoned-Effect c).progress)
      | inr (inl r) ↦ rw r (v, Progress-refl c.state)
      | inr (inr (r, now)) ↦ rw r (
          current-KeepsProgress token authority watermark minimum prepared c f v
            (prepare-IsPrepared token authority watermark minimum prepared f w e) now)
    ]

-- Every history keeps the cell well formed; counters never fall, and what closed the channel for
-- good stays: a closed consumer, a poisoned authority, an exhausted counter.
pub Reach-KeepsProgress :
    {c d : Cell} → Reach c d → IsValid c → IsValid d × Progress c.state d.state
Reach-KeepsProgress (here c) v = (v, Progress-refl c.state)
Reach-KeepsProgress (next {d = d} r call) v =
    let (w, p) = Reach-KeepsProgress r v in
    let (u, q) = perform-Keeps call d w in (u, Progress-trans p q.progress)
Reach-KeepsProgress (commit {d = d} r token authority watermark minimum prepared f pv e) v =
    let (w, p) = Reach-KeepsProgress r v in
    let (u, q) = commit-KeepsProgress token authority watermark minimum prepared d f pv e w in
    (u, Progress-trans p q)

-- The conditions that no recovery clears.
abbrev pub IsClosed : WsState → Type 0
IsClosed s =
    (s.consumer_closed ≡ true)
    ⊎ (s.authority_poisoned ≡ true)
    ⊎ (is_some s.counter_exhaustion ≡ true)

closed_not_ready : (s t : WsState) → IsClosed s → Progress s t → is_ready t ≡ false
unfolding is_ready
closed_not_ready s t h p = ground arith

-- A channel that a closed consumer, a poisoned authority or an exhausted counter has closed is
-- never ready again, whatever calls and commits follow.
pub closed_for_good :
    {c d : Cell} → IsValid c → IsClosed c.state → Reach c d → is_ready d.state ≡ false
closed_for_good v h r = closed_not_ready _ _ h (Reach-KeepsProgress r v).1

pub Quiet-Keeps : {c d : Cell} → Quiet c d → IsValid c → Keeps c d
Quiet-Keeps (here c) v = (v, Effect-refl c)
Quiet-Keeps (next {d = d} r call) v =
    let (w, p) = Quiet-Keeps r v in let (u, q) = perform-Keeps call d w in (u, Effect-trans p q)

-- The conditions that only a committed catch-up clears.
abbrev pub IsUnrecovered : WsState → Type 0
IsUnrecovered s =
    (s.schema_gap ≡ true)
    ⊎ (s.delivery_gap ≡ true)
    ⊎ (s.evidence_gap ≡ true)
    ⊎ (s.catch_up_generation ≡ none)

uncaught_not_ready : (s t : WsState) → IsUnrecovered s → Unrecovered s t → is_ready t ≡ false
unfolding is_ready
uncaught_not_ready s t h u = ground arith

-- A channel with a gap, or without a catch-up of its socket, is not ready until a catch-up is
-- committed: no history without a commit makes it so.
pub unrecovered_until_commit :
    {c d : Cell} → IsValid c → IsUnrecovered c.state → Quiet c d → is_ready d.state ≡ false
unrecovered_until_commit v h r = uncaught_not_ready _ _ h (Quiet-Keeps r v).1.unrecovered
