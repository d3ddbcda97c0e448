-- ===== src/Ws/StateCell/Finalization.antt =====
-- auth/ws/state_cell/recovery.rs: what a preparation promises, and the three ends of a commit.
use mathlib.Core.Bool.{decide_iff}
use rspm.Common.{
  ℕ, ◌≡◌, refl, subst, ◌⊎◌, inl, inr, Bool, true, false, ◌||◌, Option, none, some, List, arith,
  if_elim,
}
use rspm.Ws.State.{
  WsState, CredentialAuthority, RecoveryToken, CatchUpFinalization, is_ready, WsState-discrete,
  sequences-discrete, ranges-discrete,
}
use rspm.Ws.StateCell.{Cell, publish, publish_poisoned, lock-cases}
use rspm.Ws.StateCell.Recovery.{
  Covered, settled, overflow, out_of_fuel, cover, cover_fuel, finalization_refused, recovered_state,
  finalize, prepare_catch_up_finalization, finalization_is_current, commit_catch_up_finalization,
}
use rspm.Ws.StateCell.Coverage.{IsCover, Covers}
use rspm.Ws.StateCell.Coverage.Loop.{cover-Covers}
use rspm.Ws.StateCell.Invariant.{IsValid}

-- What a finalization says of the cell that it was prepared on.
pub record IsPrepared (token : RecoveryToken) (authority : CredentialAuthority)
    (watermark minimum : ℕ) (c : Cell) (f : CatchUpFinalization) : Type 0 where
  pub unpoisoned : c.authority_poisoned ≡ false
  pub healthy_state : c.state_mutex ≡ false
  pub healthy_ledgers : (c.durable_mutex || c.dropped_mutex) ≡ false
  pub admitted : finalization_refused token authority watermark minimum c.state ≡ false
  pub expected_state : f.expected_state ≡ c.state
  pub expected_durable : f.expected_durable_out_of_order ≡ c.durable_out_of_order
  pub expected_dropped : f.expected_dropped_ranges ≡ c.dropped_ranges
  pub next_state : f.next_state ≡ recovered_state token watermark c.state
  pub ready : is_ready f.next_state ≡ true
  pub cover :
      IsCover c.state.transport_sequence watermark c.state.durable_sequence c.durable_out_of_order
        c.dropped_ranges watermark f.next_durable_out_of_order f.next_dropped_ranges

-- The cell with a finalization installed.
abbrev pub installed : CatchUpFinalization → Cell → Cell
installed f c = publish (record c {
  state = f.next_state;
  durable_out_of_order = f.next_durable_out_of_order;
  dropped_ranges = f.next_dropped_ranges;
})

pub finalization_is_current_lem :
    (f : CatchUpFinalization) (c : Cell)
    → finalization_is_current f c ≡ true
    → (c.state ≡ f.expected_state)
      × (c.durable_out_of_order ≡ f.expected_durable_out_of_order)
      × (c.dropped_ranges ≡ f.expected_dropped_ranges)
unfolding finalization_is_current
finalization_is_current_lem f c h = (
  (decide_iff (WsState-discrete c.state f.expected_state)).0 (ground arith),
  (decide_iff (sequences-discrete c.durable_out_of_order f.expected_durable_out_of_order)).0
      (ground arith),
  (decide_iff (ranges-discrete c.dropped_ranges f.expected_dropped_ranges)).0 (ground arith),
)

pub finalization_is_current_of :
    (f : CatchUpFinalization) (c : Cell)
    → c.state ≡ f.expected_state
    → c.durable_out_of_order ≡ f.expected_durable_out_of_order
    → c.dropped_ranges ≡ f.expected_dropped_ranges
    → finalization_is_current f c ≡ true
unfolding finalization_is_current
finalization_is_current_of f c s d r = ground (
  arith,
  (decide_iff (WsState-discrete c.state f.expected_state)).1 s,
  (decide_iff (sequences-discrete c.durable_out_of_order f.expected_durable_out_of_order)).1 d,
  (decide_iff (ranges-discrete c.dropped_ranges f.expected_dropped_ranges)).1 r,
)

finalize-some :
    (token : RecoveryToken) (watermark durable : ℕ) (pending : List ℕ) (dropped : List (ℕ × ℕ))
    (c : Cell) (f : CatchUpFinalization)
    → finalize token watermark (settled durable pending dropped) c ≡ some f
    → (durable ≡ watermark)
      × (f.next_durable_out_of_order ≡ pending)
      × (f.next_dropped_ranges ≡ dropped)
      × (f.expected_state ≡ c.state)
      × (f.expected_durable_out_of_order ≡ c.durable_out_of_order)
      × (f.expected_dropped_ranges ≡ c.dropped_ranges)
      × (f.next_state ≡ recovered_state token watermark c.state)
      × (is_ready f.next_state ≡ true)
unfolding finalize
finalize-some token watermark durable pending dropped c f e = ground arith

-- The ends of a commit: the cell is closed by a poisoned lock, is left alone, or takes the
-- finalization, which it then is current for.
abbrev CommitEnd : CatchUpFinalization → Cell → Cell × Bool → Type 0
CommitEnd f c r =
    (r ≡ (publish_poisoned c, false))
    ⊎ (r ≡ (c, false))
    ⊎ ((r ≡ (installed f c, true)) × (finalization_is_current f c ≡ true))

pub commit-cases :
    (f : CatchUpFinalization) (c : Cell) → CommitEnd f c (commit_catch_up_finalization f c)
unfolding commit_catch_up_finalization
commit-cases f c = elim (lock-cases c) [
  | inl e ↦ rw e (inl refl)
  | inr (e, _, _) ↦ rw e (
      if_elim (CommitEnd f c) (c.durable_mutex || c.dropped_mutex) (λ _. inl refl)
        (λ _.
          if_elim (CommitEnd f c) (finalization_is_current f c) (λ now. inr (inr (refl, now)))
            (λ _. inr (inl refl))))
]

-- The ends of a preparation.
abbrev PrepareEnd :
    RecoveryToken → CredentialAuthority → ℕ → ℕ → Cell → Cell × Option CatchUpFinalization → Type 0
PrepareEnd token authority watermark minimum c r =
    (r ≡ (publish_poisoned c, none))
    ⊎ (r ≡ (c, none))
    ⊎ ((r ≡ (
      c,
      finalize token watermark
          (cover (cover_fuel c.durable_out_of_order c.dropped_ranges) watermark
            c.state.durable_sequence c.durable_out_of_order c.dropped_ranges)
          c,
    ))
        × (c.authority_poisoned ≡ false)
        × (c.state_mutex ≡ false)
        × (finalization_refused token authority watermark minimum c.state ≡ false)
        × ((c.durable_mutex || c.dropped_mutex) ≡ false))

pub prepare-cases :
    (token : RecoveryToken) (authority : CredentialAuthority) (watermark minimum : ℕ) (c : Cell)
    → PrepareEnd token authority watermark minimum c
        (prepare_catch_up_finalization token authority watermark minimum c)
unfolding prepare_catch_up_finalization
prepare-cases token authority watermark minimum c = elim (lock-cases c) [
  | inl e ↦ rw e (inl refl)
  | inr (e, a, m) ↦ rw e (
      if_elim (PrepareEnd token authority watermark minimum c)
        (finalization_refused token authority watermark minimum c.state) (λ _. inr (inl refl))
        (λ admitted.
          if_elim (PrepareEnd token authority watermark minimum c)
            (c.durable_mutex || c.dropped_mutex) (λ _. inl refl)
            (λ healthy. inr (inr (refl, a, m, admitted, healthy)))))
]

pub refused_transport :
    (token : RecoveryToken) (authority : CredentialAuthority) (watermark minimum : ℕ) (s : WsState)
    → finalization_refused token authority watermark minimum s ≡ false
    → s.transport_sequence ≡ watermark
unfolding finalization_refused
refused_transport token authority watermark minimum s h = ground arith

finalize-IsPrepared :
    (token : RecoveryToken) (authority : CredentialAuthority) (watermark minimum : ℕ) (c : Cell)
    (f : CatchUpFinalization) (r : Covered)
    → Covers c.state.transport_sequence watermark c.state.durable_sequence c.durable_out_of_order
        c.dropped_ranges r
    → finalize token watermark r c ≡ some f
    → c.authority_poisoned ≡ false
    → c.state_mutex ≡ false
    → finalization_refused token authority watermark minimum c.state ≡ false
    → (c.durable_mutex || c.dropped_mutex) ≡ false
    → IsPrepared token authority watermark minimum c f
unfolding finalize
finalize-IsPrepared token authority watermark minimum c f (settled durable pending dropped) k e a m
      d l =
    let (there, nd, nr, s, o, r, n, y) =
      finalize-some token watermark durable pending dropped c f e in
    record {
      unpoisoned = a;
      healthy_state = m;
      healthy_ledgers = l;
      admitted = d;
      expected_state = s;
      expected_durable = o;
      expected_dropped = r;
      next_state = n;
      ready = y;
      cover =
          subst
            (λ w.
              IsCover c.state.transport_sequence watermark c.state.durable_sequence
                c.durable_out_of_order c.dropped_ranges w f.next_durable_out_of_order
                f.next_dropped_ranges)
            there (rw (nd, nr) k);
    }
finalize-IsPrepared token authority watermark minimum c f overflow k e a m d l = absurd k
finalize-IsPrepared token authority watermark minimum c f out_of_fuel k e a m d l = absurd k

-- A preparation that succeeds leaves the cell as it was and keeps its promises.
pub prepare-IsPrepared :
    (token : RecoveryToken) (authority : CredentialAuthority) (watermark minimum : ℕ) (c : Cell)
    (f : CatchUpFinalization)
    → IsValid c
    → (prepare_catch_up_finalization token authority watermark minimum c).1 ≡ some f
    → IsPrepared token authority watermark minimum c f
prepare-IsPrepared token authority watermark minimum c f v e =
    elim (prepare-cases token authority watermark minimum c) [
      | inl p ↦ absurd (ground arith)
      | inr (inl p) ↦ absurd (ground arith)
      | inr (inr (p, a, m, d, l)) ↦
          finalize-IsPrepared token authority watermark minimum c f _
            (cover-Covers (cover_fuel c.durable_out_of_order c.dropped_ranges)
              c.state.transport_sequence watermark c.state.durable_sequence c.durable_out_of_order
              c.dropped_ranges v.ascending v.ranges
              (omega (
                arith,
                refused_transport token authority watermark minimum c.state d,
                v.valid_state.transport_fits,
              ))
              (omega arith))
            (ground arith) a m d l
    ]
