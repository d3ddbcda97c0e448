-- ===== src/Ws/StateCell/Examples/History.antt =====
-- Runs of a catch-up, its failures included.
use rspm.Common.{ℕ, ◌<◌, ◌≤◌, ◌≡◌, refl, true, false, some, [], arith, inl, inr}
use rspm.Ws.State.{
  CatchUpFinalization, is_ready, recovery_token, token_eq, authority_eq, WsState-discrete,
  sequences-discrete, ranges-discrete,
}
use rspm.Ws.StateCell.{lock}
use rspm.Ws.StateCell.Recovery.{
  prepare_catch_up_finalization, commit_catch_up_finalization, recovered_state,
  finalization_refused, finalize, cover, finalization_is_current,
}
use rspm.Ws.StateCell.Coverage.{accounted}
use rspm.Ws.StateCell.Progress.{Progress}
use rspm.Ws.StateCell.Invariant.{IsValid}
use rspm.Ws.StateCell.Run.{perform, Quiet, Reach, connected, acknowledges}
use rspm.Ws.StateCell.Run.Safety.{Reach-KeepsProgress, closed_for_good, unrecovered_until_commit}
use rspm.Ws.StateCell.CatchUp.{IsCaughtUp, commit_catches_up}
use rspm.Ws.StateCell.CatchUp.Completion.{catch_up_completes}
use rspm.Ws.StateCell.Examples.{
  token, authority, live, caught_up, live-IsValid, caught_up-IsValid, live_reaches, shut,
  shut-IsClosed, shut-IsValid,
}

Reach-KeepsProgress_example : IsValid caught_up × Progress live.state caught_up.state
Reach-KeepsProgress_example = Reach-KeepsProgress live_reaches live-IsValid

closed_for_good_example : is_ready (perform connected shut).state ≡ false
closed_for_good_example =
    closed_for_good shut-IsValid shut-IsClosed (Reach.next (Reach.here shut) connected)

unrecovered_until_commit_example : is_ready (perform (acknowledges 1) live).state ≡ false
unrecovered_until_commit_example =
    unrecovered_until_commit live-IsValid (inr (inr (inl refl)))
      (Quiet.next (Quiet.here live) (acknowledges 1))

abbrev finalization : CatchUpFinalization
finalization = record {
  expected_state = caught_up.state;
  next_state = recovered_state token 2 caught_up.state;
  expected_durable_out_of_order = [];
  next_durable_out_of_order = [];
  expected_dropped_ranges = [];
  next_dropped_ranges = [];
}

test_prepare : (prepare_catch_up_finalization token authority 2 1 caught_up).1 ≡ some finalization
unfolding prepare_catch_up_finalization lock finalization_refused finalize cover recovery_token
    token_eq authority_eq is_ready recovered_state
test_prepare = refl

test_commit : (commit_catch_up_finalization finalization caught_up).1 ≡ true
unfolding commit_catch_up_finalization lock finalization_is_current WsState-discrete
    mathlib.Core.Bool.decide sequences-discrete ranges-discrete
test_commit = refl

commit_catches_up_example :
    IsCaughtUp 1 2 caught_up (commit_catch_up_finalization finalization caught_up).0
commit_catches_up_example =
    commit_catches_up token authority 2 1 caught_up caught_up finalization caught_up-IsValid
      test_prepare test_commit

test_admitted : finalization_refused token authority 2 1 caught_up.state ≡ false
unfolding finalization_refused recovery_token token_eq authority_eq
test_admitted = refl

test_accounted :
    (z : ℕ)
    → 2 < z
    → z ≤ 2
    → accounted z caught_up.durable_out_of_order caught_up.dropped_ranges ≡ true
test_accounted z lo hi = absurd (omega arith)

catch_up_completes_example :
    (f : CatchUpFinalization) × (prepare_catch_up_finalization token authority 2 1 caught_up
      ≡ (caught_up, some f))
    × ((commit_catch_up_finalization f caught_up).1 ≡ true)
    × (is_ready (commit_catch_up_finalization f caught_up).0.state ≡ true)
catch_up_completes_example =
    catch_up_completes token authority 2 1 caught_up caught_up-IsValid refl refl refl test_admitted
      refl refl test_accounted
