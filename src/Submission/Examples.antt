-- ===== src/Submission/Examples.antt =====
-- A controller that is activated, mints an attempt and is revoked.
use rspm.Common.{true, false, none, some, ◌≡◌, refl}
use rspm.Ws.State.{authority_eq}
use rspm.Submission.{
  ProtocolAuthority, v2, Controller, Attempt, release_exclusive, activate, authorize_if, revalidate,
  poll_first_transport, request_revocation,
}
use rspm.Submission.Revocation.{start, revocation_ends_attempt}
use rspm.Submission.Minting.{activation_admits}

abbrev authority : ProtocolAuthority
authority = record { version = v2; credentials = record { identity = 7; generation = 3 } }

abbrev leased : Controller
leased = record {
  revocation_epoch = 0;
  poisoned = false;
  active = none;
  active_mutex = false;
  readers = 0;
  writer = true;
}

test_activate : (activate 0 authority leased).1 ≡ true
unfolding activate
test_activate = refl

activation_admits_example :
    (d : Controller) × (attempt : Attempt) × (authorize_if 1 authority
        (some true)
        (release_exclusive (activate 0 authority leased).0)
      ≡ some (d, some attempt))
    × ((revalidate 1 authority attempt d).1 ≡ true)
activation_admits_example = activation_admits 1 0 authority leased test_activate

abbrev active : Controller
active = record leased {
  writer = false;
  active = some (record { revocation_epoch = 0; protocol_authority = authority });
}

abbrev minted : Controller
minted = record active { readers = 1 }

abbrev attempt : Attempt
attempt = record { binding = 1; revocation_epoch = 0; protocol_authority = authority }

test_mint : authorize_if 1 authority (some true) active ≡ some (minted, some attempt)
unfolding authorize_if authority_eq
test_mint = refl

revocation_ends_attempt_example :
    ((revalidate 1 authority attempt (request_revocation minted)).1 ≡ false)
    × ((poll_first_transport 1 authority false attempt (request_revocation minted)).1 ≡ false)
revocation_ends_attempt_example =
    revocation_ends_attempt 1 authority (some true) active attempt test_mint (start minted)
      (start (request_revocation minted)) 1 authority false
