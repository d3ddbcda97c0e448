-- ===== src/Submission/Minting.antt =====
-- clob/submission.rs: activation and the minting of attempts.
use rspm.Common.{ℕ, suc, Bool, true, false, Option, some, ◌≡◌, refl, ap, subst, sym, ◌∙◌, arith}
use rspm.Ws.State.{authority_eq}
use rspm.Submission.{
  ProtocolAuthority, protocol_eq, is_active, Controller, Attempt, lock_active, release_exclusive,
  acquire_shared, activate, authorize_held, authorize_if, still_active, revalidate,
}

protocol_eq_refl : (a : ProtocolAuthority) → protocol_eq a a ≡ true
unfolding protocol_eq authority_eq
protocol_eq_refl a = ground arith

activate-true :
    (epoch : ℕ) (authority : ProtocolAuthority) (c : Controller)
    → (activate epoch authority c).1 ≡ true
    → (c.revocation_epoch ≡ epoch)
      × (c.poisoned ≡ false)
      × (c.active_mutex ≡ false)
      × ((activate epoch authority c).0 ≡ record c {
        active = some (record { revocation_epoch = epoch; protocol_authority = authority });
      })
unfolding activate
activate-true epoch authority c h = ground arith

mint_active :
    (binding : ℕ) (authority : ProtocolAuthority) (c : Controller)
    → c.poisoned ≡ false
    → c.active_mutex ≡ false
    → is_active c.active
        (record { revocation_epoch = c.revocation_epoch; protocol_authority = authority })
      ≡ true
    → authorize_held binding authority (some true) c ≡ (
      c,
      some (record {
        binding = binding;
        revocation_epoch = c.revocation_epoch;
        protocol_authority = authority;
      }),
    )
unfolding authorize_held lock_active
mint_active binding authority c p m h = ground arith

revalidate_active :
    (binding : ℕ) (authority : ProtocolAuthority) (c : Controller)
    → c.poisoned ≡ false
    → c.active_mutex ≡ false
    → is_active c.active
        (record { revocation_epoch = c.revocation_epoch; protocol_authority = authority })
      ≡ true
    → (revalidate binding authority
        (record {
          binding = binding;
          revocation_epoch = c.revocation_epoch;
          protocol_authority = authority;
        })
        c).1
      ≡ true
unfolding revalidate lock_active still_active
revalidate_active binding authority c p m h = ground (arith, protocol_eq_refl authority)

is_active_refl :
    (epoch : ℕ) (authority : ProtocolAuthority)
    → is_active
        (some (record { revocation_epoch = epoch; protocol_authority = authority }))
        (record { revocation_epoch = epoch; protocol_authority = authority })
      ≡ true
unfolding is_active
is_active_refl epoch authority = ground (arith, protocol_eq_refl authority)

authorize_if_open :
    (binding : ℕ) (authority : ProtocolAuthority) (answer : Option Bool) (c : Controller)
    → c.writer ≡ false
    → authorize_if binding authority answer c
      ≡ some (authorize_held binding authority answer (record c { readers = suc c.readers }))
unfolding authorize_if acquire_shared
authorize_if_open binding authority answer c w = ground arith

-- The controller that a successful activation leaves, its lease released and one attempt live.
abbrev activated : ℕ → ProtocolAuthority → Controller → Controller
activated epoch authority c = record c {
  active = some (record { revocation_epoch = epoch; protocol_authority = authority });
  writer = false;
  readers = suc c.readers;
}

-- After an activation that succeeds and the release of its lease, an authorization of the same
-- authority whose check passes mints an attempt at once, and the attempt passes its revalidation.
pub activation_admits :
    (binding epoch : ℕ) (authority : ProtocolAuthority) (c : Controller)
    → (activate epoch authority c).1 ≡ true
    → (d : Controller) × (attempt : Attempt) × (authorize_if binding authority
          (some true)
          (release_exclusive (activate epoch authority c).0)
        ≡ some (d, some attempt))
      × ((revalidate binding authority attempt d).1 ≡ true)
activation_admits binding epoch authority c h =
    let (at, sound, open_mutex, after) = activate-true epoch authority c h in
    let d = activated epoch authority c in
    let active : is_active d.active
          (record { revocation_epoch = d.revocation_epoch; protocol_authority = authority })
        ≡ true =
      subst
        (λ e.
          is_active d.active (record { revocation_epoch = e; protocol_authority = authority })
          ≡ true)
        (sym at) (is_active_refl epoch authority) in
    (
      d,
      record {
        binding = binding;
        revocation_epoch = c.revocation_epoch;
        protocol_authority = authority;
      },
      ap (λ e. authorize_if binding authority (some true) (release_exclusive e)) after
          ∙ authorize_if_open binding authority (some true)
              (release_exclusive (record c { active = d.active })) refl
          ∙ ap some (mint_active binding authority d sound open_mutex active),
      revalidate_active binding authority d sound open_mutex active,
    )
