-- ===== src/Submission.antt =====
-- clob/submission.rs: the submission controller. One lock of the mutex is one step; what happens
-- outside it is a step of its own. The fence is a read-write lock: readers are live attempts, the
-- writer is the lease.
pub mod Fence
pub mod Minting
pub mod Revocation
pub mod Examples
use rspm.Common.{
  ℕ, zero, suc, ◌+◌, ◌-◌, Bool, true, false, not, ◌&&◌, ◌||◌, ◌==◌, Option, none, some, List,
  if◌then◌else◌, is_some, checked_add, ◌≡◌,
}
use rspm.Ws.State.{CredentialAuthority, authority_eq}

pub data ProtocolVersion : Type 0 where
  v1 v2 : ProtocolVersion

abbrev pub version_eq : ProtocolVersion → ProtocolVersion → Bool
version_eq v1 v1 = true
version_eq v2 v2 = true
version_eq _ _ = false

-- `AuthenticatedProtocolAuthority` of auth/balance.rs.
pub record ProtocolAuthority : Type 0 where
  pub version : ProtocolVersion
  pub credentials : CredentialAuthority

unfoldable pub protocol_eq : ProtocolAuthority → ProtocolAuthority → Bool
protocol_eq a b = version_eq a.version b.version && authority_eq a.credentials b.credentials

pub record ActiveAuthority : Type 0 where
  pub revocation_epoch : ℕ
  pub protocol_authority : ProtocolAuthority

-- `*active == Some(expected)`.
unfoldable pub is_active : Option ActiveAuthority → ActiveAuthority → Bool
unfolding protocol_eq
is_active none expected = false
is_active (some active) expected =
    active.revocation_epoch == expected.revocation_epoch
    && protocol_eq active.protocol_authority expected.protocol_authority

-- `active_mutex` is the poison flag of the mutex of `active`.
pub record Controller : Type 0 where
  pub revocation_epoch : ℕ
  pub poisoned : Bool
  pub active : Option ActiveAuthority
  pub active_mutex : Bool
  pub readers : ℕ
  pub writer : Bool

unfoldable pub new_controller : Controller
new_controller = record {
  revocation_epoch = 0;
  poisoned = false;
  active = none;
  active_mutex = false;
  readers = 0;
  writer = false;
}

-- Whether the lock was granted; a refusal has cleared the active authority.
unfoldable pub lock_active : Controller → Controller × Bool
lock_active c =
    if c.active_mutex
    then (record c { active = none; poisoned = true }, false)
    else if c.poisoned
    then (record c { active = none }, false)
    else (c, true)

-- The two steps of `poison_and_clear_active`.
unfoldable pub poison : Controller → Controller
poison c = record c { poisoned = true }

unfoldable pub clear_active : Controller → Controller
clear_active c = record c { active = none }

unfoldable pub poison_and_clear_active : Controller → Controller
unfolding poison clear_active
poison_and_clear_active c = clear_active (poison c)

unfoldable pub request_revocation : Controller → Controller
request_revocation c =
    let poisoned = c.active_mutex || c.poisoned in
    elim (checked_add c.revocation_epoch 1) [
      | none ↦ record c { poisoned = true; active = none }
      | some epoch ↦ record c { revocation_epoch = epoch; poisoned = poisoned; active = none }
    ]

-- The lease waits until no attempt is left; `none` is the wait.
unfoldable pub acquire_exclusive : Controller → Option Controller
acquire_exclusive c =
    if c.writer || not (c.readers == 0) then none else some (record c { writer = true })

abbrev pub release_exclusive : Controller → Controller
release_exclusive c = record c { writer = false }

unfoldable pub acquire_shared : Controller → Option Controller
acquire_shared c = if c.writer then none else some (record c { readers = suc c.readers })

abbrev pub release_shared : Controller → Controller
release_shared c = record c { readers = c.readers - 1 }

unfoldable pub activate : ℕ → ProtocolAuthority → Controller → Controller × Bool
unfolding lock_active
activate expected_revocation_epoch protocol_authority c =
    let (locked, granted) = lock_active c in
    if c.poisoned || not (c.revocation_epoch == expected_revocation_epoch)
    then (c, false)
    else if not granted
    then (locked, false)
    else if locked.poisoned
        || is_some locked.active
        || not (locked.revocation_epoch == expected_revocation_epoch)
    then (locked, false)
    else (
      record locked {
        active = some (record {
          revocation_epoch = expected_revocation_epoch;
          protocol_authority = protocol_authority;
        });
      },
      true,
    )

pub record Attempt : Type 0 where
  pub binding : ℕ
  pub revocation_epoch : ℕ
  pub protocol_authority : ProtocolAuthority

-- Under the shared fence, with the answer of `authorize`; a panic of it is `none`.
unfoldable pub authorize_held :
    ℕ → ProtocolAuthority → Option Bool → Controller → Controller × Option Attempt
unfolding poison_and_clear_active lock_active request_revocation is_active
authorize_held binding expected none c = (release_shared (poison_and_clear_active c), none)
authorize_held binding expected (some authorized) c =
    let (locked, granted) = lock_active c in
    let epoch = locked.revocation_epoch in
    if not granted
    then (release_shared locked, none)
    else if not authorized
        || locked.poisoned
        || not (
            is_active locked.active
              (record { revocation_epoch = epoch; protocol_authority = expected }))
    then (release_shared (request_revocation locked), none)
    else (
      locked,
      some (record { binding = binding; revocation_epoch = epoch; protocol_authority = expected }),
    )

-- `none` is the wait for the shared fence.
unfoldable pub authorize_if :
    ℕ → ProtocolAuthority → Option Bool → Controller → Option (Controller × Option Attempt)
unfolding acquire_shared authorize_held
authorize_if binding expected answer c = elim (acquire_shared c) [
  | none ↦ none
  | some held ↦ some (authorize_held binding expected answer held)
]

-- The test under the lock that `revalidate` and `poll_first_transport` share.
unfoldable pub still_active : Attempt → Controller → Bool
unfolding is_active
still_active a c =
    not c.poisoned
    && c.revocation_epoch == a.revocation_epoch
    && is_active c.active (record {
      revocation_epoch = a.revocation_epoch;
      protocol_authority = a.protocol_authority;
    })

-- The state that the attempt refers to is alive.
unfoldable pub revalidate : ℕ → ProtocolAuthority → Attempt → Controller → Controller × Bool
unfolding lock_active still_active protocol_eq
revalidate expected_binding expected_authority a c =
    let (locked, granted) = lock_active c in
    if not (a.binding == expected_binding)
      || not (protocol_eq a.protocol_authority expected_authority)
    then (c, false)
    else if not granted
    then (locked, false)
    else (locked, still_active a locked)

-- The first poll of the transport under the lock; `panics` says that the poll does. The answer says
-- whether the transport was polled.
unfoldable pub poll_first_transport :
    ℕ → ProtocolAuthority → Bool → Attempt → Controller → Controller × Bool
unfolding lock_active still_active protocol_eq
poll_first_transport expected_binding expected_authority panics a c =
    let (locked, granted) = lock_active c in
    if not (a.binding == expected_binding)
      || not (protocol_eq a.protocol_authority expected_authority)
    then (c, false)
    else if not granted
    then (locked, false)
    else if not (still_active a locked)
    then (locked, false)
    else if panics
    then (record locked { active = none; poisoned = true }, true)
    else (locked, true)

-- `NEXT_CONTROLLER_ID`; a counter that is exhausted stays so.
unfoldable pub reserve_controller_identity : ℕ → Option (ℕ × ℕ)
reserve_controller_identity counter =
    if counter == 0
    then none
    else elim (checked_add counter 1) [ none ↦ none | some next ↦ some (next, counter) ]
