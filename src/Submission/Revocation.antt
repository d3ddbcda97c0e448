-- ===== src/Submission/Revocation.antt =====
-- clob/submission.rs: the histories of a controller, revocation and poison.
use rspm.Common.{
  ℕ, suc, ◌≤◌, ◌<◌, Bool, true, false, Option, none, some, ◌≡◌, ◌⊎◌, inr, refl, ap, arith,
}
use rspm.Submission.{
  ProtocolAuthority, Controller, Attempt, lock_active, poison, clear_active, request_revocation,
  acquire_exclusive, release_exclusive, acquire_shared, release_shared, activate, authorize_held,
  authorize_if, still_active, revalidate, poll_first_transport,
}

-- One step of a thread. Only a lease activates, and only what is held is released.
pub data Step : Controller → Controller → Type 0 where
  revokes : (c : Controller) → Step c (request_revocation c)
  poisons : (c : Controller) → Step c (poison c)
  clears : (c : Controller) → Step c (clear_active c)
  leases : (c d : Controller) → acquire_exclusive c ≡ some d → Step c d
  unleases : (c : Controller) → c.writer ≡ true → Step c (release_exclusive c)
  activates :
      (c : Controller) (epoch : ℕ) (authority : ProtocolAuthority)
      → c.writer ≡ true
      → Step c (activate epoch authority c).0
  authorizes :
      (c d : Controller) (binding : ℕ) (authority : ProtocolAuthority) (answer : Option Bool)
      (attempt : Option Attempt)
      → authorize_if binding authority answer c ≡ some (d, attempt)
      → Step c d
  revalidates :
      (c : Controller) (binding : ℕ) (authority : ProtocolAuthority) (a : Attempt)
      → Step c (revalidate binding authority a c).0
  polls :
      (c : Controller) (binding : ℕ) (authority : ProtocolAuthority) (panics : Bool) (a : Attempt)
      → Step c (poll_first_transport binding authority panics a c).0
  attempt_ends : (c : Controller) → 0 < c.readers → Step c (release_shared c)
  panics_with_active : (c : Controller) → Step c (record c { active_mutex = true })

pub data History : Controller → Controller → Type 0 where
  start : (c : Controller) → History c c
  step : {c d e : Controller} → History c d → Step d e → History c e

-- Epochs never fall, and poison stays.
pub record Later (c d : Controller) : Type 0 where
  pub epoch_le : c.revocation_epoch ≤ d.revocation_epoch
  pub poison_kept : c.poisoned ≡ true → d.poisoned ≡ true

Later-refl : (c : Controller) → Later c c
Later-refl c = ground arith

Later-trans : {c d e : Controller} → Later c d → Later d e → Later c e
Later-trans p q = ground arith

lock_active-Later : (c : Controller) → Later c (lock_active c).0
unfolding lock_active
lock_active-Later c = ground arith

request_revocation-Later : (c : Controller) → Later c (request_revocation c)
unfolding request_revocation
request_revocation-Later c = ground arith

activate-Later :
    (epoch : ℕ) (authority : ProtocolAuthority) (c : Controller)
    → Later c (activate epoch authority c).0
unfolding activate
activate-Later epoch authority c = ground arith

revalidate-Later :
    (binding : ℕ) (authority : ProtocolAuthority) (a : Attempt) (c : Controller)
    → Later c (revalidate binding authority a c).0
unfolding revalidate
revalidate-Later binding authority a c = ground arith

poll_first_transport-Later :
    (binding : ℕ) (authority : ProtocolAuthority) (panics : Bool) (a : Attempt) (c : Controller)
    → Later c (poll_first_transport binding authority panics a c).0
unfolding poll_first_transport
poll_first_transport-Later binding authority panics a c = ground arith

authorize_held-Later :
    (binding : ℕ) (authority : ProtocolAuthority) (answer : Option Bool) (c : Controller)
    → Later c (authorize_held binding authority answer c).0
unfolding authorize_held
authorize_held-Later binding authority none c = ground arith
authorize_held-Later binding authority (some authorized) c = ground arith

pub authorize_if-held :
    (binding : ℕ) (authority : ProtocolAuthority) (answer : Option Bool) (c d : Controller)
    (o : Option Attempt)
    → authorize_if binding authority answer c ≡ some (d, o)
    → (c.writer ≡ false)
      × (authorize_held binding authority answer (record c { readers = suc c.readers }) ≡ (d, o))
unfolding authorize_if acquire_shared
authorize_if-held binding authority answer c d o h = ground arith

authorize_if-Later :
    (binding : ℕ) (authority : ProtocolAuthority) (answer : Option Bool) (c d : Controller)
    (o : Option Attempt)
    → authorize_if binding authority answer c ≡ some (d, o)
    → Later c d
authorize_if-Later binding authority answer c d o h =
    let (_, e) = authorize_if-held binding authority answer c d o h in
    let later =
      authorize_held-Later binding authority answer (record c { readers = suc c.readers }) in
    ground
      (arith, ap (λ (r : Controller × Option Attempt). r.0) e, later.epoch_le, later.poison_kept)

Step-Later : {c d : Controller} → Step c d → Later c d
unfolding poison clear_active acquire_exclusive
Step-Later (revokes c) = request_revocation-Later c
Step-Later (poisons c) = ground arith
Step-Later (clears c) = ground arith
Step-Later (leases c d h) = ground arith
Step-Later (unleases c h) = ground arith
Step-Later (activates c epoch authority h) = activate-Later epoch authority c
Step-Later (authorizes c d binding authority answer attempt h) =
    authorize_if-Later binding authority answer c d attempt h
Step-Later (revalidates c binding authority a) = revalidate-Later binding authority a c
Step-Later (polls c binding authority panics a) =
    poll_first_transport-Later binding authority panics a c
Step-Later (attempt_ends c h) = ground arith
Step-Later (panics_with_active c) = ground arith

pub History-Later : {c d : Controller} → History c d → Later c d
History-Later (start c) = Later-refl c
History-Later (step h s) = Later-trans (History-Later h) (Step-Later s)

-- The attempt's epoch is over, or the controller is poisoned.
abbrev IsOver : Attempt → Controller → Type 0
IsOver a c = (a.revocation_epoch < c.revocation_epoch) ⊎ (c.poisoned ≡ true)

still_active_over : (a : Attempt) (c : Controller) → IsOver a c → still_active a c ≡ false
unfolding still_active
still_active_over a c h = ground arith

revalidate_over :
    (binding : ℕ) (authority : ProtocolAuthority) (a : Attempt) (c : Controller)
    → IsOver a c
    → (revalidate binding authority a c).1 ≡ false
unfolding revalidate lock_active
revalidate_over binding authority a c h = ground (arith, still_active_over a c h)

poll_over :
    (binding : ℕ) (authority : ProtocolAuthority) (panics : Bool) (a : Attempt) (c : Controller)
    → IsOver a c
    → (poll_first_transport binding authority panics a c).1 ≡ false
unfolding poll_first_transport lock_active
poll_over binding authority panics a c h = ground (arith, still_active_over a c h)

request_revocation-IsOver :
    (a : Attempt) (c : Controller)
    → a.revocation_epoch ≤ c.revocation_epoch
    → IsOver a (request_revocation c)
unfolding request_revocation
request_revocation-IsOver a c h = ground arith

IsOver-Later : (a : Attempt) (c d : Controller) → IsOver a c → Later c d → IsOver a d
IsOver-Later a c d h l = ground arith

authorize_epoch :
    (binding : ℕ) (authority : ProtocolAuthority) (answer : Option Bool) (c d : Controller)
    (a : Attempt)
    → authorize_held binding authority answer c ≡ (d, some a)
    → a.revocation_epoch ≡ d.revocation_epoch
unfolding authorize_held
authorize_epoch binding authority none c d a h = absurd (ground arith)
authorize_epoch binding authority (some authorized) c d a h = ground arith

-- Once a revocation is requested after an attempt was minted, in any history the attempt neither
-- passes its revalidation nor gets a first poll of the transport.
pub revocation_ends_attempt :
    (binding : ℕ) (authority : ProtocolAuthority) (answer : Option Bool) (c : Controller)
    {d e f : Controller} (a : Attempt)
    → authorize_if binding authority answer c ≡ some (d, some a)
    → History d e
    → History (request_revocation e) f
    → (expected_binding : ℕ) (expected_authority : ProtocolAuthority) (panics : Bool)
    → ((revalidate expected_binding expected_authority a f).1 ≡ false)
      × ((poll_first_transport expected_binding expected_authority panics a f).1 ≡ false)
revocation_ends_attempt binding authority answer c {d} {e} {f} a h before after b p panics =
    let (_, held) = authorize_if-held binding authority answer c d (some a) h in
    let minted = authorize_epoch binding authority answer _ d a held in
    let l = History-Later before in
    let over =
      IsOver-Later a (request_revocation e) f
        (request_revocation-IsOver a e (omega (arith, minted, l.epoch_le))) (History-Later after) in
    (revalidate_over b p a f over, poll_over b p panics a f over)

activate_poisoned :
    (epoch : ℕ) (authority : ProtocolAuthority) (c : Controller)
    → c.poisoned ≡ true
    → (activate epoch authority c).1 ≡ false
unfolding activate
activate_poisoned epoch authority c h = ground arith

authorize_poisoned :
    (binding : ℕ) (authority : ProtocolAuthority) (answer : Option Bool) (c : Controller)
    → c.poisoned ≡ true
    → (authorize_held binding authority answer c).1 ≡ none
unfolding authorize_held
authorize_poisoned binding authority none c h = refl
authorize_poisoned binding authority (some authorized) c h = ground arith

-- A poisoned controller stays poisoned: after any history it activates nothing, mints nothing under
-- the fence and lets no attempt pass.
pub poisoned_for_good :
    {c d : Controller} (binding epoch : ℕ) (authority : ProtocolAuthority) (answer : Option Bool)
    (a : Attempt)
    → c.poisoned ≡ true
    → History c d
    → ((activate epoch authority d).1 ≡ false)
      × ((authorize_held binding authority answer d).1 ≡ none)
      × ((revalidate binding authority a d).1 ≡ false)
      × ((poll_first_transport binding authority false a d).1 ≡ false)
poisoned_for_good {c} {d} binding epoch authority answer a p h =
    let q = (History-Later h).poison_kept p in
    (
      activate_poisoned epoch authority d q,
      authorize_poisoned binding authority answer d q,
      revalidate_over binding authority a d (inr q),
      poll_over binding authority false a d (inr q),
    )
