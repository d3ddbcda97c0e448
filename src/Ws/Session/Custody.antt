-- ===== src/Ws/Session/Custody.antt =====
-- Histories of one session and the process: where its permit is, who has its events, and what poison
-- leaves.
use rspm.Common.{ℕ, ◌+◌, ◌≡◌, refl, ◌∙◌, arith, Bool, false, ◌||◌, Option, none, some, ◌⊎◌, inr}
use rspm.Ws.Retirement.Ledger.{bit}
use rspm.Ws.Retirement.{Process, Shared}
use rspm.Ws.Retirement.Permits.{permits_held, transfer-permits}
use rspm.Ws.State.{CredentialIdentity}
use rspm.Ws.Session.{
  Guard, Session, new_session, recover_mutex, take_events, request_shutdown, begin_retirement,
  Await, finished, join_error, timed_out, cancelled, release, mark_cancelled, end_shutdown,
  drop_session,
}

abbrev guard_slot : Option Guard → ℕ
guard_slot none = 0
guard_slot (some g) = bit g.slot

-- The permits with the session and its guard.
abbrev pub session_permits : Session → ℕ
session_permits s = bit s.retirement_slot + guard_slot s.guard

release-permits :
    (slot : Bool) (p : Process) → permits_held (release slot p) ≡ permits_held p + bit slot
release-permits slot p = ground arith

-- A call holds a guard only after the task was taken.
abbrev pub IsOwned : Session → Type 0
IsOwned s = (s.task ≡ false) ⊎ (s.guard ≡ none)

begin-permits :
    (s : Session)
    → IsOwned s
    → (session_permits (begin_retirement s).0 ≡ session_permits s) × IsOwned (begin_retirement s).0
unfolding begin_retirement
begin-permits s h = ground arith

end_shutdown-permits :
    (session : ℕ) (await : Await) (g : Guard) (s : Session) (p : Process)
    → s.guard ≡ some g
    → let r = end_shutdown session await g (s, p) in
      session_permits r.0.0 + permits_held r.0.1 ≡ session_permits s + permits_held p
unfolding end_shutdown mark_cancelled
end_shutdown-permits session finished g s p h = ground (arith, release-permits g.slot p)
end_shutdown-permits session join_error g s p h = ground (arith, release-permits g.slot p)
end_shutdown-permits session timed_out g s p h =
    ground (arith, transfer-permits session g.slot p s.shared)
end_shutdown-permits session cancelled g s p h =
    ground (arith, transfer-permits session g.slot p s.shared)

pub retired : Session → Session
retired s =
    recover_mutex s.slot_mutex
      (record (recover_mutex s.task_mutex (request_shutdown s)) { task = false })

drop-permits :
    (session : ℕ) (s : Session) (p : Process)
    → s.guard ≡ none
    → session_permits (drop_session session (s, p)).0 + permits_held (drop_session session (s, p)).1
      ≡ session_permits s + permits_held p
unfolding drop_session retired
drop-permits session s p h =
    ground (arith, transfer-permits session (retired s).retirement_slot p (retired s).shared)

-- The calls on one session, the changes that its task, its other methods and the process make to what
-- is shared, and panics of threads that hold a mutex.
pub data SessionStep (session : ℕ) : Session → Process → Session → Process → Type 0 where
  takes : (s : Session) (p : Process) → SessionStep session s p (take_events s).0 p
  requests : (s : Session) (p : Process) → SessionStep session s p (request_shutdown s) p
  begins : (s : Session) (p : Process) → SessionStep session s p (begin_retirement s).0 p
  ends :
      (s : Session) (p : Process) (await : Await) (g : Guard)
      → s.guard ≡ some g
      → SessionStep session s p
          (end_shutdown session await g (s, p)).0.0
          (end_shutdown session await g (s, p)).0.1
  drops :
      (s : Session) (p : Process)
      → s.guard ≡ none
      → SessionStep session s p (drop_session session (s, p)).0 (drop_session session (s, p)).1
  shares :
      (s : Session) (p : Process) (shared : Shared)
      → SessionStep session s p (record s { shared = shared }) p
  panics :
      (s : Session) (p : Process) (events task slot : Bool)
      → SessionStep session s p
          (record s {
            events_mutex = s.events_mutex || events;
            task_mutex = s.task_mutex || task;
            slot_mutex = s.slot_mutex || slot;
          })
          p

pub data SessionReach (session : ℕ) (s : Session) (p : Process) : Session → Process → Type 0 where
  start : SessionReach session s p s p
  then_step :
      {t u : Session} {q r : Process}
      → SessionReach session s p t q
      → SessionStep session t q u r
      → SessionReach session s p u r

abbrev Conserves : Session → Process → Session → Process → Type 0
Conserves s p t q =
    (session_permits t + permits_held q ≡ session_permits s + permits_held p) × IsOwned t

take-Conserves : (s : Session) (p : Process) → IsOwned s → Conserves s p (take_events s).0 p
unfolding take_events
take-Conserves s p o = ground arith

request-Conserves : (s : Session) (p : Process) → IsOwned s → Conserves s p (request_shutdown s) p
unfolding request_shutdown
request-Conserves s p o = (refl, o)

end_shutdown-IsOwned :
    (session : ℕ) (await : Await) (g : Guard) (s : Session) (p : Process)
    → IsOwned (end_shutdown session await g (s, p)).0.0
unfolding end_shutdown mark_cancelled
end_shutdown-IsOwned session finished g s p = inr refl
end_shutdown-IsOwned session join_error g s p = inr refl
end_shutdown-IsOwned session timed_out g s p = inr refl
end_shutdown-IsOwned session cancelled g s p = inr refl

drop-IsOwned :
    (session : ℕ) (s : Session) (p : Process)
    → s.guard ≡ none
    → IsOwned (drop_session session (s, p)).0
unfolding drop_session retired
drop-IsOwned session s p h = inr (ground arith)

Step-Conserves :
    {session : ℕ} {s : Session} {p : Process} {t : Session} {q : Process}
    → SessionStep session s p t q
    → IsOwned s
    → Conserves s p t q
Step-Conserves (takes s p) o = take-Conserves s p o
Step-Conserves (requests s p) o = request-Conserves s p o
Step-Conserves (begins s p) o = ground (arith, begin-permits s o)
Step-Conserves {session} (ends s p await g h) o =
    (end_shutdown-permits session await g s p h, end_shutdown-IsOwned session await g s p)
Step-Conserves {session} (drops s p h) o = (drop-permits session s p h, drop-IsOwned session s p h)
Step-Conserves (shares s p shared) o = (refl, o)
Step-Conserves (panics s p e t l) o = (refl, o)

Reach-Conserves :
    {session : ℕ} {s : Session} {p : Process} {t : Session} {q : Process}
    → SessionReach session s p t q
    → IsOwned s
    → Conserves s p t q
Reach-Conserves start o = (refl, o)
Reach-Conserves (then_step r st) o =
    let (e, o') = Reach-Conserves r o in let (e', o'') = Step-Conserves st o' in (e' ∙ e, o'')

-- Whatever calls are made on a new session, and however they end, its permit is with the session,
-- with a call or with the process.
pub session_permit_conserved :
    (session : ℕ) (identity : CredentialIdentity) {p : Process} {t : Session} {q : Process}
    → SessionReach session (new_session identity) p t q
    → session_permits t + permits_held q ≡ 1 + permits_held p
unfolding new_session
session_permit_conserved session identity r = (Reach-Conserves r (inr refl)).0
