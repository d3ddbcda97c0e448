-- ===== src/Ws/Session/Answers.antt =====
-- What the answers of a session's calls say, whatever other calls come in between.
use rspm.Common.{ℕ, ◌≡◌, ◌≢◌, refl, arith, true, false, ◌||◌, none, some, ◌⊎◌, inl}
use rspm.Ws.Retirement.{Process, is_terminal}
use rspm.Ws.Session.{
  Guard, Session, receiver, take_events, request_shutdown, begin_retirement, Await, finished,
  join_error, timed_out, cancelled, mark_cancelled, end_shutdown, drop_session,
}
use rspm.Ws.Session.Custody.{
  SessionStep, takes, requests, begins, ends, drops, shares, panics, SessionReach, start, then_step,
}

-- What an operation may not bring back: the receiver of events, the task, and the health of custody.
record Keeps (s t : Session) : Type 0 where
  events_gone : s.events ≡ false → t.events ≡ false
  task_gone : s.task ≡ false → t.task ≡ false
  poison_stays : s.custody_poisoned ≡ true → t.custody_poisoned ≡ true

take-Keeps : (s : Session) → Keeps s (take_events s).0
unfolding take_events
take-Keeps s = record {
  events_gone = λ h. ground arith;
  task_gone = λ h. ground arith;
  poison_stays = λ h. ground arith;
}

begin-Keeps : (s : Session) → Keeps s (begin_retirement s).0
unfolding begin_retirement
begin-Keeps s = record {
  events_gone = λ h. ground arith;
  task_gone = λ h. ground arith;
  poison_stays = λ h. ground arith;
}

end_shutdown-Keeps :
    (session : ℕ) (await : Await) (g : Guard) (s : Session) (p : Process)
    → Keeps s (end_shutdown session await g (s, p)).0.0
unfolding end_shutdown mark_cancelled
end_shutdown-Keeps session finished g s p = record {
  events_gone = λ h. h;
  task_gone = λ h. h;
  poison_stays = λ h. h;
}
end_shutdown-Keeps session join_error g s p = record {
  events_gone = λ h. h;
  task_gone = λ h. h;
  poison_stays = λ h. h;
}
end_shutdown-Keeps session timed_out g s p = record {
  events_gone = λ h. h;
  task_gone = λ h. h;
  poison_stays = λ h. h;
}
end_shutdown-Keeps session cancelled g s p = record {
  events_gone = λ h. h;
  task_gone = λ h. h;
  poison_stays = λ h. h;
}

drop-Keeps : (session : ℕ) (s : Session) (p : Process) → Keeps s (drop_session session (s, p)).0
unfolding drop_session
drop-Keeps session s p = record {
  events_gone = λ h. ground arith;
  task_gone = λ h. ground arith;
  poison_stays = λ h. ground arith;
}

Step-Keeps :
    {session : ℕ} {s : Session} {p : Process} {t : Session} {q : Process}
    → SessionStep session s p t q
    → Keeps s t
unfolding request_shutdown
Step-Keeps (takes s p) = take-Keeps s
Step-Keeps (requests s p) = record {
  events_gone = λ h. h;
  task_gone = λ h. h;
  poison_stays = λ h. h;
}
Step-Keeps (begins s p) = begin-Keeps s
Step-Keeps {session} (ends s p await g h) = end_shutdown-Keeps session await g s p
Step-Keeps {session} (drops s p h) = drop-Keeps session s p
Step-Keeps (shares s p shared) = record {
  events_gone = λ h. h;
  task_gone = λ h. h;
  poison_stays = λ h. h;
}
Step-Keeps (panics s p e t l) = record {
  events_gone = λ h. h;
  task_gone = λ h. h;
  poison_stays = λ h. h;
}

Reach-Keeps :
    {session : ℕ} {s : Session} {p : Process} {t : Session} {q : Process}
    → SessionReach session s p t q
    → Keeps s t
Reach-Keeps start = record { events_gone = λ h. h; task_gone = λ h. h; poison_stays = λ h. h }
Reach-Keeps (then_step r st) =
    let before = Reach-Keeps r in
    let after = Step-Keeps st in
    record {
      events_gone = λ h. after.events_gone (before.events_gone h);
      task_gone = λ h. after.task_gone (before.task_gone h);
      poison_stays = λ h. after.poison_stays (before.poison_stays h);
    }

take-receiver : (s : Session) → (take_events s).1 ≡ receiver → (take_events s).0.events ≡ false
unfolding take_events
take-receiver s h = ground arith

-- After a call has got the receiver of events, no later call gets it.
pub receiver_taken_once :
    (session : ℕ) (s : Session) (p : Process) {t : Session} {q : Process}
    → (take_events s).1 ≡ receiver
    → SessionReach session (take_events s).0 p t q
    → (take_events t).1 ≢ receiver
unfolding take_events
receiver_taken_once session s p h r =
    let gone = (Reach-Keeps r).events_gone (take-receiver s h) in ground arith

-- The guard of a call, once the task is taken: it stays as it is until the call ends.
abbrev Held : Guard → Session → Type 0
Held g s = (s.task ≡ false) × ((s.guard ≡ none) ⊎ (s.guard ≡ some g))

take-Held : (g : Guard) (s : Session) → Held g s → Held g (take_events s).0
unfolding take_events
take-Held g s h = ground arith

begin-Held : (g : Guard) (s : Session) → Held g s → Held g (begin_retirement s).0
unfolding begin_retirement
begin-Held g s h = ground arith

end_shutdown-guard :
    (session : ℕ) (await : Await) (g : Guard) (s : Session) (p : Process)
    → (end_shutdown session await g (s, p)).0.0.guard ≡ none
unfolding end_shutdown mark_cancelled
end_shutdown-guard session finished g s p = refl
end_shutdown-guard session join_error g s p = refl
end_shutdown-guard session timed_out g s p = refl
end_shutdown-guard session cancelled g s p = refl

drop-Held :
    (g : Guard) (session : ℕ) (s : Session) (p : Process)
    → Held g s
    → ((drop_session session (s, p)).0.guard ≡ none)
      ⊎ ((drop_session session (s, p)).0.guard ≡ some g)
unfolding drop_session
drop-Held g session s p h = ground arith

Step-Held :
    {session : ℕ} (g : Guard) {s : Session} {p : Process} {t : Session} {q : Process}
    → SessionStep session s p t q
    → Held g s
    → Held g t
unfolding request_shutdown
Step-Held g (takes s p) h = take-Held g s h
Step-Held g (requests s p) h = h
Step-Held g (begins s p) h = begin-Held g s h
Step-Held {session} g (ends s p await g' e) h = (
  (end_shutdown-Keeps session await g' s p).task_gone (h.0),
  inl (end_shutdown-guard session await g' s p),
)
Step-Held {session} g (drops s p e) h =
    ((drop-Keeps session s p).task_gone (h.0), drop-Held g session s p h)
Step-Held g (shares s p shared) h = h
Step-Held g (panics s p e t l) h = h

Reach-Held :
    {session : ℕ} (g : Guard) {s : Session} {p : Process} {t : Session} {q : Process}
    → SessionReach session s p t q
    → Held g s
    → Held g t
Reach-Held g start h = h
Reach-Held g (then_step r st) h = Step-Held g st (Reach-Held g r h)

-- The guard that a call takes with the task.
abbrev taken_guard : Session → Guard
taken_guard s = record { slot = s.retirement_slot; custody_poisoned = s.task_mutex || s.slot_mutex }

begin-takes : (s : Session) → s.task ≡ true → Held (taken_guard s) (begin_retirement s).0
unfolding begin_retirement
begin-takes s h = ground arith

end_shutdown-true :
    (session : ℕ) (await : Await) (g : Guard) (s : Session) (p : Process)
    → (end_shutdown session await g (s, p)).1 ≡ true
    → (await ≡ finished) × (is_terminal s.shared.retirement ≡ true) × (g.custody_poisoned ≡ false)
unfolding end_shutdown
end_shutdown-true session finished g s p h = ground arith
end_shutdown-true session join_error g s p h = cc
end_shutdown-true session timed_out g s p h = cc
end_shutdown-true session cancelled g s p h = cc

-- A call of `shutdown` that takes the task and answers true, whatever other calls came in between,
-- has seen the task end with its retirement in a terminal state, and found both mutexes healthy.
pub shutdown_true :
    (session : ℕ) (s : Session) (p : Process) (await : Await) (g : Guard) {t : Session}
    {q : Process}
    → s.task ≡ true
    → SessionReach session (begin_retirement s).0 p t q
    → t.guard ≡ some g
    → (end_shutdown session await g (t, q)).1 ≡ true
    → (await ≡ finished)
      × (is_terminal t.shared.retirement ≡ true)
      × (s.task_mutex ≡ false)
      × (s.slot_mutex ≡ false)
shutdown_true session s p await g {t} {q} task r held answer =
    let (e, terminal, healthy) = end_shutdown-true session await g t q answer in
    let (gone, kept) = Reach-Held (taken_guard s) r (begin-takes s task) in
    (e, terminal, ground arith, ground arith)
