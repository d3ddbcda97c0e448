-- ===== src/Ws/Connection/Steps/Retries.antt =====
-- auth/ws/connection.rs: the reconnect delay and the number of attempts.
use native.Mathlib.Nat.{pow-suc, mul_assoc}
use rspm.Common.{
  inr, refl, inl, ◌⊎◌, ℕ, suc, ◌+◌, ◌*◌, ◌^◌, ◌≤◌, min, true, false, some, ◌≡◌, sym, ◌∙◌, ap, arith,
}
use rspm.Ws.Connection.{
  Config, Connection, top, connects, waits, stopped, begin, wait_over, connect_failed,
  next_reconnect_attempt, reconnect_exhausted, doubled_delay,
}

doubled :
    (delay k maximum : ℕ)
    → min (min (delay * 2 ^ k) maximum * 2) maximum ≡ min (delay * 2 ^ suc k) maximum
doubled delay k maximum =
    let power : 2 ^ suc k ≡ 2 ^ k * 2 = pow-suc 2 k in
    let twice : delay * 2 ^ suc k ≡ delay * 2 ^ k * 2 =
      rw power (sym (mul_assoc delay (2 ^ k) 2)) in
    omega (arith, twice)

module _ {Event : Type 0} (config : Config) where
  -- A number of failed attempts in a row, each with its wait and the start of another attempt.
  pub data Failures : ℕ → Connection Event → Connection Event → Type 0 where
    unfailed : (l : Connection Event) → Failures 0 l l
    fails :
        {k : ℕ} {l m : Connection Event}
        → Failures k l m
        → (connect_failed config m).phase ≡ waits
        → (wait_over config false (connect_failed config m)).phase ≡ top
        → (begin (wait_over config false (connect_failed config m))).phase ≡ connects
        → Failures (suc k) l (begin (wait_over config false (connect_failed config m)))

  failed_lem :
      (l : Connection Event)
      → (connect_failed config l).phase ≡ waits
      → ((connect_failed config l).reconnect_attempt ≡ suc l.reconnect_attempt)
        × ((connect_failed config l).reconnect_delay ≡ l.reconnect_delay)
        × (reconnect_exhausted config.max_reconnect_attempts (suc l.reconnect_attempt) ≡ false)
  unfolding connect_failed next_reconnect_attempt
  failed_lem l h = ground arith

  waited_lem :
      (l : Connection Event)
      → (wait_over config false l).phase ≡ top
      → ((wait_over config false l).reconnect_attempt ≡ l.reconnect_attempt)
        × ((wait_over config false l).reconnect_delay
            ≡ min (l.reconnect_delay * 2) config.max_reconnect_delay)
  unfolding wait_over doubled_delay
  waited_lem l h = ground arith

  begun_lem :
      (l : Connection Event)
      → ((begin l).reconnect_attempt ≡ l.reconnect_attempt)
        × ((begin l).reconnect_delay ≡ l.reconnect_delay)
  unfolding begin
  begun_lem l = ground arith

  -- One round of a failure.
  round_lem :
      (l : Connection Event)
      → (connect_failed config l).phase ≡ waits
      → (wait_over config false (connect_failed config l)).phase ≡ top
      → let m = begin (wait_over config false (connect_failed config l)) in
        (m.reconnect_attempt ≡ suc l.reconnect_attempt)
        × (m.reconnect_delay ≡ min (l.reconnect_delay * 2) config.max_reconnect_delay)
        × (reconnect_exhausted config.max_reconnect_attempts (suc l.reconnect_attempt) ≡ false)
  round_lem l h k =
      let (a, d, open_attempts) = failed_lem l h in
      let (a', d') = waited_lem (connect_failed config l) k in
      let (a'', d'') = begun_lem (wait_over config false (connect_failed config l)) in
      (omega arith, d'' ∙ d' ∙ ap (λ x. min (x * 2) config.max_reconnect_delay) d, open_attempts)

  -- After `k` failed attempts in a row, from a delay within the maximum, the delay has doubled `k`
  -- times, up to the maximum, the attempts are counted, and unless `k` is 0 the maximum of attempts,
  -- if there is one, is not reached.
  pub reconnect_backs_off :
      {k : ℕ} {l m : Connection Event}
      → Failures k l m
      → l.reconnect_delay ≤ config.max_reconnect_delay
      → (m.reconnect_attempt ≡ l.reconnect_attempt + k)
        × (m.reconnect_delay ≡ min (l.reconnect_delay * 2 ^ k) config.max_reconnect_delay)
        × ((k ≡ 0)
            ⊎ (reconnect_exhausted config.max_reconnect_attempts m.reconnect_attempt ≡ false))
  reconnect_backs_off (unfailed l) le = (omega arith, omega arith, inl refl)
  reconnect_backs_off (fails {k = k} {l = l} {m = m} run h w c) le =
      let (a, d, _) = reconnect_backs_off run le in
      let (a', d', open_attempts) = round_lem m h w in
      (
        omega arith,
        rw (d', d) (doubled l.reconnect_delay k config.max_reconnect_delay),
        inr (rw a' open_attempts),
      )

  gave_up :
      (l : Connection Event)
      → reconnect_exhausted config.max_reconnect_attempts (suc l.reconnect_attempt) ≡ true
      → (connect_failed config l).phase ≡ stopped
  unfolding connect_failed next_reconnect_attempt
  gave_up l h = ground arith

  -- With at most `n` attempts, the failure of the attempt number `n` in a row stops the loop.
  pub reconnect_gives_up :
      {k n : ℕ} {l m : Connection Event}
      → config.max_reconnect_attempts ≡ some n
      → l.reconnect_delay ≤ config.max_reconnect_delay
      → Failures k l m
      → n ≤ suc (l.reconnect_attempt + k)
      → (connect_failed config m).phase ≡ stopped
  unfolding reconnect_exhausted
  reconnect_gives_up {m = m} e le run h =
      let (a, _, _) = reconnect_backs_off run le in gave_up m (rw e (ground (arith, a, h)))
