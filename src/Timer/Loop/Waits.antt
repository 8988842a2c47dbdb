-- ===== src/Timer/Loop/Waits.antt =====
-- How long the timer thread waits, and what wakes it where no timer is left.
use alias.Prelude.{
  ℕ, suc, ◌+◌, ◌-◌, ◌^◌, ◌≤◌, ◌<◌, ltb, if◌then◌else◌, ◌≡◌, sym, ◌∙◌, Bool-cases, inl, inr, true,
  false, [], ◌∷◌, arith,
}
use alias.Outcome.{crash}
use alias.Timer.{Timer, stop_timer}
use alias.Timer.Loop.{
  stop, perform, top, asleep, Loop, Input, next_time, is_positive, is_negative, choose, step_from,
  step, thread, other, happen, run,
}

-- The first timer of the set is at most 2 ^ 31 - 1 ms away: `nextTime` is the time left, the thread
-- waits for exactly that if it is not 0, and takes no timer for overdue.
pub next_time_left :
    (now : ℕ) (t : Timer)
    → now ≤ t.time
    → t.time < now + 2 ^ 31
    → t.time < 2 ^ 64
    → (next_time now t ≡ t.time - now)
      × (is_positive (next_time now t) ≡ ltb now t.time)
      × (is_negative (next_time now t) ≡ false)
unfolding next_time is_positive is_negative
next_time_left now t a b c = ground arith

-- An overdue timer, by 1 ms to 2 ^ 31 ms, is taken for overdue, and the thread does not wait.
pub next_time_overdue :
    (now : ℕ) (t : Timer)
    → t.time < now
    → now ≤ t.time + 2 ^ 31
    → now < 2 ^ 64
    → (is_positive (next_time now t) ≡ false) × (is_negative (next_time now t) ≡ true)
unfolding next_time is_positive is_negative
next_time_overdue now t a b c = ground arith

-- Of a timer that is due at most 2 ^ 31 - 1 ms from now, or was at most 2 ^ 31 ms ago: the thread waits
-- exactly for the time that is left, and takes the timer for overdue exactly if it is.
pub next_time_near :
    (now : ℕ) (t : Timer)
    → t.time < now + 2 ^ 31
    → now ≤ t.time + 2 ^ 31
    → t.time < 2 ^ 64
    → now < 2 ^ 64
    → ((if is_positive (next_time now t) then next_time now t else 0) ≡ t.time - now)
      × (is_negative (next_time now t) ≡ ltb t.time now)
next_time_near now t a b c d = elim (Bool-cases (ltb t.time now)) [
  | inl e ↦
      let (w, n) = next_time_overdue now t (ground arith) b d in (rw w (ground arith), n ∙ sym e)
  | inr e ↦
      let (same, w, n) = next_time_left now t (ground arith) a c in
      (
        elim (Bool-cases (ltb now t.time)) [
          | inl k ↦ rw (w, k, same)
          | inr k ↦ rw (w, k) (ground arith)
        ],
        n ∙ sym e,
      )
]

-- A timer that is due in 2 ^ 31 to 2 ^ 32 - 1 ms is taken for overdue as well: the conversion to
-- `int` changes the sign, and the thread does not wait.
pub next_time_far :
    (now : ℕ) (t : Timer)
    → now + 2 ^ 31 ≤ t.time
    → t.time < now + 2 ^ 32
    → t.time < 2 ^ 64
    → (is_positive (next_time now t) ≡ false) × (is_negative (next_time now t) ≡ true)
unfolding next_time is_positive is_negative
next_time_far now t a b c = ground arith

module _ (l : Loop) (none_left : l.manager.timers ≡ []) where
  -- Where the thread sleeps because there is no timer, `stopTimer` wakes it to the assertion that the
  -- set is not empty, which fails.
  pub stop-crash : (i : Input) → l.phase ≡ asleep → run (other stop ∷ thread i ∷ []) l ≡ crash
  unfolding run happen perform stop_timer step step_from choose
  stop-crash i p = ground arith

  -- Where no timer is left and the semaphore still holds a signal that nobody waited for, the thread
  -- fails the same assertion at its next three steps.
  pub stale_signal_crash :
      (i j o : Input) (k : ℕ)
      → l.phase ≡ top
      → l.manager.should_exit ≡ false
      → l.manager.signal ≡ suc k
      → run (thread i ∷ thread j ∷ thread o ∷ []) l ≡ crash
  unfolding run happen step step_from choose
  stale_signal_crash i j o k p q s = ground arith
