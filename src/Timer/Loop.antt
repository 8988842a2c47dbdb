-- ===== src/Timer/Loop.antt =====
-- The thread of the timer manager: `threadWorkFunction` of utils/src/timer.cpp, cut wherever it holds no
-- lock, so that other threads may run between any two of its locked parts.
pub mod Pending
pub mod Runs
pub mod Waits
pub mod Rounds
mod Tests
use alias.Prelude.{
  ℕ, ◌+◌, ◌-◌, ◌%◌, ◌^◌, ◌==◌, ltb, leb, if◌then◌else◌, Bool, true, false, ◌&&◌, ◌||◌, List, [],
  ◌∷◌, Option, none, some,
}
use alias.Outcome.{Outcome, ok, throws, crash, ◌>>=◌}
use alias.Timer.{
  Timer, TimerManager, add_timer, add_back, del_timer, stop_timer, list_expire_timer, insert,
  erase_id, split_expired,
}

-- A call of the manager by another thread or from a callback.
pub data Action : Type 0 where
  add : ℕ → ℕ → Option ℕ → ℕ → Action
  del : ℕ → Action
  stop : Action

pub perform : Action → TimerManager → TimerManager
perform (add now ms cb recycle) m = (add_timer now ms cb recycle m).1
perform (del i) m = (del_timer i m).1
perform stop m = stop_timer m

-- The value of `n` after `epoll_wait`: 0, a number of events, or negative.
pub data Polled : Type 0 where
  idle events failed : Polled

pub is_idle : Polled → Bool
is_idle idle = true
is_idle _ = false

-- Where the thread stands: at the test of `while`; behind it, before it locks; in `mSignal.wait()`; with
-- `it` at the timer of an id, unlocked; in or just before `epoll_wait` with the 32 bits of `nextTime`;
-- before the next of the timers in `mExpireTimerVec`; in the callback of the first one of them; or past
-- the loop.
pub data Phase : Type 0 where
  top entered asleep : Phase
  chosen : ℕ → Phase
  polling : ℕ → Phase
  firing : List Timer → Phase
  calling : Timer → List Timer → Phase
  stopped : Phase

pub record Loop : Type 0 where
  pub manager : TimerManager
  pub phase : Phase
  pub n : Polled

-- What a step reads: the clock, what `epoll_wait` returns if it is called, and the next call of the
-- manager by the callback that runs, absent where the callback is over.
pub record Input : Type 0 where
  pub now : ℕ
  pub polled : Polled
  pub asked : Option Action

pub starting : TimerManager → Loop
starting m = record { manager = m; phase = top; n = idle }

-- `int nextTime = (*it)->mTime - Timer::getCurrentTime()`
pub next_time : ℕ → Timer → ℕ
next_time now t = (t.time + 2 ^ 64 - now) % 2 ^ 64 % 2 ^ 32

pub is_positive : ℕ → Bool
is_positive w = ltb 0 w && ltb w (2 ^ 31)

pub is_negative : ℕ → Bool
is_negative w = leb (2 ^ 31) w

-- `it = mTimers.begin()`, under the lock, and the assertion, which the end fails later on as well
pub choose : Loop → List Timer → Outcome Loop
choose l [] = crash
choose l (t ∷ ts) = ok (record l { phase = chosen t.unique_id })

-- The timer that `it` points to, unless it has been erased.
pub timer_at : ℕ → List Timer → Option Timer
timer_at i [] = none
timer_at i (t ∷ ts) = if t.unique_id == i then some t else timer_at i ts

-- `(*it)->mTime` and `nextTime`, without the lock: after an erasure `it` dangles.
pub look : ℕ → ℕ → Loop → Outcome Loop
look now i l = elim (timer_at i l.manager.timers) [
  | none ↦ crash
  | some t ↦ ok (record l { phase = polling (next_time now t) })
]

-- A timer that recurs, due once more.
pub next_round : Timer → Timer
next_round t = record t { time = (t.time + t.recycle_time) % 2 ^ 64 }

-- `vecIt->mRecycleTime > 0 && vecIt->mCb`
pub recurs : Timer → Bool
recurs t = ltb 0 t.recycle_time && elim t.cb [ none ↦ false | some c ↦ true ]

-- `addTimer(vecIt)`, or `delete vecIt`
pub rearm : Timer → TimerManager → TimerManager
rearm t m = if recurs t then add_back (next_round t) m else m

-- A timer without a callback calls nothing.
pub asks : Timer → Option Action → Option Action
asks t asked = elim t.cb [ none ↦ none | some c ↦ asked ]

-- `n < 0`, after the expired timers: the exception ends the thread.
pub round_end : Loop → Outcome Loop
round_end l = elim l.n [ failed ↦ throws | _ ↦ ok (record l { phase = top }) ]

-- From `epoll_wait` on, with `n` as it left it: `ListExpireTimer`, if it is called, under its lock
pub finish : ℕ → ℕ → Polled → Loop → Outcome Loop
finish now w n l =
    if is_idle n || is_negative w
    then (let (es, m) = list_expire_timer now l.manager in
        ok (record { manager = m; phase = firing es; n = n }))
    else round_end (record l { n = n })

pub step_from : Phase → Input → Loop → Outcome Loop
step_from top i l = ok (record l { phase = if l.manager.should_exit then stopped else entered })
step_from entered i l = elim l.manager.timers [
  | [] ↦ ok (record l { phase = asleep })
  | t ∷ ts ↦ choose l (t ∷ ts)
]
step_from asleep i l =
    if l.manager.signal == 0
    then ok l
    else choose (record l { manager = record (l.manager) { signal = l.manager.signal - 1 } })
        l.manager.timers
step_from (chosen id) i l = look i.now id l
step_from (polling w) i l = finish i.now w (if is_positive w then i.polled else l.n) l
step_from (firing []) i l = round_end l
step_from (firing (t ∷ ts)) i l = ok (record l { phase = calling t ts })
step_from (calling t ts) i l = elim (asks t i.asked) [
  | none ↦ ok (record l { manager = rearm t l.manager; phase = firing ts })
  | some a ↦ ok (record l { manager = perform a l.manager })
]
step_from stopped i l = ok l

pub step : Input → Loop → Outcome Loop
step i l = step_from l.phase i l

-- What happens to the system: a step of the thread, or a call by another thread.
pub data Event : Type 0 where
  thread : Input → Event
  other : Action → Event

pub happen : Event → Loop → Outcome Loop
happen (thread i) l = step i l
happen (other a) l = ok (record l { manager = perform a l.manager })

pub run : List Event → Loop → Outcome Loop
run [] l = ok l
run (e ∷ es) l = happen e l >>= run es
