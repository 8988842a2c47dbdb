-- ===== src/Timer.antt =====
-- The timers and the timer manager of utils/src/timer.cpp and utils/include/utils/timer.h. The
-- `std::set` is a list kept by the comparator of the header. Clock readings, the outcome of
-- `epoll_wait` and what a callback asks of the manager are arguments. Objects are values: the manager
-- owns its timers, and hands out none that can be changed.
pub mod Order
pub mod Manager
pub mod Expire
pub mod Loop
mod Tests
use alias.Prelude.{
  ℕ, ◌+◌, ◌*◌, ◌/◌, ◌%◌, ◌^◌, ◌==◌, ltb, if◌then◌else◌, Bool, true, false, not, ◌&&◌, ◌||◌, List,
  [], ◌∷◌, ◌++◌, Option, none, some,
}
use alias.Outcome.{Outcome, ok, throws, crash, ◌>>=◌}

-- Times are in milliseconds. A callback is a number, absent once cancelled.
pub record Timer : Type 0 where
  pub time : ℕ
  pub recycle_time : ℕ
  pub cb : Option ℕ
  pub unique_id : ℕ

-- The constructor: `count` is `gTimerCount` before it, `now` the clock.
unfoldable pub new_timer : ℕ → ℕ → ℕ → Option ℕ → ℕ → Timer
new_timer count now ms cb recycle = record {
  time = (now + ms) % 2 ^ 64;
  recycle_time = recycle;
  cb = cb;
  unique_id = (count + 1) % 2 ^ 64;
}

-- `setNextTime`, `setCallback` and `setRecycleTime`
pub set_next_time : ℕ → Timer → Timer
set_next_time ms t = record t { time = ms }

pub set_callback : Option ℕ → Timer → Timer
set_callback cb t = record t { cb = cb }

pub set_recycle_time : ℕ → Timer → Timer
set_recycle_time ms t = record t { recycle_time = ms }

pub cancel : Timer → Timer
cancel t = record t { cb = none }

pub refresh : ℕ → Timer → Timer
refresh now t =
    if ltb 0 t.recycle_time then record t { time = (now + t.recycle_time) % 2 ^ 64 } else t

pub reset : ℕ → ℕ → Option ℕ → ℕ → Timer → Timer
reset now ms cb recycle t = record t { time = (now + ms) % 2 ^ 64; cb = cb; recycle_time = recycle }

-- `getCurrentTime`, from the seconds and nanoseconds of the clock
pub current_time : ℕ → ℕ → ℕ
current_time sec nsec = (sec * 1000 + nsec / 1000 / 1000) % 2 ^ 64

-- `Comparator::operator()` on pointers that may be null
unfoldable pub comparator : Option Timer → Option Timer → Bool
comparator none none = false
comparator none (some r) = true
comparator (some l) none = false
comparator (some l) (some r) =
    if l.time == r.time then ltb l.unique_id r.unique_id else ltb l.time r.time

abbrev pub before : Timer → Timer → Bool
before l r = comparator (some l) (some r)

-- `set::insert`: nothing is inserted beside an equivalent element.
pub insert : Timer → List Timer → List Timer × Bool
insert t [] = (t ∷ [], true)
insert t (x ∷ xs) =
    let (ys, done) = insert t xs in
    if before t x
    then (t ∷ x ∷ xs, true)
    else if before x t
    then (x ∷ ys, done)
    else (x ∷ xs, false)

-- `created` is how many timers have been made; `gTimerCount` is that number modulo 2 ^ 64.
pub record TimerManager : Type 0 where
  pub timers : List Timer
  pub created : ℕ
  pub signal : ℕ
  pub should_exit : Bool

pub new_manager : ℕ → TimerManager
new_manager created = record { timers = []; created = created; signal = 0; should_exit = false }

pub is_single : List Timer → Bool
is_single (x ∷ []) = true
is_single xs = false

-- `addTimer(ms, cb, recycle)`: the id, or 0
pub add_timer : ℕ → ℕ → Option ℕ → ℕ → TimerManager → ℕ × TimerManager
unfolding is_single
add_timer now ms cb recycle m =
    let t = new_timer m.created now ms cb recycle in
    let (ts, done) = insert t m.timers in
    if done
    then (
      t.unique_id,
      record m {
        timers = ts;
        created = m.created + 1;
        signal = if is_single ts then m.signal + 1 else m.signal;
      },
    )
    else (0, record m { created = m.created + 1 })

-- `addTimer(Timer *)`, which the thread uses for a timer that recurs
pub add_back : Timer → TimerManager → TimerManager
add_back t m = record m { timers = (insert t m.timers).0 }

pub erase_id : ℕ → List Timer → List Timer × Bool
erase_id i [] = ([], false)
erase_id i (x ∷ xs) =
    let (ys, found) = erase_id i xs in if x.unique_id == i then (xs, true) else (x ∷ ys, found)

pub del_timer : ℕ → TimerManager → Bool × TimerManager
del_timer i m = let (ts, found) = erase_id i m.timers in (found, record m { timers = ts })

pub stop_timer : TimerManager → TimerManager
stop_timer m = record m { signal = m.signal + 1; should_exit = true }

-- The loop of `ListExpireTimer`: what it moves to the vector, and what it leaves.
pub split_expired : ℕ → List Timer → List Timer × List Timer
split_expired now [] = ([], [])
split_expired now (x ∷ xs) =
    let (es, rest) = split_expired now xs in
    if ltb x.time now then (x ∷ es, rest) else (es, x ∷ rest)

pub list_expire_timer : ℕ → TimerManager → List Timer × TimerManager
list_expire_timer now m =
    let (es, rest) = split_expired now m.timers in (es, record m { timers = rest })
