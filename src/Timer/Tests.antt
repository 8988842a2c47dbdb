-- ===== src/Timer/Tests.antt =====
-- The timer manager of utils/src/timer.cpp on small inputs.
use alias.Prelude.{◌≡◌, refl, false, [], ◌∷◌, some, arith}
use alias.Timer.{
  Timer, TimerManager, add_timer, del_timer, list_expire_timer, insert, comparator, new_timer,
  current_time, split_expired,
}
use alias.Timer.Manager.{IsValid, Adds, Deletes, add_timer-Adds, del_timer-Deletes}
use alias.Timer.Expire.{Expires, list_expire_timer-Expires}

abbrev soon : Timer
soon = record { time = 100; recycle_time = 0; cb = some 1; unique_id = 2 }

abbrev late : Timer
late = record { time = 250; recycle_time = 50; cb = some 2; unique_id = 1 }

abbrev two_timers : TimerManager
two_timers = record { timers = soon ∷ late ∷ []; created = 2; signal = 0; should_exit = false }

two_timers-IsValid : IsValid two_timers
two_timers-IsValid = record {
  sorted = (unfold comparator in (refl, tt), (tt, tt));
  unique = ((omega arith, tt), (tt, tt));
  known = (omega arith, (omega arith, tt));
}

add_timer-Adds_example : Adds 50 100 (some 3) 0 two_timers (add_timer 50 100 (some 3) 0 two_timers)
add_timer-Adds_example =
    add_timer-Adds 50 100 (some 3) 0 two_timers two_timers-IsValid (omega arith)

del_timer-Deletes_example : Deletes 1 two_timers (del_timer 1 two_timers)
del_timer-Deletes_example = del_timer-Deletes 1 two_timers two_timers-IsValid

list_expire_timer-Expires_example :
    Expires 200 two_timers.timers
      ((list_expire_timer 200 two_timers).0, (list_expire_timer 200 two_timers).1.timers)
list_expire_timer-Expires_example = list_expire_timer-Expires 200 two_timers two_timers-IsValid

add_timer_test : (add_timer 50 100 (some 3) 0 two_timers).0 ≡ 3
unfolding add_timer insert new_timer comparator
add_timer_test = refl

list_expire_timer_test : (list_expire_timer 200 two_timers).0 ≡ soon ∷ []
unfolding list_expire_timer split_expired
list_expire_timer_test = refl

current_time_test : current_time 7 5000000 ≡ 7005
unfolding current_time
current_time_test = refl
