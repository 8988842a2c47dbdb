-- ===== src/Timer/Loop/Tests.antt =====
-- The thread of the timer manager on small inputs.
use alias.Prelude.{
  ℕ, ◌+◌, ◌≡◌, refl, false, ltb, if◌then◌else◌, inl, List, [], ◌∷◌, none, some, arith,
}
use alias.Outcome.{ok, crash, Returns}
use alias.Timer.{
  Timer, add_timer, add_back, list_expire_timer, insert, comparator, new_timer, split_expired,
  is_single,
}
use alias.Timer.Manager.{IsValid}
use alias.Timer.Loop.{
  add, stop, Loop, Input, top, asleep, idle, Event, thread, other, run, happen, step, step_from,
  choose, timer_at, look, finish, round_end, asks, perform, rearm, recurs, next_round, next_time,
  is_positive, is_negative, is_idle,
}
use alias.Timer.Loop.Runs.{IsSound, taken, run-IsSound}
use alias.Timer.Loop.Rounds.{Handles, turns, run-Handles}
use alias.Timer.Loop.Waits.{next_time_near, stop-crash}

abbrev due : ℕ → Timer
due t = record { time = t; recycle_time = 0; cb = some 1; unique_id = 1 }

abbrev at_time : ℕ → Input
at_time t = record { now = t; polled = idle; asked = none }

-- A recurring timer is added, waited for, and fires; its callback starts one more timer.
abbrev one_round : List Event
one_round =
    other (add 50 100 (some 3) 40)
    ∷ thread (at_time 60)
    ∷ thread (at_time 60)
    ∷ thread (at_time 60)
    ∷ thread (at_time 160)
    ∷ thread (at_time 160)
    ∷ thread (record (at_time 160) { asked = some (add 170 60 (some 9) 0) })
    ∷ thread (at_time 160)
    ∷ thread (at_time 160)
    ∷ []

abbrev new_loop : Loop
new_loop = record {
  manager = record { timers = []; created = 0; signal = 0; should_exit = false };
  phase = top;
  n = idle;
}

abbrev ending : Loop
ending = record {
  manager = record {
    timers =
        record { time = 190; recycle_time = 40; cb = some 3; unique_id = 1 }
        ∷ record { time = 230; recycle_time = 0; cb = some 9; unique_id = 2 }
        ∷ [];
    created = 2;
    signal = 1 + 1;
    should_exit = false;
  };
  phase = top;
  n = idle;
}

run-one_round : run one_round new_loop ≡ ok ending
unfolding run happen step step_from choose look timer_at finish round_end asks perform rearm recurs
    next_round next_time is_positive is_negative is_idle add_timer add_back list_expire_timer insert
    comparator new_timer split_expired is_single
run-one_round = refl

new_loop-IsSound : IsSound new_loop
unfolding taken
new_loop-IsSound = record {
  valid = record { sorted = tt; unique = tt; known = tt };
  pending = tt;
  distinct = tt;
}

run-IsSound_example : IsSound ending
run-IsSound_example =
    run-IsSound one_round new_loop ending run-one_round new_loop-IsSound (omega arith)

next_time_near_example :
    ((if is_positive (next_time 50 (due 170)) then next_time 50 (due 170) else 0) ≡ 120)
    × (is_negative (next_time 50 (due 170)) ≡ ltb 170 50)
next_time_near_example =
    next_time_near 50 (due 170) (omega arith) (omega arith) (omega arith) (omega arith)

abbrev sleeping : Loop
sleeping = record new_loop { phase = asleep }

stop-crash_example : run (other stop ∷ thread (at_time 5) ∷ []) sleeping ≡ crash
stop-crash_example = stop-crash sleeping refl (at_time 5) refl

abbrev signalled : Loop
signalled = record new_loop { manager = record (new_loop.manager) { signal = 1 } }

-- One timer that is overdue and recurs, and one that is due later.
abbrev often : Timer
often = record { time = 100; recycle_time = 40; cb = some 3; unique_id = 1 }

abbrev overdue : Loop
overdue = record new_loop {
  manager = record (new_loop.manager) {
    timers = often ∷ record { time = 300; recycle_time = 0; cb = some 4; unique_id = 2 } ∷ [];
    created = 2;
  };
}

overdue-IsValid : IsValid overdue.manager
overdue-IsValid = record {
  sorted = (unfold comparator in (refl, tt), (tt, tt));
  unique = ((omega arith, tt), (tt, tt));
  known = (omega arith, (omega arith, tt));
}

run-Handles_example :
    Returns
      (run
        (thread (at_time 110)
          ∷ thread (at_time 110)
          ∷ thread (at_time 110)
          ∷ thread (at_time 111)
          ∷ turns (at_time 111) (split_expired 111 overdue.manager.timers).0)
        overdue)
      λ r. (r.phase ≡ top) × Handles 111 overdue.manager.timers r.manager.timers
run-Handles_example =
    run-Handles (at_time 111) refl (at_time 110) overdue often _ overdue-IsValid refl refl refl
      (inl refl) (omega arith) (omega arith) (omega arith)
