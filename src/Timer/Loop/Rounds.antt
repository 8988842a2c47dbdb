-- ===== src/Timer/Loop/Rounds.antt =====
-- A whole round of the timer thread, where the callbacks ask nothing of the manager.
use mathlib.Core.List.{Perm, perm_middle}
use mathlib.Core.List.Perm
use alias.Prelude.{
  ℕ, ◌+◌, ◌^◌, ◌≤◌, ◌<◌, ◌≡◌, refl, sym, ap, ◌∙◌, ◌≢◌, ◌⊎◌, none, some, ◌==◌, ◌||◌, true, false,
  if◌then◌else◌, List, [], ◌∷◌, ◌++◌, arith, All, Bool-cases, Option-cases, inl, inr,
}
use alias.Outcome.{ok, Returns}
use alias.Timer.{Timer, TimerManager, insert, add_back, list_expire_timer, split_expired}
use alias.Timer.Order.{Lacks, HasUniqueIds, insert-All, insert-perm}
use alias.Timer.Manager.{IsValid}
use alias.Timer.Expire.{Expires, list_expire_timer-Expires, split_expired-apart}
use alias.Timer.Loop.{
  Polled, idle, events, failed, top, entered, chosen, polling, firing, calling, Loop, Input, choose,
  timer_at, look, next_time, is_positive, is_negative, is_idle, next_round, recurs, rearm, asks,
  round_end, finish, step_from, step, Event, thread, happen, run,
}
use alias.Timer.Loop.Waits.{next_time_overdue}

-- The next rounds of those that recur.
abbrev pub again : List Timer → List Timer
again [] = []
again (t ∷ ts) = if recurs t then next_round t ∷ again ts else again ts

-- What the second step of a round makes of the timers: those that are due are gone, but for the next
-- rounds of those that recur.
pub record Handles (now : ℕ) (xs ys : List Timer) : Type 0 where
  pub due : List Timer
  pub later : List Timer
  pub split : Expires now xs (due, later)
  pub left : Perm ys (again due ++ later)

still_lacking :
    (t : Timer) (xs ts : List Timer)
    → Lacks t.unique_id ts
    → All (λ p. Lacks p.unique_id xs) ts
    → All (λ p. Lacks p.unique_id (insert t xs).0) ts
still_lacking t xs [] l all = tt
still_lacking t xs (p ∷ ts) l all = (
  insert-All (λ y. y.unique_id ≢ p.unique_id) t xs (λ e. l.0 (sym e)) all.0,
  still_lacking t xs ts l.1 all.1,
)

-- The steps of the thread from `mExpireTimerVec` on: two for each timer in it, and one at the end.
abbrev pub turns : Input → List Timer → List Event
turns j [] = thread j ∷ []
turns j (t ∷ ts) = thread j ∷ thread j ∷ turns j ts

-- What they do to the manager.
rearm_all : List Timer → TimerManager → TimerManager
rearm_all [] m = m
rearm_all (t ∷ ts) m = rearm_all ts (rearm t m)

rearm-recurs :
    (t : Timer) (m : TimerManager) → recurs t ≡ true → rearm t m ≡ add_back (next_round t) m
unfolding rearm
rearm-recurs t m e = rw e refl

rearm-ends : (t : Timer) (m : TimerManager) → recurs t ≡ false → rearm t m ≡ m
unfolding rearm
rearm-ends t m e = rw e refl

rearm_all-Perm :
    (ts : List Timer) (m : TimerManager)
    → All (λ p. Lacks p.unique_id m.timers) ts
    → HasUniqueIds ts
    → Perm (rearm_all ts m).timers (again ts ++ m.timers)
unfolding rearm_all add_back
rearm_all-Perm [] m lacks unique = Perm.refl _
rearm_all-Perm (t ∷ ts) m lacks unique = elim (Bool-cases (recurs t)) [
  | inl e ↦
      let t' = next_round t in
      let same : t'.unique_id ≡ t.unique_id = unfold next_round in refl in
      let there = (insert-perm t' m.timers (rw same lacks.0)).1 in
      let rest =
        rearm_all-Perm ts (add_back t' m) (still_lacking t' m.timers ts (rw same unique.0) lacks.1)
          unique.1 in
      rw (e, rearm_all, rearm-recurs t m e)
        (Perm.trans rest
          (Perm.trans (Perm.append_left (again ts) there) (perm_middle (again ts) m.timers)))
  | inr e ↦ rw (e, rearm_all, rearm-ends t m e) (rearm_all-Perm ts m lacks.1 unique.1)
]

asks_quiet : (t : Timer) → asks t none ≡ none
unfolding asks
asks_quiet t = elim (Option-cases t.cb) [ inl e ↦ rw (e, asks) | inr (c, e) ↦ rw (e, asks) ]

top_step :
    (i : Input) (l : Loop)
    → l.manager.should_exit ≡ false
    → step_from top i l ≡ ok (record l { phase = entered })
unfolding step_from
top_step i l on = ground arith

entered_step :
    (i : Input) (l : Loop) (t : Timer) (ts : List Timer)
    → l.manager.timers ≡ t ∷ ts
    → step_from entered i (record l { phase = entered })
      ≡ ok (record l { phase = chosen t.unique_id })
unfolding step_from choose
entered_step i l t ts first = ground arith

timer_at-first : (t : Timer) (xs ts : List Timer) → xs ≡ t ∷ ts → timer_at t.unique_id xs ≡ some t
unfolding timer_at
timer_at-first t xs ts first =
    let same : (t.unique_id == t.unique_id) ≡ true = ground arith in rw (first, same) refl

chosen_step :
    (i : Input) (l : Loop) (t : Timer) (ts : List Timer)
    → l.manager.timers ≡ t ∷ ts
    → step_from (chosen t.unique_id) i (record l { phase = chosen t.unique_id })
      ≡ ok (record l { phase = polling (next_time i.now t) })
unfolding step_from look
chosen_step i l t ts first = rw (timer_at-first t l.manager.timers ts first, look) refl

module _ (j : Input) (quiet : j.asked ≡ none) where
  calling_step :
      (t : Timer) (ts : List Timer) (l : Loop)
      → step_from (calling t ts) j l
        ≡ ok (record l { manager = rearm t l.manager; phase = firing ts })
  unfolding step_from
  calling_step t ts l = rw (quiet, asks_quiet t, step_from) refl

  run-turns :
      (ts : List Timer) (m : TimerManager) (n : Polled)
      → (n ≡ idle) ⊎ (n ≡ events)
      → run (turns j ts) (record { manager = m; phase = firing ts; n = n })
        ≡ ok (record { manager = rearm_all ts m; phase = top; n = n })
  unfolding run happen step step_from round_end rearm_all
  run-turns [] m idle good = refl
  run-turns [] m events good = refl
  run-turns [] m failed good = elim good [ inl e ↦ cc | inr e ↦ cc ]
  run-turns (t ∷ ts) m n good =
      rw (calling_step t ts (record { manager = m; phase = calling t ts; n = n }))
        (run-turns ts (rearm t m) n good)

  polling_step :
      (w : ℕ) (l : Loop)
      → is_positive w ≡ false
      → is_negative w ≡ true
      → step_from (polling w) j (record l { phase = polling w })
        ≡ ok (record {
          manager = (list_expire_timer j.now l.manager).1;
          phase = firing (split_expired j.now l.manager.timers).0;
          n = l.n;
        })
  unfolding step_from finish list_expire_timer
  polling_step w l p n =
      let late : (is_idle l.n || is_negative w) ≡ true = ground arith in rw (p, late) refl

  -- From the test of `while` to `epoll_wait`, and to `mExpireTimerVec`.
  head_run :
      (i : Input) (l : Loop) (t : Timer) (ts : List Timer)
      → l.manager.timers ≡ t ∷ ts
      → l.phase ≡ top
      → l.manager.should_exit ≡ false
      → (l.n ≡ idle) ⊎ (l.n ≡ events)
      → is_positive (next_time i.now t) ≡ false
      → is_negative (next_time i.now t) ≡ true
      → run
          (thread i
            ∷ thread i
            ∷ thread i
            ∷ thread j
            ∷ turns j (split_expired j.now l.manager.timers).0)
          l
        ≡ ok (record {
          manager =
              rearm_all (list_expire_timer j.now l.manager).0 (list_expire_timer j.now l.manager).1;
          phase = top;
          n = l.n;
        })
  unfolding run happen step list_expire_timer
  head_run i l t ts first at_top on good w n =
      let one : step_from l.phase i l ≡ ok (record l { phase = entered }) =
        ap (λ p. step_from p i l) at_top ∙ top_step i l on in
      rw
        (
          one,
          entered_step i l t ts first,
          chosen_step i l t ts first,
          polling_step (next_time i.now t) l w n,
        )
        (run-turns (split_expired j.now l.manager.timers).0 (list_expire_timer j.now l.manager).1
          l.n good)

  -- Where the first timer of a valid set is overdue, by at most 2 ^ 31 ms, and the thread is at the head
  -- of its loop and is not told to stop, its next steps without a step of another thread, three to the
  -- time of that timer, one that takes out the timers that are due then, two for each of these and one
  -- at the end, deal with all of them, and the thread is at the head of its loop again. The callbacks
  -- ask nothing of the manager, and `epoll_wait` has not failed before.
  pub run-Handles :
      (i : Input) (l : Loop) (t : Timer) (ts : List Timer)
      → IsValid l.manager
      → l.manager.timers ≡ t ∷ ts
      → l.phase ≡ top
      → l.manager.should_exit ≡ false
      → (l.n ≡ idle) ⊎ (l.n ≡ events)
      → t.time < i.now
      → i.now ≤ t.time + 2 ^ 31
      → i.now < 2 ^ 64
      → Returns
          (run
            (thread i
              ∷ thread i
              ∷ thread i
              ∷ thread j
              ∷ turns j (split_expired j.now l.manager.timers).0)
            l)
          λ r. (r.phase ≡ top) × Handles j.now l.manager.timers r.manager.timers
  unfolding list_expire_timer
  run-Handles i l t ts v first at_top on good due near small =
      let (w, n) = next_time_overdue i.now t due near small in
      let (distinct, _, apart) = split_expired-apart j.now l.manager.timers v.unique in
      (
        _,
        head_run i l t ts first at_top on good w n,
        (
          refl,
          record {
            due = (split_expired j.now l.manager.timers).0;
            later = (split_expired j.now l.manager.timers).1;
            split = list_expire_timer-Expires j.now l.manager v;
            left = rearm_all-Perm (split_expired j.now l.manager.timers).0 _ apart distinct;
          },
        ),
      )
