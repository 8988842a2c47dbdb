-- ===== src/Timer/Loop/Runs.antt =====
-- Runs of the timer thread together with the calls of other threads.
use alias.Prelude.{
  ℕ, ◌-◌, ◌^◌, ◌==◌, ◌||◌, refl, ◌≤◌, ◌<◌, ◌≡◌, List, [], ◌∷◌, Option, none, some, arith, All,
  Bool-cases, Option-cases, inl, inr,
}
use mathlib.Core.Path.{subst}
use alias.Outcome.{Outcome, ok, >>=-eq-ok}
use alias.Timer.{Timer, TimerManager, add_back, list_expire_timer, split_expired}
use alias.Timer.Order.{Lacks}
use alias.Timer.Manager.{IsValid, add_back-IsValid}
use alias.Timer.Expire.{split_expired-All, split_expired-IsSorted, split_expired-apart}
use alias.Timer.Loop.{
  Action, perform, Polled, idle, events, failed, Phase, top, entered, asleep, chosen, polling,
  firing, calling, stopped, next_time, Loop, Input, choose, timer_at, look, next_round, recurs,
  rearm, asks, round_end, finish, is_idle, is_negative, step_from, step, Event, thread, other,
  happen, run,
}
use alias.Timer.Loop.Pending.{Holds, created-perform, pending_back, perform-Holds}

-- The timers that the thread has taken out of the set and not yet dealt with.
unfoldable pub taken : Phase → List Timer
taken (firing ts) = ts
taken (calling t ts) = t ∷ ts
taken _ = []

-- The manager is valid beside the timers that the thread has taken out.
abbrev pub IsSound : Loop → Type 0
IsSound l = Holds (taken l.phase) l.manager

-- What an event can have done.
record Keeps (l l' : Loop) : Type 0 where
  grows : l.manager.created ≤ l'.manager.created
  sound : IsSound l → l'.manager.created < 2 ^ 64 → IsSound l'

Holds-rest : (t : Timer) (ts : List Timer) (m : TimerManager) → Holds (t ∷ ts) m → Holds ts m
Holds-rest t ts m h = record { valid = h.valid; pending = h.pending.1; distinct = h.distinct.1 }

created-rearm : (t : Timer) (m : TimerManager) → (rearm t m).created ≡ m.created
unfolding rearm add_back
created-rearm t m = ground arith

rearm-Holds :
    (ts : List Timer) (t : Timer) (m : TimerManager) → Holds (t ∷ ts) m → Holds ts (rearm t m)
unfolding rearm
rearm-Holds ts t m h = elim (Bool-cases (recurs t)) [
  | inl k ↦ rw k (record {
    valid =
        add_back-IsValid (next_round t) m h.valid (unfold next_round in h.pending.0.0)
          (unfold next_round in h.pending.0.1);
    pending = pending_back (next_round t) m ts (unfold next_round in h.distinct.0) h.pending.1;
    distinct = h.distinct.1;
  })
  | inr k ↦ rw k (Holds-rest t ts m h)
]

-- What `ListExpireTimer` takes out.
expired-Holds :
    (now : ℕ) (m : TimerManager)
    → IsValid m
    → Holds (list_expire_timer now m).0 (list_expire_timer now m).1
unfolding list_expire_timer
expired-Holds now m v =
    let (es, rest) = split_expired-All (λ t. t.unique_id ≤ m.created) now m.timers v.known in
    let (distinct, unique, apart) = split_expired-apart now m.timers v.unique in
    record {
      valid = record {
        sorted = split_expired-IsSorted now m.timers v.sorted;
        unique = unique;
        known = rest;
      };
      pending =
          both (split_expired now m.timers).1 m.created (split_expired now m.timers).0 apart es;
      distinct = distinct;
    }
  where
    both :
        (rest : List Timer) (k : ℕ) (es : List Timer)
        → All (λ t. Lacks t.unique_id rest) es
        → All (λ t. t.unique_id ≤ k) es
        → All (λ p. Lacks p.unique_id rest × (p.unique_id ≤ k)) es
    both rest k [] a b = tt
    both rest k (e ∷ es) a b = ((a.0, b.0), both rest k es a.1 b.1)

created-expired : (now : ℕ) (m : TimerManager) → (list_expire_timer now m).1.created ≡ m.created
unfolding list_expire_timer
created-expired now m = omega arith

-- A step that leaves the timers as they are, and takes none.
idle_step :
    (l : Loop) (s : ℕ) (p : Phase) (n : Polled)
    → taken p ≡ []
    → Keeps l (record { manager = record (l.manager) { signal = s }; phase = p; n = n })
idle_step l s p n none_taken = record {
  grows = omega arith;
  sound = λ h small. rw none_taken (record {
    valid = record { sorted = h.valid.sorted; unique = h.valid.unique; known = h.valid.known };
    pending = tt;
    distinct = tt;
  });
}

choose-Keeps :
    (s : ℕ) (l l' : Loop) (ts : List Timer)
    → choose (record l { manager = record (l.manager) { signal = s } }) ts ≡ ok l'
    → Keeps l l'
unfolding choose taken
choose-Keeps s l l' [] h = cc
choose-Keeps s l l' (t ∷ ts) h =
    let end : record l { manager = record (l.manager) { signal = s }; phase = chosen t.unique_id }
        ≡ l' =
      cc in
    subst (Keeps l) end (idle_step l s (chosen t.unique_id) l.n refl)

entered-Keeps :
    (l l' : Loop) (ts : List Timer)
    → (elim ts as (λ _. Outcome Loop) [
      | [] ↦ ok (record l { phase = asleep })
      | u ∷ us ↦ choose l (u ∷ us)
    ])
      ≡ ok l'
    → Keeps l l'
unfolding taken
entered-Keeps l l' [] h =
    let end : record l { phase = asleep } ≡ l' = cc in
    subst (Keeps l) end (idle_step l l.manager.signal asleep l.n refl)
entered-Keeps l l' (t ∷ ts) h = choose-Keeps l.manager.signal l l' (t ∷ ts) h

look-Keeps : (now i : ℕ) (l l' : Loop) → look now i l ≡ ok l' → Keeps l l'
unfolding look taken
look-Keeps now i l l' h = elim (Option-cases (timer_at i l.manager.timers)) [
  | inl gone ↦ cc (rw (gone, look) at h)
  | inr (t, there) ↦
      let end : record l { phase = polling (next_time now t) } ≡ l' = cc (rw (there, look) at h) in
      subst (Keeps l) end (idle_step l l.manager.signal (polling (next_time now t)) l.n refl)
]

round_end-Keeps : (n : Polled) (l l' : Loop) → round_end (record l { n = n }) ≡ ok l' → Keeps l l'
unfolding round_end taken
round_end-Keeps failed l l' h = cc
round_end-Keeps idle l l' h =
    let end : record l { phase = top; n = idle } ≡ l' = cc in
    subst (Keeps l) end (idle_step l l.manager.signal top idle refl)
round_end-Keeps events l l' h =
    let end : record l { phase = top; n = events } ≡ l' = cc in
    subst (Keeps l) end (idle_step l l.manager.signal top events refl)

finish-Keeps : (now w : ℕ) (n : Polled) (l l' : Loop) → finish now w n l ≡ ok l' → Keeps l l'
unfolding finish taken
finish-Keeps now w n l l' h = elim (Bool-cases (is_idle n || is_negative w)) [
  | inr over ↦ round_end-Keeps n l l' (rw over at h)
  | inl expired ↦
      let end : record {
        manager = (list_expire_timer now l.manager).1;
        phase = firing (list_expire_timer now l.manager).0;
        n = n;
      }
          ≡ l' =
        cc (rw expired at h) in
      subst (Keeps l) end (record {
        grows = omega (arith, created-expired now l.manager);
        sound = λ s small. expired-Holds now l.manager s.valid;
      })
]

calling-Keeps :
    (t : Timer) (ts : List Timer) (asked : Option Action) (l l' : Loop)
    → l.phase ≡ calling t ts
    → (elim asked as (λ _. Outcome Loop) [
      | none ↦ ok (record l { manager = rearm t l.manager; phase = firing ts })
      | some a ↦ ok (record l { manager = perform a l.manager })
    ])
      ≡ ok l'
    → Keeps l l'
unfolding taken
calling-Keeps t ts none l l' at h =
    let end : record l { manager = rearm t l.manager; phase = firing ts } ≡ l' = cc in
    subst (Keeps l) end (record {
      grows = omega (arith, created-rearm t l.manager);
      sound = λ s small. rearm-Holds ts t l.manager (subst (λ p. Holds (taken p) l.manager) at s);
    })
calling-Keeps t ts (some a) l l' at h =
    let end : record l { manager = perform a l.manager } ≡ l' = cc in
    subst (Keeps l) end (record {
      grows = created-perform a l.manager;
      sound = λ s small. perform-Holds (taken l.phase) a l.manager s small;
    })

step-Keeps :
    (p : Phase) (i : Input) (l l' : Loop) → l.phase ≡ p → step_from p i l ≡ ok l' → Keeps l l'
unfolding step_from taken
step-Keeps top i l l' at h = elim (Bool-cases l.manager.should_exit) [
  | inl e ↦
      let end : record l { phase = stopped } ≡ l' = cc (rw e at h) in
      subst (Keeps l) end (idle_step l l.manager.signal stopped l.n refl)
  | inr e ↦
      let end : record l { phase = entered } ≡ l' = cc (rw e at h) in
      subst (Keeps l) end (idle_step l l.manager.signal entered l.n refl)
]
step-Keeps entered i l l' at h = entered-Keeps l l' l.manager.timers h
step-Keeps asleep i l l' at h = elim (Bool-cases (l.manager.signal == 0)) [
  | inl e ↦
      let end : l ≡ l' = cc (rw e at h) in
      subst (Keeps l) end (record { grows = omega arith; sound = λ s small. s })
  | inr e ↦ choose-Keeps (l.manager.signal - 1) l l' l.manager.timers (rw e at h)
]
step-Keeps (chosen id) i l l' at h = look-Keeps i.now id l l' h
step-Keeps (polling w) i l l' at h = finish-Keeps i.now w _ l l' h
step-Keeps (firing []) i l l' at h = round_end-Keeps l.n l l' h
step-Keeps (firing (t ∷ ts)) i l l' at h =
    let end : record l { phase = calling t ts } ≡ l' = cc in
    subst (Keeps l) end (record {
      grows = omega arith;
      sound = λ s small. subst (λ p. Holds (taken p) l.manager) at s;
    })
step-Keeps (calling t ts) i l l' at h = calling-Keeps t ts (asks t i.asked) l l' at h
step-Keeps stopped i l l' at h =
    let end : l ≡ l' = cc in
    subst (Keeps l) end (record { grows = omega arith; sound = λ s small. s })

happen-Keeps : (e : Event) (l l' : Loop) → happen e l ≡ ok l' → Keeps l l'
unfolding happen step
happen-Keeps (thread i) l l' h = step-Keeps l.phase i l l' refl h
happen-Keeps (other a) l l' h =
    let end : record l { manager = perform a l.manager } ≡ l' = cc in
    subst (Keeps l) end (record {
      grows = created-perform a l.manager;
      sound = λ s small. perform-Holds (taken l.phase) a l.manager s small;
    })

run-Keeps : (es : List Event) (l l' : Loop) → run es l ≡ ok l' → Keeps l l'
unfolding run
run-Keeps [] l l' h =
    let end : l ≡ l' = cc in
    subst (Keeps l) end (record { grows = omega arith; sound = λ s small. s })
run-Keeps (e ∷ es) l l' h =
    let (mid, first, rest) = >>=-eq-ok (happen e l) (run es) h in
    let a = happen-Keeps e l mid first in
    let b = run-Keeps es mid l' rest in
    record {
      grows = omega (arith, a.grows, b.grows);
      sound = λ s small. b.sound (a.sound s (omega (arith, b.grows))) small;
    }

-- Whatever the thread, its callbacks and other threads do, one locked part after another in any order, a
-- manager that is valid beside the timers that the thread has taken out of it is so after a run that
-- neither fails nor throws, if fewer than 2 ^ 64 timers have been created by its end: it is sorted,
-- the ids in it are different, and no timer that is taken out is in it as well.
pub run-IsSound :
    (es : List Event) (l l' : Loop)
    → run es l ≡ ok l'
    → IsSound l
    → l'.manager.created < 2 ^ 64
    → IsSound l'
run-IsSound es l l' h s small = (run-Keeps es l l' h).sound s small
