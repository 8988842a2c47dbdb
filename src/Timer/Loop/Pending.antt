-- ===== src/Timer/Loop/Pending.antt =====
-- Timers that the thread has taken out, while other calls change the manager.
use alias.Prelude.{ℕ, ◌+◌, ◌^◌, ◌≤◌, ◌<◌, ◌≡◌, sym, ◌≢◌, List, [], ◌∷◌, Option, arith, All}
use alias.Timer.{
  Timer, TimerManager, new_timer, insert, erase_id, add_timer, add_back, del_timer, stop_timer,
}
use alias.Timer.Order.{Lacks, HasUniqueIds, insert-All, erase_id-All, insert-perm}
use alias.Timer.Manager.{IsValid, add_timer-Adds, del_timer-Deletes, Lacks_above}
use alias.Timer.Loop.{Action, add, del, stop, perform}

-- A valid manager beside the timers that its thread has taken out and not yet dealt with.
pub record Holds (ts : List Timer) (m : TimerManager) : Type 0 where
  pub valid : IsValid m
  pub pending : All (λ p. Lacks p.unique_id m.timers × (p.unique_id ≤ m.created)) ts
  pub distinct : HasUniqueIds ts

pub created-add :
    (now ms : ℕ) (cb : Option ℕ) (r : ℕ) (m : TimerManager)
    → (add_timer now ms cb r m).1.created ≡ m.created + 1
unfolding add_timer
created-add now ms cb r m = ground arith

pub created-perform : (a : Action) (m : TimerManager) → m.created ≤ (perform a m).created
unfolding perform del_timer stop_timer
created-perform (add now ms cb r) m = omega (arith, created-add now ms cb r m)
created-perform (del i) m = omega arith
created-perform stop m = omega arith

pub pending_add :
    (t : Timer) (m : TimerManager) (k : ℕ) (ts : List Timer)
    → t.unique_id ≡ m.created + 1
    → m.created ≤ k
    → All (λ p. Lacks p.unique_id m.timers × (p.unique_id ≤ m.created)) ts
    → All (λ p. Lacks p.unique_id (insert t m.timers).0 × (p.unique_id ≤ k)) ts
pending_add t m k [] e le all = tt
pending_add t m k (p ∷ ts) e le all = (
  (insert-All (λ y. y.unique_id ≢ p.unique_id) t m.timers (omega arith) all.0.0, omega arith),
  pending_add t m k ts e le all.1,
)

pub pending_del :
    (i : ℕ) (m : TimerManager) (ts : List Timer)
    → All (λ p. Lacks p.unique_id m.timers × (p.unique_id ≤ m.created)) ts
    → All (λ p. Lacks p.unique_id (erase_id i m.timers).0 × (p.unique_id ≤ m.created)) ts
pending_del i m [] all = tt
pending_del i m (p ∷ ts) all = (
  (erase_id-All (λ y. y.unique_id ≢ p.unique_id) i m.timers all.0.0, all.0.1),
  pending_del i m ts all.1,
)

pub pending_back :
    (t : Timer) (m : TimerManager) (ts : List Timer)
    → Lacks t.unique_id ts
    → All (λ p. Lacks p.unique_id m.timers × (p.unique_id ≤ m.created)) ts
    → All (λ p. Lacks p.unique_id (add_back t m).timers × (p.unique_id ≤ (add_back t m).created)) ts
unfolding add_back
pending_back t m [] l all = tt
pending_back t m (p ∷ ts) l all = (
  (insert-All (λ y. y.unique_id ≢ p.unique_id) t m.timers (λ e. l.0 (sym e)) all.0.0, all.0.1),
  pending_back t m ts l.1 all.1,
)

pub add-pending :
    (now ms : ℕ) (cb : Option ℕ) (r : ℕ) (m : TimerManager) (ts : List Timer)
    → Holds ts m
    → m.created + 1 < 2 ^ 64
    → All
        (λ p.
          Lacks p.unique_id (add_timer now ms cb r m).1.timers
          × (p.unique_id ≤ (add_timer now ms cb r m).1.created))
        ts
unfolding add_timer
add-pending now ms cb r m ts h small =
    let t = new_timer m.created now ms cb r in
    let fresh : t.unique_id ≡ m.created + 1 = unfold new_timer in omega arith in
    let lacks : Lacks t.unique_id m.timers =
      rw fresh (Lacks_above m.created m.timers h.valid.known) in
    rw (insert-perm t m.timers lacks).0
      (pending_add t m (m.created + 1) ts fresh (omega arith) h.pending)

pub perform-Holds :
    (ts : List Timer) (a : Action) (m : TimerManager)
    → Holds ts m
    → (perform a m).created < 2 ^ 64
    → Holds ts (perform a m)
unfolding perform
perform-Holds ts (add now ms cb r) m h small =
    let fits : m.created + 1 < 2 ^ 64 = omega (arith, created-add now ms cb r m) in
    record {
      valid = (add_timer-Adds now ms cb r m h.valid fits).valid;
      pending = add-pending now ms cb r m ts h fits;
      distinct = h.distinct;
    }
perform-Holds ts (del i) m h small = record {
  valid = (del_timer-Deletes i m h.valid).valid;
  pending = unfold del_timer in pending_del i m ts h.pending;
  distinct = h.distinct;
}
perform-Holds ts stop m h small =
    unfold stop_timer in
    record {
      valid = record { sorted = h.valid.sorted; unique = h.valid.unique; known = h.valid.known };
      pending = h.pending;
      distinct = h.distinct;
    }
