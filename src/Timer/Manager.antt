-- ===== src/Timer/Manager.antt =====
-- The operations of the timer manager that other threads and callbacks call.
use mathlib.Core.List.{Perm}
use mathlib.Core.Path.{subst}
use alias.Prelude.{
  ap, ◌%◌, ℕ, ◌+◌, ◌^◌, ◌≤◌, ◌<◌, ◌≡◌, refl, Bool, true, false, List, [], ◌∷◌, Option, arith, All,
  Bool-cases, inl, inr, ◌⊎◌,
}
use alias.Timer.{
  Timer, TimerManager, new_timer, new_manager, insert, erase_id, add_timer, add_back, del_timer,
}
use alias.Timer.Order.{
  IsSorted, Lacks, HasUniqueIds, insert-All, insert-IsSorted, insert-HasUniqueIds, insert-perm,
  erase_id-All, erase_id-IsSorted, erase_id-HasUniqueIds, erase_id-found, erase_id-absent,
  erase_id-Lacks,
}

-- The set is in order, and each timer has an id of its own, from 1 to the number created.
pub record IsValid (m : TimerManager) : Type 0 where
  pub sorted : IsSorted m.timers
  pub unique : HasUniqueIds m.timers
  pub known : All (λ t. t.unique_id ≤ m.created) m.timers

pub new_manager-IsValid : (n : ℕ) → IsValid (new_manager n)
unfolding new_manager
new_manager-IsValid n = record { sorted = tt; unique = tt; known = tt }

pub Lacks_above : (n : ℕ) (xs : List Timer) → All (λ t. t.unique_id ≤ n) xs → Lacks (n + 1) xs
Lacks_above n [] h = tt
Lacks_above n (x ∷ xs) h = (omega arith, Lacks_above n xs h.1)

pub known_more :
    (n k : ℕ) (xs : List Timer)
    → n ≤ k
    → All (λ t. t.unique_id ≤ n) xs
    → All (λ t. t.unique_id ≤ k) xs
known_more n k [] le h = tt
known_more n k (x ∷ xs) le h = (omega arith, known_more n k xs le h.1)

-- A timer that is due `ms` milliseconds after `now`, with the next id.
abbrev pub started : ℕ → ℕ → ℕ → Option ℕ → ℕ → Timer
started created now ms cb recycle = record {
  time = (now + ms) % 2 ^ 64;
  recycle_time = recycle;
  cb = cb;
  unique_id = created + 1;
}

new_timer-started :
    (created now ms : ℕ) (cb : Option ℕ) (recycle : ℕ)
    → created + 1 < 2 ^ 64
    → new_timer created now ms cb recycle ≡ started created now ms cb recycle
unfolding new_timer
new_timer-started created now ms cb recycle small =
    ap (λ i. record { time = (now + ms) % 2 ^ 64; recycle_time = recycle; cb = cb; unique_id = i })
      (omega arith)

-- What `addTimer` does to the manager.
pub record Adds (now ms : ℕ) (cb : Option ℕ) (recycle : ℕ) (m : TimerManager) (r : ℕ × TimerManager)
    : Type 0 where
  pub id : r.0 ≡ m.created + 1
  pub valid : IsValid r.1
  pub created : r.1.created ≡ m.created + 1
  pub timers : Perm r.1.timers (started m.created now ms cb recycle ∷ m.timers)

-- On a valid manager, while fewer than 2 ^ 64 timers have been created with this one, `addTimer` returns a new id and adds a timer with
-- that id that is due `ms` milliseconds from now; the other timers stay, and the manager is valid.
pub add_timer-Adds :
    (now ms : ℕ) (cb : Option ℕ) (recycle : ℕ) (m : TimerManager)
    → IsValid m
    → m.created + 1 < 2 ^ 64
    → Adds now ms cb recycle m (add_timer now ms cb recycle m)
unfolding add_timer
add_timer-Adds now ms cb recycle m v small =
    let t = new_timer m.created now ms cb recycle in
    let fresh : t.unique_id ≡ m.created + 1 = unfold new_timer in omega arith in
    let lacks : Lacks t.unique_id m.timers = rw fresh (Lacks_above m.created m.timers v.known) in
    let (done, p) = insert-perm t m.timers lacks in
    rw done (record {
      id = fresh;
      valid = record {
        sorted = insert-IsSorted t m.timers v.sorted;
        unique = insert-HasUniqueIds t m.timers lacks v.unique;
        known =
            insert-All (λ y. y.unique_id ≤ m.created + 1) t m.timers (omega arith)
              (known_more m.created (m.created + 1) m.timers (omega arith) v.known);
      };
      created = refl;
      timers =
          subst (λ x. Perm (insert t m.timers).0 (x ∷ m.timers))
            (new_timer-started m.created now ms cb recycle small) p;
    })

-- What `delTimer` does to the manager.
pub record Deletes (i : ℕ) (m : TimerManager) (r : Bool × TimerManager) : Type 0 where
  pub valid : IsValid r.1
  pub created : r.1.created ≡ m.created
  pub gone : Lacks i r.1.timers
  pub told :
      ((r.0 ≡ true) × (t : Timer) × (t.unique_id ≡ i) × Perm m.timers (t ∷ r.1.timers))
      ⊎ ((r.0 ≡ false) × (r.1.timers ≡ m.timers))

-- `delTimer` leaves a valid manager without the id: it returns true where it removed the one timer of
-- that id, and false where there was none and the set is as before.
pub del_timer-Deletes : (i : ℕ) (m : TimerManager) → IsValid m → Deletes i m (del_timer i m)
unfolding del_timer
del_timer-Deletes i m v = record {
  valid = record {
    sorted = erase_id-IsSorted i m.timers v.sorted;
    unique = erase_id-HasUniqueIds i m.timers v.unique;
    known = erase_id-All (λ t. t.unique_id ≤ m.created) i m.timers v.known;
  };
  created = refl;
  gone = erase_id-Lacks i m.timers v.unique;
  told = elim (Bool-cases (erase_id i m.timers).1) [
    | inl h ↦ let (t, e, p) = erase_id-found i m.timers h in inl (h, t, e, p)
    | inr h ↦ inr (h, (erase_id-absent i m.timers h).0)
  ];
}

-- A timer that recurs goes back under its own id.
pub add_back-IsValid :
    (t : Timer) (m : TimerManager)
    → IsValid m
    → Lacks t.unique_id m.timers
    → t.unique_id ≤ m.created
    → IsValid (add_back t m)
unfolding add_back
add_back-IsValid t m v lacks le = record {
  sorted = insert-IsSorted t m.timers v.sorted;
  unique = insert-HasUniqueIds t m.timers lacks v.unique;
  known = insert-All (λ y. y.unique_id ≤ m.created) t m.timers le v.known;
}
