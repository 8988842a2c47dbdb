-- ===== src/Timer/Expire.antt =====
-- `ListExpireTimer`: which timers it takes out.
use alias.Prelude.{
  ℕ, ◌≤◌, ◌<◌, ltb, ◌≡◌, refl, ap, sym, ◌≢◌, true, false, List, [], ◌∷◌, ◌++◌, arith, All,
  Bool-cases, inl, inr,
}
use alias.Timer.{Timer, TimerManager, comparator, before, split_expired, list_expire_timer}
use alias.Timer.Order.{IsSorted, Lacks, HasUniqueIds}
use alias.Timer.Manager.{IsValid}

time_mono : (a b : Timer) → before a b ≡ true → a.time ≤ b.time
unfolding comparator
time_mono a b h = ground arith

module _ {κ} (P : Timer → Type κ) where
  pub split_expired-All :
      (now : ℕ) (xs : List Timer)
      → All P xs
      → All P (split_expired now xs).0 × All P (split_expired now xs).1
  unfolding split_expired
  split_expired-All now [] all = (tt, tt)
  split_expired-All now (x ∷ xs) all =
      let (es, rest) = split_expired-All now xs all.1 in
      elim (Bool-cases (ltb x.time now)) [
        | inl h ↦ rw h ((all.0, es), rest)
        | inr h ↦ rw h (es, (all.0, rest))
      ]

pub split_expired-IsSorted :
    (now : ℕ) (xs : List Timer) → IsSorted xs → IsSorted (split_expired now xs).1
unfolding split_expired
split_expired-IsSorted now [] s = tt
split_expired-IsSorted now (x ∷ xs) s = elim (Bool-cases (ltb x.time now)) [
  | inl h ↦ rw h (split_expired-IsSorted now xs s.1)
  | inr h ↦
      rw h (
        (split_expired-All (λ y. before x y ≡ true) now xs s.0).1,
        split_expired-IsSorted now xs s.1,
      )
]

-- None is due where the first is not.
none_due :
    (now : ℕ) (x : Timer) (xs : List Timer)
    → now ≤ x.time
    → All (λ y. before x y ≡ true) xs
    → split_expired now xs ≡ ([], xs)
unfolding split_expired
none_due now x [] le all = refl
none_due now x (y ∷ ys) le all =
    let later : ltb y.time now ≡ false = ground (arith, time_mono x y all.0) in
    rw (later, none_due now x ys le all.1)

-- What expiry takes from the timers `xs`, and what it leaves.
pub record Expires (now : ℕ) (xs : List Timer) (r : List Timer × List Timer) : Type 0 where
  pub whole : xs ≡ r.0 ++ r.1
  pub due : All (λ t. t.time < now) r.0
  pub later : All (λ t. now ≤ t.time) r.1

all_later :
    (now : ℕ) (x : Timer) (xs : List Timer)
    → now ≤ x.time
    → All (λ y. before x y ≡ true) xs
    → All (λ t. now ≤ t.time) xs
all_later now x [] le all = tt
all_later now x (y ∷ ys) le all = (omega (arith, time_mono x y all.0), all_later now x ys le all.1)

split_expired-Expires :
    (now : ℕ) (xs : List Timer) → IsSorted xs → Expires now xs (split_expired now xs)
unfolding split_expired
split_expired-Expires now [] s = record { whole = refl; due = tt; later = tt }
split_expired-Expires now (x ∷ xs) s = elim (Bool-cases (ltb x.time now)) [
  | inl h ↦
      let rest = split_expired-Expires now xs s.1 in
      rw h (record {
        whole = ap (λ l. x ∷ l) rest.whole;
        due = (ground arith, rest.due);
        later = rest.later;
      })
  | inr h ↦
      let le : now ≤ x.time = ground arith in
      rw (h, none_due now x xs le s.0)
        (record { whole = refl; due = tt; later = (le, all_later now x xs le s.0) })
]

-- `ListExpireTimer` on a valid manager takes a first part of the set, in its order: all of that part
-- is due, nothing that it leaves is, and no timer is lost.
pub list_expire_timer-Expires :
    (now : ℕ) (m : TimerManager)
    → IsValid m
    → Expires now m.timers ((list_expire_timer now m).0, (list_expire_timer now m).1.timers)
unfolding list_expire_timer
list_expire_timer-Expires now m v = split_expired-Expires now m.timers v.sorted

-- The two parts share no id.
pub split_expired-apart :
    (now : ℕ) (xs : List Timer)
    → HasUniqueIds xs
    → HasUniqueIds (split_expired now xs).0
      × HasUniqueIds (split_expired now xs).1
      × All (λ t. Lacks t.unique_id (split_expired now xs).1) (split_expired now xs).0
unfolding split_expired
split_expired-apart now [] u = (tt, tt, tt)
split_expired-apart now (x ∷ xs) u =
    let (here, there) = split_expired-All (λ t. t.unique_id ≢ x.unique_id) now xs u.0 in
    let (es, rest, apart) = split_expired-apart now xs u.1 in
    elim (Bool-cases (ltb x.time now)) [
      | inl h ↦ rw h ((here, es), rest, (there, apart))
      | inr h ↦ rw h (es, (there, rest), cons_apart x _ _ here apart)
    ]
  where
    cons_apart :
        (x : Timer) (rest es : List Timer)
        → Lacks x.unique_id es
        → All (λ t. Lacks t.unique_id rest) es
        → All (λ t. Lacks t.unique_id (x ∷ rest)) es
    cons_apart x rest [] l a = tt
    cons_apart x rest (e ∷ es) l a = ((λ q. l.0 (sym q), a.0), cons_apart x rest es l.1 a.1)
