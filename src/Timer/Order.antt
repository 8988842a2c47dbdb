-- ===== src/Timer/Order.antt =====
-- The set of timers: kept in the comparator's order, with one timer to an id.
use mathlib.Core.List.{Perm}
use mathlib.Core.List.Perm
use mathlib.Core.Path.{subst}
use alias.Prelude.{
  ℕ, ◌==◌, ◌≡◌, refl, sym, ◌≢◌, true, false, List, [], ◌∷◌, arith, All, Bool-cases, inl, inr,
}
use alias.Timer.{Timer, comparator, before, insert, erase_id}

-- Each timer comes before all that follow it.
abbrev pub IsSorted : List Timer → Type 0
IsSorted [] = Unit
IsSorted (x ∷ xs) = All (λ y. before x y ≡ true) xs × IsSorted xs

-- No timer has the id `i`.
abbrev pub Lacks : ℕ → List Timer → Type 0
Lacks i = All (λ t. t.unique_id ≢ i)

abbrev pub HasUniqueIds : List Timer → Type 0
HasUniqueIds [] = Unit
HasUniqueIds (x ∷ xs) = Lacks x.unique_id xs × HasUniqueIds xs

before_trans : (a b c : Timer) → before a b ≡ true → before b c ≡ true → before a c ≡ true
unfolding comparator
before_trans a b c h k = ground arith

before_total : (a b : Timer) → b.unique_id ≢ a.unique_id → before a b ≡ false → before b a ≡ true
unfolding comparator
before_total a b ne h = ground arith

All_before :
    (a b : Timer) (xs : List Timer)
    → before a b ≡ true
    → All (λ y. before b y ≡ true) xs
    → All (λ y. before a y ≡ true) xs
All_before a b [] h all = tt
All_before a b (x ∷ xs) h all = (before_trans a b x h all.0, All_before a b xs h all.1)

-- The three ways that `insert` goes at an element.
insert_here :
    (t x : Timer) (xs : List Timer) → before t x ≡ true → insert t (x ∷ xs) ≡ (t ∷ x ∷ xs, true)
unfolding insert
insert_here t x xs h = rw h

insert_later :
    (t x : Timer) (xs : List Timer)
    → x.unique_id ≢ t.unique_id
    → before t x ≡ false
    → insert t (x ∷ xs) ≡ (x ∷ (insert t xs).0, (insert t xs).1)
unfolding insert
insert_later t x xs ne h = rw (h, before_total t x ne h)

module _ {κ} (P : Timer → Type κ) where
  pub insert-All : (t : Timer) (xs : List Timer) → P t → All P xs → All P (insert t xs).0
  unfolding insert
  insert-All t [] p all = (p, tt)
  insert-All t (x ∷ xs) p all = elim (Bool-cases (before t x)) [
    | inl h ↦ rw h (p, all)
    | inr h ↦ elim (Bool-cases (before x t)) [
      | inl k ↦ rw (h, k) (all.0, insert-All t xs p all.1)
      | inr k ↦ rw (h, k) all
    ]
  ]

  pub erase_id-All : (i : ℕ) (xs : List Timer) → All P xs → All P (erase_id i xs).0
  unfolding erase_id
  erase_id-All i [] all = tt
  erase_id-All i (x ∷ xs) all = elim (Bool-cases (x.unique_id == i)) [
    | inl h ↦ rw h all.1
    | inr h ↦ rw h (all.0, erase_id-All i xs all.1)
  ]

pub insert-IsSorted : (t : Timer) (xs : List Timer) → IsSorted xs → IsSorted (insert t xs).0
unfolding insert
insert-IsSorted t [] s = (tt, tt)
insert-IsSorted t (x ∷ xs) s = elim (Bool-cases (before t x)) [
  | inl h ↦ rw h ((h, All_before t x xs h s.0), s)
  | inr h ↦ elim (Bool-cases (before x t)) [
    | inl k ↦ rw (h, k) (insert-All (λ y. before x y ≡ true) t xs k s.0, insert-IsSorted t xs s.1)
    | inr k ↦ rw (h, k) s
  ]
]

pub insert-HasUniqueIds :
    (t : Timer) (xs : List Timer)
    → Lacks t.unique_id xs
    → HasUniqueIds xs
    → HasUniqueIds (insert t xs).0
unfolding insert
insert-HasUniqueIds t [] l u = (tt, tt)
insert-HasUniqueIds t (x ∷ xs) l u = elim (Bool-cases (before t x)) [
  | inl h ↦ rw h (l, u)
  | inr h ↦ rw (insert_later t x xs l.0 h) (
    insert-All (λ y. y.unique_id ≢ x.unique_id) t xs (λ e. l.0 (sym e)) u.0,
    insert-HasUniqueIds t xs l.1 u.1,
  )
]

-- A timer whose id is new is inserted, and nothing else changes.
pub insert-perm :
    (t : Timer) (xs : List Timer)
    → Lacks t.unique_id xs
    → ((insert t xs).1 ≡ true) × Perm (insert t xs).0 (t ∷ xs)
unfolding insert
insert-perm t [] l = (refl, Perm.refl _)
insert-perm t (x ∷ xs) l = elim (Bool-cases (before t x)) [
  | inl h ↦ rw h (refl, Perm.refl _)
  | inr h ↦
      let (done, p) = insert-perm t xs l.1 in
      rw (insert_later t x xs l.0 h) (done, Perm.trans (Perm.cons x p) (Perm.swap _ _ _))
]

pub erase_id-IsSorted : (i : ℕ) (xs : List Timer) → IsSorted xs → IsSorted (erase_id i xs).0
unfolding erase_id
erase_id-IsSorted i [] s = tt
erase_id-IsSorted i (x ∷ xs) s = elim (Bool-cases (x.unique_id == i)) [
  | inl h ↦ rw h s.1
  | inr h ↦ rw h (erase_id-All (λ y. before x y ≡ true) i xs s.0, erase_id-IsSorted i xs s.1)
]

pub erase_id-HasUniqueIds :
    (i : ℕ) (xs : List Timer) → HasUniqueIds xs → HasUniqueIds (erase_id i xs).0
unfolding erase_id
erase_id-HasUniqueIds i [] u = tt
erase_id-HasUniqueIds i (x ∷ xs) u = elim (Bool-cases (x.unique_id == i)) [
  | inl h ↦ rw h u.1
  | inr h ↦
      rw h (erase_id-All (λ y. y.unique_id ≢ x.unique_id) i xs u.0, erase_id-HasUniqueIds i xs u.1)
]

pub erase_id-Lacks : (i : ℕ) (xs : List Timer) → HasUniqueIds xs → Lacks i (erase_id i xs).0
unfolding erase_id
erase_id-Lacks i [] u = tt
erase_id-Lacks i (x ∷ xs) u = elim (Bool-cases (x.unique_id == i)) [
  | inl h ↦ let e : x.unique_id ≡ i = ground arith in rw h (subst (λ k. Lacks k xs) e u.0)
  | inr h ↦ rw h (ground arith, erase_id-Lacks i xs u.1)
]

-- `erase_id` says whether it found the id, and removes that timer alone.
pub erase_id-found :
    (i : ℕ) (xs : List Timer)
    → (erase_id i xs).1 ≡ true
    → (t : Timer) × (t.unique_id ≡ i) × Perm xs (t ∷ (erase_id i xs).0)
unfolding erase_id
erase_id-found i [] f = cc
erase_id-found i (x ∷ xs) f = elim (Bool-cases (x.unique_id == i)) [
  | inl h ↦ (x, ground arith, rw h (Perm.refl _))
  | inr h ↦
      let (t, e, p) = erase_id-found i xs (rw h at f) in
      (t, e, rw h (Perm.trans (Perm.cons x p) (Perm.swap _ _ _)))
]

pub erase_id-absent :
    (i : ℕ) (xs : List Timer) → (erase_id i xs).1 ≡ false → ((erase_id i xs).0 ≡ xs) × Lacks i xs
unfolding erase_id
erase_id-absent i [] f = (refl, tt)
erase_id-absent i (x ∷ xs) f = elim (Bool-cases (x.unique_id == i)) [
  | inl h ↦ absurd (let e : true ≡ false = (rw h at f) in cc)
  | inr h ↦ let (e, l) = erase_id-absent i xs (rw h at f) in rw (h, e) (refl, (ground arith, l))
]
