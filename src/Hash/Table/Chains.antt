-- ===== src/Hash/Table/Chains.antt =====
-- Chains and buckets of nodes: what is found in them, and where.
use mathlib.Core.Path.{subst}
use alias.Prelude.{
  or_else, or_else-none, ℕ, zero, suc, ◌+◌, ◌-◌, ◌%◌, ◌≤◌, ◌<◌, ◌==◌, ==_iff, ltb, if◌then◌else◌,
  ◌≡◌, refl, ◌≢◌, ◌↔◌, sym, ap, ◌∙◌, Bool, true, false, ◌&&◌, List, [], ◌∷◌, ◌++◌, Option, none,
  some, length, get_or, replicate, All, arith, Bool-cases, inl, inr, append_assoc, append-nil,
  length-append, length-set, get_or-set_self, get_or-set_ne, All-append,
}
use alias.Prelude
use alias.Hash.Table.{Node, same_key_with, find_in, chain_of}

module _ {ℓ} {A : Type ℓ} where
  -- All the items of a list of lists, and those that pass a test, in order.
  abbrev pub flat : List (List A) → List A
  flat [] = []
  flat (xs ∷ xss) = xs ++ flat xss

  abbrev pub select : (A → Bool) → List A → List A
  select test [] = []
  select test (x ∷ xs) = if test x then x ∷ select test xs else select test xs

  pub select-append :
      (test : A → Bool) (xs ys : List A) → select test (xs ++ ys) ≡ select test xs ++ select test ys
  select-append test [] ys = refl
  select-append test (x ∷ xs) ys = elim (Bool-cases (test x)) [
    | inl e ↦ rw (e, select-append test xs ys)
    | inr e ↦ rw (e, select-append test xs ys)
  ]

  pub length-flat-set :
      (bs : List (List A)) (i : ℕ) (xs : List A)
      → i < length bs
      → length (flat (Prelude.set bs i (get_or bs i [] ++ xs))) ≡ length (flat bs) + length xs
  length-flat-set [] i xs h = absurd (omega arith)
  length-flat-set (b ∷ bs) zero xs h =
      omega
        (arith, length-append (b ++ xs) (flat bs), length-append b xs, length-append b (flat bs))
  length-flat-set (b ∷ bs) (suc i) xs h = omega (
    arith,
    length-append b (flat (Prelude.set bs i (get_or bs i [] ++ xs))),
    length-append b (flat bs),
    length-flat-set bs i xs (omega arith),
  )

  pub set-set :
      (xs : List A) (i : ℕ) (a b : A) → Prelude.set (Prelude.set xs i a) i b ≡ Prelude.set xs i b
  set-set [] i a b = refl
  set-set (x ∷ xs) zero a b = refl
  set-set (x ∷ xs) (suc i) a b = ap (λ l. x ∷ l) (set-set xs i a b)

module _ {ℓ} {A : Type ℓ} where
  pub flat-replicate : (n : ℕ) → flat {A = A} (replicate n []) ≡ []
  flat-replicate zero = refl
  flat-replicate (suc n) = flat-replicate n

  pub get_or-replicate : (n i : ℕ) → get_or {A = List A} (replicate n []) i [] ≡ []
  get_or-replicate zero i = refl
  get_or-replicate (suc n) zero = refl
  get_or-replicate (suc n) (suc i) = get_or-replicate n i

module _ {K V : Type 0} where
  -- Whether a node belongs to chain `j` of `n`, and that all nodes of a table stand where they belong.
  abbrev pub at_home : ℕ → ℕ → Node K V → Bool
  at_home n j x = x.hash % n == j

  abbrev pub IsPlaced : List (List (Node K V)) → Type 0
  IsPlaced bs = (j : ℕ) → All (λ x. x.hash % length bs ≡ j) (get_or bs j [])

  pub select-at_home :
      (n j : ℕ) (xs : List (Node K V)) → All (λ x. x.hash % n ≡ j) (select (at_home n j) xs)
  select-at_home n j [] = tt
  select-at_home n j (x ∷ xs) = elim (Bool-cases (x.hash % n == j)) [
    | inl e ↦ rw e (ground arith, select-at_home n j xs)
    | inr e ↦ rw e (select-at_home n j xs)
  ]

  module _ (beq : K → K → Bool) (k : K) (h : ℕ) where
    find_in_cons :
        (x : Node K V) (xs : List (Node K V))
        → find_in beq k h (x ∷ xs)
          ≡ (if same_key_with beq k h x then some x else find_in beq k h xs)
    unfolding find_in
    find_in_cons x xs = refl

    pub find_in-append :
        (xs ys : List (Node K V))
        → find_in beq k h (xs ++ ys) ≡ or_else (find_in beq k h xs) (find_in beq k h ys)
    unfolding find_in
    find_in-append [] ys = refl
    find_in-append (x ∷ xs) ys = elim (Bool-cases (same_key_with beq k h x)) [
      | inl e ↦ rw e
      | inr e ↦ rw e (find_in-append xs ys)
    ]

    hash_of_same : (x : Node K V) → same_key_with beq k h x ≡ true → x.hash ≡ h
    unfolding same_key_with
    hash_of_same x e = ground arith

    -- Nodes of other chains do not matter.
    pub find_in-select :
        (n : ℕ) (xs : List (Node K V))
        → find_in beq k h (select (at_home n (h % n)) xs) ≡ find_in beq k h xs
    unfolding find_in
    find_in-select n [] = refl
    find_in-select n (x ∷ xs) = elim (Bool-cases (same_key_with beq k h x)) [
      | inl e ↦
          let here : at_home n (h % n) x ≡ true = rw (hash_of_same x e) (ground arith) in
          rw (here, e)
      | inr e ↦ elim (Bool-cases (at_home n (h % n) x)) [
        | inl here ↦ rw (here, e) (find_in-select n xs)
        | inr away ↦ rw (away, e) (find_in-select n xs)
      ]
    ]

    find_in-none :
        (n j : ℕ) (xs : List (Node K V))
        → All (λ x. x.hash % n ≡ j) xs
        → h % n ≢ j
        → find_in beq k h xs ≡ none
    unfolding find_in
    find_in-none n j [] all ne = refl
    find_in-none n j (x ∷ xs) all ne = elim (Bool-cases (same_key_with beq k h x)) [
      | inl e ↦ absurd (ne (rw (hash_of_same x e) at (all.0)))
      | inr e ↦ rw e (find_in-none n j xs all.1 ne)
    ]

    -- No chain from `i` on has the key, where `i` is past its own.
    none_after :
        (n i : ℕ) (bs : List (List (Node K V)))
        → ((j : ℕ) → All (λ x. x.hash % n ≡ i + j) (get_or bs j []))
        → h % n < i
        → find_in beq k h (flat bs) ≡ none
    unfolding find_in
    none_after n i [] placed lt = refl
    none_after n i (b ∷ bs) placed lt =
        find_in-append b (flat bs)
        ∙ rw (find_in-none n (i + 0) b (placed 0) (λ e. absurd (omega arith))) (
            none_after n (suc i) bs
              (λ j.
                subst (λ m. All (λ x. x.hash % n ≡ m) (get_or bs j [])) (omega arith)
                  (placed (suc j)))
              (omega arith))

    -- What is found in a table is what is found in its own chain.
    flat_from :
        (n i : ℕ) (bs : List (List (Node K V)))
        → ((j : ℕ) → All (λ x. x.hash % n ≡ i + j) (get_or bs j []))
        → i ≤ h % n
        → find_in beq k h (flat bs) ≡ find_in beq k h (get_or bs (h % n - i) [])
    flat_from n i [] placed le = refl
    flat_from n i (b ∷ bs) placed le =
        let next : (j : ℕ) → All (λ x. x.hash % n ≡ suc i + j) (get_or bs j []) = λ j.
          subst (λ m. All (λ x. x.hash % n ≡ m) (get_or bs j [])) (omega arith) (placed (suc j)) in
        elim (Bool-cases (h % n == i)) [
          | inl e ↦
              let here : h % n - i ≡ 0 = ground arith in
              find_in-append b (flat bs)
              ∙ rw (here, none_after n (suc i) bs next (ground arith))
                  (or_else-none (find_in beq k h b))
          | inr e ↦
              let lt : i < h % n = ground arith in
              let there : h % n - i ≡ suc (h % n - suc i) = omega arith in
              find_in-append b (flat bs)
              ∙ rw (there, find_in-none n (i + 0) b (placed 0) (λ q. absurd (omega arith)))
                  (flat_from n (suc i) bs next lt)
        ]

    pub find_in-flat :
        (bs : List (List (Node K V)))
        → IsPlaced bs
        → find_in beq k h (flat bs) ≡ find_in beq k h (chain_of bs h)
    find_in-flat bs placed =
        flat_from (length bs) 0 bs
          (λ j.
            subst (λ m. All (λ x. x.hash % length bs ≡ m) (get_or bs j [])) (omega arith)
              (placed j))
          (omega arith)
        ∙ ap (λ i. find_in beq k h (get_or bs i [])) (omega arith)
