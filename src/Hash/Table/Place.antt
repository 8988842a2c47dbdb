-- ===== src/Hash/Table/Place.antt =====
-- The loops of `rehash` put the nodes, one after the other, at the ends of their new chains.
use native.Mathlib.Nat.{mod-lt}
use mathlib.Core.Path.{subst}
use alias.Prelude.{
  ℕ, zero, suc, ◌+◌, ◌%◌, ◌≤◌, ◌<◌, ◌==◌, if◌then◌else◌, ◌≡◌, refl, sym, ap, ◌∙◌, false, List, [],
  ◌∷◌, ◌++◌, length, get_or, All, arith, Bool-cases, inl, inr, append_assoc, append-nil,
  length-append, length-set, get_or-set_self, get_or-set_ne,
}
use alias.Outcome.{ok, Returns}
use alias.Hash.Table.{Node, take_run, append_run, move_chain, move_all}
use alias.Hash.Table.Chains.{flat, select, set-set, length-flat-set, at_home}

module _ {K V : Type 0} where
  -- The nodes, one after the other, at the ends of their chains.
  pub place : List (Node K V) → List (List (Node K V)) → List (List (Node K V))
  place [] bs = bs
  place (x ∷ xs) bs = place xs (append_run x.hash (x ∷ []) bs)

  pub length-append_run :
      (h : ℕ) (run : List (Node K V)) (bs : List (List (Node K V)))
      → length (append_run h run bs) ≡ length bs
  unfolding append_run
  length-append_run h run bs = length-set bs (h % length bs) _

  pub chain-append_run :
      (h : ℕ) (run : List (Node K V)) (bs : List (List (Node K V))) (j : ℕ)
      → 0 < length bs
      → get_or (append_run h run bs) j []
        ≡ get_or bs j [] ++ (if h % length bs == j then run else [])
  unfolding append_run
  chain-append_run h run bs j pos =
      let lt : h % length bs < length bs = mod-lt h pos in
      elim (Bool-cases (h % length bs == j)) [
        | inl e ↦
            let q : h % length bs ≡ j = ground arith in
            rw (e, ← q) (get_or-set_self bs (h % length bs) _ [] lt)
        | inr e ↦ rw (e, append-nil) (get_or-set_ne bs _ [] (ground arith))
      ]

  append_run-append_run :
      (h : ℕ) (xs ys : List (Node K V)) (bs : List (List (Node K V)))
      → 0 < length bs
      → append_run h ys (append_run h xs bs) ≡ append_run h (xs ++ ys) bs
  unfolding append_run
  append_run-append_run h xs ys bs pos =
      let lt : h % length bs < length bs = mod-lt h pos in
      rw (
        length-set bs (h % length bs) (get_or bs (h % length bs) [] ++ xs),
        get_or-set_self bs (h % length bs) (get_or bs (h % length bs) [] ++ xs) [] lt,
        set-set,
        append_assoc,
      )

  place_run :
      (h : ℕ) (xs ys : List (Node K V)) (bs : List (List (Node K V)))
      → 0 < length bs
      → All (λ x. x.hash ≡ h) ys
      → append_run h (xs ++ ys) bs ≡ place ys (append_run h xs bs)
  unfolding place
  place_run h xs [] bs pos same = rw append-nil
  place_run h xs (y ∷ ys) bs pos same =
      sym (ap (λ l. append_run h l bs) (append_assoc xs (y ∷ []) ys))
      ∙ place_run h (xs ++ (y ∷ [])) ys bs pos same.1
      ∙ ap (place ys) (
          sym (append_run-append_run h xs (y ∷ []) bs pos)
          ∙ ap (λ g. append_run g (y ∷ []) (append_run h xs bs)) (sym same.0))

  place-append :
      (xs ys : List (Node K V)) (bs : List (List (Node K V)))
      → place (xs ++ ys) bs ≡ place ys (place xs bs)
  unfolding place
  place-append [] ys bs = refl
  place-append (x ∷ xs) ys bs = place-append xs ys (append_run x.hash (x ∷ []) bs)

  pub length-place :
      (xs : List (Node K V)) (bs : List (List (Node K V))) → length (place xs bs) ≡ length bs
  unfolding place
  length-place [] bs = refl
  length-place (x ∷ xs) bs =
      length-place xs (append_run x.hash (x ∷ []) bs) ∙ length-append_run x.hash (x ∷ []) bs

  -- No node has the hash that lies at the end of the chains.
  abbrev pub Apart : ℕ → List (Node K V) → Type 0
  Apart end_hash xs = All (λ x. (end_hash == x.hash) ≡ false) xs

  take_run_lem :
      (end_hash h : ℕ) (ns : List (Node K V))
      → (end_hash == h) ≡ false
      → Returns (take_run end_hash h ns) λ r. (ns ≡ r.0 ++ r.1) × All (λ x. x.hash ≡ h) r.0
  unfolding take_run
  take_run_lem end_hash h [] apart = (([], []), rw apart, (refl, tt))
  take_run_lem end_hash h (n ∷ ns) apart = elim (Bool-cases (n.hash == h)) [
    | inl e ↦
        let (r, run, (whole, same)) = take_run_lem end_hash h ns apart in
        ((n ∷ r.0, r.1), rw (e, run), (ap (λ l. n ∷ l) whole, (ground arith, same)))
    | inr e ↦ (([], n ∷ ns), rw e, (refl, tt))
  ]

  Apart-right :
      (end_hash : ℕ) (xs ys : List (Node K V)) → Apart end_hash (xs ++ ys) → Apart end_hash ys
  Apart-right end_hash [] ys a = a
  Apart-right end_hash (x ∷ xs) ys a = Apart-right end_hash xs ys a.1

  Apart-left :
      (end_hash : ℕ) (xs ys : List (Node K V)) → Apart end_hash (xs ++ ys) → Apart end_hash xs
  Apart-left end_hash [] ys a = tt
  Apart-left end_hash (x ∷ xs) ys a = (a.0, Apart-left end_hash xs ys a.1)

  move_chain-place :
      (fuel end_hash : ℕ) (c : List (Node K V)) (bs : List (List (Node K V)))
      → Apart end_hash c
      → length c ≤ fuel
      → 0 < length bs
      → move_chain fuel end_hash c bs ≡ ok (place c bs)
  unfolding move_chain
  move_chain-place zero end_hash [] bs apart le pos = unfold place in refl
  move_chain-place (suc fuel) end_hash [] bs apart le pos = unfold place in refl
  move_chain-place zero end_hash (n ∷ ns) bs apart le pos = absurd (omega arith)
  move_chain-place (suc fuel) end_hash (n ∷ ns) bs apart le pos =
      let (r, run, (whole, same)) = take_run_lem end_hash n.hash ns apart.0 in
      let rest : Apart end_hash r.1 =
        Apart-right end_hash r.0 r.1 (subst (Apart end_hash) whole apart.1) in
      let shorter : length r.1 ≤ fuel = omega (arith, ap length whole, length-append r.0 r.1) in
      let placed : append_run n.hash (n ∷ r.0) bs ≡ place r.0 (append_run n.hash (n ∷ []) bs) =
        place_run n.hash (n ∷ []) r.0 bs pos same in
      rw run (
        move_chain-place fuel end_hash r.1 (append_run n.hash (n ∷ r.0) bs) rest shorter
          (omega (arith, length-append_run n.hash (n ∷ r.0) bs))
        ∙ ap ok (
            ap (place r.1) placed
            ∙ sym (place-append r.0 r.1 (append_run n.hash (n ∷ []) bs))
            ∙ ap (λ l. place l (append_run n.hash (n ∷ []) bs)) (sym whole)
            ∙ (unfold place in refl)))

  pub move_all-place :
      (end_hash : ℕ) (cs bs : List (List (Node K V)))
      → Apart end_hash (flat cs)
      → 0 < length bs
      → move_all end_hash cs bs ≡ ok (place (flat cs) bs)
  unfolding move_all
  move_all-place end_hash [] bs apart pos = unfold place in refl
  move_all-place end_hash (c ∷ cs) bs apart pos =
      rw
        (move_chain-place (length c) end_hash c bs (Apart-left end_hash c (flat cs) apart)
          (omega arith) pos)
        (move_all-place end_hash cs (place c bs) (Apart-right end_hash c (flat cs) apart)
            (omega (arith, length-place c bs))
          ∙ ap ok (sym (place-append c (flat cs) bs)))

  pub chain-place :
      (xs : List (Node K V)) (bs : List (List (Node K V))) (j : ℕ)
      → 0 < length bs
      → get_or (place xs bs) j [] ≡ get_or bs j [] ++ select (at_home (length bs) j) xs
  unfolding place
  chain-place [] bs j pos = sym (append-nil (get_or bs j []))
  chain-place (x ∷ xs) bs j pos =
      let bs' = append_run x.hash (x ∷ []) bs in
      let len = length-append_run x.hash (x ∷ []) bs in
      chain-place xs bs' j (omega arith)
      ∙ rw (len, chain-append_run x.hash (x ∷ []) bs j pos, append_assoc)
          (elim (Bool-cases (x.hash % length bs == j)) [ inl e ↦ rw e | inr e ↦ rw e ])

  pub length-flat-place :
      (xs : List (Node K V)) (bs : List (List (Node K V)))
      → 0 < length bs
      → length (flat (place xs bs)) ≡ length (flat bs) + length xs
  unfolding place append_run
  length-flat-place [] bs pos = omega arith
  length-flat-place (x ∷ xs) bs pos =
      let bs' = append_run x.hash (x ∷ []) bs in
      let len = length-append_run x.hash (x ∷ []) bs in
      omega (
        arith,
        length-flat-place xs bs' (omega arith),
        length-flat-set bs (x.hash % length bs) (x ∷ []) (mod-lt x.hash pos),
      )
