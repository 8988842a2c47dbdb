-- ===== src/BiMap/Invariant.antt =====
-- The two maps of a `BiMap` fit each other.
use mathlib.Core.Path.{subst}
use alias.Prelude.{
  ℕ, ◌==◌, ◌≡◌, refl, sym, ap, ◌∙◌, ◌⊎◌, Bool, true, false, Option, none, some, arith, Bool-cases,
  Option-cases, inl, inr,
}
use alias.Outcome.{ok, throws, Returns}
use alias.BiMap.{
  BiMap, is_there, update, same_hash, empty_map, put, insert, replace_value, replace_key, erase_key,
  erase_value, find_value, Change, inserted, key_erased, value_erased, key_replaced, perform_change,
}

module _ {K V : Type 0} (same : K → K → Bool) (same_iff : (a b : K) → same a b ≡ true → a ≡ b)
    (same_refl : (a : K) → same a a ≡ true) (hash : V → ℕ) where
  -- The second map leads exactly from the hashes of the values in the first one to their keys.
  pub record IsValid (m : BiMap K V) : Type 0 where
    pub sound :
        (h : ℕ) (k : K) → m.index_map h ≡ some k → (v : V) × (m.storage k ≡ some v) × (hash v ≡ h)
    pub complete : (k : K) (v : V) → m.storage k ≡ some v → m.index_map (hash v) ≡ some k

  -- What a changed map has at a key.
  update-cases :
      {B : Type 0} (map : K → Option B) (a : K) (b : Option B) (x : K) {y : Option B}
      → update same map a b x ≡ y
      → ((same x a ≡ true) × (b ≡ y)) ⊎ ((same x a ≡ false) × (map x ≡ y))
  update-cases map a b x e = elim (Bool-cases (same x a)) [
    | inl s ↦ inl (s, rw s at e)
    | inr s ↦ inr (s, rw s at e)
  ]

  update_hash-cases :
      (map : ℕ → Option K) (a : ℕ) (b : Option K) (x : ℕ) {y : Option K}
      → update same_hash map a b x ≡ y
      → ((x ≡ a) × (b ≡ y)) ⊎ (((x == a) ≡ false) × (map x ≡ y))
  update_hash-cases map a b x e = elim (Bool-cases (x == a)) [
    | inl s ↦ inl (ground arith, rw s at e)
    | inr s ↦ inr (s, rw s at e)
  ]

  some-none : {B : Type 0} {x : B} → Path (Option B) (some x) none → ⊥
  some-none e = cc

  true-false : true ≡ false → ⊥
  true-false e = cc

  differ :
      (q k : K) {B : Type 0} (map : K → Option B) {x : B}
      → map q ≡ some x
      → map k ≡ none
      → same q k ≡ false
  differ q k map there absent = elim (Bool-cases (same q k)) [
    | inr s ↦ s
    | inl s ↦ absurd (some-none (sym there ∙ ap map (same_iff q k s) ∙ absent))
  ]

  differ_hash :
      (h g : ℕ) (map : ℕ → Option K) {x : K} → map h ≡ some x → map g ≡ none → (h == g) ≡ false
  differ_hash h g map there absent = elim (Bool-cases (h == g)) [
    | inr s ↦ s
    | inl s ↦
        let at_g : h ≡ g = ground arith in absurd (some-none (sym there ∙ ap map at_g ∙ absent))
  ]

  some_eq : {B : Type 0} {x y : B} → Path (Option B) (some x) (some y) → x ≡ y
  some_eq e = cc

  module _ (k : K) (v : V) (m : BiMap K V) (valid : IsValid m) where
    put-IsValid : m.index_map (hash v) ≡ none → m.storage k ≡ none → IsValid (put same hash k v m)
    unfolding put
    put-IsValid new_value new_key = record {
      sound = λ h q e. elim (update_hash-cases m.index_map (hash v) (some k) h e) [
        | inl (at_hash, key) ↦
            let here : k ≡ q = some_eq key in (v, rw (← here, same_refl k), sym at_hash)
        | inr (_, old) ↦
            let (x, there, hashed) = valid.sound h q old in
            (x, rw (differ q k m.storage there new_key) there, hashed)
      ];
      complete = λ q w e. elim (update-cases m.storage k (some v) q e) [
        | inl (at_key, val) ↦
            let here : v ≡ w = some_eq val in
            let self : (hash v == hash v) ≡ true = ground arith in
            rw (← here, self, same_iff q k at_key)
        | inr (_, old) ↦
            let there = valid.complete q w old in
            let other : (hash w == hash v) ≡ false =
              differ_hash (hash w) (hash v) m.index_map there new_value in
            rw other there
      ];
    }

    abbrev taken : BiMap K V
    taken = record {
      storage = update same m.storage k none;
      index_map = update same_hash m.index_map (hash v) none;
    }

    taken-IsValid : m.storage k ≡ some v → IsValid taken
    taken-IsValid there = record {
      sound = λ h q e. elim (update_hash-cases m.index_map (hash v) none h e) [
        | inl (_, gone) ↦ absurd (some-none (sym gone))
        | inr (other, old) ↦
            let (x, at_q, hashed) = valid.sound h q old in
            elim (Bool-cases (same q k)) [
              | inl s ↦
                  let val : x ≡ v = some_eq (sym at_q ∙ ap m.storage (same_iff q k s) ∙ there) in
                  let hash_eq : h ≡ hash v = sym hashed ∙ ap hash val in absurd (ground arith)
              | inr s ↦ (x, rw s at_q, hashed)
            ]
      ];
      complete = λ q w e. elim (update-cases m.storage k none q e) [
        | inl (_, gone) ↦ absurd (some-none (sym gone))
        | inr (other, old) ↦
            let at_w = valid.complete q w old in
            elim (Bool-cases (hash w == hash v)) [
              | inl s ↦
                  let hash_eq : hash w ≡ hash v = ground arith in
                  let key : q ≡ k =
                    some_eq (sym at_w ∙ ap m.index_map hash_eq ∙ valid.complete k v there) in
                  absurd (true-false (sym (same_refl k) ∙ ap (λ z. same z k) (sym key) ∙ other))
              | inr s ↦ rw s at_w
            ]
      ];
    }

  IsValid-same :
      (m r : BiMap K V)
      → ((q : K) → r.storage q ≡ m.storage q)
      → ((h : ℕ) → r.index_map h ≡ m.index_map h)
      → IsValid m
      → IsValid r
  IsValid-same m r storage index valid = record {
    sound = λ h q e.
        let (x, there, hashed) = valid.sound h q (sym (index h) ∙ e) in
        (x, storage q ∙ there, hashed);
    complete = λ q w e. index (hash w) ∙ valid.complete q w (sym (storage q) ∙ e);
  }

  pub empty_map-IsValid : IsValid (empty_map same hash)
  unfolding empty_map
  empty_map-IsValid = record {
    sound = λ h k e. absurd (some-none (sym e));
    complete = λ k v e. absurd (some-none (sym e));
  }

  pub insert-IsValid :
      (k : K) (v : V) (m : BiMap K V) → IsValid m → IsValid (insert same hash k v m).1
  unfolding insert
  insert-IsValid k v m valid = elim (Option-cases (m.index_map (hash v))) [
    | inr (q, e) ↦ rw (e, insert) valid
    | inl new_value ↦ elim (Option-cases (m.storage k)) [
      | inr (w, e) ↦ rw (new_value, e, insert) valid
      | inl new_key ↦ rw (new_value, new_key, insert) (put-IsValid k v m valid new_value new_key)
    ]
  ]

  erase_key-IsValid : (k : K) (m : BiMap K V) → IsValid m → IsValid (erase_key same hash k m)
  unfolding erase_key
  erase_key-IsValid k m valid = elim (Option-cases (m.storage k)) [
    | inl e ↦ rw (e, erase_key) valid
    | inr (v, e) ↦ rw (e, erase_key) (taken-IsValid k v m valid e)
  ]

  erase_value-IsValid :
      (v : V) (m : BiMap K V) → IsValid m → Returns (erase_value same hash v m) IsValid
  unfolding erase_value
  erase_value-IsValid v m valid = elim (Option-cases (m.index_map (hash v))) [
    | inl e ↦ (m, rw (e, erase_value), valid)
    | inr (k, e) ↦
        let (x, there, hashed) = valid.sound (hash v) k e in
        (
          record {
            storage = update same m.storage k none;
            index_map = update same_hash m.index_map (hash v) none;
          },
          rw (e, there, erase_value),
          subst
              (λ h. IsValid (record {
                storage = update same m.storage k none;
                index_map = update same_hash m.index_map h none;
              }))
              hashed (taken-IsValid k x m valid there),
        )
  ]

  -- The old key of a value goes, and the new one comes.
  moved-IsValid :
      (v : V) (k old : K) (m : BiMap K V)
      → IsValid m
      → m.storage k ≡ none
      → m.index_map (hash v) ≡ some old
      → IsValid (record {
        storage = update same (update same m.storage old none) k (some v);
        index_map = update same_hash m.index_map (hash v) (some k);
      })
  unfolding put
  moved-IsValid v k old m valid new_key e =
      let (x, there, hashed) = valid.sound (hash v) old e in
      let self : (hash v == hash v) ≡ true = ground arith in
      let gone : (taken old x m valid).index_map (hash v) ≡ none = rw (hashed, self) in
      let still_new : (taken old x m valid).storage k ≡ none = elim (Bool-cases (same k old)) [
        | inl s ↦ rw s
        | inr s ↦ rw s new_key
      ] in
      IsValid-same (put same hash k v (taken old x m valid)) _ (λ q. refl)
        (λ h. elim (Bool-cases (h == hash v)) [ inl s ↦ rw s | inr s ↦ rw (hashed, s) ])
        (put-IsValid k v (taken old x m valid) (taken-IsValid old x m valid there) gone still_new)

  replace_key-IsValid :
      (v : V) (k : K) (m : BiMap K V)
      → IsValid m
      → ((replace_key same hash v k m ≡ throws) × (is_there (m.storage k) ≡ true))
        ⊎ Returns (replace_key same hash v k m) IsValid
  unfolding replace_key
  replace_key-IsValid v k m valid = elim (Option-cases (m.storage k)) [
    | inr (w, e) ↦ inl (rw (e, replace_key), rw e)
    | inl new_key ↦ elim (Option-cases (m.index_map (hash v))) [
      | inl e ↦
          inr ((insert same hash k v m).1, rw (new_key, e, replace_key), insert-IsValid k v m valid)
      | inr (old, e) ↦
          let (x, there, hashed) = valid.sound (hash v) old e in
          inr (_, rw (new_key, e, there, replace_key), moved-IsValid v k old m valid new_key e)
    ]
  ]

  -- Whether a call is `replaceKey` with a key that is there.
  abbrev pub is_taken : Change K V → BiMap K V → Bool
  is_taken (key_replaced v k) m = is_there (m.storage k)
  is_taken (inserted k v) m = false
  is_taken (key_erased k) m = false
  is_taken (value_erased v) m = false

  -- `insert`, both `erase` and `replaceKey` on a map whose two parts fit each other return such a map, but
  -- for `replaceKey` with a key that is there, which throws. None follows a pointer to a node that is gone.
  pub perform_change-IsValid :
      (c : Change K V) (m : BiMap K V)
      → IsValid m
      → ((perform_change same hash c m ≡ throws) × (is_taken c m ≡ true))
        ⊎ Returns (perform_change same hash c m) IsValid
  unfolding perform_change
  perform_change-IsValid (inserted k v) m valid = inr (_, refl, insert-IsValid k v m valid)
  perform_change-IsValid (key_erased k) m valid = inr (_, refl, erase_key-IsValid k m valid)
  perform_change-IsValid (value_erased v) m valid = inr (erase_value-IsValid v m valid)
  perform_change-IsValid (key_replaced v k) m valid = replace_key-IsValid v k m valid

  -- `replaceValue` with a key that is there and a value that is not leaves the old value with the key,
  -- and `find` of the new value leads to that pair: the two parts no longer fit each other.
  pub replace_value-breaks :
      (k : K) (v old : V) (m : BiMap K V)
      → IsValid m
      → m.storage k ≡ some old
      → m.index_map (hash v) ≡ none
      → Returns (replace_value same hash k v m) λ r.
        (r.storage k ≡ some old) × (find_value same hash v r ≡ ok (some (k, old))) × (¬ IsValid r)
  unfolding replace_value find_value
  replace_value-breaks k v old m valid there new_value =
      let r = record m {
        index_map =
            update same_hash (update same_hash m.index_map (hash old) none) (hash v) (some k);
      } in
      let self : (hash v == hash v) ≡ true = ground arith in
      let self_old : (hash old == hash old) ≡ true = ground arith in
      let apart : (hash old == hash v) ≡ false =
        differ_hash (hash old) (hash v) m.index_map (valid.complete k old there) new_value in
      let gone : r.index_map (hash old) ≡ none = rw (apart, self_old) in
      let new : r.index_map (hash v) ≡ some k = rw self in
      (
        r,
        rw (new_value, there, replace_value),
        (there, rw (new, there, find_value), λ w. some-none (sym (w.complete k old there) ∙ gone)),
      )
