-- ===== src/BiMap.antt =====
-- `BiMap` of utils/include/utils/bimap.h and bimap.hpp. The two maps are functions. The second one
-- leads from the hash of a value to a pointer to the key in the first map, which is the key here: a
-- key that is not in the first map is a pointer to a node that is gone.
pub mod Invariant
mod Tests
use alias.Prelude.{ℕ, ◌==◌, if◌then◌else◌, Bool, true, false, List, [], ◌∷◌, Option, none, some}
use alias.Outcome.{Outcome, ok, throws, crash, ◌>>=◌}

pub record BiMap (K V : Type 0) : Type 0 where
  pub storage : K → Option V
  pub index_map : ℕ → Option K

abbrev pub is_there {ℓ} : {A : Type ℓ} → Option A → Bool
is_there none = false
is_there (some a) = true

-- A change of a map at one key.
abbrev pub update {ℓ κ} :
    {A : Type ℓ} {B : Type κ} → (A → A → Bool) → (A → Option B) → A → Option B → A → Option B
update same map a b x = if same x a then b else map x

abbrev pub same_hash : ℕ → ℕ → Bool
same_hash a b = a == b

-- The comparison of keys and the hash of values.
module _ {K V : Type 0} (same : K → K → Bool) (hash : V → ℕ) where
  pub empty_map : BiMap K V
  empty_map = record { storage = λ k. none; index_map = λ h. none }

  -- A new pair in both maps.
  pub put : K → V → BiMap K V → BiMap K V
  put k v m = record {
    storage = update same m.storage k (some v);
    index_map = update same_hash m.index_map (hash v) (some k);
  }

  pub insert : K → V → BiMap K V → Bool × BiMap K V
  insert k v m =
      if is_there (m.index_map (hash v))
      then (false, m)
      else if is_there (m.storage k)
      then (false, m)
      else (true, put k v m)

  -- The stored value of the key stays as it is.
  pub replace_value : K → V → BiMap K V → Outcome (BiMap K V)
  replace_value k v m = if is_there (m.index_map (hash v)) then throws else elim (m.storage k) [
    | none ↦ ok (insert k v m).1
    | some old ↦ ok (record m {
      index_map = update same_hash (update same_hash m.index_map (hash old) none) (hash v) (some k);
    })
  ]

  pub replace_key : V → K → BiMap K V → Outcome (BiMap K V)
  replace_key v k m = if is_there (m.storage k) then throws else elim (m.index_map (hash v)) [
    | none ↦ ok (insert k v m).1
    | some old ↦
        if is_there (m.storage old)
        then ok (record {
          storage = update same (update same m.storage old none) k (some v);
          index_map = update same_hash m.index_map (hash v) (some k);
        })
        else crash
  ]

  pub erase_key : K → BiMap K V → BiMap K V
  erase_key k m = elim (m.storage k) [
    | none ↦ m
    | some v ↦ record {
      storage = update same m.storage k none;
      index_map = update same_hash m.index_map (hash v) none;
    }
  ]

  pub erase_value : V → BiMap K V → Outcome (BiMap K V)
  erase_value v m = elim (m.index_map (hash v)) [
    | none ↦ ok m
    | some k ↦
        if is_there (m.storage k)
        then ok (record {
          storage = update same m.storage k none;
          index_map = update same_hash m.index_map (hash v) none;
        })
        else crash
  ]

  -- `update` of the value of an iterator at the key, which puts the old hash back.
  pub update_value : K → V → BiMap K V → Outcome (Bool × BiMap K V)
  update_value k v m = elim (m.storage k) [
    | none ↦ throws
    | some old ↦
        if is_there (m.index_map (hash v))
        then ok (false, m)
        else ok (
          true,
          record m {
            index_map =
                update same_hash (update same_hash m.index_map (hash old) none) (hash old) (some k);
          },
        )
  ]

  -- The pair that `find` of a value leads to.
  pub find_value : V → BiMap K V → Outcome (Option (K × V))
  find_value v m = elim (m.index_map (hash v)) [
    | none ↦ ok none
    | some k ↦ elim (m.storage k) [ none ↦ crash | some w ↦ ok (some (k, w)) ]
  ]

  pub contains_value : V → BiMap K V → Bool
  contains_value v m = is_there (m.index_map (hash v))

  -- The constructor from a list, from the pairs that are in already.
  pub insert_list : List (K × V) → BiMap K V → Outcome (BiMap K V)
  insert_list [] m = ok m
  insert_list (p ∷ ps) m =
      let r = insert (p.0) (p.1) m in
      let rest = insert_list ps (r.1) in if r.0 then rest else throws

-- A call that changes a map, `replaceValue` left aside.
pub data Change (K V : Type 0) : Type 0 where
  inserted : K → V → Change K V
  key_erased : K → Change K V
  value_erased : V → Change K V
  key_replaced : V → K → Change K V

module _ {K V : Type 0} (same : K → K → Bool) (hash : V → ℕ) where
  pub perform_change : Change K V → BiMap K V → Outcome (BiMap K V)
  perform_change (inserted k v) m = ok (insert same hash k v m).1
  perform_change (key_erased k) m = ok (erase_key same hash k m)
  perform_change (value_erased v) m = erase_value same hash v m
  perform_change (key_replaced v k) m = replace_key same hash v k m
