-- ===== src/Map/Vines.antt =====
-- A tree parameter that can be run, whose trees are lists, and a map over it.
use alias.Prelude.{
  ℕ, ltb, ◌≡◌, refl, true, false, if◌then◌else◌, List, [], ◌∷◌, ◌++◌, arith, ◌∙◌, ap,
}
use mathlib.Core.Path.{subst}
use alias.Map.Lists.{Entry, Order, Above-parts, IsSorted, same, first_key, last_key}
use alias.Map.Tree.{Tree, leaf, node, to_list, RedBlack}
use alias.Map.Data.{MapData}
use alias.Map.Contents.{IsValid}
use alias.Map.Erase.{next_key, next_key-split, same_self}

pub ltb_asym : (a b : ℕ) → ltb a b ≡ true → ltb b a ≡ false
ltb_asym a b less = ground arith

pub ltb_trans : (a b c : ℕ) → ltb a b ≡ true → ltb b c ≡ true → ltb a c ≡ true
ltb_trans a b c less more = ground arith

pub ltb_total : (a b : ℕ) → ltb a b ≡ false → ltb b a ≡ false → a ≡ b
ltb_total a b not_less not_more = ground arith

abbrev pub by_size : Order ℕ
by_size = record { less = ltb; asym = ltb_asym; trans = ltb_trans; total = ltb_total }

-- The tree of a list, each node to the right of the one before.
unfoldable pub vine : List (Entry ℕ ℕ) → Tree ℕ ℕ
vine [] = leaf
vine (e ∷ es) = node leaf e (vine es)

pub to_list-vine : (es : List (Entry ℕ ℕ)) → to_list (vine es) ≡ es
unfolding vine to_list
to_list-vine [] = refl
to_list-vine (e ∷ es) = ap (λ xs. e ∷ xs) (to_list-vine es)

unfoldable pub take_out : ℕ → List (Entry ℕ ℕ) → List (Entry ℕ ℕ)
take_out k [] = []
take_out k (e ∷ es) = if same by_size k e.key then es else e ∷ take_out k es

pub take_out_lem :
    (xs : List (Entry ℕ ℕ)) (e : Entry ℕ ℕ) (ys : List (Entry ℕ ℕ))
    → IsSorted by_size (xs ++ e ∷ ys)
    → take_out e.key (xs ++ e ∷ ys) ≡ xs ++ ys
unfolding take_out same
take_out_lem [] e ys sorted = rw (same_self by_size e.key)
take_out_lem (x ∷ xs) e ys sorted =
    rw (apart (Above-parts by_size x.key xs e ys sorted.0).1, take_out_lem xs e ys sorted.1)
  where
    apart : ltb x.key e.key ≡ true → same by_size e.key x.key ≡ false
    apart less = rw (by_size.asym x.key e.key less, less)

abbrev pub vines : RedBlack ℕ ℕ by_size
unfolding vine take_out
vines = record {
  insert_color = λ k t. t;
  erase = λ k t. vine (take_out k (to_list t));
  erase_foreign = λ k t t'. (vine (take_out k (to_list t)), t');
  first = λ t. first_key (to_list t);
  next = λ k t. next_key by_size k (to_list t);
  last = λ t. last_key (to_list t);
  insert_color_lem = λ k t. refl;
  erase_lem = λ t xs e ys sorted parts.
      to_list-vine (take_out e.key (to_list t))
      ∙ ap (take_out e.key) parts
      ∙ take_out_lem xs e ys (subst (IsSorted by_size) parts sorted);
  next_lem = λ t xs e ys sorted parts.
      ap (next_key by_size e.key) parts
      ∙ next_key-split by_size xs e ys (subst (IsSorted by_size) parts sorted);
  first_lem = λ t. refl;
  last_lem = λ t. refl;
}

abbrev pub entry : ℕ → ℕ → Entry ℕ ℕ
entry k v = record { key = k; value = v }

abbrev pub tens : MapData ℕ ℕ
tens = record {
  root = node (node leaf (entry 3 30) leaf) (entry 5 50) (node leaf (entry 8 80) leaf);
  node_count = 3;
}

pub tens-IsValid : IsValid by_size tens
unfolding to_list
tens-IsValid = record { sorted = ((refl, (refl, tt)), ((refl, tt), (tt, tt))); counted = refl }
