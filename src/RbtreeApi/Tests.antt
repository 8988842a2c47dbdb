-- ===== src/RbtreeApi/Tests.antt =====
-- Trees of numbers.
use alias.Prelude.{ℕ, ltb, ◌+◌, ◌≡◌, refl, Bool, true, some, arith}
use alias.Outcome.{ok}
use alias.Map.Tree.{to_list}
use alias.Map.Vines.{by_size, vines, entry, tens, tens-IsValid}
use alias.RbtreeApi.{rbtree_insert, rbtree_foreach}
use alias.RbtreeApi.Visits.{visit_until, rbtree_foreach-visit_until}
use alias.RbtreeApi.Places.{sign_of, Places, rbtree_insert-Places}

-- The sum of the nodes, up to the first one that is above 4.
abbrev add_up : ℕ → ℕ → Bool × ℕ
add_up k n = (ltb 4 k, n + k)

rbtree_foreach-visit_until_example :
    rbtree_foreach by_size vines 3 (some tens.root) (some add_up) 0
    ≡ ok (some (true, visit_until add_up (to_list tens.root) 0))
unfolding to_list
rbtree_foreach-visit_until_example =
    rbtree_foreach-visit_until by_size vines tens.root tens-IsValid.sorted add_up 3 0 (omega arith)

rbtree_insert-Places_example :
    Places by_size vines
      (entry 4 40)
      tens.root
      (rbtree_insert by_size vines (some tens.root) (entry 4 40) (some (sign_of by_size)))
rbtree_insert-Places_example =
    rbtree_insert-Places by_size vines (sign_of by_size) (λ a b. refl) (entry 4 40) tens.root
      tens-IsValid.sorted
