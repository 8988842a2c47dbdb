-- ===== src/Map/Tests.antt =====
-- Maps of numbers, over trees that are lists.
use alias.Prelude.{ℕ, ◌≡◌, refl, if◌then◌else◌, Option, none, some, arith, ◌≢◌, ◌==◌, or_else}
use mathlib.Core.Option
use alias.Outcome.{◌>>=◌, Returns}
use alias.Map.Lists.{same}
use alias.Map.Data.{Creation, insert, find, erase, clear, create}
use alias.Map.Contents.{IsValid, InsertEnds, insert-Ends, find-shown, shown}
use alias.Map.Erase.{Erases, erase-Erases, clear-create}
use alias.Map.Sharing.{Owned, Store, copy, insert_shared}
use alias.Map.Copies.{insert_shared-shown}
use alias.Map.Vines.{by_size, vines, tens, tens-IsValid}

insert-Ends_example :
    InsertEnds by_size vines tens tens-IsValid Creation.made 4 40
      (insert by_size vines Creation.made 4 40 tens)
insert-Ends_example = insert-Ends by_size vines tens tens-IsValid Creation.made 4 40

erase-Erases_example : Erases by_size vines tens tens-IsValid 5 (erase by_size vines 5 tens)
erase-Erases_example = erase-Erases by_size vines tens tens-IsValid 5

clear-create_example : clear by_size vines 4 tens ≡ some create
clear-create_example = clear-create by_size vines tens tens-IsValid

find-shown_example : Option.map (λ e. e.value) (find by_size vines 8 tens) ≡ shown by_size tens 8
find-shown_example = find-shown by_size vines tens tens-IsValid 8

abbrev no_throw : ℕ → ℕ → Creation
no_throw k v = Creation.made

abbrev one_map : Store ℕ ℕ
one_map = record {
  next = 1;
  cell = λ a. if a == 0 then some (record { refs = 0; map = tens }) else none;
}

abbrev own_tens : Owned ℕ ℕ
own_tens = record { refs = 0; map = tens }

insert_shared-shown_example :
    Returns
      (copy (some 0) one_map >>= (λ r. insert_shared by_size vines no_throw 3 4 40 (r.0) (r.1)))
      λ r.
        (answer : Option ℕ) × (b : ℕ) × (s' : Store ℕ ℕ) × (y : Owned ℕ ℕ) × (r
          ≡ some (answer, b, s'))
        × (b ≢ 0)
        × (s'.cell 0 ≡ some own_tens)
        × (s'.cell b ≡ some y)
        × IsValid by_size y.map
        × ((j : ℕ)
            → shown by_size y.map j
              ≡ or_else (shown by_size tens j) (if same by_size j 4 then some 40 else none))
insert_shared-shown_example =
    insert_shared-shown by_size vines no_throw (λ k v. refl) 0 one_map own_tens refl (omega arith)
      (omega arith) tens-IsValid 4 40
