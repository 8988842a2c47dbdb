-- ===== src/String8/Search/Next.antt =====
-- `getNext` on the start of a key: an upper bound of its borders, and no block left behind.
use alias.Prelude.{
  ℕ, zero, suc, ◌-◌, ◌<◌, ◌==◌, ltb, leb, if◌then◌else◌, ◌≡◌, true, false, List, [], ◌∷◌, ◌++◌,
  none, length, get_or, arith, ◌∙◌, length-append, lt→ltb,
}
use alias.Outcome.{ok}
use alias.Buffer.Heap.{Heap, bind_ok}
use alias.String8.{String8, detach, release, bytes_of, text_of}
use alias.String8.Memory.{Holds, bytes_of_lem, text_of_lem}
use alias.String8.Blocks.{detach_sole}
use alias.String8.Fresh.{freed, release_lem}
use alias.String8.Search.{index, get_next, longest_border}
use alias.String8.Search.Borders.{BoundsBorders, longest_border_lem}

module _ (h : Heap) (s : String8) (t : List ℕ) (v : Holds h s 1 t []) where
  -- The heap after the string has been destroyed.
  abbrev pub destroyed : Heap
  destroyed = freed h v.address (record { refs = 1; bytes = t ++ 0 ∷ [] })

  release_key : release s h ≡ ok (record { str = none; capacity = 0 }, destroyed)
  release_key = release_lem h s v.address _ v.points v.at

  index_lem : (i : ℕ) → i < length t → index i s h ≡ ok ((get_or (t ++ 0 ∷ []) i 0, s), h)
  unfolding index
  index_lem i less =
      let below : leb s.capacity i ≡ false = ground (arith, v.room) in
      let in_block : ltb i (length (t ++ 0 ∷ [])) ≡ true =
        lt→ltb i (length (t ++ 0 ∷ [])) (omega (arith, length-append t (0 ∷ []))) in
      bind_ok (detach s) _ h (detach_sole h s t [] v)
      ∙ bind_ok (bytes_of s) _ h (bytes_of_lem h s 1 t [] v)
      ∙ rw (below, in_block)

-- What `getNext` gives: less than the length, no less than any border, and the key destroyed.
abbrev pub Next : (h : Heap) (s : String8) (t : List ℕ) → Holds h s 1 t [] → Type 0
Next h s t v =
    (m : ℕ) × (get_next s (length t) h ≡ ok (m, destroyed h s t v))
    × (m < length t)
    × BoundsBorders t m

border_of_two : (a b : ℕ) → BoundsBorders (a ∷ b ∷ []) (if a == b then 1 else 0)
border_of_two a b zero more less border = omega arith
border_of_two a b (suc zero) more less border = ground arith
border_of_two a b (suc (suc k)) more less border = absurd (omega arith)

pub get_next_lem :
    (h : Heap) (s : String8) (t : List ℕ) (v : Holds h s 1 t []) → 0 < length t → Next h s t v
unfolding get_next
get_next_lem h s [] v pos = absurd (omega arith)
get_next_lem h s (a ∷ []) v pos = (
  0,
  bind_ok (release s) _ h (release_key h s (a ∷ []) v),
  omega arith,
  λ k more less b. absurd (omega arith),
)
get_next_lem h s (a ∷ b ∷ []) v pos = (
  (if a == b then 1 else 0),
  bind_ok (index 0 s) _ h (index_lem h s (a ∷ b ∷ []) v 0 (omega arith))
      ∙ bind_ok (index 1 s) _ h (index_lem h s (a ∷ b ∷ []) v 1 (omega arith))
      ∙ bind_ok (release s) _ h (release_key h s (a ∷ b ∷ []) v),
  ground arith,
  border_of_two a b,
)
get_next_lem h s (a ∷ b ∷ c ∷ cs) v pos =
    let t = a ∷ b ∷ c ∷ cs in
    let (limit, _, all) = longest_border_lem t (length t - 1) 1 0 in
    let many : ltb (length t) 2 ≡ false = ground arith in
    let more : (length t == 2) ≡ false = ground arith in
    (
      longest_border t (length t) (length t - 1) 1 0,
      rw (many, more)
          (bind_ok (text_of s) _ h (text_of_lem h s 1 t [] v)
            ∙ bind_ok (release s) _ h (release_key h s t v)),
      omega (arith, limit),
      λ k more less border. all k (omega arith) (omega arith) border,
    )
