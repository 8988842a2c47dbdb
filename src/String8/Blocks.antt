-- ===== src/String8/Blocks.antt =====
-- `detach`, `getBuffer` and the constructors where requests for memory are met, and `release`.
use alias.Prelude.{
  ℕ, ◌+◌, ◌-◌, ◌≤◌, ◌<◌, ◌==◌, ltb, ◌≡◌, refl, inl, inr, true, false, List, ◌∷◌, ◌++◌, Option, none,
  some, length, replicate, arith, Bool-cases, ◌∙◌, take_all, append-nil, lt→ltb,
}
use alias.Outcome.{ok, Returns}
use alias.Buffer.Heap.{Heap, update, load-bind, bind_ok, null_or-some}
use alias.Buffer.Shared.{max_size, alloc, edit_resize, resized}
use alias.Buffer.Shared.Laws.{Edits, EditResult, edit_resize-Edits, alloc_granted}
use alias.String8.{String8, max_chars, default_size, buffer_of, get_buffer, detach}
use alias.String8.Memory.{Holds, IsGranting, Gives, Added, sole_Gives, length-bytes}

-- `detach` gives a string of its own block, with the same bytes and capacity.
module _ (h : Heap) (s : String8) (refs : ℕ) (text rest : List ℕ) (v : Holds h s refs text rest)
    (granting : IsGranting h) where
  resized_whole :
      (bs : List ℕ) (pad : ℕ)
      → bs ≡ resized (s.capacity + 1) pad (text ++ 0 ∷ rest)
      → bs ≡ text ++ 0 ∷ rest
  resized_whole bs pad e =
      let len = length-bytes h s refs text rest v in
      let whole = take_all (s.capacity + 1) (text ++ 0 ∷ rest) (omega (arith, len)) in
      let none_left : s.capacity + 1 - length (text ++ 0 ∷ rest) ≡ 0 = omega (arith, len) in
      e ∙ rw (whole, none_left, append-nil (text ++ 0 ∷ rest))

  edited_Gives :
      (q : ℕ) (h' : Heap)
      → Edits
          (λ bs. (pad : ℕ) × (bs ≡ resized (s.capacity + 1) pad (text ++ 0 ∷ rest)))
          h
          v.address
          q
          h'
      → Gives h v.address text rest (record s { str = some q }) h'
  edited_Gives q h' e = record {
    address = q;
    points = refl;
    edits = record {
      bytes = e.bytes;
      good = resized_whole e.bytes e.good.0 e.good.1;
      mine = e.mine;
      fresh = e.fresh;
      keeps = e.keeps;
      place = e.place;
      grants = e.grants;
    };
    room = v.room;
    plain = v.plain;
    limit = v.limit;
  }

  pub detach-Gives :
      Returns (detach s h) λ r. Gives h v.address text rest r.0 r.1 × (r.0.capacity ≡ s.capacity)
  unfolding detach
  detach-Gives = elim (Bool-cases (refs == 1)) [
    | inl one ↦ (
      (s, h),
      null_or-some _ _ s.str h v.points ∙ load-bind _ v.address h v.at ∙ rw one,
      (alone (ground arith), refl),
    )
    | inr more ↦
        let (r, run, post) =
          edit_resize-Edits h v.address (record { refs = refs; bytes = text ++ 0 ∷ rest }) v.at
            v.fresh (s.capacity + 1) (omega (arith, v.limit)) in
        edited more r run post
  ]
    where
      alone : refs ≡ 1 → Gives h v.address text rest s h
      alone one = sole_Gives h s text rest (record {
        address = v.address;
        points = v.points;
        at = v.at ∙ rw one;
        room = v.room;
        plain = v.plain;
        limit = v.limit;
        fresh = v.fresh;
      })

      edited :
          (refs == 1) ≡ false
          → (r : Option ℕ × Heap) → edit_resize v.address (s.capacity + 1) h ≡ ok r
          → EditResult
              (λ bs. (pad : ℕ) × (bs ≡ resized (s.capacity + 1) pad (text ++ 0 ∷ rest)))
              h
              v.address
              r
          → Returns
              (detach s h)
              λ r. Gives h v.address text rest r.0 r.1 × (r.0.capacity ≡ s.capacity)
      edited more (none, h') run post = absurd (cc (granting h.next, post.refused))
      edited more (some q, h') run post = (
        (record s { str = some q }, h'),
        null_or-some _ _ s.str h v.points
            ∙ load-bind _ v.address h v.at
            ∙ rw more (bind_ok (edit_resize v.address (s.capacity + 1)) _ h run),
        (edited_Gives q h' post, refl),
      )

-- A new block that is cleared.
pub get_buffer-Added :
    (n : ℕ) (h : Heap)
    → n < max_chars
    → h.grants h.next ≡ true
    → (room : ℕ) × (h' : Heap) × (get_buffer n h
        ≡ ok (record { str = some h.next; capacity = room }, h'))
      × (n ≤ room)
      × (room < max_chars)
      × Added (replicate (room + 1) 0) h h.next h'
unfolding get_buffer buffer_of
get_buffer-Added n h small g = elim (Bool-cases (ltb n default_size)) [
  | inl few ↦ (
    default_size,
    final default_size,
    rw few (taken default_size (omega arith)),
    ground arith,
    omega arith,
    added default_size,
  )
  | inr many ↦ (
    n,
    final n,
    rw (many, lt→ltb n max_chars small) (taken n (omega arith)),
    omega arith,
    small,
    added n,
  )
]
  where
    final : ℕ → Heap
    final room = record h {
      next = h.next + 1;
      cell =
          update
            (update h.cell h.next (some (record { refs = 1; bytes = replicate (room + 1) h.junk })))
            h.next (some (record { refs = 1; bytes = replicate (room + 1) 0 }));
    }

    taken :
        (room : ℕ)
        → room + 1 < max_size
        → buffer_of room h ≡ ok (record { str = some h.next; capacity = room }, final room)
    taken room fits = bind_ok (alloc (room + 1)) _ h (alloc_granted (room + 1) h fits g)

    added : (room : ℕ) → Added (replicate (room + 1) 0) h h.next (final room)
    added room = record {
      next = refl;
      mine = ground arith;
      others = λ x ne. ground arith;
      up = refl;
      grants = λ x. refl;
    }

-- With one owner `detach` does nothing.
pub detach_sole :
    (h : Heap) (s : String8) (text rest : List ℕ) → Holds h s 1 text rest → detach s h ≡ ok (s, h)
unfolding detach
detach_sole h s text rest v = null_or-some _ _ s.str h v.points ∙ load-bind _ v.address h v.at
