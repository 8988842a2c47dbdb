-- ===== src/Buffer/Shared/Laws.antt =====
-- What `edit` and `editResize` promise: a block of one owner with the bytes, or nothing done.
use alias.Prelude.{
  ℕ, ◌+◌, ◌-◌, ◌≤◌, ◌<◌, ◌==◌, ltb, if◌then◌else◌, ◌≡◌, refl, ◌⊎◌, inl, inr, true, false, List,
  Option, none, some, length, replicate, arith, Bool-cases, ◌∙◌, take_all, append-nil,
}
use alias.Outcome.{ok, Returns}
use alias.Buffer.Heap.{Block, Heap, ◌>>=◌, update, IsFresh, Keeps, load-bind}
use alias.Buffer.Shared.{
  acquire, max_size, check_size, alloc, release, move_to, edit, copy_resize, edit_resize, resized,
}

-- What an edit of the block at `p` gives: the address and the heap afterwards. `Good` says which
-- bytes the block may hold.
pub record Edits (Good : List ℕ → Type 0) (h : Heap) (p q : ℕ) (h' : Heap) : Type 0 where
  pub bytes : List ℕ
  pub good : Good bytes
  pub mine : h'.cell q ≡ some (record { refs = 1; bytes = bytes })
  pub fresh : IsFresh h'
  pub keeps : Keeps h p h'
  pub place : (q ≡ p) × ((c : Block) → h.cell p ≡ some c → c.refs ≡ 1) ⊎ (h.next ≤ q)
  pub grants : (x : ℕ) → h'.grants x ≡ h.grants x

-- It may fail only where a request for memory is refused, and then no block has changed.
pub record Refused (h h' : Heap) : Type 0 where
  pub refused : h.grants h.next ≡ false
  pub same : (x : ℕ) → h'.cell x ≡ h.cell x
  pub fresh : IsFresh h'

abbrev pub EditResult : (List ℕ → Type 0) → Heap → ℕ → Option ℕ × Heap → Type 0
EditResult Good h p (none, h') = Refused h h'
EditResult Good h p (some q, h') = Edits Good h p q h'

module _ (h : Heap) (p : ℕ) (b : Block) (at : h.cell p ≡ some b) (fresh : IsFresh h) where
  below_next : p < h.next
  below_next = elim (Bool-cases (ltb p h.next)) [
    | inl e ↦ ground arith
    | inr e ↦ ground (arith, fresh p)
  ]

  sole_Edits : b.refs ≡ 1 → Edits (λ bs. bs ≡ b.bytes) h p p h
  sole_Edits one = record {
    bytes = b.bytes;
    good = refl;
    mine = ground arith;
    fresh = fresh;
    keeps = λ x c e _. (c, e, refl);
    place = inl (refl, λ c e. ground arith);
    grants = λ x. refl;
  }

abbrev released : Block → Option Block
released b = if b.refs == 1 then none else some (record b { refs = b.refs - 1 })

-- The heap after a new block of `n` bytes has taken `bytes` and the one at `p` has lost an owner.
abbrev taken_over : Heap → ℕ → Block → ℕ → List ℕ → Heap
taken_over h p b n bytes = record h {
  next = h.next + 1;
  cell =
      update
        (update (update h.cell h.next (some (record { refs = 1; bytes = replicate n h.junk })))
          h.next (some (record { refs = 1; bytes = bytes })))
        p (released b);
}

pub alloc_granted :
    (n : ℕ) (h : Heap)
    → n < max_size
    → h.grants h.next ≡ true
    → alloc n h
      ≡ ok (
        some h.next,
        record h {
          next = h.next + 1;
          cell = update h.cell h.next (some (record { refs = 1; bytes = replicate n h.junk }));
        },
      )
unfolding alloc check_size
alloc_granted n h small g = ground arith

alloc_refused :
    (n : ℕ) (h : Heap)
    → n < max_size
    → h.grants h.next ≡ false
    → alloc n h ≡ ok (none, record h { next = h.next + 1 })
unfolding alloc check_size
alloc_refused n h small g = ground arith

module _ (h : Heap) (p : ℕ) (b : Block) (at : h.cell p ≡ some b) (fresh : IsFresh h) where
  move_granted :
      (n : ℕ) (bytes : List ℕ)
      → n < max_size
      → h.grants h.next ≡ true
      → (alloc n >>= (λ q. move_to p q bytes)) h ≡ ok (some h.next, taken_over h p b n bytes)
  unfolding move_to release
  move_granted n bytes small g =
      rw (alloc_granted n h small g, ◌>>=◌) (ground (arith, below_next h p b at fresh))

  taken_over-Keeps : (n : ℕ) (bytes : List ℕ) → Keeps h p (taken_over h p b n bytes)
  taken_over-Keeps n bytes x c e other = elim (Bool-cases (x == p)) [
    | inl k ↦ (record b { refs = b.refs - 1 }, ground arith, ground arith)
    | inr k ↦ (c, ground (arith, fresh x), refl)
  ]

  taken_over-Edits :
      (n : ℕ) (bytes : List ℕ) → Edits (λ bs. bs ≡ bytes) h p h.next (taken_over h p b n bytes)
  taken_over-Edits n bytes = record {
    bytes = bytes;
    good = refl;
    mine = ground (arith, below_next h p b at fresh);
    fresh = λ x le. ground (arith, fresh x, below_next h p b at fresh);
    keeps = taken_over-Keeps n bytes;
    place = inr (omega arith);
    grants = λ x. refl;
  }

  -- A new block of one owner with the bytes, or nothing done.
  pub alloc_move :
      (n : ℕ) (bytes : List ℕ)
      → n < max_size
      → Returns ((alloc n >>= (λ q. move_to p q bytes)) h) (EditResult (λ bs. bs ≡ bytes) h p)
  alloc_move n bytes small = elim (Bool-cases (h.grants h.next)) [
    | inl g ↦ (_, move_granted n bytes small g, taken_over-Edits n bytes)
    | inr g ↦ (
      (none, record h { next = h.next + 1 }),
      unfold move_to in rw (alloc_refused n h small g, ◌>>=◌),
      record { refused = g; same = λ x. refl; fresh = λ x le. fresh x (omega arith) },
    )
  ]

  -- `edit` of a block of fewer than `max_size` bytes gives one with the same bytes and one owner: the
  -- block itself if it has one owner, else a new one. It gives none only where the request for memory
  -- is refused, and then no block has changed. No other block, and no block of several owners, loses
  -- or changes a byte.
  pub edit-Edits :
      length b.bytes < max_size → Returns (edit p h) (EditResult (λ bs. bs ≡ b.bytes) h p)
  unfolding edit
  edit-Edits small = elim (Bool-cases (b.refs == 1)) [
    | inl one ↦ ((some p, h), load-bind _ p h at ∙ rw one, sole_Edits h p b at fresh (ground arith))
    | inr shared ↦
        let (r, run, post) = alloc_move (length b.bytes) b.bytes small in
        (r, load-bind _ p h at ∙ rw shared run, post)
  ]

  -- The heap after the block at `p` has been resized in place.
  grown : ℕ → Heap
  grown n = record h {
    next = h.next + 1;
    cell = update h.cell p (some (record b { bytes = resized n h.junk b.bytes }));
  }

  grown-Edits :
      (n : ℕ) → b.refs ≡ 1 → Edits (λ bs. (pad : ℕ) × (bs ≡ resized n pad b.bytes)) h p p (grown n)
  unfolding grown
  grown-Edits n one = record {
    bytes = resized n h.junk b.bytes;
    good = (h.junk, refl);
    mine = ground arith;
    fresh = λ x le. ground (arith, fresh x, below_next h p b at fresh);
    keeps = λ x c e other. (c, ground arith, refl);
    place = inl (refl, λ c e. ground arith);
    grants = λ x. refl;
  }

pub EditResult-map :
    (P Q : List ℕ → Type 0) (h : Heap) (p : ℕ) (r : Option ℕ × Heap)
    → ((bs : List ℕ) → P bs → Q bs)
    → EditResult P h p r
    → EditResult Q h p r
EditResult-map P Q h p (none, h') f e = e
EditResult-map P Q h p (some q, h') f e = record {
  bytes = e.bytes;
  good = f e.bytes e.good;
  mine = e.mine;
  fresh = e.fresh;
  keeps = e.keeps;
  place = e.place;
  grants = e.grants;
}

-- A request that was refused before the edit changes nothing but the count of requests.
EditResult-retry :
    (P : List ℕ → Type 0) (h : Heap) (p : ℕ) (r : Option ℕ × Heap)
    → h.grants h.next ≡ false
    → EditResult P (record h { next = h.next + 1 }) p r
    → EditResult P h p r
EditResult-retry P h p (none, h') g e = record { refused = g; same = e.same; fresh = e.fresh }
EditResult-retry P h p (some q, h') g e = record {
  bytes = e.bytes;
  good = e.good;
  mine = e.mine;
  fresh = e.fresh;
  keeps = e.keeps;
  place = elim e.place [ inl same ↦ inl same | inr new ↦ inr (omega arith) ];
  grants = e.grants;
}

pub copy_resize-Edits :
    (h : Heap) (p : ℕ) (b : Block)
    → h.cell p ≡ some b
    → IsFresh h
    → (n : ℕ) → n < max_size
    → Returns
        (copy_resize p n b.bytes h)
        (EditResult (λ bs. (pad : ℕ) × (bs ≡ resized n pad b.bytes)) h p)
unfolding copy_resize
copy_resize-Edits h p b at fresh n small =
    let (r, run, post) = alloc_move h p b at fresh n (resized n 0 b.bytes) small in
    (r, run, EditResult-map (λ bs. bs ≡ resized n 0 b.bytes) _ h p r (λ bs e. (0, e)) post)

module _ (h : Heap) (p : ℕ) (b : Block) (at : h.cell p ≡ some b) (fresh : IsFresh h) where
  sole_resize :
      (n : ℕ)
      → n < max_size
      → b.refs ≡ 1
      → (length b.bytes == n) ≡ false
      → h.grants h.next ≡ true
      → edit_resize p n h ≡ ok (some p, grown h p b at fresh n)
  unfolding edit_resize check_size grown
  sole_resize n small one new g = load-bind _ p h at ∙ ground arith

  retry_resize :
      (n : ℕ)
      → n < max_size
      → b.refs ≡ 1
      → (length b.bytes == n) ≡ false
      → h.grants h.next ≡ false
      → edit_resize p n h ≡ copy_resize p n b.bytes (record h { next = h.next + 1 })
  unfolding edit_resize check_size
  retry_resize n small one new g = load-bind _ p h at ∙ ground arith

  same_resize :
      (n : ℕ) → b.refs ≡ 1 → (length b.bytes == n) ≡ true → edit_resize p n h ≡ ok (some p, h)
  unfolding edit_resize
  same_resize n one old = load-bind _ p h at ∙ ground arith

  shared_resize : (n : ℕ) → (b.refs == 1) ≡ false → edit_resize p n h ≡ copy_resize p n b.bytes h
  unfolding edit_resize
  shared_resize n more = load-bind _ p h at ∙ rw more

  -- `editResize` to fewer than `max_size` bytes gives a block of one owner with `n` bytes, the old ones
  -- as far as they fit. It gives none only where the first request for memory is refused, and then no
  -- block has changed. No other block, and no block of several owners, loses or changes a byte.
  pub edit_resize-Edits :
      (n : ℕ)
      → n < max_size
      → Returns
          (edit_resize p n h)
          (EditResult (λ bs. (pad : ℕ) × (bs ≡ resized n pad b.bytes)) h p)
  edit_resize-Edits n small = elim (Bool-cases (b.refs == 1)) [
    | inr more ↦
        let (r, run, post) = copy_resize-Edits h p b at fresh n small in
        (r, shared_resize n more ∙ run, post)
    | inl one ↦ elim (Bool-cases (length b.bytes == n)) [
      | inl old ↦ (
        (some p, h),
        same_resize n (ground arith) old,
        EditResult-map (λ bs. bs ≡ b.bytes) _ h p (some p, h) (λ bs e. (0, e ∙ whole old))
            (sole_Edits h p b at fresh (ground arith)),
      )
      | inr new ↦ elim (Bool-cases (h.grants h.next)) [
        | inl g ↦ (
          (some p, grown h p b at fresh n),
          sole_resize n small (ground arith) new g,
          grown-Edits h p b at fresh n (ground arith),
        )
        | inr g ↦
            let (r, run, post) =
              copy_resize-Edits (record h { next = h.next + 1 }) p b at
                (λ x le. fresh x (omega arith)) n small in
            (r, retry_resize n small (ground arith) new g ∙ run, EditResult-retry _ h p r g post)
      ]
    ]
  ]
    where
      whole : (length b.bytes == n) ≡ true → b.bytes ≡ resized n 0 b.bytes
      whole e =
          let le : length b.bytes ≤ n = ground arith in
          let zero_pad : n - length b.bytes ≡ 0 = ground arith in
          rw (take_all n b.bytes le, zero_pad, append-nil b.bytes)

-- The heap with one owner more of the block at `p`.
abbrev pub shared : Heap → ℕ → Block → Heap
shared h p b = record h { cell = update h.cell p (some (record b { refs = b.refs + 1 })) }

pub acquire_lem :
    (h : Heap) (p : ℕ) (b : Block) → h.cell p ≡ some b → acquire p h ≡ ok (tt, shared h p b)
unfolding acquire
acquire_lem h p b e = load-bind _ p h e
