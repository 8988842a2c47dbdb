-- ===== src/String8/Fresh.antt =====
-- New blocks: what is written to them, and the release of the block that they replace or of their own.
use alias.Prelude.{
  ℕ, ◌+◌, ◌-◌, ◌≤◌, ◌<◌, ◌==◌, ltb, leb, if◌then◌else◌, ◌≡◌, ◌≢◌, refl, inl, inr, true, false, List,
  [], ◌∷◌, ◌++◌, none, some, length, take, replicate, arith, Bool-cases, ◌∙◌, lt→ltb,
}
use alias.Outcome.{ok}
use alias.Buffer.Heap.{Block, Heap, ◌>>=◌, update, IsFresh, Keeps, load-bind, bind_ok, null_or-some}
use alias.Buffer.Shared.{max_size, alloc}
use alias.Buffer.Shared
use alias.Buffer.Shared.Laws.{Edits, alloc_granted}
use alias.Buffer.ByteBuffer.Write.{with_bytes}
use alias.String8.{String8, max_chars, alloc_text, new_chars, release}
use alias.String8.Memory.{Added}

-- The same blocks as before, with requests made in between.
pub record Same (h h' : Heap) : Type 0 where
  pub cells : (x : ℕ) → h'.cell x ≡ h.cell x
  pub fresh : IsFresh h'
  pub grants : (x : ℕ) → h'.grants x ≡ h.grants x

-- The heap after one owner of the block at `p` has let go.
abbrev pub freed : Heap → ℕ → Block → Heap
freed h p b = record h {
  cell = update h.cell p (if b.refs == 1 then none else some (record b { refs = b.refs - 1 }));
}

pub release_lem :
    (h : Heap) (s : String8) (p : ℕ) (b : Block)
    → s.str ≡ some p
    → h.cell p ≡ some b
    → release s h ≡ ok (record { str = none; capacity = 0 }, freed h p b)
unfolding release Shared.release
release_lem h s p b points at =
    null_or-some _ _ s.str h points
    ∙ bind_ok (Shared.release false p) _ h {a = b.refs} {h' = freed h p b}
        (load-bind _ p h at ∙ ground arith)

pub below_next : (h : Heap) (p : ℕ) (b : Block) → h.cell p ≡ some b → IsFresh h → p < h.next
below_next h p b at fresh = elim (Bool-cases (ltb p h.next)) [
  | inl e ↦ ground arith
  | inr e ↦ ground (arith, fresh p)
]

pub write-Added :
    (old bytes : List ℕ) (h : Heap) (q : ℕ) (h' : Heap)
    → Added old h q h'
    → Added bytes h q (with_bytes h' q bytes)
write-Added old bytes h q h' a = record {
  next = a.next;
  mine = ground arith;
  others = λ x ne. ground (arith, a.others x ne);
  up = a.up;
  grants = a.grants;
}

pub Added-IsFresh :
    (bytes : List ℕ) (h : Heap) (q : ℕ) (h' : Heap) → IsFresh h → Added bytes h q h' → IsFresh h'
Added-IsFresh bytes h q h' fresh a x le =
    a.others x (λ e. absurd (omega (arith, a.up, a.next))) ∙ fresh x (omega (arith, a.up))

-- The blocks of before are still there.
pub Added-kept :
    (bytes : List ℕ) (h : Heap) (p q : ℕ) (h' : Heap) {b : Block}
    → h.cell p ≡ some b
    → IsFresh h
    → Added bytes h q h'
    → h'.cell p ≡ some b
Added-kept bytes h p q h' {b} at fresh a =
    let below = below_next h p b at fresh in a.others p (λ e. absurd (omega (arith, a.next))) ∙ at

-- The new block replaces the one at `p`.
pub Added-Edits :
    (bytes : List ℕ) (h : Heap) (p q : ℕ) (h' : Heap) (b : Block)
    → h.cell p ≡ some b
    → IsFresh h
    → Added bytes h q h'
    → Edits (λ bs. bs ≡ bytes) h p q (freed h' p b)
Added-Edits bytes h p q h' b at fresh a = record {
  bytes = bytes;
  good = refl;
  mine = ground (arith, a.mine, apart);
  fresh = λ x le. ground (arith, Added-IsFresh bytes h q h' fresh a x le, a.up, below);
  keeps = kept;
  place = inr (omega (arith, a.next));
  grants = a.grants;
}
  where
    below : p < h.next
    below = below_next h p b at fresh

    apart : q ≢ p
    apart e = absurd (omega (arith, below, a.next))

    kept : Keeps h p (freed h' p b)
    kept x c at_x other = elim (Bool-cases (x == p)) [
      | inl k ↦ (record b { refs = b.refs - 1 }, ground arith, ground arith)
      | inr k ↦
          let x_below : x < h.next = below_next h x c at_x fresh in
          (c, ground (arith, a.others x (λ e. absurd (omega (arith, a.next)))), refl)
    ]

-- The new block is given up again.
pub Added-Same :
    (bytes : List ℕ) (h : Heap) (q : ℕ) (h' : Heap)
    → IsFresh h
    → Added bytes h q h'
    → Same h (freed h' q (record { refs = 1; bytes = bytes }))
Added-Same bytes h q h' fresh a = record {
  cells = λ x. elim (Bool-cases (x == q)) [
    | inl k ↦ ground (arith, fresh q, a.next)
    | inr k ↦ ground (arith, a.others x (λ e. absurd (ground arith)))
  ];
  fresh = λ x le. ground (arith, Added-IsFresh bytes h q h' fresh a x le);
  grants = a.grants;
}

pub Same-trans : (h h' h'' : Heap) → Same h h' → Same h' h'' → Same h h''
Same-trans h h' h'' a b = record {
  cells = λ x. b.cells x ∙ a.cells x;
  fresh = b.fresh;
  grants = λ x. b.grants x ∙ a.grants x;
}

-- A string of the first `n` characters.
pub new_chars-Added :
    (chars : List ℕ) (n : ℕ) (h : Heap)
    → 0 < n
    → n < max_chars
    → n ≤ length chars
    → h.grants h.next ≡ true
    → (h' : Heap) × (new_chars (some chars) n h
        ≡ ok (record { str = some h.next; capacity = n }, h'))
      × Added (take n chars ++ 0 ∷ []) h h.next h'
unfolding new_chars alloc_text
new_chars-Added chars n h pos small fits g = (
  record h {
    next = h.next + 1;
    cell =
        update (update h.cell h.next (some (record { refs = 1; bytes = replicate (n + 1) h.junk })))
          h.next (some (record { refs = 1; bytes = take n chars ++ 0 ∷ [] }));
  },
  rw
      (
        lt→ltb 0 n pos,
        lt→ltb n max_chars small,
        alloc_granted (n + 1) h (omega arith) g,
        ◌>>=◌,
        le→leb,
      )
      refl,
  record {
    next = refl;
    mine = ground arith;
    others = λ x ne. ground arith;
    up = refl;
    grants = λ x. refl;
  },
)
  where
    le→leb : leb n (length chars) ≡ true
    le→leb = ground arith
