-- ===== src/Buffer/ByteBuffer/Write.antt =====
-- `set` and `append` on a buffer against the bytes that it shows.
use alias.Prelude.{
  ℕ, ◌+◌, ◌-◌, ◌^◌, ◌≤◌, ◌<◌, ◌==◌, leb, ltb, ◌≡◌, refl, inl, inr, true, false, List, [], ◌++◌,
  Option, none, some, length, take, drop, replicate, arith, Bool-cases, ◌∙◌, sym, ap, length-append,
  length-take, length-drop, take_all, take-append, take-append_eq, take-take, append_assoc,
  length-replicate,
}
use alias.Outcome.{ok, crash, Returns}
use alias.Buffer.Heap.{
  Block, Heap, ◌>>=◌, update, IsFresh, Keeps, load-bind, bind_ok, on_block-some,
}
use alias.Buffer.Shared.{max_size, resized}
use alias.Buffer.Shared.Laws.{
  Edits, Refused, EditResult, EditResult-map, edit-Edits, edit_resize-Edits,
}
use alias.Buffer.ByteBuffer.{
  ByteBuffer, write_bytes, calculate, writable, put_at, real_offset, set, append,
}

-- The buffer's block, and how its fields fit it.
pub record IsValid (h : Heap) (b : ByteBuffer) : Type 0 where
  pub address : ℕ
  pub block : Block
  pub points : b.buf ≡ some address
  pub at : h.cell address ≡ some block
  pub owned : 0 < block.refs
  pub room : b.capacity ≤ length block.bytes
  pub within : b.size ≤ b.capacity
  pub limit : length block.bytes < max_size
  pub fresh : IsFresh h

-- The bytes that a buffer shows.
abbrev pub contents : Heap → ByteBuffer → List ℕ
contents h b = elim b.buf [
  | none ↦ []
  | some p ↦ elim (h.cell p) [ none ↦ [] | some blk ↦ take b.size blk.bytes ]
]

-- What a write that shows `shown` afterwards gives: it fails only where a request for memory was
-- refused, and then it returns 0 and changes no block and not the buffer.
pub data Writes (h : Heap) (p n : ℕ) (b : ByteBuffer) (shown : List ℕ) (r : (ℕ × ByteBuffer) × Heap)
    : Type 0 where
  short : r.0.0 ≡ 0 → r.0.1 ≡ b → Refused h r.1 → Writes h p n b shown r
  done :
      r.0.0 ≡ n
      → IsValid r.1 r.0.1
      → contents r.1 r.0.1 ≡ shown
      → Keeps h p r.1
      → ((x : ℕ) → r.1.grants x ≡ h.grants x)
      → Writes h p n b shown r

calculate_bounds : (n : ℕ) → n < 2 ^ 52 → (n ≤ calculate n) × (calculate n < max_size)
unfolding calculate
calculate_bounds n h = ground arith

-- The bytes of the block that a write works on: the first `keep` are the old ones.
abbrev pub Suits : ℕ → ℕ → List ℕ → List ℕ → Type 0
Suits keep new_size old bytes =
    (new_size ≤ length bytes) × (length bytes < max_size) × (take keep bytes ≡ take keep old)

length-resized : (n pad : ℕ) (xs : List ℕ) → length (resized n pad xs) ≡ n
length-resized n pad xs = omega (
  arith,
  length-append (take n xs) (replicate (n - length xs) pad),
  length-take n xs,
  length-replicate (n - length xs) pad,
)

take-resized :
    (k n pad : ℕ) (xs : List ℕ) → k ≤ n → k ≤ length xs → take k (resized n pad xs) ≡ take k xs
take-resized k n pad xs h g =
    take-append k (take n xs) (replicate (n - length xs) pad) (omega (arith, length-take n xs))
    ∙ take-take k n xs h

module _ (h : Heap) (b : ByteBuffer) (v : IsValid h b) (new_size keep : ℕ)
    (small : new_size < 2 ^ 52) (shown : keep ≤ b.size) (kept : keep ≤ new_size) where
  pub writable-Suits :
      Returns
        (writable new_size v.address b h)
        (EditResult (Suits keep new_size v.block.bytes) h v.address)
  unfolding writable
  writable-Suits = elim (Bool-cases (ltb b.capacity new_size)) [
    | inl more ↦
        let (fits, bound) = calculate_bounds new_size small in
        let (r, run, post) =
          edit_resize-Edits h v.address v.block v.at v.fresh (calculate new_size) bound in
        (
          r,
          rw more run,
          EditResult-map (λ bs. (pad : ℕ) × (bs ≡ resized (calculate new_size) pad v.block.bytes)) _
              h v.address r (λ bs e. longer bs e.0 e.1) post,
        )
    | inr enough ↦
        let (r, run, post) = edit-Edits h v.address v.block v.at v.fresh v.limit in
        (
          r,
          rw enough run,
          EditResult-map (λ bs. bs ≡ v.block.bytes) _ h v.address r
              (λ bs e. rw e (ground arith, v.limit, refl)) post,
        )
  ]
    where
      longer :
          (bs : List ℕ) (pad : ℕ)
          → bs ≡ resized (calculate new_size) pad v.block.bytes
          → Suits keep new_size v.block.bytes bs
      longer bs pad e =
          let len = length-resized (calculate new_size) pad v.block.bytes in
          let (fits, bound) = calculate_bounds new_size small in
          rw e (
            omega arith,
            omega arith,
            take-resized keep (calculate new_size) pad v.block.bytes (omega arith)
                (omega (arith, v.within, v.room)),
          )

pub take-write :
    (bytes d : List ℕ) (off n : ℕ)
    → n ≡ length d
    → off + n ≤ length bytes
    → take (n + off) (take off bytes ++ (take n d ++ drop (off + n) bytes)) ≡ take off bytes ++ d
take-write bytes d off n e le =
    rw (take_all n d (omega arith), ← append_assoc)
      (take-append_eq (n + off) (take off bytes ++ d) (drop (off + n) bytes)
        (omega (arith, length-append (take off bytes) d, length-take off bytes)))

pub write_bytes_within :
    (bytes d : List ℕ) (off n : ℕ) (h : Heap)
    → n ≤ length d
    → off + n ≤ length bytes
    → write_bytes bytes off d n h ≡ ok (take off bytes ++ (take n d ++ drop (off + n) bytes), h)
unfolding write_bytes
write_bytes_within bytes d off n h a c = ground arith

pub write_bytes_beyond :
    (bytes d : List ℕ) (off n : ℕ) (h : Heap)
    → length bytes < off + n
    → write_bytes bytes off d n h ≡ crash
unfolding write_bytes
write_bytes_beyond bytes d off n h over =
    let no_room : leb (off + n) (length bytes) ≡ false = ground arith in
    elim (Bool-cases (leb n (length d))) [ inl enough ↦ rw (enough, no_room) | inr few ↦ rw few ]

pub length-write :
    (bytes d : List ℕ) (off n : ℕ)
    → n ≡ length d
    → off + n ≤ length bytes
    → length (take off bytes ++ (take n d ++ drop (off + n) bytes)) ≡ length bytes
length-write bytes d off n e le = omega (
  arith,
  length-append (take off bytes) (take n d ++ drop (off + n) bytes),
  length-append (take n d) (drop (off + n) bytes),
  length-take off bytes,
  length-take n d,
  length-drop (off + n) bytes,
)

-- A block of one owner gets new bytes: the heap afterwards, and what is kept through both steps.
abbrev pub with_bytes : Heap → ℕ → List ℕ → Heap
with_bytes h q bytes = record h {
  cell = update h.cell q (some (record { refs = 1; bytes = bytes }));
}

module _ (Good : List ℕ → Type 0) (h : Heap) (p q : ℕ) (h' : Heap) (old : Block)
    (at : h.cell p ≡ some old) (fresh : IsFresh h) (e : Edits Good h p q h') where
  no_block : (x : ℕ) (c : Block) → h.cell x ≡ some c → h.cell x ≡ none → ⊥
  no_block x c a b = cc

  pub with_bytes-Keeps : (bytes : List ℕ) → Keeps h p (with_bytes h' q bytes)
  with_bytes-Keeps bytes x c at_x other =
      let (c', now_x, same) = e.keeps x c at_x other in
      elim (Bool-cases (x == q)) [
        | inl k ↦ elim e.place [
          | inr new ↦ absurd (no_block x c at_x (fresh x (ground arith)))
          | inl (same_place, sole) ↦ elim other [
            | inl apart ↦ absurd (ground arith)
            | inr shared ↦ absurd (shared (sole c (rw (← same_place) (ground arith))))
          ]
        ]
        | inr k ↦ (c', ground arith, same)
      ]

  pub with_bytes-IsFresh : (bytes : List ℕ) → IsFresh (with_bytes h' q bytes)
  with_bytes-IsFresh bytes x le = ground (arith, e.fresh x, e.mine)

pub contents_at :
    (h : Heap) (p size k : ℕ) (blk : Block)
    → h.cell p ≡ some blk
    → contents h (record { buf = some p; size = size; capacity = k }) ≡ take size blk.bytes
contents_at h p size k blk e = rw (e, contents)

module _ (h : Heap) (b : ByteBuffer) (v : IsValid h b) where
  pub contents_valid : contents h b ≡ take b.size v.block.bytes
  contents_valid = ground (arith, v.points, v.at)

  module _ (d : List ℕ) (n off : ℕ) (len : n ≡ length d) (within : off ≤ b.size) where
    put_at_done :
        (q : ℕ) (h' : Heap) (e : Edits (Suits off (n + off) v.block.bytes) h v.address q h')
        → put_at d n off b (some q) h'
          ≡ ok (
            (n, record { buf = some q; size = n + off; capacity = length e.bytes }),
            with_bytes h' q (take off e.bytes ++ (take n d ++ drop (off + n) e.bytes)),
          )
    unfolding put_at
    put_at_done q h' e =
        load-bind _ q h' e.mine
        ∙ bind_ok (write_bytes e.bytes off d n) _ h'
            (write_bytes_within e.bytes d off n h' (omega arith) (omega (arith, e.good.0)))

    put_at-Writes :
        (r : Option ℕ × Heap)
        → EditResult (Suits off (n + off) v.block.bytes) h v.address r
        → Returns (put_at d n off b r.0 r.1) (Writes h v.address n b (take off (contents h b) ++ d))
    put_at-Writes (none, h') e = (((0, b), h'), unfold put_at in refl, short refl refl e)
    put_at-Writes (some q, h') e =
        let new = take off e.bytes ++ (take n d ++ drop (off + n) e.bytes) in
        let fits : off + n ≤ length e.bytes = omega (arith, e.good.0) in
        let same : length new ≡ length e.bytes = length-write e.bytes d off n len fits in
        (
          _,
          put_at_done q h' e,
          done refl
              (record {
                address = q;
                block = record { refs = 1; bytes = new };
                points = refl;
                at = ground arith;
                owned = omega arith;
                room = omega (arith, same);
                within = e.good.0;
                limit = omega (arith, same, e.good.1);
                fresh = with_bytes-IsFresh _ h v.address q h' v.block v.at v.fresh e new;
              })
              (contents_at (with_bytes h' q new) q (n + off) (length e.bytes)
                  (record { refs = 1; bytes = new }) (ground arith)
                ∙ take-write e.bytes d off n len fits
                ∙ ap (λ l. l ++ d)
                    (e.good.2
                      ∙ sym (take-take off b.size v.block.bytes within)
                      ∙ ap (take off) (sym contents_valid)))
              (with_bytes-Keeps _ h v.address q h' v.block v.at v.fresh e new) e.grants,
        )

  -- `set` of a text that is not empty on a valid buffer, with text and data of fewer than 2 ^ 52 bytes
  -- together, either returns the text's length and shows the bytes before the offset with the text
  -- behind them, or finds no memory, returns 0 and changes neither the buffer nor any block's bytes. An
  -- offset past the data counts as 0. The buffer stays valid, and what other buffers show is not touched.
  pub set-Writes :
      (d : List ℕ) (off : ℕ)
      → 0 < length d
      → length d + b.size < 2 ^ 52
      → Returns
          (set (some d) (length d) off b h)
          (Writes h v.address (length d) b (take (real_offset b off) (contents h b) ++ d))
  unfolding set
  set-Writes d off pos small =
      let n = length d in
      let real = real_offset b off in
      let within : real ≤ b.size = unfold real_offset in ground arith in
      let (r, run, post) =
        writable-Suits h b v (n + real) real (omega arith) within (omega arith) in
      let (res, written, w) = put_at-Writes d n real refl within r post in
      let step : (writable (n + real) v.address b >>= put_at d n real b) h ≡ ok res =
        bind_ok (writable (n + real) v.address b) (put_at d n real b) h run ∙ written in
      let not_empty : (n == 0) ≡ false = ground arith in
      let no_wrap : leb (2 ^ 64) (n + real) ≡ false = ground arith in
      (res, rw (not_empty, no_wrap) (on_block-some _ b.buf h v.points ∙ step), w)

  -- `append` of a text that is not empty to a valid buffer, with text and data of fewer than 2 ^ 52
  -- bytes together, either shows it behind the old bytes, and keeps the buffer valid and what others
  -- show, or finds no memory and changes neither the buffer nor any block's bytes.
  pub append-Writes :
      (d : List ℕ)
      → 0 < length d
      → length d + b.size < 2 ^ 52
      → Returns
          (append (some d) (length d) b h)
          (Writes h v.address (length d) b (contents h b ++ d))
  unfolding append
  append-Writes d pos small =
      let (r, run, w) = set-Writes d b.size pos small in
      let whole : take (real_offset b b.size) (contents h b) ≡ contents h b =
        ap (λ k. take k (contents h b))
          (let e : real_offset b b.size ≡ b.size = unfold real_offset in ground arith in e)
        ∙ take_all b.size (contents h b)
            (rw contents_valid (omega (arith, length-take b.size v.block.bytes))) in
      (r, run, rw whole at w)

-- A write that has all the memory that it asks for.
pub record Written (h : Heap) (p n : ℕ) (shown : List ℕ) (r : (ℕ × ByteBuffer) × Heap)
    : Type 0 where
  pub returns : r.0.0 ≡ n
  pub valid : IsValid r.1 r.0.1
  pub shows : contents r.1 r.0.1 ≡ shown
  pub keeps : Keeps h p r.1
  pub grants : (x : ℕ) → r.1.grants x ≡ h.grants x

pub Writes-Written :
    (h : Heap) (p n : ℕ) (b : ByteBuffer) (shown : List ℕ) (r : (ℕ × ByteBuffer) × Heap)
    → ((x : ℕ) → h.grants x ≡ true)
    → Writes h p n b shown r
    → Written h p n shown r
Writes-Written h p n b shown r memory (short _ _ s) =
    absurd (let g : true ≡ false = sym (memory h.next) ∙ s.refused in cc)
Writes-Written h p n b shown r memory (done e v c k g) = record {
  returns = e;
  valid = v;
  shows = c;
  keeps = k;
  grants = g;
}

-- Nothing is written for a length of 0.
pub set_zero :
    (d : List ℕ) (off : ℕ) (b : ByteBuffer) (h : Heap) → set (some d) 0 off b h ≡ ok ((0, b), h)
unfolding set
set_zero d off b h = refl
