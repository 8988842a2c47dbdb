-- ===== src/Buffer/Stream/Queue.antt =====
-- The stream as a queue of the bytes written and not yet read.
use alias.Prelude.{
  ℕ, ◌+◌, ◌-◌, ◌^◌, ◌≤◌, ◌<◌, ◌==◌, leb, ltb, not, if◌then◌else◌, ◌≡◌, refl, ◌≢◌, inl, inr, true,
  ◌&&◌, List, [], ◌++◌, some, length, take, drop, arith, Bool-cases, ◌∙◌, sym, ap, length-append,
  length-take, length-drop, take_all, drop-append,
}
use alias.Outcome.{ok, Returns}
use alias.Buffer.Heap.{Heap, M, raise, ◌>>=◌, bind_ok}
use alias.Buffer.ByteBuffer.{ByteBuffer, set, append, real_offset}
use alias.Buffer.ByteBuffer.Write
use alias.Buffer.ByteBuffer.Write.{
  contents, Written, Writes-Written, set-Writes, append-Writes, contents_valid, set_zero,
}
use alias.Buffer.Stream.{BufferStream, wrap, bytes_at, push, compact, write, read}
use alias.Buffer.Stream.Pending.{over, IsValid, pending, length-contents, bytes_at_lem}

-- What a write of `d` leaves: the queue with `d` behind it.
pub record Queues (d : List ℕ) (h : Heap) (b : ByteBuffer) (rpos : ℕ) (p : ℕ)
    (r : BufferStream × Heap) : Type 0 where
  pub after : ByteBuffer
  pub read_at : ℕ
  pub stream : r.0 ≡ over after read_at (after.size)
  pub valid : Write.IsValid r.1 after
  pub ahead : read_at ≤ after.size
  pub small : after.size < 2 ^ 31
  pub queue : pending r.1 after read_at ≡ pending h b rpos ++ d

module _ (d : List ℕ) (h : Heap) (b : ByteBuffer) (v : Write.IsValid h b)
    (memory : (x : ℕ) → h.grants x ≡ true) (some_bytes : 0 < length d) where
  -- `append` behind the data.
  push-Queues :
      (rpos : ℕ)
      → rpos ≤ b.size
      → length d + b.size < 2 ^ 31
      → Returns (push d (length d) b rpos b.size h) (Queues d h b rpos v.address)
  unfolding push
  push-Queues rpos ahead small =
      let (r, run, w) = append-Writes h b v d some_bytes (omega arith) in
      let done = Writes-Written h v.address (length d) b _ r memory w in
      let size : r.0.1.size ≡ b.size + length d = omega (
        arith,
        length-contents r.1 r.0.1 done.valid,
        ap length done.shows,
        length-append (contents h b) d,
        length-contents h b v,
      ) in
      (
        (over r.0.1 rpos (wrap (b.size + length d)), r.1),
        bind_ok (append (some d) (length d) b) _ h run,
        record {
          after = r.0.1;
          read_at = rpos;
          stream = ap (over r.0.1 rpos) (omega arith);
          valid = done.valid;
          ahead = omega arith;
          small = omega arith;
          queue =
              ap (drop rpos) done.shows
              ∙ drop-append rpos (contents h b) d (omega (arith, length-contents h b v));
        },
      )

module _ (d : List ℕ) (h : Heap) (b : ByteBuffer) (memory : (x : ℕ) → h.grants x ≡ true)
    (some_bytes : 0 < length d) (rpos wpos : ℕ) (v : IsValid h b rpos wpos)
    (room : length d + b.size < 2 ^ 31) where
  -- The unread bytes, as `compact` takes them out.
  abbrev old : List ℕ
  old = take (b.size - rpos) (drop rpos (contents h b))

  old_all : old ≡ pending h b rpos
  old_all =
      take_all (b.size - rpos) (pending h b rpos)
        (omega (arith, length-drop rpos (contents h b), length-contents h b v.valid))

  length-old : length old ≡ b.size - rpos
  length-old = omega (
    arith,
    length-take (b.size - rpos) (pending h b rpos),
    length-drop rpos (contents h b),
    length-contents h b v.valid,
  )

  -- The steps of `compact` from the number of unread bytes on.
  abbrev moves : ℕ → M BufferStream
  moves k = bytes_at rpos k b >>= (λ bs.
      set (some bs) k 0 b >>= (λ t. if t.0 == k then push d (length d) (t.1) 0 k else raise))

  compact-moves : wrap (b.size + 2 ^ 32 - rpos) ≡ b.size - rpos
  compact-moves = omega (arith, v.written, v.ahead, v.valid.within, v.small)

  move_on :
      (n k : ℕ) (b' : ByteBuffer) (h' : Heap) (r : BufferStream × Heap)
      → n ≡ k
      → b'.size ≡ k
      → push d (length d) b' 0 b'.size h' ≡ ok r
      → (if n == k then push d (length d) b' 0 k else raise) h' ≡ ok r
  move_on n k b' h' r e f run =
      let same : (n == k) ≡ true = ground arith in
      rw same (ap (λ j. push d (length d) b' 0 j h') (sym f) ∙ run)

  moves_run :
      (bs : List ℕ) (r : (ℕ × ByteBuffer) × Heap) (r' : BufferStream × Heap)
      → bytes_at rpos (length bs) b h ≡ ok (bs, h)
      → set (some bs) (length bs) 0 b h ≡ ok r
      → r.0.0 ≡ length bs
      → r.0.1.size ≡ length bs
      → push d (length d) r.0.1 0 r.0.1.size r.1 ≡ ok r'
      → moves (length bs) h ≡ ok r'
  moves_run bs r r' a s e f run =
      bind_ok (bytes_at rpos (length bs) b) _ h a
      ∙ bind_ok (set (some bs) (length bs) 0 b) _ h s
      ∙ move_on r.0.0 (length bs) r.0.1 r.1 r' e f run

  moved_Queues :
      (bs : List ℕ)
      → bs ≡ pending h b rpos
      → 0 < length bs
      → length bs ≤ b.size
      → bytes_at rpos (length bs) b h ≡ ok (bs, h)
      → Returns (moves (length bs) h) (Queues d h b rpos v.valid.address)
  moved_Queues bs all pos le at =
      let (r, run, w) = set-Writes h b v.valid bs 0 pos (omega arith) in
      let done = Writes-Written h v.valid.address (length bs) b _ r memory w in
      let start : take (real_offset b 0) (contents h b) ≡ [] =
        ap (λ k. take k (contents h b))
          (let e : real_offset b 0 ≡ 0 = unfold real_offset in ground arith in e) in
      let shows : contents r.1 r.0.1 ≡ bs = done.shows ∙ ap (λ l. l ++ bs) start in
      let size : r.0.1.size ≡ length bs =
        omega (arith, length-contents r.1 r.0.1 done.valid, ap length shows) in
      let (r', run', q) =
        push-Queues d r.1 r.0.1 done.valid (λ x. done.grants x ∙ memory x) some_bytes 0
          (omega arith) (omega arith) in
      (
        r',
        moves_run bs r r' at run done.returns size run',
        record {
          after = q.after;
          read_at = q.read_at;
          stream = q.stream;
          valid = q.valid;
          ahead = q.ahead;
          small = q.small;
          queue = q.queue ∙ ap (λ l. l ++ d) (shows ∙ all);
        },
      )

  compact-Queues :
      rpos < b.size
      → Returns (compact d (length d) b rpos b.size h) (Queues d h b rpos v.valid.address)
  unfolding compact
  compact-Queues left =
      let at : bytes_at rpos (length old) b h ≡ ok (old, h) =
        ap (λ k. bytes_at rpos k b h) length-old
        ∙ bytes_at_lem h b v.valid rpos (b.size - rpos) (omega arith) in
      let (r, run, q) =
        moved_Queues old old_all (omega (arith, length-old)) (omega (arith, length-old)) at in
      (r, ap (λ k. moves k h) (compact-moves ∙ sym length-old) ∙ run, q)

  -- Reading as many bytes as `d` has from the start of a buffer.
  stale_read :
      (b' : ByteBuffer) (h' : Heap)
      → Write.IsValid h' b'
      → length d ≤ b'.size
      → Returns
          (read (length d) (over b' 0 (wrap (0 + length d))) h')
          λ r. r.0.0 ≡ some (take (length d) (contents h' b'))
  unfolding read
  stale_read b' h' v' le =
      let same : leb (wrap (0 + length d)) (wrap (0 + length d)) ≡ true = ground arith in
      (
        (
          (
            some (take (length d) (contents h' b')),
            over b' (wrap (0 + length d)) (wrap (0 + length d)),
          ),
          h',
        ),
        rw same (
            bind_ok (bytes_at 0 (length d) b') _ h'
              (bytes_at_lem h' b' v' 0 (length d) (omega arith))),
        refl,
      )

  stale_run :
      rpos ≡ b.size
      → rpos ≢ 0
      → b.capacity < length d + b.size
      → (r : (ℕ × ByteBuffer) × Heap) → append (some d) (length d) b h ≡ ok r
      → write d (length d) (over b rpos wpos) h ≡ ok (over (r.0.1) 0 (wrap (0 + length d)), r.1)
  unfolding write compact push
  stale_run all started tight r run =
      let n = length d in
      let a : wrap b.capacity ≡ b.capacity = omega (arith, v.small) in
      let c : wrap (wpos + n) ≡ n + b.size = omega (arith, v.written) in
      let full : (not (rpos == 0) && ltb (wrap b.capacity) (wrap (wpos + n))) ≡ true =
        ground arith in
      let none_left : wrap (wpos + 2 ^ 32 - rpos) ≡ 0 = omega (arith, v.written) in
      rw (full, none_left)
        (bind_ok (bytes_at rpos 0 b) _ h (bytes_at_lem h b v.valid rpos 0 (omega arith))
          ∙ bind_ok (set (some []) 0 0 b) _ h (set_zero [] 0 b h)
          ∙ bind_ok (append (some d) n b) _ h run)

  full_facts :
      (not (rpos == 0) && ltb (wrap b.capacity) (wrap (wpos + length d))) ≡ true
      → (rpos ≢ 0) × (b.capacity < length d + b.size)
  full_facts full =
      let a : wrap b.capacity ≡ b.capacity = omega (arith, v.small) in
      let c : wrap (wpos + length d) ≡ length d + b.size = omega (arith, v.written) in ground arith

  left_over :
      (not (rpos == 0) && ltb (wrap b.capacity) (wrap (wpos + length d))) ≡ true
      → (rpos ≡ b.size → rpos ≢ 0 → length d + b.size ≤ b.capacity)
      → rpos < b.size
  left_over full fits = elim (Bool-cases (ltb rpos b.size)) [
    | inl e ↦ ground arith
    | inr e ↦
        let (started, tight) = full_facts full in
        let all : rpos ≡ b.size = ground (arith, v.ahead, v.written) in
        absurd (omega (arith, fits all started))
  ]

  -- With all the memory that it asks for, `write` of some bytes to a valid stream puts them at the end
  -- of the queue, and the buffer stays valid and the stream written up to its end. The new bytes and the
  -- data are fewer than 2 ^ 31 bytes; and if all has been read, but the positions are not at the start,
  -- the new bytes must fit behind the old ones.
  pub write-Queues :
      (rpos ≡ b.size → rpos ≢ 0 → length d + b.size ≤ b.capacity)
      → Returns (write d (length d) (over b rpos wpos) h) (Queues d h b rpos v.valid.address)
  unfolding write
  write-Queues fits =
      elim (Bool-cases (not (rpos == 0) && ltb (wrap b.capacity) (wrap (wpos + length d)))) [
        | inl full ↦
            let left : rpos < b.size = left_over full fits in
            let (r, run, q) = compact-Queues left in
            (r, rw full (ap (λ k. compact d (length d) b rpos k h) v.written ∙ run), q)
        | inr roomy ↦
            let (r, run, q) =
              push-Queues d h b v.valid memory some_bytes rpos (omega (arith, v.written, v.ahead))
                room in
            (r, rw roomy (ap (λ k. push d (length d) b rpos k h) v.written ∙ run), q)
      ]

  -- Where all of a valid stream has been read, the positions are not at the start and the new bytes do
  -- not fit behind the old ones, `write`, with all the memory that it asks for, leaves the old bytes in
  -- the buffer and starts to read at the first of them: reading back as many bytes as were written gives
  -- the first of the old and the new ones together.
  pub write-read_stale :
      rpos ≡ b.size
      → rpos ≢ 0
      → b.capacity < length d + b.size
      → Returns
          ((write d (length d) (over b rpos wpos) >>= read (length d)) h)
          λ r. r.0.0 ≡ some (take (length d) (contents h b ++ d))
  write-read_stale all started tight =
      let n = length d in
      let (r, run, w) = append-Writes h b v.valid d some_bytes (omega arith) in
      let done = Writes-Written h v.valid.address n b _ r memory w in
      let size : r.0.1.size ≡ b.size + n = omega (
        arith,
        length-contents r.1 r.0.1 done.valid,
        ap length done.shows,
        length-append (contents h b) d,
        length-contents h b v.valid,
      ) in
      let (res, read_run, first) = stale_read r.0.1 r.1 done.valid (omega arith) in
      (
        res,
        bind_ok (write d n (over b rpos wpos)) (read n) h (stale_run all started tight r run)
            ∙ read_run,
        first ∙ ap (λ l. some (take n l)) done.shows,
      )
