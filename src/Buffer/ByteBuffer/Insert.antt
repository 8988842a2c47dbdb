-- ===== src/Buffer/ByteBuffer/Insert.antt =====
-- `insert` into a buffer against the bytes that it shows.
use alias.Prelude.{
  ℕ, ◌+◌, ◌-◌, ◌^◌, ◌≤◌, ◌<◌, ◌==◌, leb, ltb, if◌then◌else◌, ◌≡◌, refl, inl, inr, true, false, List,
  [], ◌++◌, Option, none, some, length, take, drop, arith, Bool-cases, ◌∙◌, sym, ap, length-append,
  length-take, length-drop, take_all, take-append_eq, take-take, take-drop, append_assoc,
  append-nil, drop_all,
}
use alias.Outcome.{ok, Returns}
use alias.Buffer.Heap.{Heap, ◌>>=◌, Keeps, load-bind, bind_ok, on_block-some}
use alias.Buffer.Shared.Laws.{Edits, EditResult}
use alias.Buffer.ByteBuffer.{ByteBuffer, write_bytes, shift_bytes, writable, make_room, insert}
use alias.Buffer.ByteBuffer.Write.{
  IsValid, contents, Suits, writable-Suits, write_bytes_within, length-write, take-write,
  with_bytes, with_bytes-Keeps, with_bytes-IsFresh, contents_valid, contents_at,
}

-- The bytes of a block after `d` has been put in at `off` among the first `size`.
abbrev inserted : List ℕ → ℕ → List ℕ → ℕ → List ℕ
inserted bytes off d size =
    let first = take off bytes ++ (take (length d) d ++ drop (off + length d) bytes) in
    take (off + length d) first
    ++ (take (size - off) (take (size - off) (drop off bytes))
        ++ drop (off + length d + (size - off)) first)

shift_bytes_within :
    (bytes : List ℕ) (off : ℕ) (d : List ℕ) (size : ℕ) (h : Heap)
    → off ≤ size
    → length d + size ≤ length bytes
    → shift_bytes bytes off d (length d) size h ≡ ok (inserted bytes off d size, h)
unfolding shift_bytes
shift_bytes_within bytes off d size h le fits =
    let n = length d in
    let first = take off bytes ++ (take n d ++ drop (off + n) bytes) in
    let len : length first ≡ length bytes = length-write bytes d off n refl (omega arith) in
    let saved : length (take (size - off) (drop off bytes)) ≡ size - off =
      omega (arith, length-take (size - off) (drop off bytes), length-drop off bytes) in
    bind_ok (write_bytes bytes off d n) _ h
      (write_bytes_within bytes d off n h (omega arith) (omega arith))
    ∙ write_bytes_within first (take (size - off) (drop off bytes)) (off + n) (size - off) h
        (omega arith) (omega arith)

-- What is shown afterwards: the old bytes with `d` between them.
take-inserted :
    (bytes : List ℕ) (off : ℕ) (d : List ℕ) (size : ℕ)
    → off ≤ size
    → length d + size ≤ length bytes
    → take (length d + size) (inserted bytes off d size)
      ≡ take off (take size bytes) ++ (d ++ drop off (take size bytes))
take-inserted bytes off d size le fits =
    let n = length d in
    let first = take off bytes ++ (take n d ++ drop (off + n) bytes) in
    let tail = drop off (take size bytes) in
    let len_tail : length tail ≡ size - off =
      omega (arith, length-drop off (take size bytes), length-take size bytes) in
    let front : take (off + n) first ≡ take off bytes ++ d =
      ap (λ k. take k first) (let e : off + n ≡ n + off = omega arith in e)
      ∙ take-write bytes d off n refl (omega arith) in
    let back : take (size - off) (take (size - off) (drop off bytes)) ≡ tail =
      take-take (size - off) (size - off) (drop off bytes) (omega arith)
      ∙ take-drop (size - off) off bytes
      ∙ ap (λ k. drop off (take k bytes)) (let e : off + (size - off) ≡ size = omega arith in e) in
    let rest = drop (off + n + (size - off)) first in
    rw (front, back, take-take off size bytes le)
      (ap (take (n + size)) (sym (append_assoc (take off bytes ++ d) tail rest))
        ∙ take-append_eq (n + size) ((take off bytes ++ d) ++ tail) rest (
            omega (
              arith,
              length-append (take off bytes ++ d) tail,
              length-append (take off bytes) d,
              length-take off bytes,
            ))
        ∙ append_assoc (take off bytes) d tail)

-- The bytes that `insert` leaves in the block, on both of its paths.
abbrev result_bytes : List ℕ → ℕ → List ℕ → ℕ → List ℕ
result_bytes bytes off d size =
    if size - off == 0
    then take size bytes ++ (take (length d) d ++ drop (size + length d) bytes)
    else inserted bytes off d size

module _ (bytes : List ℕ) (off : ℕ) (d : List ℕ) (size : ℕ) (le : off ≤ size)
    (fits : length d + size ≤ length bytes) where
  take-result :
      take (length d + size) (result_bytes bytes off d size)
      ≡ take off (take size bytes) ++ (d ++ drop off (take size bytes))
  take-result = elim (Bool-cases (size - off == 0)) [
    | inr inside ↦ rw inside (take-inserted bytes off d size le fits)
    | inl at_end ↦
        let e : off ≡ size = ground arith in
        let all : take off (take size bytes) ≡ take size bytes =
          take_all off (take size bytes) (omega (arith, length-take size bytes)) in
        let none_left : drop off (take size bytes) ≡ [] =
          drop_all off (take size bytes) (omega (arith, length-take size bytes)) in
        rw (at_end, all, none_left, append-nil d)
          (take-write bytes d size (length d) refl (omega arith))
  ]

  length-result : length (result_bytes bytes off d size) ≡ length bytes
  length-result = elim (Bool-cases (size - off == 0)) [
    | inl at_end ↦ rw at_end (length-write bytes d size (length d) refl (omega arith))
    | inr inside ↦
        let n = length d in
        let first = take off bytes ++ (take n d ++ drop (off + n) bytes) in
        let len = length-write bytes d off n refl (omega arith) in
        let saved : length (take (size - off) (drop off bytes)) ≡ size - off =
          omega (arith, length-take (size - off) (drop off bytes), length-drop off bytes) in
        rw inside (
          length-write first (take (size - off) (drop off bytes)) (off + n) (size - off)
            (omega arith) (omega arith)
          ∙ len)
  ]

-- What an insertion that shows `shown` afterwards gives.
pub record Inserts (h : Heap) (p n : ℕ) (b : ByteBuffer) (shown : List ℕ)
    (r : (ℕ × ByteBuffer) × Heap) : Type 0 where
  pub returns : r.0.0 ≡ n
  pub valid : IsValid r.1 r.0.1
  pub shows : contents r.1 r.0.1 ≡ shown
  pub keeps : Keeps h p r.1

module _ (h : Heap) (b : ByteBuffer) (v : IsValid h b) (memory : (x : ℕ) → h.grants x ≡ true)
    (d : List ℕ) (off : ℕ) (le : off ≤ b.size) where
  abbrev n : ℕ
  n = length d

  module _ (q : ℕ) (h' : Heap)
      (e : Edits (Suits b.size (n + b.size) v.block.bytes) h v.address q h') where
    abbrev result : List ℕ
    result = result_bytes e.bytes off d b.size

    -- The request for the block that saves the bytes behind the offset may have been made.
    abbrev heap_after : Heap
    heap_after =
        with_bytes (record h' { next = if b.size - off == 0 then h'.next else h'.next + 1 }) q
          result

    make_room_done :
        make_room d n off b (some q) h'
        ≡ ok
            ((n, record { buf = some q; size = n + b.size; capacity = length e.bytes }), heap_after)
    unfolding make_room
    make_room_done = load-bind _ q h' e.mine ∙ elim (Bool-cases (b.size - off == 0)) [
      | inl at_end ↦ rw at_end (
          bind_ok (write_bytes e.bytes b.size d n) _ h'
            (write_bytes_within e.bytes d b.size n h' (omega arith) (omega (arith, e.good.0))))
      | inr inside ↦
          let g : h'.grants h'.next ≡ true = e.grants h'.next ∙ memory h'.next in
          let h'' : Heap = record h' { next = h'.next + 1 } in
          rw (inside, g)
            (bind_ok (shift_bytes e.bytes off d n b.size) _ h''
              (shift_bytes_within e.bytes off d b.size h'' le e.good.0))
    ]

  done_or_refused :
      (r : Option ℕ × Heap)
      → EditResult (Suits b.size (n + b.size) v.block.bytes) h v.address r
      → Returns
          (make_room d n off b r.0 r.1)
          (Inserts h v.address n b (take off (contents h b) ++ (d ++ drop off (contents h b))))
  done_or_refused (none, h') e =
      absurd (let g : true ≡ false = sym (memory h.next) ∙ e.refused in cc)
  done_or_refused (some q, h') e =
      let new = result q h' e in
      let same = length-result e.bytes off d b.size le e.good.0 in
      (
        _,
        make_room_done q h' e,
        record {
          returns = refl;
          valid = record {
            address = q;
            block = record { refs = 1; bytes = new };
            points = refl;
            at = ground arith;
            owned = omega arith;
            room = omega (arith, same);
            within = e.good.0;
            limit = omega (arith, same, e.good.1);
            fresh = λ x more.
                with_bytes-IsFresh _ h v.address q h' v.block v.at v.fresh e new x (ground arith);
          };
          shows =
              contents_at (heap_after q h' e) q (n + b.size) (length e.bytes)
                (record { refs = 1; bytes = new }) (ground arith)
              ∙ take-result e.bytes off d b.size le e.good.0
              ∙ ap (λ l. take off l ++ (d ++ drop off l)) (e.good.2 ∙ sym (contents_valid h b v));
          keeps = with_bytes-Keeps _ h v.address q h' v.block v.at v.fresh e new;
        },
      )

  -- Where memory is there, and text and data have fewer than 2 ^ 52 bytes together, `insert` of a text
  -- at an offset within the data of a valid buffer returns its length and shows the text between the bytes before the offset and those from it on. The buffer stays valid, and what
  -- other buffers show is not touched.
  pub insert-Inserts :
      length d + b.size < 2 ^ 52
      → Returns (insert (some d) (length d) off b h) (
          Inserts h v.address
            (length d)
            b
            (take off (contents h b) ++ (d ++ drop off (contents h b))))
  unfolding insert
  insert-Inserts small =
      let (r, run, post) =
        writable-Suits h b v (n + b.size) b.size small (omega arith) (omega arith) in
      let (res, inserted_run, w) = done_or_refused r post in
      let step : (writable (n + b.size) v.address b >>= make_room d n off b) h ≡ ok res =
        bind_ok (writable (n + b.size) v.address b) (make_room d n off b) h run ∙ inserted_run in
      let in_range : ltb b.size off ≡ false = ground arith in
      let no_wrap : leb (2 ^ 64) (n + b.size) ≡ false = ground arith in
      (res, rw (in_range, no_wrap) (on_block-some _ b.buf h v.points ∙ step), w)
