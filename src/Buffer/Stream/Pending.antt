-- ===== src/Buffer/Stream/Pending.antt =====
-- What a stream has not yet given out, and `read`.
use alias.Prelude.{
  ℕ, ◌+◌, ◌-◌, ◌^◌, ◌≤◌, ◌<◌, leb, if◌then◌else◌, ◌≡◌, inl, inr, true, false, List, none, some,
  length, take, drop, arith, Bool-cases, ◌∙◌, sym, ap, length-take, length-drop, take-take,
  take-drop, drop-drop,
}
use alias.Outcome.{ok}
use alias.Buffer.Heap.{Heap, on_block-some, load-bind, bind_ok}
use alias.Buffer.ByteBuffer.{ByteBuffer}
use alias.Buffer.ByteBuffer.Write
use alias.Buffer.ByteBuffer.Write.{
  contents, Written, Writes-Written, set-Writes, append-Writes, contents_valid, set_zero,
}
use alias.Buffer.Stream.{BufferStream, wrap, bytes_at, read}

-- A stream over the buffer `b`.
abbrev pub over : ByteBuffer → ℕ → ℕ → BufferStream
over b rpos wpos = record { buffer = some b; rpos = rpos; wpos = wpos }

-- It is written up to the end of the data and read up to a place before.
pub record IsValid (h : Heap) (b : ByteBuffer) (rpos wpos : ℕ) : Type 0 where
  pub valid : Write.IsValid h b
  pub written : wpos ≡ b.size
  pub ahead : rpos ≤ wpos
  pub small : b.capacity < 2 ^ 31

-- The bytes still to be read.
abbrev pub pending : Heap → ByteBuffer → ℕ → List ℕ
pending h b rpos = drop rpos (contents h b)

module _ (h : Heap) (b : ByteBuffer) (v : Write.IsValid h b) where
  pub length-contents : length (contents h b) ≡ b.size
  length-contents =
      rw (contents_valid h b v) (omega (arith, length-take b.size v.block.bytes, v.within, v.room))

  pub bytes_at_lem :
      (off n : ℕ) → off + n ≤ b.size → bytes_at off n b h ≡ ok (take n (drop off (contents h b)), h)
  unfolding bytes_at
  bytes_at_lem off n le =
      let fits : leb (off + n) (length v.block.bytes) ≡ true = ground (arith, v.within, v.room) in
      let same : take n (drop off v.block.bytes) ≡ take n (drop off (contents h b)) =
        take-drop n off v.block.bytes
        ∙ ap (drop off) (sym (take-take (off + n) b.size v.block.bytes le))
        ∙ sym (take-drop n off (take b.size v.block.bytes))
        ∙ ap (λ l. take n (drop off l)) (sym (contents_valid h b v)) in
      on_block-some _ b.buf h v.points ∙ load-bind _ v.address h v.at ∙ rw fits (rw same)

-- How many bytes a read of `n` takes off the queue.
abbrev pub taken : ℕ → List ℕ → ℕ
taken n queue = if leb n (length queue) then n else 0

-- A read of fewer than 2 ^ 31 bytes from a valid stream returns the next `n` bytes of the queue and
-- takes them off; where there are fewer, it returns nothing and changes nothing. The stream stays valid.
pub read-pending :
    (h : Heap) (b : ByteBuffer) (rpos wpos n : ℕ)
    → IsValid h b rpos wpos
    → n < 2 ^ 31
    → (read n (over b rpos wpos) h
        ≡ ok (
          (
            (if leb n (length (pending h b rpos)) then some (take n (pending h b rpos)) else none),
            over b (rpos + taken n (pending h b rpos)) wpos,
          ),
          h,
        ))
      × IsValid h b (rpos + taken n (pending h b rpos)) wpos
      × (pending h b (rpos + taken n (pending h b rpos))
          ≡ drop (taken n (pending h b rpos)) (pending h b rpos))
unfolding read
read-pending h b rpos wpos n v small =
    let len : length (pending h b rpos) ≡ b.size - rpos =
      omega (arith, length-drop rpos (contents h b), length-contents h b v.valid) in
    let fit : wrap (rpos + n) ≡ rpos + n =
      omega (arith, v.written, v.ahead, v.valid.within, v.small) in
    elim (Bool-cases (leb n (length (pending h b rpos)))) [
      | inl enough ↦
          let le : rpos + n ≤ b.size = ground (arith, v.written, v.ahead) in
          let test : leb (rpos + n) wpos ≡ true = ground (arith, v.written) in
          (
            rw (fit, test, enough)
                (bind_ok (bytes_at rpos n b) _ h (bytes_at_lem h b v.valid rpos n le)),
            rw enough (record {
              valid = v.valid;
              written = v.written;
              ahead = omega (arith, v.written);
              small = v.small;
            }),
            rw enough (sym (drop-drop n rpos (contents h b))),
          )
      | inr few ↦
          let test : leb (rpos + n) wpos ≡ false = ground (arith, v.written, v.ahead) in
          let none_taken : rpos + 0 ≡ rpos = omega arith in
          (rw (fit, test, few, none_taken), rw (few, none_taken) v, rw (few, none_taken))
    ]
