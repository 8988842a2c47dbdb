-- ===== src/Buffer/Stream/Integers.antt =====
-- Integers that go through a stream.
use native.Mathlib.Nat.{pow-suc}
use alias.Prelude.{
  ℕ, zero, suc, ◌+◌, ◌-◌, ◌/◌, ◌^◌, ◌≤◌, ◌<◌, leb, ◌≡◌, refl, ◌≢◌, sym, ap, ◌∙◌, true, List, [],
  ◌++◌, some, length, take, take_all, drop_all, length-drop, arith,
}
use alias.Outcome.{ok, Returns}
use alias.Buffer.Heap.{Heap, ◌>>=◌, bind_ok}
use alias.Buffer.ByteBuffer.{ByteBuffer}
use alias.Buffer.ByteBuffer.Write
use alias.Buffer.ByteBuffer.Write.{contents}
use alias.Buffer.Stream.{
  BufferStream, wrap, bytes_at, read, write, to_bytes, of_bytes, put_int, get_int,
}
use alias.Buffer.Stream.Pending.{over, IsValid, pending, length-contents, bytes_at_lem}
use alias.Buffer.Stream.Queue.{write-Queues}

pub length-to_bytes : (w x : ℕ) → length (to_bytes w x) ≡ w
unfolding to_bytes
length-to_bytes zero x = refl
length-to_bytes (suc w) x = omega (arith, length-to_bytes w (x / 256))

-- The bytes of an integer give it back.
pub of_bytes-to_bytes : (w x : ℕ) → x < 256 ^ w → of_bytes (to_bytes w x) ≡ x
unfolding to_bytes of_bytes
of_bytes-to_bytes zero x bound = omega arith
of_bytes-to_bytes (suc w) x bound =
    omega (arith, of_bytes-to_bytes w (x / 256) (omega (arith, pow-suc 256 w)))

-- Reading all that is left.
read_all :
    (h : Heap) (b : ByteBuffer) (v : Write.IsValid h b) (rpos : ℕ) (d : List ℕ)
    → rpos ≤ b.size
    → b.size < 2 ^ 31
    → pending h b rpos ≡ d
    → read (length d) (over b rpos b.size) h
      ≡ ok ((some d, over b (wrap (rpos + length d)) b.size), h)
unfolding read
read_all h b v rpos d ahead small all =
    let len : length d ≡ b.size - rpos =
      omega (arith, ap length all, length-drop rpos (contents h b), length-contents h b v) in
    let test : leb (wrap (rpos + length d)) b.size ≡ true = ground arith in
    let got : take (length d) (pending h b rpos) ≡ d =
      rw all (take_all (length d) d (omega arith)) in
    rw test (
      bind_ok (bytes_at rpos (length d) b) _ h (bytes_at_lem h b v rpos (length d) (omega arith))
      ∙ rw got)

get_read :
    (w : ℕ) (s : BufferStream) (h : Heap) {bs : List ℕ} {s' : BufferStream} {h' : Heap}
    → read w s h ≡ ok ((some bs, s'), h')
    → get_int w s h ≡ ok ((of_bytes bs, s'), h')
unfolding get_int
get_read w s h e = bind_ok (read w s) _ h e

-- From a valid stream of which all has been read, and with all the memory that it asks for, `>>` reads
-- the integer that `<<` has just written. The integer fits its type of `w` bytes; it and the data are
-- fewer than 2 ^ 31 bytes, and if the positions are not at the start, it fits behind the data.
pub get_int-put_int :
    (h : Heap) (b : ByteBuffer) (rpos wpos w x : ℕ)
    → IsValid h b rpos wpos
    → rpos ≡ b.size
    → ((a : ℕ) → h.grants a ≡ true)
    → 0 < w
    → x < 256 ^ w
    → w + b.size < 2 ^ 31
    → (rpos ≢ 0 → w + b.size ≤ b.capacity)
    → Returns ((put_int w x (over b rpos wpos) >>= get_int w) h) λ r. r.0.0 ≡ x
unfolding put_int
get_int-put_int h b rpos wpos w x v all memory pos bound room fits =
    let d = to_bytes w x in
    let len : length d ≡ w = length-to_bytes w x in
    let (r, run, q) =
      write-Queues d h b memory (omega arith) rpos wpos v (omega arith)
        (λ _ started. omega (arith, fits started)) in
    let nothing : pending h b rpos ≡ [] =
      drop_all rpos (contents h b) (omega (arith, length-contents h b v.valid)) in
    let only : pending r.1 q.after q.read_at ≡ d = q.queue ∙ ap (λ l. l ++ d) nothing in
    let wrote : write d w (over b rpos wpos) h ≡ ok r =
      ap (λ n. write d n (over b rpos wpos) h) (sym len) ∙ run in
    let back =
      get_read (length d) (over q.after q.read_at q.after.size) r.1
        (read_all r.1 q.after q.valid q.read_at d q.ahead q.small only) in
    (
      ((of_bytes d, over q.after (wrap (q.read_at + length d)) q.after.size), r.1),
      bind_ok (write d w (over b rpos wpos)) (get_int w) h wrote
          ∙ ap (λ n. get_int n r.0 r.1) (sym len)
          ∙ ap (λ s. get_int (length d) s r.1) q.stream
          ∙ back,
      of_bytes-to_bytes w x bound,
    )
