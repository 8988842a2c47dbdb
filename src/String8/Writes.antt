-- ===== src/String8/Writes.antt =====
-- Writes to a string of its own block.
use alias.Prelude.{
  ℕ, ◌+◌, ◌-◌, ◌≤◌, ◌<◌, ◌≡◌, refl, List, [], ◌∷◌, ◌++◌, some, length, take, drop, replicate, arith,
  ◌∙◌, ap, length-take, length-append, append_assoc, All-append, take-append_eq, drop-append_eq,
  length-drop, drop-drop, zero, suc,
}
use alias.Outcome.{ok, crash, Returns}
use alias.Buffer.Heap.{Block, Heap, ◌>>=◌, bind_ok, IsFresh}
use alias.Buffer.ByteBuffer.{write_bytes}
use alias.Buffer.ByteBuffer.Write.{with_bytes, write_bytes_within, write_bytes_beyond}
use alias.CText.{IsPlain}
use alias.String8.{String8, bytes_of, write_at, write_ended}
use alias.String8.Memory.{Gives, Gives-cell, bytes_of_block, put_bytes_lem, write-Edits}

-- The bytes after `n` of `chars` were written at `off`.
abbrev pub spliced : List ℕ → ℕ → List ℕ → ℕ → List ℕ
spliced bytes off chars n = take off bytes ++ (take n chars ++ drop (off + n) bytes)

pub write_at_lem :
    (h : Heap) (s : String8) (p : ℕ) (old chars : List ℕ) (off n : ℕ)
    → s.str ≡ some p
    → h.cell p ≡ some (record { refs = 1; bytes = old })
    → n ≤ length chars
    → off + n ≤ length old
    → write_at s off chars n h ≡ ok (tt, with_bytes h p (spliced old off chars n))
unfolding write_at
write_at_lem h s p old chars off n points at fits within =
    bind_ok (bytes_of s) _ h (bytes_of_block h s p _ points at)
    ∙ bind_ok (write_bytes old off chars n) _ h (write_bytes_within old chars off n h fits within)
    ∙ put_bytes_lem h s p old (spliced old off chars n) points at

-- A write past the end of the block.
pub write_at_beyond :
    (h : Heap) (s : String8) (p : ℕ) (b : Block) (chars : List ℕ) (off n : ℕ)
    → s.str ≡ some p
    → h.cell p ≡ some b
    → length b.bytes < off + n
    → write_at s off chars n h ≡ crash
unfolding write_at
write_at_beyond h s p b chars off n points at over =
    bind_ok (bytes_of s) _ h (bytes_of_block h s p b points at)
    ∙ rw (write_bytes_beyond b.bytes chars off n h over, ◌>>=◌)

-- A write behind `first`, in a block of the bytes `first ++ last`.
spliced_behind :
    (first last chars : List ℕ) (off n : ℕ)
    → length first ≡ off
    → spliced (first ++ last) off chars n ≡ first ++ (take n chars ++ drop n last)
spliced_behind first last chars off n len = rw (
  take-append_eq off first last len,
  ← drop-drop n off (first ++ last),
  drop-append_eq off first last len,
)

pub write_behind :
    (h : Heap) (s : String8) (p : ℕ) (first last chars : List ℕ) (off n : ℕ)
    → s.str ≡ some p
    → h.cell p ≡ some (record { refs = 1; bytes = first ++ last })
    → length first ≡ off
    → n ≤ length chars
    → n ≤ length last
    → write_at s off chars n h ≡ ok (tt, with_bytes h p (first ++ (take n chars ++ drop n last)))
write_behind h s p first last chars off n points at len fits room =
    write_at_lem h s p (first ++ last) chars off n points at fits
      (omega (arith, length-append first last))
    ∙ ap (λ bs. ok (tt, with_bytes h p bs)) (spliced_behind first last chars off n len)

pub drop-replicate : (n m a : ℕ) → drop n (replicate m a) ≡ replicate (m - n) a
drop-replicate zero m a = ap (λ k. replicate k a) (let e : m ≡ m - zero = omega arith in e)
drop-replicate (suc n) zero a =
    ap (λ k. replicate k a) (let e : zero ≡ zero - suc n = omega arith in e)
drop-replicate (suc n) (suc m) a =
    drop-replicate n m a
    ∙ ap (λ k. replicate k a) (let e : m - n ≡ suc m - suc n = omega arith in e)

pub length-both :
    (text chars : List ℕ) (k : ℕ)
    → k ≤ length chars
    → length (text ++ take k chars) ≡ k + length text
length-both text chars k fits =
    omega (arith, length-append text (take k chars), length-take k chars)

-- Two writes behind a text of a string of its own block: characters, and the NUL.
module _ (h : Heap) (p : ℕ) (old : Block) (at : h.cell p ≡ some old) (fresh : IsFresh h)
    (text rest : List ℕ) (s : String8) (h' : Heap) (g : Gives h p text rest s h') (chars : List ℕ)
    (k : ℕ) (fits : k ≤ length chars) (plain : IsPlain (take k chars)) where
  pub write_text :
      k + length text < s.capacity
      → Returns
          (write_ended s (length text) chars k h')
          λ r. Gives h p (text ++ take k chars) (drop 1 (drop k (0 ∷ rest))) s r.1
  unfolding write_ended
  write_text less =
      let first = text ++ (take k chars ++ drop k (0 ∷ rest)) in
      let both = (text ++ take k chars) ++ 0 ∷ drop 1 (drop k (0 ∷ rest)) in
      let len = length-append text (take k chars) in
      (
        (tt, with_bytes (with_bytes h' g.address first) g.address both),
        bind_ok (write_at s (length text) chars k) _ h' (
              write_behind h' s g.address text (0 ∷ rest) chars (length text) k g.points
                (Gives-cell h p text rest s h' g) refl fits (omega (arith, g.room)))
            ∙ write_behind (with_bytes h' g.address first) s g.address (text ++ take k chars)
                (drop k (0 ∷ rest)) (0 ∷ []) (k + length text) 1 g.points
                (ground (arith, append_assoc text (take k chars) (drop k (0 ∷ rest))))
                (length-both text chars k fits) (omega arith)
                (omega (arith, g.room, length-drop k (0 ∷ rest))),
        record {
          address = g.address;
          points = g.points;
          edits =
              write-Edits _ h p g.address (with_bytes h' g.address first) old at fresh
                (write-Edits _ h p g.address h' old at fresh g.edits first) both;
          room = omega (
            arith,
            length-both text chars k fits,
            g.room,
            length-drop 1 (drop k (0 ∷ rest)),
            length-drop k (0 ∷ rest),
          );
          plain = All-append (λ c. 0 < c) text (take k chars) g.plain plain;
          limit = g.limit;
        },
      )
