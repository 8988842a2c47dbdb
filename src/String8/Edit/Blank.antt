-- ===== src/String8/Edit/Blank.antt =====
-- `trim` of a string of nothing but the character that goes, and an `append` after it.
use alias.Prelude.{
  ℕ, zero, suc, ◌-◌, ◌<◌, ◌==◌, ◌≡◌, refl, true, List, [], ◌∷◌, ◌++◌, none, some, length, replicate,
  get_or, arith, ◌∙◌, length-append, length-replicate,
}
use alias.Outcome.{ok, Returns}
use alias.Buffer.Heap.{Heap, ◌>>=◌, bind_ok}
use alias.Buffer.ByteBuffer.Write.{with_bytes}
use alias.CText.{IsPlain}
use alias.String8.{String8, detach, text_of, write_at, append_char}
use alias.String8.Memory.{Holds, text_of_lem}
use alias.String8.Blocks.{detach_sole}
use alias.String8.Fresh.{below_next}
use alias.String8.Writes.{write_behind}
use alias.String8.Reuse.{append_char-Revives}
use alias.String8.Edit.{first_not, last_not, find_not_char, end_at, trim_span, trim}
use alias.String8.Edit.Spans.{get_or-replicate}

first_not-blank : (c n : ℕ) → first_not c (replicate n c) ≡ none
unfolding first_not
first_not-blank c zero = refl
first_not-blank c (suc n) = ground (arith, first_not-blank c n)

last_not-blank : (c n i : ℕ) → i < n → last_not c (replicate n c) i ≡ none
unfolding last_not
last_not-blank c n zero less = refl
last_not-blank c n (suc i) less =
    let skip : (get_or (replicate n c) (suc i) 0 == c) ≡ true =
      ground (arith, get_or-replicate n (suc i) c 0 less) in
    rw skip (last_not-blank c n i (omega arith))

IsPlain-replicate : (c n : ℕ) → 0 < c → IsPlain (replicate n c)
IsPlain-replicate c zero pos = tt
IsPlain-replicate c (suc n) pos = (pos, IsPlain-replicate c n pos)

module _ (h : Heap) (s : String8) (c n : ℕ) (rest : List ℕ)
    (v : Holds h s 1 (replicate (suc n) c) rest) (pos : 0 < c) where
  abbrev trimmed : Heap
  trimmed = with_bytes h v.address (0 ∷ (replicate n c ++ 0 ∷ rest))

  nothing_found : find_not_char c s h ≡ ok ((none, none), h)
  unfolding find_not_char
  nothing_found =
      let text = replicate (suc n) c in
      bind_ok (text_of s) _ h (text_of_lem h s 1 text rest v)
      ∙ rw (
        first_not-blank c (suc n),
        last_not-blank c (suc n) (length text - 1) (omega (arith, length-replicate n c)),
      )

  trim-blank : trim c s h ≡ ok (s, trimmed)
  unfolding trim trim_span end_at
  trim-blank =
      let text = replicate (suc n) c in
      bind_ok (detach s) _ h (detach_sole h s text rest v)
      ∙ bind_ok (find_not_char c s) _ h nothing_found
      ∙ bind_ok (write_at s 0 (0 ∷ []) 1) _ h (
          write_behind h s v.address [] (text ++ 0 ∷ rest) (0 ∷ []) 0 1 v.points v.at refl
            (omega arith) (omega arith))

  trimmed-Holds : Holds trimmed s 1 [] (replicate n c ++ 0 ∷ rest)
  trimmed-Holds =
      let below : v.address < h.next = below_next h v.address _ v.at v.fresh in
      record {
        address = v.address;
        points = v.points;
        at = ground arith;
        room = omega (arith, v.room, length-append (replicate n c) (0 ∷ rest));
        plain = tt;
        limit = v.limit;
        fresh = λ y le. ground (arith, v.fresh y le, below);
      }

  -- After `trim` has emptied a string of its own block that held `n + 1` times the character, `append`
  -- of one character brings `n` of them back behind it.
  pub trim-append_char :
      (x : ℕ)
      → 0 < x
      → Returns
          ((trim c s >>= append_char x) h)
          λ r. (r.0.0 ≡ some 1) × Holds r.1 r.0.1 1 (x ∷ replicate n c) rest
  trim-append_char x pos_x =
      let (r, run, post) =
        append_char-Revives trimmed s (replicate n c) rest trimmed-Holds (IsPlain-replicate c n pos)
          x pos_x in
      (r, bind_ok (trim c s) _ h trim-blank ∙ run, post)
