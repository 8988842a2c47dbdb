-- ===== src/String8/Edit/Trim.antt =====
-- `trim`, `trimLeft` and `trimRight` on texts with a character that is to stay.
use alias.Prelude.{
  ℕ, suc, ◌+◌, ◌-◌, ◌≤◌, ◌<◌, ◌==◌, ltb, leb, if◌then◌else◌, ◌≡◌, ◌≢◌, refl, true, false, List, [],
  ◌∷◌, ◌++◌, Option, none, some, length, take, drop, get_or, replicate, arith, Bool-cases, inl, inr,
  ◌∙◌, ap, length-append, length-replicate, All-take, All-drop, take-append, drop-append,
  length-drop, length-take, take-append_eq, drop-append_eq, append_assoc,
}
use mathlib.Core.Path.{subst}
use alias.Outcome.{ok, Returns}
use alias.Buffer.Heap.{Block, Heap, bind_ok, IsFresh}
use alias.Buffer.ByteBuffer.Write.{with_bytes}
use alias.CText.{IsPlain}
use alias.String8.{String8, detach, bytes_of, size, write_at}
use alias.String8.Memory.{
  Holds, IsGranting, Gives, Gives→Holds, Gives-cell, bytes_of_block, write-Edits, size_lem,
  text_of_lem,
}
use alias.String8.Blocks.{detach-Gives}
use alias.String8.Writes.{write_behind}
use alias.String8.Edit.{find_not_char, end_at, keep_span, past, trim_span, trim}
use alias.String8.Edit.Spans.{padded, found_span, find_not_char_lem, length-padded}

-- The moves within a block of its own.
module _ (h : Heap) (p : ℕ) (old : Block) (at : h.cell p ≡ some old) (fresh : IsFresh h)
    (text rest : List ℕ) (s : String8) (h' : Heap) (g : Gives h p text rest s h') where
  -- What lies behind the first `n` bytes and the NUL that follows them.
  abbrev behind : ℕ → List ℕ
  behind n = drop 1 (drop n (text ++ 0 ∷ rest))

  length-behind : (n : ℕ) → n ≤ length text → n + length (behind n) ≡ s.capacity
  length-behind n le = omega (
    arith,
    g.room,
    length-drop 1 (drop n (text ++ 0 ∷ rest)),
    length-drop n (text ++ 0 ∷ rest),
    length-append text (0 ∷ rest),
  )

  -- A block that starts with `kept` and goes on as before.
  ended_Gives :
      (kept : List ℕ) (n : ℕ)
      → length kept ≡ n
      → n ≤ length text
      → IsPlain kept
      → (bytes : List ℕ)
      → Gives h p kept
          (behind n)
          s
          (with_bytes (with_bytes h' g.address bytes) g.address (kept ++ 0 ∷ behind n))
  ended_Gives kept n len le plain bytes = record {
    address = g.address;
    points = g.points;
    edits =
        write-Edits _ h p g.address (with_bytes h' g.address bytes) old at fresh
          (write-Edits _ h p g.address h' old at fresh g.edits bytes) (kept ++ 0 ∷ behind n);
    room = omega (arith, length-behind n le);
    plain = plain;
    limit = g.limit;
  }

  pub keep_span_lem :
      (start n : ℕ)
      → start + n ≤ length text
      → Returns (keep_span s start n h') λ r. Gives h p (take n (drop start text)) (behind n) s r.1
  unfolding keep_span end_at
  keep_span_lem start n le =
      let bytes = text ++ 0 ∷ rest in
      let kept = take n (drop start text) in
      let len : length kept ≡ n =
        omega (arith, length-take n (drop start text), length-drop start text) in
      let moved = take n (drop start bytes) in
      let same : moved ≡ kept =
        ap (take n) (drop-append start text (0 ∷ rest) (omega arith))
        ∙ take-append n (drop start text) (0 ∷ rest) (omega (arith, length-drop start text)) in
      let long = length-append text (0 ∷ rest) in
      (
        (
          tt,
          with_bytes (with_bytes h' g.address (kept ++ drop n bytes)) g.address
              (kept ++ 0 ∷ behind n),
        ),
        bind_ok (bytes_of s) _ h'
              (bytes_of_block h' s g.address _ g.points (Gives-cell h p text rest s h' g))
            ∙ bind_ok (write_at s 0 (drop start bytes) n) _ h' (
                write_behind h' s g.address [] bytes (drop start bytes) 0 n g.points
                  (Gives-cell h p text rest s h' g) refl
                  (omega (arith, length-drop start bytes, long)) (omega (arith, long))
                ∙ ap (λ t. ok (tt, with_bytes h' g.address (t ++ drop n bytes))) same)
            ∙ write_behind (with_bytes h' g.address (kept ++ drop n bytes)) s g.address kept
                (drop n bytes) (0 ∷ []) n 1 g.points (ground arith) len (omega arith)
                (omega (arith, length-drop n bytes, long)),
        ended_Gives kept n len (omega arith)
            (All-take (λ c. 0 < c) n (drop start text) (All-drop (λ c. 0 < c) start text g.plain))
            (kept ++ drop n bytes),
      )

-- The part of a padded text that stays.
middle : (c i j : ℕ) (mid : List ℕ) → take (length mid) (drop i (padded c i mid j)) ≡ mid
middle c i j mid =
    ap (λ t. take (length mid) (drop i t)) (append_assoc (replicate i c) mid (replicate j c))
    ∙ ap (take (length mid))
        (drop-append_eq i (replicate i c) (mid ++ replicate j c) (length-replicate i c))
    ∙ take-append_eq (length mid) mid (replicate j c) refl

module _ (h : Heap) (s : String8) (refs c i j x : ℕ) (m rest : List ℕ)
    (v : Holds h s refs (padded c i (x ∷ m) j) rest) (granting : IsGranting h) (first : x ≢ c)
    (last : get_or (x ∷ m) (length m) 0 ≢ c) where
  abbrev text : List ℕ
  text = padded c i (x ∷ m) j

  -- What a trimming of `s` to `kept` gives.
  abbrev Trims : List ℕ → String8 × Heap → Type 0
  Trims kept r = (rest' : List ℕ) × Gives h v.address kept rest' r.0 r.1

  module _ (s' : String8) (h' : Heap) (g : Gives h v.address text rest s' h') where
    span_run :
        (e : Option ℕ) {r : Unit {0} × Heap}
        → i ≤ past e
        → past e ≤ length text
        → keep_span s' i (past e - i) h' ≡ ok r
        → trim_span s' (some i, e) h' ≡ ok r
    unfolding trim_span
    span_run e le within run =
        let own = Gives→Holds h v.address text rest s' h' g in
        let never : (past e == length text + 1) ≡ false = ground arith in
        let forward : leb i (past e) ≡ true = ground arith in
        bind_ok (size s') _ h' (size_lem h' s' 1 text rest own) ∙ elim (Bool-cases (i == 0)) [
          | inl z ↦ rw (z, never, forward) run
          | inr z ↦ rw (z, forward) run
        ]

    -- The end of `trim`, where the last character that `findNotChar` found is at `e`.
    span_Gives :
        (e : Option ℕ) (kept : List ℕ)
        → i ≤ past e
        → past e ≤ length text
        → take (past e - i) (drop i text) ≡ kept
        → Returns
            (trim_span s' (some i, e) h')
            λ r. (rest' : List ℕ) × Gives h v.address kept rest' s' r.1
    span_Gives e kept le within same =
        let (r, run, post) =
          keep_span_lem h v.address _ v.at v.fresh text rest s' h' g i (past e - i) (omega arith) in
        let left = drop 1 (drop (past e - i) (text ++ 0 ∷ rest)) in
        (
          r,
          span_run e le within run,
          (left, subst (λ t. Gives h v.address t left s' r.1) same post),
        )

    trim_span_lem : Returns (trim_span s' (found_span c i j x m first last) h') λ r.
        (rest' : List ℕ) × Gives h v.address
          (if ltb 0 (i + length m) then x ∷ m else [])
          rest'
          s'
          r.1
    unfolding found_span
    trim_span_lem = elim (Bool-cases ((i + length m) == 0)) [
      | inl only ↦
          let none_left : ltb 0 (i + length m) ≡ false = ground arith in
          let z : 0 - i ≡ 0 = omega arith in
          rw (only, none_left)
            (span_Gives none [] (ground arith) (omega arith) (ap (λ n. take n (drop i text)) z))
      | inr more ↦
          let some_left : ltb 0 (i + length m) ≡ true = ground arith in
          let n : i + length m + 1 - i ≡ suc (length m) = omega arith in
          rw (more, some_left)
            (span_Gives (some (i + length m)) (x ∷ m) (omega arith)
              (omega (arith, length-padded c i j (x ∷ m)))
              (ap (λ k. take k (drop i text)) n ∙ middle c i j (x ∷ m)))
    ]

  -- `trim` of a string whose text has characters other than `c`: the characters `c` at both ends go,
  -- but where the one other character is the first of the text, all of it goes. The string has a block
  -- of its own afterwards, and no other block, and no block that other strings own, changes a byte.
  pub trim-Trims : Returns (trim c s h) (Trims (if ltb 0 (i + length m) then x ∷ m else []))
  unfolding trim
  trim-Trims =
      let ((s', h'), run, (g, _)) = detach-Gives h s refs text rest v granting in
      let shown = text_of_lem h' s' 1 text rest (Gives→Holds h v.address text rest s' h' g) in
      let ((_, h''), run', (rest', g')) = trim_span_lem s' h' g in
      (
        (s', h''),
        bind_ok (detach s) _ h run
            ∙ bind_ok (find_not_char c s') _ h' (find_not_char_lem c i j x m first last h' s' shown)
            ∙ bind_ok (trim_span s' (found_span c i j x m first last)) _ h' run',
        (rest', g'),
      )
