-- ===== src/String8/Edit/Reverse.antt =====
-- `reverse`.
use alias.Prelude.{
  ℕ, zero, suc, ◌+◌, ◌≤◌, ◌<◌, ◌==◌, ◌≡◌, refl, false, List, [], ◌∷◌, ◌++◌, some, length, replicate,
  get_or, take, drop, arith, ◌∙◌, sym, ap, length-append, length-replicate, take_all, append_assoc,
  take-append_eq, drop-append_eq, drop-drop,
}
use mathlib.Core.List
use mathlib.Core.Path.{subst}
use alias.Outcome.{ok, Returns}
use alias.Buffer.Heap.{Heap, bind_ok, null_or-some}
use alias.Buffer.ByteBuffer.{write_bytes}
use alias.Buffer.ByteBuffer.Write.{with_bytes, write_bytes_within}
use alias.CText.{read_text, read_text-nul}
use alias.String8.{String8, new_text, detach, size, clear, bytes_of, text_of, put_bytes}
use alias.String8.Memory.{
  Holds, IsGranting, Added, size_lem, bytes_of_lem, bytes_of_block, put_bytes_lem,
}
use alias.String8.Blocks.{detach_sole}
use alias.String8.Fresh.{new_chars-Added, write-Added, Added-IsFresh, Added-kept}
use alias.String8.Edit.{pointer_of, back_loop, reverse}

take-suc : (k : ℕ) (t : List ℕ) → k < length t → take (suc k) t ≡ take k t ++ get_or t k 0 ∷ []
take-suc k [] less = absurd (omega arith)
take-suc zero (x ∷ xs) less = refl
take-suc (suc k) (x ∷ xs) less = rw (take-suc k xs (omega arith))

-- The loop puts the first `k` characters, last one first, behind the `i` that are done.
back_loop_lem :
    (t : List ℕ) (k i : ℕ) (done left : List ℕ) (h : Heap)
    → k ≤ length t
    → length done ≡ i
    → k ≤ length left
    → back_loop t k i (done ++ left) h ≡ ok (done ++ (List.reverse (take k t) ++ drop k left), h)
unfolding back_loop
back_loop_lem t zero i done left h le len room = refl
back_loop_lem t (suc k) i done [] h le len room = absurd (omega arith)
back_loop_lem t (suc k) i done (y ∷ left) h le len room =
    let c = get_or t k 0 in
    bind_ok (write_bytes (done ++ y ∷ left) i (c ∷ []) 1) _ h (
      write_bytes_within (done ++ y ∷ left) (c ∷ []) i 1 h (omega arith)
        (omega (arith, length-append done (y ∷ left))))
    ∙ ap (λ bs. back_loop t k (i + 1) bs h) one_written
    ∙ back_loop_lem t k (i + 1) (done ++ c ∷ []) left h (omega arith)
        (omega (arith, length-append done (c ∷ []))) (omega arith)
    ∙ ap (λ bs. ok (bs, h)) all_written
  where
    one_written :
        take i (done ++ y ∷ left) ++ (get_or t k 0 ∷ drop (i + 1) (done ++ y ∷ left))
        ≡ (done ++ get_or t k 0 ∷ []) ++ left
    one_written =
        rw
          (
            take-append_eq i done (y ∷ left) len,
            ← drop-drop 1 i (done ++ y ∷ left),
            drop-append_eq i done (y ∷ left) len,
          )
          (sym (append_assoc done (get_or t k 0 ∷ []) left))

    all_written :
        (done ++ get_or t k 0 ∷ []) ++ (List.reverse (take k t) ++ drop k left)
        ≡ done ++ (List.reverse (take (suc k) t) ++ drop k left)
    all_written =
        rw (take-suc k t (omega arith), List.reverse-append (take k t) (get_or t k 0 ∷ []))
          (append_assoc done (get_or t k 0 ∷ []) (List.reverse (take k t) ++ drop k left))

module _ (h : Heap) (s : String8) (refs : ℕ) (text rest : List ℕ) (v : Holds h s refs text rest)
    (granting : IsGranting h) (pos : 0 < length text) where
  -- The copy of the text, and then its cleared block.
  abbrev ret : String8
  ret = record { str = some h.next; capacity = length text }

  copied :
      (h' : Heap) × (new_text (some (text ++ 0 ∷ rest)) h ≡ ok (ret, h'))
      × Added (text ++ 0 ∷ []) h h.next h'
  unfolding new_text
  copied =
      let (h', run, added) =
        new_chars-Added (text ++ 0 ∷ rest) (length text) h pos (omega (arith, v.room, v.limit))
          (omega (arith, length-append text (0 ∷ rest))) (granting h.next) in
      (
        h',
        bind_ok (read_text (text ++ 0 ∷ rest)) _ h (read_text-nul text rest h v.plain) ∙ run,
        subst (λ t. Added (t ++ 0 ∷ []) h h.next h')
            (take-append_eq (length text) text (0 ∷ rest) refl) added,
      )

  blank : List ℕ
  blank = replicate (length text) 0 ++ 0 ∷ []

  cleared :
      (h' : Heap)
      → Added (text ++ 0 ∷ []) h h.next h'
      → clear ret h' ≡ ok (ret, with_bytes h' h.next blank)
  unfolding clear blank
  cleared h' added =
      let own : Holds h' ret 1 text [] = record {
        address = h.next;
        points = refl;
        at = added.mine;
        room = omega arith;
        plain = v.plain;
        limit = omega (arith, v.room, v.limit);
        fresh = Added-IsFresh _ h h.next h' v.fresh added;
      } in
      bind_ok (detach ret) _ h' (detach_sole h' ret text [] own)
      ∙ bind_ok (bytes_of ret) _ h' (bytes_of_lem h' ret 1 text [] own)
      ∙ bind_ok (read_text (text ++ 0 ∷ [])) _ h' (read_text-nul text [] h' v.plain)
      ∙ rw (drop-append_eq (length text) text (0 ∷ []) refl) (
          bind_ok (put_bytes ret (replicate (length text) 0 ++ 0 ∷ [])) _ h'
            (put_bytes_lem h' ret h.next _ (replicate (length text) 0 ++ 0 ∷ []) refl added.mine))

  turned :
      (h' : Heap) → back_loop text (length text) 0 blank h' ≡ ok (List.reverse text ++ 0 ∷ [], h')
  unfolding blank
  turned h' =
      back_loop_lem text (length text) 0 [] (replicate (length text) 0 ++ 0 ∷ []) h' (omega arith)
        refl
        (omega (
          arith,
          length-append {A = ℕ} (replicate (length text) 0) (0 ∷ []),
          length-replicate {A = ℕ} (length text) 0,
        ))
      ∙ rw (
        take_all (length text) text (omega arith),
        drop-append_eq {A = ℕ} (length text) (replicate (length text) 0) (0 ∷ [])
            (length-replicate {A = ℕ} (length text) 0),
      )

  -- `reverse` of a string with a text: a new string, whose block is the only new one and holds the text
  -- backwards. All other blocks are as they were. Requests for memory are met.
  pub reverse-Turns : Returns (reverse s h) λ r.
      (r.0 ≡ record { str = some h.next; capacity = length text })
      × Added (List.reverse text ++ 0 ∷ []) h h.next r.1
  unfolding reverse pointer_of text_of
  reverse-Turns =
      let (h1, run, added) = copied in
      let h2 = with_bytes h1 h.next blank in
      let added2 = write-Added _ blank h h.next h1 added in
      let kept = Added-kept _ h v.address h.next h2 v.at v.fresh added2 in
      let not_empty : (length text == 0) ≡ false = ground arith in
      (
        (ret, with_bytes h2 h.next (List.reverse text ++ 0 ∷ [])),
        bind_ok (size s) _ h (size_lem h s refs text rest v)
            ∙ rw not_empty (
                bind_ok (pointer_of s) _ h pointer
                ∙ bind_ok (new_text (some (text ++ 0 ∷ rest))) _ h run
                ∙ bind_ok (clear ret) _ h1 (cleared h1 added)
                ∙ bind_ok (bytes_of ret) _ h2 (bytes_of_block h2 ret h.next _ refl added2.mine)
                ∙ bind_ok (text_of s) _ h2 (
                    bind_ok (bytes_of s) _ h2 (bytes_of_block h2 s v.address _ v.points kept)
                    ∙ read_text-nul text rest h2 v.plain)
                ∙ bind_ok (back_loop text (length text) 0 blank) _ h2 (turned h2)
                ∙ bind_ok (put_bytes ret (List.reverse text ++ 0 ∷ [])) _ h2
                    (put_bytes_lem h2 ret h.next _ (List.reverse text ++ 0 ∷ []) refl added2.mine)),
        (refl, write-Added _ (List.reverse text ++ 0 ∷ []) h h.next h2 added2),
      )
    where
      pointer : pointer_of s h ≡ ok (some (text ++ 0 ∷ rest), h)
      pointer =
          null_or-some _ _ s.str h v.points
          ∙ bind_ok (bytes_of s) _ h (bytes_of_lem h s refs text rest v)
