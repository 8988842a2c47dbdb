-- ===== src/String8/Reuse.antt =====
-- `append` to a string that shows nothing but has a block of old characters or of other owners.
use alias.Prelude.{
  ℕ, ◌+◌, ◌-◌, ◌≤◌, ◌<◌, ◌==◌, ltb, min, ◌≡◌, ◌≢◌, refl, false, List, [], ◌∷◌, ◌++◌, none, some,
  length, take, drop, arith, Bool-cases, inl, inr, ◌∙◌, ap, length-append, take-append_eq, lt→ltb,
  length-take, length-drop,
}
use alias.Outcome.{ok, crash, Returns}
use alias.Buffer.Heap.{Block, Heap, ◌>>=◌, bind_ok, null_or-some, load-bind}
use alias.Buffer.ByteBuffer.Write.{with_bytes}
use alias.CText.{IsPlain, read_text, read_text-nul}
use alias.String8.{
  String8, new_chars, detach, release, size, text_of, bytes_of, put_bytes, clear, write_at, set_to,
  swap_text, write_ended, append_room, append, append_char,
}
use alias.String8.Memory.{Holds, IsGranting, bytes_of_block, bytes_of_lem, size_lem, put_bytes_lem}
use alias.String8.Blocks.{detach_sole}
use alias.String8.Fresh.{freed, new_chars-Added, release_lem, Added-kept, Added-Edits, below_next}
use alias.String8.Writes.{write_behind, write_at_beyond}

-- A string whose block holds `d`, the NUL and nothing more.
module _ (h : Heap) (s : String8) (p : ℕ) (d : List ℕ) (points : s.str ≡ some p)
    (at : h.cell p ≡ some (record { refs = 1; bytes = d ++ 0 ∷ [] })) (plain : IsPlain d) where
  tight_size : size s h ≡ ok (length d, h)
  unfolding size text_of
  tight_size =
      null_or-some _ _ s.str h points
      ∙ bind_ok (text_of s) _ h
          (bind_ok (bytes_of s) _ h (bytes_of_block h s p _ points at) ∙ read_text-nul d [] h plain)

  tight_detach : detach s h ≡ ok (s, h)
  unfolding detach
  tight_detach = null_or-some _ _ s.str h points ∙ load-bind _ p h at

  -- Characters behind the text do not fit with their NUL.
  tight_write :
      (chars : List ℕ) (k : ℕ)
      → 0 < k
      → k ≤ length chars
      → write_ended s (length d) chars k h ≡ crash
  unfolding write_ended
  tight_write chars k pos fits = elim (Bool-cases (k == 1)) [
    | inl one ↦
        bind_ok (write_at s (length d) chars k) _ h
          (write_behind h s p d (0 ∷ []) chars (length d) k points at refl fits (ground arith))
        ∙ write_at_beyond (with_bytes h p (d ++ (take k chars ++ drop k (0 ∷ [])))) s p
            (record { refs = 1; bytes = d ++ (take k chars ++ drop k (0 ∷ [])) }) (0 ∷ [])
            (k + length d) 1 points (ground arith) (ground (arith, full))
    | inr more ↦ rw (
      write_at_beyond h s p (record { refs = 1; bytes = d ++ 0 ∷ [] }) chars (length d) k points at
          (ground (arith, length-append d (0 ∷ []))),
      ◌>>=◌,
    )
  ]
    where
      full : length (d ++ (take k chars ++ drop k (0 ∷ []))) ≡ length d + (k + (1 - k))
      full = omega (
        arith,
        length-append d (take k chars ++ drop k (0 ∷ [])),
        length-append (take k chars) (drop k (0 ∷ [])),
        length-take k chars,
        length-drop {A = ℕ} k (0 ∷ []),
      )

  tight_append :
      (e after : List ℕ)
      → IsPlain e
      → 0 < length d
      → 0 < length e
      → length e + length d < s.capacity
      → append (some (e ++ 0 ∷ after)) (length e) s h ≡ crash
  unfolding append append_room
  tight_append e after plain_e some_text pos less =
      let not_none : (length e == 0) ≡ false = ground arith in
      let not_empty : (length d == 0) ≡ false = ground arith in
      let whole : min (length e) (length e) ≡ length e = omega arith in
      rw not_none (
        bind_ok (size s) _ h tight_size
        ∙ rw not_empty (
            bind_ok (read_text (e ++ 0 ∷ after)) _ h (read_text-nul e after h plain_e)
            ∙ rw (whole, not_none, lt→ltb (length e + length d) s.capacity less)
                (bind_ok (detach s) _ h tight_detach
                  ∙ rw (
                    tight_write (e ++ 0 ∷ after) (length e) pos
                        (omega (arith, length-append e (0 ∷ after))),
                    ◌>>=◌,
                  ))))

-- A string of an empty text in a block that other strings own as well.
module _ (h : Heap) (s : String8) (refs : ℕ) (rest : List ℕ) (v : Holds h s refs [] rest)
    (granting : IsGranting h) (d after : List ℕ) (plain : IsPlain d) (pos : 0 < length d)
    (small : length d ≤ s.capacity) (others : refs ≢ 1) where
  swap_run :
      (h' h'' : Heap)
      → new_chars (some (d ++ 0 ∷ after)) (length d) h
        ≡ ok (record { str = some h.next; capacity = length d }, h')
      → release s h' ≡ ok (record { str = none; capacity = 0 }, h'')
      → append (some (d ++ 0 ∷ after)) (length d) s h
        ≡ ok ((some 0, record s { str = some h.next }), h'')
  unfolding append set_to swap_text
  swap_run h' h'' run gone =
      let chars = d ++ 0 ∷ after in
      let not_none : (length d == 0) ≡ false = ground arith in
      let whole : min (length d) (length d) ≡ length d = omega arith in
      let enough : ltb s.capacity (length d) ≡ false = ground arith in
      let shared : (refs == 1) ≡ false = ground arith in
      rw not_none (
        bind_ok (size s) _ h (size_lem h s refs [] rest v)
        ∙ bind_ok (read_text chars) _ h (read_text-nul d after h plain)
        ∙ null_or-some _ _ s.str h v.points
        ∙ rw (whole, enough)
            (load-bind _ v.address h v.at
              ∙ rw shared (
                  bind_ok (new_chars (some chars) (length d)) _ h run
                  ∙ bind_ok (release s) _ h' gone)))

  -- The block is a new one of just the text, and the capacity is the old one.
  swapped :
      (h' : Heap) × (append (some (d ++ 0 ∷ after)) (length d) s h
        ≡ ok ((some 0, record s { str = some h.next }), h'))
      × (h'.cell h.next ≡ some (record { refs = 1; bytes = d ++ 0 ∷ [] }))
  swapped =
      let b : Block = record { refs = refs; bytes = 0 ∷ rest } in
      let (h', run, added) =
        new_chars-Added (d ++ 0 ∷ after) (length d) h pos (omega (arith, v.limit))
          (omega (arith, length-append d (0 ∷ after))) (granting h.next) in
      let e = Added-Edits _ h v.address h.next h' b v.at v.fresh added in
      let same = take-append_eq (length d) d (0 ∷ after) refl in
      (
        freed h' v.address b,
        swap_run h' (freed h' v.address b) run (
            release_lem h' s v.address b v.points
              (Added-kept _ h v.address h.next h' v.at v.fresh added)),
        e.mine
            ∙ ap (λ bs. some (record { refs = 1; bytes = bs }))
                (e.good ∙ ap (λ t. t ++ 0 ∷ []) same),
      )

  -- `append` to a string that shows nothing and shares its block takes a new block that is just large
  -- enough, and keeps the old capacity. A second `append` that fits this capacity writes past the end
  -- of the block. Requests for memory are met, and both texts are not empty.
  pub append-overflow :
      (e behind : List ℕ)
      → IsPlain e
      → 0 < length e
      → length e + length d < s.capacity
      → (append (some (d ++ 0 ∷ after)) (length d) s
            >>= (λ r. append (some (e ++ 0 ∷ behind)) (length e) (r.1)))
          h
        ≡ crash
  append-overflow e behind plain_e pos_e less =
      let (h', run, at) = swapped in
      bind_ok (append (some (d ++ 0 ∷ after)) (length d) s) _ h run
      ∙ tight_append h' (record s { str = some h.next }) h.next d refl at plain e behind plain_e pos
          pos_e less

-- `append` of one character to a string of its own block that shows nothing: the character stands in
-- front of the old characters, which show again.
module _ (h : Heap) (s : String8) (t z : List ℕ) (v : Holds h s 1 [] (t ++ 0 ∷ z))
    (plain : IsPlain t) (x : ℕ) (pos : 0 < x) where
  abbrev cleared : Heap
  cleared = with_bytes h v.address (0 ∷ (t ++ 0 ∷ z))

  overlaid : clear s h ≡ ok (s, cleared)
  unfolding clear
  overlaid =
      bind_ok (detach s) _ h (detach_sole h s [] (t ++ 0 ∷ z) v)
      ∙ bind_ok (bytes_of s) _ h (bytes_of_lem h s 1 [] (t ++ 0 ∷ z) v)
      ∙ bind_ok (read_text (0 ∷ (t ++ 0 ∷ z))) _ h (read_text-nul [] (t ++ 0 ∷ z) h tt)
      ∙ bind_ok (put_bytes s (0 ∷ (t ++ 0 ∷ z))) _ h
          (put_bytes_lem h s v.address _ (0 ∷ (t ++ 0 ∷ z)) v.points v.at)

  pub append_char-Revives :
      Returns (append_char x s h) λ r. (r.0.0 ≡ some 1) × Holds r.1 r.0.1 1 (x ∷ t) z
  unfolding append_char append set_to
  append_char-Revives =
      let chars = x ∷ 0 ∷ [] in
      let enough : ltb s.capacity 1 ≡ false = ground (arith, v.room, length-append t (0 ∷ z)) in
      let below : v.address < h.next = below_next h v.address _ v.at v.fresh in
      (
        ((some 1, s), with_bytes cleared v.address (x ∷ (t ++ 0 ∷ z))),
        bind_ok (size s) _ h (size_lem h s 1 [] (t ++ 0 ∷ z) v)
            ∙ bind_ok (read_text chars) _ h (read_text-nul (x ∷ []) [] h (pos, tt))
            ∙ null_or-some _ _ s.str h v.points
            ∙ rw enough (
                load-bind _ v.address h v.at
                ∙ bind_ok (clear s) _ h overlaid
                ∙ bind_ok (write_at s 0 chars 1) _ cleared (
                    write_behind cleared s v.address [] (0 ∷ (t ++ 0 ∷ z)) chars 0 1 v.points
                      (ground arith) refl (omega arith) (omega arith))),
        (
          refl,
          record {
            address = v.address;
            points = v.points;
            at = ground arith;
            room = omega (arith, v.room, length-append t (0 ∷ z));
            plain = (pos, plain);
            limit = v.limit;
            fresh = λ y le. ground (arith, v.fresh y le, below);
          },
        ),
      )
