-- ===== src/String8/Append.antt =====
-- `append` and the operators over it, against the text.
use alias.Prelude.{
  ℕ, ◌+◌, ◌-◌, ◌≤◌, ◌<◌, ◌==◌, ltb, min, ◌≡◌, refl, inl, inr, ◌⊎◌, false, List, [], ◌∷◌, ◌++◌,
  Option, some, length, take, drop, replicate, arith, Bool-cases, ◌∙◌, sym, ap, lt→ltb, length-take,
  length-append, length-replicate, take_all, append_assoc, All-append, All-take, take-append_eq,
  suc, take-append, ltb→lt,
}
use mathlib.Core.Path.{subst}
use alias.Outcome.{ok, throws, Returns}
use alias.Buffer.Heap.{Heap, bind_ok}
use alias.Buffer.ByteBuffer.Write.{with_bytes}
use alias.CText.{read_text, IsPlain, read_text-nul}
use alias.String8.{
  String8, max_chars, default_size, get_buffer, detach, release, bytes_of, write_at, write_ended,
  append_room, append, size,
}
use alias.String8.Memory.{Holds, IsGranting, Gives, Added, bytes_of_block, size_lem}
use alias.String8.Blocks.{detach-Gives, get_buffer-Added}
use alias.String8.Fresh.{release_lem, write-Added, Added-Edits, Added-kept, freed}
use alias.String8.Writes.{write_behind, drop-replicate, length-both, write_text}

-- Both branches of `append_room`.
module _ (h : Heap) (s : String8) (refs : ℕ) (text rest : List ℕ) (v : Holds h s refs text rest)
    (granting : IsGranting h) (chars : List ℕ) (k : ℕ) (fits : k ≤ length chars)
    (plain : IsPlain (take k chars)) where
  -- What `append_room` gives: the number of characters, and a string of its own with the text longer.
  abbrev Longer : (Option ℕ × String8) × Heap → Type 0
  Longer r =
      (r.0.0 ≡ some k) × (rest' : List ℕ) × Gives h v.address (text ++ take k chars) rest' r.0.1 r.1

  within_room :
      k + length text < s.capacity → Returns (append_room chars k (length text) s h) Longer
  unfolding append_room
  within_room less =
      let ((s', h'), run, (g, capacity)) = detach-Gives h s refs text rest v granting in
      let ((_, h''), run', g') =
        write_text h v.address _ v.at v.fresh text rest s' h' g chars k fits plain
          (omega (arith, capacity)) in
      (
        ((some k, s'), h''),
        rw (lt→ltb (k + length text) s.capacity less)
            (bind_ok (detach s) _ h run ∙ bind_ok (write_ended s' (length text) chars k) _ h' run'),
        (refl, drop 1 (drop k (0 ∷ rest)), g'),
      )

  -- The old text is copied to the start of a cleared block.
  copied :
      (room : ℕ) (h' : Heap)
      → k + length text ≤ room
      → Added (replicate (room + 1) 0) h h.next h'
      → write_at
          (record { str = some h.next; capacity = room })
          0
          (text ++ 0 ∷ rest)
          (length text)
          h'
        ≡ ok (tt, with_bytes h' h.next (text ++ replicate (room + 1 - length text) 0))
  copied room h' fit added =
      write_behind h' (record { str = some h.next; capacity = room }) h.next []
        (replicate (room + 1) 0) (text ++ 0 ∷ rest) 0 (length text) refl added.mine refl
        (omega (arith, length-append text (0 ∷ rest)))
        (omega (arith, length-replicate {A = ℕ} (room + 1) 0))
      ∙ rw (
        take-append_eq (length text) text (0 ∷ rest) refl,
        drop-replicate (length text) (room + 1) 0,
      )

  -- The new characters behind it, with the NUL that was there.
  ended :
      (room : ℕ) (h' : Heap)
      → k + length text ≤ room
      → h'.cell h.next
        ≡ some (record { refs = 1; bytes = text ++ replicate (room + 1 - length text) 0 })
      → write_at (record { str = some h.next; capacity = room }) (length text) chars k h'
        ≡ ok (
          tt,
          with_bytes h' h.next
              ((text ++ take k chars) ++ 0 ∷ replicate (room - (k + length text)) 0),
        )
  ended room h' fit at =
      write_behind h' (record { str = some h.next; capacity = room }) h.next text
        (replicate (room + 1 - length text) 0) chars (length text) k refl at refl fits
        (omega (arith, length-replicate {A = ℕ} (room + 1 - length text) 0))
      ∙ rw (
        drop-replicate k (room + 1 - length text) 0,
        zeros,
        append_assoc text (take k chars) (0 ∷ replicate (room - (k + length text)) 0),
      )
    where
      zeros :
          replicate {A = ℕ} (room + 1 - length text - k) 0
          ≡ 0 ∷ replicate (room - (k + length text)) 0
      zeros =
          ap (λ m. replicate {A = ℕ} m 0)
            (let e : room + 1 - length text - k ≡ suc (room - (k + length text)) = omega arith in e)

  new_room :
      s.capacity ≤ k + length text
      → k + length text < max_chars
      → Returns (append_room chars k (length text) s h) Longer
  unfolding append_room
  new_room more small =
      let more_room : ltb (k + length text) s.capacity ≡ false = ground arith in
      let (room, h', run, fit, bound, added) =
        get_buffer-Added (k + length text) h small (granting h.next) in
      let tail = replicate (room - (k + length text)) 0 in
      let both = (text ++ take k chars) ++ 0 ∷ tail in
      let s' : String8 = record { str = some h.next; capacity = room } in
      let half = with_bytes h' h.next (text ++ replicate (room + 1 - length text) 0) in
      let final = with_bytes half h.next both in
      let added_half =
        write-Added _ (text ++ replicate (room + 1 - length text) 0) h h.next h' added in
      let added_both = write-Added _ both h h.next half added_half in
      (
        ((some k, s'), freed final v.address (record { refs = refs; bytes = text ++ 0 ∷ rest })),
        rw (more_room) (
            bind_ok (get_buffer (k + length text)) _ h run
            ∙ bind_ok (bytes_of s) _ h' (
                bytes_of_block h' s v.address _ v.points
                  (Added-kept _ h v.address h.next h' v.at v.fresh added))
            ∙ bind_ok (write_at s' 0 (text ++ 0 ∷ rest) (length text)) _ h'
                (copied room h' fit added)
            ∙ bind_ok (write_at s' (length text) chars k) _ half
                (ended room half fit added_half.mine)
            ∙ bind_ok (release s) _ final (
                release_lem final s v.address _ v.points
                  (Added-kept both h v.address h.next final v.at v.fresh added_both))),
        (
          refl,
          tail,
          record {
            address = h.next;
            points = refl;
            edits = Added-Edits both h v.address h.next final _ v.at v.fresh added_both;
            room = omega (
              arith,
              length-both text chars k fits,
              length-replicate {A = ℕ} (room - (k + length text)) 0,
            );
            plain = All-append (λ c. 0 < c) text (take k chars) v.plain plain;
            limit = bound;
          },
        ),
      )

append_room_throws :
    (h : Heap) (s : String8) (refs : ℕ) (text rest : List ℕ)
    → Holds h s refs text rest
    → (chars : List ℕ) (k : ℕ) → max_chars ≤ k + length text
    → append_room chars k (length text) s h ≡ throws
unfolding append_room get_buffer
append_room_throws h s refs text rest v chars k long =
    let no_room : ltb (k + length text) s.capacity ≡ false = ground (arith, v.limit) in
    let many : ltb (k + length text) default_size ≡ false = ground arith in
    let too_many : ltb (k + length text) max_chars ≡ false = ground arith in
    rw (no_room, many, too_many)

take-min : (n : ℕ) (d : List ℕ) → take (min n (length d)) d ≡ take n d
take-min n d = elim (Bool-cases (ltb n (length d))) [
  | inl less ↦ ap (λ k. take k d) (let e : min n (length d) ≡ n = ground arith in e)
  | inr more ↦
      let whole : length d ≤ n = ground arith in
      ap (λ k. take k d) (let e : min n (length d) ≡ length d = omega arith in e)
      ∙ (take_all (length d) d (omega arith) ∙ sym (take_all n d whole))
]

-- What `append` of `d` gives: the number of characters, and a string of its own with the text longer.
abbrev pub Appends : Heap → ℕ → List ℕ → List ℕ → (Option ℕ × String8) × Heap → Type 0
Appends h p text d r =
    (r.0.0 ≡ some (length d)) × (rest' : List ℕ) × Gives h p (text ++ d) rest' r.0.1 r.1

module _ (h : Heap) (s : String8) (refs : ℕ) (text rest : List ℕ) (v : Holds h s refs text rest)
    (more : 0 < length text) (d after : List ℕ) (plain : IsPlain d) (n : ℕ) (pos : 0 < n)
    (some_chars : 0 < length d) where
  append_start :
      append (some (d ++ 0 ∷ after)) n s h
      ≡ append_room (d ++ 0 ∷ after) (min n (length d)) (length text) s h
  unfolding append
  append_start =
      let not_none : (n == 0) ≡ false = ground arith in
      let not_empty : (length text == 0) ≡ false = ground arith in
      let not_short : (min n (length d) == 0) ≡ false = ground arith in
      rw not_none (
        bind_ok (size s) _ h (size_lem h s refs text rest v)
        ∙ rw not_empty (
            bind_ok (read_text (d ++ 0 ∷ after)) _ h (read_text-nul d after h plain)
            ∙ rw not_short))

  -- `append` of a text that is not empty, cut to `n` characters, to a string that is not empty: if
  -- both texts together have fewer than 2 ^ 20 characters and requests for memory are met, the string
  -- has a block of its own with the one text behind the other, and the number of characters is
  -- returned. No other block, and no block that other strings own as well, loses or changes a byte. If
  -- the texts are longer and do not fit the capacity, an exception is thrown.
  pub append-Appends :
      IsGranting h
      → (length (take n d) + length text < max_chars)
          × Returns (append (some (d ++ 0 ∷ after)) n s h) (Appends h v.address text (take n d))
        ⊎ (max_chars ≤ length (take n d) + length text)
          × (append (some (d ++ 0 ∷ after)) n s h ≡ throws)
  append-Appends granting = elim (Bool-cases (ltb (k + length text) max_chars)) [
    | inl small ↦ elim (Bool-cases (ltb (k + length text) s.capacity)) [
      | inl less ↦ inl (
        omega (arith, length-cut, ltb→lt (k + length text) max_chars small),
        cut (within_room h s refs text rest v granting chars k fits plain_cut (ground arith)),
      )
      | inr full ↦ inl (
        omega (arith, length-cut, ltb→lt (k + length text) max_chars small),
        cut (
            new_room h s refs text rest v granting chars k fits plain_cut (ground arith)
              (ground arith)),
      )
    ]
    | inr long ↦
        let bound : max_chars ≤ k + length text = ground arith in
        inr (
          omega (arith, length-cut, bound),
          append_start ∙ append_room_throws h s refs text rest v chars k bound,
        )
  ]
    where
      chars : List ℕ
      chars = d ++ 0 ∷ after

      k : ℕ
      k = min n (length d)

      fits : k ≤ length chars
      fits = omega (arith, length-append d (0 ∷ after))

      same : take k chars ≡ take n d
      same = take-append k d (0 ∷ after) (omega arith) ∙ take-min n d

      length-cut : length (take n d) ≡ k
      length-cut = length-take n d

      plain_cut : IsPlain (take k chars)
      plain_cut = rw same (All-take (λ c. 0 < c) n d plain)

      cut :
          Returns
            (append_room chars k (length text) s h)
            (Longer h s refs text rest v granting chars k fits plain_cut)
          → Returns (append (some chars) n s h) (Appends h v.address text (take n d))
      cut (r, run, (count, rest', g)) = (
        r,
        append_start ∙ run,
        (
          count ∙ ap some (sym length-cut),
          rest',
          subst (λ t. Gives h v.address (text ++ t) rest' r.0.1 r.1) same g,
        ),
      )
