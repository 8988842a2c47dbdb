-- ===== src/String8/Edit/Remove.antt =====
-- `removeOne` and `removeAll`.
use alias.Prelude.{
  ℕ, zero, suc, ◌+◌, ◌-◌, ◌≤◌, ◌<◌, ◌≡◌, refl, true, false, List, [], ◌∷◌, ◌++◌, none, some, length,
  take, drop, arith, Bool-cases, Option-cases, inl, inr, ◌∙◌, sym, ap, length-append, All-append,
  All-take, All-drop, drop-append, length-drop, length-take, append_assoc, take-append-drop,
  take-append_eq,
}
use mathlib.Core.Option
use alias.Outcome.{ok, Returns}
use alias.Buffer.Heap.{Block, Heap, bind_ok, IsFresh}
use alias.Buffer.ByteBuffer.Write.{with_bytes}
use alias.CText.{IsPlain, starts_with, strstr, read_text, read_text-nul}
use alias.String8.{String8, detach, bytes_of, text_of, write_at}
use alias.String8.Memory.{
  Holds, IsGranting, Gives, Gives→Holds, Gives-cell, bytes_of_block, write-Edits, text_of_lem,
}
use alias.String8.Blocks.{detach-Gives}
use alias.String8.Writes.{write_behind}
use alias.String8.Edit.{end_at, remove_one, remove_loop, remove_all}

length-le_of_starts_with : (t key : List ℕ) → starts_with key t ≡ true → length key ≤ length t
unfolding starts_with
length-le_of_starts_with t [] here = omega arith
length-le_of_starts_with [] (k ∷ ks) here = cc
length-le_of_starts_with (c ∷ cs) (k ∷ ks) here = ground (arith, length-le_of_starts_with cs ks)

-- A key that is found lies within the text.
strstr_within : (t key : List ℕ) (i : ℕ) → strstr t key ≡ some i → i + length key ≤ length t
unfolding strstr
strstr_within [] key i found = ground (arith, length-le_of_starts_with [] key)
strstr_within (c ∷ cs) key i found = elim (Bool-cases (starts_with key (c ∷ cs))) [
  | inl here ↦ ground (arith, length-le_of_starts_with (c ∷ cs) key)
  | inr later ↦ elim (Option-cases (strstr cs key)) [
    | inl nowhere ↦ ground arith
    | inr (k, e) ↦ ground (arith, strstr_within cs key k)
  ]
]

-- A text without the `k` characters from `i` on.
abbrev pub cut_out : ℕ → ℕ → List ℕ → List ℕ
cut_out i k t = take i t ++ drop (i + k) t

length-cut_out : (i k : ℕ) (t : List ℕ) → i + k ≤ length t → length (cut_out i k t) ≡ length t - k
length-cut_out i k t le =
    omega (arith, length-append (take i t) (drop (i + k) t), length-take i t, length-drop (i + k) t)

-- The first `key` is taken out of a text, again and again, until none is left.
pub data Erases (key : List ℕ) : List ℕ → List ℕ → Type 0 where
  finished : {t : List ℕ} → strstr t key ≡ none → Erases key t t
  removed :
      {t u : List ℕ} (i : ℕ)
      → strstr t key ≡ some i
      → Erases key (cut_out i (length key) t) u
      → Erases key t u

pub Erases-none : {key t u : List ℕ} → Erases key t u → strstr u key ≡ none
Erases-none (finished nowhere) = nowhere
Erases-none (removed i found more) = Erases-none more

empty_found : (key t : List ℕ) → length key ≡ 0 → strstr t key ≡ some 0
unfolding strstr starts_with
empty_found [] [] e = refl
empty_found [] (c ∷ cs) e = refl
empty_found (k ∷ ks) t e = absurd (omega arith)

module _ (h : Heap) (p : ℕ) (old : Block) (at : h.cell p ≡ some old) (fresh : IsFresh h)
    (s : String8) (key after : List ℕ) (plain : IsPlain key) where
  module _ (text rest : List ℕ) (h' : Heap) (g : Gives h p text rest s h') where
    remove_none : strstr text key ≡ none → remove_one (key ++ 0 ∷ after) s h' ≡ ok (false, h')
    unfolding remove_one
    remove_none nowhere =
        bind_ok (text_of s) _ h' (text_of_lem h' s 1 text rest (Gives→Holds h p text rest s h' g))
        ∙ bind_ok (read_text (key ++ 0 ∷ after)) _ h' (read_text-nul key after h' plain)
        ∙ rw nowhere

    module _ (i : ℕ) (found : strstr text key ≡ some i) where
      within : i + length key ≤ length text
      within = strstr_within text key i found

      -- The number of characters behind the key, and the bytes from the key on.
      abbrev count : ℕ
      count = length text - (i + length key)

      abbrev from_key : List ℕ
      from_key = drop i text ++ 0 ∷ rest

      from_start : text ++ 0 ∷ rest ≡ take i text ++ from_key
      from_start =
          ap (λ t. t ++ 0 ∷ rest) (sym (take-append-drop i text))
          ∙ append_assoc (take i text) (drop i text) (0 ∷ rest)

      moved_text :
          take count (drop (i + length key) (text ++ 0 ∷ rest)) ≡ drop (i + length key) text
      moved_text =
          ap (take count) (drop-append (i + length key) text (0 ∷ rest) within)
          ∙ take-append_eq count (drop (i + length key) text) (0 ∷ rest)
              (length-drop (i + length key) text)

      length-from_key : count + 1 ≤ length from_key
      length-from_key =
          omega (arith, within, length-append (drop i text) (0 ∷ rest), length-drop i text)

      moved :
          write_at s i (drop (i + length key) (text ++ 0 ∷ rest)) count h'
          ≡ ok (tt, with_bytes h' g.address (cut_out i (length key) text ++ drop count from_key))
      moved =
          write_behind h' s g.address (take i text) from_key
            (drop (i + length key) (text ++ 0 ∷ rest)) i count g.points
            (Gives-cell h p text rest s h' g ∙ rw from_start)
            (omega (arith, length-take i text, within))
            (omega (
              arith,
              length-drop (i + length key) (text ++ 0 ∷ rest),
              length-append text (0 ∷ rest),
            ))
            (omega (arith, length-from_key))
          ∙ rw (
            moved_text,
            append_assoc (take i text) (drop (i + length key) text) (drop count from_key),
          )

      remove_found :
          Returns (remove_one (key ++ 0 ∷ after) s h') λ r.
            (r.0 ≡ true) × (rest' : List ℕ) × Gives h p (cut_out i (length key) text) rest' s r.1
      unfolding remove_one end_at
      remove_found =
          let cut = cut_out i (length key) text in
          let tail = drop 1 (drop count from_key) in
          let half = with_bytes h' g.address (cut ++ drop count from_key) in
          (
            (true, with_bytes half g.address (cut ++ 0 ∷ tail)),
            bind_ok (text_of s) _ h'
                  (text_of_lem h' s 1 text rest (Gives→Holds h p text rest s h' g))
                ∙ bind_ok (read_text (key ++ 0 ∷ after)) _ h' (read_text-nul key after h' plain)
                ∙ rw found (
                    bind_ok (bytes_of s) _ h'
                      (bytes_of_block h' s g.address _ g.points (Gives-cell h p text rest s h' g))
                    ∙ bind_ok (write_at s i (drop (i + length key) (text ++ 0 ∷ rest)) count) _ h'
                        moved
                    ∙ bind_ok (write_at s (length text - length key) (0 ∷ []) 1) _ half (
                        write_behind half s g.address cut (drop count from_key) (0 ∷ [])
                          (length text - length key) 1 g.points (ground arith)
                          (length-cut_out i (length key) text within) (omega arith)
                          (omega (arith, length-drop count from_key, length-from_key)))),
            (
              refl,
              tail,
              record {
                address = g.address;
                points = g.points;
                edits =
                    write-Edits _ h p g.address half old at fresh
                      (write-Edits _ h p g.address h' old at fresh g.edits
                        (cut ++ drop count from_key))
                      (cut ++ 0 ∷ tail);
                room = omega (
                  arith,
                  g.room,
                  within,
                  length-cut_out i (length key) text within,
                  length-drop 1 (drop count from_key),
                  length-drop count from_key,
                  length-append (drop i text) (0 ∷ rest),
                  length-drop i text,
                );
                plain =
                    All-append (λ c. 0 < c) (take i text) (drop (i + length key) text)
                      (All-take (λ c. 0 < c) i text g.plain)
                      (All-drop (λ c. 0 < c) (i + length key) text g.plain);
                limit = g.limit;
              },
            ),
          )

  -- The loop, with more fuel than the text has characters.
  remove_loop_lem :
      0 < length key
      → (fuel : ℕ) (text rest : List ℕ) (h' : Heap) → length text < fuel
      → Gives h p text rest s h'
      → Returns (remove_loop fuel (key ++ 0 ∷ after) s h') λ r.
        (r.0 ≡ some tt)
        × (text' rest' : List ℕ) × Erases key text text'
        × Gives h p text' rest' s r.1
  unfolding remove_loop
  remove_loop_lem pos zero text rest h' enough g = absurd (omega arith)
  remove_loop_lem pos (suc fuel) text rest h' enough g = elim (Option-cases (strstr text key)) [
    | inl nowhere ↦ (
      (some tt, h'),
      bind_ok (remove_one (key ++ 0 ∷ after) s) _ h' (remove_none text rest h' g nowhere),
      (refl, text, rest, finished nowhere, g),
    )
    | inr (i, found) ↦
        let ((b, h''), run, (yes_found, rest', g')) = remove_found text rest h' g i found in
        let shorter : length (cut_out i (length key) text) < fuel = omega (
          arith,
          length-cut_out i (length key) text (within text rest h' g i found),
          within text rest h' g i found,
        ) in
        let (r, run', (ended, text', rest'', erased, g'')) =
          remove_loop_lem pos fuel (cut_out i (length key) text) rest' h'' shorter g' in
        (
          r,
          bind_ok (remove_one (key ++ 0 ∷ after) s) _ h' run ∙ rw yes_found run',
          (ended, text', rest'', removed i found erased, g''),
        )
  ]

  -- The empty key is found in every text, and taking it out changes nothing.
  remove_loop_forever :
      length key ≡ 0
      → (fuel : ℕ) (text rest : List ℕ) (h' : Heap) → Gives h p text rest s h'
      → Returns (remove_loop fuel (key ++ 0 ∷ after) s h') λ r. r.0 ≡ none
  unfolding remove_loop
  remove_loop_forever none_long zero text rest h' g = ((none, h'), refl, refl)
  remove_loop_forever none_long (suc fuel) text rest h' g =
      let found = empty_found key text none_long in
      let ((b, h''), run, (yes_found, rest', g')) = remove_found text rest h' g 0 found in
      let (r, run', never) =
        remove_loop_forever none_long fuel (cut_out 0 (length key) text) rest' h'' g' in
      (r, bind_ok (remove_one (key ++ 0 ∷ after) s) _ h' run ∙ rw yes_found run', never)

module _ (h : Heap) (s : String8) (refs : ℕ) (text rest : List ℕ) (v : Holds h s refs text rest)
    (granting : IsGranting h) (after : List ℕ) (fuel : ℕ) where
  -- `removeAll` of a key that is not empty ends, after at most as many rounds as the text has
  -- characters and one more: the first key has been taken out again and again until none was left. The
  -- string has a block of its own afterwards, and no other block, and no block that other strings own
  -- as well, loses or changes a byte. Requests for memory are met.
  pub remove_all-Erases :
      (key : List ℕ)
      → IsPlain key
      → 0 < length key
      → length text < fuel
      → Returns (remove_all fuel (key ++ 0 ∷ after) s h) λ r.
        (s' : String8) × (text' rest' : List ℕ) × (r.0 ≡ some s')
        × Erases key text text'
        × Gives h v.address text' rest' s' r.1
  unfolding remove_all
  remove_all-Erases key plain pos enough =
      let ((s', h'), run, (g, _)) = detach-Gives h s refs text rest v granting in
      let ((o, h''), run', (ended, text', rest', erased, g')) =
        remove_loop_lem h v.address _ v.at v.fresh s' key after plain pos fuel text rest h' enough
          g in
      (
        (Option.map (λ _. s') o, h''),
        bind_ok (detach s) _ h run ∙ bind_ok (remove_loop fuel (key ++ 0 ∷ after) s') _ h' run',
        (s', text', rest', rw ended, erased, g'),
      )

  -- `removeAll` of the empty key never ends: no amount of fuel is enough. Requests for memory are met.
  pub remove_all-never : Returns (remove_all fuel (0 ∷ after) s h) λ r. r.0 ≡ none
  unfolding remove_all
  remove_all-never =
      let ((s', h'), run, (g, _)) = detach-Gives h s refs text rest v granting in
      let ((o, h''), run', never) =
        remove_loop_forever h v.address _ v.at v.fresh s' [] after tt refl fuel text rest h' g in
      (
        (Option.map (λ _. s') o, h''),
        bind_ok (detach s) _ h run ∙ bind_ok (remove_loop fuel (0 ∷ after) s') _ h' run',
        rw never,
      )
