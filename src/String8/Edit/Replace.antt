-- ===== src/String8/Edit/Replace.antt =====
-- `replaceAll` on a string that shares its block.
use alias.Prelude.{
  ℕ, ◌+◌, ◌<◌, ◌==◌, if◌then◌else◌, ◌≡◌, ◌≢◌, refl, false, List, [], ◌∷◌, ◌++◌, map, some, length,
  arith, Bool-cases, inl, inr, ◌∙◌, drop-append_eq,
}
use alias.Outcome.{ok, Returns}
use alias.Buffer.Heap.{Block, Heap, ◌>>=◌, bind_ok, null_or-some, on_block-some, load-bind}
use alias.Buffer.Shared.{acquire}
use alias.Buffer.Shared.Laws.{shared, acquire_lem}
use alias.CText.{IsPlain, read_text-nul}
use alias.String8.{String8, copy, text_of, bytes_of, put_bytes}
use alias.String8.Memory.{Holds, bytes_of_block}
use alias.String8.Edit.{replace_chars, replace_all}

-- The text with every `o` replaced by `n`, and how many there are.
pub replaced : ℕ → ℕ → List ℕ → List ℕ
replaced o n t = map (λ c. if c == o then n else c) t

pub count : ℕ → List ℕ → ℕ
count o [] = 0
count o (c ∷ cs) = if c == o then count o cs + 1 else count o cs

replace_chars_lem :
    (o n : ℕ) (t : List ℕ) → 0 < n → replace_chars o n t ≡ (replaced o n t, count o t)
unfolding replace_chars replaced count
replace_chars_lem o n [] pos = refl
replace_chars_lem o n (c ∷ cs) pos =
    let kept : (n == 0) ≡ false = ground arith in
    elim (Bool-cases (c == o)) [
      | inl same ↦ rw (same, kept, replace_chars_lem o n cs pos)
      | inr other ↦ rw (other, replace_chars_lem o n cs pos)
    ]

IsPlain-replaced : (o n : ℕ) (t : List ℕ) → 0 < n → IsPlain t → IsPlain (replaced o n t)
unfolding replaced
IsPlain-replaced o n [] pos plain = tt
IsPlain-replaced o n (c ∷ cs) pos plain = elim (Bool-cases (c == o)) [
  | inl same ↦ rw same (pos, IsPlain-replaced o n cs pos plain.1)
  | inr other ↦ rw other (plain.0, IsPlain-replaced o n cs pos plain.1)
]

module _ (h : Heap) (s : String8) (refs : ℕ) (text rest : List ℕ) (v : Holds h s refs text rest)
    (o n : ℕ) (pos : 0 < n) (apart : n ≢ o) where
  -- The heap afterwards: the block has one owner more and other bytes.
  abbrev owned : Heap
  owned = shared h v.address (record { refs = refs; bytes = text ++ 0 ∷ rest })

  copy_run : copy s h ≡ ok (s, owned)
  unfolding copy
  copy_run =
      null_or-some _ _ s.str h v.points
      ∙ bind_ok (acquire v.address) _ h
          (acquire_lem h v.address (record { refs = refs; bytes = text ++ 0 ∷ rest }) v.at)

  abbrev changed : Heap
  changed = record owned {
    cell = λ q.
        if q == v.address
        then some (record { refs = refs + 1; bytes = replaced o n text ++ 0 ∷ rest })
        else owned.cell q;
  }

  text_in :
      (h' : Heap) (b : Block) (t : List ℕ)
      → h'.cell v.address ≡ some b
      → b.bytes ≡ t ++ 0 ∷ rest
      → IsPlain t
      → text_of s h' ≡ ok (t, h')
  unfolding text_of
  text_in h' b t at e plain =
      bind_ok (bytes_of s) _ h' (bytes_of_block h' s v.address b v.points at)
      ∙ rw e (read_text-nul t rest h' plain)

  replace_run : replace_all o n s owned ≡ ok (count o text, changed)
  unfolding replace_all put_bytes
  replace_run =
      let different : (n == o) ≡ false = ground arith in
      let b : Block = record { refs = refs + 1; bytes = text ++ 0 ∷ rest } in
      rw different (
        bind_ok (text_of s) _ owned (text_in owned b text (ground arith) refl v.plain)
        ∙ bind_ok (bytes_of s) _ owned (bytes_of_block owned s v.address b v.points (ground arith))
        ∙ rw (replace_chars_lem o n text pos, drop-append_eq (length text) text (0 ∷ rest) refl)
            (bind_ok (put_bytes s (replaced o n text ++ 0 ∷ rest)) _ owned {a = tt} {h' = changed} (
              on_block-some _ s.str owned v.points
              ∙ load-bind _ v.address owned {b = b} (ground arith))))

  -- `replaceAll` does not copy on write: on a copy of a string, with another character that is not the
  -- NUL, it returns how often the old one was there, and the string that was copied shows the new
  -- characters as well.
  pub replace_all-original :
      Returns
        ((copy s >>= replace_all o n) h)
        λ r. (r.0 ≡ count o text) × (text_of s r.1 ≡ ok (replaced o n text, r.1))
  replace_all-original = (
    (count o text, changed),
    bind_ok (copy s) _ h copy_run ∙ replace_run,
    (
      refl,
      text_in changed (record { refs = refs + 1; bytes = replaced o n text ++ 0 ∷ rest })
          (replaced o n text) (ground arith) refl (IsPlain-replaced o n text pos v.plain),
    ),
  )
