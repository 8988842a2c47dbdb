-- ===== src/String8/Search/Kmp.antt =====
-- `kmp_strstr` against the search that looks at every place.
use alias.Prelude.{
  ℕ, zero, suc, ◌+◌, ◌-◌, ◌%◌, ◌^◌, lt→ltb, take_all, ◌≤◌, ◌<◌, ◌==◌, ltb, ◌≡◌, refl, true, false,
  List, [], ◌∷◌, ◌++◌, none, some, length, take, drop, arith, Bool-cases, inl, inr, ◌∙◌, sym, ap,
  length-append, All-take, take-append, length-drop, drop-drop, drop_all, length-take,
}
use mathlib.Core.Path.{subst}
use alias.Outcome.{ok, Returns}
use alias.Buffer.Heap.{Heap, bind_ok, IsFresh}
use alias.CText.{read_text, read_text-nul, strstr, IsPlain, starts_with}
use alias.String8.{String8, max_chars, new_chars}
use alias.String8.Memory.{Holds, IsGranting, Added}
use alias.String8.Fresh.{Same, Same-trans, Added-IsFresh, Added-Same, new_chars-Added}
use alias.String8.Search.{
  Answer, at_index, absent, agreeing, kmp_from, kmp_loop, int_of, kmp_strstr, get_next, next_of,
}
use alias.String8.Search.Borders.{
  found_from, agreeing_bounds, starts_with-all, starts_with-part, strstr-skip, strstr-here,
  skip_free, BoundsBorders,
}
use alias.String8.Search.Next.{get_next_lem, destroyed}

-- The answer, with the heap as it was but for the requests made.
abbrev pub Answers : Heap → Answer → Answer × Heap → Type 0
Answers h a r = (r.0 ≡ a) × Same h r.1

module _ (key after : List ℕ) (plain : IsPlain key) (bound : length key ≤ max_chars) where
  -- The temporary of the first `j` characters of the key, and what `getNext` makes of it.
  part_next :
      (j : ℕ) (h : Heap)
      → 0 < j
      → j < length key
      → IsFresh h
      → IsGranting h
      → (m : ℕ) × (h' : Heap) × (next_of (key ++ 0 ∷ after) j h ≡ ok (m, h'))
        × (m < j)
        × BoundsBorders (take j key) m
        × Same h h'
  unfolding next_of
  part_next j h pos less fresh granting =
      let chars = key ++ 0 ∷ after in
      let fits : j ≤ length chars = omega (arith, length-append key (0 ∷ after)) in
      let (h', run, added) = new_chars-Added chars j h pos (omega arith) fits (granting h.next) in
      let start = take-append j key (0 ∷ after) (omega arith) in
      let added' = subst (λ t. Added (t ++ 0 ∷ []) h h.next h') start added in
      let part : String8 = record { str = some h.next; capacity = j } in
      let len : length (take j key) ≡ j = omega (arith, length-take j key) in
      let v : Holds h' part 1 (take j key) [] = record {
        address = h.next;
        points = refl;
        at = added'.mine;
        room = omega (arith, len);
        plain = All-take (λ c. 0 < c) j key plain;
        limit = omega arith;
        fresh = Added-IsFresh _ h h.next h' fresh added';
      } in
      let (m, run', small, bounds) = get_next_lem h' part (take j key) v (omega (arith, len)) in
      (
        m,
        destroyed h' part (take j key) v,
        bind_ok (new_chars (some chars) j) _ h run ∙ ap (λ n. get_next part n h') (sym len) ∙ run',
        omega (arith, len),
        bounds,
        Added-Same _ h h.next h' fresh added',
      )

  -- Where the key is at none of the next `n` places, the search goes on behind them.
  go_on :
      (text : List ℕ) (i n : ℕ)
      → i + n ≤ length text
      → ((d : ℕ) → d < n → starts_with key (drop d (drop i text)) ≡ false)
      → found_from (i + n) (strstr (drop (i + n) text) key)
        ≡ found_from i (strstr (drop i text) key)
  go_on text i n le free =
      ap (λ t. found_from (i + n) (strstr t key)) (sym (drop-drop n i text))
      ∙ sym (strstr-skip n i (drop i text) key free (omega (arith, length-drop i text)))

  -- How far the loop jumps where `j` characters agree: by what `getNext` leaves of them.
  jump :
      (text : List ℕ) (i : ℕ) (h : Heap)
      → i ≤ length text
      → 0 < agreeing (drop i text) key
      → agreeing (drop i text) key < length key
      → IsFresh h
      → IsGranting h
      → (m : ℕ) × (h' : Heap) × (next_of (key ++ 0 ∷ after) (agreeing (drop i text) key) h
          ≡ ok (m, h'))
        × (m < agreeing (drop i text) key)
        × (i + (agreeing (drop i text) key - m) ≤ length text)
        × Same h h'
        × (found_from
              (i + (agreeing (drop i text) key - m))
              (strstr (drop (i + (agreeing (drop i text) key - m)) text) key)
            ≡ found_from i (strstr (drop i text) key))
  jump text i h le pos less fresh granting =
      let j = agreeing (drop i text) key in
      let (m, h', run, small, bounds, kept) = part_next j h pos less fresh granting in
      let within : i + (j - m) ≤ length text =
        omega (arith, agreeing_bounds (drop i text) key, length-drop i text) in
      (
        m,
        h',
        run,
        small,
        within,
        kept,
        go_on text i (j - m) within (skip_free (drop i text) key m less bounds),
      )

  module _ (some_key : 0 < length key) where
    at_end : (i : ℕ) (text : List ℕ) → length text ≤ i → strstr (drop i text) key ≡ none
    unfolding strstr
    at_end i text le =
        rw (drop_all i text le, starts_with-part [] key (omega (arith, agreeing_bounds [] key)))

    -- The rest of the search, from place `i` of the text on.
    kmp_from_lem :
        (fuel : ℕ) (text : List ℕ) (i : ℕ) (h : Heap)
        → length text < fuel + i
        → i ≤ length text
        → IsFresh h
        → IsGranting h
        → Returns
            (kmp_from fuel (length text) text (key ++ 0 ∷ after) key i h)
            (Answers h (found_from i (strstr (drop i text) key)))
    unfolding kmp_from
    kmp_from_lem zero text i h enough le fresh granting = absurd (omega arith)
    kmp_from_lem (suc fuel) text i h enough le fresh granting =
        elim (Bool-cases (ltb i (length text))) [
          | inr over ↦ ((absent, h), rw over, (rw (at_end i text (ground arith)), same))
          | inl inside ↦ elim (Bool-cases (j == length key)) [
            | inl all ↦ (
              (at_index i, h),
              rw (inside, all),
              (
                sym (
                    strstr-here i (drop i text) key
                      (starts_with-all (drop i text) key (ground arith))),
                same,
              ),
            )
            | inr part ↦ elim (Bool-cases (j == 0)) [
              | inl nothing ↦
                  let (r, run, (answer, kept)) =
                    kmp_from_lem fuel text (i + 1) h (omega arith) (ground arith) fresh granting in
                  (
                    r,
                    rw (inside, part, nothing) run,
                    (answer ∙ go_on text i 1 (ground arith) (first nothing), kept),
                  )
              | inr something ↦
                  let (m, h', run, ahead, within, kept, same_search) =
                    jump text i h le (ground arith)
                      (ground (arith, agreeing_bounds (drop i text) key)) fresh granting in
                  let (r, run', (answer, kept')) =
                    kmp_from_lem fuel text (i + (j - m)) h' (omega arith) within kept.fresh
                      (λ x. kept.grants x ∙ granting x) in
                  (
                    r,
                    rw (inside, part, something)
                        (bind_ok (next_of (key ++ 0 ∷ after) j) _ h run ∙ run'),
                    (answer ∙ same_search, Same-trans h h' r.1 kept kept'),
                  )
            ]
          ]
        ]
      where
        j : ℕ
        j = agreeing (drop i text) key

        same : Same h h
        same = record { cells = λ x. refl; fresh = fresh; grants = λ x. refl }

        first : (j == 0) ≡ true → (d : ℕ) → d < 1 → starts_with key (drop d (drop i text)) ≡ false
        first nothing zero less = starts_with-part (drop i text) key (ground arith)
        first nothing (suc d) less = absurd (omega arith)

int_of_small : (n : ℕ) → n < 2 ^ 31 → int_of n ≡ some n
unfolding int_of
int_of_small n small =
    let same : n % 2 ^ 32 ≡ n = omega arith in
    let positive : ltb n (2 ^ 31) ≡ true = lt→ltb _ _ small in rw (same, positive) refl

-- `kmp_strstr` of two texts, the one shorter than 2 ^ 31 characters, the key not empty and at most
-- 2 ^ 20 characters long, where requests for memory are met: it returns the position of the first place where the key stands in the text, or -1 if
-- it stands nowhere, as the search that looks at every place does. All its temporaries are destroyed:
-- every block is as it was.
pub kmp_strstr-strstr :
    (text key behind after : List ℕ) (h : Heap)
    → IsPlain text
    → IsPlain key
    → 0 < length key
    → length key ≤ max_chars
    → length text < 2 ^ 31
    → IsFresh h
    → IsGranting h
    → Returns
        (kmp_strstr (some (text ++ 0 ∷ behind)) (some (key ++ 0 ∷ after)) h)
        (Answers h (found_from 0 (strstr text key)))
unfolding kmp_strstr kmp_loop
kmp_strstr-strstr text key behind after h plain_text plain pos bound short fresh granting =
    let (r, run, post) =
      kmp_from_lem key after plain bound pos (length text + 1) text 0 h (omega arith) (omega arith)
        fresh granting in
    (
      r,
      bind_ok (read_text (text ++ 0 ∷ behind)) _ h (read_text-nul text behind h plain_text)
          ∙ bind_ok (read_text (key ++ 0 ∷ after)) _ h (read_text-nul key after h plain)
          ∙ lengths
          ∙ run,
      post,
    )
  where
    lengths :
        kmp_loop (int_of (length text)) (int_of (length key)) text (key ++ 0 ∷ after) key h
        ≡ kmp_from (length text + 1) (length text) text (key ++ 0 ∷ after) key 0 h
    lengths =
        rw
          (
            int_of_small (length text) short,
            int_of_small (length key) (omega arith),
            kmp_loop,
            take_all (length key) key (omega arith),
          )
          refl
