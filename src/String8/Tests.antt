-- ===== src/String8/Tests.antt =====
-- Strings on a small heap.
use alias.Prelude.{
  ℕ, ◌+◌, ◌==◌, ◌≤◌, ◌<◌, ◌≡◌, ◌⊎◌, refl, true, [], ◌∷◌, ◌++◌, List, none, some, length, take,
  if◌then◌else◌, replicate, ltb, arith,
}
use mathlib.Core.List
use alias.Outcome.{ok, throws, crash, Returns}
use alias.Buffer.Heap.{◌>>=◌, Heap, IsFresh}
use alias.CText.{strstr}
use alias.String8.{String8, max_chars, append, append_char, copy, text_of}
use alias.String8.Memory.{Holds, Gives, Added}
use alias.String8.Append.{Appends, append-Appends}
use alias.String8.Reuse.{append-overflow}
use alias.String8.Edit.{trim, reverse, remove_all, replace_all}
use alias.String8.Edit.Trim.{trim-Trims}
use alias.String8.Edit.Blank.{trim-append_char}
use alias.String8.Edit.Remove.{Erases, remove_all-Erases}
use alias.String8.Edit.Reverse.{reverse-Turns}
use alias.String8.Edit.Replace.{replaced, count, replace_all-original}
use alias.String8.Search.{kmp_strstr}
use alias.String8.Search.Borders.{found_from}
use alias.String8.Search.Kmp.{Answers, kmp_strstr-strstr}

-- A heap with one block, at address 1.
abbrev heap_of : ℕ → List ℕ → Heap
heap_of refs bytes = record {
  next = 2;
  cell = λ n. if n == 1 then some (record { refs = refs; bytes = bytes }) else none;
  grants = λ n. true;
  junk = 42;
}

heap_of-IsFresh : (refs : ℕ) (bytes : List ℕ) → IsFresh (heap_of refs bytes)
heap_of-IsFresh refs bytes x le = ground arith

abbrev string_of : ℕ → String8
string_of n = record { str = some 1; capacity = n }

-- " ab ", "ab", nothing in a block of five bytes, and "   "
abbrev spaced-Holds :
    Holds (heap_of 1 (32 ∷ 97 ∷ 98 ∷ 32 ∷ 0 ∷ [])) (string_of 4) 1 (32 ∷ 97 ∷ 98 ∷ 32 ∷ []) []
spaced-Holds = record {
  address = 1;
  points = refl;
  at = refl;
  room = refl;
  plain = omega arith;
  limit = omega arith;
  fresh = heap_of-IsFresh 1 (32 ∷ 97 ∷ 98 ∷ 32 ∷ 0 ∷ []);
}

abbrev shared-Holds : Holds (heap_of 2 (97 ∷ 98 ∷ 0 ∷ [])) (string_of 2) 2 (97 ∷ 98 ∷ []) []
shared-Holds = record {
  address = 1;
  points = refl;
  at = refl;
  room = refl;
  plain = omega arith;
  limit = omega arith;
  fresh = heap_of-IsFresh 2 (97 ∷ 98 ∷ 0 ∷ []);
}

abbrev cleared-Holds :
    Holds (heap_of 2 (0 ∷ 0 ∷ 0 ∷ 0 ∷ 0 ∷ [])) (string_of 4) 2 [] (0 ∷ 0 ∷ 0 ∷ 0 ∷ [])
cleared-Holds = record {
  address = 1;
  points = refl;
  at = refl;
  room = refl;
  plain = tt;
  limit = omega arith;
  fresh = heap_of-IsFresh 2 (0 ∷ 0 ∷ 0 ∷ 0 ∷ 0 ∷ []);
}

abbrev blank-Holds : Holds (heap_of 1 (32 ∷ 32 ∷ 32 ∷ 0 ∷ [])) (string_of 3) 1 (replicate 3 32) []
blank-Holds = record {
  address = 1;
  points = refl;
  at = refl;
  room = refl;
  plain = omega arith;
  limit = omega arith;
  fresh = heap_of-IsFresh 1 (32 ∷ 32 ∷ 32 ∷ 0 ∷ []);
}

append-Appends_example :
    (length {A = ℕ} (take 5 (99 ∷ 100 ∷ [])) + 2 < max_chars)
      × Returns
          (append (some (99 ∷ 100 ∷ 0 ∷ [])) 5 (string_of 2) (heap_of 2 (97 ∷ 98 ∷ 0 ∷ [])))
          (Appends (heap_of 2 (97 ∷ 98 ∷ 0 ∷ [])) 1 (97 ∷ 98 ∷ []) (take 5 (99 ∷ 100 ∷ [])))
    ⊎ (max_chars ≤ length {A = ℕ} (take 5 (99 ∷ 100 ∷ [])) + 2)
      × (append (some (99 ∷ 100 ∷ 0 ∷ [])) 5 (string_of 2) (heap_of 2 (97 ∷ 98 ∷ 0 ∷ [])) ≡ throws)
append-Appends_example =
    append-Appends (heap_of 2 (97 ∷ 98 ∷ 0 ∷ [])) (string_of 2) 2 (97 ∷ 98 ∷ []) [] shared-Holds
      (omega arith) (99 ∷ 100 ∷ []) [] (omega arith) 5 (omega arith) (omega arith) (λ x. refl)

append-overflow_example :
    (append (some (97 ∷ 0 ∷ [])) 1 (string_of 4) >>= (λ r. append (some (98 ∷ 0 ∷ [])) 1 (r.1)))
      (heap_of 2 (0 ∷ 0 ∷ 0 ∷ 0 ∷ 0 ∷ []))
    ≡ crash
append-overflow_example =
    append-overflow (heap_of 2 (0 ∷ 0 ∷ 0 ∷ 0 ∷ 0 ∷ [])) (string_of 4) 2 (0 ∷ 0 ∷ 0 ∷ 0 ∷ [])
      cleared-Holds (λ x. refl) (97 ∷ []) [] (omega arith) (omega arith) (omega arith) (omega arith)
      (98 ∷ []) [] (omega arith) (omega arith) (omega arith)

trim-Trims_example : Returns (trim 32 (string_of 4) (heap_of 1 (32 ∷ 97 ∷ 98 ∷ 32 ∷ 0 ∷ []))) λ r.
    (rest' : List ℕ) × Gives
      (heap_of 1 (32 ∷ 97 ∷ 98 ∷ 32 ∷ 0 ∷ []))
      1
      (if ltb 0 (1 + length {A = ℕ} (98 ∷ [])) then 97 ∷ 98 ∷ [] else [])
      rest'
      r.0
      r.1
trim-Trims_example =
    trim-Trims (heap_of 1 (32 ∷ 97 ∷ 98 ∷ 32 ∷ 0 ∷ [])) (string_of 4) 1 32 1 1 97 (98 ∷ []) []
      spaced-Holds (λ x. refl) (omega arith) (omega arith)

trim-append_char_example :
    Returns
      ((trim 32 (string_of 3) >>= append_char 97) (heap_of 1 (32 ∷ 32 ∷ 32 ∷ 0 ∷ [])))
      λ r. (r.0.0 ≡ some 1) × Holds r.1 r.0.1 1 (97 ∷ 32 ∷ 32 ∷ []) []
trim-append_char_example =
    trim-append_char (heap_of 1 (32 ∷ 32 ∷ 32 ∷ 0 ∷ [])) (string_of 3) 32 2 [] blank-Holds
      (omega arith) 97 (omega arith)

remove_all-Erases_example :
    Returns (remove_all 5 (32 ∷ 0 ∷ []) (string_of 4) (heap_of 1 (32 ∷ 97 ∷ 98 ∷ 32 ∷ 0 ∷ []))) λ r.
      (s' : String8) × (text' rest' : List ℕ) × (r.0 ≡ some s')
      × Erases (32 ∷ []) (32 ∷ 97 ∷ 98 ∷ 32 ∷ []) text'
      × Gives (heap_of 1 (32 ∷ 97 ∷ 98 ∷ 32 ∷ 0 ∷ [])) 1 text' rest' s' r.1
remove_all-Erases_example =
    remove_all-Erases (heap_of 1 (32 ∷ 97 ∷ 98 ∷ 32 ∷ 0 ∷ [])) (string_of 4) 1
      (32 ∷ 97 ∷ 98 ∷ 32 ∷ []) [] spaced-Holds (λ x. refl) [] 5 (32 ∷ []) (omega arith)
      (omega arith) (omega arith)

reverse-Turns_example : Returns (reverse (string_of 2) (heap_of 2 (97 ∷ 98 ∷ 0 ∷ []))) λ r.
    (r.0 ≡ record { str = some 2; capacity = 2 })
    × Added (List.reverse (97 ∷ 98 ∷ []) ++ 0 ∷ []) (heap_of 2 (97 ∷ 98 ∷ 0 ∷ [])) 2 r.1
reverse-Turns_example =
    reverse-Turns (heap_of 2 (97 ∷ 98 ∷ 0 ∷ [])) (string_of 2) 2 (97 ∷ 98 ∷ []) [] shared-Holds
      (λ x. refl) (omega arith)

replace_all-original_example :
    Returns ((copy (string_of 2) >>= replace_all 97 120) (heap_of 2 (97 ∷ 98 ∷ 0 ∷ []))) λ r.
      (r.0 ≡ count 97 (97 ∷ 98 ∷ []))
      × (text_of (string_of 2) r.1 ≡ ok (replaced 97 120 (97 ∷ 98 ∷ []), r.1))
replace_all-original_example =
    replace_all-original (heap_of 2 (97 ∷ 98 ∷ 0 ∷ [])) (string_of 2) 2 (97 ∷ 98 ∷ []) []
      shared-Holds 97 120 (omega arith) (omega arith)

-- "aab" in "aaab"
kmp_strstr-strstr_example :
    Returns
      (kmp_strstr (some (97 ∷ 97 ∷ 97 ∷ 98 ∷ 0 ∷ [])) (some (97 ∷ 97 ∷ 98 ∷ 0 ∷ [])) (heap_of 1 []))
      (Answers (heap_of 1 []) (found_from 0 (strstr (97 ∷ 97 ∷ 97 ∷ 98 ∷ []) (97 ∷ 97 ∷ 98 ∷ []))))
kmp_strstr-strstr_example =
    kmp_strstr-strstr (97 ∷ 97 ∷ 97 ∷ 98 ∷ []) (97 ∷ 97 ∷ 98 ∷ []) [] [] (heap_of 1 [])
      (omega arith) (omega arith) (omega arith) (omega arith) (omega arith) (heap_of-IsFresh 1 [])
      (λ x. refl)
