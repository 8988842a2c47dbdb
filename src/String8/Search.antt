-- ===== src/String8/Search.antt =====
-- What is asked of a `String8`: comparisons, searches, and the search by Knuth, Morris and Pratt.
pub mod Borders
pub mod Next
pub mod Kmp
use alias.Prelude.{
  ℕ, zero, suc, ◌+◌, ◌-◌, ◌%◌, ◌^◌, ◌==◌, leb, ltb, max, if◌then◌else◌, Bool, true, false, List, [],
  ◌∷◌, Option, none, some, length, take, drop, get_or,
}
use mathlib.Core.Option
use alias.Buffer.Heap.{M, pure, fault, raise, ◌>>=◌, ◌>>◌, null_or}
use alias.CText.{Sign, read_text, strstr, strchr, strcmp, strncmp, strcasecmp}
use alias.String8.{String8, new_chars, new_text, detach, release, bytes_of, text_of, size}
use alias.String8.Edit.{pointer_of, reverse}

-- `stringcompare`, absent for the value that means a null pointer
pub string_compare : Option (List ℕ) → String8 → M (Option Sign)
string_compare none s = pure none
string_compare (some other) s =
    null_or s.str (pure none)
      λ _. do text ← text_of s; t ← read_text other; pure (some (strcmp text t))

-- The value for a null pointer is negative.
pub is_less : Option (List ℕ) → String8 → M Bool
is_less other s = do
  r ← string_compare other s
  pure (elim r [ none ↦ true | some c ↦ elim c [ Sign.negative ↦ true | _ ↦ false ] ])

pub is_equal : Option (List ℕ) → String8 → M Bool
is_equal other s = do
  r ← string_compare other s
  pure (elim r [ none ↦ false | some c ↦ elim c [ Sign.nought ↦ true | _ ↦ false ] ])

pub ncompare : Option (List ℕ) → ℕ → String8 → M Sign
ncompare none n s = pure Sign.positive
ncompare (some other) n s = do text ← text_of s; t ← read_text other; pure (strncmp text t n)

-- absent for `-EPERM`
pub compare_case : List ℕ → String8 → M (Option Sign)
compare_case other s =
    null_or s.str (pure none)
      λ _. do text ← text_of s; t ← read_text other; pure (some (strcasecmp text t))

-- `operator[]`, read, and the string after its `detach`
pub index : ℕ → String8 → M (ℕ × String8)
index i s = do
  s' ← detach s
  bytes ← bytes_of s'
  let j = if leb s'.capacity i then s'.capacity else i
  if ltb j (length bytes) then pure (get_or bytes j 0, s') else fault

-- The text from `start` on, which may lie behind the NUL.
pub text_from : ℕ → String8 → M (List ℕ)
text_from start s = do bytes ← bytes_of s; read_text (drop start bytes)

pub find : List ℕ → ℕ → String8 → M (Option ℕ)
find other start s = do
  text ← text_from start s
  key ← read_text other
  pure (Option.map (λ i. start + i) (strstr text key))

pub find_char : ℕ → ℕ → String8 → M (Option ℕ)
find_char c start s = do
  text ← text_from start s
  pure (Option.map (λ i. start + i) (strchr text c))

pub contains : List ℕ → String8 → M Bool
contains other s = do
  text ← text_of s
  key ← read_text other
  pure (elim (strstr text key) [ none ↦ false | some _ ↦ true ])

-- The assertion that a reversed text is as long as the text.
pub check_size : String8 → String8 → M (Unit {0})
check_size a b = do n ← size a; m ← size b; if n == m then pure tt else fault

-- `find_last_of`, by a search in the reversed text. The temporaries are destroyed at the end.
pub find_last_of : List ℕ → String8 → M (Option ℕ)
find_last_of key s = do
  key_str ← new_text (some key)
  chars ← pointer_of s
  value ← new_text chars
  value_reverse ← reverse value
  key_reverse ← reverse key_str
  key_chars ← bytes_of key_reverse
  check_size value_reverse value
  check_size key_reverse key_str
  found ← find key_chars 0 value_reverse
  n ← size s
  k ← size key_str
  _ ← release key_reverse
  _ ← release value_reverse
  _ ← release value
  _ ← release key_str
  pure (Option.map (λ i. n - i - k) found)

-- `max`, where the comparison says that the start and the end of length `k` agree.
pub raise_max : Sign → ℕ → ℕ → ℕ
raise_max Sign.nought k best = if ltb best k then k else best
raise_max Sign.negative k best = best
raise_max Sign.positive k best = best

-- The loop of `getNext`, from `k` on for `rounds` lengths, and the largest found so far.
pub longest_border : List ℕ → ℕ → ℕ → ℕ → ℕ → ℕ
longest_border text n zero k best = best
longest_border text n (suc rounds) k best =
    longest_border text n rounds (k + 1) (raise_max (strncmp (drop (n - k) text) text k) k best)

-- `getNext`, and the parameter that it destroys.
pub get_next : String8 → ℕ → M ℕ
get_next key n =
    if ltb n 2
    then (release key >>= (λ _. pure 0))
    else if n == 2
    then (do
      (a, key') ← index 0 key
      (b, key'') ← index 1 key'
      _ ← release key''
      pure (if a == b then 1 else 0))
    else (do text ← text_of key; _ ← release key; pure (longest_border text n (n - 1) 1 0))

-- The inner loop of `kmp_strstr`: how many characters agree. The NUL behind `text` agrees with none.
pub agreeing : List ℕ → List ℕ → ℕ
agreeing text [] = 0
agreeing [] (k ∷ ks) = 0
agreeing (c ∷ cs) (k ∷ ks) = if c == k then agreeing cs ks + 1 else 0

-- `getNext` for a temporary of the first `j` characters.
pub next_of : List ℕ → ℕ → M ℕ
next_of chars j = do part ← new_chars (some chars) j; get_next part j

-- What `kmp_strstr` returns, a position, -1 or an error, or that its loop does not end.
pub data Answer : Type 0 where
  at_index : ℕ → Answer
  absent : Answer
  invalid_param : Answer
  never : Answer

-- The outer loop of `kmp_strstr` from `i` on. `text` and `key` are what the memory of `val` and `chars`
-- hold up to the NUL, and `val_len` is the `int` of the text's length. It takes fewer rounds than the
-- fuel, so that it does not end where the fuel runs out. `i` is exact where `val_len` is.
pub kmp_from : ℕ → ℕ → List ℕ → List ℕ → List ℕ → ℕ → M Answer
kmp_from zero val_len text chars key i = pure never
kmp_from (suc fuel) val_len text chars key i =
    let j = agreeing (drop i text) key in
    let step = kmp_from fuel val_len text chars key (i + 1) in
    if ltb i val_len
    then if j == length key
      then pure (at_index i)
      else if j == 0
      then step
      else (next_of chars j >>= (λ next. kmp_from fuel val_len text chars key (i + (j - next))))
    else pure absent

-- `int n = strlen(...)`, absent where it is negative
unfoldable pub int_of : ℕ → Option ℕ
int_of n = if ltb (n % 2 ^ 32) (2 ^ 31) then some (n % 2 ^ 32) else none

-- With a negative length of the text no round is taken; with one of the key, a round takes no step.
pub kmp_loop : Option ℕ → Option ℕ → List ℕ → List ℕ → List ℕ → M Answer
kmp_loop none key_len text chars key = pure absent
kmp_loop (some val_len) none text chars key = pure (if ltb 0 val_len then never else absent)
kmp_loop (some val_len) (some key_len) text chars key =
    kmp_from (length text + 1) val_len text chars (take key_len key) 0

pub kmp_strstr : Option (List ℕ) → Option (List ℕ) → M Answer
kmp_strstr none key = pure invalid_param
kmp_strstr (some val) none = pure invalid_param
kmp_strstr (some val) (some key) = do
  text ← read_text val
  k ← read_text key
  kmp_loop (int_of (length text)) (int_of (length k)) text key k
