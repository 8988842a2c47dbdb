-- ===== src/String8/Edit.antt =====
-- The parts of a `String8`, and what changes its text in place.
pub mod Spans
pub mod Trim
pub mod Replace
pub mod Reverse
pub mod Blank
pub mod Remove
use alias.Prelude.{
  ℕ, zero, suc, ◌+◌, ◌-◌, ◌==◌, leb, ltb, max, if◌then◌else◌, Bool, true, false, ◌&&◌, ◌||◌, List,
  [], ◌∷◌, ◌++◌, map, Option, none, some, length, take, drop, get_or,
}
use mathlib.Core.Option
use alias.Buffer.Heap.{Block, M, pure, fault, ◌>>=◌, ◌>>◌, store, null_or}
use alias.Buffer.Shared.{alloc, edit_resize}
use alias.Buffer.ByteBuffer.{write_bytes}
use alias.CText.{read_text, strstr, tolower, toupper}
use alias.String8.{
  String8, max_chars, new_empty, new_chars, new_text, detach, release, bytes_of, put_bytes, text_of,
  size, clear, write_at,
}

-- The bytes at `mString`, absent for a null pointer.
pub pointer_of : String8 → M (Option (List ℕ))
pointer_of s = null_or s.str (pure none) (λ _. bytes_of s >>= (λ bs. pure (some bs)))

pub left : ℕ → String8 → M String8
left n s = do chars ← pointer_of s; new_chars chars n

pub right : ℕ → String8 → M String8
right n s = do
  len ← size s
  if leb len n then new_empty else (bytes_of s >>= (λ bs. new_chars (some (drop (len - n) bs)) n))

pub substr : ℕ → ℕ → String8 → M String8
substr start end s = do
  len ← size s
  if leb len start || (leb len end || leb end start)
      then new_empty
      else (bytes_of s >>= (λ bs. new_chars (some (drop start bs)) end))

-- The temporary takes over the old block and releases it.
pub resize : ℕ → String8 → M String8
resize n s = do chars ← pointer_of s; temp ← new_chars chars n; _ ← release s; pure temp

-- The loops of `findNotChar`: the first goes up from the start, the second down to index 1.
pub first_not : ℕ → List ℕ → Option ℕ
first_not c [] = none
first_not c (x ∷ xs) = if x == c then Option.map (λ i. i + 1) (first_not c xs) else some 0

pub last_not : ℕ → List ℕ → ℕ → Option ℕ
last_not c text zero = none
last_not c text (suc i) = if get_or text (suc i) 0 == c then last_not c text i else some (suc i)

-- `findNotChar`, with `begin` and `end` absent where they stay -1
pub find_not_char : ℕ → String8 → M (Option ℕ × Option ℕ)
find_not_char c s = do text ← text_of s; pure (first_not c text, last_not c text (length text - 1))

-- A NUL at offset `i`.
pub end_at : String8 → ℕ → M (Unit {0})
end_at s i = write_at s i (0 ∷ []) 1

-- `n` characters from `start` on, moved to the front and ended.
pub keep_span : String8 → ℕ → ℕ → M (Unit {0})
keep_span s start n = do bytes ← bytes_of s; write_at s 0 (drop start bytes) n; end_at s n

-- `end + 1`, 0 where `end` is -1
abbrev pub past : Option ℕ → ℕ
past none = 0
past (some i) = i + 1

-- The end of `trim`. A negative number of bytes to move is a huge one.
pub trim_span : String8 → Option ℕ × Option ℕ → M (Unit {0})
trim_span s (none, none) = end_at s 0
trim_span s (none, some e) = fault
trim_span s (some b, e) = do
  len ← size s
  if b == 0 && past e == len + 1
      then pure tt
      else if leb b (past e)
      then keep_span s b (past e - b)
      else fault

pub trim : ℕ → String8 → M String8
trim c s = do s' ← detach s; span ← find_not_char c s'; trim_span s' span; pure s'

pub trim_left : ℕ → String8 → M String8
trim_left c s = do
  s' ← detach s
  (begin, end) ← find_not_char c s'
  (elim begin [
    | none ↦ (elim end [ none ↦ end_at s' 0 | some _ ↦ fault ])
    | some b ↦ (if b == 0 then pure tt else size s' >>= (λ len. keep_span s' b (len - b)))
  ]
      >> pure s')

pub trim_right : ℕ → String8 → M String8
trim_right c s = do
  s' ← detach s
  (begin, end) ← find_not_char c s'
  len ← size s'
  (if past end == len && ltb 0 len then pure tt else end_at s' (past end)) >> pure s'

-- The loop of `reverse`, with `k` characters still to copy and `i` already copied.
pub back_loop : List ℕ → ℕ → ℕ → List ℕ → M (List ℕ)
back_loop text zero i buf = pure buf
back_loop text (suc k) i buf = do
  buf' ← write_bytes buf i (get_or text k 0 ∷ []) 1
  back_loop text k (i + 1) buf'

pub reverse : String8 → M String8
reverse s = do
  len ← size s
  if len == 0 then new_empty else do
    chars ← pointer_of s
    ret ← new_text chars
    ret' ← clear ret
    buf ← bytes_of ret'
    text ← text_of s
    buf' ← back_loop text len 0 buf
    put_bytes ret' buf'
    pure ret'

pub remove_one : List ℕ → String8 → M Bool
remove_one key s = do
  text ← text_of s
  k ← read_text key
  elim (strstr text k) [
    | none ↦ pure false
    | some start ↦
        (bytes_of s >>= (λ bytes.
          write_at s start (drop (start + length k) bytes) (length text - (start + length k))
          >> (end_at s (length text - length k) >> pure true)))
  ]

-- The loop of `removeAll`; `none` means that the fuel ran out.
pub remove_loop : ℕ → List ℕ → String8 → M (Option (Unit {0}))
remove_loop zero key s = pure none
remove_loop (suc fuel) key s =
    let again = remove_loop fuel key s in
    remove_one key s >>= (λ found. if found then again else pure (some tt))

pub remove_all : ℕ → List ℕ → String8 → M (Option String8)
remove_all fuel key s = do
  s' ← detach s
  ended ← remove_loop fuel key s'
  pure (Option.map (λ _. s') ended)

-- The loop of `replaceAll` over the text, and the count: a NUL that is put in ends the text.
pub replace_chars : ℕ → ℕ → List ℕ → List ℕ × ℕ
replace_chars o n [] = ([], 0)
replace_chars o n (c ∷ cs) =
    let (rest, count) = replace_chars o n cs in
    if c == o then if n == 0 then (0 ∷ cs, 1) else (n ∷ rest, count + 1) else (c ∷ rest, count)

pub replace_all : ℕ → ℕ → String8 → M ℕ
replace_all o n s = if n == o then pure 0 else do
  text ← text_of s
  bytes ← bytes_of s
  put_bytes s ((replace_chars o n text).0 ++ drop (length text) bytes)
  pure (replace_chars o n text).1

-- Characters from `start` up to `end`, each changed by `f`.
pub recase : (ℕ → ℕ) → ℕ → ℕ → List ℕ → List ℕ
recase f start end text =
    if ltb start (length text)
    then take start text ++ (map f (drop start (take end text)) ++ drop (max start end) text)
    else text

pub to_lower : ℕ → ℕ → String8 → M (Unit {0})
to_lower start end s = do
  text ← text_of s
  bytes ← bytes_of s
  put_bytes s (recase tolower start end text ++ drop (length text) bytes)

pub to_upper : ℕ → ℕ → String8 → M (Unit {0})
to_upper start end s = do
  text ← text_of s
  bytes ← bytes_of s
  put_bytes s (recase toupper start end text ++ drop (length text) bytes)

pub to_lower_all : String8 → M (Unit {0})
to_lower_all s = do n ← size s; to_lower 0 n s

pub to_upper_all : String8 → M (Unit {0})
to_upper_all s = do n ← size s; to_upper 0 n s

-- `formatV`, with the text that `vsnprintf` prints, absent where it fails.
pub format : Option (List ℕ) → M String8
format none = new_empty
format (some chars) = do
  result ← new_empty
  if length chars == 0 then pure result else do
    q ← alloc (length chars + 1)
    elim q [
      | none ↦ (new_empty >>= (λ s. release result >>= (λ _. pure s)))
      | some p ↦
          (store p (some (record { refs = 1; bytes = chars ++ 0 ∷ [] }))
            >> (release result >>= (λ _. pure (record { str = some p; capacity = length chars }))))
    ]

-- `appendFormatV`: what is returned, absent where it is negative, and the string.
pub append_format : Option (List ℕ) → String8 → M (Option ℕ × String8)
append_format none s = pure (none, s)
append_format (some out) s = if length out == 0 then pure (some 0, s) else do
  old ← size s
  if leb max_chars (old + length out) then pure (none, s) else do
    s' ← detach s
    q ←
        (if ltb s'.capacity (old + length out)
          then null_or s'.str fault (λ p. edit_resize p (old + length out + 1))
          else pure s'.str)
    elim q [
      | none ↦ pure (none, s')
      | some a ↦
          (let s'' : String8 = record {
            str = some a;
            capacity = max s'.capacity (old + length out);
          } in
            write_at s'' old (out ++ 0 ∷ []) (length out + 1) >> pure (some (length out), s''))
    ]
