-- ===== src/String8.antt =====
-- `String8` of utils/src/string8.cpp and utils/include/utils/string8.h: the owner of a block. A
-- string is a value of its two fields; its text lies in a block of the heap, which several strings
-- may own. The block at address 1 is the one of the empty text, with an owner that never lets go. A
-- pointer that is passed in is the bytes behind it, absent for null, and does not point into the
-- string's own block unless the code passes it one.
pub mod Memory
pub mod Blocks
pub mod Fresh
pub mod Edit
pub mod Search
pub mod Writes
pub mod Append
pub mod Reuse
mod Tests
use alias.Prelude.{
  ℕ, zero, suc, ◌+◌, ◌-◌, ◌^◌, ◌==◌, leb, ltb, min, if◌then◌else◌, Bool, true, false, ◌&&◌, List,
  [], ◌∷◌, ◌++◌, Option, none, some, length, take, drop, replicate,
}
use alias.Outcome.{ok}
use alias.Buffer.Heap.{
  Block, Heap, M, pure, fault, raise, ◌>>=◌, ◌>>◌, load, store, on_block, null_or,
}
use alias.Buffer.Shared.{alloc, acquire, edit_resize}
use alias.Buffer.Shared
use alias.Buffer.ByteBuffer.{write_bytes}
use alias.CText.{read_text}

pub record String8 : Type 0 where
  pub str : Option ℕ
  pub capacity : ℕ

abbrev pub empty_address : ℕ
empty_address = 1

abbrev pub default_size : ℕ
default_size = 128

abbrev pub max_chars : ℕ
max_chars = 2 ^ 20

-- `getEmptyString`, once the block of the empty text is there
pub new_empty : M String8
new_empty = do acquire empty_address; pure (record { str = some empty_address; capacity = 0 })

-- `allocFromUTF8`. A refused request fails the assertion.
pub alloc_text : Option (List ℕ) → ℕ → M (Option ℕ)
alloc_text none n = pure none
alloc_text (some chars) n =
    if ltb 0 n && ltb n max_chars
    then (do
      q ← alloc (n + 1)
      elim q [
        | none ↦ fault
        | some p ↦
            (if leb n (length chars)
              then (store p (some (record { refs = 1; bytes = take n chars ++ 0 ∷ [] }))
                  >> pure (some p))
              else fault)
      ])
    else pure none

-- The constructor from a pointer and a number of characters.
pub new_chars : Option (List ℕ) → ℕ → M String8
new_chars chars n = do
  q ← alloc_text chars n
  elim q [ none ↦ new_empty | some p ↦ pure (record { str = some p; capacity = n }) ]

-- The constructor from a C text.
pub new_text : Option (List ℕ) → M String8
new_text none = fault
new_text (some chars) = do t ← read_text chars; new_chars (some chars) (length t)

-- The constructor from a `std::string` of the bytes.
pub new_std : List ℕ → M String8
new_std bytes = new_chars (some (bytes ++ 0 ∷ [])) (length bytes)

-- A cleared block for `cap` characters.
pub buffer_of : ℕ → M String8
buffer_of cap = do
  q ← alloc (cap + 1)
  elim q [
    | none ↦ raise
    | some p ↦
        (store p (some (record { refs = 1; bytes = replicate (cap + 1) 0 }))
          >> pure (record { str = some p; capacity = cap }))
  ]

-- `getBuffer`: the block, and the capacity that it sets.
pub get_buffer : ℕ → M String8
get_buffer n =
    if ltb n default_size
    then buffer_of default_size
    else if ltb n max_chars
    then buffer_of n
    else raise

-- `String8(uint32_t)`
pub new_sized : ℕ → M String8
new_sized n = get_buffer n

pub detach : String8 → M String8
detach s = null_or s.str (get_buffer 0) λ p. load p >>= (λ b.
    if b.refs == 1
    then pure s
    else (edit_resize p (s.capacity + 1)
        >>= (λ q. elim q [ none ↦ fault | some a ↦ pure (record s { str = some a }) ])))

pub release : String8 → M String8
release s =
    null_or s.str (pure (record { str = none; capacity = 0 }))
      λ p. Shared.release false p >>= (λ _. pure (record { str = none; capacity = 0 }))

-- The copy constructor.
pub copy : String8 → M String8
copy s = null_or s.str raise (λ p. acquire p >> pure s)

-- The move constructor: the new string and what is left of the other one.
pub move : String8 → M (String8 × String8)
move other = do fresh_empty ← new_empty; on_block other.str (λ _. pure (other, fresh_empty))

-- `operator=`. `same` says that both sides are one object.
pub assign : Bool → String8 → String8 → M String8
assign same self other =
    if same
    then pure self
    else do _ ← release self; on_block other.str (λ p. acquire p >> pure other)

-- `operator=(String8 &&)`: both strings, the target first
pub move_assign : Bool → String8 → String8 → String8 × String8
move_assign same self other = if same then (self, other) else (other, self)

-- The bytes of the block, and a change of them.
pub bytes_of : String8 → M (List ℕ)
bytes_of s = on_block s.str (λ p. load p >>= (λ b. pure b.bytes))

pub put_bytes : String8 → List ℕ → M (Unit {0})
put_bytes s bytes =
    on_block s.str (λ p. load p >>= (λ b. store p (some (record b { bytes = bytes }))))

-- The text from `mString` on.
pub text_of : String8 → M (List ℕ)
text_of s = do bytes ← bytes_of s; read_text bytes

pub size : String8 → M ℕ
size s = null_or s.str (pure 0) (λ _. text_of s >>= (λ t. pure (length t)))

pub is_empty : String8 → M Bool
is_empty s = do bytes ← bytes_of s; elim bytes [ [] ↦ fault | c ∷ cs ↦ pure (c == 0) ]

pub clear : String8 → M String8
clear s = do
  s' ← detach s
  bytes ← bytes_of s'
  t ← read_text bytes
  put_bytes s' (replicate (length t) 0 ++ drop (length t) bytes)
  pure s'

-- A write of `n` characters of `chars` at offset `off` of the string's own block.
pub write_at : String8 → ℕ → List ℕ → ℕ → M (Unit {0})
write_at s off chars n = do
  bytes ← bytes_of s
  bytes' ← write_bytes bytes off chars n
  put_bytes s bytes'

-- The branches of `setTo` that take a new block.
pub fill_new : List ℕ → ℕ → M (Option ℕ × String8)
fill_new chars k = do s' ← get_buffer k; write_at s' 0 chars k; pure (some k, s')

-- The last branch of `setTo`, with other owners: only the pointer is swapped with the temporary's.
pub swap_text : List ℕ → ℕ → String8 → M (Option ℕ × String8)
swap_text chars n s = do
  temp ← new_chars (some chars) n
  _ ← release s
  pure (some 0, record s { str = temp.str })

-- `setTo`: what is returned, absent for `INVALID_PARAM`, and the string.
pub set_to : Option (List ℕ) → ℕ → String8 → M (Option ℕ × String8)
set_to none n s = pure (none, s)
set_to (some chars) n s = if n == 0 then pure (none, s) else do
  other ← read_text chars
  let k = min n (length other)
  null_or s.str (fill_new chars k) λ p.
      if ltb s.capacity k
      then (release s >>= (λ _. fill_new chars k))
      else load p >>= (λ b.
        if b.refs == 1
        then (clear s >>= (λ s'. write_at s' 0 chars k >> pure (some k, s')))
        else swap_text chars k s)

-- `n` characters behind the text of `old`, and the NUL behind them.
pub write_ended : String8 → ℕ → List ℕ → ℕ → M (Unit {0})
write_ended s old chars n = do write_at s old chars n; write_at s (n + old) (0 ∷ []) 1

-- The end of `append`, for `k` characters behind the text of `old`, `k` and `old` together at most
-- what is allowed.
pub append_room : List ℕ → ℕ → ℕ → String8 → M (Option ℕ × String8)
append_room chars k old s =
    if ltb (k + old) s.capacity
    then (do s' ← detach s; write_ended s' old chars k; pure (some k, s'))
    else (do
      s' ← get_buffer (k + old)
      bytes ← bytes_of s
      write_at s' 0 bytes old
      write_at s' old chars k
      _ ← release s
      pure (some k, s'))

pub append : Option (List ℕ) → ℕ → String8 → M (Option ℕ × String8)
append none n s = pure (some 0, s)
append (some chars) n s = if n == 0 then pure (some 0, s) else do
  old ← size s
  if old == 0 then set_to (some chars) n s else do
    other ← read_text chars
    if min n (length other) == 0
        then pure (some 0, s)
        else append_room chars (min n (length other)) old s

-- The overloads of `append`, and the operators that call them.
pub append_char : ℕ → String8 → M (Option ℕ × String8)
append_char c s = append (some (c ∷ 0 ∷ [])) 1 s

pub append_string : String8 → String8 → M (Option ℕ × String8)
append_string other s = do
  n ← size other
  null_or other.str (append none n s) (λ _. bytes_of other >>= (λ chars. append (some chars) n s))

pub append_text : Option (List ℕ) → String8 → M (Option ℕ × String8)
append_text none s = fault
append_text (some chars) s = do t ← read_text chars; append (some chars) (length t) s

pub plus : String8 → String8 → M String8
plus s other = do temp ← copy s; (_, temp') ← append_string other temp; pure temp'
