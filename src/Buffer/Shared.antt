-- ===== src/Buffer/Shared.antt =====
-- `SharedBuffer` of utils/src/sharedbuffer.cpp, on a heap. The reference count is an `int32_t`: the
-- model takes it that no block has 2 ^ 31 owners.
pub mod Laws
use alias.Prelude.{
  ℕ, zero, suc, ◌+◌, ◌-◌, ◌^◌, ◌==◌, leb, ltb, min, if◌then◌else◌, Bool, true, false, List, [],
  ◌++◌, Option, none, some, length, take, drop, replicate,
}
use alias.Outcome.{Outcome, ok, throws, crash}
use alias.Buffer.Heap.{
  Block, Heap, M, pure, fault, ◌>>=◌, ◌>>◌, update, load, store, request, junk_byte,
}

-- `SIZE_MAX - sizeof(SharedBuffer)`, with the header of 24 bytes of a 64-bit build
abbrev pub max_size : ℕ
max_size = 2 ^ 64 - 1 - 24

-- The assertion that the size fits.
pub check_size : ℕ → M (Unit {0})
check_size n = if ltb n max_size then pure tt else fault

-- The address of a new block with one owner, if there is memory.
pub alloc : ℕ → M (Option ℕ)
alloc n = do
  check_size n
  (granted, p) ← request
  junk ← junk_byte
  if granted
      then (store p (some (record { refs = 1; bytes = replicate n junk })) >> pure (some p))
      else pure none

pub acquire : ℕ → M (Unit {0})
acquire p = do b ← load p; store p (some (record b { refs = b.refs + 1 }))

-- The count before the call. `keep` is the flag `eKeepStorage`.
unfoldable pub release : Bool → ℕ → M ℕ
release keep p = do
  b ← load p
  if b.refs == 1
      then (store p (if keep then some (record b { refs = 0 }) else none) >> pure 1)
      else (store p (some (record b { refs = b.refs - 1 })) >> pure b.refs)

-- The end of `edit` and `editResize`: a new block gets the bytes, and the old one is released.
pub move_to : ℕ → Option ℕ → List ℕ → M (Option ℕ)
move_to p none bytes = pure none
move_to p (some q) bytes = do
  b ← load q
  store q (some (record b { bytes = bytes }))
  _ ← release false p
  pure (some q)

pub edit : ℕ → M (Option ℕ)
edit p = do
  b ← load p
  if b.refs == 1 then pure (some p) else do q ← alloc (length b.bytes); move_to p q b.bytes

-- What a block of `n` bytes keeps of `bytes`, `pad` behind it.
abbrev pub resized : ℕ → ℕ → List ℕ → List ℕ
resized n pad bytes = take n bytes ++ replicate (n - length bytes) pad

-- The path of `editResize` that copies into a new block, cleared first.
pub copy_resize : ℕ → ℕ → List ℕ → M (Option ℕ)
copy_resize p n bytes = do q ← alloc n; move_to p q (resized n 0 bytes)

pub edit_resize : ℕ → ℕ → M (Option ℕ)
edit_resize p n = do
  b ← load p
  if b.refs == 1
      then (if length b.bytes == n then pure (some p) else do
        check_size n
        (granted, _) ← request
        junk ← junk_byte
        if granted
            then (store p (some (record b { bytes = resized n junk b.bytes })) >> pure (some p))
            else copy_resize p n b.bytes)
      else copy_resize p n b.bytes

pub attempt_edit : ℕ → M (Option ℕ)
attempt_edit p = do b ← load p; pure (if b.refs == 1 then some p else none)

-- A new block without the bytes.
pub reset : ℕ → ℕ → M (Option ℕ)
reset p n = do
  q ← alloc n
  elim q [ none ↦ pure none | some a ↦ (release false p >>= (λ _. pure (some a))) ]
