-- ===== src/Buffer/Heap.antt =====
-- The memory that the buffers live in, and the calls of a program that changes it.
use alias.Prelude.{ℕ, ◌+◌, ◌≤◌, ◌≡◌, ◌==◌, Bool, List, Option, none, some, if◌then◌else◌, ◌≢◌, ◌⊎◌}
use alias.Outcome.{Outcome, ok, throws, crash}

-- A `SharedBuffer`: its reference count and the bytes behind its header. `mSize` is their number.
pub record Block : Type 0 where
  pub refs : ℕ
  pub bytes : List ℕ

-- `grants n` says whether the `n`-th request for memory succeeds; `next` counts the requests and is
-- the address that the next one gets. `junk` stands for the bytes of memory not yet written.
pub record Heap : Type 0 where
  pub next : ℕ
  pub cell : ℕ → Option Block
  pub grants : ℕ → Bool
  pub junk : ℕ

abbrev pub M : Type 0 → Type 0
M A = Heap → Outcome (A × Heap)

abbrev pub pure : {A : Type 0} → A → M A
pure a h = ok (a, h)

abbrev pub fault : {A : Type 0} → M A
fault h = crash

abbrev pub raise : {A : Type 0} → M A
raise h = throws

infixl 5 ◌>>=◌ ◌>>◌
abbrev pub ◌>>=◌ : {A B : Type 0} → M A → (A → M B) → M B
◌>>=◌ m f h = elim (m h) [ crash ↦ crash | throws ↦ throws | ok (a, next_heap) ↦ f a next_heap ]

abbrev pub ◌>>◌ : {B : Type 0} → M (Unit {0}) → M B → M B
m >> k = m >>= λ _. k

abbrev pub update : (ℕ → Option Block) → ℕ → Option Block → ℕ → Option Block
update f p v q = if q == p then v else f q

-- The block at an address; a freed or foreign address is a fault.
abbrev pub load : ℕ → M Block
load p h = elim (h.cell p) [ none ↦ crash | some b ↦ ok (b, h) ]

abbrev pub store : ℕ → Option Block → M (Unit {0})
store p v h = ok (tt, record h { cell = update h.cell p v })

-- `malloc` or `realloc`: whether this request is met. It takes up an address in either case.
abbrev pub request : M (Bool × ℕ)
request h = ok ((h.grants h.next, h.next), record h { next = h.next + 1 })

abbrev pub junk_byte : M ℕ
junk_byte h = ok (h.junk, h)

-- No block lies at an address that is still to be given out.
abbrev pub IsFresh : Heap → Type 0
IsFresh h = (x : ℕ) → h.next ≤ x → h.cell x ≡ none

-- Blocks other than the one at `p`, and that one too if it has another owner, keep their bytes.
abbrev pub Keeps : Heap → ℕ → Heap → Type 0
Keeps h p h' =
    (x : ℕ) (b : Block)
    → h.cell x ≡ some b
    → (x ≢ p) ⊎ (b.refs ≢ 1)
    → (b' : Block) × (h'.cell x ≡ some b') × (b'.bytes ≡ b.bytes)

pub load-bind :
    {A : Type 0} (f : Block → M A) (p : ℕ) (h : Heap) {b : Block}
    → h.cell p ≡ some b
    → (load p >>= f) h ≡ f b h
load-bind f p h e = rw (e, ◌>>=◌)

pub bind_ok :
    {A B : Type 0} (m : M A) (f : A → M B) (h : Heap) {a : A} {h' : Heap}
    → m h ≡ ok (a, h')
    → (m >>= f) h ≡ f a h'
bind_ok m f h e = rw (e, ◌>>=◌)

-- What is done with the block of a buffer, whose pointer must not be null.
unfoldable pub on_block : {A : Type 0} → Option ℕ → (ℕ → M A) → M A
on_block none f = fault
on_block (some p) f = f p

pub on_block-some :
    {A : Type 0} (f : ℕ → M A) (o : Option ℕ) (h : Heap) {p : ℕ}
    → o ≡ some p
    → on_block o f h ≡ f p h
unfolding on_block
on_block-some f o h e = rw e

-- What is done where a pointer is null, and where it is not.
unfoldable pub null_or : {A : Type 0} → Option ℕ → M A → (ℕ → M A) → M A
null_or none z f = z
null_or (some p) z f = f p

pub null_or-some :
    {A : Type 0} (z : M A) (f : ℕ → M A) (o : Option ℕ) (h : Heap) {p : ℕ}
    → o ≡ some p
    → null_or o z f h ≡ f p h
unfolding null_or
null_or-some z f o h e = rw e
