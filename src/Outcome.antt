-- ===== src/Outcome.antt =====
-- What a C++ call may do: return, throw an exception, or touch memory that it does not own.
use alias.Prelude.{ℕ, ◌≡◌, ◌==◌, leb, ◌&&◌, ◌++◌, if◌then◌else◌, Option, none, some, List}
use alias.Prelude.{length, take, drop, take_all, drop_all, append-nil, ◌≤◌, arith, refl, ◌∙◌}

pub data Outcome {ℓ} (A : Type ℓ) : Type ℓ where
  ok : A → Outcome A
  throws : Outcome A
  crash : Outcome A

infixl 5 ◌>>=◌
abbrev pub ◌>>=◌ {ℓ κ} : {A : Type ℓ} {B : Type κ} → Outcome A → (A → Outcome B) → Outcome B
ok a >>= f = f a
throws >>= f = throws
crash >>= f = crash

-- `o` returns a value for which `P` holds.
abbrev pub Returns {ℓ κ} : {A : Type ℓ} → Outcome A → (A → Type κ) → Type (ℓ ⊔ κ)
Returns {A} o P = (a : A) × (o ≡ ok a) × P a

-- `memcpy(dst, src, n)` between two blocks; a null pointer is copied from or to only if `n` is 0.
abbrev pub copy_bytes : Option (List ℕ) → Option (List ℕ) → ℕ → Outcome (Option (List ℕ))
copy_bytes none src n = if n == 0 then ok none else crash
copy_bytes (some dst) none n = if n == 0 then ok (some dst) else crash
copy_bytes (some dst) (some src) n =
    if leb n (length src) && leb n (length dst) then ok (some (take n src ++ drop n dst)) else crash

pub copy_bytes_within :
    (dst src : List ℕ) (n : ℕ)
    → n ≤ length src
    → n ≤ length dst
    → copy_bytes (some dst) (some src) n ≡ ok (some (take n src ++ drop n dst))
copy_bytes_within dst src n h k = ground arith

-- A copy of all of the source over all of the destination.
pub copy_bytes_whole :
    (dst src : List ℕ) (n : ℕ)
    → length src ≡ n
    → length dst ≡ n
    → copy_bytes (some dst) (some src) n ≡ ok (some src)
copy_bytes_whole dst src n h k =
    copy_bytes_within dst src n (omega arith) (omega arith)
    ∙ rw (take_all n src (omega arith), drop_all n dst (omega arith), append-nil src)

-- Where a chain returns, its first part returned, and then the rest did.
pub >>=-eq-ok {ℓ κ} :
    {A : Type ℓ} {B : Type κ} (first : Outcome A) (rest : A → Outcome B) {last : B}
    → (first >>= rest) ≡ ok last
    → (mid : A) × (first ≡ ok mid) × (rest mid ≡ ok last)
>>=-eq-ok throws rest run = cc
>>=-eq-ok crash rest run = cc
>>=-eq-ok (ok mid) rest run = (mid, refl, run)
