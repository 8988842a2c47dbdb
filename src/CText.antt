-- ===== src/CText.antt =====
-- Texts of C: bytes up to a NUL, and the functions of string.h that utils/src/string8.cpp calls. A
-- pointer into memory is the list of the bytes from there to the end of the block.
use alias.Prelude.{
  ℕ, ◌+◌, ◌-◌, ◌<◌, ◌==◌, ltb, ◌&&◌, if◌then◌else◌, ◌≡◌, refl, Bool, true, false, List, [], ◌∷◌,
  ◌++◌, map, Option, none, some, All, take, arith,
}
use mathlib.Core.Option
use alias.Buffer.Heap.{Heap, M, pure, fault, ◌>>=◌}
use alias.Outcome.{ok}

-- The text at a pointer; memory without a NUL is read past its end.
unfoldable pub read_text : List ℕ → M (List ℕ)
read_text [] = fault
read_text (c ∷ cs) =
    let rest = read_text cs in if c == 0 then pure [] else (rest >>= (λ t. pure (c ∷ t)))

-- A text holds no NUL.
abbrev pub IsPlain : List ℕ → Type 0
IsPlain t = All (λ c. 0 < c) t

-- Whether `key` stands at the start of a text.
unfoldable pub starts_with : List ℕ → List ℕ → Bool
starts_with [] t = true
starts_with (k ∷ ks) [] = false
starts_with (k ∷ ks) (c ∷ cs) = k == c && starts_with ks cs

-- The position of the first `key` in a text.
unfoldable pub strstr : List ℕ → List ℕ → Option ℕ
strstr [] key = if starts_with key [] then some 0 else none
strstr (c ∷ cs) key =
    if starts_with key (c ∷ cs) then some 0 else Option.map (λ i. i + 1) (strstr cs key)

-- The position of the first `c`; the NUL at the end is found as well.
unfoldable pub strchr : List ℕ → ℕ → Option ℕ
strchr [] c = if c == 0 then some 0 else none
strchr (x ∷ xs) c = if x == c then some 0 else Option.map (λ i. i + 1) (strchr xs c)

-- The sign of what `strcmp` and its kin return.
pub data Sign : Type 0 where
  negative : Sign
  nought : Sign
  positive : Sign

unfoldable pub strcmp : List ℕ → List ℕ → Sign
strcmp [] [] = Sign.nought
strcmp [] (y ∷ ys) = Sign.negative
strcmp (x ∷ xs) [] = Sign.positive
strcmp (x ∷ xs) (y ∷ ys) =
    if x == y then strcmp xs ys else if ltb x y then Sign.negative else Sign.positive

unfoldable pub strncmp : List ℕ → List ℕ → ℕ → Sign
unfolding strcmp
strncmp xs ys n = strcmp (take n xs) (take n ys)

-- A letter of the C locale, in lower and in upper case.
unfoldable pub tolower : ℕ → ℕ
tolower c = if ltb 64 c && ltb c 91 then c + 32 else c

unfoldable pub toupper : ℕ → ℕ
toupper c = if ltb 96 c && ltb c 123 then c - 32 else c

unfoldable pub strcasecmp : List ℕ → List ℕ → Sign
unfolding strcmp tolower
strcasecmp xs ys = strcmp (map tolower xs) (map tolower ys)

-- A text before a NUL is what is read, whatever stands behind.
pub read_text-nul :
    (t rest : List ℕ) (h : Heap) → IsPlain t → read_text (t ++ 0 ∷ rest) h ≡ ok (t, h)
unfolding read_text
read_text-nul [] rest h plain = refl
read_text-nul (c ∷ cs) rest h plain = ground (arith, read_text-nul cs rest h plain.1)

-- Two texts are the same exactly if they compare as such.
pub strcmp_self : (xs : List ℕ) → strcmp xs xs ≡ Sign.nought
unfolding strcmp
strcmp_self [] = refl
strcmp_self (x ∷ xs) = ground (arith, strcmp_self xs)

pub eq_of_strcmp : (xs ys : List ℕ) → strcmp xs ys ≡ Sign.nought → xs ≡ ys
unfolding strcmp
eq_of_strcmp [] [] same = refl
eq_of_strcmp [] (y ∷ ys) same = cc
eq_of_strcmp (x ∷ xs) [] same = cc
eq_of_strcmp (x ∷ xs) (y ∷ ys) same = ground (arith, eq_of_strcmp xs ys)
