-- ===== src/Convert.antt =====
-- The text conversions of utils/src/convert.cpp. A text is the list of its bytes. `iconv` stands
-- outside of the repository: what a descriptor converts is an argument.
pub mod Chars
pub mod Texts
pub mod Failures
mod Tests
use alias.Prelude.{
  ℕ, zero, suc, ◌-◌, ◌==◌, leb, ltb, if◌then◌else◌, Bool, true, false, ◌&&◌, List, [], ◌∷◌, ◌++◌,
  Option, none, some, length, get_or, take, drop,
}
use alias.Outcome.{Outcome, ok, throws, crash, ◌>>=◌}

-- The macros on a byte.
pub is_ansii : ℕ → Bool
is_ansii c = ltb 0x00 c && ltb c 0x80

pub is_2byte : ℕ → Bool
is_2byte c = ltb 0xc0 c && ltb c 0xe0

pub is_3byte : ℕ → Bool
is_3byte c = ltb 0xe0 c && ltb c 0xf0

pub is_4byte : ℕ → Bool
is_4byte c = ltb 0xf0 c && ltb c 0xf8

pub is_extra : ℕ → Bool
is_extra c = ltb 0x80 c && ltb c 0xc0

-- Whether bytes 1 to `k` of a text are `is_extra`; the callers have tested that they are there.
pub extras : ℕ → List ℕ → Bool
extras zero s = true
extras (suc k) s = extras k s && is_extra (get_or s (suc k) 0)

-- The rest of a round of `isUTF8Encode` from a lead byte of `n` bytes on: what the loop goes on with,
-- `none` for the early return.
pub sequence : ℕ → Bool → List ℕ → Option (Bool × List ℕ)
sequence n is_utf8 s =
    if leb (length s) (n - 1)
    then none
    else some ((if extras (n - 1) s then true else is_utf8), drop n s)

-- A round of the loop, for a text that is not empty.
pub round : Bool → ℕ → List ℕ → Option (Bool × List ℕ)
round is_utf8 c cs =
    if is_ansii c
    then some (is_utf8, cs)
    else if is_2byte c
    then sequence 2 is_utf8 (c ∷ cs)
    else if is_3byte c
    then sequence 3 is_utf8 (c ∷ cs)
    else if is_4byte c
    then sequence 4 is_utf8 (c ∷ cs)
    else none

-- Each round takes at least a byte, so that as many rounds as there are bytes are enough.
pub rounds : ℕ → Bool → List ℕ → Bool
rounds fuel is_utf8 [] = is_utf8
rounds zero is_utf8 (c ∷ cs) = false
rounds (suc fuel) is_utf8 (c ∷ cs) = elim (round is_utf8 c cs) [
  | none ↦ false
  | some (flag, rest) ↦ rounds fuel flag rest
]

pub is_utf8_encode : List ℕ → Bool
is_utf8_encode s = rounds (length s) false s

-- `getChar`: `none` is -1. An empty text fails the assertion.
pub get_char : List ℕ → Outcome (Option ℕ)
get_char [] = crash
get_char (c ∷ cs) =
    let s = c ∷ cs in
    if is_ansii c
    then ok (some 0)
    else if is_2byte c && leb (length s) 1
    then ok none
    else if is_2byte c && extras 1 s
    then ok (some 2)
    else if is_3byte c && leb (length s) 2
    then ok none
    else if is_3byte c && extras 2 s
    then ok (some 3)
    else if is_4byte c && leb (length s) 3
    then ok none
    else if is_4byte c && extras 3 s
    then ok (some 4)
    else ok none

-- The bytes of a buffer before its first NUL. The 32 bytes of the output buffer are cleared for each
-- character, which fills a few of them.
pub c_text : List ℕ → List ℕ
c_text [] = []
c_text (c ∷ cs) = if c == 0 then [] else c ∷ c_text cs

-- A descriptor: what `iconv` writes to the output buffer for a character, `none` where it fails.
abbrev pub Descriptor : Type 0
Descriptor = List ℕ → Option (List ℕ)

-- What `UTF82GBK` has appended to `temp`, `none` where it stops.
pub convert_chars : ℕ → Descriptor → List ℕ → List ℕ → Outcome (Option (List ℕ))
convert_chars fuel cd temp [] = ok (some temp)
convert_chars zero cd temp (c ∷ cs) = ok none
convert_chars (suc fuel) cd temp (c ∷ cs) = get_char (c ∷ cs) >>= (λ bytes. elim bytes [
  | none ↦ ok none
  | some zero ↦ convert_chars fuel cd (temp ++ (c ∷ [])) cs
  | some (suc n) ↦ elim (cd (take (suc n) (c ∷ cs))) [
    | none ↦ ok none
    | some converted ↦ convert_chars fuel cd (temp ++ c_text converted) (drop (suc n) (c ∷ cs))
  ]
])

-- `UTF82GBK`: whether it worked, and `out` afterwards; the descriptor is absent if it is null.
pub utf8_to_gbk : Option Descriptor → List ℕ → List ℕ → Outcome (Bool × List ℕ)
utf8_to_gbk none out text = ok (false, out)
utf8_to_gbk (some cd) out text =
    convert_chars (length text) cd [] text
    >>= (λ r. elim r [ none ↦ ok (false, out) | some temp ↦ ok (true, out ++ temp) ])

-- `GBK2UTF8` converts nothing.
pub gbk_to_utf8 : Option Descriptor → List ℕ → List ℕ → Bool × List ℕ
gbk_to_utf8 cd out text = (false, out)
