-- ===== src/String8/Search/Borders.antt =====
-- Texts that start with a key, and how far a search may go on after a part of the key was found.
use alias.Prelude.{
  ℕ, zero, suc, ◌+◌, ◌-◌, ◌≤◌, ◌<◌, ◌==◌, max, ◌≡◌, refl, true, false, List, [], ◌∷◌, Option, none,
  some, length, take, drop, arith, Bool-cases, inl, inr, ◌∙◌, sym, ap, take-take, take_all,
  take-drop, length-drop, length-take,
}
use mathlib.Core.Option
use alias.CText.{starts_with, strstr, strncmp, Sign, strcmp_self}
use alias.String8.Search.{agreeing, longest_border, raise_max, Answer, at_index, absent}

-- A position in the text from `i` on, as a position in the whole.
abbrev pub found_from : ℕ → Option ℕ → Answer
found_from i none = absent
found_from i (some k) = at_index (i + k)

pub agreeing_bounds : (t key : List ℕ) → (agreeing t key ≤ length t) × (agreeing t key ≤ length key)
unfolding agreeing
agreeing_bounds [] [] = (omega arith, omega arith)
agreeing_bounds (c ∷ cs) [] = (omega arith, omega arith)
agreeing_bounds [] (k ∷ ks) = (omega arith, omega arith)
agreeing_bounds (c ∷ cs) (k ∷ ks) =
    let (a, b) = agreeing_bounds cs ks in (ground arith, ground arith)

pub take-agreeing : (t key : List ℕ) → take (agreeing t key) t ≡ take (agreeing t key) key
unfolding agreeing
take-agreeing [] [] = refl
take-agreeing (c ∷ cs) [] = refl
take-agreeing [] (k ∷ ks) = refl
take-agreeing (c ∷ cs) (k ∷ ks) = elim (Bool-cases (c == k)) [
  | inl same ↦
      let e : c ≡ k = ground arith in
      rw
        (
          same,
          (let up : agreeing cs ks + 1 ≡ suc (agreeing cs ks) = omega arith in up),
          e,
          take-agreeing cs ks,
        )
        refl
  | inr other ↦ rw other
]

pub starts_with-all : (t key : List ℕ) → agreeing t key ≡ length key → starts_with key t ≡ true
unfolding agreeing starts_with
starts_with-all t [] e = refl
starts_with-all [] (k ∷ ks) e = absurd (omega arith)
starts_with-all (c ∷ cs) (k ∷ ks) e = ground (arith, starts_with-all cs ks)

pub starts_with-part : (t key : List ℕ) → agreeing t key < length key → starts_with key t ≡ false
unfolding agreeing starts_with
starts_with-part t [] e = absurd (omega arith)
starts_with-part [] (k ∷ ks) e = refl
starts_with-part (c ∷ cs) (k ∷ ks) e = ground (arith, starts_with-part cs ks)

pub take-starts_with : (t key : List ℕ) → starts_with key t ≡ true → take (length key) t ≡ key
unfolding starts_with
take-starts_with t [] e = refl
take-starts_with [] (k ∷ ks) e = cc
take-starts_with (c ∷ cs) (k ∷ ks) e = ground (arith, take-starts_with cs ks)

-- Where the key does not start at any of the next `n` places, the search may go on behind them.
pub strstr-skip :
    (n i : ℕ) (t key : List ℕ)
    → ((d : ℕ) → d < n → starts_with key (drop d t) ≡ false)
    → n ≤ length t
    → found_from i (strstr t key) ≡ found_from (i + n) (strstr (drop n t) key)
unfolding strstr
strstr-skip zero i t key free le =
    ap (λ k. found_from k (strstr t key)) (let e : i ≡ i + zero = omega arith in e)
strstr-skip (suc n) i [] key free le = absurd (omega arith)
strstr-skip (suc n) i (c ∷ cs) key free le = rw (free 0 (omega arith)) (
    later (strstr cs key)
    ∙ strstr-skip n (i + 1) cs key (λ d less. free (suc d) (omega arith)) (omega arith)
    ∙ ap (λ k. found_from k (strstr (drop n cs) key))
        (let e : i + 1 + n ≡ i + suc n = omega arith in e))
  where
    later : (o : Option ℕ) → found_from i (Option.map (λ k. k + 1) o) ≡ found_from (i + 1) o
    later none = refl
    later (some k) = ap at_index (omega arith)

pub strstr-here :
    (i : ℕ) (t key : List ℕ) → starts_with key t ≡ true → found_from i (strstr t key) ≡ at_index i
unfolding strstr
strstr-here i [] key e = rw e (ap at_index (omega arith))
strstr-here i (c ∷ cs) key e = rw e (ap at_index (omega arith))

-- The start of a text of length `k` stands at its end as well.
abbrev pub IsBorder : List ℕ → ℕ → Type 0
IsBorder t k = take k (drop (length t - k) t) ≡ take k t

-- `m` is as long as any border that is not the whole.
abbrev pub BoundsBorders : List ℕ → ℕ → Type 0
BoundsBorders t m = (k : ℕ) → 0 < k → k < length t → IsBorder t k → k ≤ m

raise_max_lem :
    (c : Sign) (k best : ℕ)
    → (best ≤ raise_max c k best)
      × (raise_max c k best ≤ max best k)
      × (c ≡ Sign.nought → k ≤ raise_max c k best)
unfolding raise_max
raise_max_lem Sign.nought k best = (ground arith, ground arith, λ e. ground arith)
raise_max_lem Sign.negative k best = (omega arith, omega arith, λ e. cc)
raise_max_lem Sign.positive k best = (omega arith, omega arith, λ e. cc)

-- The loop of `getNext` finds no less than the longest border among those that it tries.
pub longest_border_lem :
    (t : List ℕ) (rounds k best : ℕ)
    → (longest_border t (length t) rounds k best ≤ max best (k + rounds - 1))
      × (best ≤ longest_border t (length t) rounds k best)
      × ((j : ℕ)
          → k ≤ j
          → j < k + rounds
          → IsBorder t j
          → j ≤ longest_border t (length t) rounds k best)
unfolding longest_border strncmp
longest_border_lem t zero k best = (omega arith, omega arith, λ j le less b. absurd (omega arith))
longest_border_lem t (suc rounds) k best =
    let c = strncmp (drop (length t - k) t) t k in
    let (above, below, taken) = raise_max_lem c k best in
    let (limit, more, all) = longest_border_lem t rounds (k + 1) (raise_max c k best) in
    (
      omega arith,
      omega arith,
      λ j le less b. elim (Bool-cases (j == k)) [
        | inl same ↦
            let e : k ≡ j = ground arith in
            omega (arith, more, taken (rw e (rw b (strcmp_self (take j t)))))
        | inr other ↦ all j (ground arith) (omega arith) b
      ],
    )

-- A key that agrees with a text for `j` characters does not start at any place before `j - m`.
pub skip_free :
    (t key : List ℕ) (m : ℕ)
    → agreeing t key < length key
    → BoundsBorders (take (agreeing t key) key) m
    → (d : ℕ) → d < agreeing t key - m
    → starts_with key (drop d t) ≡ false
skip_free t key m part bounds zero less = starts_with-part t key part
skip_free t key m part bounds (suc d) less = elim (Bool-cases (starts_with key (drop (suc d) t))) [
  | inr not_here ↦ not_here
  | inl here ↦ absurd (omega (arith, bounds (j - suc d) (omega arith) shorter (border here)))
]
  where
    j : ℕ
    j = agreeing t key

    length_j : length (take j key) ≡ j
    length_j = omega (arith, length-take j key, agreeing_bounds t key)

    shorter : j - suc d < length (take j key)
    shorter = omega (arith, length_j)

    border : starts_with key (drop (suc d) t) ≡ true → IsBorder (take j key) (j - suc d)
    border here =
        let e : length (take j key) - (j - suc d) ≡ suc d = omega (arith, length_j) in
        rw e (
          take_all (j - suc d) (drop (suc d) (take j key))
            (omega (arith, length-drop (suc d) (take j key), length_j))
          ∙ ap (drop (suc d)) (sym (take-agreeing t key))
          ∙ ap (λ n. drop (suc d) (take n t)) (let up : j ≡ suc d + (j - suc d) = omega arith in up)
          ∙ sym (take-drop (j - suc d) (suc d) t)
          ∙ sym (take-take (j - suc d) (length key) (drop (suc d) t) (omega arith))
          ∙ ap (take (j - suc d)) (take-starts_with (drop (suc d) t) key here)
          ∙ sym (take-take (j - suc d) j key (omega arith)))
