-- ===== src/String8/Edit/Spans.antt =====
-- What `findNotChar` finds in a text with a character that is to stay.
use alias.Prelude.{
  ℕ, zero, suc, ◌+◌, ◌-◌, ◌≤◌, ◌<◌, ◌==◌, if◌then◌else◌, ◌≡◌, ◌≢◌, refl, true, false, List, [], ◌∷◌,
  ◌++◌, Option, none, some, length, get_or, replicate, arith, ◌∙◌, sym, ap, length-append,
  length-replicate, append_assoc,
}
use alias.Outcome.{ok}
use alias.Buffer.Heap.{Heap, bind_ok}
use alias.String8.{String8, text_of}
use alias.String8.Edit.{first_not, last_not, find_not_char}

pub get_or-append {ℓ} :
    {A : Type ℓ} (xs ys : List A) (k : ℕ) (d : A)
    → get_or (xs ++ ys) (length xs + k) d ≡ get_or ys k d
get_or-append [] ys k d = ap (λ n. get_or ys n d) (let e : zero + k ≡ k = omega arith in e)
get_or-append (x ∷ xs) ys k d =
    ap (λ n. get_or (x ∷ xs ++ ys) n d)
      (let e : suc (length xs) + k ≡ suc (length xs + k) = omega arith in e)
    ∙ get_or-append xs ys k d

get_or-append_left {ℓ} :
    {A : Type ℓ} (xs ys : List A) (k : ℕ) (d : A)
    → k < length xs
    → get_or (xs ++ ys) k d ≡ get_or xs k d
get_or-append_left [] ys k d less = absurd (omega arith)
get_or-append_left (x ∷ xs) ys zero d less = refl
get_or-append_left (x ∷ xs) ys (suc k) d less = get_or-append_left xs ys k d (omega arith)

pub get_or-replicate {ℓ} : {A : Type ℓ} (n k : ℕ) (a d : A) → k < n → get_or (replicate n a) k d ≡ a
get_or-replicate zero k a d less = absurd (omega arith)
get_or-replicate (suc n) zero a d less = refl
get_or-replicate (suc n) (suc k) a d less = get_or-replicate n k a d (omega arith)

first_not_lem : (i c x : ℕ) (xs : List ℕ) → x ≢ c → first_not c (replicate i c ++ x ∷ xs) ≡ some i
unfolding first_not
first_not_lem zero c x xs apart = let other : (x == c) ≡ false = ground arith in rw other
first_not_lem (suc i) c x xs apart = ground (arith, first_not_lem i c x xs apart)

last_not_step :
    (c : ℕ) (text : List ℕ) (i : ℕ)
    → get_or text (suc i) 0 ≡ c
    → last_not c text (suc i) ≡ last_not c text i
unfolding last_not
last_not_step c text i same =
    let skip : (get_or text (suc i) 0 == c) ≡ true = ground arith in rw skip

-- Index 0 is not looked at.
last_not_stop :
    (c : ℕ) (text : List ℕ) (e : ℕ)
    → get_or text e 0 ≢ c
    → last_not c text e ≡ (if e == 0 then none else some e)
unfolding last_not
last_not_stop c text zero apart = refl
last_not_stop c text (suc e) apart =
    let found : (get_or text (suc e) 0 == c) ≡ false = ground arith in
    let later : (suc e == 0) ≡ false = ground arith in rw (found, later)

last_not_down :
    (c : ℕ) (text : List ℕ) (e j : ℕ)
    → ((k : ℕ) → e < k → k ≤ e + j → get_or text k 0 ≡ c)
    → last_not c text (e + j) ≡ last_not c text e
last_not_down c text e zero skipped =
    ap (last_not c text) (let up : e + zero ≡ e = omega arith in up)
last_not_down c text e (suc j) skipped =
    ap (last_not c text) (let up : e + suc j ≡ suc (e + j) = omega arith in up)
    ∙ last_not_step c text (e + j) (skipped (suc (e + j)) (omega arith) (omega arith))
    ∙ last_not_down c text e j (λ k more less. skipped k more (omega arith))

-- A text with `i` characters `c` in front of `mid` and `j` behind it.
abbrev pub padded : ℕ → ℕ → List ℕ → ℕ → List ℕ
padded c i mid j = (replicate i c ++ mid) ++ replicate j c

pub length-padded : (c i j : ℕ) (mid : List ℕ) → length (padded c i mid j) ≡ i + length mid + j
length-padded c i j mid = omega (
  arith,
  length-append (replicate i c ++ mid) (replicate j c),
  length-append (replicate i c) mid,
  length-replicate i c,
  length-replicate j c,
)

-- The characters at both ends of `x ∷ m` are to stay.
module _ (c i j x : ℕ) (m : List ℕ) (first : x ≢ c) (last : get_or (x ∷ m) (length m) 0 ≢ c) where
  text_at_end : get_or (padded c i (x ∷ m) j) (i + length m) 0 ≢ c
  text_at_end e = last (
      sym (get_or-append (replicate i c) (x ∷ m) (length m) 0)
      ∙ sym (
          get_or-append_left (replicate i c ++ x ∷ m) (replicate j c)
            (length (replicate i c) + length m) 0
            (omega (arith, length-append (replicate i c) (x ∷ m))))
      ∙ ap (λ n. get_or (padded c i (x ∷ m) j) (n + length m) 0) (length-replicate i c)
      ∙ e)

  text_behind :
      (k : ℕ) → i + length m < k → k ≤ i + length m + j → get_or (padded c i (x ∷ m) j) k 0 ≡ c
  text_behind k more less =
      let len : length (replicate i c ++ x ∷ m) ≡ i + suc (length m) =
        omega (arith, length-append (replicate i c) (x ∷ m), length-replicate i c) in
      ap (λ n. get_or (padded c i (x ∷ m) j) n 0)
        (let up : k ≡ length (replicate i c ++ x ∷ m) + (k - (i + suc (length m))) =
            omega (arith, len) in
          up)
      ∙ get_or-append (replicate i c ++ x ∷ m) (replicate j c) (k - (i + suc (length m))) 0
      ∙ get_or-replicate j (k - (i + suc (length m))) c 0 (omega arith)

  -- What `findNotChar` finds: the end stays -1 where only the character at index 0 is to stay.
  unfoldable pub found_span : Option ℕ × Option ℕ
  found_span = (some i, (if (i + length m) == 0 then none else some (i + length m)))

  pub find_not_char_lem :
      (h : Heap) (s : String8)
      → text_of s h ≡ ok (padded c i (x ∷ m) j, h)
      → find_not_char c s h ≡ ok (found_span, h)
  unfolding find_not_char found_span
  find_not_char_lem h s run =
      bind_ok (text_of s) _ h run
      ∙ rw (
        ap (first_not c) (append_assoc (replicate i c) (x ∷ m) (replicate j c)),
        first_not_lem i c x (m ++ replicate j c) first,
        ends,
      )
    where
      ends :
          last_not c (padded c i (x ∷ m) j) (length (padded c i (x ∷ m) j) - 1)
          ≡ (if (i + length m) == 0 then none else some (i + length m))
      ends =
          ap (last_not c (padded c i (x ∷ m) j)) (
            let up : length (padded c i (x ∷ m) j) - 1 ≡ i + length m + j =
              omega (arith, length-padded c i j (x ∷ m)) in
            up)
          ∙ last_not_down c (padded c i (x ∷ m) j) (i + length m) j text_behind
          ∙ last_not_stop c (padded c i (x ∷ m) j) (i + length m) text_at_end
