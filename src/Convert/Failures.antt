-- ===== src/Convert/Failures.antt =====
-- `UTF82GBK` on texts that it may refuse.
use alias.Prelude.{
  ℕ, zero, suc, ◌≡◌, refl, ◌⊎◌, inl, inr, Bool, true, false, ◌&&◌, leb, if◌then◌else◌, List, [],
  ◌∷◌, ◌++◌, Option, none, some, length, take, drop, Option-cases,
}
use alias.Outcome.{Outcome, ok, Returns}
use alias.Convert.{
  get_char, c_text, Descriptor, convert_chars, utf8_to_gbk, is_ansii, is_2byte, is_3byte, is_4byte,
  extras,
}

abbrev IsOk {ℓ} : {A : Type ℓ} → Outcome A → Type ℓ
IsOk {A} o = (a : A) × (o ≡ ok a)

if_IsOk {ℓ} :
    {A : Type ℓ} (b : Bool) (m n : Outcome A) → IsOk m → IsOk n → IsOk (if b then m else n)
if_IsOk true m n p q = p
if_IsOk false m n p q = q

get_char-IsOk : (c : ℕ) (cs : List ℕ) → IsOk (get_char (c ∷ cs))
unfolding get_char
get_char-IsOk c cs =
    if_IsOk (is_ansii c) _ _ (some 0, refl)
      (if_IsOk (is_2byte c && leb (length (c ∷ cs)) 1) _ _ (none, refl)
        (if_IsOk (is_2byte c && extras 1 (c ∷ cs)) _ _ (some 2, refl)
          (if_IsOk (is_3byte c && leb (length (c ∷ cs)) 2) _ _ (none, refl)
            (if_IsOk (is_3byte c && extras 2 (c ∷ cs)) _ _ (some 3, refl)
              (if_IsOk (is_4byte c && leb (length (c ∷ cs)) 3) _ _ (none, refl)
                (if_IsOk (is_4byte c && extras 3 (c ∷ cs)) _ _ (some 4, refl) (none, refl)))))))

-- A round of `convert_chars`, by what `getChar` returns.
round-IsOk :
    (fuel : ℕ) (cd : Descriptor) (temp : List ℕ) (c : ℕ) (cs : List ℕ)
    → ((t s : List ℕ) → IsOk (convert_chars fuel cd t s))
    → (o : Option ℕ) → get_char (c ∷ cs) ≡ ok o
    → IsOk (convert_chars (suc fuel) cd temp (c ∷ cs))
unfolding convert_chars
round-IsOk fuel cd temp c cs next none e = (none, rw (e, convert_chars))
round-IsOk fuel cd temp c cs next (some zero) e =
    let (r, run) = next (temp ++ (c ∷ [])) cs in (r, rw (e, convert_chars) run)
round-IsOk fuel cd temp c cs next (some (suc n)) e =
    elim (Option-cases (cd (take (suc n) (c ∷ cs)))) [
      | inl f ↦ (none, rw (e, f, convert_chars))
      | inr (bytes, f) ↦
          let (r, run) = next (temp ++ c_text bytes) (drop (suc n) (c ∷ cs)) in
          (r, rw (e, f, convert_chars) run)
    ]

convert_chars-IsOk :
    (fuel : ℕ) (cd : Descriptor) (temp s : List ℕ) → IsOk (convert_chars fuel cd temp s)
unfolding convert_chars
convert_chars-IsOk zero cd temp [] = (some temp, refl)
convert_chars-IsOk (suc fuel) cd temp [] = (some temp, refl)
convert_chars-IsOk zero cd temp (c ∷ cs) = (none, refl)
convert_chars-IsOk (suc fuel) cd temp (c ∷ cs) =
    let (o, e) = get_char-IsOk c cs in
    round-IsOk fuel cd temp c cs (λ t s. convert_chars-IsOk fuel cd t s) o e

-- On every text and with every descriptor `UTF82GBK` returns: either true, and `out` has got something
-- behind it, or false, and `out` is as before.
pub utf8_to_gbk_lem :
    (cd : Option Descriptor) (out s : List ℕ)
    → Returns
        (utf8_to_gbk cd out s)
        λ r. ((r.0 ≡ true) × (more : List ℕ) × (r.1 ≡ out ++ more)) ⊎ ((r.0 ≡ false) × (r.1 ≡ out))
unfolding utf8_to_gbk
utf8_to_gbk_lem none out s = ((false, out), refl, inr (refl, refl))
utf8_to_gbk_lem (some cd) out s =
    let (r, run) = convert_chars-IsOk (length s) cd [] s in by_result r run
  where
    by_result :
        (r : Option (List ℕ))
        → convert_chars (length s) cd [] s ≡ ok r
        → Returns (utf8_to_gbk (some cd) out s) λ q.
          ((q.0 ≡ true) × (more : List ℕ) × (q.1 ≡ out ++ more)) ⊎ ((q.0 ≡ false) × (q.1 ≡ out))
    by_result none run = ((false, out), rw run, inr (refl, refl))
    by_result (some temp) run = ((true, out ++ temp), rw run, inl (refl, temp, refl))
