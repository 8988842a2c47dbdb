-- ===== src/String8/Memory.antt =====
-- What the block of a string holds, and the steps that allocate and free blocks.
use alias.Prelude.{
  ℕ, ◌+◌, ◌<◌, ◌≡◌, ◌≢◌, refl, inl, true, List, ◌∷◌, ◌++◌, some, length, arith, ◌∙◌, ap,
  length-append,
}
use alias.Outcome.{ok}
use alias.Buffer.Heap.{Block, Heap, IsFresh, load-bind, bind_ok, on_block-some, null_or-some}
use alias.Buffer.Shared.Laws.{Edits}
use alias.Buffer.ByteBuffer.Write.{with_bytes, with_bytes-Keeps, with_bytes-IsFresh}
use alias.CText.{IsPlain, read_text-nul}
use alias.String8.{String8, max_chars, bytes_of, put_bytes, text_of, size}

-- The string's block: its owners, the text, and what lies behind the NUL.
pub record Holds (h : Heap) (s : String8) (refs : ℕ) (text rest : List ℕ) : Type 0 where
  pub address : ℕ
  pub points : s.str ≡ some address
  pub at : h.cell address ≡ some (record { refs = refs; bytes = text ++ 0 ∷ rest })
  pub room : length text + length rest ≡ s.capacity
  pub plain : IsPlain text
  pub limit : s.capacity < max_chars
  pub fresh : IsFresh h

-- Every request for memory is met.
abbrev pub IsGranting : Heap → Type 0
IsGranting h = (x : ℕ) → h.grants x ≡ true

-- A string of its own block, made of the one whose block is at `p`.
pub record Gives (h : Heap) (p : ℕ) (text rest : List ℕ) (s' : String8) (h' : Heap) : Type 0 where
  pub address : ℕ
  pub points : s'.str ≡ some address
  pub edits : Edits (λ bs. bs ≡ text ++ 0 ∷ rest) h p address h'
  pub room : length text + length rest ≡ s'.capacity
  pub plain : IsPlain text
  pub limit : s'.capacity < max_chars

pub Gives-cell :
    (h : Heap) (p : ℕ) (text rest : List ℕ) (s' : String8) (h' : Heap)
    (g : Gives h p text rest s' h')
    → h'.cell g.address ≡ some (record { refs = 1; bytes = text ++ 0 ∷ rest })
Gives-cell h p text rest s' h' g = rw (← g.edits.good) g.edits.mine

pub Gives→Holds :
    (h : Heap) (p : ℕ) (text rest : List ℕ) (s' : String8) (h' : Heap)
    → Gives h p text rest s' h'
    → Holds h' s' 1 text rest
Gives→Holds h p text rest s' h' g = record {
  address = g.address;
  points = g.points;
  at = Gives-cell h p text rest s' h' g;
  room = g.room;
  plain = g.plain;
  limit = g.limit;
  fresh = g.edits.fresh;
}

-- A heap with one block more, at the next address.
pub record Added (bytes : List ℕ) (h : Heap) (q : ℕ) (h' : Heap) : Type 0 where
  pub next : q ≡ h.next
  pub mine : h'.cell q ≡ some (record { refs = 1; bytes = bytes })
  pub others : (x : ℕ) → x ≢ q → h'.cell x ≡ h.cell x
  pub up : h'.next ≡ h.next + 1
  pub grants : (x : ℕ) → h'.grants x ≡ h.grants x

pub bytes_of_block :
    (h : Heap) (s : String8) (p : ℕ) (b : Block)
    → s.str ≡ some p
    → h.cell p ≡ some b
    → bytes_of s h ≡ ok (b.bytes, h)
unfolding bytes_of
bytes_of_block h s p b points at = on_block-some _ s.str h points ∙ load-bind _ p h at

module _ (h : Heap) (s : String8) (refs : ℕ) (text rest : List ℕ)
    (v : Holds h s refs text rest) where
  pub bytes_of_lem : bytes_of s h ≡ ok (text ++ 0 ∷ rest, h)
  bytes_of_lem = bytes_of_block h s v.address _ v.points v.at

  pub text_of_lem : text_of s h ≡ ok (text, h)
  unfolding text_of
  text_of_lem = bind_ok (bytes_of s) _ h bytes_of_lem ∙ read_text-nul text rest h v.plain

  pub size_lem : size s h ≡ ok (length text, h)
  unfolding size
  size_lem = null_or-some _ _ s.str h v.points ∙ bind_ok (text_of s) _ h text_of_lem

  pub length-bytes : length (text ++ 0 ∷ rest) ≡ s.capacity + 1
  length-bytes = omega (arith, v.room, length-append text (0 ∷ rest))

-- A write to the one owner's block.
pub put_bytes_lem :
    (h : Heap) (s : String8) (p : ℕ) (old bytes : List ℕ)
    → s.str ≡ some p
    → h.cell p ≡ some (record { refs = 1; bytes = old })
    → put_bytes s bytes h ≡ ok (tt, with_bytes h p bytes)
unfolding put_bytes
put_bytes_lem h s p old bytes points at = on_block-some _ s.str h points ∙ load-bind _ p h at

pub write-Edits :
    (Good : List ℕ → Type 0) (h : Heap) (p q : ℕ) (h' : Heap) (old : Block)
    → h.cell p ≡ some old
    → IsFresh h
    → Edits Good h p q h'
    → (bytes : List ℕ) → Edits (λ bs. bs ≡ bytes) h p q (with_bytes h' q bytes)
write-Edits Good h p q h' old at fresh e bytes = record {
  bytes = bytes;
  good = refl;
  mine = ground arith;
  fresh = with_bytes-IsFresh Good h p q h' old at fresh e bytes;
  keeps = with_bytes-Keeps Good h p q h' old at fresh e bytes;
  place = e.place;
  grants = e.grants;
}

-- A block of its own at the start: the one owner's.
pub sole_Gives :
    (h : Heap) (s : String8) (text rest : List ℕ) (v : Holds h s 1 text rest)
    → Gives h v.address text rest s h
sole_Gives h s text rest v = record {
  address = v.address;
  points = v.points;
  edits = record {
    bytes = text ++ 0 ∷ rest;
    good = refl;
    mine = v.at;
    fresh = v.fresh;
    keeps = λ x c e _. (c, e, refl);
    place = inl (refl, λ c e. ap (λ (b : Block). b.refs) (one c e));
    grants = λ x. refl;
  };
  room = v.room;
  plain = v.plain;
  limit = v.limit;
}
  where
    one :
        (c : Block) → h.cell v.address ≡ some c → c ≡ record { refs = 1; bytes = text ++ 0 ∷ rest }
    one c e = cc (v.at)
