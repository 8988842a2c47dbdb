-- ===== src/Buffer/ByteBuffer/Sharing.antt =====
-- Buffers that share a block.
use alias.Prelude.{ℕ, ◌+◌, ◌^◌, ◌<◌, ◌≡◌, refl, inr, sym, ◌∙◌, List, some, length, take, arith}
use alias.Outcome.{ok, Returns}
use alias.Buffer.Heap.{Block, Heap, ◌>>=◌, bind_ok, on_block-some}
use alias.Buffer.Shared.{acquire}
use alias.Buffer.Shared.Laws.{shared, acquire_lem}
use alias.Buffer.ByteBuffer.{ByteBuffer, copy, set}
use alias.Buffer.ByteBuffer.Write.{IsValid, contents, contents_valid, Writes, set-Writes}

-- A buffer at a block with the same bytes shows the same.
contents_same :
    (h h' : Heap) (b : ByteBuffer) (v : IsValid h b) (blk : Block)
    → h'.cell v.address ≡ some blk
    → blk.bytes ≡ v.block.bytes
    → contents h' b ≡ contents h b
contents_same h h' b v blk e same =
    let shows : contents h' b ≡ take b.size blk.bytes = ground (arith, v.points, e) in
    shows ∙ rw same (sym (contents_valid h b v))

module _ (h : Heap) (b : ByteBuffer) (v : IsValid h b) where
  copy_lem : copy b h ≡ ok (b, shared h v.address v.block)
  unfolding copy
  copy_lem =
      on_block-some _ b.buf h v.points
      ∙ bind_ok (acquire v.address) _ h (acquire_lem h v.address v.block v.at)

  abbrev shared-IsValid : IsValid (shared h v.address v.block) b
  shared-IsValid = record {
    address = v.address;
    block = record (v.block) { refs = v.block.refs + 1 };
    points = v.points;
    at = ground arith;
    owned = omega arith;
    room = v.room;
    within = v.within;
    limit = v.limit;
    fresh = λ x le. ground (arith, v.fresh x le, v.at);
  }

  kept :
      (n : ℕ) (shown : List ℕ) (r : (ℕ × ByteBuffer) × Heap)
      → Writes (shared h v.address v.block) v.address n b shown r
      → contents r.1 b ≡ contents h b
  kept n shown r (Writes.short z same refused) =
      contents_same h r.1 b v (record (v.block) { refs = v.block.refs + 1 })
        (refused.same v.address ∙ shared-IsValid.at) refl
  kept n shown r (Writes.done e valid shows keeps grants) =
      let (blk, e, bytes) =
        keeps v.address (record (v.block) { refs = v.block.refs + 1 }) shared-IsValid.at
          (inr (λ q. absurd (omega (arith, v.owned, q)))) in
      contents_same h r.1 b v blk e bytes

  -- Copy on write: `set` on a copy of a valid buffer returns, and the buffer that was copied shows the
  -- same bytes as before. The text is not empty, and has fewer than 2 ^ 52 bytes with the data.
  pub copy-set :
      (d : List ℕ) (off : ℕ)
      → 0 < length d
      → length d + b.size < 2 ^ 52
      → Returns ((copy b >>= set (some d) (length d) off) h) λ r. contents r.1 b ≡ contents h b
  copy-set d off pos small =
      let (r, run, w) = set-Writes (shared h v.address v.block) b shared-IsValid d off pos small in
      (r, bind_ok (copy b) (set (some d) (length d) off) h copy_lem ∙ run, kept (length d) _ r w)
