-- ===== src/Pagination/Offset.antt =====
-- The offset of a page as the stores compute it: `int32((page - 1) * size)`.
use backend_infrastructure_g.Base.{
  ℕ, suc, ◌+◌, ◌*◌, ◌-◌, ◌≤◌, ◌<◌, ◌≡◌, ◌↔◌, ℤ, pos, negsuc, ◌-ℤ◌, ◌*ℤ◌, wrap32, wrap64, max_int64,
  arith,
}

-- `(page - 1) * size` in 64 bits, cut to 32 bits.
unfoldable pub list_offset : ℤ → ℤ → ℤ
unfolding wrap32 wrap64
list_offset page size = wrap32 (wrap64 ((page -ℤ pos 1) *ℤ size))

offset_product : (p s : ℕ) → (pos (suc p) -ℤ pos 1) *ℤ pos s ≡ pos (p * s)
unfolding ◌-ℤ◌ ◌*ℤ◌
offset_product p s = ground arith

-- The offset of page p + 1 is the number of items on the p pages before it exactly as long as that
-- number fits an int32.
pub list_offset_iff :
    (p s : ℕ)
    → p * s ≤ max_int64
    → (list_offset (pos (suc p)) (pos s) ≡ pos (p * s)) ↔ (p * s ≤ 0x7fff_ffff)
unfolding list_offset
list_offset_iff p s h = rw (offset_product p s) (ground arith)

-- An offset that needs 32 bits comes out negative.
pub list_offset-negative :
    (p s k : ℕ)
    → k < 0x8000_0000
    → p * s ≡ k + 0x8000_0000
    → list_offset (pos (suc p)) (pos s) ≡ negsuc (0x7fff_ffff - k)
unfolding list_offset
list_offset-negative p s k h e = rw (offset_product p s, e) (ground arith)
