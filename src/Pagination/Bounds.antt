-- ===== src/Pagination/Bounds.antt =====
-- What the metadata of a page mean (pagination.go).
use native.Mathlib.Nat.{div-add-mod, mod-lt}
use backend_infrastructure_g.Base.{
  ℕ, suc, ◌+◌, ◌*◌, ◌/◌, ◌%◌, ◌≤◌, ◌<◌, ◌≡◌, ◌↔◌, true, ℤ, pos, negsuc, zero, ◌⊎◌, inl, inr, ◌≤ℤ◌,
  pos_part, max_int64, arith,
}
use backend_infrastructure_g.Pagination.{normalize, new_meta, page_count}

-- Normalised numbers lie in their ranges, a valid request is kept, and normalising again changes
-- nothing.
pub normalize_lem :
    (page size : ℤ)
    → let (p, s) = normalize page size in
      (pos 1 ≤ℤ p)
      × (pos 1 ≤ℤ s)
      × (s ≤ℤ pos 100)
      × (((pos 1 ≤ℤ page) × (pos 1 ≤ℤ size) × (size ≤ℤ pos 100))
          ↔ (normalize page size ≡ (page, size)))
      × (normalize p s ≡ (p, s))
unfolding normalize
normalize_lem page size = ground arith

page_count-cases :
    (total size : ℕ)
    → total % size + total / size ≤ max_int64
    → ((total % size ≡ 0) × (page_count total size ≡ total / size))
      ⊎ ((0 < total % size) × (page_count total size ≡ total / size + 1))
unfolding page_count
page_count-cases total size h = ground arith

-- The count is the quotient rounded up: the least number of pages that hold all items.
page_count-eq_ceil :
    (total size : ℕ)
    → 0 < size
    → total ≤ max_int64
    → (total ≤ page_count total size * size) × (page_count total size * size < total + size)
page_count-eq_ceil total size h m =
    let q : ℕ = total / size in
    let r : ℕ = total % size in
    let whole : size * q + r ≡ total = div-add-mod total size in
    let small : r < size = mod-lt total h in
    let grows : q ≤ size * q = grind arith in
    elim (page_count-cases total size (omega arith)) [
      | inl (exact, e) ↦ rw e (omega arith)
      | inr (rest, e) ↦ rw e (omega arith)
    ]

lt_ceil : (p n s t : ℕ) → t ≤ n * s → n * s < t + s → (p * s < t) ↔ (p < n)
lt_ceil p n s t h k = (λ l. grind arith, λ l. grind arith)

normalize-pos :
    (page size : ℤ) → (p : ℕ) × (s : ℕ) × (normalize page size ≡ (pos p, pos s)) × (0 < p) × (0 < s)
unfolding normalize
normalize-pos page size =
    let (p, s) = normalize page size in
    (pos_part p, pos_part s, ground arith, ground arith, ground arith)

-- For a request with any page, size and total, the metadata say exactly: another page follows when
-- items are left beyond this one, a page precedes when this is not the first and there are items,
-- and the pages are the least number that hold all items (none for a total that is not positive).
pub new_meta_lem :
    (page size : ℤ) (t : ℤ)
    → t ≤ℤ pos max_int64
    → let m = new_meta page size t in
      let p = pos_part m.page in
      let s = pos_part m.size in
      let n = pos_part m.pages in
      ((m.page, m.size) ≡ normalize page size)
      × (m.total ≡ pos (pos_part t))
      × ((m.has_next ≡ true) ↔ (p * s < pos_part t))
      × ((m.has_prev ≡ true) ↔ ((1 < p) × (0 < pos_part t)))
      × (pos_part t ≤ n * s)
      × (n * s < pos_part t + s)
unfolding new_meta
new_meta_lem page size (negsuc t) h =
    let (p, s, e, hp, hs) = normalize-pos page size in rw e (ground arith)
new_meta_lem page size (pos zero) h =
    let (p, s, e, hp, hs) = normalize-pos page size in rw e (ground arith)
new_meta_lem page size (pos (suc t)) h =
    let (p, s, e, hp, hs) = normalize-pos page size in
    let n = page_count (suc t) s in
    let (lower, upper) = page_count-eq_ceil (suc t) s hs (omega arith) in
    let next = lt_ceil p n s (suc t) lower upper in
    let some_pages : 0 < n = grind arith in rw e (ground arith)
