-- ===== src/Pagination.antt =====
-- pkg/pagination/pagination.go, and pkg/shared/pagination, which passes it on. `int` is 64 bits
-- wide. The test `pageCount > int64(maximum)` is written out although no int64 passes it.
pub mod Bounds
pub mod Offset
mod Tests
use backend_infrastructure_g.Base.{
  ℕ, ◌+◌, ◌/◌, ◌%◌, Bool, ◌&&◌, Option, none, some, List, [], ℤ, pos, ltb_ℤ, pos_part, max_int64,
  ltb, ◌==◌, if◌then◌else◌,
}

abbrev pub default_size : ℤ
default_size = pos 20

abbrev pub max_size : ℤ
max_size = pos 100

pub record Meta : Type 0 where
  pub page : ℤ
  pub size : ℤ
  pub total : ℤ  -- int64
  pub pages : ℤ
  pub has_next : Bool
  pub has_prev : Bool

pub record Page {ℓ} (T : Type ℓ) : Type ℓ where
  pub items : List T
  pub meta : Meta

unfoldable pub normalize : ℤ → ℤ → ℤ × ℤ
normalize page size =
    let page = if ltb_ℤ page (pos 1) then pos 1 else page in
    let size = if ltb_ℤ size (pos 1) then default_size else size in
    let size = if ltb_ℤ max_size size then max_size else size in (page, size)

-- The number of pages; both numbers are positive here.
unfoldable pub page_count : ℕ → ℕ → ℕ
page_count total size =
    let count = total / size in
    let count = if total % size == 0 then count else count + 1 in
    if ltb max_int64 count then max_int64 else count

unfoldable pub new_meta : ℤ → ℤ → ℤ → Meta
new_meta page size total =
    let (page, size) = normalize page size in
    let total = if ltb_ℤ total (pos 0) then pos 0 else total in
    let pages =
      if ltb_ℤ (pos 0) total then pos (page_count (pos_part total) (pos_part size)) else pos 0 in
    record {
      page = page;
      size = size;
      total = total;
      pages = pages;
      has_next = ltb_ℤ page pages;
      has_prev = ltb_ℤ (pos 1) page && ltb_ℤ (pos 0) pages;
    }

-- Nil items become an empty slice, which a list does not tell apart.
unfoldable pub new {ℓ} : {T : Type ℓ} → Option (List T) → ℤ → ℤ → ℤ → Page T
unfolding new_meta
new none page size total = record { items = []; meta = new_meta page size total }
new (some items) page size total = record { items = items; meta = new_meta page size total }
