-- ===== src/Pagination/Tests.antt =====
-- Pages of a result with 41 items.
use backend_infrastructure_g.Base.{◌≡◌, refl, pos}
use backend_infrastructure_g.Pagination.{normalize, new_meta, page_count}

three_pages : (new_meta (pos 2) (pos 20) (pos 41)).pages ≡ pos 3
unfolding new_meta normalize page_count
three_pages = refl
