-- ===== src/Tamalloc/Laws.antt =====
-- What a call of `luis_tamalloc` maps.
use so2_202003745_vd.Base.{ℕ, ◌+◌, ◌%◌, ◌≡◌, ◌≤◌, ◌<◌, arith, word, page_size}
use so2_202003745_vd.Tamalloc.{page_align}

-- The length that is mapped is the next multiple of the page size, for every size that is not
-- within a page of 2 ^ 64.
pub page_align_bounds :
    (size : ℕ)
    → size + page_size ≤ word
    → (size ≤ page_align size)
      × (page_align size < size + page_size)
      × (page_align size % page_size ≡ 0)
unfolding page_align
page_align_bounds size h = omega arith

-- For a larger size the length wraps to 0.
pub page_align_wraps : (size : ℕ) → word < size + page_size → size < word → page_align size ≡ 0
unfolding page_align
page_align_wraps size h small = omega arith
