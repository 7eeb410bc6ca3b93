-- ===== src/Response/Pages.antt =====
-- The numbers of `with_pagination`.
use native.Mathlib.Nat.{le-div_iff_mul-le}
use net_conduit.Base.{
  ℕ, suc, ◌+◌, ◌-◌, ◌*◌, ◌/◌, ◌<◌, ◌≡◌, ◌↔◌, Bool, true, false, Option, some, arith,
}
use net_conduit.Response.{PyValue, boolean, get, pagination, total_pages}

abbrev pub is_true : Option PyValue → Bool
is_true (some (boolean b)) = b
is_true _ = false

-- With a page size above 0, a page has a next one, by the dict of `with_pagination`, exactly when its
-- number is below that of the pages in the same dict.
has_next-total_pages :
    (total page page_size pages : ℕ)
    → 0 < page_size
    → total_pages total page_size ≡ some pages
    → (is_true (get "has_next" (pagination total page page_size pages)) ≡ true) ↔ (page < pages)
unfolding get total_pages
has_next-total_pages total page page_size pages h e =
    let same : pages ≡ (total + page_size - 1) / page_size = ground (arith, h, e) in
    let count = le-div_iff_mul-le {x = suc page} {y = total + page_size - 1} h in
    let next : suc page * page_size ≡ page * page_size + page_size = omega arith in
    (
      λ t.
          let below : page * page_size < total = ground (arith, t) in
          let enough = count.1 (omega (arith, below, next, h)) in omega (arith, enough, same),
      λ p.
          let enough = count.0 (omega (arith, p, same)) in
          let below : page * page_size < total = omega (arith, enough, next, h) in
          ground (arith, below),
    )
