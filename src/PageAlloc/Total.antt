-- ===== src/PageAlloc/Total.antt =====
-- How many pages the free lists of a region have, as `memory_info` of mm/alloc.rs adds up.
use svsm.Base.{ℕ, zero, suc, ◌+◌, ◌*◌, ◌^◌, ◌<◌, ◌≡◌, List, length, arith}
use svsm.PageAlloc.Lists.{Lists, with_list}

-- The pages on the free lists.
unfoldable pub total : Lists → ℕ
total l =
    length (l 0)
    + 2 * length (l 1)
    + 4 * length (l 2)
    + 8 * length (l 3)
    + 16 * length (l 4)
    + 32 * length (l 5)

pub total-with_list :
    (l : Lists) (o : ℕ) (xs : List ℕ)
    → o < 6
    → total (with_list l o xs) + length (l o) * 2 ^ o ≡ total l + length xs * 2 ^ o
unfolding total
total-with_list l zero xs h = omega arith
total-with_list l (suc zero) xs h = omega arith
total-with_list l (suc (suc zero)) xs h = omega arith
total-with_list l (suc (suc (suc zero))) xs h = omega arith
total-with_list l (suc (suc (suc (suc zero)))) xs h = omega arith
total-with_list l (suc (suc (suc (suc (suc zero))))) xs h = omega arith
total-with_list l (suc (suc (suc (suc (suc (suc o)))))) xs h = absurd (omega arith)
